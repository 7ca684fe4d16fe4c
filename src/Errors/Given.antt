-- ===== src/Errors/Given.antt =====
-- What an error that the constructor built holds, and how its metadata goes to the wire and comes back.
use trader_joe.Base.{
  ℕ, ◌≡◌, inl, inr, refl, sym, subst, true, false, Option, none, some, List, [], ◌∷◌, map, arith,
  ==_refl, Bool-cases, All,
}
use trader_joe.Base.Raised.{Raised, ok}
use trader_joe.Errors.{Reason, Branch, exogenous_error, invalid_request_error, reasons}
use trader_joe.Errors.Build.{
  DateTime, naive, aware, early, Text, Key, error_id_key, reset_at_key, index_of, is_key, is_listed,
  is_derived, text, Metadata, lookup, put, ErrorClass, branch_class, branch_of, same_branch,
  TraderJoeError, built, trader_joe_error,
}
use trader_joe.Errors.Rpc.{wired, with_id}
use trader_joe.Errors.Received.{kept}
use trader_joe.Errors.Rules.{
  IsGivable, IsTimely, IsShown, instant_of, checked_metadata-cases, checked_reset_at-cases,
  Constructs, trader_joe_error-Constructs,
}

abbrev pub at : Option ℕ → Option DateTime
at none = none
at (some t) = some (aware t)

-- What holds of an error that the constructor built.
pub record IsBuilt (e : TraderJoeError) : Type 0 where
  pub of_branch : branch_of e.class ≡ some (reasons e.reason).branch
  pub givable : All IsGivable e.metadata
  pub timely : IsTimely (reasons e.reason) (at e.reset_at)
  pub shown : IsShown (at e.reset_at)

IsTimely-instant :
    (reason : Reason) (t : Option DateTime)
    → IsTimely (reasons reason) t
    → IsShown t
    → IsTimely (reasons reason) (at (instant_of t))
IsTimely-instant reason none h k = h
IsTimely-instant reason (some (naive t)) h k = elim h [ ]
IsTimely-instant reason (some (aware t)) h k = h
IsTimely-instant reason (some (early by)) h k = elim k [ ]

IsShown-instant : (t : Option DateTime) → IsShown t → IsShown (at (instant_of t))
IsShown-instant none h = tt
IsShown-instant (some (naive t)) h = tt
IsShown-instant (some (aware t)) h = h
IsShown-instant (some (early by)) h = elim h [ ]

pub trader_joe_error-IsBuilt :
    (class : ErrorClass) (reason : Reason) (detail : Text) (m : Metadata) (t : Option DateTime)
    (e : TraderJoeError)
    → trader_joe_error class reason detail m t ≡ ok e
    → IsBuilt e
trader_joe_error-IsBuilt class reason detail m t e h =
    let (b, g, k, u, same) =
      subst (λ (x : Raised TraderJoeError). Constructs class reason detail m t x) h
        (trader_joe_error-Constructs class reason detail m t) in
    subst IsBuilt (sym same) (record {
      of_branch = b;
      givable = g;
      timely = IsTimely-instant reason t k u;
      shown = IsShown-instant t u;
    })

same_branch_refl : (b : Branch) → same_branch b b ≡ true
same_branch_refl exogenous_error = refl
same_branch_refl invalid_request_error = refl

-- The constructor of a reason's own branch.
pub branch_class-ok :
    (reason : Reason) (detail : Text) (m : Metadata) (t : Option DateTime)
    → All IsGivable m
    → IsTimely (reasons reason) t
    → IsShown t
    → trader_joe_error (branch_class (reasons reason).branch) reason detail m t
      ≡ ok (record {
        class = branch_class (reasons reason).branch;
        reason = reason;
        detail = detail;
        metadata = m;
        reset_at = instant_of t;
      })
unfolding trader_joe_error built
branch_class-ok reason detail m t g k u = elim (checked_metadata-cases m) [
  | inr failed ↦ absurd (failed.1 g)
  | inl (e, _) ↦ elim (checked_reset_at-cases (reasons reason) t) [
    | inr (inl failed) ↦ absurd (failed.1 k)
    | inr (inr failed) ↦ absurd (failed.1.1 u)
    | inl (f, _) ↦ rw (same_branch_refl (reasons reason).branch, e, f) refl
  ]
]

-- The keys of wire metadata.
abbrev pub HasKeys : List (Key × Text) → Type 0
HasKeys m = All (λ e. (is_listed e.0 ≡ true) × (is_derived e.0 ≡ false)) m

abbrev pub texts : List (Key × Text) → Metadata
texts m = map (λ e. (e.0, text e.1)) m

wired-HasKeys : (m : Metadata) → All IsGivable m → HasKeys (wired m)
wired-HasKeys [] g = tt
wired-HasKeys (e ∷ m) (g, gs) = (g, wired-HasKeys m gs)

put-HasKeys : (id : Text) (m : List (Key × Text)) → HasKeys m → HasKeys (put error_id_key id m)
put-HasKeys id [] g = ((refl, refl), tt)
put-HasKeys id ((k, v) ∷ m) (g, gs) = elim (Bool-cases (is_key k error_id_key)) [
  | inl h ↦ rw h (g, gs)
  | inr h ↦ rw h (g, put-HasKeys id m gs)
]

pub with_id-HasKeys :
    (own : Option Text) (id : Text) (m : Metadata)
    → All IsGivable m
    → HasKeys (with_id own id (wired m))
with_id-HasKeys none id m g = put-HasKeys id (wired m) (wired-HasKeys m g)
with_id-HasKeys (some own) id m g = wired-HasKeys m g

pub texts-IsGivable : (m : List (Key × Text)) → HasKeys m → All IsGivable (texts m)
texts-IsGivable [] g = tt
texts-IsGivable (e ∷ m) (g, gs) = (g, texts-IsGivable m gs)

pub kept_all : (m : List (Key × Text)) → HasKeys m → kept m ≡ texts m
kept_all [] g = refl
kept_all ((k, v) ∷ m) ((_, d), gs) = rw (d, kept_all m gs) refl

-- The key of the reset time is none of those.
not_reset : (k : Key) → is_derived k ≡ false → is_key k reset_at_key ≡ false
not_reset k d = ground (arith, d)

pub kept-put :
    (id : Text) (m : List (Key × Text)) → HasKeys m → kept (put reset_at_key id m) ≡ texts m
kept-put id [] g = refl
kept-put id ((k, v) ∷ m) ((_, d), gs) = rw (not_reset k d, d, kept-put id m gs) refl

pub lookup_reset : (m : List (Key × Text)) → HasKeys m → lookup reset_at_key m ≡ none
lookup_reset [] g = refl
lookup_reset ((k, v) ∷ m) ((_, d), gs) = rw (not_reset k d, lookup_reset m gs) refl

pub lookup-put {ℓ} :
    {A : Type ℓ} (key : Key) (v : A) (m : List (Key × A)) → lookup key (put key v m) ≡ some v
lookup-put key v [] = rw (==_refl (index_of key)) refl
lookup-put key v ((k, w) ∷ m) = elim (Bool-cases (is_key k key)) [
  | inl h ↦ rw h (rw h refl)
  | inr h ↦ rw h (rw h (lookup-put key v m))
]
