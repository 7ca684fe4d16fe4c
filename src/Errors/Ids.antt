-- ===== src/Errors/Ids.antt =====
-- The error id across the hop: the servicer's log, the status, the caller's answer over HTTP and its log.
use trader_joe.Base.{
  ℕ, ◌≡◌, inl, inr, refl, ap, sym, subst, ◌∙◌, true, false, Option, none, some, List, [], ◌∷◌, ◌++◌,
  arith, Bool-cases,
}
use trader_joe.Base.Raised.{Raised, ok, raise}
use trader_joe.Errors.Codes.{StatusCode}
use trader_joe.Errors.{reasons}
use trader_joe.Errors.Build.{
  Text, Key, error_id_key, is_key, Value, text, sequence, Metadata, lookup, put, comma, join,
  is_empty, names_something, id_in, own_error_id, TraderJoeError, Chain,
}
use trader_joe.Errors.Rpc.{
  Runtime, Reply, AioRpcError, wire_value, wired, with_id, settled_id, LogLine, line_of, typed,
  abort_for,
}
use trader_joe.Errors.Received.{from_rpc_error}
use trader_joe.Errors.Http.{ProblemDetails, Response, describe, answer, on_trader_joe_error}
use trader_joe.Errors.Given.{IsBuilt, texts, lookup-put}
use trader_joe.Errors.Hop.{RuntimeLaws, Delivers, relayed, from_rpc_error-abort_for}

append_nonempty : (cs ds : Text) → is_empty cs ≡ false → is_empty (cs ++ ds) ≡ false
append_nonempty [] ds h = absurd (cc)
append_nonempty (c ∷ cs) ds h = refl

comma_nonempty : (cs ds : Text) → is_empty (cs ++ (comma ∷ ds)) ≡ false
comma_nonempty [] ds = refl
comma_nonempty (c ∷ cs) ds = refl

join_nonempty : (items : List Text) → names_something items ≡ true → is_empty (join items) ≡ false
join_nonempty [] h = absurd (cc)
join_nonempty (item ∷ []) h = ground (arith, h)
join_nonempty (item ∷ next ∷ items) h = comma_nonempty item (join (next ∷ items))

abbrev value_of : Option Value → Option Text
value_of none = none
value_of (some v) = some (wire_value v)

abbrev as_text : Option Text → Option Value
as_text none = none
as_text (some cs) = some (text cs)

lookup-wired : (key : Key) (m : Metadata) → lookup key (wired m) ≡ value_of (lookup key m)
lookup-wired key [] = refl
lookup-wired key ((k, v) ∷ m) = elim (Bool-cases (is_key k key)) [
  | inl h ↦ rw h refl
  | inr h ↦ rw (h, lookup-wired key m) refl
]

lookup-texts : (key : Key) (m : List (Key × Text)) → lookup key (texts m) ≡ as_text (lookup key m)
lookup-texts key [] = refl
lookup-texts key ((k, v) ∷ m) = elim (Bool-cases (is_key k key)) [
  | inl h ↦ rw h refl
  | inr h ↦ rw (h, lookup-texts key m) refl
]

-- An id that an error has is written as itself, and names something.
id_in-wired :
    (v : Option Value) (own : Text)
    → id_in v ≡ some own
    → (value_of v ≡ some own) × (is_empty own ≡ false)
id_in-wired none own h = absurd (cc)
id_in-wired (some (text cs)) own h = elim (Bool-cases (is_empty cs)) [
  | inl e ↦ absurd (cc (rw e at h))
  | inr e ↦
      let same : some cs ≡ some own = rw e at h in
      (same, subst (λ (x : Option Text). is_empty (settled_id x []) ≡ false) same e)
]
id_in-wired (some (sequence items)) own h = elim (Bool-cases (names_something items)) [
  | inl e ↦
      let same : some (join items) ≡ some own = rw e at h in
      (
        same,
        subst (λ (x : Option Text). is_empty (settled_id x []) ≡ false) same
            (join_nonempty items e),
      )
  | inr e ↦ absurd (cc (rw e at h))
]

named : (id : Text) → is_empty id ≡ false → id_in (some (text id)) ≡ some id
named id h = rw h refl

-- The id that the relayed metadata holds.
sent_id :
    (own : Option Text) (fresh : Text) (m : Metadata)
    → is_empty fresh ≡ false
    → id_in (lookup error_id_key m) ≡ own
    → (lookup error_id_key (texts (with_id own fresh (wired m)))
        ≡ some (text (settled_id own fresh)))
      × (is_empty (settled_id own fresh) ≡ false)
sent_id none fresh m h is = (
  lookup-texts error_id_key (put error_id_key fresh (wired m))
      ∙ ap as_text (lookup-put error_id_key fresh (wired m)),
  h,
)
sent_id (some own) fresh m h is =
    let (same, names) = id_in-wired (lookup error_id_key m) own is in
    (lookup-texts error_id_key (wired m) ∙ ap as_text (lookup-wired error_id_key m ∙ same), names)

pub relayed_id :
    (e : TraderJoeError) (fresh : Text)
    → is_empty fresh ≡ false
    → (lookup error_id_key (relayed e fresh).metadata
        ≡ some (text (settled_id (own_error_id e) fresh)))
      × (own_error_id (relayed e fresh) ≡ some (settled_id (own_error_id e) fresh))
unfolding own_error_id
relayed_id e fresh h =
    let (found, names) = sent_id (own_error_id e) fresh e.metadata h refl in
    (found, ap id_in found ∙ named (settled_id (own_error_id e) fresh) names)

-- What an HTTP answer says of an id: the body holds it, the log names it, and no chain is logged under it.
abbrev pub Names : Text → Response × LogLine → Type 0
Names id (response, line) =
    ((body : ProblemDetails) × (response.body ≡ some body)
      × (lookup error_id_key body.members ≡ some (text id)))
    × (line.error_id ≡ id)
    × (line.with_chain ≡ false)

answers_own :
    (phrase : ℕ → Text) (e : TraderJoeError) (chain : Chain) (fresh id : Text) (now : ℕ)
    → lookup error_id_key e.metadata ≡ some (text id)
    → own_error_id e ≡ some id
    → Names id (on_trader_joe_error phrase e chain fresh now)
unfolding on_trader_joe_error answer describe
answers_own phrase e chain fresh id now found own = rw own ((_, refl, found), refl, refl)

value_or {ℓ} : {A : Type ℓ} → A → Raised A → A
value_or a (ok b) = b
value_or a (raise e) = a

ok_inj {ℓ} : {A : Type ℓ} (a b : A) → ok a ≡ ok b → a ≡ b
unfolding value_or
ok_inj a b h = ap (value_or a) h

-- If gRPC delivers what was sent, a written instant reads as itself and the minted id is not empty: when an error that the
-- constructor built and whose reason has a status escapes a servicer, and the caller rebuilds it and answers it over HTTP,
-- the body of that answer holds the id that the servicer's log line names, the caller's log line names it too, and no
-- chain is logged with it there.
pub on_trader_joe_error-from_rpc_error :
    (r : Runtime) (laws : RuntimeLaws r) (received : Reply → AioRpcError)
    (delivers : Delivers received) (e : TraderJoeError) (built : IsBuilt e) (chain : Chain)
    (fresh : Text) (now later : ℕ) (code : StatusCode) (reply : Reply) (line : LogLine)
    (rebuilt : TraderJoeError) (phrase : ℕ → Text) (here : Chain) (unused : Text)
    → is_empty fresh ≡ false
    → (reasons e.reason).grpc_code ≡ some code
    → abort_for r (typed e chain) fresh now ≡ ok (reply, line)
    → from_rpc_error r (received reply) later ≡ ok rebuilt
    → Names line.error_id (on_trader_joe_error phrase rebuilt here unused later)
on_trader_joe_error-from_rpc_error r laws received delivers e built chain fresh now later code reply
      line rebuilt phrase here unused h k sent back =
    let (reply', sent', back') =
      from_rpc_error-abort_for r laws received delivers e built chain fresh now later code k in
    let same = ok_inj (reply', line_of e chain fresh) (reply, line) (sym sent' ∙ sent) in
    let rebuilds : from_rpc_error r (received reply) later ≡ ok (relayed e fresh) =
      subst (λ (x : Reply). from_rpc_error r (received x) later ≡ ok (relayed e fresh))
        (ap (λ p. p.0) same) back' in
    let there = ok_inj (relayed e fresh) rebuilt (sym rebuilds ∙ back) in
    let (found, own) = relayed_id e fresh h in
    subst (λ (l : LogLine). Names l.error_id (on_trader_joe_error phrase rebuilt here unused later))
      (ap (λ p. p.1) same)
      (subst
        (λ (x : TraderJoeError).
          Names (settled_id (own_error_id e) fresh)
            (on_trader_joe_error phrase x here unused later))
        there
        (answers_own phrase (relayed e fresh) here unused (settled_id (own_error_id e) fresh) later
          found own))
