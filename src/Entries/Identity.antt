-- ===== src/Entries/Identity.antt =====
-- When two rows share an identity, and what a table of rows with an identity each looks like.
use trader_joe.Base.{
  ℕ, ◌≡◌, ◌⊎◌, ◌∙◌, inl, inr, refl, subst, Bool, true, false, ◌&&◌, none, some, List, [], ◌∷◌, map,
  filter, arith, ◌==◌, ==→eq, Bool-cases, All, All-map, All-filter,
}
use trader_joe.Market.{UpdateType, static, daily, stream}
use trader_joe.Entries.{
  Spec, same_update_type, same_spec, Range, StoreDatasetEntry, same_identity, ids_of, first_of,
  find, find_identity,
}

==_sym : (a b : ℕ) → (a == b) ≡ (b == a)
==_sym a b = ground arith

same_update_type_sym : (u v : UpdateType) → same_update_type u v ≡ same_update_type v u
same_update_type_sym static static = refl
same_update_type_sym static daily = refl
same_update_type_sym static stream = refl
same_update_type_sym daily static = refl
same_update_type_sym daily daily = refl
same_update_type_sym daily stream = refl
same_update_type_sym stream static = refl
same_update_type_sym stream daily = refl
same_update_type_sym stream stream = refl

same_spec_sym : (a b : Spec) → same_spec a b ≡ same_spec b a
unfolding same_spec
same_spec_sym a b =
    rw
      (
        ==_sym a.asset_symbol b.asset_symbol,
        ==_sym a.source b.source,
        ==_sym a.granularity b.granularity,
        ==_sym a.asset_type b.asset_type,
        ==_sym a.data_type b.data_type,
        ==_sym a.owner b.owner,
        ==_sym a.expiry_type b.expiry_type,
        same_update_type_sym a.update_type b.update_type,
      )
      refl

pub both : (a b : Bool) → (a && b) ≡ true → (a ≡ true) × (b ≡ true)
both true true e = (refl, refl)
both true false e = absurd (cc)
both false b e = absurd (cc)

same_update_type→eq : (u v : UpdateType) → same_update_type u v ≡ true → u ≡ v
same_update_type→eq static static e = refl
same_update_type→eq static daily e = absurd (cc)
same_update_type→eq static stream e = absurd (cc)
same_update_type→eq daily static e = absurd (cc)
same_update_type→eq daily daily e = refl
same_update_type→eq daily stream e = absurd (cc)
same_update_type→eq stream static e = absurd (cc)
same_update_type→eq stream daily e = absurd (cc)
same_update_type→eq stream stream e = refl

pub same_spec→update_type : (a b : Spec) → same_spec a b ≡ true → a.update_type ≡ b.update_type
unfolding same_spec
same_spec→update_type a b h = same_update_type→eq a.update_type b.update_type (ground (arith, h))

pub identity_spec :
    (e : StoreDatasetEntry) (spec : Spec) (feed : ℕ) (range : Range)
    → same_identity e spec feed range ≡ true
    → same_spec e.spec spec ≡ true
identity_spec e spec feed range h = ground (arith, h)

-- Whether two rows have the same identity.
abbrev pub clash : StoreDatasetEntry → StoreDatasetEntry → Bool
clash e f = same_identity f e.spec e.feed e.range

pub clash_sym : (e f : StoreDatasetEntry) → clash e f ≡ clash f e
clash_sym e f =
    rw
      (
        same_spec_sym f.spec e.spec,
        ==_sym f.feed e.feed,
        ==_sym f.range.start e.range.start,
        ==_sym f.range.end e.range.end,
      )
      refl

-- Two rows that are different datasets.
abbrev pub IsApart : StoreDatasetEntry → StoreDatasetEntry → Type 0
IsApart e f = ((f.id == e.id) ≡ false) × (clash e f ≡ false)

pub IsApart-sym : (e f : StoreDatasetEntry) → IsApart e f → IsApart f e
IsApart-sym e f (a, b) = (==_sym e.id f.id ∙ a, clash_sym f e ∙ b)

-- Rows of which each is another dataset.
unfoldable pub Distinct : List StoreDatasetEntry → Type 0
Distinct [] = Unit
Distinct (e ∷ es) = All (IsApart e) es × Distinct es

-- A change of a row that keeps its id and its identity.
abbrev pub KeepsKey : (StoreDatasetEntry → StoreDatasetEntry) → Type 0
KeepsKey g =
    (e : StoreDatasetEntry)
    → ((g e).id ≡ e.id) × ((g e).spec ≡ e.spec) × ((g e).feed ≡ e.feed) × ((g e).range ≡ e.range)

pub map-All :
    (P : StoreDatasetEntry → Type 0) (g : StoreDatasetEntry → StoreDatasetEntry)
    (es : List StoreDatasetEntry)
    → All (λ e. P (g e)) es
    → All P (map g es)
map-All P g [] h = tt
map-All P g (e ∷ es) (h, hs) = (h, map-All P g es hs)

pub map-Distinct :
    (g : StoreDatasetEntry → StoreDatasetEntry)
    → KeepsKey g
    → (es : List StoreDatasetEntry) → Distinct es
    → Distinct (map g es)
unfolding Distinct
map-Distinct g keeps [] d = tt
map-Distinct g keeps (e ∷ es) (apart, d) =
    (map-All (IsApart (g e)) g es (All-map still es apart), map-Distinct g keeps es d)
  where
    still : (f : StoreDatasetEntry) → IsApart e f → IsApart (g e) (g f)
    still f (a, b) =
        let (i, s, t, r) = keeps e in
        let (i', s', t', r') = keeps f in (rw (i, i') a, rw (s, t, r, s', t', r') b)

pub filter-Distinct :
    (p : StoreDatasetEntry → Bool) (es : List StoreDatasetEntry)
    → Distinct es
    → Distinct (filter p es)
unfolding Distinct
filter-Distinct p [] d = tt
filter-Distinct p (e ∷ es) (apart, d) = elim (Bool-cases (p e)) [
  | inl h ↦ rw h (All-filter (IsApart e) p es apart, filter-Distinct p es d)
  | inr h ↦ rw h (filter-Distinct p es d)
]

-- What a search that found nothing says of every row.
pub none-All :
    (p : StoreDatasetEntry → Bool) (es : List StoreDatasetEntry)
    → first_of (ids_of (filter p es)) ≡ none
    → All (λ e. p e ≡ false) es
none-All p [] h = tt
none-All p (e ∷ es) h = elim (Bool-cases (p e)) [
  | inl k ↦ absurd (cc (rw k at h))
  | inr k ↦ (k, none-All p es (rw k at h))
]

pub find_identity-none :
    (es : List StoreDatasetEntry) (spec : Spec) (feed : ℕ) (range : Range)
    → find_identity es spec feed range ≡ none
    → All (λ e. same_identity e spec feed range ≡ false) es
find_identity-none [] spec feed range h = tt
find_identity-none (e ∷ es) spec feed range h =
    elim (Bool-cases (same_identity e spec feed range)) [
      | inl k ↦ absurd (cc (rw k at h))
      | inr k ↦ (k, find_identity-none es spec feed range (rw k at h))
    ]

pub find_identity-some :
    (es : List StoreDatasetEntry) (spec : Spec) (feed : ℕ) (range : Range)
    (found : StoreDatasetEntry)
    → find_identity es spec feed range ≡ some found
    → same_identity found spec feed range ≡ true
find_identity-some [] spec feed range found h = absurd (cc)
find_identity-some (e ∷ es) spec feed range found h =
    elim (Bool-cases (same_identity e spec feed range)) [
      | inl k ↦
          let same : e ≡ found = cc (rw k at h) in
          subst (λ (x : StoreDatasetEntry). same_identity x spec feed range ≡ true) same k
      | inr k ↦ find_identity-some es spec feed range found (rw k at h)
    ]

-- The row is in the table.
abbrev pub In : StoreDatasetEntry → List StoreDatasetEntry → Type 0
In e [] = ⊥
In e (f ∷ fs) = (f ≡ e) ⊎ In e fs

pub find_identity-In :
    (es : List StoreDatasetEntry) (spec : Spec) (feed : ℕ) (range : Range)
    (found : StoreDatasetEntry)
    → find_identity es spec feed range ≡ some found
    → In found es
find_identity-In [] spec feed range found h = absurd (cc)
find_identity-In (e ∷ es) spec feed range found h =
    elim (Bool-cases (same_identity e spec feed range)) [
      | inl k ↦ inl (cc (rw k at h))
      | inr k ↦ inr (find_identity-In es spec feed range found (rw k at h))
    ]

pub find-In :
    (id : ℕ) (es : List StoreDatasetEntry) (found : StoreDatasetEntry)
    → find id es ≡ some found
    → In found es × (found.id ≡ id)
find-In id [] found h = absurd (cc)
find-In id (e ∷ es) found h = elim (Bool-cases (e.id == id)) [
  | inl k ↦
      let same : e ≡ found = cc (rw k at h) in
      (inl same, subst (λ (x : StoreDatasetEntry). x.id ≡ id) same (==→eq e.id id k))
  | inr k ↦ let (there, same) = find-In id es found (rw k at h) in (inr there, same)
]

pub All-In :
    (P : StoreDatasetEntry → Type 0) (e : StoreDatasetEntry) (es : List StoreDatasetEntry)
    → All P es
    → In e es
    → P e
All-In P e [] all h = elim h [ ]
All-In P e (f ∷ fs) (p, all) (inl same) = subst P same p
All-In P e (f ∷ fs) (p, all) (inr h) = All-In P e fs all h

-- In a table of distinct rows an id names one row.
abbrev pub Names : StoreDatasetEntry → StoreDatasetEntry → Type 0
Names e f = (f.id == e.id) ≡ true → f ≡ e

pub Distinct-Names :
    (e : StoreDatasetEntry) (es : List StoreDatasetEntry) → Distinct es → In e es → All (Names e) es
unfolding Distinct
Distinct-Names e [] d h = tt
Distinct-Names e (f ∷ fs) (apart, d) (inl same) = (λ _. same, All-map others fs apart)
  where
    others : (g : StoreDatasetEntry) → IsApart f g → Names e g
    others g (differs, _) named =
        let clear : (g.id == e.id) ≡ false =
          subst (λ (x : StoreDatasetEntry). (g.id == x.id) ≡ false) same differs in
        absurd (cc)
Distinct-Names e (f ∷ fs) (apart, d) (inr h) = (not_here, Distinct-Names e fs d h)
  where
    not_here : Names e f
    not_here named =
        let differs : (e.id == f.id) ≡ false = (All-In (IsApart f) e fs apart h).0 in
        let clear : (f.id == e.id) ≡ false = ==_sym f.id e.id ∙ differs in absurd (cc)
