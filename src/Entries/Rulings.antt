-- ===== src/Entries/Rulings.antt =====
-- What an override allows the operator, and what the two checks before a write make of it.
use trader_joe.Base.{
  ℕ, ◌≡◌, ◌≢◌, ◌⊎◌, inl, inr, refl, subst, Bool, true, false, Option, none, some, List, [], ◌∷◌,
  ◌++◌, ◌==◌, ==→eq, arith, Bool-cases,
}
use trader_joe.Entries.{
  StoreDatasetEntry, OverrideAction, OverrideRow, by_operator, Store, Attempt, committed, refused,
  delete_row,
}
use trader_joe.Entries.Operator.{
  operator, OperatorOverrideInput, strip, reason_of, Ruling, own, overriding, not_allowed,
  with_reason, overriding_reason, logged, audited, deletion_row, audited_always,
}

-- The override row that a write with this reason leaves.
abbrev pub override_row : StoreDatasetEntry → ℕ → OverrideAction → List ℕ → OverrideRow
override_row e id action reason = record {
  actor = operator;
  dataset_id = id;
  owner = e.spec.owner;
  action = action;
  reason = reason;
}

-- A confirmed override with a reason that is not blank.
abbrev pub IsGranted : Option OperatorOverrideInput → List ℕ → Type 0
IsGranted override reason =
    (o : OperatorOverrideInput) × (override ≡ some o)
    × (o.confirmed ≡ true)
    × (strip o.reason ≡ reason)
    × (reason ≢ [])

-- The log after a committed write: as others left it for the operator's own dataset, and one row longer for another's.
abbrev pub IsLogged :
    StoreDatasetEntry
    → ℕ
    → OverrideAction
    → Option OperatorOverrideInput
    → List OverrideRow
    → List OverrideRow
    → Type 0
IsLogged e id action override before after =
    ((e.spec.owner ≡ operator) × (after ≡ before))
    ⊎ ((e.spec.owner ≢ operator)
        × ((reason : List ℕ) × IsGranted override reason
            × (after ≡ before ++ (override_row e id action reason ∷ []))))

-- What a write is answered with, from the store it reads and the one that others left when it wrote.
abbrev pub Audits {ℓ} :
    {A : Type ℓ}
    → StoreDatasetEntry
    → ℕ
    → OverrideAction
    → Option OperatorOverrideInput
    → Store
    → Store
    → Attempt A
    → Type 0
Audits e id action override s others (committed after _) =
    IsLogged e id action override others.overrides after.overrides
Audits e id action override s others (refused after _) = (after ≡ s) ⊎ (after ≡ others)

-- What the deletion log is after an answer, from the store where the bars are counted and the one where the row goes.
abbrev pub Records {ℓ} : {A : Type ℓ} → StoreDatasetEntry → Store → Store → Attempt A → Type 0
Records e counted others (committed after _) =
    (after.deletions
      ≡ others.deletions ++ (deletion_row e (counted.bars e.id) by_operator operator ∷ []))
    × (after.entries ≡ (delete_row e.id others).entries)
    × (after.bars e.id ≡ 0)
Records e counted others (refused after _) = Unit

-- What a ruling on an owner and an override says of them.
abbrev pub IsRuled : ℕ → Option OperatorOverrideInput → Ruling → Type 0
IsRuled owner override own = owner ≡ operator
IsRuled owner override (overriding reason) = (owner ≢ operator) × IsGranted override reason
IsRuled owner override not_allowed = Unit

with_reason-IsRuled :
    (owner : ℕ) (override : Option OperatorOverrideInput) (reason : List ℕ)
    → owner ≢ operator
    → (reason ≢ [] → IsGranted override reason)
    → IsRuled owner override (with_reason reason)
with_reason-IsRuled owner override [] h granted = tt
with_reason-IsRuled owner override (c ∷ cs) h granted = (h, granted (λ e. absurd (cc)))

reason_of-IsGranted :
    (override : Option OperatorOverrideInput)
    → reason_of override ≢ []
    → IsGranted override (reason_of override)
unfolding reason_of
reason_of-IsGranted none h = absurd (h refl)
reason_of-IsGranted (some o) h = elim (Bool-cases o.confirmed) [
  | inl k ↦ (o, refl, k, rw k refl, h)
  | inr k ↦ absurd (h (rw k refl))
]

differ : (a b : ℕ) → (a == b) ≡ false → a ≢ b
differ a b h e = ground (arith, h, e)

pub ruled :
    (owner : ℕ) (override : Option OperatorOverrideInput)
    → IsRuled owner override (overriding_reason owner operator override)
unfolding overriding_reason
ruled owner override = elim (Bool-cases (owner == operator)) [
  | inl h ↦ rw h (==→eq owner operator h)
  | inr h ↦ rw h (
      with_reason-IsRuled owner override (reason_of override) (differ owner operator h)
        (reason_of-IsGranted override))
]

pub logged-IsLogged :
    (e : StoreDatasetEntry) (id : ℕ) (action : OverrideAction)
    (override : Option OperatorOverrideInput) (ruling : Ruling) (s : Store)
    → IsRuled e.spec.owner override ruling
    → ruling ≢ not_allowed
    → IsLogged e id action override s.overrides (logged ruling id e.spec.owner action s).overrides
logged-IsLogged e id action override own s r h = inl (r, refl)
logged-IsLogged e id action override (overriding reason) s (others, granted) h =
    inr (others, (reason, granted, refl))
logged-IsLogged e id action override not_allowed s r h = absurd (h refl)

module _ (e : StoreDatasetEntry) (id : ℕ) (action : OverrideAction)
    (override : Option OperatorOverrideInput) (s others : Store) where
  pub audited-Audits {ℓ} :
      {A : Type ℓ} (recording : Bool) (ruling : Ruling) (next : Attempt A)
      → (ruling ≢ not_allowed → Audits e id action override s others next)
      → Audits e id action override s others (audited s recording ruling next)
  audited-Audits recording own next h = h (λ k. absurd (cc))
  audited-Audits true (overriding reason) next h = h (λ k. absurd (cc))
  audited-Audits false (overriding reason) next h = inl refl
  audited-Audits recording not_allowed next h = inl refl

  pub audited_always-Audits {ℓ} :
      {A : Type ℓ} (recording : Bool) (ruling : Ruling) (next : Attempt A)
      → (ruling ≢ not_allowed → Audits e id action override s others next)
      → Audits e id action override s others (audited_always s recording ruling next)
  audited_always-Audits true own next h = h (λ k. absurd (cc))
  audited_always-Audits false own next h = inl refl
  audited_always-Audits true (overriding reason) next h = h (λ k. absurd (cc))
  audited_always-Audits false (overriding reason) next h = inl refl
  audited_always-Audits recording not_allowed next h = inl refl

  pub left_log :
      (ruling : Ruling) (t : Store)
      → IsRuled e.spec.owner override ruling
      → t.overrides ≡ others.overrides
      → ruling ≢ not_allowed
      → IsLogged e id action override others.overrides
          (logged ruling id e.spec.owner action t).overrides
  left_log ruling t r same h =
      subst
        (λ (log : List OverrideRow).
          IsLogged e id action override log (logged ruling id e.spec.owner action t).overrides)
        same (logged-IsLogged e id action override ruling t r h)
