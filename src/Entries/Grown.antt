-- ===== src/Entries/Grown.antt =====
-- The UPDATE of a range, next to the other rows of the table.
use trader_joe.Base.{
  ℕ, ◌<◌, ◌≡◌, inl, inr, refl, sym, subst, Bool, true, false, not, ◌&&◌, none, some, List, [], ◌∷◌,
  map, ◌==◌, if◌then◌else◌, Bool-cases, Option-cases, All, All-map, All-zip,
}
use trader_joe.Entries.{
  Range, StoreDatasetEntry, same_identity, Store, store_of, find, find_exact_collision, update_row,
}
use trader_joe.Entries.Writes.{write_range}
use trader_joe.Entries.Identity.{
  IsApart, IsApart-sym, Distinct, none-All, find-In, In, Names, Distinct-Names, map-All,
}
use trader_joe.Entries.Kept.{has_intent, IsWellFormed}

-- The row of `e` with another range, next to another row.
ranged : StoreDatasetEntry → Range → ℕ → StoreDatasetEntry → StoreDatasetEntry
ranged e range now f = if f.id == e.id then record f { range = range; updated_at = now } else f

abbrev IsFree : StoreDatasetEntry → Range → StoreDatasetEntry → Type 0
IsFree e range f = (same_identity f e.spec e.feed range && not (f.id == e.id)) ≡ false

left_false : (a b : Bool) → (a && not b) ≡ false → b ≡ false → a ≡ false
left_false false b h k = refl
left_false true false h k = h
left_false true true h k = absurd (cc)

-- Another row than the one of `e` does not have the new identity, whether it stands before or after it.
after_it :
    (e : StoreDatasetEntry) (range : Range) (now : ℕ) (f g : StoreDatasetEntry)
    → f ≡ e
    → (g.id == e.id) ≡ false
    → IsFree e range g
    → IsApart (record f { range = range; updated_at = now }) g
after_it e range now f g same differs free =
    subst (λ (x : StoreDatasetEntry). IsApart (record x { range = range; updated_at = now }) g)
      (sym same) (differs, left_false _ _ free differs)

ranged-IsApart :
    (e : StoreDatasetEntry) (range : Range) (now : ℕ) (f g : StoreDatasetEntry)
    → Names e f × IsFree e range f
    → Names e g × IsFree e range g
    → IsApart f g
    → IsApart (ranged e range now f) (ranged e range now g)
unfolding ranged
ranged-IsApart e range now f g (f_named, f_free) (g_named, g_free) (ids, keys) =
    elim (Bool-cases (f.id == e.id)) [
      | inl k ↦
          let same = f_named k in
          let differs : (g.id == e.id) ≡ false =
            subst (λ (x : StoreDatasetEntry). (g.id == x.id) ≡ false) same ids in
          rw (k, differs) (after_it e range now f g same differs g_free)
      | inr k ↦ elim (Bool-cases (g.id == e.id)) [
        | inl l ↦
            rw (k, l)
              (IsApart-sym (record g { range = range; updated_at = now }) f
                (after_it e range now g f (g_named l) k f_free))
        | inr l ↦ rw (k, l) (ids, keys)
      ]
    ]

ranged-Distinct :
    (e : StoreDatasetEntry) (range : Range) (now : ℕ) (es : List StoreDatasetEntry)
    → All (λ f. Names e f × IsFree e range f) es
    → Distinct es
    → Distinct (map (ranged e range now) es)
unfolding Distinct
ranged-Distinct e range now [] all d = tt
ranged-Distinct e range now (f ∷ fs) (here, all) (apart, d) = (
  map-All (IsApart (ranged e range now f)) (ranged e range now) fs (All-zip step fs all apart),
  ranged-Distinct e range now fs all d,
)
  where
    step :
        (g : StoreDatasetEntry)
        → Names e g × IsFree e range g
        → IsApart f g
        → IsApart (ranged e range now f) (ranged e range now g)
    step g there = ranged-IsApart e range now f g here there

write_range-IsWellFormed :
    (s : Store) (e : StoreDatasetEntry) (range : Range) (now : ℕ)
    → find_exact_collision s e range ≡ none
    → In e s.entries
    → IsWellFormed s
    → IsWellFormed (update_row e.id (λ row. record row { range = range; updated_at = now }) s)
unfolding find_exact_collision ranged
write_range-IsWellFormed s e range now free there w = record {
  distinct =
      ranged-Distinct e range now s.entries
        (All-zip (λ f a b. (a, b)) s.entries (Distinct-Names e s.entries w.distinct there)
          (none-All _ s.entries free))
        w.distinct;
  issued =
      map-All (λ f. f.id < s.next_id) (ranged e range now) s.entries
        (All-map same_id s.entries w.issued);
  intents = map-All _ (ranged e range now) s.entries (All-map same_intent s.entries w.intents);
}
  where
    same_id : (f : StoreDatasetEntry) → f.id < s.next_id → (ranged e range now f).id < s.next_id
    same_id f h = elim (Bool-cases (f.id == e.id)) [ inl k ↦ rw k h | inr k ↦ rw k h ]

    same_intent :
        (f : StoreDatasetEntry)
        → has_intent f.spec.update_type f.collect ≡ true
        → has_intent (ranged e range now f).spec.update_type (ranged e range now f).collect ≡ true
    same_intent f h = elim (Bool-cases (f.id == e.id)) [ inl k ↦ rw k h | inr k ↦ rw k h ]

write_free :
    (s : Store) (e : StoreDatasetEntry) (range : Range) (now : ℕ)
    → In e s.entries
    → IsWellFormed s
    → IsWellFormed (store_of (write_range s (some e) range now))
unfolding write_range
write_free s e range now there w = elim (Option-cases (find_exact_collision s e range)) [
  | inl free ↦ rw (free, store_of) (write_range-IsWellFormed s e range now free there w)
  | inr (other, taken) ↦ rw (taken, store_of) w
]

pub write_found :
    (s : Store) (id : ℕ) (range : Range) (now : ℕ)
    → IsWellFormed s
    → IsWellFormed (store_of (write_range s (find id s.entries) range now))
unfolding write_range
write_found s id range now w = elim (Option-cases (find id s.entries)) [
  | inl e ↦ rw e w
  | inr (found, e) ↦ rw e (write_free s found range now ((find-In id s.entries found e).0) w)
]
