-- ===== src/Entries/Kept.antt =====
-- Every write keeps the table: each row is another dataset, ids are issued once, and exactly the subscriptions have a
-- collect intent.
use trader_joe.Base.{
  ℕ, ◌+◌, ◌<◌, ◌≡◌, inl, inr, refl, sym, subst, Bool, true, false, Option, none, some, arith, ◌==◌,
  if◌then◌else◌, Bool-cases, Option-cases, All, All-map, All-zip, All-filter,
}
use trader_joe.Market.{UpdateType, static, daily, stream}
use trader_joe.Entries.{
  StoreDatasetEntry, same_identity, Store, find_identity, update_row, delete_row,
}
use trader_joe.Entries.Writes.{
  AssetDatasetStoreCreate, requested, resolved_collect, repeated, insert_row, upsert_row,
  upsert_entry_in_transaction,
}
use trader_joe.Entries.Identity.{
  same_spec→update_type, Distinct, KeepsKey, map-All, map-Distinct, filter-Distinct,
  find_identity-none, find_identity-some, identity_spec, find_identity-In, Names, Distinct-Names,
}

-- The CHECK on the collect column.
abbrev pub has_intent : UpdateType → Option Bool → Bool
has_intent static none = true
has_intent static (some _) = false
has_intent _ none = false
has_intent _ (some _) = true

pub record IsWellFormed (s : Store) : Type 0 where
  pub distinct : Distinct s.entries
  pub issued : All (λ e. e.id < s.next_id) s.entries
  pub intents : All (λ e. has_intent e.spec.update_type e.collect ≡ true) s.entries

-- What a change makes of the CHECK, on the rows of an id.
abbrev pub KeepsIntent : ℕ → (StoreDatasetEntry → StoreDatasetEntry) → StoreDatasetEntry → Type 0
KeepsIntent id f e = (e.id == id) ≡ true → has_intent (f e).spec.update_type (f e).collect ≡ true

pub update_row-IsWellFormed :
    (id : ℕ) (f : StoreDatasetEntry → StoreDatasetEntry) (s : Store)
    → KeepsKey f
    → All (KeepsIntent id f) s.entries
    → IsWellFormed s
    → IsWellFormed (update_row id f s)
update_row-IsWellFormed id f s key kept w = record {
  distinct = map-Distinct g keys s.entries w.distinct;
  issued = map-All (λ e. e.id < s.next_id) g s.entries (All-map still_issued s.entries w.issued);
  intents = map-All _ g s.entries (All-zip intents s.entries kept w.intents);
}
  where
    g : StoreDatasetEntry → StoreDatasetEntry
    g e = if e.id == id then f e else e

    keys : KeepsKey g
    keys e = elim (Bool-cases (e.id == id)) [
      | inl h ↦ rw h (key e)
      | inr h ↦ rw h (refl, refl, refl, refl)
    ]

    still_issued : (e : StoreDatasetEntry) → e.id < s.next_id → (g e).id < s.next_id
    still_issued e h = rw ((keys e).0) h

    intents :
        (e : StoreDatasetEntry)
        → KeepsIntent id f e
        → has_intent e.spec.update_type e.collect ≡ true
        → has_intent (g e).spec.update_type (g e).collect ≡ true
    intents e k i = elim (Bool-cases (e.id == id)) [ inl h ↦ rw h (k h) | inr h ↦ rw h i ]

-- A change that leaves the spec and the intent alone.
pub untouched :
    (id : ℕ) (f : StoreDatasetEntry → StoreDatasetEntry) (s : Store)
    → ((e : StoreDatasetEntry) → ((f e).spec ≡ e.spec) × ((f e).collect ≡ e.collect))
    → IsWellFormed s
    → All (KeepsIntent id f) s.entries
untouched id f s same w = All-map keep s.entries w.intents
  where
    keep :
        (e : StoreDatasetEntry)
        → has_intent e.spec.update_type e.collect ≡ true
        → KeepsIntent id f e
    keep e i _ = let (a, b) = same e in rw (a, b) i

pub delete_row-IsWellFormed : (id : ℕ) (s : Store) → IsWellFormed s → IsWellFormed (delete_row id s)
delete_row-IsWellFormed id s w = record {
  distinct = filter-Distinct _ s.entries w.distinct;
  issued = All-filter _ _ s.entries w.issued;
  intents = All-filter _ _ s.entries w.intents;
}

resolved_collect-has_intent :
    (u : UpdateType) (collect : Option Bool) → has_intent u (resolved_collect u collect) ≡ true
unfolding resolved_collect
resolved_collect-has_intent static collect = refl
resolved_collect-has_intent daily none = refl
resolved_collect-has_intent daily (some b) = refl
resolved_collect-has_intent stream none = refl
resolved_collect-has_intent stream (some b) = refl

insert_row-IsWellFormed :
    (s : Store) (entry : AssetDatasetStoreCreate) (collect : Option Bool) (now : ℕ)
    → find_identity s.entries entry.spec entry.feed (requested entry) ≡ none
    → IsWellFormed s
    → IsWellFormed (insert_row s entry (resolved_collect entry.spec.update_type collect) now).0
unfolding Distinct
insert_row-IsWellFormed s entry collect now free w = record {
  distinct = (
    All-zip apart s.entries w.issued
        (find_identity-none s.entries entry.spec entry.feed (requested entry) free),
    w.distinct,
  );
  issued = (omega arith, All-map later s.entries w.issued);
  intents = (resolved_collect-has_intent entry.spec.update_type collect, w.intents);
}
  where
    apart :
        (f : StoreDatasetEntry)
        → f.id < s.next_id
        → same_identity f entry.spec entry.feed (requested entry) ≡ false
        → ((f.id == s.next_id) ≡ false)
          × (same_identity f entry.spec entry.feed (requested entry) ≡ false)
    apart f h k = (ground (arith, h), k)

    later : (f : StoreDatasetEntry) → f.id < s.next_id → f.id < s.next_id + 1
    later f h = omega (arith, h)

pub repeated-KeepsKey :
    (preserve : Bool) (expiry : Option ℕ) (collect resolved : Option Bool) (now : ℕ)
    → KeepsKey (repeated preserve expiry collect resolved now)
repeated-KeepsKey true expiry collect resolved now e = (refl, refl, refl, refl)
repeated-KeepsKey false expiry none resolved now e = (refl, refl, refl, refl)
repeated-KeepsKey false expiry (some c) none now e = (refl, refl, refl, refl)
repeated-KeepsKey false expiry (some c) (some r) now e = (refl, refl, refl, refl)

-- Of a row with the update type that the intent was resolved for.
repeated-has_intent :
    (preserve : Bool) (expiry : Option ℕ) (collect resolved : Option Bool) (now : ℕ)
    (e : StoreDatasetEntry)
    → has_intent e.spec.update_type e.collect ≡ true
    → has_intent e.spec.update_type resolved ≡ true
    → has_intent
        (repeated preserve expiry collect resolved now e).spec.update_type
        (repeated preserve expiry collect resolved now e).collect
      ≡ true
repeated-has_intent true expiry collect resolved now e h k = h
repeated-has_intent false expiry none resolved now e h k = h
repeated-has_intent false expiry (some c) none now e h k = h
repeated-has_intent false expiry (some c) (some r) now e h k = k

repeat_row-IsWellFormed :
    (s : Store) (entry : AssetDatasetStoreCreate) (preserve : Bool) (collect : Option Bool)
    (now : ℕ) (e : StoreDatasetEntry)
    → find_identity s.entries entry.spec entry.feed (requested entry) ≡ some e
    → IsWellFormed s
    → IsWellFormed (
        update_row e.id
          (repeated preserve entry.expiry collect
            (resolved_collect entry.spec.update_type collect)
            now)
          s)
repeat_row-IsWellFormed s entry preserve collect now e found w =
    update_row-IsWellFormed e.id change s
      (repeated-KeepsKey preserve entry.expiry collect resolved now) kept w
  where
    resolved : Option Bool
    resolved = resolved_collect entry.spec.update_type collect

    change : StoreDatasetEntry → StoreDatasetEntry
    change = repeated preserve entry.expiry collect resolved now

    same_type : e.spec.update_type ≡ entry.spec.update_type
    same_type = same_spec→update_type e.spec entry.spec (
        identity_spec e entry.spec entry.feed (requested entry)
          (find_identity-some s.entries entry.spec entry.feed (requested entry) e found))

    fits : has_intent e.spec.update_type resolved ≡ true
    fits =
        subst (λ (u : UpdateType). has_intent u resolved ≡ true) (sym same_type)
          (resolved_collect-has_intent entry.spec.update_type collect)

    keep :
        (f : StoreDatasetEntry)
        → has_intent f.spec.update_type f.collect ≡ true
        → Names e f
        → KeepsIntent e.id change f
    keep f h named is_row =
        let fits' : has_intent f.spec.update_type resolved ≡ true =
          subst (λ (x : StoreDatasetEntry). has_intent x.spec.update_type resolved ≡ true)
            (sym (named is_row)) fits in
        repeated-has_intent preserve entry.expiry collect resolved now f h fits'

    kept : All (KeepsIntent e.id change) s.entries
    kept = All-zip keep s.entries w.intents (
        Distinct-Names e s.entries w.distinct
          (find_identity-In s.entries entry.spec entry.feed (requested entry) e found))

pub upsert_entry_in_transaction-IsWellFormed :
    (s : Store) (entry : AssetDatasetStoreCreate) (preserve : Bool) (collect : Option Bool)
    (now : ℕ)
    → IsWellFormed s
    → IsWellFormed (upsert_entry_in_transaction s entry preserve collect now).0
unfolding upsert_entry_in_transaction upsert_row
upsert_entry_in_transaction-IsWellFormed s entry preserve collect now w =
    elim (Option-cases (find_identity s.entries entry.spec entry.feed (requested entry))) [
      | inl e ↦ rw e (insert_row-IsWellFormed s entry collect now e w)
      | inr (found, e) ↦ rw e (repeat_row-IsWellFormed s entry preserve collect now found e w)
    ]
