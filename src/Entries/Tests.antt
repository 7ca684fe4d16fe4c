-- ===== src/Entries/Tests.antt =====
-- Two datasets, one the operator's own and one of another owner, and writes of them.
use trader_joe.Base.{ℕ, ◌+◌, ◌≡◌, ◌↔◌, inr, refl, true, false, Option, none, some, [], ◌∷◌, arith}
use trader_joe.Market.{daily}
use trader_joe.Entries.{
  to_model_type, to_schema_type, Spec, same_spec, Range, same_range, StoreDatasetEntry, Store,
  overlaps, find_own_overlap, find_exact_collision, is_growth, own_overlap_conflict, refused,
  store_of, find, set_expiry, set_collecting, delete,
}
use trader_joe.Entries.Writes.{
  AssetDatasetStoreCreate, range_of, check_own_overlap, resolved_collect, upsert_row,
  upsert_entry_in_transaction, upsert_entry, write_range, grow, update_entry,
  update_entry_lifecycle,
}
use trader_joe.Entries.Operator.{
  OperatorOverrideInput, strip, reason_of, overriding_reason, write_row, set_expiry_of,
  operator_set_expiry, write_collect, set_collecting_of, operator_set_collecting, delete_counted,
  delete_and_record, delete_of, operator_delete_entry,
}
use trader_joe.Entries.Identity.{Distinct}
use trader_joe.Entries.Ranges.{Covers, overlaps_lem, is_growth_lem}
use trader_joe.Entries.Kept.{IsWellFormed}
use trader_joe.Entries.Steps.{apply, updates, apply-IsWellFormed}
use trader_joe.Entries.Upsert.{Upserts, upsert_entry-Upserts}
use trader_joe.Entries.Rulings.{Audits, Records}
use trader_joe.Entries.Audit.{operator_writes-Audits}

program : Unit {0}
unfolding to_model_type to_schema_type same_spec overlaps find_own_overlap find_exact_collision
    is_growth range_of check_own_overlap resolved_collect upsert_row upsert_entry_in_transaction
    upsert_entry write_range grow update_entry update_entry_lifecycle strip reason_of
    overriding_reason write_row set_expiry_of operator_set_expiry write_collect set_collecting_of
    operator_set_collecting delete_counted delete_and_record delete_of operator_delete_entry apply
    Distinct
program = tt

abbrev spec_of : ℕ → Spec
spec_of owner = record {
  asset_symbol = 7;
  source = 1;
  granularity = 2;
  asset_type = 1;
  data_type = 1;
  owner = owner;
  expiry_type = 1;
  update_type = daily;
}

abbrev range : ℕ → ℕ → Range
range start end = record { start = start; end = end }

abbrev dataset : ℕ → ℕ → StoreDatasetEntry
dataset id owner = record {
  id = id;
  spec = spec_of owner;
  feed = 0;
  range = range 100 200;
  expiry = none;
  collect = some true;
  updated_at = 1;
}

abbrev store : Store
store = record {
  entries = dataset 1 0 ∷ dataset 2 5 ∷ [];
  bars = λ id. 10;
  overrides = [];
  deletions = [];
  next_id = 3;
}

store-IsWellFormed : IsWellFormed store
unfolding program
store-IsWellFormed = record {
  distinct = (((refl, refl), tt), (tt, tt));
  issued = (omega arith, (omega arith, tt));
  intents = (refl, (refl, tt));
}

abbrev alone : Store → Store
alone s = s

-- Another transaction grows dataset 2 to [100, 400) while it is being grown to [100, 300).
abbrev overtaken : Store → Store
overtaken s = store_of (update_entry alone alone s 2 5 100 (some 400) 7)

-- The second UPDATE then shrinks the range that the first one stored.
concurrent_growth_shrinks :
    find 2 (store_of (update_entry overtaken alone store 2 5 100 (some 300) 8)).entries
    ≡ some (record (dataset 2 5) { range = range 100 300; updated_at = 8 })
unfolding program
concurrent_growth_shrinks = refl

abbrev request : ℕ → ℕ → AssetDatasetStoreCreate
request start end = record {
  spec = spec_of 5;
  feed = 0;
  start = start;
  end = some end;
  expiry = none;
}

overlap_refused :
    upsert_entry alone store (request 150 300) none 9
    ≡ refused store (own_overlap_conflict (2 ∷ []))
unfolding program
overlap_refused = refl

-- A growth is not compared with the owner's other ranges.
abbrev two_ranges : Store
two_ranges = store_of (upsert_entry alone store (request 200 300) none 9)

grown_overlap :
    find_own_overlap
      (store_of (update_entry alone alone two_ranges 2 5 100 (some 250) 9))
      (spec_of 5)
      (range 100 250)
    ≡ 3 ∷ []
unfolding program
grown_overlap = refl

abbrev reasoned : Option OperatorOverrideInput
reasoned = some (record { reason = 32 ∷ 97 ∷ 32 ∷ []; confirmed = true })

-- Two creates that overlap, of which each checks before the other inserts: both are stored.
abbrev overlapping_create : Store → Store
overlapping_create s = store_of (upsert_entry alone s (request 250 350) none 9)

concurrent_creates_overlap :
    find_own_overlap
      (store_of (upsert_entry overlapping_create store (request 200 300) none 9))
      (spec_of 5)
      (range 200 300)
    ≡ 3 ∷ []
unfolding program
concurrent_creates_overlap = refl

-- The reason "a" of the override, without its spaces.
override_logged :
    (store_of (operator_set_expiry alone store true 2 (some 50) reasoned 9)).overrides
    ≡ record { actor = 0; dataset_id = 2; owner = 5; action = set_expiry; reason = 97 ∷ [] } ∷ []
unfolding program
override_logged = refl

apply-IsWellFormed_example :
    IsWellFormed (apply (λ n. overtaken) 8 (updates 2 5 100 (some 300)) store)
unfolding program
apply-IsWellFormed_example =
    apply-IsWellFormed (λ n. overtaken)
      (λ n s w. apply-IsWellFormed (λ m. alone) (λ m t v. v) 7 (updates 2 5 100 (some 400)) s w) 8
      (updates 2 5 100 (some 300)) store store-IsWellFormed

upsert_entry-Upserts_example :
    Upserts store
      (overlapping_create store)
      (request 200 300)
      (some false)
      10
      (upsert_entry overlapping_create store (request 200 300) none 9)
upsert_entry-Upserts_example =
    upsert_entry-Upserts overlapping_create store (request 200 300) none 9 (some false) 10

-- Others insert five bars after the count.
abbrev five_more : Store → Store
five_more s = record s { bars = λ id. s.bars id + 5 }

operator_writes-Audits_example :
    Audits
      (dataset 2 5)
      2
      set_expiry
      reasoned
      store
      store
      (operator_set_expiry alone store true 2 (some 50) reasoned 9)
    × Audits
        (dataset 2 5)
        2
        set_collecting
        reasoned
        store
        store
        (operator_set_collecting alone store true 2 false reasoned 9)
    × Audits
        (dataset 2 5)
        2
        delete
        reasoned
        store
        (five_more store)
        (operator_delete_entry alone five_more store true 2 reasoned)
    × Records
        (dataset 2 5)
        store
        (five_more store)
        (operator_delete_entry alone five_more store true 2 reasoned)
operator_writes-Audits_example =
    operator_writes-Audits alone five_more store true 2 reasoned 9 (some 50) false (dataset 2 5)
      refl

overlaps_lem_example : (overlaps (range 150 300) (range 100 200) ≡ true) ↔ (
    ((t : ℕ) × Covers (range 150 300) t × Covers (range 100 200) t)
    × (same_range (range 100 200) (range 150 300) ≡ false))
overlaps_lem_example =
    overlaps_lem (range 150 300) (range 100 200) (inr (omega arith)) (inr (omega arith))

is_growth_lem_example :
    (is_growth (range 100 200) (range 50 200) ≡ true)
    ↔ ((t : ℕ) → Covers (range 100 200) t → Covers (range 50 200) t)
is_growth_lem_example = is_growth_lem (range 100 200) (range 50 200) (inr (omega arith))
