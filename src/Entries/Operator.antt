-- ===== src/Entries/Operator.antt =====
-- The operator's writes of server/data/store/app/database/crud/stock/store_dataset_entry.py, with the override and the
-- deletion logs of server/data/store/app/database/crud/dataset_override.py. `meanwhile` is what others commit between the
-- read of a row and the statement that writes it; a deletion has two such gaps.
use trader_joe.Base.{
  ℕ, Bool, ◌&&◌, ◌||◌, Option, none, some, List, [], ◌∷◌, ◌++◌, leb, ◌==◌, if◌then◌else◌,
}
use trader_joe.Entries.{
  to_schema_type, StoreDatasetEntry, OverrideAction, set_expiry, set_collecting, delete, Cause,
  by_operator, DeletionRow, Store, entry_not_found, override_required, audit_unavailable,
  invalid_request, Attempt, committed, refused, find, update_row, delete_row,
}
use trader_joe.Entries.Writes.{collect_change, is_subscription}

-- The code of the operator principal.
abbrev pub operator : ℕ
operator = 0

pub record OperatorOverrideInput : Type 0 where
  pub reason : List ℕ
  pub confirmed : Bool

-- The characters that `str.strip` takes off.
abbrev pub is_space : ℕ → Bool
is_space c =
    (leb 9 c && leb c 13)
    || (leb 28 c && leb c 32)
    || (c == 133)
    || (c == 160)
    || (c == 5760)
    || (leb 8192 c && leb c 8202)
    || (c == 8232)
    || (c == 8233)
    || (c == 8239)
    || (c == 8287)
    || (c == 12288)

abbrev pub strip_front : List ℕ → List ℕ
strip_front [] = []
strip_front (c ∷ cs) = let rest = strip_front cs in if is_space c then rest else c ∷ cs

-- A blank rest goes, and no other.
abbrev pub keep_unless_blank : ℕ → List ℕ → List ℕ
keep_unless_blank c [] = if is_space c then [] else c ∷ []
keep_unless_blank c (d ∷ ds) = c ∷ d ∷ ds

abbrev pub strip_back : List ℕ → List ℕ
strip_back [] = []
strip_back (c ∷ cs) = keep_unless_blank c (strip_back cs)

unfoldable pub strip : List ℕ → List ℕ
strip cs = strip_back (strip_front cs)

unfoldable pub reason_of : Option OperatorOverrideInput → List ℕ
unfolding strip
reason_of none = []
reason_of (some o) = if o.confirmed then strip o.reason else []

-- Whether a write is an override.
pub data Ruling : Type 0 where
  own : Ruling
  overriding : (reason : List ℕ) → Ruling
  not_allowed : Ruling

abbrev pub with_reason : List ℕ → Ruling
with_reason [] = not_allowed
with_reason (c ∷ cs) = overriding (c ∷ cs)

unfoldable pub overriding_reason : ℕ → ℕ → Option OperatorOverrideInput → Ruling
unfolding reason_of
overriding_reason owner principal override =
    if owner == principal then own else with_reason (reason_of override)

abbrev pub append_override : ℕ → ℕ → OverrideAction → List ℕ → Store → Store
append_override id owner action reason s = record s {
  overrides =
      s.overrides
      ++ (record {
        actor = operator;
        dataset_id = id;
        owner = owner;
        action = action;
        reason = reason;
      }
          ∷ []);
}

-- The override row of an overriding write, and none of the operator's own.
abbrev pub logged : Ruling → ℕ → ℕ → OverrideAction → Store → Store
logged (overriding reason) id owner action s = append_override id owner action reason s
logged _ id owner action s = s

-- The check of the override and of the audit tables, before any write.
abbrev pub audited {ℓ} : {A : Type ℓ} → Store → Bool → Ruling → Attempt A → Attempt A
audited s recording not_allowed next = refused s override_required
audited s recording own next = next
audited s recording (overriding reason) next =
    if recording then next else refused s audit_unavailable

abbrev pub expiring : Option ℕ → ℕ → StoreDatasetEntry → StoreDatasetEntry
expiring expiry now row = record row { expiry = expiry; updated_at = now }

-- The UPDATE, which finds the row or refuses, and then the log.
unfoldable pub write_row :
    Store
    → Option StoreDatasetEntry
    → ℕ
    → (StoreDatasetEntry → StoreDatasetEntry)
    → Ruling
    → ℕ
    → OverrideAction
    → Attempt (Unit {0})
write_row s none id f ruling owner action = refused s (entry_not_found id)
write_row s (some _) id f ruling owner action =
    committed (logged ruling id owner action (update_row id f s)) tt

unfoldable pub set_expiry_of :
    (Store → Store)
    → Store
    → Bool
    → ℕ
    → Option ℕ
    → Option OperatorOverrideInput
    → ℕ
    → Option StoreDatasetEntry
    → Attempt (Unit {0})
unfolding overriding_reason write_row
set_expiry_of meanwhile s recording id expiry override now none = refused s (entry_not_found id)
set_expiry_of meanwhile s recording id expiry override now (some e) =
    let ruling = overriding_reason e.spec.owner operator override in
    let after = meanwhile s in
    audited s recording ruling (
      write_row after (find id after.entries) id (expiring expiry now) ruling e.spec.owner
        set_expiry)

unfoldable pub operator_set_expiry :
    (Store → Store)
    → Store
    → Bool
    → ℕ
    → Option ℕ
    → Option OperatorOverrideInput
    → ℕ
    → Attempt (Unit {0})
unfolding set_expiry_of
operator_set_expiry meanwhile s recording id expiry override now =
    set_expiry_of meanwhile s recording id expiry override now (find id s.entries)

abbrev pub collecting : Bool → ℕ → StoreDatasetEntry → StoreDatasetEntry
collecting collect now row = record row { collect = some collect; updated_at = now }

-- The stored intent is read under the row's lock, and then written. A row with none is one that has gone.
abbrev pub write_intent : Store → Option Bool → ℕ → Bool → Ruling → ℕ → ℕ → Attempt (Option Bool)
write_intent s none id collect ruling owner now = refused s (entry_not_found id)
write_intent s (some before) id collect ruling owner now =
    committed (logged ruling id owner set_collecting (update_row id (collecting collect now) s))
      (collect_change (some before) (some collect))

unfoldable pub write_collect :
    Store → Option StoreDatasetEntry → ℕ → Bool → Ruling → ℕ → ℕ → Attempt (Option Bool)
write_collect s none id collect ruling owner now = refused s (entry_not_found id)
write_collect s (some e) id collect ruling owner now =
    write_intent s e.collect id collect ruling owner now

unfoldable pub set_collecting_of :
    (Store → Store)
    → Store
    → Bool
    → ℕ
    → Bool
    → Option OperatorOverrideInput
    → ℕ
    → Option StoreDatasetEntry
    → Attempt (Option Bool)
unfolding overriding_reason write_collect
set_collecting_of meanwhile s recording id collect override now none =
    refused s (entry_not_found id)
set_collecting_of meanwhile s recording id collect override now (some e) =
    let ruling = overriding_reason e.spec.owner operator override in
    let after = meanwhile s in
    if is_subscription e.spec.update_type
    then audited s recording ruling
        (write_collect after (find id after.entries) id collect ruling e.spec.owner now)
    else refused s invalid_request

unfoldable pub operator_set_collecting :
    (Store → Store)
    → Store
    → Bool
    → ℕ
    → Bool
    → Option OperatorOverrideInput
    → ℕ
    → Attempt (Option Bool)
unfolding set_collecting_of
operator_set_collecting meanwhile s recording id collect override now =
    set_collecting_of meanwhile s recording id collect override now (find id s.entries)

abbrev pub deletion_row : StoreDatasetEntry → ℕ → Cause → ℕ → DeletionRow
deletion_row e bars cause actor = record {
  dataset_id = e.id;
  owner = e.spec.owner;
  asset_symbol = e.spec.asset_symbol;
  source = e.spec.source;
  granularity = e.spec.granularity;
  update_type = e.spec.update_type;
  range_start = e.range.start;
  range_end = to_schema_type e.range.end;
  bars_deleted = bars;
  cause = cause;
  actor = actor;
}

-- The row goes with its bars, and the deletion is recorded with the count made before. The row is the one read before.
unfoldable pub delete_counted :
    Store
    → Option StoreDatasetEntry
    → StoreDatasetEntry
    → ℕ
    → Cause
    → ℕ
    → Ruling
    → Attempt (Unit {0})
unfolding to_schema_type
delete_counted s none e bars cause actor ruling = refused s (entry_not_found e.id)
delete_counted s (some _) e bars cause actor ruling =
    let gone = delete_row e.id s in
    let recorded = record gone {
      deletions = gone.deletions ++ (deletion_row e bars cause actor ∷ []);
    } in
    committed (logged ruling e.id e.spec.owner delete recorded) tt

-- The count of the bars is one statement and the deletion another.
unfoldable pub delete_and_record :
    (Store → Store) → Store → StoreDatasetEntry → Cause → ℕ → Ruling → Attempt (Unit {0})
unfolding delete_counted
delete_and_record before_delete s e cause actor ruling =
    let bars = s.bars e.id in
    let after = before_delete s in
    delete_counted after (find e.id after.entries) e bars cause actor ruling

-- Every deletion is audited, so here the tables are needed whoever the owner is.
abbrev pub audited_always {ℓ} : {A : Type ℓ} → Store → Bool → Ruling → Attempt A → Attempt A
audited_always s recording not_allowed next = refused s override_required
audited_always s recording _ next = if recording then next else refused s audit_unavailable

unfoldable pub delete_of :
    (Store → Store)
    → (Store → Store)
    → Store
    → Bool
    → ℕ
    → Option OperatorOverrideInput
    → Option StoreDatasetEntry
    → Attempt (Unit {0})
unfolding overriding_reason delete_and_record
delete_of before_count before_delete s recording id override none = refused s (entry_not_found id)
delete_of before_count before_delete s recording id override (some e) =
    let ruling = overriding_reason e.spec.owner operator override in
    audited_always s recording ruling
      (delete_and_record before_delete (before_count s) e by_operator operator ruling)

unfoldable pub operator_delete_entry :
    (Store → Store)
    → (Store → Store)
    → Store
    → Bool
    → ℕ
    → Option OperatorOverrideInput
    → Attempt (Unit {0})
unfolding delete_of
operator_delete_entry before_count before_delete s recording id override =
    delete_of before_count before_delete s recording id override (find id s.entries)
