-- ===== src/Entries/Writes.antt =====
-- The writes of server/data/store/app/database/crud/stock/store_dataset_entry.py that a dataset's owner, a fetch and the
-- scheduled refresh make. A transaction is a function of the store; where it runs two
-- or more statements, its first arguments are what others commit between them.
use trader_joe.Base.{
  ℕ, ◌+◌, Bool, true, false, not, ◌&&◌, Option, none, some, [], ◌∷◌, ◌==◌, if◌then◌else◌,
}
use trader_joe.Market.{UpdateType, static, daily, stream}
use trader_joe.Entries.{
  to_model_type, Spec, Range, StoreDatasetEntry, Store, Refusal, entry_not_found, owner_mismatch,
  own_overlap_conflict, range_shrink, range_collision, database_integrity, Attempt, committed,
  refused, same_spec, find_own_overlap, find_exact_collision, is_growth, find, find_identity,
  update_row, delete_row,
}

-- What a request asks to be stored. The end is the schema's.
pub record AssetDatasetStoreCreate : Type 0 where
  pub spec : Spec
  pub feed : ℕ
  pub start : ℕ
  pub end : Option ℕ
  pub expiry : Option ℕ

unfoldable pub range_of : ℕ → Option ℕ → Range
unfolding to_model_type
range_of start end = record { start = start; end = to_model_type end }

abbrev pub requested : AssetDatasetStoreCreate → Range
requested entry = range_of entry.start entry.end

-- `OverlapKey`: the spec with the range, without the tape. The entry is its extension by the tape.
pub record OverlapKey : Type 0 where
  pub spec : Spec
  pub start : ℕ
  pub end : Option ℕ

abbrev pub key_of : AssetDatasetStoreCreate → OverlapKey
key_of entry = record { spec = entry.spec; start = entry.start; end = entry.end }

abbrev pub extend : OverlapKey → Option ℕ → ℕ → AssetDatasetStoreCreate
extend key expiry feed = record {
  spec = key.spec;
  feed = feed;
  start = key.start;
  end = key.end;
  expiry = expiry;
}

unfoldable pub check_own_overlap : Store → OverlapKey → Option Refusal
unfolding find_own_overlap range_of
check_own_overlap s key = elim (find_own_overlap s key.spec (range_of key.start key.end)) [
  | [] ↦ none
  | id ∷ ids ↦ some (own_overlap_conflict (id ∷ ids))
]

unfoldable pub resolved_collect : UpdateType → Option Bool → Option Bool
resolved_collect static collect = none
resolved_collect daily none = some true
resolved_collect daily (some collect) = some collect
resolved_collect stream none = some true
resolved_collect stream (some collect) = some collect

abbrev pub is_false : Option Bool → Bool
is_false (some false) = true
is_false _ = false

abbrev pub is_subscription : UpdateType → Bool
is_subscription static = false
is_subscription _ = true

abbrev pub id_unless_retired : Option StoreDatasetEntry → Option ℕ
id_unless_retired none = none
id_unless_retired (some e) =
    if is_false e.collect && is_subscription e.spec.update_type then none else some e.id

unfoldable pub lock_active_entry : Store → AssetDatasetStoreCreate → Option ℕ
unfolding range_of same_spec
lock_active_entry s entry =
    id_unless_retired (find_identity s.entries entry.spec entry.feed (requested entry))

abbrev pub collect_of : Option StoreDatasetEntry → Option Bool
collect_of none = none
collect_of (some e) = e.collect

unfoldable pub lock_stored_collect : Store → AssetDatasetStoreCreate → Option Bool
unfolding range_of same_spec
lock_stored_collect s entry =
    collect_of (find_identity s.entries entry.spec entry.feed (requested entry))

abbrev pub same_bool : Bool → Bool → Bool
same_bool true b = b
same_bool false b = not b

unfoldable pub collect_change : Option Bool → Option Bool → Option Bool
collect_change (some before) (some explicit) =
    if same_bool before explicit then none else some explicit
collect_change _ _ = none

-- The row that an insert makes.
abbrev pub new_row : Store → AssetDatasetStoreCreate → Option Bool → ℕ → StoreDatasetEntry
new_row s entry collect now = record {
  id = s.next_id;
  spec = entry.spec;
  feed = entry.feed;
  range = requested entry;
  expiry = entry.expiry;
  collect = collect;
  updated_at = now;
}

-- What an exact repeat sets: for the system caller the time only, else also the expiry, and an explicit intent.
abbrev pub repeated :
    Bool → Option ℕ → Option Bool → Option Bool → ℕ → StoreDatasetEntry → StoreDatasetEntry
repeated true expiry collect resolved now e = record e { updated_at = now }
repeated false expiry (some _) (some intent) now e = record e {
  expiry = expiry;
  collect = some intent;
  updated_at = now;
}
repeated false expiry _ _ now e = record e { expiry = expiry; updated_at = now }

abbrev pub insert_row : Store → AssetDatasetStoreCreate → Option Bool → ℕ → Store × ℕ
insert_row s entry resolved now = (
  record s { entries = new_row s entry resolved now ∷ s.entries; next_id = s.next_id + 1 },
  s.next_id,
)

unfoldable pub upsert_row :
    Option StoreDatasetEntry → Store → AssetDatasetStoreCreate → Bool → Option Bool → ℕ → Store × ℕ
unfolding resolved_collect range_of
upsert_row none s entry preserve_lifecycle collect now =
    insert_row s entry (resolved_collect entry.spec.update_type collect) now
upsert_row (some e) s entry preserve_lifecycle collect now =
    let resolved = resolved_collect entry.spec.update_type collect in
    (update_row e.id (repeated preserve_lifecycle entry.expiry collect resolved now) s, e.id)

-- An insert that resolves a conflict on the identity, within the caller's transaction.
unfoldable pub upsert_entry_in_transaction :
    Store → AssetDatasetStoreCreate → Bool → Option Bool → ℕ → Store × ℕ
unfolding upsert_row range_of same_spec
upsert_entry_in_transaction s entry preserve_lifecycle collect now =
    upsert_row (find_identity s.entries entry.spec entry.feed (requested entry)) s entry
      preserve_lifecycle collect now

-- Nothing is locked between the check of the overlap and the insert.
unfoldable pub upsert_entry :
    (Store → Store) → Store → AssetDatasetStoreCreate → Option Bool → ℕ → Attempt ℕ
unfolding check_own_overlap upsert_entry_in_transaction
upsert_entry meanwhile s entry collect now = elim (check_own_overlap s (key_of entry)) [
  | some refusal ↦ refused s refusal
  | none ↦
      let (after, id) = upsert_entry_in_transaction (meanwhile s) entry false collect now in
      committed after id
]

-- A row that a transaction reads by its id and, unless the owner is another, goes on with.
abbrev pub owned_row {ℓ} :
    {A : Type ℓ}
    → Store
    → Option StoreDatasetEntry
    → ℕ
    → ℕ
    → (StoreDatasetEntry → Attempt A)
    → Attempt A
owned_row s none id owner next = refused s (entry_not_found id)
owned_row s (some e) id owner next =
    if e.spec.owner == owner then next e else refused s (owner_mismatch id)

-- The UPDATE of the range: another row with that identity violates the constraint. A row that has gone is no error.
unfoldable pub write_range : Store → Option StoreDatasetEntry → Range → ℕ → Attempt (Unit {0})
unfolding find_exact_collision
write_range s none range now = committed s tt
write_range s (some e) range now = elim (find_exact_collision s e range) [
  | some _ ↦ refused s database_integrity
  | none ↦ committed (update_row e.id (λ row. record row { range = range; updated_at = now }) s) tt
]

-- The collision is looked for in one statement and the range is written in another.
unfoldable pub grow :
    (Store → Store) → (Store → Store) → Store → Range → ℕ → StoreDatasetEntry → Attempt (Unit {0})
unfolding is_growth find_exact_collision write_range
grow before_check before_write s range now e =
    if not (is_growth e.range range)
    then refused s (range_shrink e.id)
    else let checked = before_check s in
      elim (find_exact_collision checked e range) [
        | some other ↦ refused checked (range_collision other)
        | none ↦
            let after = before_write checked in
            write_range after (find e.id after.entries) range now
      ]

unfoldable pub update_entry :
    (Store → Store) → (Store → Store) → Store → ℕ → ℕ → ℕ → Option ℕ → ℕ → Attempt (Unit {0})
unfolding grow range_of
update_entry before_check before_write s id owner start end now =
    owned_row s (find id s.entries) id owner
      (grow before_check before_write s (range_of start end) now)

unfoldable pub update_entry_lifecycle : (Store → Store) → Store → ℕ → ℕ → ℕ → Attempt (Unit {0})
update_entry_lifecycle meanwhile s id owner now =
    owned_row s (find id s.entries) id owner
      (λ e. committed (update_row id (λ row. record row { updated_at = now }) (meanwhile s)) tt)

-- A DELETE that finds no row any more refuses.
abbrev pub delete_found_row : Store → Option StoreDatasetEntry → ℕ → Attempt (Unit {0})
delete_found_row s none id = refused s (entry_not_found id)
delete_found_row s (some e) id = committed (delete_row id s) tt

unfoldable pub delete_entry_by_id : (Store → Store) → Store → ℕ → ℕ → Attempt (Unit {0})
delete_entry_by_id meanwhile s id owner =
    owned_row s (find id s.entries) id owner
      (λ e. let after = meanwhile s in delete_found_row after (find id after.entries) id)
