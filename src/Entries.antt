-- ===== src/Entries.antt =====
-- The datasets of the store as rows: server/data/store/app/database/models/store_dataset_entry.py with the column type of
-- server/common/database/sql_alchemy_nullable_datetime.py, and the rules on ranges and identity of
-- server/data/store/app/database/crud/stock/store_dataset_entry.py. Enumerations and strings of a row are codes.
pub mod Writes
pub mod Operator
pub mod Ranges
pub mod Identity
pub mod Kept
pub mod Grown
pub mod Branches
pub mod Steps
pub mod Upsert
pub mod Rulings
pub mod Audit
mod Tests
use trader_joe.Base.{
  ℕ, ◌+◌, ◌*◌, Bool, true, false, not, ◌&&◌, ◌||◌, Option, none, some, List, [], ◌∷◌, ltb, leb,
  ◌==◌, if◌then◌else◌, filter, map,
}
use trader_joe.Calendar.{day_us}
use trader_joe.Market.{UpdateType, static, daily, stream}

-- 1970-01-01, which stands for "no end" in the column.
abbrev pub epoch : ℕ
epoch = 719162 * day_us

unfoldable pub to_model_type : Option ℕ → ℕ
to_model_type none = epoch
to_model_type (some value) = value

unfoldable pub to_schema_type : ℕ → Option ℕ
to_schema_type value = if value == epoch then none else some value

-- The columns that the own-overlap check equates.
pub record Spec : Type 0 where
  pub asset_symbol : ℕ
  pub source : ℕ
  pub granularity : ℕ
  pub asset_type : ℕ
  pub data_type : ℕ
  pub owner : ℕ
  pub expiry_type : ℕ
  pub update_type : UpdateType

abbrev pub same_update_type : UpdateType → UpdateType → Bool
same_update_type static static = true
same_update_type daily daily = true
same_update_type stream stream = true
same_update_type _ _ = false

unfoldable pub same_spec : Spec → Spec → Bool
same_spec a b =
    (a.asset_symbol == b.asset_symbol)
    && (a.source == b.source)
    && (a.granularity == b.granularity)
    && (a.asset_type == b.asset_type)
    && (a.data_type == b.data_type)
    && (a.owner == b.owner)
    && (a.expiry_type == b.expiry_type)
    && same_update_type a.update_type b.update_type

-- A half-open range, as the columns hold it.
pub record Range : Type 0 where
  pub start : ℕ
  pub end : ℕ

abbrev pub same_range : Range → Range → Bool
same_range r s = (r.start == s.start) && (r.end == s.end)

pub record StoreDatasetEntry : Type 0 where
  pub id : ℕ
  pub spec : Spec
  pub feed : ℕ
  pub range : Range
  pub expiry : Option ℕ
  pub collect : Option Bool
  pub updated_at : ℕ

-- The identity: the spec, the tape and the range.
abbrev pub same_identity : StoreDatasetEntry → Spec → ℕ → Range → Bool
same_identity e spec feed range =
    same_spec e.spec spec && (e.feed == feed) && same_range e.range range

pub data OverrideAction : Type 0 where
  set_expiry set_collecting delete : OverrideAction

pub record OverrideRow : Type 0 where
  pub actor : ℕ
  pub dataset_id : ℕ
  pub owner : ℕ
  pub action : OverrideAction
  pub reason : List ℕ

pub data Cause : Type 0 where
  by_operator by_reaper : Cause

pub record DeletionRow : Type 0 where
  pub dataset_id : ℕ
  pub owner : ℕ
  pub asset_symbol : ℕ
  pub source : ℕ
  pub granularity : ℕ
  pub update_type : UpdateType
  pub range_start : ℕ
  pub range_end : Option ℕ
  pub bars_deleted : ℕ
  pub cause : Cause
  pub actor : ℕ

-- The tables: the entries, how many bars each dataset has, and the two audit logs.
pub record Store : Type 0 where
  pub entries : List StoreDatasetEntry
  pub bars : ℕ → ℕ
  pub overrides : List OverrideRow
  pub deletions : List DeletionRow
  pub next_id : ℕ

pub data Refusal : Type 0 where
  entry_not_found : (id : ℕ) → Refusal
  owner_mismatch : (id : ℕ) → Refusal
  own_overlap_conflict : (ids : List ℕ) → Refusal
  range_shrink : (id : ℕ) → Refusal
  range_collision : (id : ℕ) → Refusal
  override_required : Refusal
  audit_unavailable : Refusal
  invalid_request : Refusal
  database_integrity : Refusal

-- What a transaction comes to: an answer with what it committed, or a refusal after its rollback.
pub data Attempt {ℓ} (A : Type ℓ) : Type ℓ where
  committed : Store → A → Attempt A
  refused : Store → Refusal → Attempt A

abbrev pub store_of {ℓ} : {A : Type ℓ} → Attempt A → Store
store_of (committed s _) = s
store_of (refused s _) = s

abbrev pub ids_of : List StoreDatasetEntry → List ℕ
ids_of es = map (λ e. e.id) es

-- `_find_own_overlap`: the range conditions on an existing row.
unfoldable pub overlaps : Range → Range → Bool
overlaps new existing =
    ((existing.end == epoch) || ltb new.start existing.end)
    && ((new.end == epoch) || ltb existing.start new.end)
    && not (same_range existing new)

unfoldable pub find_own_overlap : Store → Spec → Range → List ℕ
unfolding overlaps same_spec
find_own_overlap s spec range =
    ids_of (filter (λ e. same_spec e.spec spec && overlaps range e.range) s.entries)

abbrev pub first_of : List ℕ → Option ℕ
first_of [] = none
first_of (id ∷ ids) = some id

-- `_find_exact_collision`: another row with the identity that the grown one would have.
unfoldable pub find_exact_collision : Store → StoreDatasetEntry → Range → Option ℕ
unfolding same_spec
find_exact_collision s existing range = first_of (
    ids_of (
      filter (λ e. same_identity e existing.spec existing.feed range && not (e.id == existing.id))
        s.entries))

unfoldable pub is_growth : Range → Range → Bool
is_growth old new =
    if ltb old.start new.start
    then false
    else if old.end == epoch
    then new.end == epoch
    else (new.end == epoch) || leb old.end new.end

abbrev pub find : ℕ → List StoreDatasetEntry → Option StoreDatasetEntry
find id [] = none
find id (e ∷ es) = let rest = find id es in if e.id == id then some e else rest

abbrev pub find_identity : List StoreDatasetEntry → Spec → ℕ → Range → Option StoreDatasetEntry
find_identity [] spec feed range = none
find_identity (e ∷ es) spec feed range =
    let rest = find_identity es spec feed range in
    if same_identity e spec feed range then some e else rest

-- An UPDATE of one row.
abbrev pub update_row : ℕ → (StoreDatasetEntry → StoreDatasetEntry) → Store → Store
update_row id f s = record s { entries = map (λ e. if e.id == id then f e else e) s.entries }

-- A DELETE of one row: its bars go with it.
abbrev pub delete_row : ℕ → Store → Store
delete_row id s = record s {
  entries = filter (λ e. not (e.id == id)) s.entries;
  bars = λ d. if d == id then 0 else s.bars d;
}
