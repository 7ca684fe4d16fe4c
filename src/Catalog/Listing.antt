-- ===== src/Catalog/Listing.antt =====
-- The filters of the dataset catalogue, and list_page of server/data/store/app/dataset_catalog.py.
use trader_joe.Base.{
  ℕ, ◌+◌, ◌/◌, Bool, true, false, not, ◌&&◌, ◌||◌, Option, none, some, List, [], ◌∷◌, length, take,
  filter, ltb, leb,
}
use trader_joe.Calendar.{day_us}
use trader_joe.Catalog.{
  Text, DatasetSort, UsageFilter, StatusGroup, CatalogRow, Key, key_lt, Usage, sort_key, Cursor,
  cursor_for, key_from_cursor, sorted, read_30d, stale, never_read, healthy, late, failed, retired,
}

-- `read_within`
abbrev pub read_within : Option ℕ → ℕ → ℕ → Bool
read_within none now days = false
read_within (some t) now days = leb (now / day_us) (t / day_us + days)

abbrev pub is_missing : Option ℕ → Bool
is_missing none = true
is_missing (some t) = false

abbrev pub usage_predicate : UsageFilter → Usage → ℕ → ℕ → CatalogRow → Bool
usage_predicate never_read usage now stale_days row = is_missing (usage row.id)
usage_predicate read_30d usage now stale_days row = read_within (usage row.id) now 30
usage_predicate stale usage now stale_days row = not (read_within (usage row.id) now stale_days)

abbrev pub expires_in : ℕ → Option ℕ → Bool
expires_in bound none = false
expires_in bound (some expiry) = ltb expiry bound

abbrev pub expiring_predicate : ℕ → (Text → Bool) → CatalogRow → Bool
expiring_predicate expires_before pending row =
    pending row.id || expires_in expires_before row.expiry

abbrev pub same_group : StatusGroup → StatusGroup → Bool
same_group healthy healthy = true
same_group late late = true
same_group failed failed = true
same_group retired retired = true
same_group _ _ = false

abbrev pub is_attention : Option StatusGroup → Bool
is_attention (some late) = true
is_attention (some failed) = true
is_attention _ = false

abbrev pub has_status : Option StatusGroup → Option StatusGroup → Bool
has_status none group = true
has_status (some status) none = false
has_status (some status) (some group) = same_group status group

pub record CatalogQuery : Type 0 where
  pub sort : DatasetSort
  pub limit : ℕ
  pub usage : Option UsageFilter
  pub stale_days : ℕ
  pub running : Bool
  pub status : Option StatusGroup
  pub needs_attention : Bool
  pub expires_before : Option ℕ

-- What the database and the judgement of freshness answer while a page is made.
pub record Answers : Type 0 where
  pub rows : List CatalogRow
  pub last_read_of : Usage
  pub pending : Text → Bool
  pub in_flight : Text → Bool
  pub group_of : CatalogRow → Option StatusGroup
  pub now : ℕ

abbrev pub keep_expiring : Option ℕ → Answers → CatalogRow → Bool
keep_expiring none a row = true
keep_expiring (some bound) a row = expiring_predicate bound a.pending row

abbrev pub keep_usage : Option UsageFilter → ℕ → Answers → CatalogRow → Bool
keep_usage none stale_days a row = true
keep_usage (some filter) stale_days a row =
    usage_predicate filter a.last_read_of a.now stale_days row

abbrev pub keep_running : Bool → Answers → CatalogRow → Bool
keep_running true a row = a.in_flight row.id
keep_running false a row = true

-- `_matches`, as list_page calls it.
abbrev pub matches : CatalogQuery → Answers → CatalogRow → Bool
matches q a row =
    has_status q.status (a.group_of row)
    && not (q.needs_attention && not (is_attention (a.group_of row)))

-- The views of a query, in its order, before the page is cut.
unfoldable pub views_of : CatalogQuery → Answers → List CatalogRow
unfolding sort_key
views_of q a =
    let expiring = filter (keep_expiring q.expires_before a) a.rows in
    let used = filter (keep_usage q.usage q.stale_days a) expiring in
    let in_order = sorted (sort_key q.sort a.last_read_of) used in
    filter (matches q a) (filter (keep_running q.running a) in_order)

abbrev pub after_key : (CatalogRow → Key) → Option Key → List CatalogRow → List CatalogRow
after_key key none rows = rows
after_key key (some k) rows = filter (λ row. key_lt k (key row)) rows

abbrev pub last_of : List CatalogRow → Option CatalogRow
last_of [] = none
last_of (r ∷ []) = some r
last_of (r ∷ s ∷ rs) = last_of (s ∷ rs)

abbrev pub next_cursor_of : CatalogQuery → Answers → Bool → Option CatalogRow → Option Cursor
next_cursor_of q a true (some row) = some (cursor_for q.sort a.last_read_of row)
next_cursor_of q a _ _ = none

-- The rows of a page, and the cursor of the next, with none for ''.
unfoldable pub page_after : CatalogQuery → Answers → Option Key → List CatalogRow × Option Cursor
unfolding views_of cursor_for
page_after q a after =
    let window =
      take (q.limit + 1) (after_key (sort_key q.sort a.last_read_of) after (views_of q a)) in
    let page = take q.limit window in
    (page, next_cursor_of q a (ltb q.limit (length window)) (last_of page))

abbrev pub page_from :
    CatalogQuery → Answers → Option Key → Option (List CatalogRow × Option Cursor)
page_from q a none = none
page_from q a (some key) = some (page_after q a (some key))

-- `list_page`, with none for a cursor that is refused.
unfoldable pub list_page :
    (Text → Bool)
    → CatalogQuery
    → Answers
    → Option Cursor
    → Option (List CatalogRow × Option Cursor)
unfolding page_after key_from_cursor
list_page is_uuid q a none = some (page_after q a none)
list_page is_uuid q a (some cursor) = page_from q a (key_from_cursor is_uuid cursor q.sort)
