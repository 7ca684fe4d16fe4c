-- ===== src/Catalog.antt =====
-- The pages of the dataset catalogue: the sort keys and the cursors of
-- server/data/store/app/dataset_catalog.py. A cursor is what it decodes to, and the id of a row is its text.
pub mod Listing
pub mod Order
pub mod Pages
pub mod Walk
mod Tests
use trader_joe.Base.{
  ℕ, zero, suc, ◌+◌, ◌-◌, ◌*◌, ◌/◌, Bool, true, false, not, ◌&&◌, ◌||◌, Option, none, some, List,
  [], ◌∷◌, ◌++◌, map, length, take, filter, ltb, leb, ◌==◌, if◌then◌else◌,
}
use trader_joe.Base.Delta.{ℤ, pos, negsuc}
use trader_joe.Calendar.{day_us}

abbrev pub Text : Type 0
Text = List ℕ

pub data DatasetSort : Type 0 where
  symbol expires last_read : DatasetSort

pub data UsageFilter : Type 0 where
  read_30d stale never_read : UsageFilter

pub data StatusGroup : Type 0 where
  healthy late failed retired : StatusGroup

-- The columns that the pages depend on.
pub record CatalogRow : Type 0 where
  pub id : Text
  pub asset_symbol : Text
  pub expiry : Option ℕ

-- A part of a key: a number, or a string.
pub data Part : Type 0 where
  int : ℤ → Part
  str : Text → Part

-- Comparison of lists by their first difference.
abbrev pub lex_lt {ℓ} : {A : Type ℓ} → (A → A → Bool) → List A → List A → Bool
lex_lt lt [] [] = false
lex_lt lt [] (y ∷ ys) = true
lex_lt lt (x ∷ xs) [] = false
lex_lt lt (x ∷ xs) (y ∷ ys) =
    let rest = lex_lt lt xs ys in if lt x y then true else if lt y x then false else rest

abbrev pub int_lt : ℤ → ℤ → Bool
int_lt (pos m) (pos n) = ltb m n
int_lt (pos m) (negsuc n) = false
int_lt (negsuc m) (pos n) = true
int_lt (negsuc m) (negsuc n) = ltb n m

-- Python refuses to compare a number with a string; keys of one sort have the same shape.
abbrev pub part_lt : Part → Part → Bool
part_lt (int m) (int n) = int_lt m n
part_lt (int m) (str t) = true
part_lt (str s) (int n) = false
part_lt (str s) (str t) = lex_lt ltb s t

abbrev pub Key : Type 0
Key = List Part

abbrev pub key_lt : Key → Key → Bool
key_lt a b = lex_lt part_lt a b

abbrev pub epoch : ℕ
epoch = 719162 * day_us

-- `(moment - _EPOCH) // _ONE_MICROSECOND`
abbrev pub micros : ℕ → ℤ
micros t = if leb epoch t then pos (t - epoch) else negsuc (epoch - t - 1)

abbrev pub negated : ℤ → ℤ
negated (pos zero) = pos 0
negated (pos (suc n)) = negsuc n
negated (negsuc n) = pos (suc n)

abbrev pub tail_of : CatalogRow → Key
tail_of row = str row.asset_symbol ∷ str row.id ∷ []

abbrev pub last_read_key : Option ℕ → Key → Key
last_read_key none tail = int (pos 1) ∷ int (pos 0) ∷ tail
last_read_key (some t) tail = int (pos 0) ∷ int (negated (micros t)) ∷ tail

abbrev pub expires_key : Option ℕ → Key → Key
expires_key none tail = int (pos 1) ∷ int (pos 0) ∷ tail
expires_key (some t) tail = int (pos 0) ∷ int (micros t) ∷ tail

-- The usage is the last read of a dataset.
abbrev pub Usage : Type 0
Usage = Text → Option ℕ

unfoldable pub sort_key : DatasetSort → Usage → CatalogRow → Key
sort_key symbol usage row = tail_of row
sort_key expires usage row = expires_key row.expiry (tail_of row)
sort_key last_read usage row = last_read_key (usage row.id) (tail_of row)

-- A part of a decoded payload.
pub data Json : Type 0 where
  json_int : ℤ → Json
  json_str : Text → Json
  json_other : Json

-- The order is none for one that names no sort, and the key is none for one that is no list.
pub data Cursor : Type 0 where
  unreadable : Cursor
  payload : (order : Option DatasetSort) (key : Option (List Json)) → Cursor

abbrev pub json_of : Part → Json
json_of (int n) = json_int n
json_of (str t) = json_str t

unfoldable pub cursor_for : DatasetSort → Usage → CatalogRow → Cursor
unfolding sort_key
cursor_for sort usage row = payload (some sort) (some (map json_of (sort_key sort usage row)))

abbrev pub same_sort : DatasetSort → DatasetSort → Bool
same_sort symbol symbol = true
same_sort expires expires = true
same_sort last_read last_read = true
same_sort _ _ = false

abbrev pub tail_from : (Text → Bool) → Json → Json → Option Key
tail_from is_uuid (json_str s) (json_str id) =
    if is_uuid id then some (str s ∷ str id ∷ []) else none
tail_from is_uuid _ _ = none

abbrev pub after_head : Json → Json → Option Key → Option Key
after_head (json_int a) (json_int b) (some tail) = some (int a ∷ int b ∷ tail)
after_head _ _ _ = none

-- The shape of the sort's keys.
abbrev pub key_of_shape : (Text → Bool) → DatasetSort → List Json → Option Key
key_of_shape is_uuid symbol (s ∷ id ∷ []) = tail_from is_uuid s id
key_of_shape is_uuid symbol _ = none
key_of_shape is_uuid expires (a ∷ b ∷ s ∷ id ∷ []) = after_head a b (tail_from is_uuid s id)
key_of_shape is_uuid expires _ = none
key_of_shape is_uuid last_read (a ∷ b ∷ s ∷ id ∷ []) = after_head a b (tail_from is_uuid s id)
key_of_shape is_uuid last_read _ = none

-- `_key_from_cursor`, with none for the refusal. What uuid.UUID accepts is an argument.
unfoldable pub key_from_cursor : (Text → Bool) → Cursor → DatasetSort → Option Key
key_from_cursor is_uuid (payload (some order) (some key)) sort =
    if same_sort order sort then key_of_shape is_uuid sort key else none
key_from_cursor is_uuid _ sort = none

-- `sorted`, by key.
abbrev pub insert : (CatalogRow → Key) → CatalogRow → List CatalogRow → List CatalogRow
insert key row [] = row ∷ []
insert key row (r ∷ rs) =
    let rest = insert key row rs in if key_lt (key r) (key row) then r ∷ rest else row ∷ r ∷ rs

abbrev pub sorted : (CatalogRow → Key) → List CatalogRow → List CatalogRow
sorted key [] = []
sorted key (r ∷ rs) = insert key r (sorted key rs)
