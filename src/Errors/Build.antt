-- ===== src/Errors/Build.antt =====
-- The construction of an error: TraderJoeError of server/common/errors/vocabulary.py with its checks. A text is a list of
-- characters by their numbers, and a datetime is naive or an instant, which its offset can put before or after what UTC can show.
-- The types of the arguments are the declared ones.
use trader_joe.Base.{
  ℕ, ◌+◌, ◌-◌, ◌*◌, ◌/◌, Bool, true, false, not, ◌&&◌, ◌||◌, Option, none, some, List, [], ◌∷◌,
  ◌++◌, leb, ◌==◌, if◌then◌else◌,
}
use trader_joe.Base.Raised.{Raised, ok, raise, overflow, value_error, type_error, ◌>>=◌}
use trader_joe.Errors.Codes.{StatusCode, unavailable}
use trader_joe.Errors.{
  Reason, Outcome, refused, not_ready, Branch, exogenous_error, invalid_request_error, ReasonSpec,
  reasons,
}

abbrev pub is_refused : Outcome → Bool
is_refused refused = true
is_refused not_ready = false

abbrev pub is_never_sent : Option StatusCode → Bool
is_never_sent (some unavailable) = true
is_never_sent _ = false

-- `ReasonSpec.__post_init__`, without the check of the summary. That the branch is one of the two and the code a
-- canonical one, their types say.
unfoldable pub check_spec : ReasonSpec → Raised (Unit {0})
check_spec spec =
    if is_never_sent spec.grpc_code
    then raise value_error
    else if not (leb 400 spec.http_status && leb spec.http_status 599)
    then raise value_error
    else if spec.requires_reset_at && is_refused spec.outcome
    then raise value_error
    else ok tt

abbrev pub Text : Type 0
Text = List ℕ

-- The keys of METADATA_KEYS, and any other.
pub data Key : Type 0 where
  asset_symbol_key range_start_key range_end_key feed_key granularity_key vendor_key : Key
  retry_after_key reset_at_key colliding_ids_key error_id_key : Key
  unlisted : (name : ℕ) → Key

abbrev pub index_of : Key → ℕ
index_of asset_symbol_key = 0
index_of range_start_key = 1
index_of range_end_key = 2
index_of feed_key = 3
index_of granularity_key = 4
index_of vendor_key = 5
index_of retry_after_key = 6
index_of reset_at_key = 7
index_of colliding_ids_key = 8
index_of error_id_key = 9
index_of (unlisted name) = 10 + name

abbrev pub is_key : Key → Key → Bool
is_key a b = index_of a == index_of b

abbrev pub is_listed : Key → Bool
is_listed (unlisted name) = false
is_listed _ = true

-- `_DERIVED_METADATA_KEYS`
abbrev pub is_derived : Key → Bool
is_derived k = is_key k reset_at_key || is_key k retry_after_key

pub data Value : Type 0 where
  text : Text → Value
  sequence : List Text → Value

-- A mapping in its order. Its keys are different ones.
abbrev pub Metadata : Type 0
Metadata = List (Key × Value)

abbrev pub lookup {ℓ} : {A : Type ℓ} → Key → List (Key × A) → Option A
lookup key [] = none
lookup key ((k, v) ∷ m) = let rest = lookup key m in if is_key k key then some v else rest

-- `m[key] = value`
abbrev pub put {ℓ} : {A : Type ℓ} → Key → A → List (Key × A) → List (Key × A)
put key value [] = (key, value) ∷ []
put key value ((k, v) ∷ m) =
    let rest = put key value m in if is_key k key then (k, value) ∷ m else (k, v) ∷ rest

-- What an error is built as: the base itself, one of the two branches, or a leaf of one.
pub data ErrorClass : Type 0 where
  base : ErrorClass
  branch_class : Branch → ErrorClass
  leaf : Branch → ErrorClass

abbrev pub branch_of : ErrorClass → Option Branch
branch_of base = none
branch_of (branch_class b) = some b
branch_of (leaf b) = some b

abbrev pub same_branch : Branch → Branch → Bool
same_branch exogenous_error exogenous_error = true
same_branch invalid_request_error invalid_request_error = true
same_branch _ _ = false

pub record TraderJoeError : Type 0 where
  pub class : ErrorClass
  pub reason : Reason
  pub detail : Text
  pub metadata : Metadata
  pub reset_at : Option ℕ

unfoldable pub checked_metadata : Metadata → Raised Metadata
checked_metadata [] = ok []
checked_metadata ((k, v) ∷ m) =
    let rest = checked_metadata m in
    if not (is_listed k)
    then raise value_error
    else if is_derived k
    then raise value_error
    else rest >>= (λ checked. ok ((k, v) ∷ checked))

-- A datetime that was read: naive, or aware at an instant in microseconds after `datetime.min` in UTC, or, if its offset
-- puts it there, `by + 1` microseconds before.
pub data DateTime : Type 0 where
  naive : (t : ℕ) → DateTime
  aware : (t : ℕ) → DateTime
  early : (by : ℕ) → DateTime

-- The first microsecond after `datetime.max`.
abbrev pub datetime_end : ℕ
datetime_end = 3652059 * 86400000000

-- `astimezone(UTC)` of an instant that is not before `datetime.min`.
abbrev pub in_utc : ℕ → Raised (Option ℕ)
in_utc t = if leb datetime_end t then raise overflow else ok (some t)

unfoldable pub checked_reset_at : ReasonSpec → Option DateTime → Raised (Option ℕ)
checked_reset_at spec none = if spec.requires_reset_at then raise value_error else ok none
checked_reset_at spec (some (naive t)) = raise value_error
checked_reset_at spec (some (aware t)) =
    if is_refused spec.outcome then raise value_error else in_utc t
checked_reset_at spec (some (early by)) =
    if is_refused spec.outcome then raise value_error else raise overflow

-- The checks of the metadata and of the reset time, after the class is known to fit.
unfoldable pub built :
    ErrorClass → Reason → Text → Metadata → Option DateTime → Raised TraderJoeError
unfolding checked_metadata checked_reset_at
built class reason detail metadata reset_at = do
  checked ← checked_metadata metadata
  instant ← checked_reset_at (reasons reason) reset_at
  ok (record {
    class = class;
    reason = reason;
    detail = detail;
    metadata = checked;
    reset_at = instant;
  })

abbrev pub fits : Option Branch → Branch → Bool
fits none b = false
fits (some a) b = same_branch a b

-- `__init__`
unfoldable pub trader_joe_error :
    ErrorClass → Reason → Text → Metadata → Option DateTime → Raised TraderJoeError
unfolding built
trader_joe_error class reason detail metadata reset_at =
    if fits (branch_of class) (reasons reason).branch
    then built class reason detail metadata reset_at
    else raise type_error

abbrev pub one_second : ℕ
one_second = 1000000

-- `clock() + delay`
unfoldable pub after_delay : ℕ → ℕ → Raised ℕ
after_delay now delay = if leb datetime_end (now + delay) then raise overflow else ok (now + delay)

-- A number of seconds, in microseconds, or one that is refused.
pub data Delay : Type 0 where
  microseconds : ℕ → Delay
  negative : Delay
  not_finite : Delay

-- A delay that is no whole number of microseconds is not modelled.
unfoldable pub from_retry_after :
    ErrorClass → Reason → Text → Delay → Metadata → ℕ → Raised TraderJoeError
unfolding after_delay trader_joe_error
from_retry_after class reason detail negative metadata now = raise value_error
from_retry_after class reason detail not_finite metadata now = raise value_error
from_retry_after class reason detail (microseconds delay) metadata now =
    after_delay now delay >>= (λ t. trader_joe_error class reason detail metadata (some (aware t)))

-- The property `retry_after`, read at an instant: `-(-remaining // 1s)`, and no less than 0.
abbrev pub remaining_seconds : Option ℕ → ℕ → Option ℕ
remaining_seconds none now = none
remaining_seconds (some t) now = some ((t - now + (one_second - 1)) / one_second)

unfoldable pub retry_after : TraderJoeError → ℕ → Option ℕ
retry_after error now = remaining_seconds error.reset_at now

abbrev pub comma : ℕ
comma = 44

-- `METADATA_SEQUENCE_SEPARATOR.join(items)`
abbrev pub join : List Text → Text
join [] = []
join (item ∷ []) = item
join (item ∷ next ∷ items) = item ++ (comma ∷ join (next ∷ items))

abbrev pub is_empty : Text → Bool
is_empty [] = true
is_empty (c ∷ cs) = false

abbrev pub names_something : List Text → Bool
names_something [] = false
names_something (item ∷ items) = not (is_empty item) || names_something items

abbrev pub id_in : Option Value → Option Text
id_in none = none
id_in (some (text id)) = if is_empty id then none else some id
id_in (some (sequence items)) = if names_something items then some (join items) else none

unfoldable pub own_error_id : TraderJoeError → Option Text
own_error_id error = id_in (lookup error_id_key error.metadata)

-- What an exception remembers of those before it.
pub record Chain : Type 0 where
  pub cause : Bool
  pub context : Bool
  pub suppress_context : Bool

unfoldable pub has_cause_chain : Chain → Bool
has_cause_chain exc = exc.cause || (exc.context && not exc.suppress_context)
