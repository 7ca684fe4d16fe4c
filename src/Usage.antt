-- ===== src/Usage.antt =====
-- server/data/store/app/client_label.py and server/data/store/app/usage_recorder.py: the label of a read, the buffer of
-- reads with its flush, and the cap on the labels of a dataset and a day. A string is the list of its code points.
pub mod Cap
pub mod Buffer
mod Tests
use trader_joe.Base.{
  ℕ, zero, suc, ◌+◌, ◌-◌, Bool, true, false, not, ◌&&◌, ◌||◌, Option, none, some, List, [], ◌∷◌,
  ◌++◌, map, min, max, ltb, leb, ◌==◌, if◌then◌else◌, length, drop, filter,
}
use trader_joe.Calendar.{utc_date}

pub data ReadClientKind : Type 0 where
  ui sdk : ReadClientKind

pub record ClientLabel : Type 0 where
  pub client_id : List ℕ
  pub client_kind : ReadClientKind

-- `a == b` on strings.
abbrev pub same : List ℕ → List ℕ → Bool
same [] [] = true
same [] (y ∷ ys) = false
same (x ∷ xs) [] = false
same (x ∷ xs) (y ∷ ys) = let rest = same xs ys in (x == y) && rest

abbrev pub operator_principal : List ℕ
operator_principal = 111 ∷ 112 ∷ 101 ∷ 114 ∷ 97 ∷ 116 ∷ 111 ∷ 114 ∷ []

abbrev pub underscore : ℕ
underscore = 95

abbrev pub unattributed : List ℕ
unattributed = underscore ∷ 117 ∷ 110 ∷ 97 ∷ 116 ∷ 116 ∷ 114 ∷ 105 ∷ 98 ∷ 117 ∷ 116 ∷ 101 ∷ 100 ∷ []

abbrev pub overflow_id : List ℕ
overflow_id = underscore ∷ 111 ∷ 118 ∷ 101 ∷ 114 ∷ 102 ∷ 108 ∷ 111 ∷ 119 ∷ []

abbrev pub max_client_id_length : ℕ
max_client_id_length = 128

abbrev pub unattributed_label : ClientLabel
unattributed_label = record { client_id = unattributed; client_kind = sdk }

abbrev pub is_control : ℕ → Bool
is_control char = ltb char 32 || (leb 127 char && leb char 159)

unfoldable pub has_control_character : List ℕ → Bool
has_control_character [] = false
has_control_character (char ∷ chars) =
    let rest = has_control_character chars in is_control char || rest

-- `value.startswith('_')`
abbrev pub is_reserved : List ℕ → Bool
is_reserved [] = false
is_reserved (char ∷ _) = char == underscore

-- Why a header's value is refused.
pub data Refusal : Type 0 where
  empty too_long control_character reserved_prefix : Refusal

unfoldable pub refusal : List ℕ → Option Refusal
unfolding has_control_character
refusal [] = some empty
refusal (char ∷ chars) =
    if ltb max_client_id_length (length (char ∷ chars))
    then some too_long
    else if has_control_character (char ∷ chars)
    then some control_character
    else if is_reserved (char ∷ chars)
    then some reserved_prefix
    else none

unfoldable pub classify_client_label : Option (List ℕ) → ClientLabel
unfolding refusal
classify_client_label none = unattributed_label
classify_client_label (some raw) = elim (refusal raw) [
  | none ↦ record { client_id = raw; client_kind = if same raw operator_principal then ui else sdk }
  | some _ ↦ unattributed_label
]

pub record NewRead : Type 0 where
  pub dataset_id : ℕ
  pub client_id : List ℕ
  pub client_kind : ReadClientKind
  pub route : List ℕ
  pub bars_returned : ℕ
  pub read_at : ℕ

unfoldable pub counts_toward_cap : List ℕ → Bool
counts_toward_cap client_id = not (same client_id operator_principal) && not (is_reserved client_id)

abbrev pub with_client_id : NewRead → List ℕ → NewRead
with_client_id read client_id = record read { client_id = client_id }

abbrev pub max_ids_per_dataset_day : ℕ
max_ids_per_dataset_day = 32

-- The ids seen for a dataset and a UTC day.
abbrev pub Seen : Type 0
Seen = ℕ → ℕ → List (List ℕ)

abbrev pub holds : List ℕ → List (List ℕ) → Bool
holds id [] = false
holds id (other ∷ ids) = let rest = holds id ids in same id other || rest

abbrev pub put : Seen → ℕ → ℕ → List ℕ → Seen
put seen dataset day id d t = if (d == dataset) && (t == day) then id ∷ seen d t else seen d t

abbrev pub ids_of : Seen → NewRead → List (List ℕ)
ids_of seen read = seen read.dataset_id (utc_date read.read_at)

-- One read: its id is kept if it is exempt, known or within the cap, and replaced otherwise.
unfoldable pub cap_one : Seen → NewRead → Seen × NewRead
unfolding counts_toward_cap utc_date
cap_one seen read =
    if not (counts_toward_cap read.client_id)
    then (seen, read)
    else if holds read.client_id (ids_of seen read)
    then (seen, read)
    else if ltb (length (ids_of seen read)) max_ids_per_dataset_day
    then (put seen read.dataset_id (utc_date read.read_at) read.client_id, read)
    else (seen, with_client_id read overflow_id)

unfoldable pub cap_all : Seen → List NewRead → Seen × List NewRead
unfolding cap_one
cap_all seen [] = (seen, [])
cap_all seen (read ∷ reads) =
    let (seen', kept) = cap_one seen read in
    let (seen'', rest) = cap_all seen' reads in (seen'', kept ∷ rest)

-- `_apply_cap`, given what the database holds of the days of the batch.
unfoldable pub apply_cap : Seen → List NewRead → List NewRead
unfolding cap_all counts_toward_cap
apply_cap known batch = (cap_all (λ d t. filter counts_toward_cap (known d t)) batch).1

pub record UsageRecorder : Type 0 where
  pub flush_batch_size : ℕ
  pub buffer_max : ℕ
  pub wake : Bool
  pub buffer : List NewRead
  pub dropped : ℕ
  pub tables_ready : Bool
  pub warned_missing : Bool

unfoldable pub usage_recorder : ℕ → ℕ → UsageRecorder
usage_recorder flush_batch_size buffer_max = record {
  flush_batch_size = flush_batch_size;
  buffer_max = max buffer_max flush_batch_size;
  wake = false;
  buffer = [];
  dropped = 0;
  tables_ready = false;
  warned_missing = false;
}

unfoldable pub trim : UsageRecorder → UsageRecorder
trim r =
    let excess = length r.buffer - r.buffer_max in
    record r { buffer = drop excess r.buffer; dropped = r.dropped + excess }

unfoldable pub wake_if_full : UsageRecorder → UsageRecorder
wake_if_full r = record r {
  wake = if leb r.flush_batch_size (length r.buffer) then true else r.wake;
}

-- `record_read`, which appends; the clock is read before.
unfoldable pub append : UsageRecorder → NewRead → UsageRecorder
unfolding trim wake_if_full
append r read = wake_if_full (trim (record r { buffer = r.buffer ++ (read ∷ []) }))

unfoldable pub append_all : UsageRecorder → List NewRead → UsageRecorder
unfolding append
append_all r [] = r
append_all r (read ∷ reads) = append_all (append r read) reads

-- How the writing of a batch goes: the probe of the tables, what is known, and the insert, each of which may raise. A
-- cancellation comes before or after the probe has found the tables.
pub data Writing : Type 0 where
  no_tables : Writing
  inserted : Writing
  failed : Writing
  cancelled : (probed : Bool) → Writing

-- What a flush leaves: the recorder, the rows written, and whether it raises.
pub record Flushed : Type 0 where
  pub recorder : UsageRecorder
  pub rows : List NewRead
  pub raised : Bool

abbrev pub put_back : List NewRead → UsageRecorder → UsageRecorder
put_back batch r = trim (record r { buffer = batch ++ r.buffer })

-- The tables are probed only while they are not known to be there.
unfoldable pub after_writing : Writing → Seen → List NewRead → UsageRecorder → Flushed
unfolding trim apply_cap
after_writing no_tables known batch r =
    if r.tables_ready
    then record { recorder = r; rows = apply_cap known batch; raised = false }
    else record { recorder = record r { warned_missing = true }; rows = []; raised = false }
after_writing inserted known batch r = record {
  recorder = record r { tables_ready = true };
  rows = apply_cap known batch;
  raised = false;
}
after_writing failed known batch r = record {
  recorder = put_back batch (record r { tables_ready = false });
  rows = [];
  raised = false;
}
after_writing (cancelled probed) known batch r = record {
  recorder = put_back batch (record r { tables_ready = r.tables_ready || probed });
  rows = [];
  raised = true;
}

-- The batch is the whole buffer, and other tasks record reads while the flush waits for the database.
unfoldable pub write_batch : Writing → Seen → List NewRead → List NewRead → UsageRecorder → Flushed
unfolding after_writing append_all
write_batch writing known meanwhile [] r = record {
  recorder = record r { dropped = 0 };
  rows = [];
  raised = false;
}
write_batch writing known meanwhile (read ∷ reads) r =
    after_writing writing known (read ∷ reads)
      (append_all (record r { buffer = []; dropped = 0 }) meanwhile)

unfoldable pub flush : Writing → Seen → List NewRead → UsageRecorder → Flushed
unfolding write_batch
flush writing known meanwhile r = write_batch writing known meanwhile r.buffer r
