-- ===== src/Errors/Rpc.antt =====
-- The errors on the gRPC hop: server/common/rpc/errors.py. What the datetime module reads and writes, and the sentence of
-- an answer that will not map, are parameters. A reply is what the servicer aborts with, and an AioRpcError what the
-- caller gets.
use trader_joe.Base.{
  ℕ, Bool, true, false, ◌&&◌, Option, none, some, List, [], ◌∷◌, ◌++◌, map, if◌then◌else◌,
}
use trader_joe.Base.Delta.{ℤ, pos}
use trader_joe.Base.Raised.{Raised, ok, raise, value_error, ◌>>=◌}
use trader_joe.Errors.Codes.{StatusCode, internal, unavailable}
use trader_joe.Errors.{Reason, Disposition, page, record_only, client_fix, reasons}
use trader_joe.Errors.Build.{
  DateTime, Text, Key, error_id_key, reset_at_key, Value, text, sequence, Metadata, put,
  TraderJoeError, retry_after, join, is_empty, own_error_id, Chain, has_cause_chain,
}

-- Why an answer will not map.
pub data Why : Type 0 where
  no_status no_error_info foreign_domain unknown_reason : Why
  no_rebuild : Reason → Why

-- `google.protobuf.Duration`, whose two parts may be negative.
pub record Duration : Type 0 where
  pub seconds : ℤ
  pub nanos : ℤ

-- `to_timedelta` is `Duration.ToTimedelta`, in microseconds.
pub record Runtime : Type 0 where
  pub isoformat : ℕ → Text
  pub fromisoformat : Text → Raised DateTime
  pub to_timedelta : Duration → Raised ℤ
  pub sentence : Option StatusCode → Why → Text → Text

-- A reason on the wire: one of ours, or another string.
pub data ReasonName : Type 0 where
  member : Reason → ReasonName
  unknown_name : (name : ℕ) → ReasonName

-- Its domain is a string, by a number.
pub record ErrorInfo : Type 0 where
  pub reason : ReasonName
  pub domain : ℕ
  pub metadata : List (Key × Text)

abbrev pub error_domain : ℕ
error_domain = 0

-- A packed detail of a status, with `none` for one that does not decode. A RetryInfo may lack its delay.
pub data Detail : Type 0 where
  error_info : Option ErrorInfo → Detail
  retry_info : Option (Option Duration) → Detail
  other_detail : Detail

pub record Status : Type 0 where
  pub code : StatusCode
  pub message : Text
  pub details : List Detail

-- Trailing metadata: the rich status, which may not decode, and anything else.
pub data Trailer : Type 0 where
  status_details : Option Status → Trailer
  other_trailer : Trailer

pub record Reply : Type 0 where
  pub code : StatusCode
  pub details : Text
  pub trailing_metadata : List Trailer

pub record AioRpcError : Type 0 where
  pub code : Option StatusCode
  pub details : Option Text
  pub trailing_metadata : Option (List Trailer)

abbrev pub wire_value : Value → Text
wire_value (text cs) = cs
wire_value (sequence items) = join items

abbrev pub wired : Metadata → List (Key × Text)
wired m = map (λ e. (e.0, wire_value e.1)) m

-- `error_id or new_error_id()`
abbrev pub id_or : Option Text → Text → Text
id_or none fresh = fresh
id_or (some id) fresh = if is_empty id then fresh else id

abbrev pub with_id : Option Text → Text → List (Key × Text) → List (Key × Text)
with_id none chosen m = put error_id_key chosen m
with_id (some own) chosen m = m

abbrev pub with_reset : Runtime → Option ℕ → List (Key × Text) → List (Key × Text)
with_reset r none m = m
with_reset r (some t) m = put reset_at_key (r.isoformat t) m

abbrev pub retry_detail : Option ℕ → List Detail
retry_detail none = []
retry_detail (some seconds) =
    retry_info (some (some (record { seconds = pos seconds; nanos = pos 0 }))) ∷ []

abbrev pub is_unavailable : StatusCode → Bool
is_unavailable unavailable = true
is_unavailable _ = false

-- The metadata of the ErrorInfo.
unfoldable pub wire_metadata : Runtime → TraderJoeError → Text → List (Key × Text)
unfolding own_error_id
wire_metadata r error chosen =
    with_reset r error.reset_at (with_id (own_error_id error) chosen (wired error.metadata))

unfoldable pub render_as : Runtime → TraderJoeError → Text → ℕ → Option StatusCode → Raised Status
unfolding wire_metadata retry_after
render_as r error chosen now none = raise value_error
render_as r error chosen now (some code) =
    let info : ErrorInfo = record {
      reason = member error.reason;
      domain = error_domain;
      metadata = wire_metadata r error chosen;
    } in
    if is_unavailable code
    then raise value_error
    else ok (record {
      code = code;
      message = error.detail;
      details = error_info (some info) ∷ retry_detail (retry_after error now);
    })

unfoldable pub render : Runtime → TraderJoeError → Option Text → Text → ℕ → Raised Status
unfolding render_as
render r error error_id fresh now =
    render_as r error (id_or error_id fresh) now (reasons error.reason).grpc_code

pub data Level : Type 0 where
  error_level warning_level info_level : Level

abbrev pub log_level : Disposition → Level
log_level page = error_level
log_level record_only = warning_level
log_level client_fix = info_level

-- The one line of the log: its level, the id it names, and whether it carries a cause chain.
pub record LogLine : Type 0 where
  pub level : Level
  pub error_id : Text
  pub with_chain : Bool

abbrev pub settled_id : Option Text → Text → Text
settled_id none fresh = fresh
settled_id (some own) fresh = own

abbrev pub is_none {ℓ} : {A : Type ℓ} → Option A → Bool
is_none none = true
is_none (some a) = false

abbrev pub line_of : TraderJoeError → Chain → Text → LogLine
line_of error chain fresh =
    let own = own_error_id error in
    record {
      level = log_level (reasons error.reason).disposition;
      error_id = settled_id own fresh;
      with_chain = is_none own && has_cause_chain chain;
    }

abbrev pub reply_of : Status → Reply
reply_of s = record {
  code = s.code;
  details = s.message;
  trailing_metadata = status_details (some s) ∷ [];
}

unfoldable pub abort_with_error :
    Runtime → TraderJoeError → Chain → Text → ℕ → Raised (Reply × LogLine)
unfolding render own_error_id has_cause_chain
abort_with_error r error chain fresh now = do
  status ← render r error (some (settled_id (own_error_id error) fresh)) fresh now
  ok (reply_of status, line_of error chain fresh)

-- 'internal error; error_id '
abbrev pub internal_message_prefix : Text
internal_message_prefix =
    105 ∷ 110 ∷ 116 ∷ 101 ∷ 114 ∷ 110 ∷ 97 ∷ 108 ∷ 32 ∷ 101 ∷ 114 ∷ 114 ∷ 111 ∷ 114 ∷ 59 ∷ 32 ∷ 101
    ∷ 114 ∷ 114 ∷ 111 ∷ 114 ∷ 95 ∷ 105 ∷ 100 ∷ 32 ∷ []

-- A bug: INTERNAL with the id only, and its traceback in the log.
unfoldable pub abort_with_bug : Text → Reply × LogLine
abort_with_bug fresh = (
  record { code = internal; details = internal_message_prefix ++ fresh; trailing_metadata = [] },
  record { level = error_level; error_id = fresh; with_chain = true },
)

-- What escapes a servicer: an error of the vocabulary, or anything else.
pub data Escaped : Type 0 where
  typed : TraderJoeError → Chain → Escaped
  bug : Escaped

unfoldable pub abort_typed :
    Runtime → TraderJoeError → Chain → Text → ℕ → Option StatusCode → Raised (Reply × LogLine)
unfolding abort_with_error abort_with_bug
abort_typed r error chain fresh now none = ok (abort_with_bug fresh)
abort_typed r error chain fresh now (some code) = abort_with_error r error chain fresh now

unfoldable pub abort_for : Runtime → Escaped → Text → ℕ → Raised (Reply × LogLine)
unfolding abort_typed abort_with_bug
abort_for r (typed error chain) fresh now =
    abort_typed r error chain fresh now (reasons error.reason).grpc_code
abort_for r bug fresh now = ok (abort_with_bug fresh)
