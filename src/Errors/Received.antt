-- ===== src/Errors/Received.antt =====
-- The other side of the hop: `from_rpc_error` of server/common/rpc/errors.py.
use trader_joe.Base.{ℕ, not, Option, none, some, List, [], ◌∷◌, map, filter, ◌==◌, if◌then◌else◌}
use trader_joe.Base.Delta.{ℤ, pos, negsuc}
use trader_joe.Base.Raised.{Raised, ok, raise, value_error, type_error, ◌>>=◌}
use trader_joe.Entries.Operator.{strip}
use trader_joe.Errors.Codes.{StatusCode, deadline_exceeded, internal, unavailable}
use trader_joe.Errors.{
  Reason, peer_unavailable, deadline, peer_internal, peer_protocol_error, exogenous_error, reasons,
}
use trader_joe.Errors.Build.{
  Text, Key, error_id_key, reset_at_key, is_derived, text, Metadata, lookup, branch_class,
  TraderJoeError, trader_joe_error, Delay, microseconds, negative, from_retry_after,
}
use trader_joe.Errors.Rpc.{
  Why, no_status, no_error_info, foreign_domain, unknown_reason, no_rebuild, Duration, Runtime,
  ReasonName, member, unknown_name, ErrorInfo, error_domain, Detail, error_info, retry_info, Status,
  Trailer, status_details, other_trailer, AioRpcError, internal_message_prefix,
}

-- The first status that the trailers carry.
abbrev pub first_status : List Trailer → Option Status
first_status [] = none
first_status (status_details s ∷ ts) = s
first_status (other_trailer ∷ ts) = first_status ts

abbrev pub rich_status : Option (List Trailer) → Option Status
rich_status none = none
rich_status (some ts) = first_status ts

-- `_unpacked` for the two types of detail.
abbrev pub unpacked_info : List Detail → Option ErrorInfo
unpacked_info [] = none
unpacked_info (error_info i ∷ ds) = i
unpacked_info (_ ∷ ds) = unpacked_info ds

abbrev pub unpacked_retry : List Detail → Option (Option Duration)
unpacked_retry [] = none
unpacked_retry (retry_info i ∷ ds) = i
unpacked_retry (_ ∷ ds) = unpacked_retry ds

-- What is after a prefix, if the text starts with it.
abbrev pub remove_prefix : Text → Text → Option Text
remove_prefix [] cs = some cs
remove_prefix (p ∷ ps) [] = none
remove_prefix (p ∷ ps) (c ∷ cs) = let rest = remove_prefix ps cs in if p == c then rest else none

-- `stripped or None`
abbrev pub some_text : Text → Option Text
some_text [] = none
some_text (c ∷ cs) = some (c ∷ cs)

abbrev pub id_after : Option Text → Option Text
id_after none = none
id_after (some rest) = some_text (strip rest)

unfoldable pub bug_error_id : Text → Option Text
unfolding strip
bug_error_id detail = id_after (remove_prefix internal_message_prefix detail)

-- `detail or default`
abbrev pub text_or : Text → Text → Text
text_or [] default = default
text_or (c ∷ cs) default = c ∷ cs

-- 'the peer could not be reached'
abbrev pub not_reached : Text
not_reached =
    116 ∷ 104 ∷ 101 ∷ 32 ∷ 112 ∷ 101 ∷ 101 ∷ 114 ∷ 32 ∷ 99 ∷ 111 ∷ 117 ∷ 108 ∷ 100 ∷ 32 ∷ 110 ∷ 111
    ∷ 116 ∷ 32 ∷ 98 ∷ 101 ∷ 32 ∷ 114 ∷ 101 ∷ 97 ∷ 99 ∷ 104 ∷ 101 ∷ 100 ∷ []

-- 'the call did not finish within its deadline'
abbrev pub not_finished : Text
not_finished =
    116 ∷ 104 ∷ 101 ∷ 32 ∷ 99 ∷ 97 ∷ 108 ∷ 108 ∷ 32 ∷ 100 ∷ 105 ∷ 100 ∷ 32 ∷ 110 ∷ 111 ∷ 116 ∷ 32
    ∷ 102 ∷ 105 ∷ 110 ∷ 105 ∷ 115 ∷ 104 ∷ 32 ∷ 119 ∷ 105 ∷ 116 ∷ 104 ∷ 105 ∷ 110 ∷ 32 ∷ 105 ∷ 116
    ∷ 115 ∷ 32 ∷ 100 ∷ 101 ∷ 97 ∷ 100 ∷ 108 ∷ 105 ∷ 110 ∷ 101 ∷ []

-- 'the peer failed with an internal error'
abbrev pub peer_failed : Text
peer_failed =
    116 ∷ 104 ∷ 101 ∷ 32 ∷ 112 ∷ 101 ∷ 101 ∷ 114 ∷ 32 ∷ 102 ∷ 97 ∷ 105 ∷ 108 ∷ 101 ∷ 100 ∷ 32 ∷ 119
    ∷ 105 ∷ 116 ∷ 104 ∷ 32 ∷ 97 ∷ 110 ∷ 32 ∷ 105 ∷ 110 ∷ 116 ∷ 101 ∷ 114 ∷ 110 ∷ 97 ∷ 108 ∷ 32 ∷ 101
    ∷ 114 ∷ 114 ∷ 111 ∷ 114 ∷ []

abbrev pub id_metadata : Option Text → Metadata
id_metadata none = []
id_metadata (some id) = (error_id_key, text id) ∷ []

abbrev pub protocol_error : Runtime → Option StatusCode → Text → Why → Raised TraderJoeError
protocol_error r code detail why =
    trader_joe_error (branch_class exogenous_error) peer_protocol_error (r.sentence code why detail)
      [] none

-- The metadata that a rebuilt error gets.
abbrev pub kept : List (Key × Text) → Metadata
kept m = map (λ e. (e.0, text e.1)) (filter (λ e. not (is_derived e.0)) m)

abbrev delay_of : ℤ → Delay
delay_of (pos n) = microseconds n
delay_of (negsuc n) = negative

-- `_rebuilt` without a reset time: by the delay of a RetryInfo that has one.
unfoldable pub rebuilt_retry :
    Runtime → Reason → Text → Metadata → ℕ → Option (Option Duration) → Raised TraderJoeError
unfolding from_retry_after trader_joe_error
rebuilt_retry r reason detail metadata now (some (some duration)) = do
  delta ← r.to_timedelta duration
  from_retry_after (branch_class (reasons reason).branch) reason detail (delay_of delta) metadata
      now
rebuilt_retry r reason detail metadata now _ =
    trader_joe_error (branch_class (reasons reason).branch) reason detail metadata none

unfoldable pub rebuilt :
    Runtime
    → Reason
    → Text
    → Metadata
    → ℕ
    → Option Text
    → Option (Option Duration)
    → Raised TraderJoeError
unfolding rebuilt_retry trader_joe_error
rebuilt r reason detail metadata now none retry = rebuilt_retry r reason detail metadata now retry
rebuilt r reason detail metadata now (some []) retry =
    rebuilt_retry r reason detail metadata now retry
rebuilt r reason detail metadata now (some (c ∷ cs)) retry = do
  reset_at ← r.fromisoformat (c ∷ cs)
  trader_joe_error (branch_class (reasons reason).branch) reason detail metadata (some reset_at)

-- `except (TypeError, ValueError)`
abbrev pub or_protocol_error : Raised TraderJoeError → Raised TraderJoeError → Raised TraderJoeError
or_protocol_error (ok e) unmapped = ok e
or_protocol_error (raise value_error) unmapped = unmapped
or_protocol_error (raise type_error) unmapped = unmapped
or_protocol_error (raise exn) unmapped = raise exn

unfoldable pub of_member :
    Runtime
    → Option StatusCode
    → Text
    → ℕ
    → List Detail
    → ErrorInfo
    → ReasonName
    → Raised TraderJoeError
unfolding rebuilt trader_joe_error
of_member r code detail now details info (unknown_name name) =
    protocol_error r code detail unknown_reason
of_member r code detail now details info (member reason) =
    or_protocol_error
      (rebuilt r reason detail (kept info.metadata) now (lookup reset_at_key info.metadata)
        (unpacked_retry details))
      (protocol_error r code detail (no_rebuild reason))

unfoldable pub of_info :
    Runtime → Option StatusCode → Text → ℕ → List Detail → Option ErrorInfo → Raised TraderJoeError
unfolding of_member trader_joe_error
of_info r code detail now details none = protocol_error r code detail no_error_info
of_info r code detail now details (some info) =
    if info.domain == error_domain
    then of_member r code detail now details info info.reason
    else protocol_error r code detail foreign_domain

unfoldable pub of_status :
    Runtime → Option StatusCode → Text → ℕ → Option Status → Raised TraderJoeError
unfolding of_info trader_joe_error
of_status r code detail now none = protocol_error r code detail no_status
of_status r code detail now (some status) =
    of_info r code detail now status.details (unpacked_info status.details)

-- The three outcomes of the transport come before any status.
unfoldable pub of_code :
    Runtime → Option StatusCode → Text → ℕ → Option Status → Raised TraderJoeError
unfolding of_status bug_error_id trader_joe_error
of_code r (some unavailable) detail now status =
    trader_joe_error (branch_class exogenous_error) peer_unavailable (text_or detail not_reached) []
      none
of_code r (some deadline_exceeded) detail now status =
    trader_joe_error (branch_class exogenous_error) deadline (text_or detail not_finished) [] none
of_code r (some internal) detail now status =
    trader_joe_error (branch_class exogenous_error) peer_internal (text_or detail peer_failed)
      (id_metadata (bug_error_id detail)) none
of_code r code detail now status = of_status r code detail now status

abbrev pub details_or_empty : Option Text → Text
details_or_empty none = []
details_or_empty (some cs) = cs

unfoldable pub from_rpc_error : Runtime → AioRpcError → ℕ → Raised TraderJoeError
unfolding of_code
from_rpc_error r error now =
    of_code r error.code (details_or_empty error.details) now (rich_status error.trailing_metadata)
