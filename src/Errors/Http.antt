-- ===== src/Errors/Http.antt =====
-- The errors as problem+json: server/routers/common/errors.py. The phrase of a status is the standard library's, a
-- parameter, and a member that is absent is `none`.
use trader_joe.Base.{
  ℕ, Bool, true, false, ◌||◌, Option, none, some, List, [], ◌∷◌, ltb, ◌==◌, if◌then◌else◌,
}
use trader_joe.Errors.{Reason, invalid_request, invalid_request_error, reasons}
use trader_joe.Errors.Build.{
  Text, error_id_key, text, Metadata, put, branch_class, TraderJoeError, own_error_id, retry_after,
  Chain, has_cause_chain,
}
use trader_joe.Errors.Rpc.{id_or, settled_id, error_level, LogLine, line_of}

-- A problem that request validation found: its place, its message and its type.
pub record ValidationIssue : Type 0 where
  pub loc : List Text
  pub msg : Text
  pub type : Text

-- The members of the body. The metadata members are in `members`, under their keys.
pub record ProblemDetails : Type 0 where
  pub title : Text
  pub status : ℕ
  pub detail : Option Text
  pub reason : Option Reason
  pub retry_after : Option ℕ
  pub reset_at : Option ℕ
  pub members : Metadata
  pub errors : Option (List ValidationIssue)

-- The body and the Retry-After header.
pub record Response : Type 0 where
  pub status_code : ℕ
  pub body : Option ProblemDetails
  pub retry_after_header : Option ℕ

abbrev pub members_with_id : Option Text → Text → Metadata → Metadata
members_with_id none chosen m = put error_id_key (text chosen) m
members_with_id (some own) chosen m = m

-- `_describe`, with the answer that `_respond` makes of it.
unfoldable pub describe :
    (ℕ → Text) → TraderJoeError → Option Text → Text → Option (List ValidationIssue) → ℕ → Response
unfolding own_error_id retry_after
describe phrase error error_id fresh errors now =
    let status = (reasons error.reason).http_status in
    record {
      status_code = status;
      body = some (record {
        title = phrase status;
        status = status;
        detail = some error.detail;
        reason = some error.reason;
        retry_after = retry_after error now;
        reset_at = error.reset_at;
        members = members_with_id (own_error_id error) (id_or error_id fresh) error.metadata;
        errors = errors;
      });
      retry_after_header = retry_after error now;
    }

unfoldable pub answer :
    (ℕ → Text)
    → TraderJoeError
    → Chain
    → Text
    → Option (List ValidationIssue)
    → ℕ
    → Response × LogLine
unfolding describe own_error_id has_cause_chain
answer phrase error chain fresh errors now = (
  describe phrase error (some (settled_id (own_error_id error) fresh)) fresh errors now,
  line_of error chain fresh,
)

unfoldable pub on_trader_joe_error :
    (ℕ → Text) → TraderJoeError → Chain → Text → ℕ → Response × LogLine
unfolding answer
on_trader_joe_error phrase error chain fresh now = answer phrase error chain fresh none now

-- `_VALIDATION_DETAIL` is an argument, and the error is built without a chain.
unfoldable pub on_request_validation_error :
    (ℕ → Text) → Text → List ValidationIssue → Text → ℕ → Response × LogLine
unfolding answer
on_request_validation_error phrase validation_detail issues fresh now =
    let error : TraderJoeError = record {
      class = branch_class invalid_request_error;
      reason = invalid_request;
      detail = validation_detail;
      metadata = [];
      reset_at = none;
    } in
    let unchained : Chain = record { cause = false; context = false; suppress_context = false } in
    answer phrase error unchained fresh (some issues) now

-- These statuses carry no body.
abbrev pub is_bodiless : ℕ → Bool
is_bodiless status = ltb status 200 || (status == 204) || (status == 205) || (status == 304)

-- The headers of the exception, which are passed on, are left out.
unfoldable pub on_http_exception : (ℕ → Text) → ℕ → Option Text → Response
on_http_exception phrase status detail =
    if is_bodiless status
    then record { status_code = status; body = none; retry_after_header = none }
    else record {
      status_code = status;
      body = some (record {
        title = phrase status;
        status = status;
        detail = detail;
        reason = none;
        retry_after = none;
        reset_at = none;
        members = [];
        errors = none;
      });
      retry_after_header = none;
    }

unfoldable pub on_unhandled_exception : (ℕ → Text) → Text → Response × LogLine
on_unhandled_exception phrase fresh = (
  record {
    status_code = 500;
    body = some (record {
      title = phrase 500;
      status = 500;
      detail = none;
      reason = none;
      retry_after = none;
      reset_at = none;
      members = (error_id_key, text fresh) ∷ [];
      errors = none;
    });
    retry_after_header = none;
  },
  record { level = error_level; error_id = fresh; with_chain = true },
)
