-- ===== src/Errors.antt =====
-- The error vocabulary of server/common/errors/vocabulary.py: the reasons, and what the platform decides from each of
-- them. The summary of a row, which no code reads, is left out.
pub mod Codes
pub mod Build
pub mod Rpc
pub mod Received
pub mod Http
pub mod Rules
pub mod Given
pub mod Hop
pub mod Ids
mod Tests
use trader_joe.Base.{ℕ, Bool, true, false, Option, none, some}
use trader_joe.Errors.Codes.{StatusCode}

pub data Reason : Type 0 where
  invalid_request unsupported_asset_type unsupported_instrument feed_not_available : Reason
  vendor_invalid_request range_in_future vendor_rejected not_found owner_mismatch : Reason
  override_required own_overlap_conflict range_collision range_shrink : Reason
  duplicate_bar_timestamp database_integrity rate_budget vendor_rate_limited : Reason
  vendor_unavailable vendor_auth deadline peer_unavailable peer_internal : Reason
  peer_protocol_error database_unavailable database_conflict : Reason

pub data Outcome : Type 0 where
  refused not_ready : Outcome

pub data Disposition : Type 0 where
  page record_only client_fix : Disposition

-- The two classes that an error can be of.
pub data Branch : Type 0 where
  exogenous_error invalid_request_error : Branch

pub record ReasonSpec : Type 0 where
  pub branch : Branch
  pub outcome : Outcome
  pub disposition : Disposition
  pub grpc_code : Option StatusCode
  pub http_status : ℕ
  pub requires_reset_at : Bool

abbrev reason_spec : Branch → Outcome → Disposition → Option StatusCode → ℕ → Bool → ReasonSpec
reason_spec branch outcome disposition grpc_code http_status requires_reset_at = record {
  branch = branch;
  outcome = outcome;
  disposition = disposition;
  grpc_code = grpc_code;
  http_status = http_status;
  requires_reset_at = requires_reset_at;
}

-- The table.
abbrev pub reasons : Reason → ReasonSpec
reasons invalid_request =
    reason_spec invalid_request_error refused client_fix (some StatusCode.invalid_argument) 422
      false
reasons unsupported_asset_type =
    reason_spec invalid_request_error refused client_fix (some StatusCode.invalid_argument) 422
      false
reasons unsupported_instrument =
    reason_spec invalid_request_error refused client_fix (some StatusCode.invalid_argument) 422
      false
reasons feed_not_available = reason_spec invalid_request_error refused client_fix none 422 false
reasons vendor_invalid_request =
    reason_spec invalid_request_error refused client_fix (some StatusCode.invalid_argument) 422
      false
reasons range_in_future =
    reason_spec invalid_request_error refused client_fix (some StatusCode.invalid_argument) 422
      false
reasons vendor_rejected =
    reason_spec exogenous_error refused page (some StatusCode.invalid_argument) 422 false
reasons not_found =
    reason_spec invalid_request_error refused client_fix (some StatusCode.not_found) 404 false
reasons owner_mismatch =
    reason_spec invalid_request_error refused client_fix (some StatusCode.permission_denied) 403
      false
reasons override_required =
    reason_spec invalid_request_error refused client_fix (some StatusCode.failed_precondition) 409
      false
reasons own_overlap_conflict =
    reason_spec invalid_request_error refused client_fix (some StatusCode.already_exists) 409 false
reasons range_collision =
    reason_spec invalid_request_error refused client_fix (some StatusCode.already_exists) 409 false
reasons range_shrink =
    reason_spec invalid_request_error refused client_fix (some StatusCode.failed_precondition) 409
      false
reasons duplicate_bar_timestamp =
    reason_spec invalid_request_error refused client_fix (some StatusCode.invalid_argument) 422
      false
reasons database_integrity = reason_spec exogenous_error refused page none 409 false
reasons rate_budget =
    reason_spec exogenous_error not_ready record_only (some StatusCode.failed_precondition) 429 true
reasons vendor_rate_limited =
    reason_spec exogenous_error not_ready page (some StatusCode.failed_precondition) 429 true
reasons vendor_unavailable =
    reason_spec exogenous_error not_ready record_only (some StatusCode.failed_precondition) 503
      false
reasons vendor_auth =
    reason_spec exogenous_error not_ready page (some StatusCode.failed_precondition) 503 false
reasons deadline =
    reason_spec exogenous_error not_ready record_only (some StatusCode.failed_precondition) 504
      false
reasons peer_unavailable = reason_spec exogenous_error not_ready page none 503 false
reasons peer_internal = reason_spec exogenous_error not_ready page none 502 false
reasons peer_protocol_error = reason_spec exogenous_error not_ready page none 502 false
reasons database_unavailable = reason_spec exogenous_error not_ready page none 503 false
reasons database_conflict = reason_spec exogenous_error not_ready record_only none 503 false
