-- ===== src/Errors/Tests.antt =====
-- An error of the rate budget on its way from the ingest to a client, and answers that will not map.
use trader_joe.Base.{ℕ, ◌+◌, ◌*◌, ◌≡◌, refl, true, false, none, some, [], ◌∷◌, ◌++◌}
use trader_joe.Base.Delta.{ℤ, pos, negsuc}
use trader_joe.Base.Raised.{Raised, ok, raise, overflow, value_error, type_error}
use trader_joe.Entries.Operator.{strip}
use trader_joe.Errors.Codes.{StatusCode}
use trader_joe.Errors.{
  rate_budget, vendor_unavailable, peer_internal, not_found, exogenous_error, reasons,
}
use trader_joe.Errors.Build.{
  DateTime, aware, early, Text, vendor_key, colliding_ids_key, error_id_key, reset_at_key, text,
  sequence, Metadata, branch_class, leaf, TraderJoeError, checked_metadata, checked_reset_at, built,
  trader_joe_error, check_spec, after_delay, from_retry_after, retry_after, own_error_id, Chain,
  has_cause_chain,
}
use trader_joe.Errors.Rpc.{
  Duration, Runtime, member, error_info, retry_info, status_details, Reply, AioRpcError,
  internal_message_prefix, wire_metadata, render_as, render, line_of, abort_with_error,
  abort_with_bug, abort_typed, typed, abort_for,
}
use trader_joe.Errors.Received.{
  bug_error_id, rebuilt_retry, rebuilt, of_member, of_info, of_status, of_code, from_rpc_error,
}
use trader_joe.Errors.Http.{describe, answer, on_trader_joe_error}
use trader_joe.Errors.Rules.{
  IsConsistent, reasons-IsConsistent, IsWait, retry_after-IsWait, Constructs,
  trader_joe_error-Constructs,
}
use trader_joe.Errors.Given.{IsBuilt, trader_joe_error-IsBuilt}
use trader_joe.Errors.Hop.{RuntimeLaws, Delivers, relayed, from_rpc_error-abort_for}
use trader_joe.Errors.Ids.{Names, on_trader_joe_error-from_rpc_error}

program : Unit {0}
unfolding checked_metadata checked_reset_at built trader_joe_error check_spec after_delay
    from_retry_after retry_after own_error_id has_cause_chain wire_metadata render_as render
    abort_with_error abort_with_bug abort_typed abort_for strip bug_error_id rebuilt_retry rebuilt
    of_member of_info of_status of_code from_rpc_error describe answer on_trader_joe_error
program = tt

-- A runtime that writes an instant as one character.
abbrev read_instant : Text → Raised DateTime
read_instant (t ∷ []) = ok (aware t)
read_instant (t ∷ u ∷ []) = ok (early u)
read_instant _ = raise value_error

-- In whole seconds.
abbrev read_duration : Duration → Raised ℤ
read_duration d = ok (times d.seconds)
  where
    times : ℤ → ℤ
    times (pos n) = pos (n * 1000000)
    times (negsuc n) = negsuc (n * 1000000 + 999999)

abbrev runtime : Runtime
runtime = record {
  isoformat = λ t. t ∷ [];
  fromisoformat = read_instant;
  to_timedelta = read_duration;
  sentence = λ code why cs. cs;
}

runtime-laws : RuntimeLaws runtime
runtime-laws = record { written = λ t. refl; read = λ t h. refl }

abbrev received : Reply → AioRpcError
received reply = record {
  code = some reply.code;
  details = some reply.details;
  trailing_metadata = some reply.trailing_metadata;
}

received-Delivers : Delivers received
received-Delivers = record { code = λ reply. refl; details = λ reply. refl; status = λ reply. refl }

abbrev metadata : Metadata
metadata =
    (vendor_key, text (97 ∷ [])) ∷ (colliding_ids_key, sequence ((98 ∷ []) ∷ (99 ∷ []) ∷ [])) ∷ []

abbrev over_budget : TraderJoeError
over_budget = record {
  class = leaf exogenous_error;
  reason = rate_budget;
  detail = 100 ∷ [];
  metadata = metadata;
  reset_at = some 5000000;
}

over_budget-IsBuilt : IsBuilt over_budget
unfolding program
over_budget-IsBuilt =
    trader_joe_error-IsBuilt (leaf exogenous_error) rate_budget (100 ∷ []) metadata
      (some (aware 5000000)) over_budget refl

-- 2.5 seconds are 3.
rounded_up : retry_after over_budget 2500000 ≡ some 3
unfolding program
rounded_up = refl

-- This reason requires a reset time.
reset_missing : trader_joe_error (leaf exogenous_error) rate_budget [] [] none ≡ raise value_error
unfolding program
reset_missing = refl

wrong_branch : trader_joe_error (leaf exogenous_error) not_found [] [] none ≡ raise type_error
unfolding program
wrong_branch = refl

abbrev chained : Chain
chained = record { cause = true; context = false; suppress_context = false }

abbrev id : Text
id = 105 ∷ []

abbrev bug_details : Text
bug_details = internal_message_prefix ++ id

-- The id of a bug comes out of its message.
bug_id_found :
    from_rpc_error runtime
      (record {
        code = some StatusCode.internal;
        details = some bug_details;
        trailing_metadata = none;
      })
      0
    ≡ ok (record {
      class = branch_class exogenous_error;
      reason = peer_internal;
      detail = bug_details;
      metadata = (error_id_key, text id) ∷ [];
      reset_at = none;
    })
unfolding program
bug_id_found = refl

-- A peer's status with a delay of ten thousand years.
abbrev endless : AioRpcError
endless = record {
  code = some StatusCode.failed_precondition;
  details = some (100 ∷ []);
  trailing_metadata = some (
      status_details (
        some (record {
          code = StatusCode.failed_precondition;
          message = 100 ∷ [];
          details =
              error_info
                (some (record { reason = member vendor_unavailable; domain = 0; metadata = [] }))
              ∷ retry_info (some (some (record { seconds = pos 315576000000; nanos = pos 0 })))
              ∷ [];
        }))
      ∷ []);
}

endless_overflows : from_rpc_error runtime endless 0 ≡ raise overflow
unfolding program
endless_overflows = refl

-- A peer's reset time an hour before what UTC can show, as 0001-01-01T00:00:00+01:00 is.
abbrev before_min : AioRpcError
before_min = record {
  code = some StatusCode.failed_precondition;
  details = some (100 ∷ []);
  trailing_metadata = some (
      status_details (
        some (record {
          code = StatusCode.failed_precondition;
          message = 100 ∷ [];
          details =
              error_info (
                some (record {
                  reason = member vendor_unavailable;
                  domain = 0;
                  metadata = (reset_at_key, 0 ∷ 3599999999 ∷ []) ∷ [];
                }))
              ∷ [];
        }))
      ∷ []);
}

before_min_overflows : from_rpc_error runtime before_min 0 ≡ raise overflow
unfolding program
before_min_overflows = refl

reasons-IsConsistent_example : IsConsistent (reasons rate_budget)
reasons-IsConsistent_example = reasons-IsConsistent rate_budget

retry_after-IsWait_example :
    (seconds : ℕ) × (retry_after over_budget 2500000 ≡ some seconds)
    × IsWait 5000000 2500000 seconds
retry_after-IsWait_example = retry_after-IsWait over_budget 2500000 5000000 refl

trader_joe_error-Constructs_example :
    Constructs
      (leaf exogenous_error)
      rate_budget
      []
      metadata
      none
      (trader_joe_error (leaf exogenous_error) rate_budget [] metadata none)
trader_joe_error-Constructs_example =
    trader_joe_error-Constructs (leaf exogenous_error) rate_budget [] metadata none

from_rpc_error-abort_for_example :
    (reply : Reply) × (abort_for runtime (typed over_budget chained) id 0
      ≡ ok (reply, line_of over_budget chained id))
    × (from_rpc_error runtime (received reply) 1 ≡ ok (relayed over_budget id))
from_rpc_error-abort_for_example =
    from_rpc_error-abort_for runtime runtime-laws received received-Delivers over_budget
      over_budget-IsBuilt chained id 0 1 StatusCode.failed_precondition refl

abbrev sent_reply : Reply
sent_reply = record {
  code = StatusCode.failed_precondition;
  details = 100 ∷ [];
  trailing_metadata =
      status_details (
        some (record {
          code = StatusCode.failed_precondition;
          message = 100 ∷ [];
          details =
              error_info (
                some (record {
                  reason = member rate_budget;
                  domain = 0;
                  metadata =
                      (vendor_key, 97 ∷ [])
                      ∷ (colliding_ids_key, 98 ∷ 44 ∷ 99 ∷ [])
                      ∷ (error_id_key, id)
                      ∷ (reset_at_key, 5000000 ∷ [])
                      ∷ [];
                }))
              ∷ retry_info (some (some (record { seconds = pos 5; nanos = pos 0 })))
              ∷ [];
        }))
      ∷ [];
}

over_budget_sent :
    abort_for runtime (typed over_budget chained) id 0
    ≡ ok (sent_reply, line_of over_budget chained id)
unfolding program
over_budget_sent = refl

over_budget_back : from_rpc_error runtime (received sent_reply) 1 ≡ ok (relayed over_budget id)
unfolding program
over_budget_back = refl

abbrev phrase : ℕ → Text
phrase status = []

on_trader_joe_error-from_rpc_error_example :
    Names id (on_trader_joe_error phrase (relayed over_budget id) chained [] 1)
unfolding program
on_trader_joe_error-from_rpc_error_example =
    on_trader_joe_error-from_rpc_error runtime runtime-laws received received-Delivers over_budget
      over_budget-IsBuilt chained id 0 1 StatusCode.failed_precondition sent_reply
      (line_of over_budget chained id) (relayed over_budget id) phrase chained [] refl refl
      over_budget_sent over_budget_back
