-- ===== src/Errors/Codes.antt =====
-- The canonical gRPC status codes, by their names. UNAVAILABLE is one a row of the table may not have.
pub data StatusCode : Type 0 where
  cancelled unknown invalid_argument deadline_exceeded not_found already_exists : StatusCode
  permission_denied resource_exhausted failed_precondition aborted out_of_range : StatusCode
  unimplemented internal unavailable data_loss unauthenticated : StatusCode
