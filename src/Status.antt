-- ===== src/Status.antt =====
-- src/server/proto_handler/requests/control.rs: the status of a response.
pub mod Codes
mod Examples
use arcrelay_protocol.Prelude.{
  ◌⊎◌, ℕ, suc, zero, ◌+◌, ◌-◌, ◌≤◌, ◌<◌, ◌≡◌, ◌≢◌, ◌∙◌, Bool, true, false, ◌||◌, ◌&&◌, Option, none,
  some, List, [], ◌∷◌, ◌++◌, arith, ◌==◌, if◌then◌else◌, Bytes, bytes_eq, nat_eq, bytes, ◌%◌, ◌*◌,
}
use arcrelay_protocol.Text.{truncate_utf8}

abbrev pub max_status_message_bytes : ℕ
max_status_message_bytes = 8192

-- The codes of arcrelay_core that this repository names.
pub data ErrorCode : Type 0 where
  ok unspecified busy cancelled conflict deadline_exceeded failed_precondition internal : ErrorCode
  invalid_argument not_found permission_denied resource_exhausted unauthenticated unavailable
        unsupported :
      ErrorCode

pub data RecoveryAction : Type 0 where
  none_needed retry retry_with_backoff refresh change_request : RecoveryAction

pub record Status : Type 0 where
  pub code : ErrorCode
  pub message : Bytes
  pub retryable : Bool
  pub retry_after_ms : ℕ
  pub recovery_action : RecoveryAction
  pub error_id : Bytes

unfoldable pub ok_status : Status
ok_status = record {
  code = ok;
  message = [];
  retryable = false;
  retry_after_ms = 0;
  recovery_action = none_needed;
  error_id = [];
}

pub recovery_action_of : ErrorCode → RecoveryAction
recovery_action_of busy = retry_with_backoff
recovery_action_of resource_exhausted = retry_with_backoff
recovery_action_of deadline_exceeded = retry_with_backoff
recovery_action_of unavailable = retry_with_backoff
recovery_action_of conflict = refresh
recovery_action_of invalid_argument = change_request
recovery_action_of failed_precondition = change_request
recovery_action_of _ = none_needed

pub is_internal : ErrorCode → Bool
is_internal internal = true
is_internal _ = false

pub is_retry : RecoveryAction → Bool
is_retry retry = true
is_retry retry_with_backoff = true
is_retry _ = false

-- `draw` is the text of the random error id.
unfoldable pub status : Bytes → ErrorCode → Bytes → Status
unfolding recovery_action_of is_internal is_retry
status draw code message =
    let recovery_action = recovery_action_of code in
    record {
      code = code;
      message =
          if is_internal code
          then bytes "operation failed internally"
          else truncate_utf8 message max_status_message_bytes;
      retryable = is_retry recovery_action;
      retry_after_ms = 0;
      recovery_action = recovery_action;
      error_id = if is_internal code then draw else [];
    }
