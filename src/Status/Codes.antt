-- ===== src/Status/Codes.antt =====
-- What a client can tell from a status.
use arcrelay_protocol.Prelude.{◌≤◌, ◌≡◌, refl, arith, Bytes, bytes_eq, nat_eq, length}
use arcrelay_protocol.Text.Bounds.{truncate_utf8-Cut}
use arcrelay_protocol.Status.{ErrorCode, internal, status, max_status_message_bytes}

-- The message of a failed request is at most 8192 bytes, and the message of an internal error does
-- not depend on what failed inside.
pub status-bounded :
    (draw : Bytes) (code : ErrorCode) (message other : Bytes)
    → (length (status draw code message).message ≤ max_status_message_bytes)
      × (status draw internal message ≡ status draw internal other)
unfolding status
status-bounded draw code message other =
    (ground (arith, (truncate_utf8-Cut message max_status_message_bytes).bounded), refl)
