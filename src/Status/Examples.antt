-- ===== src/Status/Examples.antt =====
-- The status of an internal error.
use arcrelay_protocol.Prelude.{◌≤◌, ◌≡◌, bytes_eq, nat_eq, length, bytes}
use arcrelay_protocol.Status.{internal, status, max_status_message_bytes}
use arcrelay_protocol.Status.Codes.{status-bounded}

status-bounded_example :
    (length (status (bytes "id") internal (bytes "disk failed")).message ≤ max_status_message_bytes)
    × (status (bytes "id") internal (bytes "disk failed")
        ≡ status (bytes "id") internal (bytes "no memory"))
status-bounded_example =
    status-bounded (bytes "id") internal (bytes "disk failed") (bytes "no memory")
