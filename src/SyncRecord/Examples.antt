-- ===== src/SyncRecord/Examples.antt =====
-- A record with rich text.
use arcrelay_protocol.Prelude.{
  bytes_discrete, ◌≡◌, refl, false, none, some, Bytes, bytes_eq, nat_eq, bytes, ◌++◌,
}
use arcrelay_protocol.Prelude.Int.{ℤ, pos, negsuc}
use arcrelay_protocol.BlobStore.{BlobRef}
use arcrelay_protocol.SyncRecord.{
  ClipboardContentKind, html, other_kind, ClipboardSyncChangeKind, change, change_unspecified,
  Payload, rich_text, ClipboardSyncRecord, validate_clipboard_sync_record,
}
use arcrelay_protocol.SyncRecord.Payloads.{
  IsAddressed, to_html, IsSynchronizable, validate_clipboard_sync_record-IsAddressed,
  validate_clipboard_sync_record-IsSynchronizable,
}

abbrev kinds : ℤ → ClipboardContentKind
kinds (pos n) = html
kinds (negsuc n) = other_kind

abbrev changes : ℤ → ClipboardSyncChangeKind
changes (pos n) = change n
changes (negsuc n) = change_unspecified

abbrev half : Bytes
half = bytes "0123456789abcdefABCDEF9876543210"

abbrev page : BlobRef
page = record {
  blob_id = half;
  size = 12;
  media_type = bytes "text/html; charset=utf-8";
  sha256 = half;
}

abbrev marked_up : Payload
marked_up = rich_text (record { plain_text = bytes "hello"; html = some page; rtf = none })

abbrev copied : ClipboardSyncRecord
copied = record {
  sync_id = half ++ half;
  revision = 3;
  favorite_revision = 1;
  labels = 0;
  label_memberships = 0;
  preview = bytes "hello";
  captured_at_ms = pos 1000;
  kind = pos 2;
  change_kind = pos 1;
  deleted = false;
  payload = some marked_up;
}

copied_valid : validate_clipboard_sync_record kinds changes 900 copied ≡ none
unfolding validate_clipboard_sync_record bytes_discrete
copied_valid = refl

validate_clipboard_sync_record-IsAddressed_example : IsAddressed page
validate_clipboard_sync_record-IsAddressed_example =
    validate_clipboard_sync_record-IsAddressed kinds changes 900 copied marked_up page copied_valid
      refl (to_html refl)

validate_clipboard_sync_record-IsSynchronizable_example : IsSynchronizable kinds changes 900 copied
validate_clipboard_sync_record-IsSynchronizable_example =
    validate_clipboard_sync_record-IsSynchronizable kinds changes 900 copied copied_valid
