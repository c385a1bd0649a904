-- ===== src/SyncRecord.antt =====
-- src/server/proto_handler/requests/control.rs: the check of a clipboard record that a device sends
-- to be synchronized. The numbers of the generated enums are parameters.
pub mod Payloads
mod Examples
use arcrelay_protocol.Prelude.{
  ℕ, ◌+◌, Bool, true, false, not, ◌||◌, ◌&&◌, Option, none, some, List, [], ◌∷◌, ltb, leb, ◌==◌,
  if◌then◌else◌, Bytes, bytes_eq, same, length, bytes, is_some_and, min,
}
use arcrelay_protocol.Prelude.Int.{ℤ, pos, negsuc}
use arcrelay_protocol.BlobStore.{BlobRef}

-- `other_kind` is `Unspecified`, a number of no kind, or a kind that is not synchronized.
pub data ClipboardContentKind : Type 0 where
  other_kind text html image files : ClipboardContentKind

pub data ClipboardSyncChangeKind : Type 0 where
  change_unspecified : ClipboardSyncChangeKind
  change : ℕ → ClipboardSyncChangeKind

pub record ClipboardRichText : Type 0 where
  pub plain_text : Bytes
  pub html : Option BlobRef
  pub rtf : Option BlobRef

pub data Payload : Type 0 where
  text_payload : Bytes → Payload
  rich_text : ClipboardRichText → Payload
  image_payload : BlobRef → Payload

-- Labels and memberships are only counted.
pub record ClipboardSyncRecord : Type 0 where
  pub sync_id : Bytes
  pub revision : ℕ
  pub favorite_revision : ℕ
  pub labels : ℕ
  pub label_memberships : ℕ
  pub preview : Bytes
  pub captured_at_ms : ℤ
  pub kind : ℤ
  pub change_kind : ℤ
  pub deleted : Bool
  pub payload : Option Payload

abbrev pub i64_max : ℕ
i64_max = 9223372036854775807

pub is_ascii_hexdigit : ℕ → Bool
is_ascii_hexdigit b = (leb 48 b && leb b 57) || (leb 65 b && leb b 70) || (leb 97 b && leb b 102)

-- `bytes().all(|byte| byte.is_ascii_hexdigit())`
pub all_hex : Bytes → Bool
unfolding is_ascii_hexdigit
all_hex [] = true
all_hex (b ∷ rest) = is_ascii_hexdigit b && all_hex rest

pub valid_clipboard_blob_ref : Option BlobRef → Bytes → ℕ → Bool
valid_clipboard_blob_ref reference media_type maximum = is_some_and reference (λ r.
    length r.blob_id == 32
    && length r.sha256 == 32
    && same r.blob_id r.sha256
    && ltb 0 r.size
    && leb r.size maximum
    && same r.media_type media_type)

-- `now_ms().saturating_add(5 * 60 * 1000)`, for a time from 1970 on.
pub is_capture_time : ℕ → ℤ → Bool
is_capture_time now (pos t) = ltb 0 t && leb t (min (now + 300000) i64_max)
is_capture_time now (negsuc t) = false

pub valid_text : Option Payload → Bool
valid_text none = false
valid_text (some (text_payload content)) = ltb 0 (length content) && leb (length content) 786432
valid_text (some (rich_text _)) = false
valid_text (some (image_payload _)) = false

abbrev pub max_rich_text_bytes : ℕ
max_rich_text_bytes = 16777216

pub check_rich_text : Option Payload → Option Bytes
unfolding valid_clipboard_blob_ref
check_rich_text (some (rich_text r)) =
    if ltb 1048576 (length r.plain_text)
      || not
          (valid_clipboard_blob_ref r.html (bytes "text/html; charset=utf-8") max_rich_text_bytes)
      || is_some_and r.rtf
          (λ rtf. not (valid_clipboard_blob_ref (some rtf) (bytes "text/rtf") max_rich_text_bytes))
    then some (bytes "invalid synchronized rich-text payload")
    else none
check_rich_text none = some (bytes "synchronized rich text is required")
check_rich_text (some (text_payload _)) = some (bytes "synchronized rich text is required")
check_rich_text (some (image_payload _)) = some (bytes "synchronized rich text is required")

pub check_image : Option Payload → Option Bytes
unfolding valid_clipboard_blob_ref
check_image (some (image_payload r)) =
    if valid_clipboard_blob_ref (some r) (bytes "image/png") 20971520
    then none
    else some (bytes "invalid synchronized image reference")
check_image none = some (bytes "synchronized image reference is required")
check_image (some (text_payload _)) = some (bytes "synchronized image reference is required")
check_image (some (rich_text _)) = some (bytes "synchronized image reference is required")

-- The second `match`, for a record that is not deleted.
pub check_payload : ClipboardContentKind → Option Payload → Option Bytes
unfolding valid_text check_rich_text check_image
check_payload text payload =
    if valid_text payload then none else some (bytes "invalid synchronized text payload")
check_payload html payload = check_rich_text payload
check_payload image payload = check_image payload
check_payload files none = none
check_payload files (some _) = some (bytes "synchronized file metadata cannot include payloads")
check_payload other_kind payload = some (bytes "invalid clipboard sync kind")

pub is_synchronized_kind : ClipboardContentKind → Bool
is_synchronized_kind other_kind = false
is_synchronized_kind text = true
is_synchronized_kind html = true
is_synchronized_kind image = true
is_synchronized_kind files = true

pub is_unspecified_change : ClipboardSyncChangeKind → Bool
is_unspecified_change change_unspecified = true
is_unspecified_change (change _) = false

module _ (kind_of : ℤ → ClipboardContentKind) (change_of : ℤ → ClipboardSyncChangeKind) where
  -- `none` is `Ok(())`.
  pub validate_clipboard_sync_record : ℕ → ClipboardSyncRecord → Option Bytes
  unfolding all_hex is_capture_time check_payload is_synchronized_kind is_unspecified_change
  validate_clipboard_sync_record now r =
      if not (length r.sync_id == 64) || not (all_hex r.sync_id)
      then some (bytes "invalid clipboard sync identifier")
      else if r.favorite_revision == 0 || ltb i64_max r.favorite_revision
      then some (bytes "invalid clipboard sync favorite revision")
      else if not (r.labels == 0) || not (r.label_memberships == 0)
      then some (bytes "clipboard sync labels are not supported")
      else if ltb 2048 (length r.preview)
      then some (bytes "clipboard sync preview exceeds limit")
      else if r.revision == 0 || ltb i64_max r.revision
      then some (bytes "invalid clipboard sync revision")
      else if not (is_capture_time now r.captured_at_ms)
      then some (bytes "invalid clipboard sync capture timestamp")
      else if is_unspecified_change (change_of r.change_kind)
          || not (is_synchronized_kind (kind_of r.kind))
      then some (bytes "invalid clipboard sync kind")
      else if r.deleted
      then elim r.payload [
        | some _ ↦ some (bytes "deleted clipboard sync records cannot include payloads")
        | none ↦ none
      ]
      else check_payload (kind_of r.kind) r.payload
