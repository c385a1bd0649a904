-- ===== src/RemoteFiles/Responses.antt =====
-- src/remote_files.rs: `RemoteFileResponse` and its `validate`.
use arcrelay_protocol.Prelude.{
  ℕ, Bool, true, false, not, ◌||◌, Option, none, some, List, [], ◌∷◌, ltb, ◌==◌, if◌then◌else◌,
  Bytes, length, take, any, is_some_and, bytes,
}
use arcrelay_protocol.Text.{boundary_before}
use arcrelay_protocol.RemoteFiles.{
  ContentSizes, RemoteFileErrorCode, RemoteFileError, RemoteFileShare, RemoteFileEntry,
  max_remote_range_bytes, max_remote_directory_page_size,
}
use arcrelay_protocol.RemoteFiles.Paths.{
  ◌then_check◌, fail_if, validate_share_id, validate_relative_path, validate_file_name,
}
use arcrelay_protocol.RemoteFiles.Requests.{is_bad_text}

pub record RemoteFileResponse : Type 0 where
  pub succeeded : Bool
  pub error : Option RemoteFileError
  pub shares : List RemoteFileShare
  pub entries : List RemoteFileEntry
  pub next_cursor : Option Bytes
  pub entry : Option RemoteFileEntry
  pub thumbnail_size : ℕ
  pub thumbnail_media_type : Option Bytes
  pub revision : Bytes
  pub range_data : Bytes
  pub change_epoch : Bytes
  pub change_sequence : ℕ
  pub changed_directories : List Bytes
  pub change_reset : Bool

abbrev pub success : RemoteFileResponse
success = record {
  succeeded = true;
  error = none;
  shares = [];
  entries = [];
  next_cursor = none;
  entry = none;
  thumbnail_size = 0;
  thumbnail_media_type = none;
  revision = [];
  range_data = [];
  change_epoch = [];
  change_sequence = 0;
  changed_directories = [];
  change_reset = false;
}

abbrev pub max_message_bytes : ℕ
max_message_bytes = 8192

unfoldable pub failure : RemoteFileErrorCode → Bytes → RemoteFileResponse
failure code message =
    let message' =
      if ltb max_message_bytes (length message)
      then take (boundary_before message max_message_bytes) message
      else message in
    record success { succeeded = false; error = some (record { code = code; message = message' }) }

unfoldable pub from_error : RemoteFileError → RemoteFileResponse
unfolding failure
from_error error = failure error.code error.message

abbrev pub is_some {ℓ} : {A : Type ℓ} → Option A → Bool
is_some none = false
is_some (some a) = true

-- `a == b` of two Booleans
abbrev pub agree : Bool → Bool → Bool
agree true b = b
agree false b = not b

unfoldable pub is_bad_response : ContentSizes → RemoteFileResponse → Bool
is_bad_response sizes r =
    agree r.succeeded (is_some r.error)
    || ltb 128 (length r.revision)
    || ltb max_remote_range_bytes (length r.range_data)
    || ltb 64 (length r.change_epoch)
    || ltb 200 (length r.changed_directories)
    || any (λ path. is_some (validate_relative_path path)) r.changed_directories
    || is_some_and r.error (λ error. ltb max_message_bytes (length error.message))
    || ltb 128 (length r.shares)
    || ltb max_remote_directory_page_size (length r.entries)
    || is_some_and r.next_cursor (is_bad_text 1024)
    || ltb sizes.thumbnail r.thumbnail_size
    || agree (r.thumbnail_size == 0) (is_some r.thumbnail_media_type)
    || is_some_and r.thumbnail_media_type (λ media_type. ltb 256 (length media_type))

unfoldable pub validate_share : RemoteFileShare → Option Bytes
validate_share share =
    validate_share_id share.id
    then_check fail_if (length share.name == 0 || ltb 255 (length share.name))
        (bytes "invalid remote file share")

unfoldable pub validate_entry : ContentSizes → RemoteFileEntry → Option Bytes
validate_entry sizes entry =
    validate_file_name entry.name
    then_check validate_relative_path entry.relative_path
    then_check fail_if (ltb sizes.content entry.size)
        (bytes "remote file entry exceeds the content limit")
    then_check fail_if (ltb 128 (length entry.revision)) (bytes "invalid remote file revision")

-- A `for` loop of checks.
unfoldable pub validate_each {ℓ} : {A : Type ℓ} → (A → Option Bytes) → List A → Option Bytes
validate_each check [] = none
validate_each check (x ∷ xs) = check x then_check validate_each check xs

unfoldable pub validate : ContentSizes → RemoteFileResponse → Option Bytes
unfolding is_bad_response validate_share validate_entry validate_each
validate sizes r =
    fail_if (is_bad_response sizes r) (bytes "invalid remote file response")
    then_check validate_each validate_share r.shares
    then_check validate_each (validate_entry sizes) r.entries
    then_check elim r.entry [ none ↦ none | some entry ↦ validate_entry sizes entry ]
