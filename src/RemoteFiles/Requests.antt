-- ===== src/RemoteFiles/Requests.antt =====
-- src/remote_files.rs: `RemoteFileRequest` and its `validate`.
use arcrelay_protocol.Prelude.{
  ℕ, ◌+◌, Bool, not, ◌&&◌, ◌||◌, Option, none, ltb, leb, ◌==◌, Bytes, length, has_control,
  is_some_and, bytes, u64_max, ℤ,
}
use arcrelay_protocol.RemoteFiles.{
  ContentSizes, RemoteFileSortKey, RemoteFileSortDirection, max_remote_range_bytes,
  max_remote_directory_page_size,
}
use arcrelay_protocol.RemoteFiles.Paths.{
  ◌then_check◌, fail_if, validate_share_id, validate_relative_path, validate_file_name,
}

pub data RemoteFileRequest : Type 0 where
  list_shares : RemoteFileRequest
  watch_changes : (share_id epoch : Bytes) (after_sequence : ℕ) → RemoteFileRequest
  stat : (share_id relative_path : Bytes) → RemoteFileRequest
  move_entry :
      (share_id relative_path destination_path : Bytes) (overwrite : Bool)
      (expected_revision : Bytes)
      → RemoteFileRequest
  conditional_delete :
      (share_id relative_path expected_revision : Bytes) (recursive : Bool) → RemoteFileRequest
  read_range :
      (share_id relative_path : Bytes) (offset length : ℕ) (revision : Bytes) → RemoteFileRequest
  conditional_upload :
      (share_id relative_path name : Bytes) (size : ℕ) (expected_revision : Bytes)
      → RemoteFileRequest
  list_directory :
      (share_id relative_path : Bytes) (cursor : Option Bytes) (limit : ℕ) (search : Option Bytes)
      (sort_key : RemoteFileSortKey) (sort_direction : RemoteFileSortDirection)
      → RemoteFileRequest
  create_directory : (share_id relative_path name : Bytes) → RemoteFileRequest
  rename : (share_id relative_path new_name : Bytes) → RemoteFileRequest
  delete : (share_id relative_path : Bytes) → RemoteFileRequest
  download : (share_id relative_path : Bytes) → RemoteFileRequest
  thumbnail : (share_id relative_path : Bytes) (max_dimension : ℕ) → RemoteFileRequest
  upload :
      (share_id relative_path name : Bytes) (size : ℕ) (overwrite : Bool)
      (expected_modified_at_ms : Option ℤ)
      → RemoteFileRequest

-- `value.len() > maximum || value.chars().any(char::is_control)`
abbrev pub is_bad_text : ℕ → Bytes → Bool
is_bad_text maximum value = ltb maximum (length value) || has_control value

-- The path that most operations begin with.
abbrev pub validate_location : Bytes → Bytes → Option Bytes
validate_location share_id relative_path =
    validate_share_id share_id then_check validate_relative_path relative_path

unfoldable pub validate : ContentSizes → RemoteFileRequest → Option Bytes
validate sizes list_shares = none
validate sizes (watch_changes share_id epoch after_sequence) =
    validate_share_id share_id
    then_check fail_if (is_bad_text 64 epoch) (bytes "invalid change epoch")
validate sizes (stat share_id relative_path) = validate_location share_id relative_path
validate sizes (conditional_delete share_id relative_path expected_revision recursive) =
    validate_location share_id relative_path
    then_check fail_if
        (length relative_path == 0
          || length expected_revision == 0
          || ltb 128 (length expected_revision))
        (bytes "invalid conditional delete")
validate sizes (move_entry share_id relative_path destination_path overwrite expected_revision) =
    validate_share_id share_id
    then_check validate_relative_path relative_path
    then_check validate_relative_path destination_path
    then_check fail_if (length expected_revision == 0 || ltb 128 (length expected_revision))
        (bytes "invalid move revision")
    then_check fail_if (length relative_path == 0 || length destination_path == 0)
        (bytes "cannot move a shared root")
validate sizes (read_range share_id relative_path offset length' revision) =
    validate_location share_id relative_path
    then_check fail_if
        (length' == 0
          || ltb max_remote_range_bytes length'
          || ltb u64_max (offset + length')
          || length revision == 0
          || ltb 128 (length revision))
        (bytes "invalid remote file range")
validate sizes (conditional_upload share_id relative_path name size expected_revision) =
    validate_share_id share_id
    then_check validate_relative_path relative_path
    then_check validate_file_name name
    then_check fail_if (ltb sizes.content size || ltb 128 (length expected_revision))
        (bytes "invalid conditional upload")
validate sizes (list_directory share_id relative_path cursor limit wanted key direction) =
    validate_location share_id relative_path
    then_check fail_if
        (ltb max_remote_directory_page_size limit
          || is_some_and cursor (is_bad_text 1024)
          || is_some_and wanted (is_bad_text 512))
        (bytes "invalid remote directory query")
validate sizes (create_directory share_id relative_path name) =
    validate_share_id share_id
    then_check validate_relative_path relative_path
    then_check validate_file_name name
validate sizes (upload share_id relative_path name size overwrite expected_modified_at_ms) =
    validate_share_id share_id
    then_check validate_relative_path relative_path
    then_check validate_file_name name
validate sizes (rename share_id relative_path new_name) =
    validate_share_id share_id
    then_check validate_relative_path relative_path
    then_check validate_file_name new_name
validate sizes (delete share_id relative_path) = validate_location share_id relative_path
validate sizes (download share_id relative_path) = validate_location share_id relative_path
validate sizes (thumbnail share_id relative_path max_dimension) =
    validate_location share_id relative_path
    then_check fail_if (not (leb 16 max_dimension && leb max_dimension 4096))
        (bytes "invalid thumbnail dimensions")
