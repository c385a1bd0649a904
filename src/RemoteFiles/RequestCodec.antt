-- ===== src/RemoteFiles/RequestCodec.antt =====
-- src/remote_files.rs: `RemoteFileWireMessage` of `RemoteFileRequest`.
use arcrelay_protocol.Prelude.{Option, none, some, Bytes, bytes}
use arcrelay_protocol.RemoteFiles.{ContentSizes}
use arcrelay_protocol.RemoteFiles.Requests.{
  RemoteFileRequest, list_shares, watch_changes, stat, move_entry, conditional_delete, read_range,
  conditional_upload, list_directory, create_directory, rename, delete, download, thumbnail, upload,
  validate,
}
use arcrelay_protocol.RemoteFiles.Wire.{
  validation, undecodable, CodecResult, ok, err, ◌>>=◌, once_valid, EnumCodes, Prost, RequestBody,
  list_shares_body, watch_changes_body, stat_body, move_body, conditional_delete_body,
  read_range_body, conditional_upload_body, list_directory_body, create_directory_body, rename_body,
  delete_body, download_body, thumbnail_body, upload_body, encode_sort_key, decode_sort_key,
  encode_sort_direction, decode_sort_direction,
}

-- `proto::RemoteFileRequestFrame`
pub record RequestFrame : Type 0 where
  pub body : Option RequestBody

module _ (codes : EnumCodes) where
  -- The `match` of `encode_wire`.
  unfoldable pub encode_body : RemoteFileRequest → RequestBody
  unfolding encode_sort_key encode_sort_direction
  encode_body list_shares = list_shares_body
  encode_body (watch_changes share_id epoch after_sequence) =
      watch_changes_body share_id epoch after_sequence
  encode_body (stat share_id relative_path) = stat_body share_id relative_path
  encode_body (move_entry share_id relative_path destination_path overwrite expected_revision) =
      move_body share_id relative_path destination_path overwrite expected_revision
  encode_body (conditional_delete share_id relative_path expected_revision recursive) =
      conditional_delete_body share_id relative_path expected_revision recursive
  encode_body (read_range share_id relative_path offset length revision) =
      read_range_body share_id relative_path offset length revision
  encode_body (conditional_upload share_id relative_path name size expected_revision) =
      conditional_upload_body share_id relative_path name size expected_revision
  encode_body (list_directory share_id relative_path cursor limit wanted key direction) =
      list_directory_body share_id relative_path cursor limit wanted (encode_sort_key codes key)
        (encode_sort_direction codes direction)
  encode_body (create_directory share_id relative_path name) =
      create_directory_body share_id relative_path name
  encode_body (rename share_id relative_path new_name) = rename_body share_id relative_path new_name
  encode_body (delete share_id relative_path) = delete_body share_id relative_path
  encode_body (download share_id relative_path) = download_body share_id relative_path
  encode_body (thumbnail share_id relative_path max_dimension) =
      thumbnail_body share_id relative_path max_dimension
  encode_body (upload share_id relative_path name size overwrite expected_modified_at_ms) =
      upload_body share_id relative_path name size overwrite expected_modified_at_ms

  -- The `match` of `decode_wire`.
  unfoldable pub decode_body : RequestBody → CodecResult RemoteFileRequest
  unfolding decode_sort_key decode_sort_direction
  decode_body list_shares_body = ok list_shares
  decode_body (watch_changes_body share_id epoch after_sequence) =
      ok (watch_changes share_id epoch after_sequence)
  decode_body (stat_body share_id relative_path) = ok (stat share_id relative_path)
  decode_body (move_body share_id relative_path destination_path overwrite expected_revision) =
      ok (move_entry share_id relative_path destination_path overwrite expected_revision)
  decode_body (conditional_delete_body share_id relative_path expected_revision recursive) =
      ok (conditional_delete share_id relative_path expected_revision recursive)
  decode_body (read_range_body share_id relative_path offset length revision) =
      ok (read_range share_id relative_path offset length revision)
  decode_body (conditional_upload_body share_id relative_path name size expected_revision) =
      ok (conditional_upload share_id relative_path name size expected_revision)
  decode_body (list_directory_body share_id relative_path cursor limit wanted key direction) = do
    key' ← decode_sort_key codes key
    direction' ← decode_sort_direction codes direction
    ok (list_directory share_id relative_path cursor limit wanted key' direction')
  decode_body (create_directory_body share_id relative_path name) =
      ok (create_directory share_id relative_path name)
  decode_body (rename_body share_id relative_path new_name) =
      ok (rename share_id relative_path new_name)
  decode_body (delete_body share_id relative_path) = ok (delete share_id relative_path)
  decode_body (download_body share_id relative_path) = ok (download share_id relative_path)
  decode_body (thumbnail_body share_id relative_path max_dimension) =
      ok (thumbnail share_id relative_path max_dimension)
  decode_body (upload_body share_id relative_path name size overwrite expected_modified_at_ms) =
      ok (upload share_id relative_path name size overwrite expected_modified_at_ms)

module _ (codes : EnumCodes) (sizes : ContentSizes) (prost : Prost RequestFrame) where
  unfoldable pub encode_wire : RemoteFileRequest → CodecResult Bytes
  unfolding encode_body validate
  encode_wire request =
      once_valid (validate sizes request)
        (prost.encode_to_vec (record { body = some (encode_body codes request) }))

  unfoldable pub checked : CodecResult RemoteFileRequest → CodecResult RemoteFileRequest
  unfolding validate
  checked decoded = do request ← decoded; once_valid (validate sizes request) request

  unfoldable pub decode_frame : RequestFrame → CodecResult RemoteFileRequest
  unfolding decode_body checked
  decode_frame frame = elim frame.body [
    | none ↦ err (validation (bytes "remote file request body is missing"))
    | some body ↦ checked (decode_body codes body)
  ]

  unfoldable pub decode_wire : Bytes → CodecResult RemoteFileRequest
  unfolding decode_frame
  decode_wire content = elim (prost.decode content) [
    | none ↦ err undecodable
    | some frame ↦ decode_frame frame
  ]
