-- ===== src/RemoteFiles/Server/Stream.antt =====
-- src/server/proto_handler/input.rs: `handle_remote_file_stream`, one request of a stream.
use arcrelay_protocol.Prelude.{
  ℕ, Bool, true, false, not, Option, none, some, [], ◌==◌, if◌then◌else◌, Bytes, bytes, length,
}
use arcrelay_protocol.RemoteFiles.{
  unavailable, can_read, can_write, can_list_shares, RemoteFileSortKey, RemoteFileSortDirection,
}
use arcrelay_protocol.RemoteFiles.Requests.{
  RemoteFileRequest, list_shares, watch_changes, stat, move_entry, conditional_delete, read_range,
  conditional_upload, list_directory, create_directory, rename, delete, download, thumbnail, upload,
}
use arcrelay_protocol.RemoteFiles.Responses.{success, failure}
use arcrelay_protocol.RemoteFiles.Wire.{CodecResult, ok, err, Prost}
use arcrelay_protocol.RemoteFiles.RequestCodec.{RequestFrame}
use arcrelay_protocol.RemoteFiles.RequestCodec as RequestCodec
use arcrelay_protocol.RemoteFiles.Server.{
  watch_changes_call, stat_call, move_call, conditional_delete_call, read_range_call,
  list_shares_call, list_directory_call, create_directory_call, rename_call, delete_call,
  prepare_download_call, prepare_thumbnail_call, called, finished, read_failed, codec_failed,
  Handled, after, write_then,
}
use arcrelay_protocol.RemoteFiles.Server.Transfers.{
  Host, denied, no_read, no_write, with_entry, visible_shares, page_limit, guarded, send_file,
  send_thumbnail, prepared, handle_upload,
}

unfoldable pub handle_list_directory :
    Host
    → (share_id path : Bytes) → Option Bytes
    → ℕ
    → Option Bytes
    → RemoteFileSortKey
    → RemoteFileSortDirection
    → Handled
unfolding page_limit
handle_list_directory host share_id path cursor limit wanted key direction =
    guarded host (can_read host.access share_id) no_read
      (list_directory_call share_id path cursor (page_limit limit) wanted key direction)
      host.provider.list_directory
      λ page. record success { entries = page.entries; next_cursor = page.next_cursor }

unfoldable pub handle_create_directory : Host → (share_id path name : Bytes) → Handled
handle_create_directory host share_id path name =
    guarded host (can_write host.access share_id) no_write
      (create_directory_call share_id path name) host.provider.create_directory with_entry

unfoldable pub handle_rename : Host → (share_id path new_name : Bytes) → Handled
handle_rename host share_id path new_name =
    guarded host (can_write host.access share_id) no_write (rename_call share_id path new_name)
      host.provider.rename with_entry

unfoldable pub handle_delete : Host → (share_id path : Bytes) → Handled
handle_delete host share_id path =
    guarded host (can_write host.access share_id) no_write (delete_call share_id path)
      host.provider.delete λ _. success

-- The `match` on the request. A conditional upload is an upload that overwrites if a revision is
-- expected, and that the provider commits.
unfoldable pub handle_request : Host → RemoteFileRequest → Handled
unfolding write_then send_file send_thumbnail prepared handle_upload visible_shares
    handle_list_directory handle_create_directory handle_rename handle_delete
handle_request host (conditional_upload share_id path name size expected_revision) =
    handle_upload host share_id path name size (not (length expected_revision == 0)) none
      (some expected_revision)
handle_request host (upload share_id path name size overwrite modified) =
    handle_upload host share_id path name size overwrite modified none
handle_request host (watch_changes share_id epoch after_sequence) =
    guarded host (can_read host.access share_id) no_read
      (watch_changes_call share_id epoch after_sequence) host.provider.watch_changes
      λ (epoch', sequence, directories, reset). record success {
        change_epoch = epoch';
        change_sequence = sequence;
        changed_directories = directories;
        change_reset = reset;
      }
handle_request host (stat share_id path) =
    guarded host (can_read host.access share_id) no_read (stat_call share_id path)
      host.provider.stat
      λ (entry, revision). record success { entry = some entry; revision = revision }
handle_request host (conditional_delete share_id path expected_revision recursive) =
    guarded host (can_write host.access share_id) no_write
      (conditional_delete_call share_id path expected_revision recursive)
      host.provider.conditional_delete λ _. success
handle_request host (move_entry share_id path destination overwrite expected_revision) =
    guarded host (can_write host.access share_id) no_write
      (move_call share_id path destination overwrite expected_revision) host.provider.move_entry
      with_entry
handle_request host (read_range share_id path offset length' revision) =
    guarded host (can_read host.access share_id) no_read
      (read_range_call share_id path offset length' revision) host.provider.read_range
      λ content. record success { range_data = content; revision = revision }
handle_request host list_shares =
    guarded host (can_list_shares host.access)
      (denied (bytes "remote file access is not permitted")) list_shares_call
      host.provider.list_shares
      λ shares. record success { shares = visible_shares host.access shares }
handle_request host (list_directory share_id path cursor limit wanted key direction) =
    handle_list_directory host share_id path cursor limit wanted key direction
handle_request host (create_directory share_id path name) =
    handle_create_directory host share_id path name
handle_request host (rename share_id path new_name) = handle_rename host share_id path new_name
handle_request host (delete share_id path) = handle_delete host share_id path
handle_request host (download share_id path) =
    if can_read host.access share_id
    then after (called (prepare_download_call share_id path))
        (prepared host host.provider.prepare_download (send_file host))
    else write_then host.transport no_read ([], finished)
handle_request host (thumbnail share_id path max_dimension) =
    if can_read host.access share_id
    then after (called (prepare_thumbnail_call share_id path max_dimension))
        (prepared host host.provider.prepare_thumbnail (send_thumbnail host))
    else write_then host.transport no_read ([], finished)

-- `served` is whether the host has a provider.
unfoldable pub serve : Host → (served : Bool) → CodecResult RemoteFileRequest → Handled
unfolding handle_request write_then
serve host served (err e) = ([], codec_failed e)
serve host true (ok request) = handle_request host request
serve host false (ok request) =
    write_then host.transport (failure unavailable (bytes "remote files are unavailable"))
      ([], finished)

-- `read_remote_message`, and the request that it reads; `none` if no frame is read.
unfoldable pub handle_remote_file_stream :
    Host → Prost RequestFrame → (served : Bool) → Option Bytes → Handled
unfolding serve
handle_remote_file_stream host prost served none = ([], read_failed)
handle_remote_file_stream host prost served (some content) =
    serve host served
      (RequestCodec.decode_wire host.transport.codes host.transport.sizes prost content)
