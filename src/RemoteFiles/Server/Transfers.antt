-- ===== src/RemoteFiles/Server/Transfers.antt =====
-- src/server/proto_handler/input.rs: the downloads and uploads of `handle_remote_file_stream`, and what
-- its answers share.
use arcrelay_protocol.Prelude.{
  ℕ, Bool, not, ◌&&◌, ◌||◌, Option, none, some, List, [], ◌∷◌, ◌++◌, ltb, ◌==◌, if◌then◌else◌,
  Bytes, bytes, length, ℤ, min, max,
}
use arcrelay_protocol.RemoteFiles.{
  permission_denied, not_found, resource_exhausted, failed_precondition, unavailable,
  RemoteFileAccess, can_read, can_write, RemoteFileShare, RemoteFileEntry, file, folder,
  default_remote_directory_page_size, max_remote_directory_page_size,
}
use arcrelay_protocol.RemoteFiles.Responses.{RemoteFileResponse, success, failure, from_error}
use arcrelay_protocol.RemoteFiles.Server.{
  RemoteFileResult, accepted, rejected, RemoteFileThumbnail, RemoteFileDownload, RemoteFileUpload,
  Call, prepare_upload_call, RemoteFileProvider, Effect, called, sent, on_file, opened, removed,
  finished, changed_during_download, copy_failed, no_parent, Handled, after, Transport, write_then,
}
use arcrelay_protocol.RemoteFiles.Server.Upload.{UploadIo, IoError, transfer}

-- What the host is asked, and what answers it.
pub record Host : Type 0 where
  pub access : RemoteFileAccess
  pub provider : RemoteFileProvider
  pub transport : Transport
  pub upload_io : UploadIo
  pub open_file : Option IoError
  pub copied : Option ℕ

abbrev pub denied : Bytes → RemoteFileResponse
denied message = failure permission_denied message

abbrev pub no_read : RemoteFileResponse
no_read = denied (bytes "read access to this share is not permitted")

abbrev pub no_write : RemoteFileResponse
no_write = denied (bytes "write access to this share is not permitted")

abbrev pub answer :
    {A : Type 0} → RemoteFileResult A → (A → RemoteFileResponse) → RemoteFileResponse
answer (accepted a) to_response = to_response a
answer (rejected e) to_response = from_error e

abbrev pub with_entry : RemoteFileEntry → RemoteFileResponse
with_entry entry = record success { entry = some entry }

-- The shares that a device sees, writable only if it may write them.
unfoldable pub visible_shares : RemoteFileAccess → List RemoteFileShare → List RemoteFileShare
visible_shares access [] = []
visible_shares access (share ∷ shares) =
    let rest = visible_shares access shares in
    if can_read access share.id || can_write access share.id
    then record share { writable = share.writable && can_write access share.id } ∷ rest
    else rest

unfoldable pub page_limit : ℕ → ℕ
page_limit limit =
    if limit == 0
    then default_remote_directory_page_size
    else min (max limit 1) max_remote_directory_page_size

-- The check of the access, the call, and the response to its answer.
unfoldable pub guarded :
    {A : Type 0}
    → Host
    → Bool
    → RemoteFileResponse
    → Call
    → RemoteFileResult A
    → (A → RemoteFileResponse)
    → Handled
unfolding write_then
guarded host allowed refusal call result to_response =
    if allowed
    then after (called call) (write_then host.transport (answer result to_response) ([], finished))
    else write_then host.transport refusal ([], finished)

unfoldable pub send_file : Host → RemoteFileDownload → Handled
unfolding write_then
send_file host d = elim d.entry.kind [
  | folder ↦
      write_then host.transport (failure failed_precondition (bytes "only files can be downloaded"))
        ([], finished)
  | file ↦ elim host.open_file [
    | some error ↦
        write_then host.transport
          (failure unavailable (bytes "failed to open remote file: " ++ error.text)) ([], finished)
    | none ↦ after (on_file (opened d.path)) (
        write_then host.transport (with_entry d.entry) (elim host.copied [
          | none ↦ ([], copy_failed)
          | some count ↦
              (sent count ∷ [], if count == d.entry.size then finished else changed_during_download)
        ]))
  ]
]

unfoldable pub send_thumbnail : Host → Option RemoteFileThumbnail → Handled
unfolding write_then
send_thumbnail host none =
    write_then host.transport (failure not_found (bytes "no thumbnail is available for this file"))
      ([], finished)
send_thumbnail host (some t) =
    write_then host.transport
      (record success {
        thumbnail_size = length t.content;
        thumbnail_media_type = some t.media_type;
      })
      (sent (length t.content) ∷ [], finished)

-- The response to a transfer, after the temporary file of one that failed is removed.
unfoldable pub conclude :
    Host
    → RemoteFileUpload
    → Bytes
    → List Effect × RemoteFileResult (Option (RemoteFileEntry × Bytes))
    → Handled
unfolding write_then
conclude host u temporary (effects, accepted (some (entry, revision))) =
    let next =
      write_then host.transport (record success { entry = some entry; revision = revision })
        ([], finished) in
    (effects ++ next.0, next.1)
conclude host u temporary (effects, accepted none) =
    let next = write_then host.transport (with_entry u.entry) ([], finished) in
    (effects ++ next.0, next.1)
conclude host u temporary (effects, rejected error) =
    let next = write_then host.transport (from_error error) ([], finished) in
    (effects ++ on_file (removed temporary) ∷ next.0, next.1)

-- From the prepared upload on.
unfoldable pub receive_file :
    Host → (share_id relative_path name : Bytes) → ℕ → Option Bytes → RemoteFileUpload → Handled
unfolding write_then transfer conclude
receive_file host share_id relative_path name size expected u =
    write_then host.transport (with_entry u.entry) (elim (host.upload_io.parent u.destination) [
      | none ↦ ([], no_parent)
      | some parent ↦
          let temporary = host.upload_io.temporary_in parent in
          conclude host u temporary (
            transfer host.upload_io host.provider.commit_system_upload share_id relative_path name
              expected u size temporary)
    ])

-- What follows a call of the provider that prepares a transfer.
unfoldable pub prepared : {A : Type 0} → Host → RemoteFileResult A → (A → Handled) → Handled
unfolding write_then
prepared host (rejected error) next = write_then host.transport (from_error error) ([], finished)
prepared host (accepted a) next = next a

unfoldable pub handle_upload :
    Host → (share_id relative_path name : Bytes) → ℕ → Bool → Option ℤ → Option Bytes → Handled
unfolding write_then receive_file prepared
handle_upload host share_id relative_path name size overwrite modified expected =
    if not (can_write host.access share_id)
    then write_then host.transport no_write ([], finished)
    else if ltb host.transport.sizes.content size
    then write_then host.transport
        (failure resource_exhausted (bytes "remote file size exceeds the limit")) ([], finished)
    else after (called (prepare_upload_call share_id relative_path name size overwrite modified)) (
        prepared host host.provider.prepare_upload
          (receive_file host share_id relative_path name size expected))
