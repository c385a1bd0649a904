-- ===== src/RemoteFiles/Server.antt =====
-- src/server/proto_handler/input.rs: `handle_remote_file_stream`. The provider of the host, the
-- files and the transport answer as they will; what is done to them is a list of effects. The
-- upload itself is in Upload.
pub mod Upload
pub mod Transfers
pub mod Stream
pub mod Rights
pub mod Receiving
pub mod Permitted
pub mod Committed
use arcrelay_protocol.Prelude.{
  ℕ, Bool, true, false, Option, none, some, List, [], ◌∷◌, ◌++◌, Bytes, ℤ, length,
}
use arcrelay_protocol.RemoteFiles.{
  ContentSizes, RemoteFileError, RemoteFileShare, RemoteFileEntry, RemoteFileSortKey,
  RemoteFileSortDirection,
}
use arcrelay_protocol.RemoteFiles.Responses.{RemoteFileResponse}
use arcrelay_protocol.RemoteFiles.Wire.{CodecError, ok, err, EnumCodes, Prost, ResponseFrame}
use arcrelay_protocol.RemoteFiles.ResponseCodec as ResponseCodec

-- `RemoteFileResult`
pub data RemoteFileResult {ℓ} (A : Type ℓ) : Type ℓ where
  accepted : A → RemoteFileResult A
  rejected : RemoteFileError → RemoteFileResult A

pub record RemoteFileDirectoryPage : Type 0 where
  pub entries : List RemoteFileEntry
  pub next_cursor : Option Bytes

pub record RemoteFileThumbnail : Type 0 where
  pub content : Bytes
  pub media_type : Bytes

pub record RemoteFileDownload : Type 0 where
  pub path : Bytes
  pub entry : RemoteFileEntry

pub record RemoteFileUpload : Type 0 where
  pub destination : Bytes
  pub entry : RemoteFileEntry
  pub overwrite : Bool
  pub expected_modified_at_ms : Option ℤ

-- A call of `RemoteFileProvider`.
pub data Call : Type 0 where
  watch_changes_call : (share_id epoch : Bytes) (after_sequence : ℕ) → Call
  stat_call : (share_id relative_path : Bytes) → Call
  move_call :
      (share_id relative_path destination_path : Bytes) (overwrite : Bool)
      (expected_revision : Bytes)
      → Call
  conditional_delete_call :
      (share_id relative_path expected_revision : Bytes) (recursive : Bool) → Call
  read_range_call : (share_id relative_path : Bytes) (offset length : ℕ) (revision : Bytes) → Call
  list_shares_call : Call
  list_directory_call :
      (share_id relative_path : Bytes) (cursor : Option Bytes) (limit : ℕ) (search : Option Bytes)
      (sort_key : RemoteFileSortKey) (sort_direction : RemoteFileSortDirection)
      → Call
  create_directory_call : (share_id relative_path name : Bytes) → Call
  rename_call : (share_id relative_path new_name : Bytes) → Call
  delete_call : (share_id relative_path : Bytes) → Call
  prepare_download_call : (share_id relative_path : Bytes) → Call
  prepare_thumbnail_call : (share_id relative_path : Bytes) (max_dimension : ℕ) → Call
  prepare_upload_call :
      (share_id relative_path name : Bytes) (size : ℕ) (overwrite : Bool)
      (expected_modified_at_ms : Option ℤ)
      → Call
  commit_system_upload_call :
      (share_id relative_path name temporary expected_revision : Bytes) → Call

-- What the provider answers. A call is answered once in a stream.
pub record RemoteFileProvider : Type 0 where
  pub watch_changes : RemoteFileResult (Bytes × ℕ × List Bytes × Bool)
  pub stat : RemoteFileResult (RemoteFileEntry × Bytes)
  pub move_entry : RemoteFileResult RemoteFileEntry
  pub conditional_delete : RemoteFileResult (Unit {0})
  pub read_range : RemoteFileResult Bytes
  pub list_shares : RemoteFileResult (List RemoteFileShare)
  pub list_directory : RemoteFileResult RemoteFileDirectoryPage
  pub create_directory : RemoteFileResult RemoteFileEntry
  pub rename : RemoteFileResult RemoteFileEntry
  pub delete : RemoteFileResult (Unit {0})
  pub prepare_download : RemoteFileResult RemoteFileDownload
  pub prepare_thumbnail : RemoteFileResult (Option RemoteFileThumbnail)
  pub prepare_upload : RemoteFileResult RemoteFileUpload
  pub commit_system_upload : RemoteFileResult (RemoteFileEntry × Bytes)

-- What is done to the file system.
pub data FileEffect : Type 0 where
  opened : Bytes → FileEffect
  created : Bytes → FileEffect
  written : (temporary : Bytes) (received : ℕ) → FileEffect
  synced : Bytes → FileEffect
  renamed : (temporary destination : Bytes) → FileEffect
  linked : (temporary destination : Bytes) → FileEffect
  removed : Bytes → FileEffect

pub data Effect : Type 0 where
  called : Call → Effect
  wrote : RemoteFileResponse → Effect
  sent : (count : ℕ) → Effect
  on_file : FileEffect → Effect

pub data Ending : Type 0 where
  finished read_failed write_failed changed_during_download copy_failed no_parent : Ending
  codec_failed : CodecError → Ending

abbrev pub Handled : Type 0
Handled = List Effect × Ending

-- An effect, and what comes after it.
abbrev pub after : Effect → Handled → Handled
after effect (effects, ending) = (effect ∷ effects, ending)

-- `arcrelay_transport`: whether a frame of these bytes is written.
pub record Transport : Type 0 where
  pub codes : EnumCodes
  pub sizes : ContentSizes
  pub prost : Prost ResponseFrame
  pub write_frame : Bytes → Bool

-- `write_remote_message(..).await?`, and what comes after it.
unfoldable pub write_then : Transport → RemoteFileResponse → Handled → Handled
write_then t response next = elim (ResponseCodec.encode_wire t.codes t.sizes t.prost response) [
  | err e ↦ ([], codec_failed e)
  | ok content ↦ elim (t.write_frame content) [
    | false ↦ ([], write_failed)
    | true ↦ after (wrote response) next
  ]
]
