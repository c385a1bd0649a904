-- ===== src/RemoteFiles/ResponseCodec.antt =====
-- src/remote_files.rs: `RemoteFileWireMessage` of `RemoteFileResponse`.
use arcrelay_protocol.Prelude.{Option, none, some, map, Bytes, bytes, ℤ}
use arcrelay_protocol.RemoteFiles.{ContentSizes, RemoteFileError, RemoteFileEntry}
use arcrelay_protocol.RemoteFiles.Responses.{RemoteFileResponse, validate}
use arcrelay_protocol.RemoteFiles.Wire.{
  validation, undecodable, CodecResult, ok, err, ◌>>=◌, once_valid, EnumCodes, Prost, EntryInfo,
  ResponseFrame, encode_error_code, decode_error_code, encode_share, decode_share, encode_entry,
  decode_entry, decode_entries,
}

abbrev pub map_option {ℓ κ} : {A : Type ℓ} {B : Type κ} → (A → B) → Option A → Option B
map_option f none = none
map_option f (some a) = some (f a)

module _ (codes : EnumCodes) where
  unfoldable pub encode_frame : RemoteFileResponse → ResponseFrame
  unfolding encode_error_code encode_share encode_entry
  encode_frame r = record {
    succeeded = r.succeeded;
    error = map_option (λ (error : RemoteFileError). error.message) r.error;
    shares = map encode_share r.shares;
    entries = map (encode_entry codes) r.entries;
    next_cursor = r.next_cursor;
    entry = map_option (encode_entry codes) r.entry;
    thumbnail_size = r.thumbnail_size;
    thumbnail_media_type = r.thumbnail_media_type;
    revision = r.revision;
    range_data = r.range_data;
    error_code =
        map_option (λ (error : RemoteFileError). encode_error_code codes error.code) r.error;
    change_epoch = r.change_epoch;
    change_sequence = r.change_sequence;
    changed_directories = r.changed_directories;
    change_reset = r.change_reset;
  }

  unfoldable pub decode_error : Option ℤ → Option Bytes → CodecResult (Option RemoteFileError)
  unfolding decode_error_code
  decode_error (some code) (some message) = do
    code' ← decode_error_code codes code
    ok (some (record { code = code'; message = message }))
  decode_error none none = ok none
  decode_error none (some message) =
      err (validation (bytes "remote file response error code and message must appear together"))
  decode_error (some code) none =
      err (validation (bytes "remote file response error code and message must appear together"))

  -- `entry.map(decode_entry).transpose()`
  unfoldable pub decode_optional : Option EntryInfo → CodecResult (Option RemoteFileEntry)
  unfolding decode_entry
  decode_optional none = ok none
  decode_optional (some entry) = do entry' ← decode_entry codes entry; ok (some entry')

  unfoldable pub decode_fields : ResponseFrame → CodecResult RemoteFileResponse
  unfolding decode_error decode_entries decode_optional decode_share
  decode_fields frame = do
    error ← decode_error frame.error_code frame.error
    entries ← decode_entries codes frame.entries
    entry ← decode_optional frame.entry
    ok (record {
      succeeded = frame.succeeded;
      error = error;
      shares = map decode_share frame.shares;
      entries = entries;
      next_cursor = frame.next_cursor;
      entry = entry;
      thumbnail_size = frame.thumbnail_size;
      thumbnail_media_type = frame.thumbnail_media_type;
      revision = frame.revision;
      range_data = frame.range_data;
      change_epoch = frame.change_epoch;
      change_sequence = frame.change_sequence;
      changed_directories = frame.changed_directories;
      change_reset = frame.change_reset;
    })

module _ (codes : EnumCodes) (sizes : ContentSizes) (prost : Prost ResponseFrame) where
  unfoldable pub encode_wire : RemoteFileResponse → CodecResult Bytes
  unfolding encode_frame validate
  encode_wire r = once_valid (validate sizes r) (prost.encode_to_vec (encode_frame codes r))

  unfoldable pub checked : CodecResult RemoteFileResponse → CodecResult RemoteFileResponse
  unfolding validate
  checked decoded = do r ← decoded; once_valid (validate sizes r) r

  unfoldable pub decode_wire : Bytes → CodecResult RemoteFileResponse
  unfolding decode_fields checked
  decode_wire content = elim (prost.decode content) [
    | none ↦ err undecodable
    | some frame ↦ checked (decode_fields codes frame)
  ]
