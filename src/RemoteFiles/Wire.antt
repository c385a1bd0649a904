-- ===== src/RemoteFiles/Wire.antt =====
-- src/remote_files.rs: `encode_wire` and `decode_wire`. The protobuf messages are data types, prost's
-- coding of them and the numbers of its enums are parameters.
use arcrelay_protocol.Prelude.{ℕ, Bool, Option, none, some, List, [], ◌∷◌, Bytes, bytes, ℤ}
use arcrelay_protocol.RemoteFiles.{
  RemoteFileErrorCode, RemoteFileShare, RemoteFileKind, RemoteFileSortKey, by_name, by_modified,
  by_type, by_size, RemoteFileSortDirection, ascending, descending, RemoteFileEntry,
}

pub data CodecError : Type 0 where
  validation : Bytes → CodecError
  undecodable : CodecError

pub data CodecResult {ℓ} (A : Type ℓ) : Type ℓ where
  ok : A → CodecResult A
  err : CodecError → CodecResult A

infixl 5 ◌>>=◌
abbrev pub ◌>>=◌ {ℓ κ} :
    {A : Type ℓ} {B : Type κ} → CodecResult A → (A → CodecResult B) → CodecResult B
ok a >>= f = f a
err e >>= f = err e

-- `validate()?`, then a value.
abbrev pub once_valid {ℓ} : {A : Type ℓ} → Option Bytes → A → CodecResult A
once_valid none a = ok a
once_valid (some message) a = err (validation message)

-- An enum of protobuf: the number of a value, and the value of a number, if it has one.
pub record EnumCode (A : Type 0) : Type 0 where
  pub number : A → ℤ
  pub try_from : ℤ → Option A

pub data ProtoSortKey : Type 0 where
  unspecified_key name_key modified_key type_key size_key : ProtoSortKey

pub data ProtoSortDirection : Type 0 where
  unspecified_direction ascending_direction descending_direction : ProtoSortDirection

pub data ProtoErrorCode : Type 0 where
  unspecified_code : ProtoErrorCode
  code_of : RemoteFileErrorCode → ProtoErrorCode

pub data ProtoEntryKind : Type 0 where
  unspecified_kind : ProtoEntryKind
  kind_of : RemoteFileKind → ProtoEntryKind

pub record EnumCodes : Type 0 where
  pub sort_key : EnumCode ProtoSortKey
  pub sort_direction : EnumCode ProtoSortDirection
  pub error_code : EnumCode ProtoErrorCode
  pub entry_kind : EnumCode ProtoEntryKind

-- `proto::remote_file_request_frame::Body`
pub data RequestBody : Type 0 where
  list_shares_body : RequestBody
  watch_changes_body : (share_id epoch : Bytes) (after_sequence : ℕ) → RequestBody
  stat_body : (share_id relative_path : Bytes) → RequestBody
  move_body :
      (share_id relative_path destination_path : Bytes) (overwrite : Bool)
      (expected_revision : Bytes)
      → RequestBody
  conditional_delete_body :
      (share_id relative_path expected_revision : Bytes) (recursive : Bool) → RequestBody
  read_range_body :
      (share_id relative_path : Bytes) (offset length : ℕ) (revision : Bytes) → RequestBody
  conditional_upload_body :
      (share_id relative_path name : Bytes) (size : ℕ) (expected_revision : Bytes) → RequestBody
  list_directory_body :
      (share_id relative_path : Bytes) (cursor : Option Bytes) (limit : ℕ) (search : Option Bytes)
      (sort_key sort_direction : ℤ)
      → RequestBody
  create_directory_body : (share_id relative_path name : Bytes) → RequestBody
  rename_body : (share_id relative_path new_name : Bytes) → RequestBody
  delete_body : (share_id relative_path : Bytes) → RequestBody
  download_body : (share_id relative_path : Bytes) → RequestBody
  thumbnail_body : (share_id relative_path : Bytes) (max_dimension : ℕ) → RequestBody
  upload_body :
      (share_id relative_path name : Bytes) (size : ℕ) (overwrite : Bool)
      (expected_modified_at_ms : Option ℤ)
      → RequestBody

pub record EntryInfo : Type 0 where
  pub id : Bytes
  pub name : Bytes
  pub relative_path : Bytes
  pub kind : ℤ
  pub size : ℕ
  pub modified_at_ms : ℤ
  pub revision : Bytes

pub record ResponseFrame : Type 0 where
  pub succeeded : Bool
  pub error : Option Bytes
  pub shares : List RemoteFileShare
  pub entries : List EntryInfo
  pub next_cursor : Option Bytes
  pub entry : Option EntryInfo
  pub thumbnail_size : ℕ
  pub thumbnail_media_type : Option Bytes
  pub revision : Bytes
  pub range_data : Bytes
  pub error_code : Option ℤ
  pub change_epoch : Bytes
  pub change_sequence : ℕ
  pub changed_directories : List Bytes
  pub change_reset : Bool

-- `encode_to_vec` and `decode` of a message.
pub record Prost (Message : Type 0) : Type 0 where
  pub encode_to_vec : Message → Bytes
  pub decode : Bytes → Option Message

abbrev pub proto_sort_key : RemoteFileSortKey → ProtoSortKey
proto_sort_key by_name = name_key
proto_sort_key by_modified = modified_key
proto_sort_key by_type = type_key
proto_sort_key by_size = size_key

abbrev pub proto_sort_direction : RemoteFileSortDirection → ProtoSortDirection
proto_sort_direction ascending = ascending_direction
proto_sort_direction descending = descending_direction

-- A share has the same fields in both formats.
unfoldable pub encode_share : RemoteFileShare → RemoteFileShare
encode_share share = record { id = share.id; name = share.name; writable = share.writable }

unfoldable pub decode_share : RemoteFileShare → RemoteFileShare
decode_share share = record { id = share.id; name = share.name; writable = share.writable }

module _ (codes : EnumCodes) where
  unfoldable pub encode_sort_key : RemoteFileSortKey → ℤ
  encode_sort_key key = codes.sort_key.number (proto_sort_key key)

  unfoldable pub decode_sort_key : ℤ → CodecResult RemoteFileSortKey
  decode_sort_key key = elim (codes.sort_key.try_from key) [
    | none ↦ err (validation (bytes "invalid remote file sort key"))
    | some unspecified_key ↦ ok by_name
    | some name_key ↦ ok by_name
    | some modified_key ↦ ok by_modified
    | some type_key ↦ ok by_type
    | some size_key ↦ ok by_size
  ]

  unfoldable pub encode_sort_direction : RemoteFileSortDirection → ℤ
  encode_sort_direction direction = codes.sort_direction.number (proto_sort_direction direction)

  unfoldable pub decode_sort_direction : ℤ → CodecResult RemoteFileSortDirection
  decode_sort_direction direction = elim (codes.sort_direction.try_from direction) [
    | none ↦ err (validation (bytes "invalid remote file sort direction"))
    | some unspecified_direction ↦ ok ascending
    | some ascending_direction ↦ ok ascending
    | some descending_direction ↦ ok descending
  ]

  unfoldable pub encode_error_code : RemoteFileErrorCode → ℤ
  encode_error_code code = codes.error_code.number (code_of code)

  unfoldable pub decode_error_code : ℤ → CodecResult RemoteFileErrorCode
  decode_error_code code = elim (codes.error_code.try_from code) [
    | none ↦ err (validation (bytes "invalid remote file error code"))
    | some unspecified_code ↦ err (validation (bytes "invalid remote file error code"))
    | some (code_of code') ↦ ok code'
  ]

  unfoldable pub encode_entry : RemoteFileEntry → EntryInfo
  encode_entry entry = record {
    id = entry.id;
    name = entry.name;
    relative_path = entry.relative_path;
    kind = codes.entry_kind.number (kind_of entry.kind);
    size = entry.size;
    modified_at_ms = entry.modified_at_ms;
    revision = entry.revision;
  }

  unfoldable pub decode_entry : EntryInfo → CodecResult RemoteFileEntry
  decode_entry entry = elim (codes.entry_kind.try_from entry.kind) [
    | none ↦ err (validation (bytes "invalid remote file entry kind"))
    | some unspecified_kind ↦ err (validation (bytes "invalid remote file entry kind"))
    | some (kind_of kind) ↦ ok (record {
      id = entry.id;
      name = entry.name;
      relative_path = entry.relative_path;
      kind = kind;
      size = entry.size;
      modified_at_ms = entry.modified_at_ms;
      revision = entry.revision;
    })
  ]

  -- `collect::<Result<_, _>>()`
  unfoldable pub decode_entries : List EntryInfo → CodecResult (List RemoteFileEntry)
  unfolding decode_entry
  decode_entries [] = ok []
  decode_entries (entry ∷ entries) = do
    first ← decode_entry entry
    rest ← decode_entries entries
    ok (first ∷ rest)
