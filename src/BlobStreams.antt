-- ===== src/BlobStreams.antt =====
-- src/server/proto_handler/input.rs: the streams that carry blobs, `handle_blob_stream` for a download
-- and `handle_clipboard_blob_upload` for an upload. A message that the transport does not deliver ends
-- a stream, and is left out where the server writes; messages that are read are a list. The bound
-- MAX_BLOB_CHUNK_SIZE of the wire crate is the argument `max_blob_chunk_size`.
pub mod Chunks
pub mod Downloads
pub mod Uploads
mod Examples
use arcrelay_protocol.Prelude.{
  ℕ, zero, suc, ◌+◌, ◌-◌, Bool, true, false, not, ◌||◌, Option, none, some, List, [], ◌∷◌, ◌++◌,
  ltb, leb, ◌==◌, if◌then◌else◌, Bytes, bytes_eq, same, length, take, drop, bytes, min,
  saturating_add,
}
use arcrelay_protocol.Status.{invalid_argument, unauthenticated, Status, ok_status, status}
use arcrelay_protocol.BlobStore.{BlobRef, BlobStore}
use arcrelay_protocol.BlobStore.Operations.{
  TicketError, not_found, resource_exhausted, invalid_or_expired, transfer_mismatch, other_device,
  ticket_expired, evicted, done, failed, redeem,
}
use arcrelay_protocol.ClipboardUpload.{
  ClipboardUploadStore, UploadError, invalid_upload, digest_mismatch, cache_full, UploadResult,
  stored, refused, is_media_type, insert_upload,
}

pub record BlobStreamOpen : Type 0 where
  pub transfer_id : ℕ
  pub ticket : Bytes
  pub offset : ℕ

pub record BlobStreamHeader : Type 0 where
  pub status : Status
  pub blob : Option BlobRef
  pub accepted_offset : ℕ
  pub chunk_size : ℕ

pub record BlobStreamChunk : Type 0 where
  pub transfer_id : ℕ
  pub offset : ℕ
  pub content : Bytes
  pub end_of_blob : Bool

-- The `while` loop. Every round but the last moves on by the size of a chunk, which is positive.
unfoldable pub send_chunks : ℕ → ℕ → ℕ → ℕ → Bytes → List BlobStreamChunk
send_chunks zero chunk_size transfer_id chunk_offset content = []
send_chunks (suc fuel) chunk_size transfer_id chunk_offset content =
    let chunk_end = min (chunk_offset + chunk_size) (length content) in
    let next =
      record {
        transfer_id = transfer_id;
        offset = chunk_offset;
        content = take (chunk_end - chunk_offset) (drop chunk_offset content);
        end_of_blob = chunk_end == length content;
      }
      ∷ send_chunks fuel chunk_size transfer_id chunk_end content in
    if ltb chunk_offset (length content) then next else []

unfoldable pub blob_chunks : ℕ → ℕ → ℕ → Bytes → List BlobStreamChunk
unfolding send_chunks
blob_chunks chunk_size transfer_id offset content =
    if offset == length content
    then record { transfer_id = transfer_id; offset = offset; content = []; end_of_blob = true }
      ∷ []
    else send_chunks (length content) chunk_size transfer_id offset content

-- The texts of the errors of `redeem`, which has no other.
abbrev pub redeem_message : TicketError → Bytes
redeem_message not_found = []
redeem_message resource_exhausted = []
redeem_message invalid_or_expired = bytes "blob ticket is invalid or expired"
redeem_message transfer_mismatch = bytes "blob transfer id does not match ticket"
redeem_message other_device = bytes "blob ticket belongs to another device"
redeem_message ticket_expired = bytes "blob ticket expired"
redeem_message evicted = bytes "blob was evicted"

unfoldable pub handle_blob_stream :
    ℕ
    → Bytes
    → ℕ
    → Bytes
    → BlobStreamOpen
    → BlobStore
    → BlobStore × BlobStreamHeader × List BlobStreamChunk
unfolding blob_chunks
handle_blob_stream max_blob_chunk_size draw now owner request s =
    let (s', outcome) = redeem now owner request.transfer_id request.ticket s in
    elim outcome [
      | failed e ↦ (
        s',
        record {
          status = status draw unauthenticated (redeem_message e);
          blob = none;
          accepted_offset = 0;
          chunk_size = max_blob_chunk_size;
        },
        [],
      )
      | done redeemed ↦
          if leb request.offset (length redeemed.content)
          then (
            s',
            record {
              status = ok_status;
              blob = some redeemed.reference;
              accepted_offset = request.offset;
              chunk_size = max_blob_chunk_size;
            },
            blob_chunks max_blob_chunk_size request.transfer_id request.offset redeemed.content,
          )
          else (
            s',
            record {
              status = status draw invalid_argument (bytes "blob offset is outside the payload");
              blob = some redeemed.reference;
              accepted_offset = 0;
              chunk_size = max_blob_chunk_size;
            },
            [],
          )
    ]

pub record ClipboardBlobUploadOpen : Type 0 where
  pub upload_id : Bytes
  pub size : ℕ
  pub sha256 : Bytes
  pub media_type : Bytes

pub record ClipboardBlobUploadChunk : Type 0 where
  pub upload_id : Bytes
  pub offset : ℕ
  pub content : Bytes
  pub end_of_upload : Bool

abbrev pub max_upload_bytes : ℕ
max_upload_bytes = 20971520

unfoldable pub is_invalid_open : ClipboardBlobUploadOpen → Bool
is_invalid_open open' =
    not (length open'.upload_id == 32)
    || not (length open'.sha256 == 32)
    || not (same open'.upload_id open'.sha256)
    || open'.size == 0
    || ltb max_upload_bytes open'.size
    || not (is_media_type open'.media_type)

-- What the loop over the chunks ends with.
pub data Received : Type 0 where
  complete : Bytes → Received
  message_too_large invalid_chunk too_large disconnected : Received

-- `recv_message(recv, MAX_BLOB_CHUNK_SIZE + 1024)`, on a message that prost encodes in `encoded_len`
-- bytes, is an error where it is longer.
module _ (max_blob_chunk_size : ℕ) (encoded_len : ClipboardBlobUploadChunk → ℕ) where
  unfoldable pub receive_chunks :
      ClipboardBlobUploadOpen → List ClipboardBlobUploadChunk → Bytes → Received
  receive_chunks open' [] received = disconnected
  receive_chunks open' (chunk ∷ chunks) received =
      let received' = received ++ chunk.content in
      let rest = receive_chunks open' chunks received' in
      if ltb (max_blob_chunk_size + 1024) (encoded_len chunk)
      then message_too_large
      else if not (same chunk.upload_id open'.upload_id) || not (chunk.offset == length received)
      then invalid_chunk
      else if ltb open'.size (saturating_add (length received) (length chunk.content))
      then too_large
      else if chunk.end_of_upload
      then complete received'
      else rest

-- How the stream ends: with a header that refuses the opening, or after a header with `ok_status` with
-- an error of the stream or the result of the upload.
pub data UploadReply : Type 0 where
  not_opened : Status → UploadReply
  broken : Received → UploadReply
  concluded : (status : Status) (received_size : ℕ) → UploadReply

abbrev pub upload_message : UploadError → Bytes
upload_message invalid_upload = bytes "invalid clipboard blob upload"
upload_message digest_mismatch = bytes "clipboard blob digest mismatch"
upload_message cache_full = bytes "clipboard blob upload cache is full"

abbrev pub upload_status : Bytes → UploadResult → Status
upload_status draw stored = ok_status
upload_status draw (refused e) = status draw invalid_argument (upload_message e)

module _ (digest : Bytes → Bytes) where
  unfoldable pub conclude_upload :
      Bytes
      → ℕ
      → ClipboardBlobUploadOpen
      → Received
      → ClipboardUploadStore
      → ClipboardUploadStore × UploadReply
  conclude_upload draw now open' (complete content) store =
      if length content == open'.size
      then (let (store', result) =
            insert_upload digest now open'.upload_id content open'.sha256 open'.media_type store in
          (store', concluded (upload_status draw result) (length content)))
      else (
        store,
        concluded (status draw invalid_argument (bytes "clipboard blob upload ended early"))
            (length content),
      )
  conclude_upload draw now open' other store = (store, broken other)

  unfoldable pub handle_clipboard_blob_upload :
      ℕ
      → (ClipboardBlobUploadChunk → ℕ)
      → Bytes
      → ℕ
      → ClipboardBlobUploadOpen
      → List ClipboardBlobUploadChunk
      → ClipboardUploadStore
      → ClipboardUploadStore × UploadReply
  unfolding conclude_upload
  handle_clipboard_blob_upload max_blob_chunk_size encoded_len draw now open' chunks store =
      if is_invalid_open open'
      then (
        store,
        not_opened (status draw invalid_argument (bytes "invalid clipboard blob upload")),
      )
      else conclude_upload draw now open'
          (receive_chunks max_blob_chunk_size encoded_len open' chunks []) store
