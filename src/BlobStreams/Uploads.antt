-- ===== src/BlobStreams/Uploads.antt =====
-- `handle_clipboard_blob_upload`: what a client that cuts its content into chunks gets stored.
use arcrelay_protocol.Prelude.{
  ℕ, ◌+◌, ◌-◌, ◌≤◌, ◌<◌, ◌≡◌, refl, ap, true, false, some, List, [], ◌∷◌, ◌++◌, arith, Bytes,
  bytes_eq, length, length-append, All, saturating_add_exact,
}
use arcrelay_protocol.Status.{ok_status}
use arcrelay_protocol.ClipboardUpload.{
  ClipboardUploadStore, stored, prune, insert_upload, get_upload, is_media_type, previous_bytes,
  max_total_bytes, upload_ttl,
}
use arcrelay_protocol.ClipboardUpload.Accounting.{IsValid}
use arcrelay_protocol.ClipboardUpload.Lookup.{get_upload-insert_upload}
use arcrelay_protocol.BlobStreams.{
  ClipboardBlobUploadOpen, ClipboardBlobUploadChunk, max_upload_bytes, is_invalid_open, complete,
  receive_chunks, conclude_upload, concluded, upload_status, handle_clipboard_blob_upload,
}

unfoldable pub content_of : Bytes → List Bytes → Bytes
content_of piece [] = piece
content_of piece (next ∷ pieces) = piece ++ content_of next pieces

-- The chunks that carry the pieces of a content, the last marked as such.
unfoldable pub chunks_of : Bytes → ℕ → Bytes → List Bytes → List ClipboardBlobUploadChunk
chunks_of id offset piece [] =
    record { upload_id = id; offset = offset; content = piece; end_of_upload = true } ∷ []
chunks_of id offset piece (next ∷ pieces) =
    record { upload_id = id; offset = offset; content = piece; end_of_upload = false }
    ∷ chunks_of id (offset + length piece) next pieces

append_assoc : (a b c : Bytes) → (a ++ b) ++ c ≡ a ++ (b ++ c)
append_assoc [] b c = refl
append_assoc (x ∷ a) b c = ap (◌∷◌ x) (append_assoc a b c)

-- prost needs at most 1024 bytes for a chunk beside its content.
abbrev pub IsEncoding : (ClipboardBlobUploadChunk → ℕ) → Type 0
IsEncoding encoded_len =
    (chunk : ClipboardBlobUploadChunk)
    → length chunk.upload_id ≡ 32
    → encoded_len chunk ≤ length chunk.content + 1024

module _ (size : ℕ) (encoded_len : ClipboardBlobUploadChunk → ℕ) where
  receive-chunks_of :
      (open' : ClipboardBlobUploadOpen) (received piece : Bytes) (pieces : List Bytes)
      → IsEncoding encoded_len
      → length open'.upload_id ≡ 32
      → All (λ (p : Bytes). length p ≤ size) (piece ∷ pieces)
      → length received + length (content_of piece pieces) ≤ open'.size
      → open'.size ≤ max_upload_bytes
      → receive_chunks size encoded_len open'
          (chunks_of open'.upload_id (length received) piece pieces)
          received
        ≡ complete (received ++ content_of piece pieces)
  unfolding receive_chunks chunks_of content_of
  receive-chunks_of open' received piece [] encoding long each fits small =
      let chunk : ClipboardBlobUploadChunk = record {
        upload_id = open'.upload_id;
        offset = length received;
        content = piece;
        end_of_upload = true;
      } in
      ground (
        arith,
        fits,
        small,
        each,
        encoding chunk long,
        saturating_add_exact (length received) (length piece),
      )
  receive-chunks_of open' received piece (next ∷ pieces) encoding long each fits small =
      let joined = length-append received piece in
      let more = length-append piece (content_of next pieces) in
      let chunk : ClipboardBlobUploadChunk = record {
        upload_id = open'.upload_id;
        offset = length received;
        content = piece;
        end_of_upload = false;
      } in
      let ih =
        receive-chunks_of open' (received ++ piece) next pieces encoding long each.1
          (omega (arith, fits, joined, more)) small in
      ground (
        arith,
        fits,
        small,
        each.0,
        encoding chunk long,
        joined,
        more,
        ih,
        append_assoc received piece (content_of next pieces),
        saturating_add_exact (length received) (length piece),
      )

opens :
    (open' : ClipboardBlobUploadOpen)
    → length open'.upload_id ≡ 32
    → open'.sha256 ≡ open'.upload_id
    → is_media_type open'.media_type ≡ true
    → 0 < open'.size
    → open'.size ≤ max_upload_bytes
    → is_invalid_open open' ≡ false
unfolding is_invalid_open
opens open' long same_id media some_bytes small =
    ground (arith, long, same_id, media, some_bytes, small)

module _ (digest : Bytes → Bytes) where
  insert_upload_room :
      (now : ℕ) (id content media_type : Bytes) (s : ClipboardUploadStore)
      → length id ≡ 32
      → digest content ≡ id
      → is_media_type media_type ≡ true
      → 0 < length content
      → length content ≤ max_upload_bytes
      → (prune now s).total_bytes + length content ≤ max_total_bytes
      → (insert_upload digest now id content id media_type s).1 ≡ stored
  unfolding insert_upload
  insert_upload_room now id content media_type s long right media some_bytes small room =
      let key : Bytes × Bytes = (id, media_type) in
      let next = (prune now s).total_bytes - previous_bytes key (prune now s) in
      ground (
        arith,
        long,
        right,
        media,
        some_bytes,
        small,
        room,
        saturating_add_exact next (length content),
      )

  concludes :
      (limit : ℕ) (encoded_len : ClipboardBlobUploadChunk → ℕ) (now : ℕ) (draw content : Bytes)
      (open' : ClipboardBlobUploadOpen) (chunks : List ClipboardBlobUploadChunk)
      (s : ClipboardUploadStore)
      → is_invalid_open open' ≡ false
      → receive_chunks limit encoded_len open' chunks [] ≡ complete content
      → length content ≡ open'.size
      → (let (after, result) =
            insert_upload digest now open'.upload_id content open'.sha256 open'.media_type s in
          handle_clipboard_blob_upload digest limit encoded_len draw now open' chunks s
          ≡ (after, concluded (upload_status draw result) open'.size))
  unfolding handle_clipboard_blob_upload conclude_upload
  concludes limit encoded_len now draw content open' chunks s valid comes size =
      ground (arith, valid, comes, size)

  -- A content of 1 byte to 20 MiB, opened under its SHA-256 with a media type that is accepted and sent
  -- in pieces of at most `limit` bytes, each of which prost encodes with at most 1024 bytes beside it, is
  -- answered with "ok" and its whole size while the uploads that have not expired leave room for it, and
  -- a lookup finds it, whole, in the two minutes that follow.
  pub handle_clipboard_blob_upload_lem :
      (limit now later : ℕ) (encoded_len : ClipboardBlobUploadChunk → ℕ) (draw piece : Bytes)
      (pieces : List Bytes) (open' : ClipboardBlobUploadOpen) (s : ClipboardUploadStore)
      → IsEncoding encoded_len
      → All (λ (p : Bytes). length p ≤ limit) (piece ∷ pieces)
      → IsValid digest s
      → length open'.upload_id ≡ 32
      → digest (content_of piece pieces) ≡ open'.upload_id
      → open'.sha256 ≡ open'.upload_id
      → is_media_type open'.media_type ≡ true
      → length (content_of piece pieces) ≡ open'.size
      → 0 < open'.size
      → open'.size ≤ max_upload_bytes
      → (prune now s).total_bytes + open'.size ≤ max_total_bytes
      → now ≤ later
      → later < now + upload_ttl
      → (let (after, reply) =
            handle_clipboard_blob_upload digest limit encoded_len draw now open'
              (chunks_of open'.upload_id 0 piece pieces)
              s in
          (reply ≡ concluded ok_status open'.size)
          × ((get_upload later open'.upload_id open'.sha256 open'.media_type after).1
              ≡ some (content_of piece pieces)))
  handle_clipboard_blob_upload_lem limit now later encoded_len draw piece pieces open' s encoding
        each v long right same_id media size some_bytes small room le soon =
      let content = content_of piece pieces in
      let comes =
        receive-chunks_of limit encoded_len open' [] piece pieces encoding long each
          (omega (arith, size)) small in
      let accepted : (insert_upload digest now open'.upload_id content open'.sha256 open'.media_type
            s).1
          ≡ stored =
        rw same_id (
          insert_upload_room now open'.upload_id content open'.media_type s long right media
            (omega (arith, some_bytes, size)) (omega (arith, small, size))
            (omega (arith, room, size))) in
      let finds =
        get_upload-insert_upload digest now later open'.upload_id content open'.sha256
          open'.media_type s v accepted le in
      let answer =
        concludes limit encoded_len now draw content open' _ s
          (opens open' long same_id media some_bytes small) comes size in
      rw answer (ground (arith, accepted), ground (arith, finds, soon))
