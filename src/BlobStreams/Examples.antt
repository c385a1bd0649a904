-- ===== src/BlobStreams/Examples.antt =====
-- A download from the middle of a blob and an upload in two pieces.
use arcrelay_protocol.Prelude.{
  ℕ, ◌+◌, ◌≡◌, refl, true, none, some, [], ◌∷◌, arith, leb, if◌then◌else◌, Bytes, bytes,
  bytes_discrete, ℕ_discrete, length, drop,
}
use arcrelay_protocol.Status.{ok_status}
use arcrelay_protocol.BlobStore.Examples as Blob
use arcrelay_protocol.ClipboardUpload.{
  empty, get_upload, is_media_type, prune, expired_keys, remove_uploads,
}
use arcrelay_protocol.ClipboardUpload.Accounting.{empty-IsValid}
use arcrelay_protocol.ClipboardUpload.Examples as Upload
use arcrelay_protocol.BlobStreams.{
  ClipboardBlobUploadOpen, ClipboardBlobUploadChunk, concluded, handle_clipboard_blob_upload,
}
use arcrelay_protocol.BlobStreams.Downloads.{delivered, handle_blob_stream_lem}
use arcrelay_protocol.BlobStreams.Uploads.{chunks_of, content_of, handle_clipboard_blob_upload_lem}

handle_blob_stream_lem_example :
    (content : Bytes) × (Blob.digest content ≡ Blob.content)
    × ((delivered 2 [] 30199 Blob.phone
          (record { transfer_id = 9; ticket = bytes "secret"; offset = 1 })
          Blob.ticketed)
        ≡ (if leb 1 (length content) then some (drop 1 content) else none))
handle_blob_stream_lem_example =
    handle_blob_stream_lem Blob.digest 2 200 30199 1 [] (9 ∷ []) (bytes "secret" ∷ []) Blob.phone
      Blob.content Blob.one_blob Blob.ticketed Blob.ticket (omega arith) Blob.one_blob-IsValid
      Blob.issues_it (omega arith)

abbrev opening : ClipboardBlobUploadOpen
opening = record {
  upload_id = Upload.digest Upload.blob;
  size = 3;
  sha256 = Upload.digest Upload.blob;
  media_type = Upload.png;
}

abbrev encoded_len : ClipboardBlobUploadChunk → ℕ
encoded_len chunk = length chunk.content + 50

is_media_type-png : is_media_type Upload.png ≡ true
unfolding is_media_type bytes_discrete ℕ_discrete
is_media_type-png = refl

handle_clipboard_blob_upload_lem_example :
    (let (after, reply) =
        handle_clipboard_blob_upload Upload.digest 2 encoded_len [] 100 opening
          (chunks_of opening.upload_id 0 (1 ∷ []) ((2 ∷ 3 ∷ []) ∷ []))
          empty in
      (reply ≡ concluded ok_status 3)
      × ((get_upload 200 opening.upload_id opening.sha256 Upload.png after).1
          ≡ some (content_of (1 ∷ []) ((2 ∷ 3 ∷ []) ∷ []))))
unfolding content_of prune expired_keys remove_uploads
handle_clipboard_blob_upload_lem_example =
    handle_clipboard_blob_upload_lem Upload.digest 2 100 200 encoded_len [] (1 ∷ [])
      ((2 ∷ 3 ∷ []) ∷ []) opening empty (λ chunk long. omega arith) (omega arith, (omega arith, tt))
      (empty-IsValid Upload.digest) refl refl refl is_media_type-png refl (omega arith)
      (omega arith) (omega arith) (omega arith) (omega arith)
