-- ===== src/BlobStreams/Downloads.antt =====
-- `handle_blob_stream`: what a ticket brings.
use arcrelay_protocol.Prelude.{
  inl, inr, ℕ, ◌+◌, ◌<◌, ◌≡◌, Option, none, some, List, arith, leb, if◌then◌else◌, Bytes, length,
  drop, Bool-cases,
}
use arcrelay_protocol.BlobStore.{BlobStore, ticket_ttl}
use arcrelay_protocol.BlobStore.Operations.{done, redeem, issue_ticket, RedeemedBlob, BlobTicket}
use arcrelay_protocol.BlobStore.Validity.{IsValid}
use arcrelay_protocol.BlobStore.Issuing.{redeem-issue_ticket}
use arcrelay_protocol.BlobStreams.{BlobStreamOpen, handle_blob_stream}
use arcrelay_protocol.BlobStreams.Chunks.{reassemble, reassemble-blob_chunks}

-- What a client puts together from the answer to an opening, with the ticket that it was given.
pub delivered : ℕ → Bytes → ℕ → Bytes → BlobStreamOpen → BlobStore → Option Bytes
delivered size draw now owner request s =
    let (_, _, chunks) = handle_blob_stream size draw now owner request s in
    reassemble size request.transfer_id request.offset chunks

delivered-redeem :
    (size later : ℕ) (draw o : Bytes) (request : BlobStreamOpen) (s : BlobStore) (r : RedeemedBlob)
    → 0 < size
    → (redeem later o request.transfer_id request.ticket s).1 ≡ done r
    → delivered size draw later o request s ≡ (
        if leb request.offset (length r.content)
        then some (drop request.offset r.content)
        else none)
unfolding delivered handle_blob_stream reassemble
delivered-redeem size later draw o request s r pos h =
    elim (Bool-cases (leb request.offset (length r.content))) [
      | inl inside ↦ ground (
        arith,
        h,
        inside,
        reassemble-blob_chunks size request.transfer_id request.offset r.content pos
            (ground (arith, inside)),
      )
      | inr outside ↦ ground (arith, h, outside)
    ]

module _ (sha256 : Bytes → Bytes) where
  -- The ticket that a device was issued for a blob opens, for 30 seconds, a stream from which a client
  -- that checks each chunk's size, transfer id and offset puts together the content with the SHA-256
  -- that was asked for, from the offset that it names to the end, and nothing where that offset lies
  -- past the end.
  pub handle_blob_stream_lem :
      (size now later offset : ℕ) (draw : Bytes) (ids : List ℕ) (texts : List Bytes) (o b : Bytes)
      (s after : BlobStore) (k : BlobTicket)
      → 0 < size
      → IsValid sha256 s
      → issue_ticket now ids texts o b s ≡ some (after, done k)
      → later < now + ticket_ttl
      → (content : Bytes) × (sha256 content ≡ b)
        × ((delivered size draw later o
              (record { transfer_id = k.transfer_id; ticket = k.ticket; offset = offset })
              after)
            ≡ (if leb offset (length content) then some (drop offset content) else none))
  handle_blob_stream_lem size now later offset draw ids texts o b s after k pos v h soon =
      let (r, comes, right) =
        redeem-issue_ticket sha256 now later ids texts o b s after k v h soon in
      (r.content, right, delivered-redeem size later draw o _ after r pos comes)
