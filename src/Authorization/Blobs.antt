-- ===== src/Authorization/Blobs.antt =====
-- The query and blob arms of `handle_request`, up to the call of `handle_query`.
use arcrelay_protocol.Prelude.{
  inl, inr, ℕ, ◌+◌, ◌<◌, ◌≡◌, arith, Bool, true, not, ◌&&◌, ◌||◌, Option, none, some, List, [], ◌∷◌,
  leb, ◌==◌, if◌then◌else◌, Bytes, bytes, length, drop, Option-cases,
}
use arcrelay_protocol.Status.{invalid_argument, not_found, resource_exhausted, ok_status}
use arcrelay_protocol.Commands.{
  RequestRejection, ServerControlFrame, response, response_error, into_frame,
}
use arcrelay_protocol.BlobStore.{BlobStore, ticket_ttl}
use arcrelay_protocol.BlobStore.Operations.{Outcome, done, failed, issue_ticket, BlobTicket}
use arcrelay_protocol.BlobStore.Operations as Tickets
use arcrelay_protocol.BlobStore.Validity.{IsValid}
use arcrelay_protocol.BlobStreams.Downloads.{delivered, handle_blob_stream_lem}
use arcrelay_protocol.Authorization.{
  Feature, CapabilityId, clipboard_read, Grants, reject, require_feature, require_any_capability,
  and_then,
}
use arcrelay_protocol.Authorization.Query.{Query, QueryNumbers, authorize_query}

module _ {Body : Type 0} (token : CapabilityId → Bytes) (numbers : QueryNumbers) where
  -- The checks that come before `handle_query`.
  unfoldable pub query_refused :
      Bytes → ℕ → Bytes → Option Query → Grants → Option (ServerControlFrame Body)
  unfolding into_frame
  query_refused draw request_id idempotency_key query grants =
      if not (length idempotency_key == 0)
      then some (
          response_error draw request_id invalid_argument
            (bytes "queries must not include an idempotency key"))
      else elim (authorize_query token numbers request_id query grants) [
        | none ↦ none
        | some rejection ↦ some (into_frame draw rejection)
      ]

-- Whether `handle_query` may put blobs into the store.
unfoldable pub may_use_blobs : Grants → Bool
may_use_blobs grants =
    (grants.capabilities clipboard_read || grants.capabilities CapabilityId.clipboard_sync)
    && grants.features Feature.blobs

-- The answer to `issue_ticket`, which fails in two ways only.
unfoldable pub ticket_frame : Bytes → ℕ → Outcome BlobTicket → ServerControlFrame BlobTicket
unfolding response_error
ticket_frame draw request_id (done ticket) =
    response (record { request_id = request_id; status = some ok_status; body = some ticket })
ticket_frame draw request_id (failed Tickets.not_found) =
    response_error draw request_id not_found (bytes "blob is not available")
ticket_frame draw request_id (failed other) =
    response_error draw request_id resource_exhausted
      (bytes "too many Blob tickets are outstanding")

-- The checks before a ticket is asked for.
unfoldable pub blob_refused : ℕ → Bytes → Bytes → Grants → Option RequestRejection
unfolding reject require_feature require_any_capability
blob_refused request_id idempotency_key blob_id grants =
    if not (length idempotency_key == 0)
    then reject request_id invalid_argument
        (bytes "Blob requests must not include an idempotency key")
    else if not (length blob_id == 32)
    then reject request_id invalid_argument (bytes "Blob IDs must be 32-byte SHA-256 digests")
    else and_then (require_feature request_id grants Feature.blobs) (
        require_any_capability request_id grants
          (clipboard_read ∷ CapabilityId.clipboard_sync ∷ []))

-- `none` where the random numbers that `issue_ticket` draws are used up.
unfoldable pub get_blob :
    Bytes
    → ℕ
    → List ℕ
    → List Bytes
    → Bytes
    → ℕ
    → Bytes
    → Bytes
    → Grants
    → BlobStore
    → Option (BlobStore × ServerControlFrame BlobTicket)
unfolding into_frame
get_blob draw now ids texts device request_id idempotency_key blob_id grants store =
    elim (blob_refused request_id idempotency_key blob_id grants) [
      | some rejection ↦ some (store, into_frame draw rejection)
      | none ↦ elim (issue_ticket now ids texts device blob_id store) [
        | none ↦ none
        | some (after, outcome) ↦ some (after, ticket_frame draw request_id outcome)
      ]
    ]

issued_frame :
    (draw : Bytes) (request_id : ℕ) (outcome : Outcome BlobTicket) (k : BlobTicket)
    → ticket_frame draw request_id outcome
      ≡ response (record { request_id = request_id; status = some ok_status; body = some k })
    → outcome ≡ done k
unfolding ticket_frame response_error
issued_frame draw request_id (done ticket) k h = ground (arith, h)
issued_frame draw request_id (failed Tickets.not_found) k h = absurd (ground (arith, h))
issued_frame draw request_id (failed other) k h = absurd (ground (arith, h))

passes :
    (request_id : ℕ) (key blob_id : Bytes) (grants : Grants)
    → blob_refused request_id key blob_id grants ≡ none
    → (grants.features Feature.blobs ≡ true) × (may_use_blobs grants ≡ true) × (length blob_id ≡ 32)
unfolding blob_refused require_feature require_any_capability reject may_use_blobs
passes request_id key blob_id grants h = (ground (arith, h), ground (arith, h), ground (arith, h))

issues :
    (now request_id : ℕ) (draw : Bytes) (ids : List ℕ) (texts : List Bytes)
    (device key blob_id : Bytes) (grants : Grants) (s after : BlobStore) (k : BlobTicket)
    → get_blob draw now ids texts device request_id key blob_id grants s
      ≡ some (
        after,
        response (record { request_id = request_id; status = some ok_status; body = some k }),
      )
    → (blob_refused request_id key blob_id grants ≡ none)
      × (issue_ticket now ids texts device blob_id s ≡ some (after, done k))
unfolding get_blob into_frame response_error
issues now request_id draw ids texts device key blob_id grants s after k h =
    elim (Option-cases (blob_refused request_id key blob_id grants)) [
      | inr (rejection, refused) ↦ absurd (ground (arith, refused, h))
      | inl clear ↦ elim (Option-cases (issue_ticket now ids texts device blob_id s)) [
        | inl stuck ↦ absurd (ground (arith, clear, stuck, h))
        | inr ((after', outcome), comes) ↦
            let same_store : after' ≡ after = ground (arith, clear, comes, h) in
            let is_done =
              issued_frame draw request_id outcome k (ground (arith, clear, comes, h)) in
            (clear, ground (arith, comes, same_store, is_done))
      ]
    ]

module _ (sha256 : Bytes → Bytes) where
  -- A device whose request for a blob is answered with a ticket has negotiated blobs and may read or
  -- synchronize the clipboard, and the store was valid before; then the stream that the ticket opens
  -- within 30 seconds brings that device the content with the SHA-256 that it asked for, from any offset.
  pub get_blob_lem :
      (size now later offset request_id : ℕ) (draw : Bytes) (ids : List ℕ) (texts : List Bytes)
      (device idempotency_key blob_id : Bytes) (grants : Grants) (s after : BlobStore)
      (k : BlobTicket)
      → 0 < size
      → IsValid sha256 s
      → get_blob draw now ids texts device request_id idempotency_key blob_id grants s
        ≡ some (
          after,
          response (record { request_id = request_id; status = some ok_status; body = some k }),
        )
      → later < now + ticket_ttl
      → (grants.features Feature.blobs ≡ true)
        × (may_use_blobs grants ≡ true)
        × (length blob_id ≡ 32)
        × (content : Bytes) × (sha256 content ≡ blob_id)
        × ((delivered size draw later device
              (record { transfer_id = k.transfer_id; ticket = k.ticket; offset = offset })
              after)
            ≡ (if leb offset (length content) then some (drop offset content) else none))
  get_blob_lem size now later offset request_id draw ids texts device key blob_id grants s after k
        pos v h soon =
      let (clear, issued) =
        issues now request_id draw ids texts device key blob_id grants s after k h in
      let (negotiated, granted, long) = passes request_id key blob_id grants clear in
      let (content, right, whole) =
        handle_blob_stream_lem sha256 size now later offset draw ids texts device blob_id s after k
          pos v issued soon in
      (negotiated, granted, long, content, right, whole)
