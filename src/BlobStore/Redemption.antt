-- ===== src/BlobStore/Redemption.antt =====
-- `redeem`: a ticket is good once, and its blob is there.
use arcrelay_protocol.Prelude.{
  inl, inr, ℕ, ◌<◌, ◌≡◌, ◌≢◌, refl, ap, ◌∙◌, not, none, some, arith, leb, ◌==◌, Bytes, bytes_eq,
  nat_eq, same, get, insert, present, Option-cases, Bool-cases, add_element, IsDistinct,
}
use arcrelay_protocol.BlobStore.{
  BlobEntry, TicketEntry, BlobStore, remove_ticket, discard_ticket, prune,
}
use arcrelay_protocol.BlobStore.Operations.{
  TicketError, Outcome, done, failed, evicted, invalid_or_expired, transfer_mismatch, other_device,
  ticket_expired, RedeemedBlob, redeem,
}
use arcrelay_protocol.BlobStore.Accounting.{IsAccounted, remove_ticket-IsAccounted}
use arcrelay_protocol.BlobStore.Shrinks.{remove_ticket-Shrinks}
use arcrelay_protocol.BlobStore.Validity.{IsValid, prune-IsValid, replace-IsValid, shrink-IsValid}
use arcrelay_protocol.BlobStore.Tickets.{ticket_absent, get-remove_ticket}

module _ (sha256 : Bytes → Bytes) where
  -- Once the ticket is spent, its blob is there: it was pinned.
  spent_blob :
      (t : Bytes) (x : TicketEntry) (s : BlobStore)
      → get t s.tickets ≡ some x
      → IsAccounted s
      → (e : BlobEntry) × (get x.blob_id (remove_ticket t s).entries ≡ some e)
  unfolding remove_ticket discard_ticket present
  spent_blob t x s hit a = elim (Option-cases (get x.blob_id s.entries)) [
    | inl miss ↦ absurd (ground (arith, miss, a.pinned t x hit))
    | inr (e, found) ↦ (e, ground (arith, hit, found))
  ]

  -- How `redeem` goes on for the owner of a live ticket.
  pub redeemed :
      (now : ℕ) (o t : Bytes) (x : TicketEntry) (s : BlobStore)
      → get t (prune now s).tickets ≡ some x
      → x.owner ≡ o
      → now < x.expires_at
      → IsValid sha256 s
      → (r : RedeemedBlob) × ((redeem now o x.transfer_id t s).1 ≡ done r)
        × (sha256 r.content ≡ x.blob_id)
  unfolding redeem
  redeemed now o t x s hit own live v =
      let w = prune-IsValid sha256 now s v in
      let (e, found) = spent_blob t x (prune now s) hit w.accounted in
      let (e', was, same_content) =
        (remove_ticket-Shrinks t (prune now s)).from x.blob_id e found in
      (
        record { reference = e.reference; content = e.content },
        ground (arith, hit, own, live, found),
        ap sha256 same_content ∙ w.digests x.blob_id e' was,
      )

  -- A refusal leaves the pruned store; otherwise the ticket is spent and the blob delivered.
  data Redeems (now : ℕ) (o t : Bytes) (s : BlobStore) (result : BlobStore × Outcome RedeemedBlob)
      : Type 0 where
    refuses :
        (e : TicketError)
        → e ≢ evicted
        → result ≡ (prune now s, failed e)
        → Redeems now o t s result
    delivers :
        (x : TicketEntry) (blob : BlobEntry)
        → get t (prune now s).tickets ≡ some x
        → get x.blob_id (remove_ticket t (prune now s)).entries ≡ some blob
        → result ≡ (
          record (remove_ticket t (prune now s)) {
            entries =
                insert x.blob_id
                  (record blob {
                    last_access = now;
                    delivered_owners = add_element o blob.delivered_owners;
                  })
                  (remove_ticket t (prune now s)).entries;
          },
          done (record { reference = blob.reference; content = blob.content }),
        )
        → Redeems now o t s result

  redeem-Redeems :
      (now id : ℕ) (o t : Bytes) (s : BlobStore)
      → IsValid sha256 s
      → Redeems now o t s (redeem now o id t s)
  unfolding redeem
  redeem-Redeems now id o t s v =
      let w = prune-IsValid sha256 now s v in
      elim (Option-cases (get t (prune now s).tickets)) [
        | inl miss ↦ refuses invalid_or_expired (λ p. cc) (rw (miss, redeem) refl)
        | inr (x, hit) ↦ elim (Bool-cases (not (x.transfer_id == id))) [
          | inl wrong ↦ refuses transfer_mismatch (λ p. cc) (rw (hit, wrong, redeem) refl)
          | inr right ↦ elim (Bool-cases (not (same x.owner o))) [
            | inl foreign ↦ refuses other_device (λ p. cc) (rw (hit, right, foreign, redeem) refl)
            | inr own ↦ elim (Bool-cases (leb x.expires_at now)) [
              | inl late ↦
                  refuses ticket_expired (λ p. cc) (rw (hit, right, own, late, redeem) refl)
              | inr live ↦
                  let (blob, found) = spent_blob t x (prune now s) hit w.accounted in
                  delivers x blob hit found (rw (hit, right, own, live, found, redeem) refl)
            ]
          ]
        ]
      ]

  delivered-IsValid :
      (now : ℕ) (o t : Bytes) (x : TicketEntry) (blob : BlobEntry) (s : BlobStore)
      → get x.blob_id (remove_ticket t s).entries ≡ some blob
      → IsValid sha256 s
      → IsValid sha256 (record (remove_ticket t s) {
        entries =
            insert x.blob_id
              (record blob {
                last_access = now;
                delivered_owners = add_element o blob.delivered_owners;
              })
              (remove_ticket t s).entries;
      })
  delivered-IsValid now o t x blob s found v =
      replace-IsValid sha256 x.blob_id blob _ (remove_ticket t s) found refl refl (
        shrink-IsValid sha256 (remove_ticket-Shrinks t s)
          (remove_ticket-IsAccounted t s v.accounted) v)

  no_second_time :
      (later id : ℕ) (o t : Bytes) (s : BlobStore)
      → IsDistinct s.tickets
      → get t s.tickets ≡ none
      → (redeem later o id t s).1 ≡ failed invalid_or_expired
  unfolding redeem
  no_second_time later id o t s d gone = ground (arith, ticket_absent later t s d gone)

  -- From a valid store, `redeem` never finds that the blob of a ticket is gone, whoever calls it and
  -- when; it leaves a valid store; and after it has returned a blob, the ticket is worth nothing,
  -- to anyone and at any time.
  pub redeem_once :
      (now later id id' : ℕ) (o o' t : Bytes) (s : BlobStore)
      → IsValid sha256 s
      → (let result = redeem now o id t s in
          (result.1 ≢ failed evicted)
          × IsValid sha256 result.0
          × ((r : RedeemedBlob)
              → result.1 ≡ done r
              → (redeem later o' id' t result.0).1 ≡ failed invalid_or_expired))
  redeem_once now later id id' o o' t s v = elim (redeem-Redeems now id o t s v) [
    | refuses e ne p ↦ rw p (
      (λ q. ne (ground (arith, q))),
      prune-IsValid sha256 now s v,
      (λ r q. absurd (ground (arith, q))),
    )
    | delivers x blob hit found p ↦
        let w =
          delivered-IsValid now o t x blob (prune now s) found (prune-IsValid sha256 now s v) in
        rw p (
          (λ q. absurd (ground (arith, q))),
          w,
          (λ r q.
              no_second_time later id' o' t _ w.accounted.tickets_distinct
                (ground (arith, get-remove_ticket t t (prune now s)))),
        )
  ]
