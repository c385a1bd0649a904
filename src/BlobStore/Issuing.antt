-- ===== src/BlobStore/Issuing.antt =====
-- `issue_ticket`, and the way from a ticket to the content.
use arcrelay_protocol.Prelude.{
  inl, inr, ℕ, ◌+◌, ◌≤◌, ◌<◌, ◌≡◌, refl, subst, true, false, not, none, some, List, [], ◌∷◌, arith,
  Bytes, bytes_eq, nat_eq, get, insert, u64_max, present, get-insert, Option-cases, Bool-cases,
  remove_absent, contains, value, value-increment, insert-IsDistinct, sum_by-insert, sum_by-le,
  length-sum_by, length-insert_absent,
}
use arcrelay_protocol.Prelude.{u64_max}
use arcrelay_protocol.BlobStore.{
  BlobEntry, TicketEntry, BlobStore, schedule_prune, prune, ticket_ttl,
}
use arcrelay_protocol.BlobStore.Operations.{
  Outcome, done, failed, RedeemedBlob, BlobTicket, touch, store_ticket, tickets_exhausted,
  draw_ticket, draw_transfer_id, issue_ticket, redeem,
}
use arcrelay_protocol.BlobStore.Accounting.{ticket_of_blob, ticket_of_device}
use arcrelay_protocol.BlobStore.Validity.{IsValid, prune-IsValid, replace-IsValid}
use arcrelay_protocol.BlobStore.Tickets.{ticket_kept}
use arcrelay_protocol.BlobStore.Redemption.{redeemed}

module _ (sha256 : Bytes → Bytes) where
  ticket-IsValid :
      (now id : ℕ) (t o b : Bytes) (s : BlobStore)
      → get t s.tickets ≡ none
      → present b s.entries ≡ 1
      → tickets_exhausted o s ≡ false
      → IsValid sha256 s
      → IsValid sha256 (store_ticket now id t o b s)
  unfolding store_ticket tickets_exhausted schedule_prune
  ticket-IsValid now id t o b s fresh there room v =
      let a = v.accounted in
      let x : TicketEntry = record {
        transfer_id = id;
        blob_id = b;
        owner = o;
        expires_at = now + ticket_ttl;
      } in
      let gone = remove_absent t s.tickets fresh in
      let few = sum_by-le (ticket_of_blob b) (λ _ _. 1) (λ k y. ground arith) s.tickets in
      let blob_room : value b s.blob_tickets + 1 ≤ u64_max =
        omega (arith, few, a.blob_tickets_of b, length-sum_by s.tickets, a.few_tickets) in
      record {
        accounted = record {
          distinct = a.distinct;
          tickets_distinct = insert-IsDistinct t x s.tickets a.tickets_distinct;
          total = a.total;
          bytes_of = a.bytes_of;
          entries_of = a.entries_of;
          blob_tickets_of = λ c. ground (
            arith,
            gone,
            a.blob_tickets_of c,
            value-increment c b 1 s.blob_tickets blob_room,
            sum_by-insert (ticket_of_blob c) t x s.tickets,
          );
          device_tickets_of = λ d. ground (
            arith,
            gone,
            a.device_tickets_of d,
            value-increment d o 1 s.device_tickets (omega (arith, v.tickets o)),
            sum_by-insert (ticket_of_device d) t x s.tickets,
          );
          owner_sets = a.owner_sets;
          pinned = λ u y h. ground (arith, h, there, get-insert u t x s.tickets, a.pinned u y);
          few_tickets = ground (arith, room, length-insert_absent t x s.tickets fresh);
        };
        total = v.total;
        blobs = v.blobs;
        bytes = v.bytes;
        entries = v.entries;
        tickets = λ d. ground (
          arith,
          room,
          v.tickets d,
          value-increment d o 1 s.device_tickets (omega (arith, v.tickets o)),
        );
        digests = v.digests;
      }

  fresh-draw_ticket :
      (draws : List Bytes) (t : Bytes) (s : BlobStore)
      → draw_ticket draws s ≡ some t
      → get t s.tickets ≡ none
  unfolding draw_ticket
  fresh-draw_ticket [] t s h = absurd (ground (arith, h))
  fresh-draw_ticket (draw ∷ draws) t s h = elim (Option-cases (get draw s.tickets)) [
    | inl miss ↦ ground (arith, miss, h)
    | inr (x, hit) ↦ ground (arith, hit, h, fresh-draw_ticket draws t s)
  ]

  -- A ticket has been issued: to an owner of the blob, under a new text, within the limits.
  record Issued (now : ℕ) (o b : Bytes) (s after : BlobStore) (k : BlobTicket) : Type 0 where
    entry : BlobEntry
    hit : get b (prune now s).entries ≡ some entry
    own : contains o entry.owners ≡ true
    room : tickets_exhausted o (touch now b entry (prune now s)) ≡ false
    fresh : get k.ticket (prune now s).tickets ≡ none
    stored : after ≡ store_ticket now k.transfer_id k.ticket o b (touch now b entry (prune now s))

  issued :
      (now : ℕ) (ids : List ℕ) (texts : List Bytes) (o b : Bytes) (s after : BlobStore)
      (k : BlobTicket)
      → issue_ticket now ids texts o b s ≡ some (after, done k)
      → Issued now o b s after k
  unfolding issue_ticket
  issued now ids texts o b s after k h =
      let pruned = prune now s in
      elim (Option-cases (get b pruned.entries)) [
        | inl miss ↦ absurd (ground (arith, miss, h))
        | inr (e, hit) ↦
            let touched = touch now b e pruned in
            elim (Option-cases (draw_transfer_id ids touched)) [
              | inl none_left ↦ absurd (ground (arith, hit, none_left, h))
              | inr (id, drawn) ↦ elim (Option-cases (draw_ticket texts touched)) [
                | inl no_text ↦ absurd (ground (arith, hit, drawn, no_text, h))
                | inr (t, text) ↦ record {
                  entry = e;
                  hit = hit;
                  own = ground (arith, hit, drawn, text, h);
                  room = ground (arith, hit, drawn, text, h);
                  fresh =
                      unfold touch in
                      ground (arith, hit, drawn, text, h, fresh-draw_ticket texts t touched);
                  stored = ground (arith, hit, drawn, text, h);
                }
              ]
            ]
      ]

  Issued-IsValid :
      (now : ℕ) (o b : Bytes) (s after : BlobStore) (k : BlobTicket)
      → Issued now o b s after k
      → IsValid sha256 s
      → IsValid sha256 after
  unfolding touch
  Issued-IsValid now o b s after k i v =
      let e' : BlobEntry = record i.entry { last_access = now } in
      let touched =
        replace-IsValid sha256 b i.entry e' (prune now s) i.hit refl refl
          (prune-IsValid sha256 now s v) in
      rw i.stored (
        ticket-IsValid now k.transfer_id k.ticket o b _ i.fresh
          (unfold present in ground (arith, get-insert b b e' (prune now s).entries)) i.room
          touched)

  -- A ticket that has been issued from a valid store can be redeemed, by the device it was issued to,
  -- until 30 seconds later; what comes is the content whose SHA-256 the device asked for.
  pub redeem-issue_ticket :
      (now later : ℕ) (ids : List ℕ) (texts : List Bytes) (o b : Bytes) (s after : BlobStore)
      (k : BlobTicket)
      → IsValid sha256 s
      → issue_ticket now ids texts o b s ≡ some (after, done k)
      → later < now + ticket_ttl
      → (r : RedeemedBlob) × ((redeem later o k.transfer_id k.ticket after).1 ≡ done r)
        × (sha256 r.content ≡ b)
  redeem-issue_ticket now later ids texts o b s after k v h soon =
      let i = issued now ids texts o b s after k h in
      let w = Issued-IsValid now o b s after k i v in
      let x : TicketEntry = record {
        transfer_id = k.transfer_id;
        blob_id = b;
        owner = o;
        expires_at = now + ticket_ttl;
      } in
      let stands : get k.ticket after.tickets ≡ some x = rw i.stored (
        unfold store_ticket in
        unfold schedule_prune in
        unfold touch in ground (arith, get-insert k.ticket k.ticket x (prune now s).tickets)) in
      redeemed sha256 later o k.ticket x after
        (ticket_kept later k.ticket x after w.accounted.tickets_distinct stands soon) refl soon w

  -- Asking for a ticket, whatever comes of it, leaves a valid store.
  pub issue_ticket-IsValid :
      (now : ℕ) (ids : List ℕ) (texts : List Bytes) (o b : Bytes) (s after : BlobStore)
      (out : Outcome BlobTicket)
      → IsValid sha256 s
      → issue_ticket now ids texts o b s ≡ some (after, out)
      → IsValid sha256 after
  unfolding issue_ticket touch
  issue_ticket-IsValid now ids texts o b s after (done k) v h =
      Issued-IsValid now o b s after k (issued now ids texts o b s after k h) v
  issue_ticket-IsValid now ids texts o b s after (failed e) v h =
      let w = prune-IsValid sha256 now s v in
      elim (Option-cases (get b (prune now s).entries)) [
        | inl miss ↦ subst (IsValid sha256) (ground (arith, miss, h)) w
        | inr (x, hit) ↦ elim (Bool-cases (not (contains o x.owners))) [
          | inl foreign ↦ subst (IsValid sha256) (ground (arith, hit, foreign, h)) w
          | inr own ↦
              let x' : BlobEntry = record x { last_access = now } in
              let touched : after
                  ≡ record (prune now s) { entries = insert b x' (prune now s).entries } =
                ground (arith, hit, own, h) in
              rw touched (replace-IsValid sha256 b x x' (prune now s) hit refl refl w)
        ]
      ]
