-- ===== src/BlobStore/Tickets.antt =====
-- Tickets: valid until they expire or are used, and for the device that asked for them.
use arcrelay_protocol.Prelude.{
  ℕ, ◌<◌, ◌≡◌, refl, ap, ◌∙◌, false, none, some, List, [], ◌∷◌, arith, leb, if◌then◌else◌, Bytes,
  bytes_eq, bytes_discrete, nat_eq, same, Map, get, get-remove, is_some_and, contains, IsDistinct,
}
use arcrelay_protocol.BlobStore.{
  TicketEntry, BlobStore, remove_entry, discard_entry, remove_ticket, discard_ticket,
  remove_tickets, push_order, schedule_prune, expired_tickets, first_expiry, sweep_one, sweep,
  prune_due, prune,
}

pub get-remove_ticket :
    (t u : Bytes) (s : BlobStore)
    → get t (remove_ticket u s).tickets ≡ (if same t u then none else get t s.tickets)
unfolding remove_ticket discard_ticket
get-remove_ticket t u s = ground (arith, get-remove t u s.tickets)

get-remove_tickets :
    (t : Bytes) (ts : List Bytes) (s : BlobStore)
    → get t (remove_tickets ts s).tickets ≡ (if contains t ts then none else get t s.tickets)
unfolding remove_tickets contains
get-remove_tickets t [] s = refl
get-remove_tickets t (u ∷ ts) s =
    ground (arith, get-remove_tickets t ts (remove_ticket u s), get-remove_ticket t u s)

expired_absent :
    (now : ℕ) (t : Bytes) (m : Map Bytes TicketEntry)
    → get t m ≡ none
    → contains t (expired_tickets now m) ≡ false
unfolding expired_tickets contains get
expired_absent now t [] h = refl
expired_absent now t ((u, x) ∷ m) h = ground (arith, h, expired_absent now t m)

contains-expired_tickets :
    (now : ℕ) (t : Bytes) (m : Map Bytes TicketEntry)
    → IsDistinct m
    → contains t (expired_tickets now m) ≡ is_some_and (get t m) (λ x. leb x.expires_at now)
unfolding expired_tickets contains get
contains-expired_tickets now t [] d = refl
contains-expired_tickets now t ((u, x) ∷ m) d = elim (bytes_discrete t u) [
  | yes p ↦ ground (arith, d, p, expired_absent now u m)
  | no p ↦ ground (arith, d, p, contains-expired_tickets now t m d.1)
]

tickets-remove_entry : (b : Bytes) (s : BlobStore) → (remove_entry b s).tickets ≡ s.tickets
unfolding remove_entry discard_entry
tickets-remove_entry b s = ground arith

tickets-sweep_one : (now : ℕ) (b : Bytes) (s : BlobStore) → (sweep_one now b s).tickets ≡ s.tickets
unfolding sweep_one push_order schedule_prune
tickets-sweep_one now b s = ground (arith, tickets-remove_entry b s)

tickets-sweep :
    (now : ℕ) (order : List Bytes) (s : BlobStore) → (sweep now order s).tickets ≡ s.tickets
unfolding sweep
tickets-sweep now [] s = refl
tickets-sweep now (b ∷ order) s =
    tickets-sweep now order (sweep_one now b s) ∙ tickets-sweep_one now b s

tickets-prune_due :
    (now : ℕ) (t : Bytes) (s : BlobStore)
    → IsDistinct s.tickets
    → get t (prune_due now s).tickets ≡ (
        if is_some_and (get t s.tickets) (λ x. leb x.expires_at now) then none else get t s.tickets)
unfolding prune_due
tickets-prune_due now t s d =
    let s' = remove_tickets (expired_tickets now s.tickets) (record s { next_prune_at = none }) in
    ap (get t) (
      tickets-sweep now s'.insertion_order
        (record s' { next_prune_at = first_expiry s'.tickets; insertion_order = [] }))
    ∙ get-remove_tickets t (expired_tickets now s.tickets) (record s { next_prune_at = none })
    ∙ ap (λ b. if b then none else get t s.tickets) (contains-expired_tickets now t s.tickets d)

-- Pruning takes away tickets that have expired and no others.
pub ticket_kept :
    (now : ℕ) (t : Bytes) (x : TicketEntry) (s : BlobStore)
    → IsDistinct s.tickets
    → get t s.tickets ≡ some x
    → now < x.expires_at
    → get t (prune now s).tickets ≡ some x
unfolding prune
ticket_kept now t x s d h fresh = ground (arith, h, fresh, tickets-prune_due now t s d)

pub ticket_absent :
    (now : ℕ) (t : Bytes) (s : BlobStore)
    → IsDistinct s.tickets
    → get t s.tickets ≡ none
    → get t (prune now s).tickets ≡ none
unfolding prune
ticket_absent now t s d h = ground (arith, h, tickets-prune_due now t s d)
