-- ===== src/BlobStore/Shrinks.antt =====
-- What pruning and reclaiming can do to a store: only take away.
use arcrelay_protocol.Prelude.{
  inl, inr, ℕ, ◌≤◌, ◌≡◌, refl, ap, sym, ◌∙◌, not, none, some, List, [], ◌∷◌, arith, leb, ◌==◌,
  Bytes, bytes_eq, bytes_discrete, nat_eq, length, Map, get, insert, bytes, get-remove, get-insert,
  Option-cases, Bool-cases, is_some_and, contains, remove_element, value, value-decrement,
  decrement,
}
use arcrelay_protocol.Prelude.{length-remove-le, length-remove_present}
use arcrelay_protocol.BlobStore.{
  BlobEntry, BlobStore, owner_has_room, blob_has_ticket, forget_owners, remove_entry, discard_entry,
  remove_ticket, discard_ticket, remove_tickets, push_order, schedule_prune, disown, undeliver,
  reclaim_one, reclaim_candidates, reclaim_delivered_for_owner, expired_tickets, first_expiry,
  is_idle, sweep_one, sweep, prune_due, prune,
}

-- The second store holds no more than the first, and its blobs are blobs of the first.
pub record Shrinks (s t : BlobStore) : Type 0 where
  pub total : t.total_bytes ≤ s.total_bytes
  pub bytes : (d : Bytes) → value d t.device_bytes ≤ value d s.device_bytes
  pub entries : (d : Bytes) → value d t.device_entries ≤ value d s.device_entries
  pub tickets : (d : Bytes) → value d t.device_tickets ≤ value d s.device_tickets
  pub blobs : length t.entries ≤ length s.entries
  pub from :
      (k : Bytes) (e : BlobEntry)
      → get k t.entries ≡ some e
      → (e' : BlobEntry) × (get k s.entries ≡ some e') × (e.content ≡ e'.content)

pub same_store : (s : BlobStore) → Shrinks s s
same_store s = record {
  total = omega arith;
  bytes = λ d. omega arith;
  entries = λ d. omega arith;
  tickets = λ d. omega arith;
  blobs = omega arith;
  from = λ k e h. (e, h, refl);
}

pub trans : {a b c : BlobStore} → Shrinks a b → Shrinks b c → Shrinks a c
trans f g = record {
  total = omega (arith, f.total, g.total);
  bytes = λ d. omega (arith, f.bytes d, g.bytes d);
  entries = λ d. omega (arith, f.entries d, g.entries d);
  tickets = λ d. omega (arith, f.tickets d, g.tickets d);
  blobs = omega (arith, f.blobs, g.blobs);
  from = λ k e h.
      let (e', h', p) = g.from k e h in let (e'', h'', q) = f.from k e' h' in (e'', h'', p ∙ q);
}

-- Changes of the order, the tickets' other fields and the deadline.
same_counters :
    (s t : BlobStore)
    → t.total_bytes ≡ s.total_bytes
    → t.device_bytes ≡ s.device_bytes
    → t.device_entries ≡ s.device_entries
    → ((d : Bytes) → value d t.device_tickets ≤ value d s.device_tickets)
    → t.entries ≡ s.entries
    → Shrinks s t
same_counters s t a b c d e = record {
  total = omega (arith, a);
  bytes = λ x. omega (arith, ap (value x) b);
  entries = λ x. omega (arith, ap (value x) c);
  tickets = d;
  blobs = omega (arith, ap length e);
  from = λ k x h. (x, sym (ap (get k) e) ∙ h, refl);
}

forget_owners-le :
    (d : Bytes) (n : ℕ) (owners : List Bytes) (m : Map Bytes ℕ)
    → value d (forget_owners n owners m) ≤ value d m
unfolding forget_owners
forget_owners-le d n [] m = omega arith
forget_owners-le d n (o ∷ owners) m =
    ground (arith, forget_owners-le d n owners (decrement o n m), value-decrement d o n m)

pub remove_entry-Shrinks : (b : Bytes) (s : BlobStore) → Shrinks s (remove_entry b s)
unfolding remove_entry discard_entry
remove_entry-Shrinks b s = elim (Option-cases (get b s.entries)) [
  | inl miss ↦ rw (miss, remove_entry) (same_store s)
  | inr (e, hit) ↦
      rw (hit, remove_entry)
        (record {
          total = omega arith;
          bytes = λ d. forget_owners-le d (length e.content) e.owners s.device_bytes;
          entries = λ d. forget_owners-le d 1 e.owners s.device_entries;
          tickets = λ d. omega arith;
          blobs = length-remove-le b s.entries;
          from = λ k x h. (x, ground (arith, h, get-remove k b s.entries), refl);
        })
]

pub remove_ticket-Shrinks : (t : Bytes) (s : BlobStore) → Shrinks s (remove_ticket t s)
unfolding remove_ticket discard_ticket
remove_ticket-Shrinks t s = elim (Option-cases (get t s.tickets)) [
  | inl miss ↦ rw (miss, remove_ticket) (same_store s)
  | inr (x, hit) ↦
      rw (hit, remove_ticket)
        (same_counters s _ refl refl refl
          (λ d. ground (arith, value-decrement d x.owner 1 s.device_tickets)) refl)
]

-- An entry is replaced by one with the same content.
pub replace-Shrinks :
    (b : Bytes) (e e' : BlobEntry) (s : BlobStore)
    → get b s.entries ≡ some e
    → e'.content ≡ e.content
    → Shrinks s (record s { entries = insert b e' s.entries })
unfolding insert
replace-Shrinks b e e' s hit p = record {
  total = omega arith;
  bytes = λ d. omega arith;
  entries = λ d. omega arith;
  tickets = λ d. omega arith;
  blobs = omega (arith, length-remove_present b e s.entries hit);
  from = λ k x h. elim (bytes_discrete k b) [
    | yes q ↦ (e, ground (arith, q, hit), ground (arith, h, p, q, get-insert k b e' s.entries))
    | no q ↦ (x, ground (arith, h, q, get-insert k b e' s.entries), refl)
  ];
}

lower_counters :
    (s : BlobStore) (o : Bytes) (n : ℕ)
    → Shrinks s (record s {
      device_bytes = decrement o n s.device_bytes;
      device_entries = decrement o 1 s.device_entries;
    })
lower_counters s o n = record {
  total = omega arith;
  bytes = λ d. ground (arith, value-decrement d o n s.device_bytes);
  entries = λ d. ground (arith, value-decrement d o 1 s.device_entries);
  tickets = λ d. omega arith;
  blobs = omega arith;
  from = λ k e h. (e, h, refl);
}

push-Shrinks : (b : Bytes) (s : BlobStore) → Shrinks s (push_order b s)
unfolding push_order
push-Shrinks b s = same_counters s _ refl refl refl (λ d. omega arith) refl

disown-Shrinks :
    (o b : Bytes) (e : BlobEntry) (s : BlobStore)
    → get b s.entries ≡ some e
    → Shrinks s (disown o b e s)
unfolding disown
disown-Shrinks o b e s hit =
    trans
      (replace-Shrinks b e
        (record e {
          delivered_owners = remove_element o e.delivered_owners;
          owners = remove_element o e.owners;
        })
        s hit refl)
      (lower_counters _ o (length e.content))

reclaim_one-Shrinks : (o b : Bytes) (s : BlobStore) → Shrinks s (reclaim_one o b s)
unfolding reclaim_one undeliver
reclaim_one-Shrinks o b s = elim (Bool-cases (blob_has_ticket b s)) [
  | inl pinned ↦ rw (pinned, reclaim_one) (push-Shrinks b s)
  | inr free ↦ elim (Option-cases (get b s.entries)) [
    | inl miss ↦ rw (free, miss, reclaim_one) (same_store s)
    | inr (e, hit) ↦ elim (Bool-cases (not (contains o e.delivered_owners))) [
      | inl kept ↦ rw (free, hit, kept, reclaim_one) (push-Shrinks b s)
      | inr fetched ↦ elim (Bool-cases (not (contains o e.owners))) [
        | inl foreign ↦
            rw (free, hit, fetched, foreign, reclaim_one)
              (trans (replace-Shrinks b e _ s hit refl) (push-Shrinks b _))
        | inr own ↦ elim (Bool-cases (length (remove_element o e.owners) == 0)) [
          | inl last ↦
              rw (free, hit, fetched, own, last, reclaim_one)
                (trans (disown-Shrinks o b e s hit) (remove_entry-Shrinks b _))
          | inr shared ↦
              rw (free, hit, fetched, own, shared, reclaim_one)
                (trans (disown-Shrinks o b e s hit) (push-Shrinks b _))
        ]
      ]
    ]
  ]
]

reclaim_candidates-Shrinks :
    (o : Bytes) (bytes entries : ℕ) (candidates : List Bytes) (s : BlobStore)
    → Shrinks s (reclaim_candidates o bytes entries candidates s)
unfolding reclaim_candidates
reclaim_candidates-Shrinks o bytes entries [] s = same_store s
reclaim_candidates-Shrinks o bytes entries (b ∷ candidates) s =
    elim (Bool-cases (owner_has_room o bytes entries s)) [
      | inl room ↦ rw room (same_counters s _ refl refl refl (λ d. omega arith) refl)
      | inr tight ↦ rw tight (
          trans (reclaim_one-Shrinks o b s)
            (reclaim_candidates-Shrinks o bytes entries candidates (reclaim_one o b s)))
    ]

pub reclaim-Shrinks :
    (o : Bytes) (bytes entries : ℕ) (s : BlobStore)
    → Shrinks s (reclaim_delivered_for_owner o bytes entries s)
unfolding reclaim_delivered_for_owner
reclaim-Shrinks o bytes entries s = elim (Bool-cases (owner_has_room o bytes entries s)) [
  | inl room ↦ rw (room, reclaim_delivered_for_owner) (same_store s)
  | inr tight ↦
      rw (tight, reclaim_delivered_for_owner)
        (trans
          (same_counters s (record s { insertion_order = [] }) refl refl refl (λ d. omega arith)
            refl)
          (reclaim_candidates-Shrinks o bytes entries s.insertion_order _))
]

remove_tickets-Shrinks : (ts : List Bytes) (s : BlobStore) → Shrinks s (remove_tickets ts s)
unfolding remove_tickets
remove_tickets-Shrinks [] s = same_store s
remove_tickets-Shrinks (t ∷ ts) s = trans (remove_ticket-Shrinks t s) (remove_tickets-Shrinks ts _)

sweep_one-Shrinks : (now : ℕ) (b : Bytes) (s : BlobStore) → Shrinks s (sweep_one now b s)
unfolding sweep_one schedule_prune
sweep_one-Shrinks now b s = elim (Bool-cases (is_idle now b s)) [
  | inl idle ↦ rw (idle, sweep_one) (remove_entry-Shrinks b s)
  | inr active ↦ elim (Bool-cases (blob_has_ticket b s)) [
    | inl pinned ↦ rw (active, pinned, sweep_one) (push-Shrinks b s)
    | inr free ↦ elim (Option-cases (get b s.entries)) [
      | inl miss ↦ rw (active, free, miss, sweep_one) (push-Shrinks b s)
      | inr (e, hit) ↦
          rw (active, free, hit, sweep_one)
            (trans (same_counters s _ refl refl refl (λ d. omega arith) refl) (push-Shrinks b _))
    ]
  ]
]

sweep-Shrinks : (now : ℕ) (order : List Bytes) (s : BlobStore) → Shrinks s (sweep now order s)
unfolding sweep
sweep-Shrinks now [] s = same_store s
sweep-Shrinks now (b ∷ order) s = trans (sweep_one-Shrinks now b s) (sweep-Shrinks now order _)

pub prune-Shrinks : (now : ℕ) (s : BlobStore) → Shrinks s (prune now s)
unfolding prune prune_due
prune-Shrinks now s =
    elim (Bool-cases (is_some_and s.next_prune_at (λ deadline. leb deadline now))) [
      | inr early ↦ rw (early, prune) (same_store s)
      | inl due ↦
          let s' =
            remove_tickets (expired_tickets now s.tickets) (record s { next_prune_at = none }) in
          let start : Shrinks s (record s { next_prune_at = none }) =
            same_counters s _ refl refl refl (λ d. omega arith) refl in
          let cleared =
            same_counters s'
              (record s' { next_prune_at = first_expiry s'.tickets; insertion_order = [] }) refl
              refl refl (λ d. omega arith) refl in
          rw (due, prune)
            (trans start (
              trans (remove_tickets-Shrinks (expired_tickets now s.tickets) _)
                (trans cleared (sweep-Shrinks now s'.insertion_order _))))
    ]
