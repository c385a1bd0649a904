-- ===== src/BlobStore/Reclaim.antt =====
-- Pruning, and the reclaiming of blobs that a device has fetched, against the counters.
use arcrelay_protocol.Prelude.{
  inl, inr, ◌⊎◌, ℕ, ◌≤◌, ◌≡◌, refl, ◌∙◌, true, false, not, none, some, List, [], ◌∷◌, ◌++◌, arith,
  leb, ◌==◌, if◌then◌else◌, Bytes, bytes_eq, nat_eq, same, length, count, get, insert, bytes,
  present, get-insert, Option-cases, Bool-cases, is_some_and, contains, contains-count,
  remove_element, count-remove_element, value-decrement, insert-IsDistinct, sum_by-remove,
  sum_by-insert,
}
use arcrelay_protocol.BlobStore.{
  BlobEntry, BlobStore, owner_has_room, blob_has_ticket, remove_entry, remove_tickets, push_order,
  schedule_prune, disown, undeliver, reclaim_one, reclaim_candidates, reclaim_delivered_for_owner,
  expired_tickets, first_expiry, is_idle, sweep_one, sweep, prune_due, prune,
}
use arcrelay_protocol.BlobStore.Accounting.{
  IsAccounted, size_of, owned_bytes, owned_one, remove_entry-IsAccounted, remove_ticket-IsAccounted,
  reorder-IsAccounted,
}

push-IsAccounted : (b : Bytes) (s : BlobStore) → IsAccounted s → IsAccounted (push_order b s)
unfolding push_order
push-IsAccounted b s a = reorder-IsAccounted (s.insertion_order ++ b ∷ []) s.next_prune_at s a

-- A blob whose content and owners stay as they were.
pub replace-IsAccounted :
    (b : Bytes) (e e' : BlobEntry) (s : BlobStore)
    → get b s.entries ≡ some e
    → e'.content ≡ e.content
    → e'.owners ≡ e.owners
    → IsAccounted s
    → IsAccounted (record s { entries = insert b e' s.entries })
unfolding present
replace-IsAccounted b e e' s hit p q a = record {
  distinct = insert-IsDistinct b e' s.entries a.distinct;
  tickets_distinct = a.tickets_distinct;
  total = ground (
    arith,
    p,
    a.total,
    sum_by-insert size_of b e' s.entries,
    sum_by-remove size_of b e s.entries a.distinct hit,
  );
  bytes_of = λ d. ground (
    arith,
    p,
    q,
    a.bytes_of d,
    sum_by-insert (owned_bytes d) b e' s.entries,
    sum_by-remove (owned_bytes d) b e s.entries a.distinct hit,
  );
  entries_of = λ d. ground (
    arith,
    p,
    q,
    a.entries_of d,
    sum_by-insert (owned_one d) b e' s.entries,
    sum_by-remove (owned_one d) b e s.entries a.distinct hit,
  );
  blob_tickets_of = a.blob_tickets_of;
  device_tickets_of = a.device_tickets_of;
  owner_sets = λ k x h d.
      let old : get k s.entries ≡ some x → count d x.owners ≤ 1 = λ g. a.owner_sets k x g d in
      ground (arith, h, q, get-insert k b e' s.entries, a.owner_sets b e hit d, old);
  pinned = λ t x h. ground (arith, a.pinned t x h, get-insert x.blob_id b e' s.entries);
  few_tickets = a.few_tickets;
}

contains-remove_element :
    (d o : Bytes) (xs : List Bytes)
    → contains d (remove_element o xs) ≡ (if same d o then false else contains d xs)
contains-remove_element d o xs = ground (
  arith,
  contains-count d (remove_element o xs),
  contains-count d xs,
  count-remove_element d o xs,
)

disown-IsAccounted :
    (o b : Bytes) (e : BlobEntry) (s : BlobStore)
    → get b s.entries ≡ some e
    → contains o e.owners ≡ true
    → IsAccounted s
    → IsAccounted (disown o b e s)
unfolding disown present
disown-IsAccounted o b e s hit own a =
    let e' : BlobEntry = record e {
      delivered_owners = remove_element o e.delivered_owners;
      owners = remove_element o e.owners;
    } in
    record {
      distinct = insert-IsDistinct b e' s.entries a.distinct;
      tickets_distinct = a.tickets_distinct;
      total = ground (
        arith,
        a.total,
        sum_by-insert size_of b e' s.entries,
        sum_by-remove size_of b e s.entries a.distinct hit,
      );
      bytes_of = λ d. ground (
        arith,
        own,
        a.bytes_of d,
        value-decrement d o (length e.content) s.device_bytes,
        contains-remove_element d o e.owners,
        sum_by-insert (owned_bytes d) b e' s.entries,
        sum_by-remove (owned_bytes d) b e s.entries a.distinct hit,
      );
      entries_of = λ d. ground (
        arith,
        own,
        a.entries_of d,
        value-decrement d o 1 s.device_entries,
        contains-remove_element d o e.owners,
        sum_by-insert (owned_one d) b e' s.entries,
        sum_by-remove (owned_one d) b e s.entries a.distinct hit,
      );
      blob_tickets_of = a.blob_tickets_of;
      device_tickets_of = a.device_tickets_of;
      owner_sets = λ k x h d.
          let old : get k s.entries ≡ some x → count d x.owners ≤ 1 = λ g. a.owner_sets k x g d in
          ground (
            arith,
            h,
            get-insert k b e' s.entries,
            a.owner_sets b e hit d,
            old,
            count-remove_element d o e.owners,
          );
      pinned = λ t x h. ground (arith, a.pinned t x h, get-insert x.blob_id b e' s.entries);
      few_tickets = a.few_tickets;
    }

has_ticket-disown :
    (o b c : Bytes) (e : BlobEntry) (s : BlobStore)
    → blob_has_ticket c (disown o b e s) ≡ blob_has_ticket c s
unfolding disown blob_has_ticket
has_ticket-disown o b c e s = refl

reclaim_one-IsAccounted :
    (o b : Bytes) (s : BlobStore) → IsAccounted s → IsAccounted (reclaim_one o b s)
unfolding reclaim_one undeliver
reclaim_one-IsAccounted o b s a = elim (Bool-cases (blob_has_ticket b s)) [
  | inl pinned ↦ rw (pinned, reclaim_one) (push-IsAccounted b s a)
  | inr free ↦ elim (Option-cases (get b s.entries)) [
    | inl miss ↦ rw (free, miss, reclaim_one) a
    | inr (e, hit) ↦ elim (Bool-cases (not (contains o e.delivered_owners))) [
      | inl kept ↦ rw (free, hit, kept, reclaim_one) (push-IsAccounted b s a)
      | inr fetched ↦ elim (Bool-cases (not (contains o e.owners))) [
        | inl foreign ↦
            rw (free, hit, fetched, foreign, reclaim_one)
              (push-IsAccounted b _ (replace-IsAccounted b e _ s hit refl refl a))
        | inr own ↦
            let owns : contains o e.owners ≡ true = ground arith in
            let next = disown-IsAccounted o b e s hit owns a in
            elim (Bool-cases (length (remove_element o e.owners) == 0)) [
              | inl last ↦
                  rw (free, hit, fetched, own, last, reclaim_one)
                    (remove_entry-IsAccounted b (disown o b e s)
                      (has_ticket-disown o b b e s ∙ free) next)
              | inr shared ↦
                  rw (free, hit, fetched, own, shared, reclaim_one) (push-IsAccounted b _ next)
            ]
      ]
    ]
  ]
]

reclaim_candidates-IsAccounted :
    (o : Bytes) (bytes entries : ℕ) (candidates : List Bytes) (s : BlobStore)
    → IsAccounted s
    → IsAccounted (reclaim_candidates o bytes entries candidates s)
unfolding reclaim_candidates
reclaim_candidates-IsAccounted o bytes entries [] s a = a
reclaim_candidates-IsAccounted o bytes entries (b ∷ candidates) s a =
    elim (Bool-cases (owner_has_room o bytes entries s)) [
      | inl room ↦ rw room (reorder-IsAccounted _ s.next_prune_at s a)
      | inr tight ↦ rw tight (
          reclaim_candidates-IsAccounted o bytes entries candidates _
            (reclaim_one-IsAccounted o b s a))
    ]

pub reclaim-IsAccounted :
    (o : Bytes) (bytes entries : ℕ) (s : BlobStore)
    → IsAccounted s
    → IsAccounted (reclaim_delivered_for_owner o bytes entries s)
unfolding reclaim_delivered_for_owner
reclaim-IsAccounted o bytes entries s a = elim (Bool-cases (owner_has_room o bytes entries s)) [
  | inl room ↦ rw (room, reclaim_delivered_for_owner) a
  | inr tight ↦
      rw (tight, reclaim_delivered_for_owner)
        (reclaim_candidates-IsAccounted o bytes entries s.insertion_order _
          (reorder-IsAccounted [] s.next_prune_at s a))
]

remove_tickets-IsAccounted :
    (ts : List Bytes) (s : BlobStore) → IsAccounted s → IsAccounted (remove_tickets ts s)
unfolding remove_tickets
remove_tickets-IsAccounted [] s a = a
remove_tickets-IsAccounted (t ∷ ts) s a =
    remove_tickets-IsAccounted ts _ (remove_ticket-IsAccounted t s a)

-- A blob that is idle has no ticket, if it is there at all.
idle_free :
    (now : ℕ) (b : Bytes) (s : BlobStore)
    → is_idle now b s ≡ true
    → (get b s.entries ≡ none) ⊎ (blob_has_ticket b s ≡ false)
unfolding is_idle
idle_free now b s h = elim (Option-cases (get b s.entries)) [
  | inl miss ↦ inl miss
  | inr (e, hit) ↦ inr (ground (arith, hit, h))
]

sweep_one-IsAccounted :
    (now : ℕ) (b : Bytes) (s : BlobStore) → IsAccounted s → IsAccounted (sweep_one now b s)
unfolding sweep_one remove_entry schedule_prune
sweep_one-IsAccounted now b s a = elim (Bool-cases (is_idle now b s)) [
  | inl idle ↦ elim (idle_free now b s idle) [
    | inl miss ↦ rw (idle, miss, sweep_one, remove_entry) a
    | inr free ↦ rw (idle, sweep_one) (remove_entry-IsAccounted b s free a)
  ]
  | inr active ↦ elim (Bool-cases (blob_has_ticket b s)) [
    | inl pinned ↦ rw (active, pinned, sweep_one) (push-IsAccounted b s a)
    | inr free ↦ elim (Option-cases (get b s.entries)) [
      | inl miss ↦ rw (active, free, miss, sweep_one) (push-IsAccounted b s a)
      | inr (e, hit) ↦
          rw (active, free, hit, sweep_one)
            (push-IsAccounted b _ (reorder-IsAccounted s.insertion_order _ s a))
    ]
  ]
]

sweep-IsAccounted :
    (now : ℕ) (order : List Bytes) (s : BlobStore) → IsAccounted s → IsAccounted (sweep now order s)
unfolding sweep
sweep-IsAccounted now [] s a = a
sweep-IsAccounted now (b ∷ order) s a =
    sweep-IsAccounted now order _ (sweep_one-IsAccounted now b s a)

pub prune-IsAccounted : (now : ℕ) (s : BlobStore) → IsAccounted s → IsAccounted (prune now s)
unfolding prune prune_due
prune-IsAccounted now s a =
    elim (Bool-cases (is_some_and s.next_prune_at (λ deadline. leb deadline now))) [
      | inr early ↦ rw (early, prune) a
      | inl due ↦
          let removed =
            remove_tickets-IsAccounted (expired_tickets now s.tickets) _
              (reorder-IsAccounted s.insertion_order none s a) in
          let s' =
            remove_tickets (expired_tickets now s.tickets) (record s { next_prune_at = none }) in
          rw (due, prune)
            (sweep-IsAccounted now s'.insertion_order _
              (reorder-IsAccounted [] (first_expiry s'.tickets) s' removed))
    ]
