-- ===== src/BlobStore/Accounting.antt =====
-- The counters of the blob store against its entries and tickets, and the removals.
use arcrelay_protocol.Prelude.{
  inl, inr, ℕ, ◌-◌, ◌≤◌, ◌≡◌, ◌≢◌, refl, false, Option, some, List, [], ◌∷◌, arith, if◌then◌else◌,
  Bytes, bytes_eq, nat_eq, same, length, count, Map, get, present, get-remove, Option-cases,
  contains, contains-count, value, value-decrement, exceeds-eq-ltb, decrement, IsDistinct,
  remove-IsDistinct, sum_by, sum_by-remove, length-remove,
}
use arcrelay_protocol.BlobStore.{
  BlobEntry, TicketEntry, BlobStore, blob_has_ticket, forget_owners, discard_entry, remove_entry,
  discard_ticket, remove_ticket, new, max_outstanding_tickets,
}

abbrev pub size_of : Bytes → BlobEntry → ℕ
size_of k e = length e.content

-- What an entry costs a device.
abbrev pub owned_bytes : Bytes → Bytes → BlobEntry → ℕ
owned_bytes d k e = if contains d e.owners then length e.content else 0

abbrev pub owned_one : Bytes → Bytes → BlobEntry → ℕ
owned_one d k e = if contains d e.owners then 1 else 0

abbrev pub ticket_of_blob : Bytes → Bytes → TicketEntry → ℕ
ticket_of_blob b k t = if same b t.blob_id then 1 else 0

abbrev pub ticket_of_device : Bytes → Bytes → TicketEntry → ℕ
ticket_of_device d k t = if same d t.owner then 1 else 0

pub record IsAccounted (s : BlobStore) : Type 0 where
  pub distinct : IsDistinct s.entries
  pub tickets_distinct : IsDistinct s.tickets
  pub total : s.total_bytes ≡ sum_by size_of s.entries
  pub bytes_of : (d : Bytes) → value d s.device_bytes ≡ sum_by (owned_bytes d) s.entries
  pub entries_of : (d : Bytes) → value d s.device_entries ≡ sum_by (owned_one d) s.entries
  pub blob_tickets_of : (b : Bytes) → value b s.blob_tickets ≡ sum_by (ticket_of_blob b) s.tickets
  pub device_tickets_of :
      (d : Bytes) → value d s.device_tickets ≡ sum_by (ticket_of_device d) s.tickets
  pub owner_sets :
      (k : Bytes) (e : BlobEntry) → get k s.entries ≡ some e → (d : Bytes) → count d e.owners ≤ 1
  -- The blob of a ticket is there.
  pub pinned :
      (t : Bytes) (x : TicketEntry) → get t s.tickets ≡ some x → present x.blob_id s.entries ≡ 1
  pub few_tickets : length s.tickets ≤ max_outstanding_tickets

pub new-IsAccounted : IsAccounted new
unfolding value sum_by get
new-IsAccounted = record {
  distinct = tt;
  tickets_distinct = tt;
  total = refl;
  bytes_of = λ d. refl;
  entries_of = λ d. refl;
  blob_tickets_of = λ d. refl;
  device_tickets_of = λ d. refl;
  owner_sets = λ k e h. absurd (ground (arith, h));
  pinned = λ t x h. absurd (ground (arith, h));
  few_tickets = omega arith;
}

value-forget_owners :
    (d : Bytes) (n : ℕ) (owners : List Bytes) (m : Map Bytes ℕ)
    → count d owners ≤ 1
    → value d (forget_owners n owners m) ≡ (if contains d owners then value d m - n else value d m)
unfolding forget_owners contains count
value-forget_owners d n [] m h = refl
value-forget_owners d n (o ∷ owners) m h = ground (
  arith,
  h,
  value-forget_owners d n owners (decrement o n m),
  value-decrement d o n m,
  contains-count d owners,
)

-- A blob without tickets is pinned by none.
no_ticket :
    (b t : Bytes) (x : TicketEntry) (s : BlobStore)
    → IsAccounted s
    → blob_has_ticket b s ≡ false
    → get t s.tickets ≡ some x
    → x.blob_id ≢ b
unfolding blob_has_ticket
no_ticket b t x s a free h p = absurd (
    ground (
      arith,
      p,
      free,
      exceeds-eq-ltb 0 b s.blob_tickets,
      a.blob_tickets_of b,
      sum_by-remove (ticket_of_blob b) t x s.tickets a.tickets_distinct h,
    ))

pub discard_entry-IsAccounted :
    (b : Bytes) (e : BlobEntry) (s : BlobStore)
    → blob_has_ticket b s ≡ false
    → get b s.entries ≡ some e
    → IsAccounted s
    → IsAccounted (discard_entry b e s)
unfolding discard_entry present
discard_entry-IsAccounted b e s free hit a = record {
  distinct = remove-IsDistinct b s.entries a.distinct;
  tickets_distinct = a.tickets_distinct;
  total = omega (arith, a.total, sum_by-remove size_of b e s.entries a.distinct hit);
  bytes_of = λ d. ground (
    arith,
    a.bytes_of d,
    sum_by-remove (owned_bytes d) b e s.entries a.distinct hit,
    value-forget_owners d (length e.content) e.owners s.device_bytes (a.owner_sets b e hit d),
  );
  entries_of = λ d. ground (
    arith,
    a.entries_of d,
    sum_by-remove (owned_one d) b e s.entries a.distinct hit,
    value-forget_owners d 1 e.owners s.device_entries (a.owner_sets b e hit d),
  );
  blob_tickets_of = a.blob_tickets_of;
  device_tickets_of = a.device_tickets_of;
  owner_sets = λ k x h. a.owner_sets k x (ground (arith, h, get-remove k b s.entries));
  pinned = λ t x h.
      ground (arith, a.pinned t x h, get-remove x.blob_id b s.entries, no_ticket b t x s a free h);
  few_tickets = a.few_tickets;
}

pub remove_entry-IsAccounted :
    (b : Bytes) (s : BlobStore)
    → blob_has_ticket b s ≡ false
    → IsAccounted s
    → IsAccounted (remove_entry b s)
unfolding remove_entry
remove_entry-IsAccounted b s free a = elim (Option-cases (get b s.entries)) [
  | inl miss ↦ rw (miss, remove_entry) a
  | inr (e, hit) ↦ rw (hit, remove_entry) (discard_entry-IsAccounted b e s free hit a)
]

pub discard_ticket-IsAccounted :
    (t : Bytes) (x : TicketEntry) (s : BlobStore)
    → get t s.tickets ≡ some x
    → IsAccounted s
    → IsAccounted (discard_ticket t x s)
unfolding discard_ticket
discard_ticket-IsAccounted t x s hit a = record {
  distinct = a.distinct;
  tickets_distinct = remove-IsDistinct t s.tickets a.tickets_distinct;
  total = a.total;
  bytes_of = a.bytes_of;
  entries_of = a.entries_of;
  blob_tickets_of = λ b. ground (
    arith,
    a.blob_tickets_of b,
    value-decrement b x.blob_id 1 s.blob_tickets,
    sum_by-remove (ticket_of_blob b) t x s.tickets a.tickets_distinct hit,
  );
  device_tickets_of = λ d. ground (
    arith,
    a.device_tickets_of d,
    value-decrement d x.owner 1 s.device_tickets,
    sum_by-remove (ticket_of_device d) t x s.tickets a.tickets_distinct hit,
  );
  owner_sets = a.owner_sets;
  pinned = λ u y h. a.pinned u y (ground (arith, h, get-remove u t s.tickets));
  few_tickets = omega (arith, a.few_tickets, length-remove t x s.tickets a.tickets_distinct hit);
}

pub remove_ticket-IsAccounted :
    (t : Bytes) (s : BlobStore) → IsAccounted s → IsAccounted (remove_ticket t s)
unfolding remove_ticket
remove_ticket-IsAccounted t s a = elim (Option-cases (get t s.tickets)) [
  | inl miss ↦ rw (miss, remove_ticket) a
  | inr (x, hit) ↦ rw (hit, remove_ticket) (discard_ticket-IsAccounted t x s hit a)
]

-- A change of the entries of one blob that keeps its content and its budget lines in step.
pub reorder-IsAccounted :
    (order : List Bytes) (deadline : Option ℕ) (s : BlobStore)
    → IsAccounted s
    → IsAccounted (record s { insertion_order = order; next_prune_at = deadline })
reorder-IsAccounted order deadline s a = record {
  distinct = a.distinct;
  tickets_distinct = a.tickets_distinct;
  total = a.total;
  bytes_of = a.bytes_of;
  entries_of = a.entries_of;
  blob_tickets_of = a.blob_tickets_of;
  device_tickets_of = a.device_tickets_of;
  owner_sets = a.owner_sets;
  pinned = a.pinned;
  few_tickets = a.few_tickets;
}
