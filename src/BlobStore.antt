-- ===== src/BlobStore.antt =====
-- src/server/blob_store.rs: blobs that the host offers to devices, and the tickets to fetch them.
-- SHA-256 is a parameter, the random draws of a ticket are lists, and `Instant::now()` is an argument
-- of each call, in milliseconds.
pub mod Operations
pub mod Accounting
pub mod Reclaim
pub mod Shrinks
pub mod Kept
pub mod Validity
pub mod Insertion
pub mod Tickets
pub mod Redemption
pub mod Issuing
pub mod Examples
use arcrelay_protocol.Prelude.{
  ◌⊎◌, ℕ, suc, zero, ◌+◌, ◌-◌, ◌≤◌, ◌<◌, ◌≡◌, ◌≢◌, ◌∙◌, Bool, true, false, not, ◌||◌, ◌&&◌, Option,
  none, some, List, [], ◌∷◌, ◌++◌, arith, leb, ◌==◌, if◌then◌else◌, Bytes, bytes_eq, nat_eq, length,
  Map, get, remove, insert, bytes, ◌%◌, ◌*◌, is_some_and, contains, remove_element, value, exceeds,
  decrement, saturating_add,
}
use arcrelay_protocol.Prelude.{min}

abbrev pub max_cached_blob_bytes : ℕ
max_cached_blob_bytes = 67108864

abbrev pub max_cached_blob_bytes_per_device : ℕ
max_cached_blob_bytes_per_device = 33554432

abbrev pub max_cached_blobs : ℕ
max_cached_blobs = 4096

abbrev pub max_cached_blobs_per_device : ℕ
max_cached_blobs_per_device = 1024

abbrev pub max_outstanding_tickets : ℕ
max_outstanding_tickets = 4096

abbrev pub max_outstanding_tickets_per_device : ℕ
max_outstanding_tickets_per_device = 128

abbrev pub blob_idle_ttl : ℕ
blob_idle_ttl = 300000

abbrev pub ticket_ttl : ℕ
ticket_ttl = 30000

pub record BlobRef : Type 0 where
  pub blob_id : Bytes
  pub size : ℕ
  pub media_type : Bytes
  pub sha256 : Bytes

-- The sets of owners are lists without repetition.
pub record BlobEntry : Type 0 where
  pub reference : BlobRef
  pub content : Bytes
  pub last_access : ℕ
  pub owners : List Bytes
  pub delivered_owners : List Bytes

pub record TicketEntry : Type 0 where
  pub transfer_id : ℕ
  pub blob_id : Bytes
  pub owner : Bytes
  pub expires_at : ℕ

pub record BlobStore : Type 0 where
  pub entries : Map Bytes BlobEntry
  pub insertion_order : List Bytes
  pub tickets : Map Bytes TicketEntry
  pub transfer_ids : List ℕ
  pub blob_tickets : Map Bytes ℕ
  pub device_bytes : Map Bytes ℕ
  pub device_entries : Map Bytes ℕ
  pub device_tickets : Map Bytes ℕ
  pub total_bytes : ℕ
  pub next_prune_at : Option ℕ

abbrev pub new : BlobStore
new = record {
  entries = [];
  insertion_order = [];
  tickets = [];
  transfer_ids = [];
  blob_tickets = [];
  device_bytes = [];
  device_entries = [];
  device_tickets = [];
  total_bytes = 0;
  next_prune_at = none;
}

unfoldable pub schedule_prune : ℕ → BlobStore → BlobStore
schedule_prune deadline s = record s {
  next_prune_at = some (elim s.next_prune_at [ none ↦ deadline | some next ↦ min next deadline ]);
}

unfoldable pub owner_has_room : Bytes → ℕ → ℕ → BlobStore → Bool
owner_has_room owner additional_bytes additional_entries s =
    leb (saturating_add (value owner s.device_bytes) additional_bytes)
      max_cached_blob_bytes_per_device
    && leb (saturating_add (value owner s.device_entries) additional_entries)
        max_cached_blobs_per_device

pub blob_has_ticket : Bytes → BlobStore → Bool
blob_has_ticket blob_id s = exceeds 0 blob_id s.blob_tickets

-- The loop over the owners of an entry that goes.
pub forget_owners : ℕ → List Bytes → Map Bytes ℕ → Map Bytes ℕ
forget_owners amount [] counter = counter
forget_owners amount (owner ∷ owners) counter =
    forget_owners amount owners (decrement owner amount counter)

pub discard_entry : Bytes → BlobEntry → BlobStore → BlobStore
unfolding forget_owners
discard_entry blob_id entry s = record s {
  entries = remove blob_id s.entries;
  total_bytes = s.total_bytes - length entry.content;
  device_bytes = forget_owners (length entry.content) entry.owners s.device_bytes;
  device_entries = forget_owners 1 entry.owners s.device_entries;
}

pub remove_entry : Bytes → BlobStore → BlobStore
unfolding discard_entry
remove_entry blob_id s = elim (get blob_id s.entries) [
  | none ↦ s
  | some entry ↦ discard_entry blob_id entry s
]

pub discard_ticket : Bytes → TicketEntry → BlobStore → BlobStore
discard_ticket ticket entry s = record s {
  tickets = remove ticket s.tickets;
  transfer_ids = remove_element entry.transfer_id s.transfer_ids;
  blob_tickets = decrement entry.blob_id 1 s.blob_tickets;
  device_tickets = decrement entry.owner 1 s.device_tickets;
}

pub remove_ticket : Bytes → BlobStore → BlobStore
unfolding discard_ticket
remove_ticket ticket s = elim (get ticket s.tickets) [
  | none ↦ s
  | some entry ↦ discard_ticket ticket entry s
]

pub push_order : Bytes → BlobStore → BlobStore
push_order blob_id s = record s { insertion_order = s.insertion_order ++ blob_id ∷ [] }

-- The owner gives a blob up: it leaves the set, and its budget is freed.
pub disown : Bytes → Bytes → BlobEntry → BlobStore → BlobStore
disown owner blob_id entry s = record s {
  entries =
      insert blob_id
        (record entry {
          delivered_owners = remove_element owner entry.delivered_owners;
          owners = remove_element owner entry.owners;
        })
        s.entries;
  device_bytes = decrement owner (length entry.content) s.device_bytes;
  device_entries = decrement owner 1 s.device_entries;
}

-- `delivered_owners.remove(owner)`, where `owners.remove(owner)` then finds nothing.
pub undeliver : Bytes → Bytes → BlobEntry → BlobStore → BlobStore
undeliver owner blob_id entry s = record s {
  entries =
      insert blob_id
        (record entry { delivered_owners = remove_element owner entry.delivered_owners }) s.entries;
}

-- One candidate, for an owner without room.
pub reclaim_one : Bytes → Bytes → BlobStore → BlobStore
unfolding push_order disown undeliver remove_entry
reclaim_one owner blob_id s =
    if blob_has_ticket blob_id s then push_order blob_id s else elim (get blob_id s.entries) [
      | none ↦ s
      | some entry ↦
          if not (contains owner entry.delivered_owners)
          then push_order blob_id s
          else if not (contains owner entry.owners)
          then push_order blob_id (undeliver owner blob_id entry s)
          else if length (remove_element owner entry.owners) == 0
          then remove_entry blob_id (disown owner blob_id entry s)
          else push_order blob_id (disown owner blob_id entry s)
    ]

-- The loop over the candidates; `insertion_order` collects those that stay.
pub reclaim_candidates : Bytes → ℕ → ℕ → List Bytes → BlobStore → BlobStore
unfolding reclaim_one
reclaim_candidates owner bytes entries [] s = s
reclaim_candidates owner bytes entries (blob_id ∷ candidates) s =
    let next = reclaim_candidates owner bytes entries candidates (reclaim_one owner blob_id s) in
    if owner_has_room owner bytes entries s
    then record s { insertion_order = s.insertion_order ++ blob_id ∷ candidates }
    else next

unfoldable pub reclaim_delivered_for_owner : Bytes → ℕ → ℕ → BlobStore → BlobStore
unfolding reclaim_candidates
reclaim_delivered_for_owner owner bytes entries s =
    if owner_has_room owner bytes entries s
    then s
    else reclaim_candidates owner bytes entries s.insertion_order
        (record s { insertion_order = [] })

pub expired_tickets : ℕ → Map Bytes TicketEntry → List Bytes
expired_tickets now [] = []
expired_tickets now ((ticket, entry) ∷ rest) =
    let others = expired_tickets now rest in
    if leb entry.expires_at now then ticket ∷ others else others

pub remove_tickets : List Bytes → BlobStore → BlobStore
unfolding remove_ticket
remove_tickets [] s = s
remove_tickets (ticket ∷ tickets) s = remove_tickets tickets (remove_ticket ticket s)

-- `values().map(|entry| entry.expires_at).min()`
pub first_expiry : Map Bytes TicketEntry → Option ℕ
first_expiry [] = none
first_expiry ((ticket, entry) ∷ rest) = elim (first_expiry rest) [
  | none ↦ some entry.expires_at
  | some next ↦ some (min entry.expires_at next)
]

pub is_idle : ℕ → Bytes → BlobStore → Bool
is_idle now blob_id s = elim (get blob_id s.entries) [
  | none ↦ true
  | some entry ↦ not (blob_has_ticket blob_id s) && leb blob_idle_ttl (now - entry.last_access)
]

-- One round of the loop of `prune` over the order.
pub sweep_one : ℕ → Bytes → BlobStore → BlobStore
unfolding remove_entry push_order schedule_prune is_idle
sweep_one now blob_id s =
    if is_idle now blob_id s
    then remove_entry blob_id s
    else if blob_has_ticket blob_id s
    then push_order blob_id s
    else elim (get blob_id s.entries) [
      | none ↦ push_order blob_id s
      | some entry ↦ push_order blob_id (schedule_prune (entry.last_access + blob_idle_ttl) s)
    ]

pub sweep : ℕ → List Bytes → BlobStore → BlobStore
unfolding sweep_one
sweep now [] s = s
sweep now (blob_id ∷ order) s = sweep now order (sweep_one now blob_id s)

pub prune_due : ℕ → BlobStore → BlobStore
unfolding remove_tickets expired_tickets first_expiry sweep
prune_due now s =
    let s' = remove_tickets (expired_tickets now s.tickets) (record s { next_prune_at = none }) in
    sweep now s'.insertion_order
      (record s' { next_prune_at = first_expiry s'.tickets; insertion_order = [] })

unfoldable pub prune : ℕ → BlobStore → BlobStore
unfolding prune_due
prune now s =
    if is_some_and s.next_prune_at (λ deadline. leb deadline now) then prune_due now s else s
