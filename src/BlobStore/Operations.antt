-- ===== src/BlobStore/Operations.antt =====
-- src/server/blob_store.rs: `insert`, `issue_ticket` and `redeem`.
use arcrelay_protocol.Prelude.{
  has_control, ℕ, ◌+◌, Bool, not, ◌||◌, ◌&&◌, Option, none, some, List, [], ◌∷◌, ◌++◌, ltb, leb,
  ◌==◌, if◌then◌else◌, Bytes, bytes_eq, nat_eq, same, length, get, insert, bytes, ◌%◌, contains,
  add_element, value, increment, saturating_add,
}
use arcrelay_protocol.BlobStore.{
  BlobRef, BlobEntry, BlobStore, schedule_prune, reclaim_delivered_for_owner, remove_ticket, prune,
  blob_idle_ttl, ticket_ttl, max_cached_blob_bytes, max_cached_blob_bytes_per_device,
  max_cached_blobs, max_cached_blobs_per_device, max_outstanding_tickets,
  max_outstanding_tickets_per_device,
}

unfoldable pub is_acceptable : Bytes → Bytes → Bytes → Bool
unfolding has_control
is_acceptable owner content media_type = not (
    length owner == 0
    || ltb 128 (length owner)
    || length content == 0
    || ltb max_cached_blob_bytes (length content)
    || length media_type == 0
    || ltb 256 (length media_type)
    || has_control media_type)

-- The budget of a device, for one more blob.
unfoldable pub over_device_budget : Bytes → ℕ → BlobStore → Bool
over_device_budget owner bytes s =
    ltb max_cached_blob_bytes_per_device (saturating_add (value owner s.device_bytes) bytes)
    || leb max_cached_blobs_per_device (value owner s.device_entries)

unfoldable pub make_room_for : ℕ → BlobStore → Bool
make_room_for bytes s =
    not (ltb max_cached_blob_bytes bytes)
    && ltb (length s.entries) max_cached_blobs
    && leb (saturating_add s.total_bytes bytes) max_cached_blob_bytes

-- The two counters of an owner that gets a blob.
unfoldable pub charge : Bytes → ℕ → BlobStore → BlobStore
charge owner bytes s = record s {
  device_bytes = insert owner (saturating_add (value owner s.device_bytes) bytes) s.device_bytes;
  device_entries = insert owner (saturating_add (value owner s.device_entries) 1) s.device_entries;
}

unfoldable pub touch : ℕ → Bytes → BlobEntry → BlobStore → BlobStore
touch now blob_id entry s = record s {
  entries = insert blob_id (record entry { last_access = now }) s.entries;
}

-- A device becomes an owner of a blob that is there; `none` is the panic of `expect`.
unfoldable pub share : ℕ → Bytes → Bytes → ℕ → BlobStore → Option (BlobStore × Option BlobRef)
unfolding charge
share now owner digest bytes s =
    let s' = reclaim_delivered_for_owner owner bytes 1 s in
    if over_device_budget owner bytes s' then some (s', none) else elim (get digest s'.entries) [
      | none ↦ none
      | some existing ↦ some (
        record (charge owner bytes s') {
          entries =
              insert digest
                (record existing { last_access = now; owners = add_element owner existing.owners })
                s'.entries;
        },
        some existing.reference,
      )
    ]

unfoldable pub reference_of : Bytes → Bytes → Bytes → BlobRef
reference_of digest content media_type = record {
  blob_id = digest;
  size = length content;
  media_type = media_type;
  sha256 = digest;
}

unfoldable pub store_blob : ℕ → Bytes → Bytes → Bytes → Bytes → BlobStore → BlobStore
unfolding charge schedule_prune reference_of
store_blob now owner digest content media_type s =
    let scheduled = schedule_prune (now + blob_idle_ttl) s in
    record (charge owner (length content) scheduled) {
      total_bytes = saturating_add s.total_bytes (length content);
      insertion_order = s.insertion_order ++ digest ∷ [];
      entries =
          insert digest
            (record {
              reference = reference_of digest content media_type;
              content = content;
              last_access = now;
              owners = owner ∷ [];
              delivered_owners = [];
            })
            s.entries;
    }

-- A blob that is not there yet.
unfoldable pub add : ℕ → Bytes → Bytes → Bytes → Bytes → BlobStore → BlobStore × Option BlobRef
unfolding store_blob
add now owner digest content media_type s =
    let s' = reclaim_delivered_for_owner owner (length content) 1 s in
    if over_device_budget owner (length content) s' || not (make_room_for (length content) s')
    then (s', none)
    else (
      store_blob now owner digest content media_type s',
      some (reference_of digest content media_type),
    )

unfoldable pub insert_blob :
    (Bytes → Bytes) → ℕ → Bytes → Bytes → Bytes → BlobStore → Option (BlobStore × Option BlobRef)
unfolding share add touch
insert_blob sha256 now owner content media_type s =
    let digest = sha256 content in
    let pruned = prune now s in
    if not (is_acceptable owner content media_type)
    then some (s, none)
    else elim (get digest pruned.entries) [
      | none ↦ some (add now owner digest content media_type pruned)
      | some existing ↦
          if contains owner existing.owners
          then some (touch now digest existing pruned, some existing.reference)
          else share now owner digest (length content) pruned
    ]

pub data TicketError : Type 0 where
  not_found resource_exhausted invalid_or_expired transfer_mismatch other_device ticket_expired
        evicted :
      TicketError

pub data Outcome (A : Type 0) : Type 0 where
  done : A → Outcome A
  failed : TicketError → Outcome A

pub record BlobTicket : Type 0 where
  pub transfer_id : ℕ
  pub ticket : Bytes
  pub blob : BlobRef

-- The first draw of 63 bits that is not zero and not in use.
unfoldable pub draw_transfer_id : List ℕ → BlobStore → Option ℕ
draw_transfer_id [] s = none
draw_transfer_id (draw ∷ draws) s =
    let rest = draw_transfer_id draws s in
    let candidate = draw % 9223372036854775808 in
    if not (candidate == 0) && not (contains candidate s.transfer_ids) then some candidate else rest

unfoldable pub draw_ticket : List Bytes → BlobStore → Option Bytes
draw_ticket [] s = none
draw_ticket (draw ∷ draws) s =
    let rest = draw_ticket draws s in elim (get draw s.tickets) [ none ↦ some draw | some _ ↦ rest ]

unfoldable pub store_ticket : ℕ → ℕ → Bytes → Bytes → Bytes → BlobStore → BlobStore
unfolding schedule_prune
store_ticket now transfer_id ticket owner blob_id s =
    let expires_at = now + ticket_ttl in
    record (schedule_prune expires_at s) {
      tickets =
          insert ticket
            (record {
              transfer_id = transfer_id;
              blob_id = blob_id;
              owner = owner;
              expires_at = expires_at;
            })
            s.tickets;
      transfer_ids = add_element transfer_id s.transfer_ids;
      blob_tickets = increment blob_id 1 s.blob_tickets;
      device_tickets = increment owner 1 s.device_tickets;
    }

unfoldable pub tickets_exhausted : Bytes → BlobStore → Bool
tickets_exhausted owner s =
    leb max_outstanding_tickets (length s.tickets)
    || leb max_outstanding_tickets_per_device (value owner s.device_tickets)

-- `none` if the draws do not suffice.
unfoldable pub issue_ticket :
    ℕ → List ℕ → List Bytes → Bytes → Bytes → BlobStore → Option (BlobStore × Outcome BlobTicket)
unfolding touch store_ticket
issue_ticket now ids texts owner blob_id s =
    let pruned = prune now s in
    elim (get blob_id pruned.entries) [
      | none ↦ some (pruned, failed not_found)
      | some entry ↦
          let touched = touch now blob_id entry pruned in
          if not (contains owner entry.owners)
          then some (pruned, failed not_found)
          else if tickets_exhausted owner touched
          then some (touched, failed resource_exhausted)
          else elim (draw_transfer_id ids touched) [
            | none ↦ none
            | some transfer_id ↦ elim (draw_ticket texts touched) [
              | none ↦ none
              | some ticket ↦ some (
                store_ticket now transfer_id ticket owner blob_id touched,
                done
                    (record { transfer_id = transfer_id; ticket = ticket; blob = entry.reference }),
              )
            ]
          ]
    ]

pub record RedeemedBlob : Type 0 where
  pub reference : BlobRef
  pub content : Bytes

unfoldable pub redeem : ℕ → Bytes → ℕ → Bytes → BlobStore → BlobStore × Outcome RedeemedBlob
redeem now owner transfer_id ticket s =
    let pruned = prune now s in
    elim (get ticket pruned.tickets) [
      | none ↦ (pruned, failed invalid_or_expired)
      | some entry ↦
          if not (entry.transfer_id == transfer_id)
          then (pruned, failed transfer_mismatch)
          else if not (same entry.owner owner)
          then (pruned, failed other_device)
          else if leb entry.expires_at now
          then (pruned, failed ticket_expired)
          else let spent = remove_ticket ticket pruned in
            elim (get entry.blob_id spent.entries) [
              | none ↦ (spent, failed evicted)
              | some blob ↦ (
                record spent {
                  entries =
                      insert entry.blob_id
                        (record blob {
                          last_access = now;
                          delivered_owners = add_element owner blob.delivered_owners;
                        })
                        spent.entries;
                },
                done (record { reference = blob.reference; content = blob.content }),
              )
            ]
    ]
