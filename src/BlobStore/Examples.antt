-- ===== src/BlobStore/Examples.antt =====
-- A blob of three bytes for one device, with the identity in place of SHA-256.
use arcrelay_protocol.Prelude.{
  has_control, ◌≡◌, ◌≢◌, refl, subst, some, [], ◌∷◌, arith, Bytes, bytes_eq, bytes_discrete, nat_eq,
  ℕ_discrete, get, remove, insert, bytes, contains, add_element, value, increment, saturating_add,
  wrapping_add,
}
use arcrelay_protocol.BlobStore.{
  BlobEntry, BlobStore, BlobRef, new, prune, schedule_prune, owner_has_room,
  reclaim_delivered_for_owner,
}
use arcrelay_protocol.BlobStore.Operations.{
  done, failed, evicted, invalid_or_expired, RedeemedBlob, BlobTicket, insert_blob, issue_ticket,
  redeem, is_acceptable, over_device_budget, make_room_for, charge, touch, add, store_blob,
  reference_of, tickets_exhausted, draw_ticket, draw_transfer_id, store_ticket,
}
use arcrelay_protocol.BlobStore.Validity.{IsValid, new-IsValid}
use arcrelay_protocol.BlobStore.Insertion.{IsInjective, Returns, insert_blob-Returns}
use arcrelay_protocol.BlobStore.Redemption.{redeem_once}
use arcrelay_protocol.BlobStore.Issuing.{redeem-issue_ticket, issue_ticket-IsValid}

abbrev pub digest : Bytes → Bytes
digest content = content

digest-IsInjective : IsInjective digest
digest-IsInjective x y p = p

abbrev pub phone : Bytes
phone = bytes "phone"

abbrev pub content : Bytes
content = bytes "0123456789abcdef0123456789abcdef"

abbrev png : Bytes
png = bytes "image/png"

abbrev reference : BlobRef
reference = record { blob_id = content; size = 32; media_type = png; sha256 = content }

abbrev entry : BlobEntry
entry = record {
  reference = reference;
  content = content;
  last_access = 100;
  owners = phone ∷ [];
  delivered_owners = [];
}

abbrev pub one_blob : BlobStore
one_blob = record {
  entries = (content, entry) ∷ [];
  insertion_order = content ∷ [];
  tickets = [];
  transfer_ids = [];
  blob_tickets = [];
  device_bytes = (phone, 32) ∷ [];
  device_entries = (phone, 1) ∷ [];
  device_tickets = [];
  total_bytes = 32;
  next_prune_at = some 300100;
}

inserts_it : insert_blob digest 100 phone content png new ≡ some (one_blob, some reference)
unfolding insert_blob is_acceptable has_control prune add reclaim_delivered_for_owner owner_has_room
    over_device_budget make_room_for store_blob charge schedule_prune reference_of value get insert
    remove saturating_add
inserts_it = refl

insert_blob-Returns_example : Returns digest (insert_blob digest 100 phone content png new)
insert_blob-Returns_example =
    insert_blob-Returns digest 100 phone content png new digest-IsInjective (new-IsValid digest)

pub one_blob-IsValid : IsValid digest one_blob
one_blob-IsValid =
    let r =
      insert_blob-Returns digest 100 phone content png new digest-IsInjective
        (new-IsValid digest) in
    subst (IsValid digest) (ground (arith, r.returned, inserts_it)) r.valid

abbrev pub ticket : BlobTicket
ticket = record { transfer_id = 9; ticket = bytes "secret"; blob = reference }

abbrev pub ticketed : BlobStore
ticketed = record one_blob {
  entries = (content, record entry { last_access = 200 }) ∷ [];
  tickets =
      (
        bytes "secret",
        record { transfer_id = 9; blob_id = content; owner = phone; expires_at = 30200 },
      )
      ∷ [];
  transfer_ids = 9 ∷ [];
  blob_tickets = (content, 1) ∷ [];
  device_tickets = (phone, 1) ∷ [];
  next_prune_at = some 30200;
}

pub issues_it :
    issue_ticket 200 (9 ∷ []) (bytes "secret" ∷ []) phone content one_blob
    ≡ some (ticketed, done ticket)
unfolding issue_ticket prune touch tickets_exhausted draw_ticket draw_transfer_id store_ticket
    schedule_prune value get insert remove contains add_element increment wrapping_add
    bytes_discrete ℕ_discrete
issues_it = refl

redeem-issue_ticket_example :
    (r : RedeemedBlob) × ((redeem 30199 phone 9 (bytes "secret") ticketed).1 ≡ done r)
    × (r.content ≡ content)
redeem-issue_ticket_example =
    redeem-issue_ticket digest 200 30199 (9 ∷ []) (bytes "secret" ∷ []) phone content one_blob
      ticketed ticket one_blob-IsValid issues_it (omega arith)

redeem_once_example :
    ((redeem 300 phone 9 (bytes "secret") ticketed).1 ≢ failed evicted)
    × IsValid digest (redeem 300 phone 9 (bytes "secret") ticketed).0
    × ((r : RedeemedBlob)
        → (redeem 300 phone 9 (bytes "secret") ticketed).1 ≡ done r
        → (redeem 301 phone 9 (bytes "secret") (redeem 300 phone 9 (bytes "secret") ticketed).0).1
          ≡ failed invalid_or_expired)
redeem_once_example = redeem_once digest 300 301 9 9 phone phone (bytes "secret") ticketed (
    issue_ticket-IsValid digest 200 (9 ∷ []) (bytes "secret" ∷ []) phone content one_blob ticketed
      (done ticket) one_blob-IsValid issues_it)
