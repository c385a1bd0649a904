-- ===== src/BlobStore/Validity.antt =====
-- The invariant of the blob store, through `insert`.
use arcrelay_protocol.Prelude.{
  ℕ, ◌≤◌, ◌≡◌, refl, ap, ◌∙◌, true, false, ◌||◌, none, some, List, [], ◌∷◌, arith, Bytes, bytes_eq,
  bytes_discrete, nat_eq, same, length, count, get, insert, bytes, present, get-insert,
  remove_absent, contains, contains-count, add_element, count-add_element, value, insert-IsDistinct,
  sum_by-remove, sum_by-insert, length-insert_absent, saturating_add, saturating_add_exact,
}
use arcrelay_protocol.Prelude.{value-insert}
use arcrelay_protocol.BlobStore.{
  BlobEntry, BlobStore, new, schedule_prune, reclaim_delivered_for_owner, prune,
  max_cached_blob_bytes, max_cached_blob_bytes_per_device, max_cached_blobs,
  max_cached_blobs_per_device, max_outstanding_tickets_per_device,
}
use arcrelay_protocol.BlobStore.Operations.{
  over_device_budget, make_room_for, charge, store_blob, reference_of,
}
use arcrelay_protocol.BlobStore.Accounting.{
  IsAccounted, size_of, owned_bytes, owned_one, new-IsAccounted,
}
use arcrelay_protocol.BlobStore.Reclaim.{
  reclaim-IsAccounted, prune-IsAccounted, replace-IsAccounted,
}
use arcrelay_protocol.BlobStore.Shrinks.{Shrinks, reclaim-Shrinks, prune-Shrinks, replace-Shrinks}

-- The counters are right, every budget holds, and each blob stands under its own digest.
pub record IsValid (sha256 : Bytes → Bytes) (s : BlobStore) : Type 0 where
  pub accounted : IsAccounted s
  pub total : s.total_bytes ≤ max_cached_blob_bytes
  pub blobs : length s.entries ≤ max_cached_blobs
  pub bytes : (d : Bytes) → value d s.device_bytes ≤ max_cached_blob_bytes_per_device
  pub entries : (d : Bytes) → value d s.device_entries ≤ max_cached_blobs_per_device
  pub tickets : (d : Bytes) → value d s.device_tickets ≤ max_outstanding_tickets_per_device
  pub digests : (k : Bytes) (e : BlobEntry) → get k s.entries ≡ some e → sha256 e.content ≡ k

module _ (sha256 : Bytes → Bytes) where
  pub new-IsValid : IsValid sha256 new
  unfolding value get
  new-IsValid = record {
    accounted = new-IsAccounted;
    total = omega arith;
    blobs = omega arith;
    bytes = λ d. omega arith;
    entries = λ d. omega arith;
    tickets = λ d. omega arith;
    digests = λ k e h. absurd (ground (arith, h));
  }

  pub shrink-IsValid :
      {s t : BlobStore} → Shrinks s t → IsAccounted t → IsValid sha256 s → IsValid sha256 t
  shrink-IsValid f a v = record {
    accounted = a;
    total = omega (arith, f.total, v.total);
    blobs = omega (arith, f.blobs, v.blobs);
    bytes = λ d. omega (arith, f.bytes d, v.bytes d);
    entries = λ d. omega (arith, f.entries d, v.entries d);
    tickets = λ d. omega (arith, f.tickets d, v.tickets d);
    digests = λ k e h. let (e', h', p) = f.from k e h in ap sha256 p ∙ v.digests k e' h';
  }

  pub prune-IsValid : (now : ℕ) (s : BlobStore) → IsValid sha256 s → IsValid sha256 (prune now s)
  prune-IsValid now s v =
      shrink-IsValid (prune-Shrinks now s) (prune-IsAccounted now s v.accounted) v

  pub replace-IsValid :
      (b : Bytes) (e e' : BlobEntry) (s : BlobStore)
      → get b s.entries ≡ some e
      → e'.content ≡ e.content
      → e'.owners ≡ e.owners
      → IsValid sha256 s
      → IsValid sha256 (record s { entries = insert b e' s.entries })
  replace-IsValid b e e' s hit p q v =
      shrink-IsValid (replace-Shrinks b e e' s hit p)
        (replace-IsAccounted b e e' s hit p q v.accounted) v

  pub reclaim-IsValid :
      (o : Bytes) (bytes entries : ℕ) (s : BlobStore)
      → IsValid sha256 s
      → IsValid sha256 (reclaim_delivered_for_owner o bytes entries s)
  reclaim-IsValid o bytes entries s v =
      shrink-IsValid (reclaim-Shrinks o bytes entries s)
        (reclaim-IsAccounted o bytes entries s v.accounted) v

  contains-add_element :
      (d o : Bytes) (xs : List Bytes) → contains d (add_element o xs) ≡ (same d o || contains d xs)
  contains-add_element d o xs =
      ground
        (arith, contains-count d (add_element o xs), contains-count d xs, count-add_element d o xs)

  -- A device becomes an owner of a blob within its budget.
  pub owned-IsValid :
      (now : ℕ) (o b : Bytes) (n : ℕ) (e : BlobEntry) (s : BlobStore)
      → get b s.entries ≡ some e
      → length e.content ≡ n
      → contains o e.owners ≡ false
      → over_device_budget o n s ≡ false
      → n ≤ max_cached_blob_bytes
      → IsValid sha256 s
      → IsValid sha256 (record (charge o n s) {
        entries =
            insert b (record e { last_access = now; owners = add_element o e.owners }) s.entries;
      })
  unfolding charge over_device_budget present
  owned-IsValid now o b n e s hit size foreign room small v =
      let a = v.accounted in
      let e' : BlobEntry = record e { last_access = now; owners = add_element o e.owners } in
      let more = saturating_add_exact (value o s.device_bytes) n (omega (arith, v.bytes o)) in
      let one = saturating_add_exact (value o s.device_entries) 1 (omega (arith, v.entries o)) in
      record {
        accounted = record {
          distinct = insert-IsDistinct b e' s.entries a.distinct;
          tickets_distinct = a.tickets_distinct;
          total = ground (
            arith,
            a.total,
            sum_by-insert size_of b e' s.entries,
            sum_by-remove size_of b e s.entries a.distinct hit,
          );
          bytes_of = λ d. ground (
            arith,
            size,
            foreign,
            more,
            a.bytes_of d,
            contains-add_element d o e.owners,
            value-insert d o (saturating_add (value o s.device_bytes) n) s.device_bytes,
            sum_by-insert (owned_bytes d) b e' s.entries,
            sum_by-remove (owned_bytes d) b e s.entries a.distinct hit,
          );
          entries_of = λ d. ground (
            arith,
            foreign,
            one,
            a.entries_of d,
            contains-add_element d o e.owners,
            value-insert d o (saturating_add (value o s.device_entries) 1) s.device_entries,
            sum_by-insert (owned_one d) b e' s.entries,
            sum_by-remove (owned_one d) b e s.entries a.distinct hit,
          );
          blob_tickets_of = a.blob_tickets_of;
          device_tickets_of = a.device_tickets_of;
          owner_sets = λ k x h d.
              let old : get k s.entries ≡ some x → count d x.owners ≤ 1 =
                λ g. a.owner_sets k x g d in
              ground (
                arith,
                h,
                get-insert k b e' s.entries,
                a.owner_sets b e hit d,
                old,
                count-add_element d o e.owners,
              );
          pinned = λ t x h. ground (arith, a.pinned t x h, get-insert x.blob_id b e' s.entries);
          few_tickets = a.few_tickets;
        };
        total = v.total;
        blobs =
            unfold insert in
            (replace-IsValid b e (record e { last_access = now }) s hit refl refl v).blobs;
        bytes = λ d. ground (
          arith,
          room,
          v.bytes d,
          value-insert d o (saturating_add (value o s.device_bytes) n) s.device_bytes,
        );
        entries = λ d. ground (
          arith,
          room,
          one,
          v.entries d,
          value-insert d o (saturating_add (value o s.device_entries) 1) s.device_entries,
        );
        tickets = v.tickets;
        digests = λ k x h. elim (bytes_discrete k b) [
          | yes p ↦ ground (arith, h, p, get-insert k b e' s.entries, v.digests b e hit)
          | no p ↦ v.digests k x (ground (arith, h, p, get-insert k b e' s.entries))
        ];
      }

  -- A new blob within every budget.
  pub store_blob-IsValid :
      (now : ℕ) (o content media_type : Bytes) (s : BlobStore)
      → get (sha256 content) s.entries ≡ none
      → over_device_budget o (length content) s ≡ false
      → make_room_for (length content) s ≡ true
      → IsValid sha256 s
      → IsValid sha256 (store_blob now o (sha256 content) content media_type s)
  unfolding store_blob charge over_device_budget make_room_for schedule_prune present
  store_blob-IsValid now o content media_type s fresh room space v =
      let a = v.accounted in
      let n = length content in
      let b = sha256 content in
      let e' : BlobEntry = record {
        reference = reference_of b content media_type;
        content = content;
        last_access = now;
        owners = o ∷ [];
        delivered_owners = [];
      } in
      let more =
        saturating_add_exact (value o s.device_bytes) n (ground (arith, v.bytes o, space)) in
      let sum = saturating_add_exact s.total_bytes n (ground (arith, v.total, space)) in
      let one = saturating_add_exact (value o s.device_entries) 1 (omega (arith, v.entries o)) in
      let gone = remove_absent b s.entries fresh in
      record {
        accounted = record {
          distinct = insert-IsDistinct b e' s.entries a.distinct;
          tickets_distinct = a.tickets_distinct;
          total = ground (arith, a.total, sum, gone, sum_by-insert size_of b e' s.entries);
          bytes_of = λ d.
              unfold contains in
              ground (
                arith,
                more,
                a.bytes_of d,
                gone,
                value-insert d o (saturating_add (value o s.device_bytes) n) s.device_bytes,
                sum_by-insert (owned_bytes d) b e' s.entries,
              );
          entries_of = λ d.
              unfold contains in
              ground (
                arith,
                one,
                a.entries_of d,
                gone,
                value-insert d o (saturating_add (value o s.device_entries) 1) s.device_entries,
                sum_by-insert (owned_one d) b e' s.entries,
              );
          blob_tickets_of = a.blob_tickets_of;
          device_tickets_of = a.device_tickets_of;
          owner_sets = λ k x h d.
              let old : get k s.entries ≡ some x → count d x.owners ≤ 1 =
                λ g. a.owner_sets k x g d in
              unfold count in ground (arith, h, get-insert k b e' s.entries, old);
          pinned = λ t x h. ground (arith, a.pinned t x h, get-insert x.blob_id b e' s.entries);
          few_tickets = a.few_tickets;
        };
        total = ground (arith, space);
        blobs = ground (arith, space, length-insert_absent b e' s.entries fresh);
        bytes = λ d. ground (
          arith,
          room,
          v.bytes d,
          value-insert d o (saturating_add (value o s.device_bytes) n) s.device_bytes,
        );
        entries = λ d. ground (
          arith,
          room,
          one,
          v.entries d,
          value-insert d o (saturating_add (value o s.device_entries) 1) s.device_entries,
        );
        tickets = v.tickets;
        digests = λ k x h. elim (bytes_discrete k b) [
          | yes p ↦ ground (arith, h, p, get-insert k b e' s.entries)
          | no p ↦ v.digests k x (ground (arith, h, p, get-insert k b e' s.entries))
        ];
      }
