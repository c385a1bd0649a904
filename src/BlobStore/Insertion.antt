-- ===== src/BlobStore/Insertion.antt =====
-- `insert`, whole: it does not panic, and it keeps the invariant.
use arcrelay_protocol.Prelude.{
  inl, inr, ℕ, ◌≤◌, ◌≡◌, refl, ap, false, not, ◌||◌, Option, none, some, arith, Bytes, bytes_eq,
  nat_eq, length, get, insert, Option-cases, Bool-cases, contains, add_element,
}
use arcrelay_protocol.BlobStore.{
  BlobEntry, BlobRef, BlobStore, reclaim_delivered_for_owner, prune, max_cached_blob_bytes,
}
use arcrelay_protocol.BlobStore.Operations.{
  is_acceptable, over_device_budget, make_room_for, charge, touch, share, add, insert_blob,
}
use arcrelay_protocol.BlobStore.Shrinks.{reclaim-Shrinks}
use arcrelay_protocol.BlobStore.Kept.{reclaim-Unowned}
use arcrelay_protocol.BlobStore.Validity.{
  IsValid, prune-IsValid, replace-IsValid, reclaim-IsValid, owned-IsValid, store_blob-IsValid,
}

-- SHA-256 has no collisions.
abbrev pub IsInjective : (Bytes → Bytes) → Type 0
IsInjective sha256 = (x y : Bytes) → sha256 x ≡ sha256 y → x ≡ y

-- The call returns, and the store that it leaves is valid.
pub record Returns (sha256 : Bytes → Bytes) (result : Option (BlobStore × Option BlobRef))
    : Type 0 where
  pub after : BlobStore
  pub answer : Option BlobRef
  pub returned : result ≡ some (after, answer)
  pub valid : IsValid sha256 after

module _ (sha256 : Bytes → Bytes) where
  add-IsValid :
      (now : ℕ) (o content media_type : Bytes) (s : BlobStore)
      → get (sha256 content) s.entries ≡ none
      → IsValid sha256 s
      → IsValid sha256 (add now o (sha256 content) content media_type s).0
  unfolding add
  add-IsValid now o content media_type s fresh v =
      let s' = reclaim_delivered_for_owner o (length content) 1 s in
      let w = reclaim-IsValid sha256 o (length content) 1 s v in
      let absent : get (sha256 content) s'.entries ≡ none =
        elim (Option-cases (get (sha256 content) s'.entries)) [
          | inl miss ↦ miss
          | inr (e, hit) ↦
              let (e', was, _) =
                (reclaim-Shrinks o (length content) 1 s).from (sha256 content) e hit in
              absurd (ground (arith, fresh, was))
        ] in
      elim (Bool-cases
        (over_device_budget o (length content) s' || not (make_room_for (length content) s'))) [
          | inl full ↦ rw (full, add) w
          | inr room ↦
              rw (room, add)
                (store_blob-IsValid sha256 now o content media_type s' absent (ground (arith, room))
                  (ground (arith, room)) w)
        ]

  share-Returns :
      (now : ℕ) (o content : Bytes) (e : BlobEntry) (s : BlobStore)
      → IsInjective sha256
      → length content ≤ max_cached_blob_bytes
      → get (sha256 content) s.entries ≡ some e
      → contains o e.owners ≡ false
      → IsValid sha256 s
      → Returns sha256 (share now o (sha256 content) (length content) s)
  unfolding share
  share-Returns now o content e s injective small hit foreign v =
      let n = length content in
      let s' = reclaim_delivered_for_owner o n 1 s in
      let w = reclaim-IsValid sha256 o n 1 s v in
      let (x, found, unowned) = reclaim-Unowned o (sha256 content) n 1 s (e, hit, foreign) in
      let same_content = injective x.content content (w.digests (sha256 content) x found) in
      elim (Bool-cases (over_device_budget o n s')) [
        | inl full ↦ record {
          after = s';
          answer = none;
          returned = rw (full, share) refl;
          valid = w;
        }
        | inr room ↦ record {
          after = record (charge o n s') {
            entries =
                insert (sha256 content)
                  (record x { last_access = now; owners = add_element o x.owners }) s'.entries;
          };
          answer = some x.reference;
          returned = rw (room, found, share) refl;
          valid =
              owned-IsValid sha256 now o (sha256 content) n x s' found (ap length same_content)
                unowned room small w;
        }
      ]

  -- If SHA-256 has no collisions, an insertion into a valid store returns, whatever the owner, the
  -- content and the time; and the store it leaves is valid: the totals and the counters of each
  -- device and blob are those of the entries and tickets, and no budget is exceeded.
  pub insert_blob-Returns :
      (now : ℕ) (o content media_type : Bytes) (s : BlobStore)
      → IsInjective sha256
      → IsValid sha256 s
      → Returns sha256 (insert_blob sha256 now o content media_type s)
  unfolding insert_blob is_acceptable touch
  insert_blob-Returns now o content media_type s injective v =
      let pruned = prune now s in
      let w = prune-IsValid sha256 now s v in
      elim (Bool-cases (is_acceptable o content media_type)) [
        | inr bad ↦ record {
          after = s;
          answer = none;
          returned = rw (bad, insert_blob) refl;
          valid = v;
        }
        | inl good ↦ elim (Option-cases (get (sha256 content) pruned.entries)) [
          | inl miss ↦
              let added = add now o (sha256 content) content media_type pruned in
              record {
                after = added.0;
                answer = added.1;
                returned = rw (good, miss, insert_blob) refl;
                valid = add-IsValid now o content media_type pruned miss w;
              }
          | inr (e, hit) ↦ elim (Bool-cases (contains o e.owners)) [
            | inl own ↦ record {
              after = touch now (sha256 content) e pruned;
              answer = some e.reference;
              returned = rw (good, hit, own, insert_blob) refl;
              valid =
                  replace-IsValid sha256 (sha256 content) e (record e { last_access = now }) pruned
                    hit refl refl w;
            }
            | inr foreign ↦
                let shared =
                  share-Returns now o content e pruned injective (ground (arith, good)) hit foreign
                    w in
                record {
                  after = shared.after;
                  answer = shared.answer;
                  returned = rw (good, hit, foreign, insert_blob) shared.returned;
                  valid = shared.valid;
                }
          ]
        ]
      ]
