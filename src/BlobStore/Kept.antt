-- ===== src/BlobStore/Kept.antt =====
-- A blob that a device does not own outlasts the reclaiming for that device.
use arcrelay_protocol.Prelude.{
  inl, inr, ℕ, ◌≡◌, ◌≢◌, false, not, some, List, [], ◌∷◌, arith, ◌==◌, Bytes, bytes_eq,
  bytes_discrete, nat_eq, length, get, insert, bytes, get-remove, get-insert, Option-cases,
  Bool-cases, contains, remove_element,
}
use arcrelay_protocol.BlobStore.{
  BlobEntry, BlobStore, owner_has_room, blob_has_ticket, remove_entry, discard_entry, push_order,
  disown, undeliver, reclaim_one, reclaim_candidates, reclaim_delivered_for_owner,
}

-- The blob is there, and the device does not own it.
abbrev pub Unowned : Bytes → Bytes → BlobStore → Type 0
Unowned o b s = (e : BlobEntry) × (get b s.entries ≡ some e) × (contains o e.owners ≡ false)

reclaim_one-Unowned :
    (o b c : Bytes) (s : BlobStore) → Unowned o b s → Unowned o b (reclaim_one o c s)
unfolding reclaim_one push_order undeliver disown remove_entry discard_entry
reclaim_one-Unowned o b c s (e, hit, n) = elim (Bool-cases (blob_has_ticket c s)) [
  | inl pinned ↦ rw (pinned, reclaim_one) (e, hit, n)
  | inr free ↦ elim (Option-cases (get c s.entries)) [
    | inl miss ↦ rw (free, miss, reclaim_one) (e, hit, n)
    | inr (x, found) ↦ elim (Bool-cases (not (contains o x.delivered_owners))) [
      | inl kept ↦ rw (free, found, kept, reclaim_one) (e, hit, n)
      | inr fetched ↦ elim (Bool-cases (not (contains o x.owners))) [
        | inl foreign ↦
            let x' : BlobEntry = record x {
              delivered_owners = remove_element o x.delivered_owners;
            } in
            rw (free, found, fetched, foreign, reclaim_one)
              (elim (bytes_discrete b c) [
                | yes p ↦
                    (x', ground (arith, p, get-insert b c x' s.entries), ground (arith, foreign))
                | no p ↦ (e, ground (arith, p, hit, get-insert b c x' s.entries), n)
              ])
        | inr own ↦
            let x' : BlobEntry = record x {
              delivered_owners = remove_element o x.delivered_owners;
              owners = remove_element o x.owners;
            } in
            let other : b ≢ c = λ p. absurd (ground (arith, p, hit, found, n, own)) in
            let still : get b (insert c x' s.entries) ≡ some e =
              ground (arith, other, hit, get-insert b c x' s.entries) in
            elim (Bool-cases (length (remove_element o x.owners) == 0)) [
              | inl last ↦
                  rw (free, found, fetched, own, last, reclaim_one)
                    (
                      e,
                      ground (
                        arith,
                        other,
                        still,
                        get-insert c c x' s.entries,
                        get-remove b c (insert c x' s.entries),
                      ),
                      n,
                    )
              | inr shared ↦ rw (free, found, fetched, own, shared, reclaim_one) (e, still, n)
            ]
      ]
    ]
  ]
]

reclaim_candidates-Unowned :
    (o b : Bytes) (bytes entries : ℕ) (candidates : List Bytes) (s : BlobStore)
    → Unowned o b s
    → Unowned o b (reclaim_candidates o bytes entries candidates s)
unfolding reclaim_candidates
reclaim_candidates-Unowned o b bytes entries [] s u = u
reclaim_candidates-Unowned o b bytes entries (c ∷ candidates) s u =
    elim (Bool-cases (owner_has_room o bytes entries s)) [
      | inl room ↦ rw room u
      | inr tight ↦ rw tight (
          reclaim_candidates-Unowned o b bytes entries candidates _ (reclaim_one-Unowned o b c s u))
    ]

pub reclaim-Unowned :
    (o b : Bytes) (bytes entries : ℕ) (s : BlobStore)
    → Unowned o b s
    → Unowned o b (reclaim_delivered_for_owner o bytes entries s)
unfolding reclaim_delivered_for_owner
reclaim-Unowned o b bytes entries s u = elim (Bool-cases (owner_has_room o bytes entries s)) [
  | inl room ↦ rw (room, reclaim_delivered_for_owner) u
  | inr tight ↦
      rw (tight, reclaim_delivered_for_owner)
        (reclaim_candidates-Unowned o b bytes entries s.insertion_order _ u)
]
