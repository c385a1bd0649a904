-- ===== src/CommandCache/Order.antt =====
-- The insertion order of the command cache lists the keys of its entries, each once; with the
-- totals this is the invariant of the cache.
use arcrelay_protocol.Prelude.{
  inl, inr, ℕ, suc, zero, ◌+◌, ◌≤◌, ◌<◌, ◌≡◌, refl, none, some, List, [], ◌∷◌, arith, if◌then◌else◌,
  Bytes, bytes_eq, same, length, count, count-append, Map, get, u64_max, present, present-insert,
  get-remove, Option-cases, Bool-cases, ap,
}
use arcrelay_protocol.CommandCache.{
  CommandCacheKey, CachedCommand, CommandCache, command_cache_key_eq, discard, remove_entry, store,
  pop_entry, is_stale, global_limits_exceeded, prune_stale, prune_excess, prune, take_of_device,
  retain_ne, forget, device_over_budget, enforce_device, enforce_devices,
}
use arcrelay_protocol.CommandCache.Accounting.{
  IsAccounted, remove_entry-IsAccounted, store-IsAccounted,
}

pub take_of_device-some :
    (device : Bytes) (order : List CommandCacheKey) (key : CommandCacheKey)
    (rest : List CommandCacheKey)
    → take_of_device device order ≡ some (key, rest)
    → (key.device_public_key ≡ device)
      × ((j : CommandCacheKey) → count j order ≡ count j (key ∷ rest))
      × (length order ≡ suc (length rest))
unfolding take_of_device count
take_of_device-some device [] key rest h = cc
take_of_device-some device (k ∷ order) key rest h =
    elim (Option-cases (take_of_device device order)) [
      | inl miss ↦ (ground arith, λ j. ground arith, ground arith)
      | inr ((found, others), hit) ↦
          let (owner, split, len) = take_of_device-some device order found others hit in
          (ground arith, λ j. ground (arith, split j), ground (arith, len))
    ]

pub take_of_device-none :
    (device : Bytes) (order : List CommandCacheKey) (key : CommandCacheKey)
    → take_of_device device order ≡ none
    → key.device_public_key ≡ device
    → count key order ≡ 0
unfolding take_of_device count
take_of_device-none device [] key h p = refl
take_of_device-none device (k ∷ order) key h p =
    ground (arith, take_of_device-none device order key)

count-retain_ne :
    (j key : CommandCacheKey) (order : List CommandCacheKey)
    → count j (retain_ne key order) ≡ (if same j key then 0 else count j order)
unfolding retain_ne count
count-retain_ne j key [] = ground arith
count-retain_ne j key (k ∷ order) = ground (arith, count-retain_ne j key order)

module _ {Response : Type 0} where
  -- The invariant of the cache.
  pub record IsConsistent (c : CommandCache Response) : Type 0 where
    pub accounted : IsAccounted c
    pub ordered : (k : CommandCacheKey) → count k c.insertion_order ≡ present k c.entries

  entries-remove_entry :
      (j key : CommandCacheKey) (c : CommandCache Response)
      → present j (remove_entry key c).entries ≡ (if same j key then 0 else present j c.entries)
  unfolding remove_entry discard present
  entries-remove_entry j key c = ground (arith, get-remove j key c.entries)

  order-remove_entry :
      (key : CommandCacheKey) (c : CommandCache Response)
      → (remove_entry key c).insertion_order ≡ c.insertion_order
  unfolding remove_entry discard
  order-remove_entry key c = ground arith

  present-le-one :
      (k : CommandCacheKey) (m : Map CommandCacheKey (CachedCommand Response)) → present k m ≤ 1
  unfolding present
  present-le-one k m = ground arith

  pub pop_entry-IsConsistent :
      (key : CommandCacheKey) (rest : List CommandCacheKey) (c : CommandCache Response)
      → ((j : CommandCacheKey) → count j c.insertion_order ≡ count j (key ∷ rest))
      → IsConsistent c
      → IsConsistent (pop_entry key rest c)
  unfolding pop_entry count
  pop_entry-IsConsistent key rest c split h =
      let c' : CommandCache Response = record c { insertion_order = rest } in
      record {
        accounted = remove_entry-IsAccounted key c' (record {
          distinct = h.accounted.distinct;
          total = h.accounted.total;
          bytes = h.accounted.bytes;
          counts = h.accounted.counts;
        });
        ordered = λ k. ground (
          arith,
          order-remove_entry key c',
          entries-remove_entry k key c',
          split k,
          h.ordered k,
          present-le-one k c.entries,
        );
      }

  present_fresh :
      (k : CommandCacheKey) (m : Map CommandCacheKey (CachedCommand Response))
      → get k m ≡ none
      → present k m ≡ 0
  unfolding present
  present_fresh k m h = ground arith

  pub order-pop_entry :
      (key : CommandCacheKey) (rest : List CommandCacheKey) (c : CommandCache Response)
      → (pop_entry key rest c).insertion_order ≡ rest
  unfolding pop_entry
  order-pop_entry key rest c = order-remove_entry key (record c { insertion_order = rest })

  pub forget-IsConsistent :
      (key : CommandCacheKey) (c : CommandCache Response)
      → IsConsistent c
      → IsConsistent (forget key c)
  unfolding forget
  forget-IsConsistent key c h =
      let a = remove_entry-IsAccounted key c h.accounted in
      record {
        accounted = record {
          distinct = a.distinct;
          total = a.total;
          bytes = a.bytes;
          counts = a.counts;
        };
        ordered = λ k. ground (
          arith,
          order-remove_entry key c,
          entries-remove_entry k key c,
          count-retain_ne k key c.insertion_order,
          h.ordered k,
        );
      }

  pub store-IsConsistent :
      (key : CommandCacheKey) (entry : CachedCommand Response) (c : CommandCache Response)
      → get key c.entries ≡ none
      → c.total_bytes + entry.size < u64_max
      → length c.entries < u64_max
      → IsConsistent c
      → IsConsistent (store key entry c)
  unfolding store count
  store-IsConsistent key entry c fresh fits few h = record {
    accounted = store-IsAccounted key entry c fresh fits few h.accounted;
    ordered = λ k. ground (
      arith,
      h.ordered k,
      present_fresh key c.entries fresh,
      count-append k c.insertion_order (key ∷ []),
      present-insert k key entry c.entries,
    );
  }

  pub prune_stale-IsConsistent :
      (now : ℕ) (order : List CommandCacheKey) (c : CommandCache Response)
      → c.insertion_order ≡ order
      → IsConsistent c
      → IsConsistent (prune_stale now order c)
  unfolding prune_stale
  prune_stale-IsConsistent now [] c p h = h
  prune_stale-IsConsistent now (key ∷ rest) c p h = elim (Bool-cases (is_stale now key c)) [
    | inl e ↦ rw e (
        prune_stale-IsConsistent now rest (pop_entry key rest c) (order-pop_entry key rest c)
          (pop_entry-IsConsistent key rest c (λ j. ap (count j) p) h))
    | inr e ↦ rw e h
  ]

  prune_excess-IsConsistent :
      (order : List CommandCacheKey) (c : CommandCache Response)
      → c.insertion_order ≡ order
      → IsConsistent c
      → IsConsistent (prune_excess order c)
  unfolding prune_excess
  prune_excess-IsConsistent [] c p h = h
  prune_excess-IsConsistent (key ∷ rest) c p h = elim (Bool-cases (global_limits_exceeded c)) [
    | inl e ↦ rw e (
        prune_excess-IsConsistent rest (pop_entry key rest c) (order-pop_entry key rest c)
          (pop_entry-IsConsistent key rest c (λ j. ap (count j) p) h))
    | inr e ↦ rw e h
  ]

  -- `prune` keeps the invariant.
  pub prune-IsConsistent :
      (now : ℕ) (c : CommandCache Response) → IsConsistent c → IsConsistent (prune now c)
  unfolding prune
  prune-IsConsistent now c h =
      prune_excess-IsConsistent _ _ refl (prune_stale-IsConsistent now c.insertion_order c refl h)

  pub enforce_device-IsConsistent :
      (fuel : ℕ) (device : Bytes) (c : CommandCache Response)
      → IsConsistent c
      → IsConsistent (enforce_device fuel device c)
  unfolding enforce_device
  enforce_device-IsConsistent zero device c h = h
  enforce_device-IsConsistent (suc fuel) device c h =
      elim (Bool-cases (device_over_budget device c)) [
        | inr e ↦ rw (e, enforce_device) h
        | inl e ↦ elim (Option-cases (take_of_device device c.insertion_order)) [
          | inl miss ↦ rw (e, miss, enforce_device) h
          | inr ((key, rest), hit) ↦
              let (_, split, _) = take_of_device-some device c.insertion_order key rest hit in
              rw (e, hit, enforce_device)
                (enforce_device-IsConsistent fuel device (pop_entry key rest c)
                  (pop_entry-IsConsistent key rest c split h))
        ]
      ]

  pub enforce_devices-IsConsistent :
      (devices : List Bytes) (c : CommandCache Response)
      → IsConsistent c
      → IsConsistent (enforce_devices devices c)
  unfolding enforce_devices
  enforce_devices-IsConsistent [] c h = h
  enforce_devices-IsConsistent (device ∷ rest) c h =
      enforce_devices-IsConsistent rest _ (enforce_device-IsConsistent _ device c h)
