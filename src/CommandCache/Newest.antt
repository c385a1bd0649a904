-- ===== src/CommandCache/Newest.antt =====
-- The entry that `insert` has just stored survives the eviction that follows.
use arcrelay_protocol.Prelude.{
  inl, inr, ◌⊎◌, ℕ, suc, zero, ◌≤◌, ◌≡◌, refl, ap, sym, ◌∙◌, false, ◌||◌, none, some, List, [], ◌∷◌,
  ◌++◌, arith, ltb, Bytes, bytes_eq, bytes_discrete, nat_eq, length, count, count-append, get,
  remove, present, present-remove, get-remove, get-insert, Option-cases, Bool-cases, sum_by,
  sum_by-remove, length-sum_by,
}
use arcrelay_protocol.CommandCache.{
  CommandCacheKey, CachedCommand, CommandCache, command_cache_key_eq, discard, remove_entry, store,
  pop_entry, is_stale, global_limits_exceeded, prune_stale, prune_excess, prune, take_of_device,
  forget, device_over_budget, enforce_device, enforce_devices, enforce_device_limits,
  insert as insert_command, entry_size, entry_of, max_cached_command_bytes_per_device,
  max_cached_command_bytes_global,
}
use arcrelay_protocol.CommandCache.Order.{
  IsConsistent, pop_entry-IsConsistent, order-pop_entry, store-IsConsistent, take_of_device-some,
  take_of_device-none,
}
use arcrelay_protocol.CommandCache.Accounting.{device_size, device_one, size_of}
use arcrelay_protocol.CommandCache.Limits.{entries_of_no_order}
use arcrelay_protocol.CommandCache.DeviceLimits.{sums_of_no_device, over_budget-values}
use arcrelay_protocol.CommandCache.Insertion.{IsValid, forget-IsValid, get-forget}

-- The key is the last of the order, and its entry is there.
record IsNewest {Response : Type 0} (key : CommandCacheKey) (entry : CachedCommand Response)
    (c : CommandCache Response) : Type 0 where
  consistent : IsConsistent c
  found : get key c.entries ≡ some entry
  older : List CommandCacheKey
  last : c.insertion_order ≡ older ++ key ∷ []

take_of_device_older :
    (device : Bytes) (older : List CommandCacheKey) (key found : CommandCacheKey)
    (rest : List CommandCacheKey)
    → take_of_device device (older ++ key ∷ []) ≡ some (found, rest)
    → ((ys : List CommandCacheKey) × (rest ≡ ys ++ key ∷ [])) ⊎ (take_of_device device older ≡ none)
unfolding take_of_device
take_of_device_older device [] key found rest h = inr refl
take_of_device_older device (k ∷ older) key found rest h =
    elim (bytes_discrete k.device_public_key device) [
      | yes p ↦ inl (older, ground arith)
      | no p ↦ elim (Option-cases (take_of_device device (older ++ key ∷ []))) [
        | inl miss ↦ absurd (ground arith)
        | inr ((f, r), hit) ↦ elim (take_of_device_older device older key f r hit) [
          | inl (ys, e) ↦ inl (k ∷ ys, ground arith)
          | inr none_older ↦ inr (ground arith)
        ]
      ]
    ]

module _ {Response : Type 0} (key : CommandCacheKey) (entry : CachedCommand Response) where
  -- Taking out an older key keeps the newest.
  pop_entry-IsNewest :
      (k : CommandCacheKey) (ys : List CommandCacheKey) (c : CommandCache Response)
      → ((j : CommandCacheKey) → count j c.insertion_order ≡ count j (k ∷ ys ++ key ∷ []))
      → IsNewest key entry c
      → IsNewest key entry (pop_entry k (ys ++ key ∷ []) c)
  unfolding pop_entry remove_entry discard count present
  pop_entry-IsNewest k ys c split n = record {
    consistent = pop_entry-IsConsistent k (ys ++ key ∷ []) c split n.consistent;
    found = ground (
      arith,
      get-remove key k c.entries,
      split key,
      n.consistent.ordered key,
      n.found,
      count-append key ys (key ∷ []),
    );
    older = ys;
    last = order-pop_entry k (ys ++ key ∷ []) c;
  }

  -- With the newest alone in the order, the cache holds nothing else.
  alone :
      (c : CommandCache Response)
      → IsNewest key entry c
      → ((j : CommandCacheKey) → count j c.insertion_order ≡ count j (key ∷ []))
      → (length c.entries ≡ 1) × (c.total_bytes ≡ entry.size)
  unfolding count sum_by
  alone c n only =
      let a = n.consistent.accounted in
      let rest =
        entries_of_no_order (remove key c.entries)
          (λ j. ground (arith, only j, n.consistent.ordered j, present-remove j key c.entries)) in
      ground (
        arith,
        rest,
        a.total,
        length-sum_by c.entries,
        sum_by-remove (λ _ _. 1) key entry c.entries a.distinct n.found,
        sum_by-remove size_of key entry c.entries a.distinct n.found,
      )

  prune_excess-IsNewest :
      (older : List CommandCacheKey) (c : CommandCache Response)
      → entry.size ≤ max_cached_command_bytes_global
      → c.insertion_order ≡ older ++ key ∷ []
      → IsNewest key entry c
      → IsNewest key entry (prune_excess (older ++ key ∷ []) c)
  unfolding prune_excess global_limits_exceeded
  prune_excess-IsNewest [] c fits p n =
      let (few, small) = alone c n (λ j. ap (count j) p) in
      let e : global_limits_exceeded c ≡ false = ground arith in rw e n
  prune_excess-IsNewest (k ∷ older) c fits p n =
      let split = λ (j : CommandCacheKey). ap (count j) p in
      let next = pop_entry-IsNewest k older c split n in
      elim (Bool-cases (global_limits_exceeded c)) [
        | inr e ↦ rw e n
        | inl e ↦
            rw e (prune_excess-IsNewest older _ fits (order-pop_entry k (older ++ key ∷ []) c) next)
      ]

  prune_stale-IsNewest :
      (now : ℕ) (older : List CommandCacheKey) (c : CommandCache Response)
      → entry.created_at ≡ now
      → c.insertion_order ≡ older ++ key ∷ []
      → IsNewest key entry c
      → IsNewest key entry (prune_stale now (older ++ key ∷ []) c)
  unfolding prune_stale is_stale
  prune_stale-IsNewest now [] c fresh p n =
      let e : is_stale now key c ≡ false = ground (arith, n.found) in rw e n
  prune_stale-IsNewest now (k ∷ older) c fresh p n =
      let split = λ (j : CommandCacheKey). ap (count j) p in
      let next = pop_entry-IsNewest k older c split n in
      elim (Bool-cases (is_stale now k c)) [
        | inr e ↦ rw e n
        | inl e ↦
            rw e (
              prune_stale-IsNewest now older _ fresh (order-pop_entry k (older ++ key ∷ []) c) next)
      ]

  prune-IsNewest :
      (now : ℕ) (c : CommandCache Response)
      → entry.size ≤ max_cached_command_bytes_global
      → entry.created_at ≡ now
      → IsNewest key entry c
      → IsNewest key entry (prune now c)
  unfolding prune
  prune-IsNewest now c fits fresh n =
      let first = rw (← n.last) at (prune_stale-IsNewest now n.older c fresh n.last n) in
      rw (← first.last) at (prune_excess-IsNewest first.older _ fits first.last first)

  -- With nothing of its device before it, the newest is not over a budget of the device.
  first_of_device :
      (d : Bytes) (older : List CommandCacheKey) (c : CommandCache Response)
      → entry.size ≤ max_cached_command_bytes_per_device
      → c.insertion_order ≡ older ++ key ∷ []
      → take_of_device d older ≡ none
      → IsNewest key entry c
      → device_over_budget d c ≡ false
  unfolding count
  first_of_device d older c fits p miss n =
      let a = n.consistent.accounted in
      let (bytes, counts) = sums_of_no_device d (remove key c.entries) (λ j q. ground (
        arith,
        p,
        count-append j older (key ∷ []),
        take_of_device-none d older j miss q,
        n.consistent.ordered j,
        present-remove j key c.entries,
      )) in
      ground (
        arith,
        over_budget-values d c,
        a.bytes d,
        a.counts d,
        sum_by-remove (device_one d) key entry c.entries a.distinct n.found,
        sum_by-remove (device_size d) key entry c.entries a.distinct n.found,
      )

  enforce_device-IsNewest :
      (fuel : ℕ) (d : Bytes) (c : CommandCache Response)
      → entry.size ≤ max_cached_command_bytes_per_device
      → IsNewest key entry c
      → IsNewest key entry (enforce_device fuel d c)
  unfolding enforce_device
  enforce_device-IsNewest zero d c fits n = n
  enforce_device-IsNewest (suc fuel) d c fits n = elim (Bool-cases (device_over_budget d c)) [
    | inr e ↦ rw (e, enforce_device) n
    | inl e ↦ elim (Option-cases (take_of_device d c.insertion_order)) [
      | inl miss ↦ rw (e, miss, enforce_device) n
      | inr ((k, rest), hit) ↦
          elim (take_of_device_older d n.older key k rest
            (ap (take_of_device d) (sym n.last) ∙ hit)) [
              | inr miss ↦ absurd (ground (arith, first_of_device d n.older c fits n.last miss n))
              | inl (ys, q) ↦
                  let (_, split, _) = take_of_device-some d c.insertion_order k rest hit in
                  let next =
                    pop_entry-IsNewest k ys c (λ j. split j ∙ ap (λ r. count j (k ∷ r)) q) n in
                  rw (e, hit, enforce_device)
                    (enforce_device-IsNewest fuel d (pop_entry k rest c) fits (rw q next))
            ]
    ]
  ]

  enforce_devices-IsNewest :
      (devices : List Bytes) (c : CommandCache Response)
      → entry.size ≤ max_cached_command_bytes_per_device
      → IsNewest key entry c
      → IsNewest key entry (enforce_devices devices c)
  unfolding enforce_devices
  enforce_devices-IsNewest [] c fits n = n
  enforce_devices-IsNewest (d ∷ rest) c fits n =
      enforce_devices-IsNewest rest _ fits (enforce_device-IsNewest _ d c fits n)

module _ {Response : Type 0} (encoded_len : Response → ℕ) where
  -- From a cache that meets the invariant, the response that `insert` is given can be looked up
  -- right after, under its key and with its command, if its size is within a device's budget.
  pub get-insert_self :
      (now : ℕ) (key : CommandCacheKey) (command : Bytes) (response : Response)
      (c : CommandCache Response)
      → IsValid c
      → entry_size encoded_len key command response ≤ max_cached_command_bytes_per_device
      → get key (insert_command encoded_len now key command response c).entries
        ≡ some (entry_of encoded_len now key command response)
  unfolding insert_command enforce_device_limits entry_of
  get-insert_self now key command response c v fits =
      let entry = entry_of encoded_len now key command response in
      let c' = forget key c in
      let v' = forget-IsValid key c v in
      let stored : IsNewest key entry (store key entry c') = record {
        consistent =
            store-IsConsistent key entry c' (get-forget key c) (omega (arith, v'.global.small))
              (omega (arith, v'.global.few)) v'.consistent;
        found = unfold store in ground (arith, get-insert key key entry c'.entries);
        older = c'.insertion_order;
        last = unfold store in refl;
      } in
      let size = entry_size encoded_len key command response in
      let small : (ltb max_cached_command_bytes_per_device size
            || ltb max_cached_command_bytes_global size)
          ≡ false =
        ground arith in
      rw small
        (prune-IsNewest key entry now _ (omega arith) refl
          (enforce_devices-IsNewest key entry _ _ fits stored)).found
