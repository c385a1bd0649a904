-- ===== src/CommandCache/Eviction.antt =====
-- What leaving out entries means: no entry changes, none is made up, and running commands stay.
use arcrelay_protocol.Prelude.{
  inl, inr, ◌⊎◌, ℕ, suc, zero, ◌≡◌, refl, ◌∙◌, ◌||◌, some, List, [], ◌∷◌, arith, ltb, Bytes,
  bytes_eq, nat_eq, length, get, get-remove, get-insert, Option-cases, Bool-cases,
}
use arcrelay_protocol.CommandCache.{
  CommandCacheKey, CachedCommand, CommandCache, command_cache_key_eq, discard, remove_entry, store,
  pop_entry, is_stale, global_limits_exceeded, prune_stale, prune_excess, prune, take_of_device,
  forget, device_over_budget, enforce_device, enforce_devices, over_budget_devices,
  enforce_device_limits, insert as insert_command, entry_of, CommandCacheKey-discrete, entry_size,
  max_cached_command_bytes_per_device, max_cached_command_bytes_global,
}

module _ {Response : Type 0} where
  -- The second cache holds entries of the first only, and the same running commands.
  pub record Shrinks (c d : CommandCache Response) : Type 0 where
    pub entries :
        (k : CommandCacheKey) (e : CachedCommand Response)
        → get k d.entries ≡ some e
        → get k c.entries ≡ some e
    pub in_flight : d.in_flight ≡ c.in_flight

  same_cache : (c : CommandCache Response) → Shrinks c c
  same_cache c = record { entries = λ k e h. h; in_flight = refl }

  trans : {a b c : CommandCache Response} → Shrinks a b → Shrinks b c → Shrinks a c
  trans f g = record {
    entries = λ k e h. f.entries k e (g.entries k e h);
    in_flight = g.in_flight ∙ f.in_flight;
  }

  remove_entry-Shrinks :
      (key : CommandCacheKey) (c : CommandCache Response) → Shrinks c (remove_entry key c)
  unfolding remove_entry discard
  remove_entry-Shrinks key c = record {
    entries = λ k e h. ground (arith, get-remove k key c.entries, h);
    in_flight = ground arith;
  }

  pop_entry-Shrinks :
      (key : CommandCacheKey) (rest : List CommandCacheKey) (c : CommandCache Response)
      → Shrinks c (pop_entry key rest c)
  unfolding pop_entry
  pop_entry-Shrinks key rest c =
      let s = remove_entry-Shrinks key (record c { insertion_order = rest }) in
      record { entries = s.entries; in_flight = s.in_flight }

  prune_stale-Shrinks :
      (now : ℕ) (order : List CommandCacheKey) (c : CommandCache Response)
      → Shrinks c (prune_stale now order c)
  unfolding prune_stale
  prune_stale-Shrinks now [] c = same_cache c
  prune_stale-Shrinks now (key ∷ rest) c = elim (Bool-cases (is_stale now key c)) [
    | inl e ↦
        rw e (
          trans (pop_entry-Shrinks key rest c)
            (prune_stale-Shrinks now rest (pop_entry key rest c)))
    | inr e ↦ rw e (same_cache c)
  ]

  prune_excess-Shrinks :
      (order : List CommandCacheKey) (c : CommandCache Response) → Shrinks c (prune_excess order c)
  unfolding prune_excess
  prune_excess-Shrinks [] c = same_cache c
  prune_excess-Shrinks (key ∷ rest) c = elim (Bool-cases (global_limits_exceeded c)) [
    | inl e ↦
        rw e
          (trans (pop_entry-Shrinks key rest c) (prune_excess-Shrinks rest (pop_entry key rest c)))
    | inr e ↦ rw e (same_cache c)
  ]

  pub prune-Shrinks : (now : ℕ) (c : CommandCache Response) → Shrinks c (prune now c)
  unfolding prune
  prune-Shrinks now c =
      trans (prune_stale-Shrinks now c.insertion_order c)
        (prune_excess-Shrinks (prune_stale now c.insertion_order c).insertion_order _)

  enforce_device-Shrinks :
      (fuel : ℕ) (device : Bytes) (c : CommandCache Response)
      → Shrinks c (enforce_device fuel device c)
  unfolding enforce_device
  enforce_device-Shrinks zero device c = same_cache c
  enforce_device-Shrinks (suc fuel) device c = elim (Bool-cases (device_over_budget device c)) [
    | inr e ↦ rw (e, enforce_device) (same_cache c)
    | inl e ↦ elim (Option-cases (take_of_device device c.insertion_order)) [
      | inl miss ↦ rw (e, miss, enforce_device) (same_cache c)
      | inr ((key, rest), hit) ↦
          rw (e, hit, enforce_device)
            (trans (pop_entry-Shrinks key rest c)
              (enforce_device-Shrinks fuel device (pop_entry key rest c)))
    ]
  ]

  enforce_devices-Shrinks :
      (devices : List Bytes) (c : CommandCache Response) → Shrinks c (enforce_devices devices c)
  unfolding enforce_devices
  enforce_devices-Shrinks [] c = same_cache c
  enforce_devices-Shrinks (device ∷ rest) c =
      trans (enforce_device-Shrinks (length c.insertion_order) device c)
        (enforce_devices-Shrinks rest _)

  stored :
      (key : CommandCacheKey) (entry : CachedCommand Response) (c : CommandCache Response)
      (k : CommandCacheKey) (e : CachedCommand Response)
      → get k (store key entry c).entries ≡ some e
      → ((k ≡ key) × (entry ≡ e)) ⊎ (get k c.entries ≡ some e)
  unfolding store
  stored key entry c k e h = elim (CommandCacheKey-discrete k key) [
    | yes p ↦ inl (p, ground (arith, get-insert k key entry c.entries, h))
    | no p ↦ inr (ground (arith, get-insert k key entry c.entries, h))
  ]

  forget-Shrinks : (key : CommandCacheKey) (c : CommandCache Response) → Shrinks c (forget key c)
  unfolding forget
  forget-Shrinks key c =
      let s = remove_entry-Shrinks key c in record { entries = s.entries; in_flight = s.in_flight }

  -- The part of `insert` that follows the removal of an earlier entry.
  bounded-Shrinks :
      (now : ℕ) (c : CommandCache Response) → Shrinks c (prune now (enforce_device_limits c))
  unfolding enforce_device_limits
  bounded-Shrinks now c =
      trans (enforce_devices-Shrinks (over_budget_devices c.per_device_entries c) c)
        (prune-Shrinks now _)

  pub insert-in_flight :
      (encoded_len : Response → ℕ) (now : ℕ) (key : CommandCacheKey) (command : Bytes)
      (response : Response) (c : CommandCache Response)
      → (insert_command encoded_len now key command response c).in_flight ≡ c.in_flight
  unfolding insert_command store
  insert-in_flight encoded_len now key command response c = ground (
    arith,
    (forget-Shrinks key c).in_flight,
    (bounded-Shrinks now
        (store key (entry_of encoded_len now key command response) (forget key c))).in_flight,
  )

  -- After an insert, each entry is the new one, or one that was there before.
  pub insert-entries :
      (encoded_len : Response → ℕ) (now : ℕ) (key : CommandCacheKey) (command : Bytes)
      (response : Response) (c : CommandCache Response) (k : CommandCacheKey)
      (e : CachedCommand Response)
      → get k (insert_command encoded_len now key command response c).entries ≡ some e
      → ((k ≡ key) × (e.command ≡ command) × (e.response ≡ response)) ⊎ (get k c.entries ≡ some e)
  unfolding insert_command
  insert-entries encoded_len now key command response c k e h =
      let size = entry_size encoded_len key command response in
      elim (Bool-cases (
        ltb max_cached_command_bytes_per_device size || ltb max_cached_command_bytes_global size)) [
          | inl big ↦ inr ((forget-Shrinks key c).entries k e (ground (arith, h, big)))
          | inr small ↦
              let entry = entry_of encoded_len now key command response in
              let found =
                (bounded-Shrinks now (store key entry (forget key c))).entries k e
                  (ground (arith, h, small)) in
              elim (stored key entry (forget key c) k e found) [
                | inl (same_key, p) ↦ inl (
                  same_key,
                  unfold entry_of in ground (arith, p),
                  unfold entry_of in ground (arith, p),
                )
                | inr old ↦ inr ((forget-Shrinks key c).entries k e old)
              ]
        ]
