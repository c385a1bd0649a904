-- ===== src/CommandCache/Insertion.antt =====
-- The invariant of the command cache and its budgets, through `insert` and `prune`.
use arcrelay_protocol.Prelude.{
  inl, inr, ℕ, ◌≤◌, ◌≡◌, refl, ◌||◌, none, arith, ltb, Bytes, bytes_eq, nat_eq, length, count, get,
  present, get-remove, Bool-cases, value, length-remove-le,
}
use arcrelay_protocol.CommandCache.{
  CommandCacheKey, CachedCommand, CommandCache, command_cache_key_eq, empty, discard, remove_entry,
  store, prune, forget, over_budget_devices, enforce_device_limits, insert as insert_command,
  entry_size, entry_of, max_cached_command_bytes_per_device, max_cached_command_bytes_global,
}
use arcrelay_protocol.CommandCache.Accounting.{empty-IsAccounted}
use arcrelay_protocol.CommandCache.Order.{
  IsConsistent, forget-IsConsistent, store-IsConsistent, prune-IsConsistent,
  enforce_devices-IsConsistent,
}
use arcrelay_protocol.CommandCache.Limits.{IsWithinGlobal, prune-IsWithinGlobal}
use arcrelay_protocol.CommandCache.DeviceLimits.{
  IsWithinDevices, enforce_device_limits-IsWithinDevices, remove_entry-IsWithinDevices,
  prune-IsWithinDevices,
}

module _ {Response : Type 0} where
  -- Totals and order agree with the entries, and every budget holds.
  pub record IsValid (c : CommandCache Response) : Type 0 where
    pub consistent : IsConsistent c
    pub global : IsWithinGlobal c
    pub devices : IsWithinDevices c

  -- The cache that the server starts with meets the invariant.
  pub empty-IsValid : IsValid empty
  unfolding count present value get
  empty-IsValid = record {
    consistent = record { accounted = empty-IsAccounted; ordered = λ k. refl };
    global = record { few = omega arith; small = omega arith };
    devices = record { few = λ d. omega arith; small = λ d. omega arith };
  }

  remove_entry_shrinks :
      (key : CommandCacheKey) (c : CommandCache Response)
      → IsConsistent c
      → (get key (remove_entry key c).entries ≡ none)
        × (length (remove_entry key c).entries ≤ length c.entries)
        × ((remove_entry key c).total_bytes ≤ c.total_bytes)
  unfolding remove_entry discard
  remove_entry_shrinks key c h =
      ground (arith, get-remove key key c.entries, length-remove-le key c.entries)

  pub forget-IsValid :
      (key : CommandCacheKey) (c : CommandCache Response) → IsValid c → IsValid (forget key c)
  unfolding forget
  forget-IsValid key c v =
      let (_, fewer, less) = remove_entry_shrinks key c v.consistent in
      let w = remove_entry-IsWithinDevices key c v.devices in
      record {
        consistent = forget-IsConsistent key c v.consistent;
        global = record { few = omega arith; small = omega arith };
        devices = record { few = w.few; small = w.small };
      }

  -- `prune` keeps the invariant and every budget, at any time.
  pub prune-IsValid : (now : ℕ) (c : CommandCache Response) → IsValid c → IsValid (prune now c)
  prune-IsValid now c v = record {
    consistent = prune-IsConsistent now c v.consistent;
    global = prune-IsWithinGlobal now c v.consistent;
    devices = prune-IsWithinDevices now c v.devices;
  }

  -- The part of `insert` that follows the removal of an earlier entry.
  bounded-IsValid :
      (now : ℕ) (key : CommandCacheKey) (entry : CachedCommand Response) (c : CommandCache Response)
      → get key c.entries ≡ none
      → entry.size ≤ max_cached_command_bytes_per_device
      → IsValid c
      → IsValid (prune now (enforce_device_limits (store key entry c)))
  unfolding enforce_device_limits
  bounded-IsValid now key entry c fresh fits v =
      let stored = store-IsConsistent key entry c fresh (omega arith) (omega arith) v.consistent in
      let enforced =
        enforce_devices-IsConsistent
          (over_budget_devices (store key entry c).per_device_entries (store key entry c))
          (store key entry c) stored in
      record {
        consistent = prune-IsConsistent now _ enforced;
        global = prune-IsWithinGlobal now _ enforced;
        devices = prune-IsWithinDevices now _ (enforce_device_limits-IsWithinDevices _ stored);
      }

  pub get-forget :
      (key : CommandCacheKey) (c : CommandCache Response) → get key (forget key c).entries ≡ none
  unfolding forget remove_entry discard
  get-forget key c = ground (arith, get-remove key key c.entries)

  module _ (encoded_len : Response → ℕ) where
    -- `insert` keeps the invariant: whatever is inserted, at any time, the totals and the order
    -- agree with the entries, no device is over its budgets and the cache is within the global ones.
    pub insert-IsValid :
        (now : ℕ) (key : CommandCacheKey) (command : Bytes) (response : Response)
        (c : CommandCache Response)
        → IsValid c
        → IsValid (insert_command encoded_len now key command response c)
    unfolding insert_command
    insert-IsValid now key command response c v =
        let size = entry_size encoded_len key command response in
        let w = forget-IsValid key c v in
        elim (Bool-cases (
          ltb max_cached_command_bytes_per_device size
          || ltb max_cached_command_bytes_global size)) [
            | inl e ↦ rw e w
            | inr e ↦ rw e (
                bounded-IsValid now key (entry_of encoded_len now key command response)
                  (forget key c) (get-forget key c) (ground arith) w)
          ]
