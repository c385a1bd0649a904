-- ===== src/CommandCache/DeviceLimits.antt =====
-- `enforce_device_limits` brings every device within its budgets, and `prune` keeps it there.
use arcrelay_protocol.Prelude.{
  inl, inr, ℕ, suc, zero, ◌≤◌, ◌<◌, ◌≡◌, ◌≢◌, refl, sym, ◌∙◌, true, false, ◌||◌, none, some, List,
  [], ◌∷◌, arith, ltb, Bytes, bytes_eq, nat_eq, length, count, Map, get, present, Option-cases,
  Bool-cases, value, value-decrement, value_pos, exceeds-eq-ltb, sum_by,
}
use arcrelay_protocol.CommandCache.{
  CommandCacheKey, CachedCommand, CommandCache, command_cache_key_eq, discard, remove_entry,
  pop_entry, is_stale, global_limits_exceeded, prune_stale, prune_excess, prune, take_of_device,
  device_over_budget, enforce_device, enforce_devices, over_budget_devices, enforce_device_limits,
  max_cached_commands_per_device, max_cached_command_bytes_per_device,
}
use arcrelay_protocol.CommandCache.Accounting.{device_size, device_one}
use arcrelay_protocol.CommandCache.Order.{
  IsConsistent, pop_entry-IsConsistent, order-pop_entry, enforce_device-IsConsistent,
  take_of_device-some, take_of_device-none,
}

none_of_empty :
    (d : Bytes) (order : List CommandCacheKey) → length order ≤ 0 → take_of_device d order ≡ none
unfolding take_of_device
none_of_empty d [] e = refl
none_of_empty d (k ∷ order) e = absurd (omega arith)

module _ {Response : Type 0} where
  pub record IsWithinDevices (c : CommandCache Response) : Type 0 where
    pub few : (d : Bytes) → value d c.per_device_entries ≤ max_cached_commands_per_device
    pub small : (d : Bytes) → value d c.per_device_bytes ≤ max_cached_command_bytes_per_device

  -- Taking an entry out raises no device's totals.
  remove_entry_le :
      (d : Bytes) (key : CommandCacheKey) (c : CommandCache Response)
      → (value d (remove_entry key c).per_device_entries ≤ value d c.per_device_entries)
        × (value d (remove_entry key c).per_device_bytes ≤ value d c.per_device_bytes)
  unfolding remove_entry discard
  remove_entry_le d key c = elim (Option-cases (get key c.entries)) [
    | inl e ↦ rw (e, remove_entry) (omega arith, omega arith)
    | inr (entry, e) ↦
        rw (e, remove_entry)
          (
            ground (arith, value-decrement d key.device_public_key 1 c.per_device_entries),
            ground (arith, value-decrement d key.device_public_key entry.size c.per_device_bytes),
          )
  ]

  pop_entry_le :
      (d : Bytes) (key : CommandCacheKey) (rest : List CommandCacheKey) (c : CommandCache Response)
      → (value d (pop_entry key rest c).per_device_entries ≤ value d c.per_device_entries)
        × (value d (pop_entry key rest c).per_device_bytes ≤ value d c.per_device_bytes)
  unfolding pop_entry
  pop_entry_le d key rest c = remove_entry_le d key (record c { insertion_order = rest })

  pub over_budget-values :
      (d : Bytes) (c : CommandCache Response)
      → device_over_budget d c ≡ (
          ltb max_cached_commands_per_device (value d c.per_device_entries)
          || ltb max_cached_command_bytes_per_device (value d c.per_device_bytes))
  unfolding device_over_budget
  over_budget-values d c = simp exceeds-eq-ltb

  -- A device with no key in the cache has empty totals.
  pub sums_of_no_device :
      (d : Bytes) (m : Map CommandCacheKey (CachedCommand Response))
      → ((k : CommandCacheKey) → k.device_public_key ≡ d → present k m ≡ 0)
      → (sum_by (device_size d) m ≡ 0) × (sum_by (device_one d) m ≡ 0)
  unfolding present get sum_by
  sums_of_no_device d [] h = (refl, refl)
  sums_of_no_device d ((k, v) ∷ m) h =
      ground (arith, h k, sums_of_no_device d m (λ j p. ground (arith, h j p, h k)))

  -- A device over its budget has a key in the order.
  over_budget_has_key :
      (d : Bytes) (c : CommandCache Response)
      → IsConsistent c
      → device_over_budget d c ≡ true
      → take_of_device d c.insertion_order ≢ none
  over_budget_has_key d c h over miss =
      let (bytes, counts) =
        sums_of_no_device d c.entries
          (λ k p. sym (h.ordered k) ∙ take_of_device-none d c.insertion_order k miss p) in
      ground (arith, over_budget-values d c, h.accounted.bytes d, h.accounted.counts d)

  -- The loop ends by its own test: as many rounds as there are keys are enough.
  enforce_device_within :
      (fuel : ℕ) (d : Bytes) (c : CommandCache Response)
      → IsConsistent c
      → length c.insertion_order ≤ fuel
      → device_over_budget d (enforce_device fuel d c) ≡ false
  unfolding enforce_device
  enforce_device_within zero d c h enough = elim (Bool-cases (device_over_budget d c)) [
    | inr e ↦ e
    | inl e ↦ absurd (over_budget_has_key d c h e (none_of_empty d c.insertion_order (omega arith)))
  ]
  enforce_device_within (suc fuel) d c h enough = elim (Bool-cases (device_over_budget d c)) [
    | inr e ↦ rw (e, enforce_device) e
    | inl e ↦ elim (Option-cases (take_of_device d c.insertion_order)) [
      | inl miss ↦ absurd (over_budget_has_key d c h e miss)
      | inr ((key, rest), hit) ↦
          let (_, split, len) = take_of_device-some d c.insertion_order key rest hit in
          rw (e, hit, enforce_device)
            (enforce_device_within fuel d (pop_entry key rest c)
              (pop_entry-IsConsistent key rest c split h) (rw order-pop_entry (omega arith)))
    ]
  ]

  -- No loop raises the totals of a device.
  enforce_device_keeps :
      (fuel : ℕ) (x d : Bytes) (c : CommandCache Response)
      → (value d (enforce_device fuel x c).per_device_entries ≤ value d c.per_device_entries)
        × (value d (enforce_device fuel x c).per_device_bytes ≤ value d c.per_device_bytes)
  unfolding enforce_device
  enforce_device_keeps zero x d c = (omega arith, omega arith)
  enforce_device_keeps (suc fuel) x d c = elim (Bool-cases (device_over_budget x c)) [
    | inr e ↦ rw (e, enforce_device) (omega arith, omega arith)
    | inl e ↦ elim (Option-cases (take_of_device x c.insertion_order)) [
      | inl miss ↦ rw (e, miss, enforce_device) (omega arith, omega arith)
      | inr ((key, rest), hit) ↦
          let step = pop_entry_le d key rest c in
          let loop = enforce_device_keeps fuel x d (pop_entry key rest c) in
          rw (e, hit, enforce_device) (omega arith, omega arith)
    ]
  ]

  enforce_devices_within :
      (devices : List Bytes) (c : CommandCache Response) (d : Bytes)
      → IsConsistent c
      → (device_over_budget d c ≡ true → 0 < count d devices)
      → device_over_budget d (enforce_devices devices c) ≡ false
  unfolding enforce_devices count
  enforce_devices_within [] c d h listed = ground (arith, Bool-cases (device_over_budget d c))
  enforce_devices_within (x ∷ devices) c d h listed =
      let fuel = length c.insertion_order in
      let c' = enforce_device fuel x c in
      let kept = enforce_device_keeps fuel x d c in
      let done = enforce_device_within fuel x c h (omega arith) in
      enforce_devices_within devices c' d (enforce_device-IsConsistent fuel x c h)
        (λ over. ground (arith, over_budget-values d c, over_budget-values d c', listed))

  -- Bytes are owned by entries.
  sizes_of_no_entries :
      (d : Bytes) (m : Map CommandCacheKey (CachedCommand Response))
      → sum_by (device_one d) m ≡ 0
      → sum_by (device_size d) m ≡ 0
  unfolding sum_by
  sizes_of_no_entries d [] h = refl
  sizes_of_no_entries d ((k, v) ∷ m) h = ground (arith, sizes_of_no_entries d m)

  over_budget_listed :
      (d : Bytes) (n : ℕ) (counters : Map Bytes ℕ) (c : CommandCache Response)
      → get d counters ≡ some n
      → device_over_budget d c ≡ true
      → 0 < count d (over_budget_devices counters c)
  unfolding over_budget_devices get count
  over_budget_listed d n [] c found over = cc
  over_budget_listed d n ((x, v) ∷ counters) c found over =
      ground (arith, over_budget_listed d n counters c)

  over_budget_counted :
      (d : Bytes) (c : CommandCache Response)
      → IsConsistent c
      → device_over_budget d c ≡ true
      → 0 < value d c.per_device_entries
  over_budget_counted d c h over = ground (
    arith,
    over_budget-values d c,
    h.accounted.bytes d,
    h.accounted.counts d,
    sizes_of_no_entries d c.entries,
  )

  pub enforce_device_limits-IsWithinDevices :
      (c : CommandCache Response) → IsConsistent c → IsWithinDevices (enforce_device_limits c)
  unfolding enforce_device_limits
  enforce_device_limits-IsWithinDevices c h =
      let devices = over_budget_devices c.per_device_entries c in
      let done = λ (d : Bytes). enforce_devices_within devices c d h (λ over.
        let (n, found) = value_pos d c.per_device_entries (over_budget_counted d c h over) in
        over_budget_listed d n c.per_device_entries c found over) in
      record {
        few = λ d. ground (arith, done d, over_budget-values d (enforce_devices devices c));
        small = λ d. ground (arith, done d, over_budget-values d (enforce_devices devices c));
      }

  pub remove_entry-IsWithinDevices :
      (key : CommandCacheKey) (c : CommandCache Response)
      → IsWithinDevices c
      → IsWithinDevices (remove_entry key c)
  remove_entry-IsWithinDevices key c w = record {
    few = λ d. omega (arith, remove_entry_le d key c, w.few d);
    small = λ d. omega (arith, remove_entry_le d key c, w.small d);
  }

  pop_entry-IsWithinDevices :
      (key : CommandCacheKey) (rest : List CommandCacheKey) (c : CommandCache Response)
      → IsWithinDevices c
      → IsWithinDevices (pop_entry key rest c)
  unfolding pop_entry
  pop_entry-IsWithinDevices key rest c w =
      remove_entry-IsWithinDevices key (record c { insertion_order = rest })
        (record { few = w.few; small = w.small })

  prune_stale-IsWithinDevices :
      (now : ℕ) (order : List CommandCacheKey) (c : CommandCache Response)
      → IsWithinDevices c
      → IsWithinDevices (prune_stale now order c)
  unfolding prune_stale
  prune_stale-IsWithinDevices now [] c w = w
  prune_stale-IsWithinDevices now (key ∷ rest) c w =
      let next = prune_stale-IsWithinDevices now rest _ (pop_entry-IsWithinDevices key rest c w) in
      elim (Bool-cases (is_stale now key c)) [ inl e ↦ rw e next | inr e ↦ rw e w ]

  prune_excess-IsWithinDevices :
      (order : List CommandCacheKey) (c : CommandCache Response)
      → IsWithinDevices c
      → IsWithinDevices (prune_excess order c)
  unfolding prune_excess
  prune_excess-IsWithinDevices [] c w = w
  prune_excess-IsWithinDevices (key ∷ rest) c w =
      let next = prune_excess-IsWithinDevices rest _ (pop_entry-IsWithinDevices key rest c w) in
      elim (Bool-cases (global_limits_exceeded c)) [ inl e ↦ rw e next | inr e ↦ rw e w ]

  pub prune-IsWithinDevices :
      (now : ℕ) (c : CommandCache Response) → IsWithinDevices c → IsWithinDevices (prune now c)
  unfolding prune
  prune-IsWithinDevices now c w =
      prune_excess-IsWithinDevices _ _ (prune_stale-IsWithinDevices now c.insertion_order c w)
