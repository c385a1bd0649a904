-- ===== src/CommandCache/Accounting.antt =====
-- The totals of the command cache agree with its entries.
use arcrelay_protocol.Prelude.{
  inl, inr, ℕ, ◌+◌, ◌≤◌, ◌<◌, ◌≡◌, refl, none, some, arith, if◌then◌else◌, Bytes, bytes_eq, same,
  length, get, u64_max, saturating_add_exact, value, IsDistinct, sum_by, Option-cases,
  sum_by-remove, sum_by-insert, remove-IsDistinct, insert-IsDistinct, value-decrement,
  value-increment, remove_absent, sum_by-le, length-sum_by,
}
use arcrelay_protocol.CommandCache.{
  CommandCacheKey, CachedCommand, CommandCache, command_cache_key_eq, empty, discard, remove_entry,
  store,
}

module _ {Response : Type 0} where
  abbrev pub size_of : CommandCacheKey → CachedCommand Response → ℕ
  size_of key entry = entry.size

  abbrev pub device_size : Bytes → CommandCacheKey → CachedCommand Response → ℕ
  device_size device key entry = if same device key.device_public_key then entry.size else 0

  abbrev pub device_one : Bytes → CommandCacheKey → CachedCommand Response → ℕ
  device_one device key entry = if same device key.device_public_key then 1 else 0

  -- What the totals stand for.
  pub record IsAccounted (c : CommandCache Response) : Type 0 where
    pub distinct : IsDistinct c.entries
    pub total : c.total_bytes ≡ sum_by size_of c.entries
    pub bytes : (d : Bytes) → value d c.per_device_bytes ≡ sum_by (device_size d) c.entries
    pub counts : (d : Bytes) → value d c.per_device_entries ≡ sum_by (device_one d) c.entries

  pub empty-IsAccounted : IsAccounted empty
  unfolding sum_by value get
  empty-IsAccounted = record { distinct = tt; total = refl; bytes = λ d. refl; counts = λ d. refl }

  discard-IsAccounted :
      (key : CommandCacheKey) (entry : CachedCommand Response) (c : CommandCache Response)
      → get key c.entries ≡ some entry
      → IsAccounted c
      → IsAccounted (discard key entry c)
  unfolding discard
  discard-IsAccounted key entry c found a = record {
    distinct = remove-IsDistinct key c.entries a.distinct;
    total = omega (arith, a.total, sum_by-remove size_of key entry c.entries a.distinct found);
    bytes = λ d. ground (
      arith,
      a.bytes d,
      sum_by-remove (device_size d) key entry c.entries a.distinct found,
      value-decrement d key.device_public_key entry.size c.per_device_bytes,
    );
    counts = λ d. ground (
      arith,
      a.counts d,
      sum_by-remove (device_one d) key entry c.entries a.distinct found,
      value-decrement d key.device_public_key 1 c.per_device_entries,
    );
  }

  pub remove_entry-IsAccounted :
      (key : CommandCacheKey) (c : CommandCache Response)
      → IsAccounted c
      → IsAccounted (remove_entry key c)
  unfolding remove_entry
  remove_entry-IsAccounted key c a = elim (Option-cases (get key c.entries)) [
    | inl e ↦ rw (e, remove_entry) a
    | inr (entry, e) ↦ rw (e, remove_entry) (discard-IsAccounted key entry c e a)
  ]

  -- No device has more than there is.
  pub device_bytes-le :
      (d : Bytes) (c : CommandCache Response)
      → IsAccounted c
      → value d c.per_device_bytes ≤ c.total_bytes
  device_bytes-le d c a =
      let part = sum_by-le (device_size d) size_of (λ k v. ground arith) c.entries in
      omega (arith, part, a.bytes d, a.total)

  pub device_entries-le :
      (d : Bytes) (c : CommandCache Response)
      → IsAccounted c
      → value d c.per_device_entries ≤ length c.entries
  device_entries-le d c a =
      let part = sum_by-le (device_one d) (λ _ _. 1) (λ k v. ground arith) c.entries in
      omega (arith, part, a.counts d, length-sum_by c.entries)

  -- A fresh entry that fits is counted once in each total.
  pub store-IsAccounted :
      (key : CommandCacheKey) (entry : CachedCommand Response) (c : CommandCache Response)
      → get key c.entries ≡ none
      → c.total_bytes + entry.size < u64_max
      → length c.entries < u64_max
      → IsAccounted c
      → IsAccounted (store key entry c)
  unfolding store
  store-IsAccounted key entry c fresh fits few a = record {
    distinct = insert-IsDistinct key entry c.entries a.distinct;
    total = grind (
      arith,
      saturating_add_exact c.total_bytes entry.size,
      a.total,
      sum_by-insert size_of key entry c.entries,
      remove_absent key c.entries fresh,
    );
    bytes = λ d. ground (
      arith,
      a.bytes d,
      a.bytes key.device_public_key,
      device_bytes-le key.device_public_key c a,
      sum_by-insert (device_size d) key entry c.entries,
      remove_absent key c.entries fresh,
      value-increment d key.device_public_key entry.size c.per_device_bytes,
    );
    counts = λ d. ground (
      arith,
      a.counts d,
      device_entries-le key.device_public_key c a,
      sum_by-insert (device_one d) key entry c.entries,
      remove_absent key c.entries fresh,
      value-increment d key.device_public_key 1 c.per_device_entries,
    );
  }
