-- ===== src/CommandCache/Limits.antt =====
-- The second loop of `prune` brings the cache as a whole within its budgets.
use arcrelay_protocol.Prelude.{
  inl, inr, ℕ, ◌≤◌, ◌≡◌, refl, ap, sym, ◌∙◌, List, [], ◌∷◌, arith, bytes_eq, nat_eq, length, count,
  Map, get, present, Bool-cases, sum_by,
}
use arcrelay_protocol.CommandCache.{
  CommandCacheKey, CachedCommand, CommandCache, command_cache_key_eq, pop_entry,
  global_limits_exceeded, prune_excess, prune, max_cached_commands_global,
  max_cached_command_bytes_global,
}
use arcrelay_protocol.CommandCache.Order.{
  IsConsistent, pop_entry-IsConsistent, order-pop_entry, prune_stale-IsConsistent,
}

module _ {Response : Type 0} where
  pub record IsWithinGlobal (c : CommandCache Response) : Type 0 where
    pub few : length c.entries ≤ max_cached_commands_global
    pub small : c.total_bytes ≤ max_cached_command_bytes_global

  -- A cache with no key in its order has no entry.
  pub entries_of_no_order :
      (m : Map CommandCacheKey (CachedCommand Response))
      → ((k : CommandCacheKey) → present k m ≡ 0)
      → m ≡ []
  unfolding present get
  entries_of_no_order [] h = refl
  entries_of_no_order ((k, v) ∷ m) h = ground (arith, h k)

  prune_excess-IsWithinGlobal :
      (order : List CommandCacheKey) (c : CommandCache Response)
      → c.insertion_order ≡ order
      → IsConsistent c
      → IsWithinGlobal (prune_excess order c)
  unfolding prune_excess count sum_by
  prune_excess-IsWithinGlobal [] c p h =
      let e = entries_of_no_order c.entries (λ k. sym (h.ordered k) ∙ ap (count k) p) in
      ground (arith, e, h.accounted.total)
  prune_excess-IsWithinGlobal (key ∷ rest) c p h = elim (Bool-cases (global_limits_exceeded c)) [
    | inl e ↦ rw e (
        prune_excess-IsWithinGlobal rest (pop_entry key rest c) (order-pop_entry key rest c)
          (pop_entry-IsConsistent key rest c (λ j. ap (count j) p) h))
    | inr e ↦ rw e (unfold global_limits_exceeded in ground arith)
  ]

  -- `prune` brings the whole cache within its budgets.
  pub prune-IsWithinGlobal :
      (now : ℕ) (c : CommandCache Response) → IsConsistent c → IsWithinGlobal (prune now c)
  unfolding prune
  prune-IsWithinGlobal now c h =
      prune_excess-IsWithinGlobal _ _ refl (prune_stale-IsConsistent now c.insertion_order c refl h)
