-- ===== src/Prelude/Counters.antt =====
-- Counters keyed by a value, as the caches keep them: an absent key counts as zero, and a counter
-- that reaches zero is removed.
use Prim.Native.Nat.{ℕ, ◌+◌, ◌-◌, ◌≤◌, ◌<◌}
use mathlib.Core.Path.{◌≡◌}
use mathlib.Core.Bool.{Bool}
use mathlib.Core.Option.{none, some}
use native.Mathlib.Omega.{arith}
use arcrelay_protocol.Prelude.Tests.{Eq, if◌then◌else◌, same, ltb, ◌==◌, is_some_and}
use arcrelay_protocol.Prelude.Maps.{Map, get, insert, remove, get-insert, get-remove}
use arcrelay_protocol.Prelude.Words.{wrapping_add, wrapping_add_exact, u64_max}

module _ {ℓ} {K : Type ℓ} ⦃e : Eq K⦄ where
  -- `map.get(key).copied().unwrap_or_default()`
  unfoldable pub value : K → Map K ℕ → ℕ
  value k m = elim (get k m) [ none ↦ 0 | some n ↦ n ]

  -- `*map.entry(key).or_default() += amount`
  unfoldable pub increment : K → ℕ → Map K ℕ → Map K ℕ
  increment k amount m = insert k (wrapping_add (value k m) amount) m

  -- `*value = value.saturating_sub(amount)`, and the removal of a zero
  unfoldable pub decrement : K → ℕ → Map K ℕ → Map K ℕ
  decrement k amount m = elim (get k m) [
    | none ↦ m
    | some n ↦ if n - amount == 0 then remove k m else insert k (n - amount) m
  ]

  -- `map.get(key).is_some_and(|n| *n > limit)`
  unfoldable pub exceeds : ℕ → K → Map K ℕ → Bool
  exceeds limit k m = is_some_and (get k m) (λ n. ltb limit n)

  pub exceeds-eq-ltb : (limit : ℕ) (k : K) (m : Map K ℕ) → exceeds limit k m ≡ ltb limit (value k m)
  unfolding exceeds value
  exceeds-eq-ltb limit k m = ground arith

  pub value-increment :
      (j k : K) (n : ℕ) (m : Map K ℕ)
      → value k m + n ≤ u64_max
      → value j (increment k n m) ≡ (if same j k then value j m + n else value j m)
  unfolding value increment
  value-increment j k n m h =
      ground
        (arith, get-insert j k (wrapping_add (value k m) n) m, wrapping_add_exact (value k m) n)

  pub value-decrement :
      (j k : K) (n : ℕ) (m : Map K ℕ)
      → value j (decrement k n m) ≡ (if same j k then value j m - n else value j m)
  unfolding value decrement
  value-decrement j k n m = ground (arith, get-remove j k m, get-insert j k (value k m - n) m)

  -- The keys whose counter is positive are among the keys.
  pub value_pos : (k : K) (m : Map K ℕ) → 0 < value k m → (n : ℕ) × (get k m ≡ some n)
  unfolding value
  value_pos k m h = ground arith

  pub value-insert :
      (j k : K) (n : ℕ) (m : Map K ℕ) → value j (insert k n m) ≡ (if same j k then n else value j m)
  unfolding value
  value-insert j k n m = ground (arith, get-insert j k n m)
