-- ===== src/Prelude/Words.antt =====
-- Unsigned machine words: `usize` and `u64`, as natural numbers below 2 ^ 64.
use Prim.Native.Nat.{ℕ, ◌+◌, ◌%◌, ◌≤◌}
use mathlib.Core.Path.{◌≡◌}
use native.Mathlib.Omega.{arith}
use arcrelay_protocol.Prelude.Tests.{ltb, if◌then◌else◌}

abbrev pub u64_max : ℕ
u64_max = 18446744073709551615

-- `usize::saturating_add`. (`saturating_sub` is the truncated `-` of ℕ.)
unfoldable pub saturating_add : ℕ → ℕ → ℕ
saturating_add a b = if ltb u64_max (a + b) then u64_max else a + b

-- `+` in a release build, where it wraps.
unfoldable pub wrapping_add : ℕ → ℕ → ℕ
wrapping_add a b = (a + b) % 18446744073709551616

pub saturating_add_exact : (a b : ℕ) → a + b ≤ u64_max → saturating_add a b ≡ a + b
unfolding saturating_add
saturating_add_exact a b h = ground arith

pub wrapping_add_exact : (a b : ℕ) → a + b ≤ u64_max → wrapping_add a b ≡ a + b
unfolding wrapping_add
wrapping_add_exact a b h = omega arith
