-- ===== src/Prelude/Maps.antt =====
-- `HashMap`: an association list with at most one entry for a key.
use Prim.Native.Nat.{ℕ, suc, ◌+◌, ◌≤◌}
use mathlib.Core.Path.{◌≡◌, refl, ap}
use mathlib.Core.Option.{Option, none, some}
use mathlib.Core.List.{List, [], ◌∷◌}
use native.Mathlib.Omega.{arith}
use arcrelay_protocol.Prelude.Tests.{Eq, if◌then◌else◌, same}
use arcrelay_protocol.Prelude.Lists.{length}

abbrev pub Map {ℓ κ} : Type ℓ → Type κ → Type (ℓ ⊔ κ)
Map K V = List (K × V)

module _ {ℓ κ} {K : Type ℓ} {V : Type κ} ⦃e : Eq K⦄ where
  unfoldable pub get : K → Map K V → Option V
  get k [] = none
  get k ((j, v) ∷ m) = if same k j then some v else get k m

  unfoldable pub remove : K → Map K V → Map K V
  remove k [] = []
  remove k ((j, v) ∷ m) = let rest = remove k m in if same k j then rest else (j, v) ∷ rest

  unfoldable pub insert : K → V → Map K V → Map K V
  insert k v m = (k, v) ∷ remove k m

  pub get-remove :
      (j k : K) (m : Map K V) → get j (remove k m) ≡ (if same j k then none else get j m)
  unfolding get remove
  get-remove j k [] = ground arith
  get-remove j k ((i, v) ∷ m) = ground (arith, get-remove j k m)

  -- The representation is a map: a key stands in it once.
  abbrev pub IsDistinct : Map K V → Type κ
  IsDistinct [] = Unit
  IsDistinct ((k, v) ∷ m) = (get k m ≡ none) × IsDistinct m

  unfoldable pub present : K → Map K V → ℕ
  present k m = elim (get k m) [ none ↦ 0 | some _ ↦ 1 ]

  -- The sum of a quantity over the entries.
  unfoldable pub sum_by : (K → V → ℕ) → Map K V → ℕ
  sum_by f [] = 0
  sum_by f ((k, v) ∷ m) = f k v + sum_by f m

  pub get-insert :
      (j k : K) (v : V) (m : Map K V)
      → get j (insert k v m) ≡ (if same j k then some v else get j m)
  unfolding get insert
  get-insert j k v m = ground (arith, get-remove j k m)

  pub remove_absent : (k : K) (m : Map K V) → get k m ≡ none → remove k m ≡ m
  unfolding get remove
  remove_absent k [] h = refl
  remove_absent k ((j, v) ∷ m) h = ground (arith, remove_absent k m)

  pub remove-IsDistinct : (k : K) (m : Map K V) → IsDistinct m → IsDistinct (remove k m)
  unfolding remove
  remove-IsDistinct k [] d = d
  remove-IsDistinct k ((j, v) ∷ m) d = ground (arith, get-remove j k m, remove-IsDistinct k m d.1)

  pub insert-IsDistinct : (k : K) (v : V) (m : Map K V) → IsDistinct m → IsDistinct (insert k v m)
  unfolding insert
  insert-IsDistinct k v m d = ground (arith, get-remove k k m, remove-IsDistinct k m d)

  pub sum_by-remove :
      (f : K → V → ℕ) (k : K) (v : V) (m : Map K V)
      → IsDistinct m
      → get k m ≡ some v
      → sum_by f m ≡ f k v + sum_by f (remove k m)
  unfolding get remove sum_by
  sum_by-remove f k v [] d h = cc
  sum_by-remove f k v ((j, w) ∷ m) d h =
      ground (arith, remove_absent k m, sum_by-remove f k v m d.1)

  pub sum_by-insert :
      (f : K → V → ℕ) (k : K) (v : V) (m : Map K V)
      → sum_by f (insert k v m) ≡ f k v + sum_by f (remove k m)
  unfolding insert sum_by
  sum_by-insert f k v m = refl

  pub present-remove :
      (j k : K) (m : Map K V) → present j (remove k m) ≡ (if same j k then 0 else present j m)
  unfolding present
  present-remove j k m = ground (arith, get-remove j k m)

  pub present-insert :
      (j k : K) (v : V) (m : Map K V)
      → present j (insert k v m) ≡ (if same j k then 1 else present j m)
  unfolding present
  present-insert j k v m = ground (arith, get-insert j k v m)

  pub length-sum_by : (m : Map K V) → length m ≡ sum_by (λ _ _. 1) m
  unfolding sum_by
  length-sum_by [] = refl
  length-sum_by (x ∷ m) = omega (arith, length-sum_by m)

  -- A part of a sum is at most the sum.
  pub sum_by-le :
      (f g : K → V → ℕ)
      → ((k : K) (v : V) → f k v ≤ g k v)
      → (m : Map K V) → sum_by f m ≤ sum_by g m
  unfolding sum_by
  sum_by-le f g h [] = omega arith
  sum_by-le f g h ((k, v) ∷ m) = omega (arith, h k v, sum_by-le f g h m)

  pub length-remove-le : (k : K) (m : Map K V) → length (remove k m) ≤ length m
  unfolding remove
  length-remove-le k [] = omega arith
  length-remove-le k ((j, v) ∷ m) = ground (arith, length-remove-le k m)

  pub length-remove :
      (k : K) (v : V) (m : Map K V)
      → IsDistinct m
      → get k m ≡ some v
      → length m ≡ suc (length (remove k m))
  length-remove k v m d h =
      omega (arith, length-sum_by m, length-sum_by (remove k m), sum_by-remove (λ _ _. 1) k v m d h)

  pub length-insert_absent :
      (k : K) (v : V) (m : Map K V) → get k m ≡ none → length (insert k v m) ≡ suc (length m)
  unfolding insert
  length-insert_absent k v m h = ap (λ n. suc (length n)) (remove_absent k m h)

  pub length-remove_present :
      (k : K) (v : V) (m : Map K V) → get k m ≡ some v → suc (length (remove k m)) ≤ length m
  unfolding get remove
  length-remove_present k v [] h = absurd (ground (arith, h))
  length-remove_present k v ((j, w) ∷ m) h =
      ground (arith, h, length-remove_present k v m, length-remove-le k m)
