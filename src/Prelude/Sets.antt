-- ===== src/Prelude/Sets.antt =====
-- `HashSet`: a list in which a value stands at most once.
use Prim.Native.Nat.{ℕ}
use mathlib.Core.Path.{◌≡◌, refl}
use mathlib.Core.Bool.{Bool, false, ◌||◌}
use mathlib.Core.List.{List, [], ◌∷◌}
use native.Mathlib.Omega.{arith}
use arcrelay_protocol.Prelude.Tests.{Eq, if◌then◌else◌, same, ltb}
use arcrelay_protocol.Prelude.Lists.{count}

-- How often a value stands in a set once it has been added.
abbrev pub max_one : ℕ → ℕ
max_one n = if ltb 0 n then n else 1

module _ {ℓ} {A : Type ℓ} ⦃e : Eq A⦄ where
  unfoldable pub contains : A → List A → Bool
  contains a [] = false
  contains a (x ∷ xs) = same a x || contains a xs

  unfoldable pub add_element : A → List A → List A
  add_element a xs = if contains a xs then xs else a ∷ xs

  unfoldable pub remove_element : A → List A → List A
  remove_element a [] = []
  remove_element a (x ∷ xs) = let rest = remove_element a xs in if same a x then rest else x ∷ rest

  pub contains-count : (a : A) (xs : List A) → contains a xs ≡ ltb 0 (count a xs)
  unfolding contains count
  contains-count a [] = refl
  contains-count a (x ∷ xs) = ground (arith, contains-count a xs)

  pub count-remove_element :
      (j a : A) (xs : List A) → count j (remove_element a xs) ≡ (if same j a then 0 else count j xs)
  unfolding remove_element count
  count-remove_element j a [] = ground arith
  count-remove_element j a (x ∷ xs) = ground (arith, count-remove_element j a xs)

  pub count-add_element :
      (j a : A) (xs : List A)
      → count j (add_element a xs) ≡ (if same j a then max_one (count j xs) else count j xs)
  unfolding add_element count
  count-add_element j a xs = ground (arith, contains-count a xs)
