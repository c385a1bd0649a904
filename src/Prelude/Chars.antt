-- ===== src/Prelude/Chars.antt =====
-- The characters of a text in UTF-8, and its parts between separators.
use Prim.Native.Nat.{ℕ, zero, suc}
use mathlib.Core.Bool.{Bool, true, false, ◌&&◌, ◌||◌}
use mathlib.Core.List.{List, [], ◌∷◌}
use arcrelay_protocol.Prelude.Tests.{ltb, leb, ◌==◌, Bytes, if◌then◌else◌}

-- `chars().any(char::is_control)`: below 32, 127, or 128 to 159, which is two bytes.
unfoldable pub has_control : Bytes → Bool
has_control [] = false
has_control (b ∷ []) = ltb b 32 || b == 127
has_control (b ∷ c ∷ rest) =
    ltb b 32 || b == 127 || (b == 194 && leb 128 c && leb c 159) || has_control (c ∷ rest)

-- `split(separator)`, for a separator of one byte.
unfoldable pub extend_first : ℕ → List Bytes → List Bytes
extend_first b [] = (b ∷ []) ∷ []
extend_first b (part ∷ parts) = (b ∷ part) ∷ parts

unfoldable pub split : ℕ → Bytes → List Bytes
unfolding extend_first
split separator [] = [] ∷ []
split separator (b ∷ rest) = elim (b == separator) [
  | true ↦ [] ∷ split separator rest
  | false ↦ extend_first b (split separator rest)
]

-- The bytes that the white space takes which a text starts with, by `char::is_whitespace`.
unfoldable pub leading_space : Bytes → ℕ
leading_space [] = 0
leading_space (b ∷ []) = if (leb 9 b && leb b 13) || b == 32 then 1 else 0
leading_space (b ∷ c ∷ []) =
    if (leb 9 b && leb b 13) || b == 32
    then 1
    else if b == 194 && (c == 133 || c == 160)
    then 2
    else 0
leading_space (b ∷ c ∷ d ∷ rest) =
    if (leb 9 b && leb b 13) || b == 32
    then 1
    else if b == 194 && (c == 133 || c == 160)
    then 2
    else if (b == 225 && c == 154 && d == 128)
        || (b == 226 && c == 128 && ((leb 128 d && leb d 138) || d == 168 || d == 169 || d == 175))
        || (b == 226 && c == 129 && d == 159)
        || (b == 227 && c == 128 && d == 128)
    then 3
    else 0

-- The same of a text that is read backwards.
unfoldable pub trailing_space : Bytes → ℕ
unfolding leading_space
trailing_space [] = 0
trailing_space (d ∷ []) = leading_space (d ∷ [])
trailing_space (d ∷ c ∷ []) =
    if leading_space (d ∷ []) == 1 then 1 else if leading_space (c ∷ d ∷ []) == 2 then 2 else 0
trailing_space (d ∷ c ∷ b ∷ rest) =
    if leading_space (d ∷ []) == 1
    then 1
    else if leading_space (c ∷ d ∷ []) == 2
    then 2
    else if leading_space (b ∷ c ∷ d ∷ []) == 3
    then 3
    else 0

-- `skip` bytes are passed, then what `space` measures, as long as it measures something.
unfoldable pub skip_spaces : (Bytes → ℕ) → ℕ → Bytes → Bytes
skip_spaces space skip [] = []
skip_spaces space (suc skip) (b ∷ rest) = skip_spaces space skip rest
skip_spaces space zero (b ∷ rest) = elim (space (b ∷ rest)) [
  | zero ↦ b ∷ rest
  | suc more ↦ skip_spaces space more rest
]

unfoldable pub reverse_onto : Bytes → Bytes → Bytes
reverse_onto done [] = done
reverse_onto done (b ∷ rest) = reverse_onto (b ∷ done) rest

-- `str::trim`
unfoldable pub trim : Bytes → Bytes
unfolding trailing_space skip_spaces reverse_onto
trim text =
    let from_start = skip_spaces leading_space 0 text in
    reverse_onto [] (skip_spaces trailing_space 0 (reverse_onto [] from_start))
