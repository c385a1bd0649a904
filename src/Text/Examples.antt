-- ===== src/Text/Examples.antt =====
-- Texts that are cut, one of them inside a character of two bytes.
use arcrelay_protocol.Prelude.{
  ◌≤◌, ◌≡◌, refl, List, [], ◌∷◌, ◌++◌, map, Bytes, bytes_eq, nat_eq, length, bytes,
}
use arcrelay_protocol.Text.{
  boundary_before, is_char_boundary, truncate_utf8, bounded_action_output, max_action_output_lines,
  max_action_output_snapshot_bytes,
}
use arcrelay_protocol.Text.Bounds.{
  Cut, truncate_utf8-Cut, total_length, cut_line, bounded_action_output-suffix,
}

cut_before_character : truncate_utf8 (97 ∷ 195 ∷ 169 ∷ []) 2 ≡ 97 ∷ []
unfolding truncate_utf8 boundary_before is_char_boundary
cut_before_character = refl

truncate_utf8-Cut_example : Cut (97 ∷ 195 ∷ 169 ∷ []) 2 (truncate_utf8 (97 ∷ 195 ∷ 169 ∷ []) 2)
truncate_utf8-Cut_example = truncate_utf8-Cut (97 ∷ 195 ∷ 169 ∷ []) 2

abbrev output : List Bytes
output = bytes "one" ∷ bytes "two" ∷ []

bounded_action_output-suffix_example :
    (length (bounded_action_output output) ≤ max_action_output_lines)
    × (total_length (bounded_action_output output) ≤ max_action_output_snapshot_bytes)
    × ((dropped : List Bytes) × (dropped ++ bounded_action_output output ≡ map cut_line output))
bounded_action_output-suffix_example = bounded_action_output-suffix output
