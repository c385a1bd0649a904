-- ===== src/Text.antt =====
-- src/server/proto_handler/requests/commands.rs: texts cut to size before they are sent. A text is
-- the list of its bytes.
pub mod Bounds
mod Examples
use arcrelay_protocol.Prelude.{
  ◌⊎◌, ℕ, suc, zero, ◌+◌, ◌-◌, ◌≤◌, ◌<◌, ◌≡◌, ◌≢◌, ◌∙◌, Bool, true, false, not, ◌||◌, ◌&&◌, Option,
  none, some, List, [], ◌∷◌, ◌++◌, arith, ltb, leb, ◌==◌, if◌then◌else◌, Bytes, bytes_eq, nat_eq,
  length, take, get_elem?, ◌%◌, ◌*◌, value, saturating_add,
}
use mathlib.Core.List.{reverse}

abbrev pub max_action_output_line_bytes : ℕ
max_action_output_line_bytes = 16384

abbrev pub max_action_output_lines : ℕ
max_action_output_lines = 500

abbrev pub max_action_output_snapshot_bytes : ℕ
max_action_output_snapshot_bytes = 524288

-- The bytes 128 to 191 continue a character.
pub is_continuation : ℕ → Bool
is_continuation byte = leb 128 byte && ltb byte 192

-- `str::is_char_boundary`
pub is_char_boundary : Bytes → ℕ → Bool
unfolding is_continuation
is_char_boundary value zero = true
is_char_boundary value (suc n) = elim (get_elem? value (suc n)) [
  | none ↦ suc n == length value
  | some byte ↦ not (is_continuation byte)
]

-- The loop that lowers `end` to a boundary.
pub boundary_before : Bytes → ℕ → ℕ
boundary_before value zero = zero
boundary_before value (suc end) =
    let lower = boundary_before value end in
    if is_char_boundary value (suc end) then suc end else lower

pub truncate_utf8 : Bytes → ℕ → Bytes
truncate_utf8 value maximum =
    if leb (length value) maximum then value else take (boundary_before value maximum) value

-- The loop of `bounded_action_output` over the lines, the last first.
pub select_lines : List Bytes → List Bytes → ℕ → List Bytes
select_lines [] selected total = selected
select_lines (line ∷ lines) selected total =
    let line' = truncate_utf8 line max_action_output_line_bytes in
    let next = select_lines lines (line' ∷ selected) (total + length line') in
    if leb max_action_output_lines (length selected)
    then selected
    else if ltb max_action_output_snapshot_bytes (saturating_add total (length line'))
    then selected
    else next

pub bounded_action_output : List Bytes → List Bytes
bounded_action_output lines = select_lines (reverse lines) [] 0
