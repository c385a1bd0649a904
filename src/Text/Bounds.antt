-- ===== src/Text/Bounds.antt =====
-- The bounds that the cuts promise, and what they keep.
use arcrelay_protocol.Prelude.{
  inl, inr, ℕ, suc, zero, ◌+◌, ◌≤◌, ◌≡◌, refl, ap, sym, ◌∙◌, true, none, List, [], ◌∷◌, ◌++◌, map,
  arith, ltb, leb, Bytes, bytes_eq, nat_eq, length, take, drop, get_elem?, take-append-drop,
  Bool-cases, value, saturating_add,
}
use mathlib.Core.List.{reverse, append-nil, append_assoc, reverse-cons, reverse-reverse}
use arcrelay_protocol.Text.{
  truncate_utf8, boundary_before, is_char_boundary, select_lines, bounded_action_output,
  max_action_output_line_bytes, max_action_output_lines, max_action_output_snapshot_bytes,
}

boundary_before-le : (value : Bytes) (end : ℕ) → boundary_before value end ≤ end
unfolding boundary_before
boundary_before-le value zero = omega arith
boundary_before-le value (suc end) = ground (arith, boundary_before-le value end)

boundary_before-boundary :
    (value : Bytes) (end : ℕ) → is_char_boundary value (boundary_before value end) ≡ true
unfolding boundary_before
boundary_before-boundary value zero = unfold is_char_boundary in refl
boundary_before-boundary value (suc end) = elim (Bool-cases (is_char_boundary value (suc end))) [
  | inl e ↦ rw e e
  | inr e ↦ rw e (boundary_before-boundary value end)
]

-- A text that is cut.
pub record Cut (value : Bytes) (maximum : ℕ) (cut : Bytes) : Type 0 where
  pub bounded : length cut ≤ maximum
  pub boundary : is_char_boundary value (length cut) ≡ true
  pub rest : Bytes
  pub prefix : cut ++ rest ≡ value

length-take : (n : ℕ) (value : Bytes) → n ≤ length value → length (take n value) ≡ n
length-take zero value h = refl
length-take (suc n) [] h = omega (arith, h)
length-take (suc n) (x ∷ value) h = omega (arith, length-take n value (omega arith))

get_elem?-length : (value : Bytes) → get_elem? value (length value) ≡ none
get_elem?-length [] = refl
get_elem?-length (x ∷ value) = get_elem?-length value

whole_boundary : (value : Bytes) → is_char_boundary value (length value) ≡ true
unfolding is_char_boundary
whole_boundary [] = refl
whole_boundary (x ∷ value) = ground (arith, get_elem?-length value)

Cut-at :
    (value : Bytes) (maximum end : ℕ)
    → end ≤ maximum
    → end ≤ length value
    → is_char_boundary value end ≡ true
    → Cut value maximum (take end value)
Cut-at value maximum end h l b = record {
  bounded = omega (arith, length-take end value l);
  boundary = rw (length-take end value l) b;
  rest = drop end value;
  prefix = take-append-drop end value;
}

-- `truncate_utf8` returns a prefix of the text, of at most the maximal length, that ends between
-- two characters.
pub truncate_utf8-Cut :
    (value : Bytes) (maximum : ℕ) → Cut value maximum (truncate_utf8 value maximum)
unfolding truncate_utf8
truncate_utf8-Cut value maximum = elim (Bool-cases (leb (length value) maximum)) [
  | inl short ↦ rw short (record {
    bounded = ground arith;
    boundary = whole_boundary value;
    rest = [];
    prefix = append-nil value;
  })
  | inr long ↦ rw long (
      Cut-at value maximum (boundary_before value maximum) (boundary_before-le value maximum)
        (ground (arith, boundary_before-le value maximum)) (boundary_before-boundary value maximum))
]

-- A text that fits is left alone.
truncate_utf8_short :
    (value : Bytes) (maximum : ℕ) → length value ≤ maximum → truncate_utf8 value maximum ≡ value
unfolding truncate_utf8
truncate_utf8_short value maximum h = ground arith

abbrev pub total_length : List Bytes → ℕ
total_length [] = 0
total_length (line ∷ lines) = length line + total_length lines

abbrev pub cut_line : Bytes → Bytes
cut_line line = truncate_utf8 line max_action_output_line_bytes

select_lines-bounded :
    (lines selected : List Bytes) (total : ℕ)
    → total ≡ total_length selected
    → total ≤ max_action_output_snapshot_bytes
    → length selected ≤ max_action_output_lines
    → (length (select_lines lines selected total) ≤ max_action_output_lines)
      × (total_length (select_lines lines selected total) ≤ max_action_output_snapshot_bytes)
unfolding select_lines saturating_add
select_lines-bounded [] selected total t b l = ground arith
select_lines-bounded (line ∷ lines) selected total t b l =
    let next =
      select_lines-bounded lines (cut_line line ∷ selected) (total + length (cut_line line))
        (omega arith) in
    ground (arith, next, (truncate_utf8-Cut line max_action_output_line_bytes).bounded)

map-append_cut : (xs ys : List Bytes) → map cut_line (xs ++ ys) ≡ map cut_line xs ++ map cut_line ys
map-append_cut [] ys = refl
map-append_cut (x ∷ xs) ys = ap (◌∷◌ (cut_line x)) (map-append_cut xs ys)

one_more :
    (line : Bytes) (lines selected : List Bytes)
    → map cut_line (reverse lines) ++ cut_line line ∷ selected
      ≡ map cut_line (reverse (line ∷ lines)) ++ selected
one_more line lines selected =
    sym (append_assoc (map cut_line (reverse lines)) (cut_line line ∷ []) selected)
    ∙ ap (λ xs. xs ++ selected)
        (sym (map-append_cut (reverse lines) (line ∷ []))
          ∙ ap (map cut_line) (sym (reverse-cons line lines)))

-- What the loop selects, behind the lines that it drops, is all the lines, cut.
select_lines-suffix :
    (lines selected : List Bytes) (total : ℕ)
    → (dropped : List Bytes) × (dropped ++ select_lines lines selected total
        ≡ map cut_line (reverse lines) ++ selected)
unfolding select_lines
select_lines-suffix [] selected total = ([], refl)
select_lines-suffix (line ∷ lines) selected total =
    let everything = map cut_line (reverse (line ∷ lines)) in
    let (dropped, e) =
      select_lines-suffix lines (cut_line line ∷ selected) (total + length (cut_line line)) in
    let line' = cut_line line in
    elim (Bool-cases (leb max_action_output_lines (length selected))) [
      | inl full ↦ rw full (everything, refl)
      | inr room ↦
          elim (Bool-cases
            (ltb max_action_output_snapshot_bytes (saturating_add total (length line')))) [
              | inl big ↦ rw room (rw big (everything, refl))
              | inr small ↦ rw room (rw small (dropped, e ∙ one_more line lines selected))
            ]
    ]

-- The output of an action, as it is sent: at most 500 lines and 524288 bytes, and they are the last
-- lines of the output in their order, each cut to a line's maximum.
pub bounded_action_output-suffix :
    (lines : List Bytes)
    → (length (bounded_action_output lines) ≤ max_action_output_lines)
      × (total_length (bounded_action_output lines) ≤ max_action_output_snapshot_bytes)
      × ((dropped : List Bytes) × (dropped ++ bounded_action_output lines ≡ map cut_line lines))
unfolding bounded_action_output
bounded_action_output-suffix lines =
    let (few, small) = select_lines-bounded (reverse lines) [] 0 refl (omega arith) (omega arith) in
    let (dropped, e) = select_lines-suffix (reverse lines) [] 0 in
    (
      few,
      small,
      (
        dropped,
        e
            ∙ append-nil (map cut_line (reverse (reverse lines)))
            ∙ ap (map cut_line) (reverse-reverse lines),
      ),
    )
