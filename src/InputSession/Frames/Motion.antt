-- ===== src/InputSession/Frames/Motion.antt =====
-- The motion that `accept_ordered_motion` lets through, against the totals that a client sends.
use mathlib.Core.Path.{ap₂}
use arcrelay_protocol.Prelude.{
  ℕ, ◌≤◌, ◌≡◌, refl, ap, sym, ◌∙◌, Bool, some, List, [], ◌∷◌, arith, bytes_eq, nat_eq, ℤ,
  checked_sub, unsigned_abs, ◌+ℤ◌, sub-add_cancel,
}
use arcrelay_protocol.InputSession.{ActiveInputSession, MotionDelta, Result, ok, err, InputError}
use arcrelay_protocol.InputSession.Frames.{accept_motion_totals, motion_deltas}

checked_sub-add : (a b d : ℤ) → checked_sub a b ≡ some d → b +ℤ d ≡ a
unfolding checked_sub
checked_sub-add a b d h = ground (arith, sub-add_cancel a b)

abbrev pub Totals : Type 0
Totals = (ℤ × ℤ) × (ℤ × ℤ)

-- What a client that adds up the deltas it is told has; a refusal adds nothing.
pub add_delta : Result MotionDelta → Totals → Totals
add_delta (err _) totals = totals
add_delta (ok d) ((px, py), (sx, sy)) =
    ((px +ℤ d.pointer_x_256, py +ℤ d.pointer_y_256), (sx +ℤ d.scroll_x_256, sy +ℤ d.scroll_y_256))

-- The events of a motion stream: the time, the pointer and scroll totals, precise or not.
abbrev pub Motion : Type 0
Motion = ℕ × (ℤ × ℤ) × (ℤ × ℤ) × Bool

module _ {Gesture : Type 0} where
  -- Motion from the totals of one session to those of the next, within the limits.
  pub record Moves (s : ActiveInputSession Gesture) (delta : MotionDelta)
      (after : ActiveInputSession Gesture) : Type 0 where
    pub pointer_x : s.pointer_total_x_256 +ℤ delta.pointer_x_256 ≡ after.pointer_total_x_256
    pub pointer_y : s.pointer_total_y_256 +ℤ delta.pointer_y_256 ≡ after.pointer_total_y_256
    pub scroll_x : s.scroll_total_x_256 +ℤ delta.scroll_x_256 ≡ after.scroll_total_x_256
    pub scroll_y : s.scroll_total_y_256 +ℤ delta.scroll_y_256 ≡ after.scroll_total_y_256
    pub within_pointer :
        (unsigned_abs delta.pointer_x_256 ≤ 2097152) × (unsigned_abs delta.pointer_y_256 ≤ 2097152)
    pub within_scroll :
        (unsigned_abs delta.scroll_x_256 ≤ 524288) × (unsigned_abs delta.scroll_y_256 ≤ 524288)

  motion_deltas-ok :
      (p s : ℤ × ℤ) (dx dy tx ty : ℤ) (current : ActiveInputSession Gesture)
      → motion_deltas p s current ≡ ok ((dx, dy), (tx, ty))
      → (checked_sub p.0 current.pointer_total_x_256 ≡ some dx)
        × (checked_sub p.1 current.pointer_total_y_256 ≡ some dy)
        × (checked_sub s.0 current.scroll_total_x_256 ≡ some tx)
        × (checked_sub s.1 current.scroll_total_y_256 ≡ some ty)
        × (unsigned_abs dx ≤ 2097152)
        × (unsigned_abs dy ≤ 2097152)
        × (unsigned_abs tx ≤ 524288)
        × (unsigned_abs ty ≤ 524288)
  unfolding motion_deltas
  motion_deltas-ok p s dx dy tx ty current h = ground (arith, h)

  accepted-totals :
      (now : ℕ) (p s : ℤ × ℤ) (precise : Bool) (current : ActiveInputSession Gesture)
      (delta : MotionDelta)
      → (accept_motion_totals now p s precise current).1 ≡ ok delta
      → (let after = (accept_motion_totals now p s precise current).0 in
          (after.pointer_total_x_256 ≡ p.0)
          × (after.pointer_total_y_256 ≡ p.1)
          × (after.scroll_total_x_256 ≡ s.0)
          × (after.scroll_total_y_256 ≡ s.1)
          × (checked_sub p.0 current.pointer_total_x_256 ≡ some delta.pointer_x_256)
          × (checked_sub p.1 current.pointer_total_y_256 ≡ some delta.pointer_y_256)
          × (checked_sub s.0 current.scroll_total_x_256 ≡ some delta.scroll_x_256)
          × (checked_sub s.1 current.scroll_total_y_256 ≡ some delta.scroll_y_256)
          × (unsigned_abs delta.pointer_x_256 ≤ 2097152)
          × (unsigned_abs delta.pointer_y_256 ≤ 2097152)
          × (unsigned_abs delta.scroll_x_256 ≤ 524288)
          × (unsigned_abs delta.scroll_y_256 ≤ 524288))
  unfolding accept_motion_totals motion_deltas
  accepted-totals now p s precise current delta h = ground (arith, h)

  -- If motion is accepted, then on each axis the old total and the delta add up to the new total,
  -- exactly, and the deltas are within 8192 pixels and 2048 lines.
  pub accept_motion_totals-Moves :
      (now : ℕ) (p s : ℤ × ℤ) (precise : Bool) (current : ActiveInputSession Gesture)
      (delta : MotionDelta)
      → (accept_motion_totals now p s precise current).1 ≡ ok delta
      → Moves current delta (accept_motion_totals now p s precise current).0
  accept_motion_totals-Moves now p s precise current delta h =
      let (px, py, sx, sy, dx, dy, tx, ty, bx, by, cx, cy) =
        accepted-totals now p s precise current delta h in
      record {
        pointer_x = checked_sub-add p.0 _ _ dx ∙ sym px;
        pointer_y = checked_sub-add p.1 _ _ dy ∙ sym py;
        scroll_x = checked_sub-add s.0 _ _ tx ∙ sym sx;
        scroll_y = checked_sub-add s.1 _ _ ty ∙ sym sy;
        within_pointer = (bx, by);
        within_scroll = (cx, cy);
      }

  pub totals_of : ActiveInputSession Gesture → Totals
  totals_of s =
      ((s.pointer_total_x_256, s.pointer_total_y_256), (s.scroll_total_x_256, s.scroll_total_y_256))

  refused-unchanged :
      (now : ℕ) (p s : ℤ × ℤ) (precise : Bool) (current : ActiveInputSession Gesture)
      (e : InputError)
      → (accept_motion_totals now p s precise current).1 ≡ err e
      → totals_of current ≡ totals_of (accept_motion_totals now p s precise current).0
  unfolding accept_motion_totals totals_of
  refused-unchanged now p s precise current e h = ground (arith, h)

  add_delta-totals :
      (now : ℕ) (p s : ℤ × ℤ) (precise : Bool) (current : ActiveInputSession Gesture)
      (result : Result MotionDelta)
      → (accept_motion_totals now p s precise current).1 ≡ result
      → add_delta result (totals_of current)
        ≡ totals_of (accept_motion_totals now p s precise current).0
  unfolding add_delta totals_of
  add_delta-totals now p s precise current (err e) h = refused-unchanged now p s precise current e h
  add_delta-totals now p s precise current (ok delta) h =
      let moves = accept_motion_totals-Moves now p s precise current delta h in
      ap₂ (λ p s. (p, s)) (ap₂ (λ x y. (x, y)) moves.pointer_x moves.pointer_y)
        (ap₂ (λ x y. (x, y)) moves.scroll_x moves.scroll_y)

  pub after_motions : List Motion → ActiveInputSession Gesture → ActiveInputSession Gesture
  after_motions [] s = s
  after_motions ((now, pointer, scroll, precise) ∷ rest) s =
      after_motions rest (accept_motion_totals now pointer scroll precise s).0

  pub summed_motions : List Motion → ActiveInputSession Gesture → Totals → Totals
  summed_motions [] s totals = totals
  summed_motions ((now, pointer, scroll, precise) ∷ rest) s totals =
      let result = accept_motion_totals now pointer scroll precise s in
      summed_motions rest result.0 (add_delta result.1 totals)

  -- The deltas of a stream of motions, refused ones among them, add up to the difference of the
  -- totals that the session holds before and after it: nothing is lost and nothing drifts.
  pub summed_motions-after :
      (motions : List Motion) (s : ActiveInputSession Gesture)
      → summed_motions motions s (totals_of s) ≡ totals_of (after_motions motions s)
  unfolding summed_motions after_motions
  summed_motions-after [] s = refl
  summed_motions-after ((now, pointer, scroll, precise) ∷ rest) s =
      let result = accept_motion_totals now pointer scroll precise s in
      ap (summed_motions rest result.0)
        (add_delta-totals now pointer scroll precise s result.1 refl)
      ∙ summed_motions-after rest result.0
