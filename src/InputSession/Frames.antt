-- ===== src/InputSession/Frames.antt =====
-- src/server/input_session.rs: what `accept_reliable` and `accept_ordered_motion` do with a session.
pub mod Untouched
pub mod Rate
pub mod Motion
use arcrelay_protocol.Prelude.{
  ◌⊎◌, ℕ, suc, zero, ◌+◌, ◌-◌, ◌≤◌, ◌<◌, ◌%◌, ◌≡◌, ◌≢◌, ◌∙◌, Bool, true, false, not, ◌||◌, ◌&&◌,
  Option, none, some, List, [], ◌∷◌, ◌++◌, arith, ltb, leb, ◌==◌, if◌then◌else◌, Bytes, bytes_eq,
  nat_eq, length, saturating_add, ℤ, checked_sub, unsigned_abs,
}
use arcrelay_protocol.InputSession.{
  InputLease, input_lease_eq, InputFeedbackSnapshot, MotionDelta, ActiveInputSession,
  InputSessionState, Result, ok, err, lease_expired, out_of_order, clock_backwards, rate_limited,
  pointer_overflow, scroll_overflow, motion_limit, ◌>>=◌, ◌>>◌, fail_if, ok_or, has_expired,
  feedback_snapshot, on_session, max_reliable_frames_per_second,
}

-- The `while` loop that pops the frames of a second ago and before.
pub drop_old_frames : ℕ → List ℕ → List ℕ
drop_old_frames now [] = []
drop_old_frames now (timestamp ∷ rest) =
    let others = drop_old_frames now rest in
    if leb 1000 (now - timestamp) then others else timestamp ∷ rest

module _ {Gesture : Type 0} where
  -- `accept_reliable` on the session that the lease names. The old frames are dropped before the
  -- rate is tested, and stay dropped if the frame is refused.
  unfoldable pub accept_reliable_frame :
      ℕ
      → ℕ
      → ℕ
      → ActiveInputSession Gesture
      → ActiveInputSession Gesture × Result InputFeedbackSnapshot
  unfolding has_expired feedback_snapshot drop_old_frames
  accept_reliable_frame now sequence elapsed_us current =
      let frames = drop_old_frames now current.reliable_frames in
      let accepted : ActiveInputSession Gesture = record current {
        reliable_frames = frames ++ now ∷ [];
        reliable_sequence = sequence;
        reliable_elapsed_us = elapsed_us;
        last_activity = now;
      } in
      if has_expired now current
      then (current, err lease_expired)
      else if not (sequence == saturating_add current.reliable_sequence 1)
      then (current, err out_of_order)
      else if ltb elapsed_us current.reliable_elapsed_us
      then (current, err clock_backwards)
      else if leb max_reliable_frames_per_second (length frames)
      then (record current { reliable_frames = frames }, err rate_limited)
      else (accepted, ok (feedback_snapshot accepted))

  unfoldable pub accept_reliable :
      ℕ
      → InputLease
      → Bytes
      → ℕ
      → ℕ
      → InputSessionState Gesture
      → InputSessionState Gesture × Result InputFeedbackSnapshot
  unfolding on_session
  accept_reliable now lease device_id sequence elapsed_us =
      on_session lease device_id (accept_reliable_frame now sequence elapsed_us)

  pub motion_deltas : ℤ × ℤ → ℤ × ℤ → ActiveInputSession Gesture → Result ((ℤ × ℤ) × (ℤ × ℤ))
  motion_deltas (px, py) (sx, sy) current = do
    dx ← ok_or (checked_sub px current.pointer_total_x_256) pointer_overflow
    dy ← ok_or (checked_sub py current.pointer_total_y_256) pointer_overflow
    tx ← ok_or (checked_sub sx current.scroll_total_x_256) scroll_overflow
    ty ← ok_or (checked_sub sy current.scroll_total_y_256) scroll_overflow
    fail_if
        (ltb 2097152 (unsigned_abs dx)
          || ltb 2097152 (unsigned_abs dy)
          || ltb 524288 (unsigned_abs tx)
          || ltb 524288 (unsigned_abs ty))
        motion_limit
    ok ((dx, dy), (tx, ty))

  -- `accept_ordered_motion` on the session that the lease names.
  unfoldable pub accept_motion_totals :
      ℕ
      → ℤ × ℤ
      → ℤ × ℤ
      → Bool
      → ActiveInputSession Gesture
      → ActiveInputSession Gesture × Result MotionDelta
  unfolding has_expired feedback_snapshot motion_deltas
  accept_motion_totals now pointer scroll precise current =
      let moved : ActiveInputSession Gesture = record current {
        pointer_total_x_256 = pointer.0;
        pointer_total_y_256 = pointer.1;
        scroll_total_x_256 = scroll.0;
        scroll_total_y_256 = scroll.1;
        last_activity = now;
      } in
      if has_expired now current
      then (current, err lease_expired)
      else elim (motion_deltas pointer scroll current) [
        | err e ↦ (current, err e)
        | ok ((dx, dy), (tx, ty)) ↦ (
          moved,
          ok (record {
            pointer_x_256 = dx;
            pointer_y_256 = dy;
            scroll_x_256 = tx;
            scroll_y_256 = ty;
            precise_scroll = precise;
            feedback = feedback_snapshot moved;
          }),
        )
      ]

  unfoldable pub accept_ordered_motion :
      ℕ
      → InputLease
      → Bytes
      → ℤ × ℤ
      → ℤ × ℤ
      → Bool
      → InputSessionState Gesture
      → InputSessionState Gesture × Result MotionDelta
  unfolding on_session
  accept_ordered_motion now lease device_id pointer scroll precise =
      on_session lease device_id (accept_motion_totals now pointer scroll precise)
