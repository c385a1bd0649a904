-- ===== src/StateQueue/Coalescing.antt =====
-- What the writer gets from the queue, against the history of what was put in and taken out.
use arcrelay_protocol.Prelude.{
  inl, inr, ℕ, ◌≡◌, refl, Option, none, some, List, [], ◌∷◌, arith, ltb, nat_eq, same,
  if◌then◌else◌, get, get-remove, get-insert, IsDistinct, remove-IsDistinct, insert-IsDistinct,
  Option-cases,
}
use arcrelay_protocol.StateQueue.{FrameApi, LatestStateQueue, empty, replace, recv}

-- What happens to the queue.
pub data Action (Frame : Type 0) : Type 0 where
  replaced : Frame → Action Frame
  received : ℕ → Action Frame

module _ {Frame : Type 0} (api : FrameApi Frame) where
  pub run : List (Action Frame) → LatestStateQueue Frame
  unfolding replace recv
  run [] = empty
  run (replaced frame ∷ before) = replace api frame (run before)
  run (received id ∷ before) = (recv id (run before)).0

  -- The frame that a subscription waits for, read off the history, the latest action first: the last
  -- one that was put in for it, fits, and has not been taken.
  unfoldable pub pending : List (Action Frame) → ℕ → Option Frame
  pending [] id = none
  pending (replaced frame ∷ before) id =
      let older = pending before id in
      if ltb api.max_control_frame_size (api.encoded_len frame)
      then older
      else elim (api.event frame) [
        | none ↦ older
        | some target ↦ if same id target then some frame else older
      ]
  pending (received target ∷ before) id =
      let older = pending before id in if same id target then none else older

  frames-pending : (h : List (Action Frame)) (id : ℕ) → get id (run h).frames ≡ pending h id
  unfolding run pending replace recv
  frames-pending [] id = unfold get in refl
  frames-pending (replaced frame ∷ before) id = elim (Option-cases (api.event frame)) [
    | inl other ↦ ground (arith, other, frames-pending before id)
    | inr (target, e) ↦
        ground (arith, e, frames-pending before id, get-insert id target frame (run before).frames)
  ]
  frames-pending (received target ∷ before) id =
      elim (Option-cases (get target (run before).frames)) [
        | inl miss ↦ ground (arith, miss, frames-pending before id, frames-pending before target)
        | inr (frame, hit) ↦
            ground (arith, hit, frames-pending before id, get-remove id target (run before).frames)
      ]

  run-IsDistinct : (h : List (Action Frame)) → IsDistinct (run h).frames
  unfolding run replace recv
  run-IsDistinct [] = _
  run-IsDistinct (replaced frame ∷ before) = elim (Option-cases (api.event frame)) [
    | inl other ↦ ground (arith, other, run-IsDistinct before)
    | inr (target, e) ↦ ground (
      arith,
      e,
      run-IsDistinct before,
      insert-IsDistinct target frame (run before).frames (run-IsDistinct before),
    )
  ]
  run-IsDistinct (received target ∷ before) = elim (Option-cases (get target (run before).frames)) [
    | inl miss ↦ ground (arith, miss, run-IsDistinct before)
    | inr (frame, hit) ↦
        ground (arith, hit, remove-IsDistinct target (run before).frames (run-IsDistinct before))
  ]

  -- After any calls, the queue holds at most one frame of a subscription; and when the writer comes to
  -- a subscription, it gets the last frame that was put in for it, fits, and was not taken before, or
  -- none if there is none.
  pub recv-pending :
      (h : List (Action Frame)) (id : ℕ)
      → IsDistinct (run h).frames × ((recv id (run h)).1 ≡ pending h id)
  unfolding recv
  recv-pending h id = (
    run-IsDistinct h,
    elim (Option-cases (get id (run h).frames)) [
      | inl miss ↦ ground (arith, miss, frames-pending h id)
      | inr (frame, hit) ↦ ground (arith, hit, frames-pending h id)
    ],
  )
