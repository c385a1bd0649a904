-- ===== src/InputSession/Frames/Untouched.antt =====
-- The frames of a client leave its owner, route, keys and buttons alone.
use arcrelay_protocol.Prelude.{ℕ, ◌≡◌, Bool, arith, bytes_eq, nat_eq, ℤ}
use arcrelay_protocol.InputSession.{ActiveInputSession}
use arcrelay_protocol.InputSession.Frames.{accept_reliable_frame, accept_motion_totals}

module _ {Gesture : Type 0} where
  -- A change of the session in its place that leaves its lease, device, route, keys and buttons alone.
  pub record Untouched (change : ActiveInputSession Gesture → ActiveInputSession Gesture)
      : Type 0 where
    pub lease : (s : ActiveInputSession Gesture) → (change s).lease ≡ s.lease
    pub device : (s : ActiveInputSession Gesture) → (change s).device_id ≡ s.device_id
    pub route : (s : ActiveInputSession Gesture) → (change s).workspace_routed ≡ s.workspace_routed
    pub keys : (s : ActiveInputSession Gesture) → (change s).pressed_keys ≡ s.pressed_keys
    pub buttons : (s : ActiveInputSession Gesture) → (change s).pressed_buttons ≡ s.pressed_buttons

  pub accept_reliable_frame-Untouched :
      (now sequence elapsed_us : ℕ)
      → Untouched (λ s. (accept_reliable_frame now sequence elapsed_us s).0)
  unfolding accept_reliable_frame
  accept_reliable_frame-Untouched now sequence elapsed_us = record {
    lease = λ s. ground arith;
    device = λ s. ground arith;
    route = λ s. ground arith;
    keys = λ s. ground arith;
    buttons = λ s. ground arith;
  }

  pub accept_motion_totals-Untouched :
      (now : ℕ) (pointer scroll : ℤ × ℤ) (precise : Bool)
      → Untouched (λ s. (accept_motion_totals now pointer scroll precise s).0)
  unfolding accept_motion_totals
  accept_motion_totals-Untouched now pointer scroll precise = record {
    lease = λ s. ground arith;
    device = λ s. ground arith;
    route = λ s. ground arith;
    keys = λ s. ground arith;
    buttons = λ s. ground arith;
  }
