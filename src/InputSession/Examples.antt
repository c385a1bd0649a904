-- ===== src/InputSession/Examples.antt =====
-- A session of one client that takes control, presses a key, moves the pointer and is released.
use arcrelay_protocol.Prelude.{
  ◌⊎◌, ℕ, ◌≡◌, ◌≢◌, refl, Bool, true, false, none, some, List, [], ◌∷◌, arith, if◌then◌else◌, Bytes,
  bytes_eq, bytes_discrete, nat_eq, get, remove, insert, bytes, value, increment, saturating_add,
  wrapping_add,
}
use arcrelay_protocol.Prelude.{pos, negsuc}
use arcrelay_protocol.InputSession.{
  InputLease, input_lease_eq, ActiveInputSession, InputSessionState, InputFeedbackSnapshot,
  MotionDelta, ok, is_workspace_routed, on_session, acquire_with_routing, lease_of_draw,
  InputLease-discrete, validate_owner,
}
use arcrelay_protocol.InputSession.Frames.{
  accept_reliable_frame, accept_motion_totals, accept_reliable,
}
use arcrelay_protocol.InputSession.Frames.Rate.{Attempt, RateHolds, accept_reliable_frame-RateHolds}
use arcrelay_protocol.InputSession.Frames.Motion.{
  Motion, Moves, totals_of, after_motions, summed_motions, accept_motion_totals-Moves,
  summed_motions-after,
}
use arcrelay_protocol.InputSession.Normalize.{
  GestureApi, key, normalize_reliable_events, normalize_events, normalize_event, all_valid,
  key_event,
}
use arcrelay_protocol.InputSession.Normalize.Panic.{AppliesValid, normalize_reliable_events_total}
use arcrelay_protocol.InputSession.Normalize.Native.{held_after, key_step, button_step}
use arcrelay_protocol.Prelude.{checked_sub, contains, add_element}
use arcrelay_protocol.InputSession.Host.{
  InputControl, ReliableFrame, Host, Reach, here, next, starts, begins, frames, set_active,
  end_active, begin_input_session, handle_reliable_frame, normalize_frame, finish_frame,
  apply_frame, apply_input, end_input_lease_locked,
}
use arcrelay_protocol.InputSession.Host.Invariant.{IsFaithful}
use arcrelay_protocol.InputSession.Host.Safety.{held_by_controller}
use arcrelay_protocol.InputSession.Acquire.{Grants, Denies, acquire_exclusive}

-- Gestures that are begun by `true` and ended by `false`.
abbrev gestures : GestureApi
gestures = record {
  Gesture = Bool;
  Event = Bool;
  idle = false;
  is_valid = λ e. true;
  apply = λ e g. some (e, e ∷ []);
  cancel = λ g. (false, if g then some false else none);
  is_active = λ g. g;
}

abbrev Nothing : Type 0
Nothing = Unit {0}

abbrev phone : Bytes
phone = bytes "phone"

abbrev lease : InputLease
lease = record { session_id = 7; epoch = 1 }

abbrev session : ActiveInputSession Bool
session = record {
  lease = lease;
  device_id = phone;
  last_activity = 100;
  reliable_sequence = 0;
  reliable_elapsed_us = 0;
  reliable_frames = [];
  pointer_total_x_256 = pos 0;
  pointer_total_y_256 = pos 0;
  scroll_total_x_256 = pos 0;
  scroll_total_y_256 = pos 0;
  pressed_keys = [];
  pressed_buttons = [];
  system_gesture = false;
  system_gesture_updated = none;
  workspace_routed = false;
}

abbrev controlled : InputSessionState Bool
controlled = record {
  active = (lease, session) ∷ [];
  pressed_key_counts = [];
  pressed_button_counts = [];
}

abbrev free : InputSessionState Bool
free = record { active = []; pressed_key_counts = []; pressed_button_counts = [] }

abbrev pressing : ActiveInputSession Bool
pressing = record session { pressed_keys = 4 ∷ [] }

abbrev key_down : InputSessionState Bool
key_down = record {
  active = (lease, pressing) ∷ [];
  pressed_key_counts = (4, 1) ∷ [];
  pressed_button_counts = [];
}

acquires_it :
    acquire_with_routing false 100 ((7, 0) ∷ []) phone false free ≡ some (controlled, ok lease)
unfolding acquire_with_routing get insert remove lease_of_draw
acquires_it = refl

presses_it :
    normalize_reliable_events gestures Nothing 101 lease phone (key 4 true false ∷ []) controlled
    ≡ some (key_down, ok (key 4 true false ∷ []))
unfolding normalize_reliable_events normalize_events normalize_event all_valid key_event get insert
    remove value increment contains add_element InputLease-discrete validate_owner bytes_discrete
    wrapping_add
presses_it = refl

abbrev Machine : Type 0
Machine = (ℕ → Bool) × (ℕ → Bool)

-- What is held down is what the events say.
abbrev keyboard : InputControl gestures Nothing Machine
keyboard = record {
  apply_events =
      λ events s. ((held_after key_step events s.0, held_after button_step events s.1), true);
  release_all = λ s. ((λ k. false), (λ k. false));
  key_down = λ s. s.0;
  button_down = λ s. s.1;
  pointer_move = λ d. tt;
  scroll = λ d. tt;
}

keyboard-IsFaithful : IsFaithful gestures Nothing keyboard
keyboard-IsFaithful = record {
  applied = λ events s h. (refl, refl);
  released = λ s k. (refl, refl);
}

abbrev device_of : ℕ → Bytes
device_of c = phone

abbrev quiet_host : Host gestures Nothing Machine
quiet_host = record {
  state = free;
  active_input = λ c. none;
  control = ((λ k. false), (λ k. false));
}

Reach-quiet_host : Reach gestures Nothing keyboard device_of quiet_host
Reach-quiet_host = here (starts refl (λ c. refl) (λ k. refl) (λ k. refl))

abbrev controlled_host : Host gestures Nothing Machine
controlled_host = record quiet_host {
  state = controlled;
  active_input = set_active gestures Nothing keyboard device_of 0 (some lease) quiet_host;
}

begins_it :
    begin_input_session gestures Nothing keyboard device_of 0 100
      ((7, 0) ∷ [])
      false
      true
      quiet_host
    ≡ some controlled_host
unfolding begin_input_session end_active acquire_with_routing get insert remove lease_of_draw
begins_it = refl

Reach-controlled_host : Reach gestures Nothing keyboard device_of controlled_host
Reach-controlled_host =
    next Reach-quiet_host (begins 0 100 ((7, 0) ∷ []) false true controlled_host begins_it)

abbrev press : ReliableFrame gestures Nothing
press = record {
  lease = lease;
  sequence = 1;
  elapsed_us = 10;
  too_many = false;
  events = some (key 4 true false ∷ []);
  motion = none;
  is_valid = true;
  router_applies = false;
  accepted_at = 101;
  normalized_at = 101;
  moved_at = 101;
}

abbrev pressed_session : ActiveInputSession Bool
pressed_session = record session {
  last_activity = 101;
  reliable_sequence = 1;
  reliable_elapsed_us = 10;
  reliable_frames = 101 ∷ [];
  pressed_keys = 4 ∷ [];
}

abbrev pressed_host : Host gestures Nothing Machine
pressed_host = record controlled_host {
  state = record {
    active = (lease, pressed_session) ∷ [];
    pressed_key_counts = (4, 1) ∷ [];
    pressed_button_counts = [];
  };
  control = (
    held_after {E = Bool} {O = Nothing} key_step (key 4 true false ∷ []) (λ k. false),
    held_after {E = Bool} {O = Nothing} button_step (key 4 true false ∷ []) (λ k. false),
  );
}

presses_it_host :
    handle_reliable_frame gestures Nothing keyboard device_of 0 press controlled_host
    ≡ some pressed_host
unfolding handle_reliable_frame normalize_frame finish_frame apply_frame apply_input accept_reliable
    accept_reliable_frame is_workspace_routed on_session saturating_add normalize_reliable_events
    normalize_events normalize_event all_valid key_event get insert remove value increment contains
    add_element InputLease-discrete validate_owner bytes_discrete wrapping_add
presses_it_host = refl

Reach-pressed_host : Reach gestures Nothing keyboard device_of pressed_host
Reach-pressed_host = next Reach-controlled_host (frames 0 press pressed_host presses_it_host)

pressing_found : get lease pressed_host.state.active ≡ some pressed_session
unfolding get InputLease-discrete
pressing_found = refl

held_by_controller_example :
    (keyboard.key_down pressed_host.control 4 ≡ contains {A = ℕ} 4 (4 ∷ []))
    × (keyboard.button_down pressed_host.control 4 ≡ contains {A = ℕ} 4 [])
held_by_controller_example =
    held_by_controller gestures Nothing keyboard keyboard-IsFaithful device_of lease pressed_session
      4 (λ events s. refl) Reach-pressed_host pressing_found refl

abbrev ended_host : Host gestures Nothing Machine
ended_host = end_input_lease_locked gestures Nothing keyboard device_of 0 lease pressed_host

gestures_apply : AppliesValid gestures Nothing
gestures_apply e g v p = cc

normalize_reliable_events_total_example :
    normalize_reliable_events gestures Nothing 101 lease phone (key 4 true false ∷ []) controlled
    ≢ none
normalize_reliable_events_total_example =
    normalize_reliable_events_total gestures Nothing 101 lease phone (key 4 true false ∷ [])
      controlled gestures_apply

acquire_exclusive_example :
    let answer = acquire_with_routing false 100 ((7, 0) ∷ []) phone false free in
    Grants false 100 phone false free answer ⊎ Denies free answer
acquire_exclusive_example = acquire_exclusive false 100 7 0 [] phone false free (omega arith)

abbrev attempts : List Attempt
attempts = (200, 1, 10) ∷ (300, 2, 20) ∷ (300, 9, 20) ∷ []

accept_reliable_frame-RateHolds_example : RateHolds attempts [] session
accept_reliable_frame-RateHolds_example =
    accept_reliable_frame-RateHolds attempts session refl
      (omega arith, (omega arith, (omega arith, tt)))

abbrev snapshot : InputFeedbackSnapshot
snapshot = record {
  reliable_sequence = 1;
  motion_sequence = 0;
  motion_datagrams_received = 0;
  motion_datagrams_missing = 0;
}

frame_accepted : (accept_reliable_frame 200 1 10 session).1 ≡ ok snapshot
unfolding accept_reliable_frame saturating_add
frame_accepted = refl

abbrev delta : MotionDelta
delta = record {
  pointer_x_256 = pos 256;
  pointer_y_256 = negsuc 255;
  scroll_x_256 = pos 0;
  scroll_y_256 = pos 0;
  precise_scroll = false;
  feedback = record snapshot { reliable_sequence = 0 };
}

motion_accepted :
    (accept_motion_totals 200 (pos 256, negsuc 255) (pos 0, pos 0) false session).1 ≡ ok delta
unfolding accept_motion_totals checked_sub
motion_accepted = refl

accept_motion_totals-Moves_example :
    Moves session delta
      (accept_motion_totals 200 (pos 256, negsuc 255) (pos 0, pos 0) false session).0
accept_motion_totals-Moves_example =
    accept_motion_totals-Moves 200 (pos 256, negsuc 255) (pos 0, pos 0) false session delta
      motion_accepted

-- The second is refused for its size.
abbrev motions : List Motion
motions =
    (200, (pos 256, negsuc 255), (pos 0, pos 0), false)
    ∷ (210, (pos 9000000, pos 0), (pos 0, pos 0), true)
    ∷ []

summed_motions-after_example :
    summed_motions motions session (totals_of session) ≡ totals_of (after_motions motions session)
summed_motions-after_example = summed_motions-after motions session
