-- ===== src/InputSession.antt =====
-- src/server/input_session.rs: leases for remote input, one client at a time. A state is passed in
-- and handed back; `Instant::now()` is an argument, in milliseconds, and the random numbers of
-- `acquire` are a list of draws. Gestures are arcrelay_core's and are a parameter.
pub mod Frames
pub mod Normalize
pub mod Host
pub mod Acquire
mod Examples
use arcrelay_protocol.Prelude.{
  ◌⊎◌, ℕ, suc, zero, ◌+◌, ◌-◌, ◌≤◌, ◌<◌, ◌%◌, ◌≡◌, ◌≢◌, ◌∙◌, Bool, true, false, not, ◌||◌, ◌&&◌,
  Option, none, some, List, [], ◌∷◌, ◌++◌, arith, leb, ◌==◌, if◌then◌else◌, Eq, Bytes, bytes_eq,
  nat_eq, ℕ_discrete, same, Map, get, insert, ℤ, pos, is_some_and,
}

abbrev pub input_lease_timeout : ℕ
input_lease_timeout = 5000

abbrev pub max_reliable_frames_per_second : ℕ
max_reliable_frames_per_second = 240

pub record InputLease : Type 0 where
  pub session_id : ℕ
  pub epoch : ℕ

unfoldable pub InputLease-discrete : Discrete InputLease
unfolding ℕ_discrete
InputLease-discrete = hlevel ℕ_discrete

instance abbrev pub input_lease_eq : Eq InputLease
input_lease_eq = record { dec_eq = InputLease-discrete }

pub record InputFeedbackSnapshot : Type 0 where
  pub reliable_sequence : ℕ
  pub motion_sequence : ℕ
  pub motion_datagrams_received : ℕ
  pub motion_datagrams_missing : ℕ

pub record MotionDelta : Type 0 where
  pub pointer_x_256 : ℤ
  pub pointer_y_256 : ℤ
  pub scroll_x_256 : ℤ
  pub scroll_y_256 : ℤ
  pub precise_scroll : Bool
  pub feedback : InputFeedbackSnapshot

-- `Gesture` is the state of a `SystemGestureSequence`. A mouse button is its number.
pub record ActiveInputSession (Gesture : Type 0) : Type 0 where
  pub lease : InputLease
  pub device_id : Bytes
  pub last_activity : ℕ
  pub reliable_sequence : ℕ
  pub reliable_elapsed_us : ℕ
  pub reliable_frames : List ℕ
  pub pointer_total_x_256 : ℤ
  pub pointer_total_y_256 : ℤ
  pub scroll_total_x_256 : ℤ
  pub scroll_total_y_256 : ℤ
  pub pressed_keys : List ℕ
  pub pressed_buttons : List ℕ
  pub system_gesture : Gesture
  pub system_gesture_updated : Option ℕ
  pub workspace_routed : Bool

pub record InputSessionState (Gesture : Type 0) : Type 0 where
  pub active : Map InputLease (ActiveInputSession Gesture)
  pub pressed_key_counts : Map ℕ ℕ
  pub pressed_button_counts : Map ℕ ℕ

pub data InputError : Type 0 where
  already_controlled : Bytes → ℕ → InputError
  not_active identity_mismatch lease_expired out_of_order clock_backwards rate_limited : InputError
  pointer_overflow scroll_overflow motion_limit invalid_gesture : InputError

pub data Result {ℓ} (A : Type ℓ) : Type ℓ where
  ok : A → Result A
  err : InputError → Result A

-- `?`: an error ends the function.
infixl 5 ◌>>=◌ ◌>>◌
abbrev pub ◌>>=◌ {ℓ κ} :
    {Before : Type ℓ} {After : Type κ} → Result Before → (Before → Result After) → Result After
result >>= continue = elim result [ err error ↦ err error | ok value ↦ continue value ]

abbrev pub ◌>>◌ {ℓ} : {After : Type ℓ} → Result (Unit {0}) → Result After → Result After
check >> after = elim check [ err error ↦ err error | ok _ ↦ after ]

abbrev pub fail_if : Bool → InputError → Result (Unit {0})
fail_if true e = err e
fail_if false e = ok tt

abbrev pub ok_or {ℓ} : {A : Type ℓ} → Option A → InputError → Result A
ok_or none e = err e
ok_or (some a) e = ok a

abbrev pub is_err {ℓ} : {A : Type ℓ} → Result A → Bool
is_err (ok a) = false
is_err (err e) = true

-- `random.next_u64() & i64::MAX` and `random.next_u32()`, with zero replaced by one.
pub lease_of_draw : ℕ × ℕ → InputLease
lease_of_draw (r, s) =
    let session_id = r % 9223372036854775808 in
    record {
      session_id = if session_id == 0 then 1 else session_id;
      epoch = if s == 0 then 1 else s;
    }

module _ {Gesture : Type 0} where
  pub new_session : Gesture → ℕ → InputLease → Bytes → Bool → ActiveInputSession Gesture
  new_session idle now lease device_id workspace_routed = record {
    lease = lease;
    device_id = device_id;
    last_activity = now;
    reliable_sequence = 0;
    reliable_elapsed_us = 0;
    reliable_frames = [];
    pointer_total_x_256 = pos 0;
    pointer_total_y_256 = pos 0;
    scroll_total_x_256 = pos 0;
    scroll_total_y_256 = pos 0;
    pressed_keys = [];
    pressed_buttons = [];
    system_gesture = idle;
    system_gesture_updated = none;
    workspace_routed = workspace_routed;
  }

  -- The loop that draws a lease which is not in use; `none` if the draws do not suffice.
  pub draw_lease : List (ℕ × ℕ) → Map InputLease (ActiveInputSession Gesture) → Option InputLease
  draw_lease [] active = none
  draw_lease (draw ∷ draws) active =
      let next = draw_lease draws active in
      let lease = lease_of_draw draw in
      elim (get lease active) [ none ↦ some lease | some _ ↦ next ]

  pub acquire_with_routing :
      Gesture
      → ℕ
      → List (ℕ × ℕ)
      → Bytes
      → Bool
      → InputSessionState Gesture
      → Option (InputSessionState Gesture × Result InputLease)
  unfolding new_session draw_lease
  acquire_with_routing idle now draws device_id routed state = elim state.active [
    | (_, current) ∷ _ ↦
        some (state, err (already_controlled current.device_id current.lease.epoch))
    | [] ↦ elim (draw_lease draws state.active) [
      | none ↦ none
      | some lease ↦ some (
        record state {
          active = insert lease (new_session idle now lease device_id routed) state.active;
        },
        ok lease,
      )
    ]
  ]

  unfoldable pub is_workspace_routed : InputLease → Bytes → InputSessionState Gesture → Bool
  is_workspace_routed lease device_id state =
      is_some_and (get lease state.active)
        (λ current. same current.device_id device_id && current.workspace_routed)

  unfoldable pub validate_owner :
      ActiveInputSession Gesture → InputLease → Bytes → Result (Unit {0})
  validate_owner current lease device_id =
      fail_if (not (same current.lease lease) || not (same current.device_id device_id))
        identity_mismatch

  pub feedback_snapshot : ActiveInputSession Gesture → InputFeedbackSnapshot
  feedback_snapshot current = record {
    reliable_sequence = current.reliable_sequence;
    motion_sequence = 0;
    motion_datagrams_received = 0;
    motion_datagrams_missing = 0;
  }

  pub has_expired : ℕ → ActiveInputSession Gesture → Bool
  has_expired now current = leb input_lease_timeout (now - current.last_activity)

  unfoldable pub is_expired : ℕ → InputLease → Bytes → InputSessionState Gesture → Bool
  unfolding has_expired
  is_expired now lease device_id state =
      is_some_and (get lease state.active)
        (λ current. same current.device_id device_id && has_expired now current)

  -- `state.active.get_mut(&lease)` and `validate_owner`, then a change of the session in its place.
  unfoldable pub on_session :
      {A : Type 0}
      → InputLease
      → Bytes
      → (ActiveInputSession Gesture → ActiveInputSession Gesture × Result A)
      → InputSessionState Gesture
      → InputSessionState Gesture × Result A
  unfolding validate_owner
  on_session lease device_id change state = elim (get lease state.active) [
    | none ↦ (state, err not_active)
    | some current ↦ elim (validate_owner current lease device_id) [
      | err e ↦ (state, err e)
      | ok _ ↦
          let changed = change current in
          (record state { active = insert lease changed.0 state.active }, changed.1)
    ]
  ]
