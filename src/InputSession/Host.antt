-- ===== src/InputSession/Host.antt =====
-- src/server/proto_handler/input.rs, input/events.rs and src/server/proto_handler.rs: what the
-- connections do with the manager of input sessions and the host's input. Each function runs under
-- `input_apply_gate`, which the connections share; a connection is a number. The host's input and the
-- answers of the workspace router are parameters.
pub mod Keeps
pub mod Invariant
pub mod Sections
pub mod Reachable
pub mod Safety
use arcrelay_protocol.Prelude.{
  ℕ, ◌≡◌, Bool, true, false, not, ◌||◌, ◌&&◌, Option, none, some, List, [], ◌∷◌, ◌++◌, ltb, ◌==◌,
  if◌then◌else◌, Bytes, bytes_eq, nat_eq, int_eq, same, length, ℤ, pos, is_some_and,
}
use arcrelay_protocol.InputSession.{
  InputLease, input_lease_eq, InputSessionState, MotionDelta, ok, err, acquire_with_routing,
  is_workspace_routed, is_expired,
}
use arcrelay_protocol.InputSession.Frames.{accept_reliable, accept_ordered_motion}
use arcrelay_protocol.InputSession.Normalize.{
  GestureApi, Native, other, normalize_reliable_events, release, cancel_idle_system_gesture,
}

abbrev pub null {ℓ} : {A : Type ℓ} → List A → Bool
null [] = true
null (x ∷ xs) = false

module _ (api : GestureApi) (Other : Type 0) where
  -- `input_control`, which injects events into the host; the Boolean tells whether it succeeded.
  pub record InputControl (S : Type 0) : Type 0 where
    pub apply_events : List (Native api Other) → S → S × Bool
    pub release_all : S → S
    pub key_down : S → ℕ → Bool
    pub button_down : S → ℕ → Bool
    pub pointer_move : MotionDelta → Other
    pub scroll : MotionDelta → Other

  pub record MotionTotals : Type 0 where
    pub pointer : ℤ × ℤ
    pub scroll : ℤ × ℤ
    pub precise_scroll : Bool

  -- A frame whose events are converted, or none where `convert_reliable_events` refuses them, with the
  -- answers of `validate_events` and the router, and the time of each call of the manager.
  pub record ReliableFrame : Type 0 where
    pub lease : InputLease
    pub sequence : ℕ
    pub elapsed_us : ℕ
    pub too_many : Bool
    pub events : Option (List (Native api Other))
    pub motion : Option MotionTotals
    pub is_valid : Bool
    pub router_applies : Bool
    pub accepted_at : ℕ
    pub normalized_at : ℕ
    pub moved_at : ℕ

  pub record Host (S : Type 0) : Type 0 where
    pub state : InputSessionState api.Gesture
    pub active_input : ℕ → Option InputLease
    pub control : S

  module _ {S : Type 0} (control : InputControl S) (device_of : ℕ → Bytes) where
    unfoldable pub set_active : ℕ → Option InputLease → Host S → ℕ → Option InputLease
    set_active c lease h c' = if c' == c then lease else h.active_input c'

    -- The lease is kept until the host's keys are released; the events of `release` are not used.
    unfoldable pub end_input_lease_locked : ℕ → InputLease → Host S → Host S
    unfolding set_active
    end_input_lease_locked c lease h =
        if is_some_and (h.active_input c) (λ current. same current lease)
        then record {
          state = (release api Other lease h.state).0;
          active_input = set_active c none h;
          control =
              if is_workspace_routed lease (device_of c) h.state
              then h.control
              else control.release_all h.control;
        }
        else h

    -- Events go to the router or to the host.
    unfoldable pub apply_input : ℕ → InputLease → Bool → List (Native api Other) → Host S → S × Bool
    apply_input c lease router_applies events h =
        if is_workspace_routed lease (device_of c) h.state
        then (h.control, router_applies)
        else control.apply_events events h.control

    unfoldable pub apply_frame : ℕ → InputLease → Bool → List (Native api Other) → Host S → Host S
    unfolding apply_input end_input_lease_locked
    apply_frame c lease router_applies events h =
        let (after, applied) = apply_input c lease router_applies events h in
        let h' : Host S = record h { control = after } in
        if null events then h else if applied then h' else end_input_lease_locked c lease h'

    unfoldable pub motion_events : MotionDelta → List (Native api Other)
    motion_events delta =
        (if same delta.pointer_x_256 (pos 0) && same delta.pointer_y_256 (pos 0)
          then []
          else other (control.pointer_move delta) ∷ [])
        ++ (if same delta.scroll_x_256 (pos 0) && same delta.scroll_y_256 (pos 0)
            then []
            else other (control.scroll delta) ∷ [])

    -- What comes after the events of a frame are normalized.
    unfoldable pub finish_frame : ℕ → ReliableFrame → List (Native api Other) → Host S → Host S
    unfolding apply_frame motion_events
    finish_frame c frame events h = elim frame.motion [
      | none ↦ apply_frame c frame.lease frame.router_applies events h
      | some motion ↦
          let (state, moved) =
            accept_ordered_motion frame.moved_at frame.lease (device_of c) motion.pointer
              motion.scroll motion.precise_scroll h.state in
          let h' : Host S = record h { state = state } in
          elim moved [
            | err e ↦ end_input_lease_locked c frame.lease h'
            | ok delta ↦
                apply_frame c frame.lease frame.router_applies (events ++ motion_events delta) h'
          ]
    ]

    -- The rest, after the frame is accepted; `none` is the panic of the manager.
    unfoldable pub normalize_frame :
        ℕ → ReliableFrame → List (Native api Other) → Host S → Option (Host S)
    unfolding finish_frame
    normalize_frame c frame events h =
        elim (normalize_reliable_events api Other frame.normalized_at frame.lease (device_of c)
          events h.state) [
            | none ↦ none
            | some (state, err e) ↦
                some (end_input_lease_locked c frame.lease (record h { state = state }))
            | some (state, ok sent) ↦ some (finish_frame c frame sent (record h { state = state }))
          ]

    -- One round of the loop of a reliable input stream.
    unfoldable pub handle_reliable_frame : ℕ → ReliableFrame → Host S → Option (Host S)
    unfolding normalize_frame
    handle_reliable_frame c frame h =
        let ended = some (end_input_lease_locked c frame.lease h) in
        if frame.too_many then ended else elim frame.events [
          | none ↦ ended
          | some events ↦
              let (state, accepted) =
                accept_reliable frame.accepted_at frame.lease (device_of c) frame.sequence
                  frame.elapsed_us h.state in
              let h' : Host S = record h { state = state } in
              if is_some_and frame.motion (λ motion. not (null events)) || not frame.is_valid
              then ended
              else elim accepted [
                | err e ↦ some (end_input_lease_locked c frame.lease h')
                | ok feedback ↦ normalize_frame c frame events h'
              ]
        ]

    -- The lease of a connection, if it has one, is ended: its stream or the connection is closed.
    unfoldable pub end_active : ℕ → Host S → Host S
    unfolding end_input_lease_locked
    end_active c h = elim (h.active_input c) [
      | none ↦ h
      | some lease ↦ end_input_lease_locked c lease h
    ]

    -- Once the permissions are checked; `none` where the draws do not suffice.
    unfoldable pub begin_input_session :
        ℕ → ℕ → List (ℕ × ℕ) → Bool → Bool → Host S → Option (Host S)
    unfolding end_active set_active
    begin_input_session c now draws routed router_begins h =
        let h' = end_active c h in
        elim (acquire_with_routing api.idle now draws (device_of c) routed h'.state) [
          | none ↦ none
          | some (state, err e) ↦ some (record h' { state = state })
          | some (state, ok lease) ↦
              let begun : Host S = record h' {
                state = state;
                active_input = set_active c (some lease) h';
              } in
              some (
                if routed && not router_begins then end_input_lease_locked c lease begun else begun)
        ]

    -- A tick of the lease's timer.
    unfoldable pub lease_tick : ℕ → ℕ → Bool → Host S → Host S
    unfolding end_input_lease_locked apply_input
    lease_tick c now router_applies h = elim (h.active_input c) [
      | none ↦ h
      | some lease ↦
          let (state, cancellations) =
            cancel_idle_system_gesture api Other now lease (device_of c) h.state in
          let h' : Host S = record h { state = state } in
          if is_expired now lease (device_of c) h.state
          then end_input_lease_locked c lease h
          else if null cancellations
          then h'
          else record h' { control = (apply_input c lease router_applies cancellations h').0 }
    ]

    -- The router has suspended or ended the route of the connection's lease.
    -- The code asks for the routing of the lease before it takes the gate; while the connection has
    -- that lease, its routing stays the same.
    unfoldable pub workspace_input_lost : ℕ → Host S → Host S
    unfolding set_active
    workspace_input_lost c h = elim (h.active_input c) [
      | none ↦ h
      | some lease ↦
          if is_workspace_routed lease (device_of c) h.state
          then record h {
            state = (release api Other lease h.state).0;
            active_input = set_active c none h;
          }
          else h
    ]

    -- One section under the gate, of any connection.
    pub data Step (h : Host S) : Host S → Type 0 where
      begins :
          (c now : ℕ) (draws : List (ℕ × ℕ)) (routed router_begins : Bool) (h' : Host S)
          → begin_input_session c now draws routed router_begins h ≡ some h'
          → Step h h'
      frames :
          (c : ℕ) (frame : ReliableFrame) (h' : Host S)
          → handle_reliable_frame c frame h ≡ some h'
          → Step h h'
      ticks : (c now : ℕ) (router_applies : Bool) → Step h (lease_tick c now router_applies h)
      loses : (c : ℕ) → Step h (workspace_input_lost c h)
      ends : (c : ℕ) (lease : InputLease) → Step h (end_input_lease_locked c lease h)
      closes : (c : ℕ) → Step h (end_active c h)

    -- Nobody is in control, and no key and no button is down.
    pub data Starts (h : Host S) : Type 0 where
      starts :
          h.state ≡ record { active = []; pressed_key_counts = []; pressed_button_counts = [] }
          → ((c : ℕ) → h.active_input c ≡ none)
          → ((k : ℕ) → control.key_down h.control k ≡ false)
          → ((k : ℕ) → control.button_down h.control k ≡ false)
          → Starts h

    pub data Reach : Host S → Type 0 where
      here : {h : Host S} → Starts h → Reach h
      next : {h h' : Host S} → Reach h → Step h h' → Reach h'
