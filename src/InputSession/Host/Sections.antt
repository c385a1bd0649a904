-- ===== src/InputSession/Host/Sections.antt =====
-- A reliable frame keeps the invariant.
use arcrelay_protocol.Prelude.{
  inl, inr, ◌⊎◌, ℕ, ◌≡◌, refl, ◌∙◌, subst, Bool, false, not, ◌||◌, ◌&&◌, none, some, List, [], ◌∷◌,
  arith, Bytes, bytes_eq, nat_eq, int_eq, same, Option-cases, Bool-cases, is_some_and, pos,
}
use arcrelay_protocol.InputSession.{
  InputLease, input_lease_eq, InputSessionState, Result, ok, err, MotionDelta,
  InputFeedbackSnapshot,
}
use arcrelay_protocol.InputSession.Frames.{accept_reliable, accept_ordered_motion}
use arcrelay_protocol.InputSession.Frames.Untouched.{
  accept_reliable_frame-Untouched, accept_motion_totals-Untouched,
}
use arcrelay_protocol.InputSession.Normalize.{
  GestureApi, Native, other, normalize_events, all_valid, normalize_reliable_events,
}
use arcrelay_protocol.InputSession.Normalize.Native.{key_step, button_step, held_after}
use arcrelay_protocol.InputSession.Normalize.Sessions.{
  on_session-SessionsAgree, normalize-HostAgrees,
}
use arcrelay_protocol.InputSession.Normalize.Refused.{refused-HostAgrees}
use arcrelay_protocol.InputSession.Host.{
  Host, InputControl, ReliableFrame, null, end_input_lease_locked, apply_input, apply_frame,
  motion_events, finish_frame, normalize_frame, handle_reliable_frame,
}
use arcrelay_protocol.InputSession.Host.Keeps.{
  Keeps, OwnedBy, after_Keeps, before_Keeps, on_session-Keeps, normalize-Keeps, refused-Keeps,
}
use arcrelay_protocol.InputSession.Host.Invariant.{
  IsFaithful, Pending, IsSafe, advance, apply_input-IsSafe, end_input_lease_locked-IsSafe,
}

module _ (api : GestureApi) (Other : Type 0) {S : Type 0} (control : InputControl api Other S)
    (faithful : IsFaithful api Other control) (device_of : ℕ → Bytes) where
  abbrev pub Safe : Host api Other S → Type 0
  Safe = IsSafe api Other control

  pub ended :
      (c : ℕ) (lease : InputLease) (h : Host api Other S)
      → Safe h
      → Safe (end_input_lease_locked api Other control device_of c lease h)
  ended = end_input_lease_locked-IsSafe api Other control faithful device_of

  apply_frame-IsSafe :
      (c : ℕ) (lease : InputLease) (answer : Bool) (events : List (Native api Other))
      (h : Host api Other S)
      → Pending api Other control events h
      → OwnedBy api Other lease (device_of c) h.state
      → Safe (apply_frame api Other control device_of c lease answer events h)
  unfolding apply_frame
  apply_frame-IsSafe c lease answer [] h p o = p
  apply_frame-IsSafe c lease answer (e ∷ es) h p o =
      let applied = apply_input api Other control device_of c lease answer (e ∷ es) h in
      let safe =
        apply_input-IsSafe api Other control faithful device_of c lease answer (e ∷ es) h p o in
      elim (Bool-cases applied.1) [ inl y ↦ rw y safe | inr n ↦ rw n (ended c lease _ safe) ]

  motion_pass :
      (step : Native api Other → (ℕ → Bool) → ℕ → Bool) (delta : MotionDelta) (held : ℕ → Bool)
      → ((o : Other) (h : ℕ → Bool) → step (other o) h ≡ h)
      → held_after step (motion_events api Other control device_of delta) held ≡ held
  unfolding motion_events held_after
  motion_pass step delta held p =
      elim (Bool-cases (same delta.pointer_x_256 (pos 0) && same delta.pointer_y_256 (pos 0))) [
        | inl a ↦
            elim (Bool-cases (same delta.scroll_x_256 (pos 0) && same delta.scroll_y_256 (pos 0))) [
              | inl b ↦ rw (a, b, held_after) refl
              | inr b ↦ rw (a, b, held_after) (p _ held)
            ]
        | inr a ↦
            elim (Bool-cases (same delta.scroll_x_256 (pos 0) && same delta.scroll_y_256 (pos 0))) [
              | inl b ↦ rw (a, b, held_after) (p _ held)
              | inr b ↦ rw (a, b, held_after) (p _ _ ∙ p _ held)
            ]
      ]

  moved-Pending :
      (delta : MotionDelta) (h : Host api Other S)
      → Safe h
      → Pending api Other control (motion_events api Other control device_of delta) h
  unfolding held_after
  moved-Pending delta h p = record {
    held = p.held;
    down = p.down;
    agrees = p.agrees;
    free = p.free;
    routed = p.routed;
    exact = λ l s reliable found off.
        let (keys, buttons) = p.exact l s reliable found off in
        (
          motion_pass key_step delta _ (λ (o : Other) (held : ℕ → Bool). refl) ∙ keys,
          motion_pass button_step delta _ (λ (o : Other) (held : ℕ → Bool). refl) ∙ buttons,
        );
    owned = p.owned;
    single = p.single;
  }

  owner_Keeps :
      (lease : InputLease) (device_id : Bytes) (before after : InputSessionState api.Gesture)
      → Keeps before.active after.active
      → OwnedBy api Other lease device_id before
      → OwnedBy api Other lease device_id after
  owner_Keeps lease device_id before after kept (t, found, device) =
      let (s, there) = after_Keeps before.active after.active lease t kept found in
      let (t', found', (_, device', _)) =
        before_Keeps before.active after.active lease s kept there in
      let e : t' ≡ t = ground (arith, found, found') in
      (s, there, ground (arith, device', e, device))

  accepted-IsSafe :
      (now : ℕ) (lease : InputLease) (device_id : Bytes) (sequence elapsed_us : ℕ)
      (h : Host api Other S)
      → Safe h
      → Safe
          (record h { state = (accept_reliable now lease device_id sequence elapsed_us h.state).0 })
  unfolding accept_reliable held_after
  accepted-IsSafe now lease device_id sequence elapsed_us h p =
      let untouched = accept_reliable_frame-Untouched now sequence elapsed_us in
      advance api Other control [] [] h _ p
        (record {
          sessions =
              on_session-SessionsAgree lease device_id _ h.state p.held p.down untouched
                p.agrees.sessions;
        })
        (on_session-Keeps lease device_id _ h.state p.held p.down untouched p.agrees.sessions)

  after_motion :
      (c : ℕ) (frame : ReliableFrame api Other) (moved : Result MotionDelta) (h : Host api Other S)
      → Safe h
      → OwnedBy api Other frame.lease (device_of c) h.state
      → Safe (elim moved [
        | err e ↦ end_input_lease_locked api Other control device_of c frame.lease h
        | ok delta ↦
            apply_frame api Other control device_of c frame.lease frame.router_applies
              (motion_events api Other control device_of delta)
              h
      ])
  after_motion c frame (err e) h p o = ended c frame.lease h p
  after_motion c frame (ok delta) h p o =
      apply_frame-IsSafe c frame.lease frame.router_applies _ h (moved-Pending delta h p) o

  finish_frame-IsSafe :
      (c : ℕ) (frame : ReliableFrame api Other) (sent : List (Native api Other))
      (h : Host api Other S)
      → Pending api Other control sent h
      → (frame.motion ≡ none) ⊎ (sent ≡ [])
      → OwnedBy api Other frame.lease (device_of c) h.state
      → Safe (finish_frame api Other control device_of c frame sent h)
  unfolding finish_frame accept_ordered_motion held_after
  finish_frame-IsSafe c frame sent h p m o = elim (Option-cases frame.motion) [
    | inl e ↦ rw e (apply_frame-IsSafe c frame.lease frame.router_applies sent h p o)
    | inr (motion, e) ↦
        let nothing : sent ≡ [] = ground (arith, m, e) in
        let q : Safe h =
          subst (λ (x : List (Native api Other)). Pending api Other control x h) nothing p in
        let moved =
          accept_ordered_motion frame.moved_at frame.lease (device_of c) motion.pointer
            motion.scroll motion.precise_scroll h.state in
        let untouched =
          accept_motion_totals-Untouched frame.moved_at motion.pointer motion.scroll
            motion.precise_scroll in
        let kept =
          on_session-Keeps frame.lease (device_of c) _ h.state q.held q.down untouched
            q.agrees.sessions in
        let safe =
          advance api Other control [] [] h moved.0 q
            (record {
              sessions =
                  on_session-SessionsAgree frame.lease (device_of c) _ h.state q.held q.down
                    untouched q.agrees.sessions;
            })
            kept in
        rw (e, nothing)
          (after_motion c frame moved.1 (record h { state = moved.0 }) safe
            (owner_Keeps frame.lease (device_of c) h.state moved.0 kept o))
  ]

  -- Nothing comes of no events.
  sends_nothing :
      (now : ℕ) (lease : InputLease) (device_id : Bytes) (sent : List (Native api Other))
      (state after : InputSessionState api.Gesture)
      → normalize_reliable_events api Other now lease device_id [] state ≡ some (after, ok sent)
      → sent ≡ []
  unfolding normalize_reliable_events normalize_events all_valid
  sends_nothing now lease device_id sent state after p = ground arith

  normalize_frame-IsSafe :
      (c : ℕ) (frame : ReliableFrame api Other) (events : List (Native api Other))
      (h h' : Host api Other S)
      → Safe h
      → (frame.motion ≡ none) ⊎ (events ≡ [])
      → normalize_frame api Other control device_of c frame events h ≡ some h'
      → Safe h'
  unfolding normalize_frame
  normalize_frame-IsSafe c frame events h h' p m q =
      let now = frame.normalized_at in
      let lease = frame.lease in
      let device = device_of c in
      elim (Option-cases (normalize_reliable_events api Other now lease device events h.state)) [
        | inl e ↦ absurd (ground (arith, e, q))
        | inr ((state, err error), e) ↦
            let kept =
              refused-Keeps api Other now lease device events error h.state state p.held p.down e
                p.agrees in
            let agrees =
              refused-HostAgrees api Other now lease device events error h.state state p.held p.down
                e p.agrees in
            let safe =
              advance api Other control [] [] h state p (unfold held_after in agrees) kept in
            subst Safe (ground (arith, e, q)) (ended c lease (record h { state = state }) safe)
        | inr ((state, ok sent), e) ↦
            let (kept, owned) =
              normalize-Keeps api Other now lease device events sent h.state state p.held p.down e
                p.agrees in
            let agrees =
              normalize-HostAgrees api Other now lease device events sent h.state state p.held
                p.down e p.agrees in
            let pending = advance api Other control [] sent h state p agrees kept in
            let none_sent : (frame.motion ≡ none) ⊎ (sent ≡ []) = elim m [
              | inl x ↦ inl x
              | inr x ↦ inr (
                  sends_nothing now lease device sent h.state state (
                    subst
                      (λ (es : List (Native api Other)).
                        normalize_reliable_events api Other now lease device es h.state
                        ≡ some (state, ok sent))
                      x e))
            ] in
            subst Safe (ground (arith, e, q)) (
              finish_frame-IsSafe c frame sent (record h { state = state }) pending none_sent owned)
      ]

  pub handle_reliable_frame-IsSafe :
      (c : ℕ) (frame : ReliableFrame api Other) (h h' : Host api Other S)
      → Safe h
      → handle_reliable_frame api Other control device_of c frame h ≡ some h'
      → Safe h'
  unfolding handle_reliable_frame
  handle_reliable_frame-IsSafe c frame h h' p q = elim (Bool-cases frame.too_many) [
    | inl many ↦ subst Safe (ground (arith, many, q)) (ended c frame.lease h p)
    | inr few ↦ elim (Option-cases frame.events) [
      | inl bad ↦ subst Safe (ground (arith, few, bad, q)) (ended c frame.lease h p)
      | inr (events, good) ↦
          elim (Bool-cases
            (is_some_and frame.motion (λ motion. not (null events)) || not frame.is_valid)) [
              | inl mixed ↦
                  subst Safe (ground (arith, few, good, mixed, q)) (ended c frame.lease h p)
              | inr pure ↦
                  let accepted =
                    accept_reliable frame.accepted_at frame.lease (device_of c) frame.sequence
                      frame.elapsed_us h.state in
                  let safe =
                    accepted-IsSafe frame.accepted_at frame.lease (device_of c) frame.sequence
                      frame.elapsed_us h p in
                  by_answer accepted.1 events good few pure refl safe
            ]
    ]
  ]
    where
      by_answer :
          (answer : Result InputFeedbackSnapshot) (events : List (Native api Other))
          → frame.events ≡ some events
          → frame.too_many ≡ false
          → (is_some_and frame.motion (λ motion. not (null events)) || not frame.is_valid) ≡ false
          → (accept_reliable frame.accepted_at frame.lease
              (device_of c)
              frame.sequence
              frame.elapsed_us
              h.state).1
            ≡ answer
          → Safe (record h {
            state =
                (accept_reliable frame.accepted_at frame.lease
                  (device_of c)
                  frame.sequence
                  frame.elapsed_us
                  h.state).0;
          })
          → Safe h'
      by_answer (err e) events good few pure a safe =
          subst Safe (ground (arith, few, good, pure, a, q)) (ended c frame.lease _ safe)
      by_answer (ok f) events good few pure a safe =
          normalize_frame-IsSafe c frame events _ h' safe (motion_or_events events pure)
            (ground (arith, few, good, pure, a, q))
        where
          motion_or_events :
              (events' : List (Native api Other))
              → (is_some_and frame.motion (λ motion. not (null events')) || not frame.is_valid)
                ≡ false
              → (frame.motion ≡ none) ⊎ (events' ≡ [])
          motion_or_events [] x = inr refl
          motion_or_events (y ∷ ys) x = elim (Option-cases frame.motion) [
            | inl e ↦ inl e
            | inr (m, e) ↦ absurd (ground (arith, e, x))
          ]
