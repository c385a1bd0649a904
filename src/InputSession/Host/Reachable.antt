-- ===== src/InputSession/Host/Reachable.antt =====
-- Every section under the gate keeps the invariant, so it holds in every reachable state.
use arcrelay_protocol.Prelude.{
  inl, inr, ◌⊎◌, ℕ, ◌≡◌, refl, subst, Bool, false, not, ◌&&◌, some, List, [], ◌∷◌, arith, ◌==◌,
  if◌then◌else◌, Bytes, bytes_eq, nat_eq, int_eq, count, Map, get, remove, insert, value,
  Option-cases, Bool-cases,
}
use arcrelay_protocol.InputSession.{
  InputLease, input_lease_eq, ActiveInputSession, InputSessionState, acquire_with_routing,
  new_session, draw_lease, is_workspace_routed, is_expired,
}
use arcrelay_protocol.InputSession.Normalize.{GestureApi, Native, cancel_idle_system_gesture}
use arcrelay_protocol.InputSession.Normalize.Held.{HeldAgree}
use arcrelay_protocol.InputSession.Normalize.Native.{held_after}
use arcrelay_protocol.InputSession.Normalize.Sessions.{SessionsAgree, nobody}
use arcrelay_protocol.InputSession.Normalize.Refused.{cancel-HostAgrees}
use arcrelay_protocol.InputSession.Host.{
  Host, InputControl, null, set_active, apply_input, end_active, begin_input_session, lease_tick,
  workspace_input_lost, begins, frames, ticks, loses, ends, closes, Starts, starts, Reach, here,
  next,
}
use arcrelay_protocol.InputSession.Host.Keeps.{OwnedBy, cancel-Keeps}
use arcrelay_protocol.InputSession.Host.Invariant.{
  IsFaithful, Pending, advance, apply_input-IsSafe, released-IsSafe,
}
use arcrelay_protocol.InputSession.Host.Sections.{Safe, ended, handle_reliable_frame-IsSafe}

-- Counts of nothing fit a host that holds nothing.
quiet-HeldAgree :
    (counts : Map ℕ ℕ) (held held' : ℕ → Bool)
    → HeldAgree nobody counts [] held
    → ((k : ℕ) → held' k ≡ false)
    → HeldAgree nobody counts [] held'
unfolding count
quiet-HeldAgree counts held held' h quiet = record {
  counted = h.counted;
  once = h.once;
  room = h.room;
  shown = λ k. ground (arith, h.counted k, quiet k);
}

module _ (api : GestureApi) (Other : Type 0) {S : Type 0} (control : InputControl api Other S)
    (faithful : IsFaithful api Other control) (device_of : ℕ → Bytes) where
  end_active-IsSafe :
      (c : ℕ) (h : Host api Other S)
      → Safe api Other control faithful device_of h
      → Safe api Other control faithful device_of (end_active api Other control device_of c h)
  unfolding end_active
  end_active-IsSafe c h p = elim (Option-cases (h.active_input c)) [
    | inl e ↦ rw (e, end_active) p
    | inr (lease, e) ↦ rw (e, end_active) (ended api Other control faithful device_of c lease h p)
  ]

  -- A session is begun where nobody is in control.
  begun-IsSafe :
      (c now : ℕ) (lease : InputLease) (is_routed : Bool) (h : Host api Other S)
      → Safe api Other control faithful device_of h
      → h.state.active ≡ []
      → Safe api Other control faithful device_of (record h {
        state = record h.state {
          active = (lease, new_session api.idle now lease (device_of c) is_routed) ∷ [];
        };
        active_input = set_active api Other control device_of c (some lease) h;
      })
  unfolding new_session set_active get held_after
  begun-IsSafe c now lease is_routed h p e =
      let quiet = p.free e in
      let empty =
        subst
          (λ m.
            SessionsAgree m h.state.pressed_key_counts h.state.pressed_button_counts p.held p.down)
          e p.agrees.sessions in
      record {
        held = control.key_down h.control;
        down = control.button_down h.control;
        agrees = record {
          sessions = (
            refl,
            quiet-HeldAgree _ p.held _ empty.0 (λ k. (quiet k).0),
            quiet-HeldAgree _ p.down _ empty.1 (λ k. (quiet k).1),
          );
        };
        free = λ x. quiet;
        routed = λ l s x on. quiet;
        exact = λ l s reliable x off. (refl, refl);
        owned = λ c' l x. elim (Bool-cases (c' == c)) [
          | inl y ↦
              let q : lease ≡ l = ground (arith, x, y) in
              let s = new_session api.idle now lease (device_of c) is_routed in
              (s, ground (arith, q))
          | inr n ↦
              let (s, found) = p.owned c' l (ground (arith, x, n)) in
              absurd (ground (arith, e, found))
        ];
        single = λ c' d l l' x y. elim (Bool-cases (c' == c)) [
          | inl a ↦ elim (Bool-cases (d == c)) [
            | inl b ↦ ground (arith, a, b)
            | inr n ↦
                let (s, found) = p.owned d l' (ground (arith, y, n)) in
                absurd (ground (arith, e, found))
          ]
          | inr n ↦
              let (s, found) = p.owned c' l (ground (arith, x, n)) in
              absurd (ground (arith, e, found))
        ];
      }

  begin_input_session-IsSafe :
      (c now : ℕ) (draws : List (ℕ × ℕ)) (is_routed begins' : Bool) (h h' : Host api Other S)
      → Safe api Other control faithful device_of h
      → begin_input_session api Other control device_of c now draws is_routed begins' h ≡ some h'
      → Safe api Other control faithful device_of h'
  unfolding begin_input_session acquire_with_routing insert remove
  begin_input_session-IsSafe c now draws is_routed begins' h h' p q =
      let before = end_active api Other control device_of c h in
      by_active before (end_active-IsSafe c h p) refl before.state.active refl
    where
      by_active :
          (before : Host api Other S)
          → Safe api Other control faithful device_of before
          → end_active api Other control device_of c h ≡ before
          → (active : Map InputLease (ActiveInputSession api.Gesture))
          → before.state.active ≡ active
          → Safe api Other control faithful device_of h'
      by_active before safe b (x ∷ rest) e =
          subst (Safe api Other control faithful device_of) (ground (arith, q, b, e)) safe
      by_active before safe b [] e = elim (Option-cases (draw_lease draws before.state.active)) [
        | inl d ↦ absurd (ground (arith, q, b, e, d))
        | inr (lease, d) ↦
            let begun = begun-IsSafe c now lease is_routed before safe e in
            elim (Bool-cases (is_routed && not begins')) [
              | inl fails ↦
                  subst (Safe api Other control faithful device_of)
                    (ground (arith, q, b, e, d, fails))
                    (ended api Other control faithful device_of c lease _ begun)
              | inr works ↦
                  subst (Safe api Other control faithful device_of)
                    (ground (arith, q, b, e, d, works)) begun
            ]
      ]

  lease_tick-IsSafe :
      (c now : ℕ) (answer : Bool) (h : Host api Other S)
      → Safe api Other control faithful device_of h
      → Safe api Other control faithful device_of
          (lease_tick api Other control device_of c now answer h)
  unfolding lease_tick
  lease_tick-IsSafe c now answer h p = elim (Option-cases (h.active_input c)) [
    | inl e ↦ rw (lease_tick, e) p
    | inr (lease, e) ↦
        let r = cancel_idle_system_gesture api Other now lease (device_of c) h.state in
        let agrees =
          cancel-HostAgrees api Other now lease (device_of c) h.state p.held p.down p.agrees in
        let (kept, sent) =
          cancel-Keeps api Other now lease (device_of c) h.state p.held p.down p.agrees in
        let pending = advance api Other control [] r.1 h r.0 p agrees kept in
        elim (Bool-cases (is_expired now lease (device_of c) h.state)) [
          | inl late ↦
              rw (lease_tick, e, late) (ended api Other control faithful device_of c lease h p)
          | inr alive ↦ rw (lease_tick, e, alive) (applied lease answer r.0 r.1 h pending sent)
        ]
  ]
    where
      applied :
          (lease : InputLease) (answer : Bool) (state : InputSessionState api.Gesture)
          (events : List (Native api Other)) (h : Host api Other S)
          → Pending api Other control events (record h { state = state })
          → (events ≡ []) ⊎ OwnedBy api Other lease (device_of c) state
          → Safe api Other control faithful device_of (
              if null events then record h { state = state } else record h {
                state = state;
                control =
                    (apply_input api Other control device_of c lease answer events
                      (record h { state = state })).0;
              })
      applied lease answer state [] h pending sent = pending
      applied lease answer state (x ∷ xs) h pending (inl sent) = absurd (ground (arith, sent))
      applied lease answer state (x ∷ xs) h pending (inr owned) =
          apply_input-IsSafe api Other control faithful device_of c lease answer (x ∷ xs) _ pending
            owned

  workspace_input_lost-IsSafe :
      (c : ℕ) (h : Host api Other S)
      → Safe api Other control faithful device_of h
      → Safe api Other control faithful device_of
          (workspace_input_lost api Other control device_of c h)
  unfolding workspace_input_lost
  workspace_input_lost-IsSafe c h p = elim (Option-cases (h.active_input c)) [
    | inl e ↦ rw (workspace_input_lost, e) p
    | inr (lease, e) ↦ elim (Bool-cases (is_workspace_routed lease (device_of c) h.state)) [
      | inr off ↦ rw (workspace_input_lost, e, off) p
      | inl on ↦
          let (s, found) = p.owned c lease e in
          let quiet =
            p.routed lease s found (unfold is_workspace_routed in ground (arith, on, found)) in
          rw (workspace_input_lost, e, on)
            (released-IsSafe api Other control faithful device_of c lease h h.control p e quiet).1
    ]
  ]

  start-IsSafe :
      (h : Host api Other S)
      → Starts api Other control device_of h
      → Safe api Other control faithful device_of h
  unfolding value get count held_after
  start-IsSafe h (starts e nobody' keys buttons) =
      let none_held : HeldAgree nobody [] [] (λ k. false) = record {
        counted = λ k. refl;
        once = λ k. omega arith;
        room = λ k. omega arith;
        shown = λ k. refl;
      } in
      record {
        held = control.key_down h.control;
        down = control.button_down h.control;
        agrees = rw e (record {
          sessions = (
            quiet-HeldAgree [] (λ k. false) _ none_held keys,
            quiet-HeldAgree [] (λ k. false) _ none_held buttons,
          );
        });
        free = λ x k. (keys k, buttons k);
        routed = λ l s x on k. (keys k, buttons k);
        exact = λ l s reliable x off. (refl, refl);
        owned = λ c l x. absurd (ground (arith, x, nobody' c));
        single = λ c d l l' x y. absurd (ground (arith, x, nobody' c));
      }

  pub Reach-IsSafe :
      {h : Host api Other S}
      → Reach api Other control device_of h
      → Safe api Other control faithful device_of h
  Reach-IsSafe (here s) = start-IsSafe _ s
  Reach-IsSafe (next r (begins c now draws routed answer h' q)) =
      begin_input_session-IsSafe c now draws routed answer _ h' (Reach-IsSafe r) q
  Reach-IsSafe (next r (frames c frame h' q)) =
      handle_reliable_frame-IsSafe api Other control faithful device_of c frame _ h'
        (Reach-IsSafe r) q
  Reach-IsSafe (next r (ticks c now answer)) = lease_tick-IsSafe c now answer _ (Reach-IsSafe r)
  Reach-IsSafe (next r (loses c)) = workspace_input_lost-IsSafe c _ (Reach-IsSafe r)
  Reach-IsSafe (next r (ends c lease)) =
      ended api Other control faithful device_of c lease _ (Reach-IsSafe r)
  Reach-IsSafe (next r (closes c)) = end_active-IsSafe c _ (Reach-IsSafe r)
