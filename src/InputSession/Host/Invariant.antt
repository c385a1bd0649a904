-- ===== src/InputSession/Host/Invariant.antt =====
-- What every section under the gate leaves true.
use arcrelay_protocol.Prelude.{
  inl, inr, ℕ, ◌≡◌, ap, sym, ◌∙◌, Bool, true, false, none, some, List, [], ◌++◌, arith, ◌==◌,
  if◌then◌else◌, Bytes, bytes_eq, nat_eq, int_eq, Map, get, remove, get-remove, Option-cases,
  Bool-cases,
}
use arcrelay_protocol.InputSession.{
  InputLease, InputLease-discrete, input_lease_eq, ActiveInputSession, InputSessionState,
  is_workspace_routed,
}
use arcrelay_protocol.InputSession.Normalize.{GestureApi, Native, release}
use arcrelay_protocol.InputSession.Normalize.Native.{
  key_step, button_step, held_after, held_after-append,
}
use arcrelay_protocol.InputSession.Normalize.Sessions.{
  SessionsAgree, HostAgrees, only_session, release-HostAgrees,
}
use arcrelay_protocol.InputSession.Host.{
  Host, InputControl, set_active, end_input_lease_locked, apply_input,
}
use arcrelay_protocol.InputSession.Host.Keeps.{
  Keeps, before_Keeps, after_Keeps, empty_Keeps, OwnedBy,
}

same_session :
    {Gesture : Type 0} (l l' : InputLease) (s t : ActiveInputSession Gesture)
    (active : Map InputLease (ActiveInputSession Gesture)) (keys buttons : Map ℕ ℕ)
    (held down : ℕ → Bool)
    → get l active ≡ some s
    → get l' active ≡ some t
    → SessionsAgree active keys buttons held down
    → s ≡ t
same_session l l' s t active keys buttons held down p q a =
    let (alone, _, _, _) = only_session l' t active keys buttons held down q a in
    let gone : get l (remove l' active) ≡ none = unfold get in ground (arith, alone) in
    elim (InputLease-discrete l l') [
      | yes e ↦ ground (arith, e, p, q)
      | no n ↦ absurd (ground (arith, gone, n, p, get-remove l l' active))
    ]

module _ (api : GestureApi) (Other : Type 0) {S : Type 0} (control : InputControl api Other S) where
  -- No key and no button is down.
  abbrev pub Quiet : S → Type 0
  Quiet s = (k : ℕ) → (control.key_down s k ≡ false) × (control.button_down s k ≡ false)

  -- What the host's input does: events that it applies press and lift their keys and buttons, in
  -- order, and `release_all` leaves nothing down.
  pub record IsFaithful : Type 0 where
    pub applied :
        (events : List (Native api Other)) (s : S)
        → (control.apply_events events s).1 ≡ true
        → (control.key_down (control.apply_events events s).0
            ≡ held_after key_step events (control.key_down s))
          × (control.button_down (control.apply_events events s).0
              ≡ held_after button_step events (control.button_down s))
    pub released : (s : S) → Quiet (control.release_all s)

  -- It never fails to apply events.
  abbrev pub IsReliable : Type 0
  IsReliable = (events : List (Native api Other)) (s : S) → (control.apply_events events s).1 ≡ true

  -- `held` and `down` are what the events of the manager press; `events` are not applied yet.
  pub record Pending (events : List (Native api Other)) (h : Host api Other S) : Type 0 where
    pub held : ℕ → Bool
    pub down : ℕ → Bool
    pub agrees : HostAgrees api Other h.state held down
    pub free : h.state.active ≡ [] → Quiet h.control
    pub routed :
        (l : InputLease) (s : ActiveInputSession api.Gesture)
        → get l h.state.active ≡ some s
        → s.workspace_routed ≡ true
        → Quiet h.control
    pub exact :
        (l : InputLease) (s : ActiveInputSession api.Gesture)
        → IsReliable
        → get l h.state.active ≡ some s
        → s.workspace_routed ≡ false
        → (held_after key_step events (control.key_down h.control) ≡ held)
          × (held_after button_step events (control.button_down h.control) ≡ down)
    pub owned :
        (c : ℕ) (l : InputLease)
        → h.active_input c ≡ some l
        → (s : ActiveInputSession api.Gesture) × (get l h.state.active ≡ some s)
    pub single :
        (c c' : ℕ) (l l' : InputLease)
        → h.active_input c ≡ some l
        → h.active_input c' ≡ some l'
        → c ≡ c'

  abbrev pub IsSafe : Host api Other S → Type 0
  IsSafe = Pending []

  -- A call of the manager that sends events and leaves the session in control.
  pub advance :
      (events sent : List (Native api Other)) (h : Host api Other S)
      (state : InputSessionState api.Gesture) (p : Pending events h)
      → HostAgrees api Other state
          (held_after key_step sent p.held)
          (held_after button_step sent p.down)
      → Keeps h.state.active state.active
      → Pending (events ++ sent) (record h { state = state })
  advance events sent h state p agrees kept = record {
    held = held_after key_step sent p.held;
    down = held_after button_step sent p.down;
    agrees = agrees;
    free = λ e. p.free (empty_Keeps h.state.active state.active kept e);
    routed = λ l s found on.
        let (t, before, (_, _, route)) = before_Keeps h.state.active state.active l s kept found in
        p.routed l t before (sym route ∙ on);
    exact = λ l s reliable found off.
        let (t, before, (_, _, route)) = before_Keeps h.state.active state.active l s kept found in
        let (keys, buttons) = p.exact l t reliable before (sym route ∙ off) in
        (
          held_after-append key_step events sent _ ∙ ap (held_after key_step sent) keys,
          held_after-append button_step events sent _ ∙ ap (held_after button_step sent) buttons,
        );
    owned = λ c l e.
        let (s, found) = p.owned c l e in after_Keeps h.state.active state.active l s kept found;
    single = p.single;
  }

  module _ (faithful : IsFaithful) (device_of : ℕ → Bytes) where
    -- The events are applied, or not; the session stays in control.
    pub apply_input-IsSafe :
        (c : ℕ) (lease : InputLease) (answer : Bool) (events : List (Native api Other))
        (h : Host api Other S)
        → Pending events h
        → OwnedBy api Other lease (device_of c) h.state
        → IsSafe (record h {
          control = (apply_input api Other control device_of c lease answer events h).0;
        })
    unfolding apply_input is_workspace_routed held_after
    apply_input-IsSafe c lease answer events h p (t, found, device) =
        elim (Bool-cases t.workspace_routed) [
          | inl on ↦
              let to_router : is_workspace_routed lease (device_of c) h.state ≡ true =
                ground (arith, found, device, on) in
              rw to_router (record {
                held = p.held;
                down = p.down;
                agrees = p.agrees;
                free = p.free;
                routed = p.routed;
                exact = λ l s reliable there off.
                    let e =
                      same_session l lease s t h.state.active _ _ p.held p.down there found
                        p.agrees.sessions in
                    absurd (ground (arith, e, on, off));
                owned = p.owned;
                single = p.single;
              })
          | inr off ↦
              let to_host : is_workspace_routed lease (device_of c) h.state ≡ false =
                ground (arith, found, device, off) in
              rw to_host (record {
                held = p.held;
                down = p.down;
                agrees = p.agrees;
                free = λ e. absurd (unfold get in ground (arith, e, found));
                routed = λ l s there on.
                    let e =
                      same_session l lease s t h.state.active _ _ p.held p.down there found
                        p.agrees.sessions in
                    absurd (ground (arith, e, on, off));
                exact = λ l s reliable there unrouted.
                    let (keys, buttons) =
                      faithful.applied events h.control (reliable events h.control) in
                    let (keys', buttons') = p.exact l s reliable there unrouted in
                    (keys ∙ keys', buttons ∙ buttons');
                owned = p.owned;
                single = p.single;
              })
        ]

    -- The lease of a connection is released, and nothing is down.
    pub released-IsSafe :
        (c : ℕ) (lease : InputLease) (h : Host api Other S) (after : S)
        → IsSafe h
        → h.active_input c ≡ some lease
        → Quiet after
        → ((release api Other lease h.state).0.active ≡ [])
          × IsSafe (record {
            state = (release api Other lease h.state).0;
            active_input = set_active api Other control device_of c none h;
            control = after;
          })
    unfolding set_active
    released-IsSafe c lease h after p mine quiet =
        let (s, found) = p.owned c lease mine in
        let (alone, _, _, _) =
          only_session lease s h.state.active _ _ p.held p.down found p.agrees.sessions in
        let ended : (release api Other lease h.state).0.active ≡ [] =
          unfold release in ground (arith, found, alone) in
        (
          ended,
          record {
            held = held_after key_step (release api Other lease h.state).1 p.held;
            down = held_after button_step (release api Other lease h.state).1 p.down;
            agrees = release-HostAgrees api Other lease h.state p.held p.down p.agrees;
            free = λ e. quiet;
            routed = λ l t there on. quiet;
            exact = λ l t reliable there off. absurd (unfold get in ground (arith, ended, there));
            owned = λ c' l e. absurd (elim (Bool-cases (c' == c)) [
              | inl same' ↦ ground (arith, same', e)
              | inr other ↦
                  ground (arith, other, p.single c' c l lease (ground (arith, other, e)) mine)
            ]);
            single = λ c' d l l' e f. absurd (elim (Bool-cases (c' == c)) [
              | inl same' ↦ ground (arith, same', e)
              | inr other ↦
                  ground (arith, other, p.single c' c l lease (ground (arith, other, e)) mine)
            ]);
          },
        )

    guarded :
        (c : ℕ) (lease : InputLease) (h : Host api Other S)
        → h.active_input c ≡ some lease
        → end_input_lease_locked api Other control device_of c lease h ≡ record {
          state = (release api Other lease h.state).0;
          active_input = set_active api Other control device_of c none h;
          control =
              if is_workspace_routed lease (device_of c) h.state
              then h.control
              else control.release_all h.control;
        }
    unfolding end_input_lease_locked InputLease-discrete
    guarded c lease h mine = ground (arith, mine)

    quiet_after :
        (c : ℕ) (lease : InputLease) (h : Host api Other S)
        → IsSafe h
        → h.active_input c ≡ some lease
        → Quiet (
            if is_workspace_routed lease (device_of c) h.state
            then h.control
            else control.release_all h.control)
    unfolding is_workspace_routed
    quiet_after c lease h p mine k =
        elim (Bool-cases (is_workspace_routed lease (device_of c) h.state)) [
          | inl on ↦
              let (s, found) = p.owned c lease mine in
              rw on (p.routed lease s found (ground (arith, on, found)) k)
          | inr off ↦ rw off (faithful.released h.control k)
        ]

    -- The session of a connection is over, nobody is in control, and the host is quiet.
    pub ended-IsSafe :
        (c : ℕ) (lease : InputLease) (h : Host api Other S)
        → IsSafe h
        → h.active_input c ≡ some lease
        → (let h' = end_input_lease_locked api Other control device_of c lease h in
            IsSafe h' × (h'.state.active ≡ []) × Quiet h'.control)
    ended-IsSafe c lease h p mine =
        let quiet = quiet_after c lease h p mine in
        let (ended, safe) = released-IsSafe c lease h _ p mine quiet in
        rw (guarded c lease h mine) (safe, ended, quiet)

    pub end_input_lease_locked-IsSafe :
        (c : ℕ) (lease : InputLease) (h : Host api Other S)
        → IsSafe h
        → IsSafe (end_input_lease_locked api Other control device_of c lease h)
    end_input_lease_locked-IsSafe c lease h p = elim (Option-cases (h.active_input c)) [
      | inl nobody' ↦
          let e : end_input_lease_locked api Other control device_of c lease h ≡ h =
            unfold end_input_lease_locked in ground (arith, nobody') in
          rw e p
      | inr (l, mine) ↦ elim (InputLease-discrete l lease) [
        | yes q ↦ (ended-IsSafe c lease h p (ground (arith, mine, q))).0
        | no n ↦
            let e : end_input_lease_locked api Other control device_of c lease h ≡ h =
              unfold end_input_lease_locked in ground (arith, mine, n) in
            rw e p
      ]
    ]
