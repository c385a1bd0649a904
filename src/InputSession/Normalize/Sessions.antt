-- ===== src/InputSession/Normalize/Sessions.antt =====
-- Sessions and the host: in every reachable state at most one client is in control, and the host
-- holds exactly the keys and buttons of that client.
use arcrelay_protocol.Prelude.{
  inl, inr, ℕ, ◌≡◌, ap, sym, ◌∙◌, subst, Bool, not, ◌||◌, some, List, [], ◌∷◌, arith, Bytes,
  bytes_eq, nat_eq, same, Map, get, remove, insert, Option-cases, Bool-cases,
}
use arcrelay_protocol.InputSession.{
  InputLease, InputLease-discrete, input_lease_eq, ActiveInputSession, InputSessionState, Result,
  ok, validate_owner, on_session,
}
use arcrelay_protocol.InputSession.Frames.Untouched.{Untouched}
use arcrelay_protocol.InputSession.Normalize.{
  GestureApi, Native, Batch, normalize_events, normalize_reliable_events, release,
}
use arcrelay_protocol.InputSession.Normalize.Held.{HeldAgree}
use arcrelay_protocol.InputSession.Normalize.Native.{key_step, button_step, held_after}
use arcrelay_protocol.InputSession.Normalize.Batches.{
  release_session_state-BatchAgree, normalize_events-BatchAgree, owner-normalize_events,
}

abbrev pub nobody : ℕ → ℕ
nobody k = 0

module _ {Gesture : Type 0} where
  -- One session at most, and the counts and the host agree with it.
  abbrev pub SessionsAgree :
      Map InputLease (ActiveInputSession Gesture)
      → Map ℕ ℕ
      → Map ℕ ℕ
      → (ℕ → Bool)
      → (ℕ → Bool)
      → Type 0
  SessionsAgree [] keys buttons held down =
      HeldAgree nobody keys [] held × HeldAgree nobody buttons [] down
  SessionsAgree ((lease, s) ∷ []) keys buttons held down =
      (lease ≡ s.lease)
      × HeldAgree nobody keys s.pressed_keys held
      × HeldAgree nobody buttons s.pressed_buttons down
  SessionsAgree (_ ∷ _ ∷ _) keys buttons held down = ⊥

  -- A session that is found is the only one.
  pub only_session :
      (lease : InputLease) (s : ActiveInputSession Gesture)
      (active : Map InputLease (ActiveInputSession Gesture)) (keys buttons : Map ℕ ℕ)
      (held down : ℕ → Bool)
      → get lease active ≡ some s
      → SessionsAgree active keys buttons held down
      → (remove lease active ≡ [])
        × (lease ≡ s.lease)
        × HeldAgree nobody keys s.pressed_keys held
        × HeldAgree nobody buttons s.pressed_buttons down
  unfolding get remove
  only_session lease s [] keys buttons held down p h = absurd (ground arith)
  only_session lease s ((l, t) ∷ []) keys buttons held down p h =
      elim (InputLease-discrete lease l) [
        | no n ↦ absurd (ground arith)
        | yes e ↦
            let q : t ≡ s = ground arith in
            (
              ground arith,
              e ∙ h.0 ∙ ap (λ (x : ActiveInputSession Gesture). x.lease) q,
              subst (λ (x : ActiveInputSession Gesture). HeldAgree nobody keys x.pressed_keys held)
                  q h.1,
              subst
                  (λ (x : ActiveInputSession Gesture).
                    HeldAgree nobody buttons x.pressed_buttons down)
                  q h.2,
            )
      ]
  only_session lease s (x ∷ y ∷ z) keys buttons held down p h = absurd h

  pub change-SessionsAgree :
      (lease : InputLease) (s s' : ActiveInputSession Gesture)
      (active : Map InputLease (ActiveInputSession Gesture)) (keys buttons : Map ℕ ℕ)
      (held down : ℕ → Bool)
      → get lease active ≡ some s
      → s'.lease ≡ s.lease
      → s'.pressed_keys ≡ s.pressed_keys
      → s'.pressed_buttons ≡ s.pressed_buttons
      → SessionsAgree active keys buttons held down
      → SessionsAgree (insert lease s' active) keys buttons held down
  unfolding insert
  change-SessionsAgree lease s s' active keys buttons held down p a b c h =
      let (alone, own, k, m) = only_session lease s active keys buttons held down p h in
      rw alone (own ∙ sym a, rw b k, rw c m)

  pub on_session-SessionsAgree :
      {A : Type 0} (lease : InputLease) (device_id : Bytes)
      (change : ActiveInputSession Gesture → ActiveInputSession Gesture × Result A)
      (state : InputSessionState Gesture) (held down : ℕ → Bool)
      → Untouched (λ s. (change s).0)
      → let after = (on_session lease device_id change state).0 in
        SessionsAgree state.active state.pressed_key_counts state.pressed_button_counts held down
        → SessionsAgree after.active after.pressed_key_counts after.pressed_button_counts held down
  unfolding on_session validate_owner
  on_session-SessionsAgree lease device_id change state held down u h =
      elim (Option-cases (get lease state.active)) [
        | inl e ↦ rw (e, on_session) h
        | inr (s, e) ↦
            elim (Bool-cases (not (same s.lease lease) || not (same s.device_id device_id))) [
              | inl q ↦ rw (e, q, on_session) h
              | inr q ↦
                  rw (e, q, on_session)
                    (change-SessionsAgree lease s (change s).0 state.active state.pressed_key_counts
                      state.pressed_button_counts held down e (u.lease s) (u.keys s) (u.buttons s)
                      h)
            ]
      ]

-- Of a batch that is accepted: the host's keys and buttons after it.
module _ (api : GestureApi) (Other : Type 0) where
  -- What the operations keep, with the host that has applied the events sent so far.
  pub record HostAgrees (state : InputSessionState api.Gesture) (held down : ℕ → Bool)
      : Type 0 where
    pub sessions :
        SessionsAgree state.active state.pressed_key_counts state.pressed_button_counts held down

  -- What `normalize_reliable_events` and `release` start from.
  abbrev pub batch_of :
      ActiveInputSession api.Gesture → InputSessionState api.Gesture → Batch api Other
  batch_of s state = record {
    key_counts = state.pressed_key_counts;
    button_counts = state.pressed_button_counts;
    current = s;
    normalized = [];
  }

  abbrev pub after_batch :
      InputLease → Batch api Other → InputSessionState api.Gesture → InputSessionState api.Gesture
  after_batch lease b state = record {
    active = insert lease b.current (remove lease state.active);
    pressed_key_counts = b.key_counts;
    pressed_button_counts = b.button_counts;
  }

  pub normalize-HostAgrees :
      (now : ℕ) (lease : InputLease) (device_id : Bytes) (events sent : List (Native api Other))
      (state after : InputSessionState api.Gesture) (held down : ℕ → Bool)
      → normalize_reliable_events api Other now lease device_id events state ≡ some (after, ok sent)
      → HostAgrees state held down
      → HostAgrees after (held_after key_step sent held) (held_after button_step sent down)
  unfolding normalize_reliable_events held_after insert remove
  normalize-HostAgrees now lease device_id events sent state after held down p h =
      elim (Option-cases (get lease state.active)) [
        | inl e ↦ absurd (ground arith)
        | inr (s, e) ↦
            elim (Option-cases (normalize_events api Other now events (batch_of s state))) [
              | inl q ↦ absurd (ground arith)
              | inr (b, q) ↦
                  let (alone, own, k, m) =
                    only_session lease s state.active _ _ held down e h.sessions in
                  let kept = owner-normalize_events api Other now events (batch_of s state) b q in
                  let agree =
                    normalize_events-BatchAgree api Other nobody nobody held down now events
                      (batch_of s state) b q (record { keyboard = k; mouse = m }) in
                  let out : sent ≡ b.normalized = ground arith in
                  let result : after ≡ after_batch lease b state = ground arith in
                  rw (out, result)
                    (record {
                      sessions = rw (alone, insert) (own ∙ sym kept.0, agree.keyboard, agree.mouse);
                    })
            ]
      ]

  pub release-HostAgrees :
      (lease : InputLease) (state : InputSessionState api.Gesture) (held down : ℕ → Bool)
      → let r = release api Other lease state in
        HostAgrees state held down
        → HostAgrees r.0 (held_after key_step r.1 held) (held_after button_step r.1 down)
  unfolding release held_after
  release-HostAgrees lease state held down h = elim (Option-cases (get lease state.active)) [
    | inl e ↦ rw (e, release) h
    | inr (s, e) ↦
        let (alone, own, k, m) = only_session lease s state.active _ _ held down e h.sessions in
        let b =
          release_session_state-BatchAgree api Other nobody nobody held down (batch_of s state)
            (record { keyboard = k; mouse = m }) in
        rw (e, release) (record { sessions = rw alone (b.keyboard, b.mouse) })
  ]
