-- ===== src/InputSession/Host/Keeps.antt =====
-- The operations of the manager on a session in control leave it in control, of the same device and on
-- the same route.
use arcrelay_protocol.Prelude.{
  inl, inr, ◌⊎◌, ℕ, ◌-◌, ◌≡◌, refl, ◌∙◌, subst, Bool, not, ◌||◌, none, some, List, [], ◌∷◌, arith,
  leb, Bytes, bytes_eq, nat_eq, same, Map, get, remove, insert, get-remove, Option-cases,
  Bool-cases, is_some_and,
}
use arcrelay_protocol.InputSession.{
  InputLease, InputLease-discrete, input_lease_eq, ActiveInputSession, InputSessionState, Result,
  ok, err, validate_owner, on_session, InputError, is_err,
}
use arcrelay_protocol.InputSession.Frames.Untouched.{Untouched}
use arcrelay_protocol.InputSession.Normalize.{
  GestureApi, Native, normalize_events, all_valid, normalize_reliable_events,
  cancel_idle_system_gesture,
}
use arcrelay_protocol.InputSession.Normalize.Batches.{SameOwner, owner-normalize_events}
use arcrelay_protocol.InputSession.Normalize.Sessions.{
  SessionsAgree, HostAgrees, only_session, batch_of,
}

module _ {Gesture : Type 0} where
  pub data Keeps (before after : Map InputLease (ActiveInputSession Gesture)) : Type 0 where
    same_sessions : after ≡ before → Keeps before after
    changed :
        (lease : InputLease) (s s' : ActiveInputSession Gesture)
        → get lease before ≡ some s
        → remove lease before ≡ []
        → after ≡ (lease, s') ∷ []
        → SameOwner s' s
        → Keeps before after

  -- The session that is in control afterwards was so before.
  pub before_Keeps :
      (before after : Map InputLease (ActiveInputSession Gesture)) (l : InputLease)
      (t : ActiveInputSession Gesture)
      → Keeps before after
      → get l after ≡ some t
      → (s : ActiveInputSession Gesture) × (get l before ≡ some s) × SameOwner t s
  unfolding get
  before_Keeps before after l t (same_sessions e) p = (t, ground (arith, e, p), (refl, refl, refl))
  before_Keeps before after l t (changed lease s s' found alone e kept) p =
      elim (InputLease-discrete l lease) [
        | yes q ↦
            let t_is : s' ≡ t = ground (arith, e, p, q) in
            (
              s,
              ground (arith, found, q),
              subst (λ (x : ActiveInputSession Gesture). SameOwner x s) t_is kept,
            )
        | no n ↦ absurd (ground (arith, e, p, n))
      ]

  -- And the other way round.
  pub after_Keeps :
      (before after : Map InputLease (ActiveInputSession Gesture)) (l : InputLease)
      (t : ActiveInputSession Gesture)
      → Keeps before after
      → get l before ≡ some t
      → (s : ActiveInputSession Gesture) × (get l after ≡ some s)
  after_Keeps before after l t (same_sessions e) p = (t, ground (arith, e, p))
  after_Keeps before after l t (changed lease s s' found alone e kept) p =
      elim (InputLease-discrete l lease) [
        | yes q ↦ (s', unfold get in ground (arith, e, q))
        | no n ↦
            let gone : get l (remove lease before) ≡ none = unfold get in ground (arith, alone) in
            absurd (ground (arith, gone, n, p, get-remove l lease before))
      ]

  pub empty_Keeps :
      (before after : Map InputLease (ActiveInputSession Gesture))
      → Keeps before after
      → after ≡ []
      → before ≡ []
  empty_Keeps before after (same_sessions e) p = ground (arith, e, p)
  empty_Keeps before after (changed lease s s' found alone e kept) p = absurd (ground (arith, e, p))

  pub on_session-Keeps :
      {A : Type 0} (lease : InputLease) (device_id : Bytes)
      (change : ActiveInputSession Gesture → ActiveInputSession Gesture × Result A)
      (state : InputSessionState Gesture) (held down : ℕ → Bool)
      → Untouched (λ s. (change s).0)
      → SessionsAgree state.active state.pressed_key_counts state.pressed_button_counts held down
      → Keeps state.active (on_session lease device_id change state).0.active
  unfolding on_session validate_owner insert
  on_session-Keeps lease device_id change state held down u a =
      elim (Option-cases (get lease state.active)) [
        | inl e ↦ same_sessions (rw (e, on_session) refl)
        | inr (s, e) ↦
            let (alone, own, k, m) = only_session lease s state.active _ _ held down e a in
            elim (Bool-cases (not (same s.lease lease) || not (same s.device_id device_id))) [
              | inl q ↦ same_sessions (rw (e, q, on_session) refl)
              | inr q ↦
                  changed lease s (change s).0 e alone (rw (e, q, on_session, alone) refl)
                    (u.lease s, u.device s, u.route s)
            ]
      ]

module _ (api : GestureApi) (Other : Type 0) where
  abbrev pub OwnedBy : InputLease → Bytes → InputSessionState api.Gesture → Type 0
  OwnedBy lease device_id state =
      (s : ActiveInputSession api.Gesture) × (get lease state.active ≡ some s)
      × (s.device_id ≡ device_id)

  pub normalize-Keeps :
      (now : ℕ) (lease : InputLease) (device_id : Bytes) (events sent : List (Native api Other))
      (state after : InputSessionState api.Gesture) (held down : ℕ → Bool)
      → normalize_reliable_events api Other now lease device_id events state ≡ some (after, ok sent)
      → HostAgrees api Other state held down
      → Keeps state.active after.active × OwnedBy lease device_id after
  unfolding normalize_reliable_events insert remove validate_owner
  normalize-Keeps now lease device_id events sent state after held down p h =
      elim (Option-cases (get lease state.active)) [
        | inl e ↦ absurd (ground arith)
        | inr (s, e) ↦
            elim (Option-cases
              (normalize_events api Other now events (batch_of api Other s state))) [
                | inl q ↦ absurd (ground arith)
                | inr (b, q) ↦
                    let (alone, own, k, m) =
                      only_session lease s state.active _ _ held down e h.sessions in
                    let kept =
                      owner-normalize_events api Other now events (batch_of api Other s state) b
                        q in
                    let device : s.device_id ≡ device_id = ground arith in
                    let result : after.active
                        ≡ (lease, b.current) ∷ remove lease (remove lease state.active) =
                      ground arith in
                    let only : after.active ≡ (lease, b.current) ∷ [] =
                      ground (arith, result, alone) in
                    (
                      changed lease s b.current e alone only kept,
                      (b.current, unfold get in ground (arith, only), kept.1 ∙ device),
                    )
              ]
      ]

  pub refused-Keeps :
      (now : ℕ) (lease : InputLease) (device_id : Bytes) (events : List (Native api Other))
      (error : InputError) (state after : InputSessionState api.Gesture) (held down : ℕ → Bool)
      → normalize_reliable_events api Other now lease device_id events state
        ≡ some (after, err error)
      → HostAgrees api Other state held down
      → Keeps state.active after.active
  unfolding normalize_reliable_events insert remove
  refused-Keeps now lease device_id events error state after held down p h =
      elim (Bool-cases (all_valid api Other events)) [
        | inr bad ↦ same_sessions (ground arith)
        | inl good ↦ elim (Option-cases (get lease state.active)) [
          | inl e ↦ same_sessions (ground arith)
          | inr (s, e) ↦
              let (alone, own, k, m) =
                only_session lease s state.active _ _ held down e h.sessions in
              let result : after.active ≡ (lease, s) ∷ remove lease (remove lease state.active) =
                ground arith in
              changed lease s s e alone (ground (arith, result, alone)) (refl, refl, refl)
        ]
      ]

  pub cancel-Keeps :
      (now : ℕ) (lease : InputLease) (device_id : Bytes) (state : InputSessionState api.Gesture)
      (held down : ℕ → Bool)
      → HostAgrees api Other state held down
      → (let r = cancel_idle_system_gesture api Other now lease device_id state in
          Keeps state.active r.0.active × ((r.1 ≡ []) ⊎ OwnedBy lease device_id r.0))
  unfolding cancel_idle_system_gesture insert validate_owner
  cancel-Keeps now lease device_id state held down h =
      elim (Option-cases (get lease state.active)) [
        | inl e ↦ rw (e, cancel_idle_system_gesture) (same_sessions refl, inl refl)
        | inr (s, e) ↦
            let (alone, own, k, m) = only_session lease s state.active _ _ held down e h.sessions in
            elim (Bool-cases (
              is_err (validate_owner s lease device_id)
              || not
                  (is_some_and s.system_gesture_updated (λ updated. leb 2000 (now - updated))))) [
                    | inl q ↦ rw (e, q, cancel_idle_system_gesture) (same_sessions refl, inl refl)
                    | inr q ↦
                        let device : s.device_id ≡ device_id = ground (arith, q) in
                        let s' : ActiveInputSession api.Gesture = record s {
                          system_gesture_updated = none;
                          system_gesture = (api.cancel s.system_gesture).0;
                        } in
                        rw (e, q, cancel_idle_system_gesture)
                          (
                            changed lease s s' e alone (rw alone refl) (refl, refl, refl),
                            inr (s', unfold get in ground arith, device),
                          )
                  ]
      ]
