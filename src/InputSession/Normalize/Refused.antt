-- ===== src/InputSession/Normalize/Refused.antt =====
-- The other outcomes: a refused batch, and the cancelling of an idle gesture.
use arcrelay_protocol.Prelude.{
  inl, inr, ℕ, ◌-◌, ◌≡◌, refl, subst, Bool, not, ◌||◌, some, List, arith, leb, Bytes, bytes_eq,
  nat_eq, get, remove, insert, Option-cases, Bool-cases, is_some_and,
}
use arcrelay_protocol.InputSession.{
  InputLease, input_lease_eq, InputSessionState, err, validate_owner, InputError, is_err,
}
use arcrelay_protocol.InputSession.Normalize.{
  GestureApi, Native, all_valid, normalize_reliable_events, cancel_idle_system_gesture,
}
use arcrelay_protocol.InputSession.Normalize.Native.{key_step, button_step, held_after}
use arcrelay_protocol.InputSession.Normalize.Batches.{gesture_events_pass}
use arcrelay_protocol.InputSession.Normalize.Sessions.{
  HostAgrees, only_session, change-SessionsAgree,
}

module _ (api : GestureApi) (Other : Type 0) where
  -- A refused batch changes nothing that is held.
  pub refused-HostAgrees :
      (now : ℕ) (lease : InputLease) (device_id : Bytes) (events : List (Native api Other))
      (error : InputError) (state after : InputSessionState api.Gesture) (held down : ℕ → Bool)
      → normalize_reliable_events api Other now lease device_id events state
        ≡ some (after, err error)
      → HostAgrees api Other state held down
      → HostAgrees api Other after held down
  unfolding normalize_reliable_events insert remove
  refused-HostAgrees now lease device_id events error state after held down p h =
      elim (Bool-cases (all_valid api Other events)) [
        | inr bad ↦ subst (λ x. HostAgrees api Other x held down) (ground arith) h
        | inl good ↦ elim (Option-cases (get lease state.active)) [
          | inl e ↦ subst (λ x. HostAgrees api Other x held down) (ground arith) h
          | inr (s, e) ↦
              let (alone, own, k, m) =
                only_session lease s state.active _ _ held down e h.sessions in
              let result : after
                  ≡ record state { active = insert lease s (remove lease state.active) } =
                ground arith in
              rw result (record { sessions = rw (alone, insert) (own, k, m) })
        ]
      ]

  pub cancel-HostAgrees :
      (now : ℕ) (lease : InputLease) (device_id : Bytes) (state : InputSessionState api.Gesture)
      (held down : ℕ → Bool)
      → let r = cancel_idle_system_gesture api Other now lease device_id state in
        HostAgrees api Other state held down
        → HostAgrees api Other r.0 (held_after key_step r.1 held) (held_after button_step r.1 down)
  unfolding cancel_idle_system_gesture held_after
  cancel-HostAgrees now lease device_id state held down h =
      elim (Option-cases (get lease state.active)) [
        | inl e ↦ rw (e, cancel_idle_system_gesture) h
        | inr (s, e) ↦
            elim (Bool-cases (
              is_err (validate_owner s lease device_id)
              || not
                  (is_some_and s.system_gesture_updated (λ updated. leb 2000 (now - updated))))) [
                    | inl q ↦ rw (e, q, cancel_idle_system_gesture) h
                    | inr q ↦
                        rw (e, q, cancel_idle_system_gesture)
                          (record {
                            sessions =
                                simp
                                  (
                                    gesture_events_pass api Other key_step,
                                    gesture_events_pass api Other button_step,
                                  )
                                  (change-SessionsAgree lease s _ state.active _ _ held down e refl
                                    refl refl h.sessions);
                          })
                  ]
      ]
