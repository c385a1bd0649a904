-- ===== src/InputSession/Normalize/Panic.antt =====
-- The `expect` of `normalize_reliable_events` does not panic.
use arcrelay_protocol.Prelude.{
  inl, inr, ℕ, ◌≡◌, ◌≢◌, true, none, List, [], ◌∷◌, arith, Bytes, bytes_eq, nat_eq, get,
  Option-cases,
}
use arcrelay_protocol.InputSession.{InputLease, input_lease_eq, InputSessionState}
use arcrelay_protocol.InputSession.Normalize.{
  GestureApi, key, pointer_button, release_all, system_gesture, other, Native, Batch,
  normalize_event, normalize_events, all_valid, normalize_reliable_events,
}

module _ (api : GestureApi) (Other : Type 0) where
  -- arcrelay_core's contract: an event that passes `validate` is applied.
  abbrev pub AppliesValid : Type 0
  AppliesValid = (e : api.Event) (g : api.Gesture) → api.is_valid e ≡ true → api.apply e g ≢ none

  normalize_events_total :
      (now : ℕ) (es : List (Native api Other)) (b : Batch api Other)
      → AppliesValid
      → all_valid api Other es ≡ true
      → normalize_events api Other now es b ≢ none
  unfolding normalize_events normalize_event all_valid
  normalize_events_total now [] b a v = λ e. cc
  normalize_events_total now (key u d r ∷ es) b a v = normalize_events_total now es _ a v
  normalize_events_total now (pointer_button u d c ∷ es) b a v = normalize_events_total now es _ a v
  normalize_events_total now (release_all ∷ es) b a v = normalize_events_total now es _ a v
  normalize_events_total now (other o ∷ es) b a v = normalize_events_total now es _ a v
  normalize_events_total now (system_gesture g ∷ es) b a v =
      elim (Option-cases (api.apply g b.current.system_gesture)) [
        | inl e ↦ absurd (a g b.current.system_gesture (ground arith) e)
        | inr ((gesture, phases), e) ↦
            rw (e, normalize_event, normalize_events)
              (normalize_events_total now es _ a (ground arith))
      ]

  -- Whatever the batch, the lease and the state, the call returns: the gestures are validated
  -- before the session is touched, so applying them cannot fail.
  pub normalize_reliable_events_total :
      (now : ℕ) (lease : InputLease) (device_id : Bytes) (events : List (Native api Other))
      (state : InputSessionState api.Gesture)
      → AppliesValid
      → normalize_reliable_events api Other now lease device_id events state ≢ none
  unfolding normalize_reliable_events
  normalize_reliable_events_total now lease device_id events state a p =
      elim (Option-cases (get lease state.active)) [
        | inl e ↦ ground arith
        | inr (s, e) ↦ ground (
          arith,
          normalize_events_total now events
              (record {
                key_counts = state.pressed_key_counts;
                button_counts = state.pressed_button_counts;
                current = s;
                normalized = [];
              })
              a,
        )
      ]
