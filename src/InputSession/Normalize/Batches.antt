-- ===== src/InputSession/Normalize/Batches.antt =====
-- A batch of events, and the release of a session, keep the host's keyboard and mouse in agreement.
use arcrelay_protocol.Prelude.{
  inl, inr, ℕ, ◌≡◌, refl, ◌∙◌, subst, Bool, true, false, Option, none, some, List, [], ◌∷◌, ◌++◌,
  map, arith, bytes_eq, nat_eq, Map, Option-cases,
}
use arcrelay_protocol.InputSession.{ActiveInputSession}
use arcrelay_protocol.InputSession.Normalize.{
  GestureApi, InputEvent, key, pointer_button, release_all, system_gesture, other, decrement_count,
  Batch, release_keys, release_buttons, release_session_state, gesture_events, gesture_batch,
  normalize_event, normalize_events,
}
use arcrelay_protocol.InputSession.Normalize.Held.{HeldAgree, drain-HeldAgree}
use arcrelay_protocol.InputSession.Normalize.Native.{
  key_step, button_step, held_after, held_after-append, held_after-first, BatchAgree,
  key_event-BatchAgree, button_event-BatchAgree,
}

module _ (api : GestureApi) (Other : Type 0) where
  -- A drained set leaves nothing held but what the other sessions hold, and touches nothing else.
  release_keys-HeldAgree :
      (others : ℕ → ℕ) (pressed : List ℕ) (counts : Map ℕ ℕ) (held : ℕ → Bool)
      → HeldAgree others counts pressed held
      → HeldAgree others
          (release_keys api Other pressed counts).0
          []
          (held_after key_step (release_keys api Other pressed counts).1 held)
  unfolding release_keys held_after
  release_keys-HeldAgree others [] counts held h = h
  release_keys-HeldAgree others (u ∷ rest) counts held h =
      rw held_after-first
        (release_keys-HeldAgree others rest _ _ (drain-HeldAgree others counts rest held u h))

  release_buttons-HeldAgree :
      (others : ℕ → ℕ) (pressed : List ℕ) (counts : Map ℕ ℕ) (held : ℕ → Bool)
      → HeldAgree others counts pressed held
      → HeldAgree others
          (release_buttons api Other pressed counts).0
          []
          (held_after button_step (release_buttons api Other pressed counts).1 held)
  unfolding release_buttons held_after
  release_buttons-HeldAgree others [] counts held h = h
  release_buttons-HeldAgree others (u ∷ rest) counts held h =
      rw held_after-first
        (release_buttons-HeldAgree others rest _ _ (drain-HeldAgree others counts rest held u h))

  release_keys_no_button :
      (pressed : List ℕ) (counts : Map ℕ ℕ) (down : ℕ → Bool)
      → held_after button_step (release_keys api Other pressed counts).1 down ≡ down
  unfolding release_keys held_after
  release_keys_no_button [] counts down = refl
  release_keys_no_button (u ∷ rest) counts down =
      rw held_after-first
        (ground (arith, release_keys_no_button rest (decrement_count counts u).0 down))

  release_buttons_no_key :
      (pressed : List ℕ) (counts : Map ℕ ℕ) (held : ℕ → Bool)
      → held_after key_step (release_buttons api Other pressed counts).1 held ≡ held
  unfolding release_buttons held_after
  release_buttons_no_key [] counts held = refl
  release_buttons_no_key (u ∷ rest) counts held =
      rw held_after-first
        (ground (arith, release_buttons_no_key rest (decrement_count counts u).0 held))

  pub gesture_events_pass :
      (step : InputEvent api.Event Other → (ℕ → Bool) → ℕ → Bool) (o : Option api.Event)
      (held : ℕ → Bool)
      → ((g : api.Event) (h : ℕ → Bool) → step (system_gesture g) h ≡ h)
      → held_after step (gesture_events api Other o) held ≡ held
  unfolding gesture_events held_after
  gesture_events_pass step none held p = refl
  gesture_events_pass step (some g) held p = p g held

  gestures_pass :
      (step : InputEvent api.Event Other → (ℕ → Bool) → ℕ → Bool) (gs : List api.Event)
      (held : ℕ → Bool)
      → ((g : api.Event) (h : ℕ → Bool) → step (system_gesture g) h ≡ h)
      → held_after step (map system_gesture gs) held ≡ held
  unfolding held_after
  gestures_pass step [] held p = refl
  gestures_pass step (g ∷ gs) held p =
      gestures_pass step gs (step (system_gesture g) held) p ∙ p g held

  module _ (keys buttons : ℕ → ℕ) (held down : ℕ → Bool) where
    pub release_session_state-BatchAgree :
        (b : Batch api Other)
        → BatchAgree api Other keys buttons held down b
        → BatchAgree api Other keys buttons held down (release_session_state api Other b)
    unfolding release_session_state
    release_session_state-BatchAgree b h = record {
      keyboard =
          simp (held_after-append, gesture_events_pass key_step, release_buttons_no_key)
            (release_keys-HeldAgree keys b.current.pressed_keys b.key_counts _ h.keyboard);
      mouse =
          simp (held_after-append, gesture_events_pass button_step, release_keys_no_button)
            (release_buttons-HeldAgree buttons b.current.pressed_buttons b.button_counts _ h.mouse);
    }

    normalize_event-BatchAgree :
        (now : ℕ) (e : InputEvent api.Event Other) (b b' : Batch api Other)
        → normalize_event api Other now e b ≡ some b'
        → BatchAgree api Other keys buttons held down b
        → BatchAgree api Other keys buttons held down b'
    unfolding normalize_event held_after
    normalize_event-BatchAgree now (key u d r) b b' p h =
        subst (BatchAgree api Other keys buttons held down) (cc)
          (key_event-BatchAgree api Other keys buttons held down u d r b h)
    normalize_event-BatchAgree now (pointer_button u d c) b b' p h =
        subst (BatchAgree api Other keys buttons held down) (cc)
          (button_event-BatchAgree api Other keys buttons held down u d c b h)
    normalize_event-BatchAgree now release_all b b' p h =
        subst (BatchAgree api Other keys buttons held down) (cc)
          (release_session_state-BatchAgree b h)
    normalize_event-BatchAgree now (system_gesture g) b b' p h =
        elim (Option-cases (api.apply g b.current.system_gesture)) [
          | inl e ↦ absurd (ground arith)
          | inr ((gesture, phases), e) ↦
              let q : b' ≡ gesture_batch api Other now phases gesture b = ground arith in
              rw q (
                unfold gesture_batch in
                record {
                  keyboard = simp (held_after-append, gestures_pass key_step) h.keyboard;
                  mouse = simp (held_after-append, gestures_pass button_step) h.mouse;
                })
        ]
    normalize_event-BatchAgree now (other o) b b' p h =
        let q : b' ≡ record b { normalized = b.normalized ++ other o ∷ [] } = cc in
        rw q (record {
          keyboard = rw held_after-append h.keyboard;
          mouse = rw held_after-append h.mouse;
        })

    pub normalize_events-BatchAgree :
        (now : ℕ) (es : List (InputEvent api.Event Other)) (b b' : Batch api Other)
        → normalize_events api Other now es b ≡ some b'
        → BatchAgree api Other keys buttons held down b
        → BatchAgree api Other keys buttons held down b'
    unfolding normalize_events
    normalize_events-BatchAgree now [] b b' p h =
        subst (BatchAgree api Other keys buttons held down) (cc) h
    normalize_events-BatchAgree now (e ∷ es) b b' p h =
        elim (Option-cases (normalize_event api Other now e b)) [
          | inl q ↦ absurd (ground arith)
          | inr (next, q) ↦
              normalize_events-BatchAgree now es next b' (ground arith)
                (normalize_event-BatchAgree now e b next q h)
        ]

-- The session stays under its lease, the device's, and on its route.
abbrev pub SameOwner :
    {Gesture : Type 0} → ActiveInputSession Gesture → ActiveInputSession Gesture → Type 0
SameOwner s' s =
    (s'.lease ≡ s.lease) × (s'.device_id ≡ s.device_id) × (s'.workspace_routed ≡ s.workspace_routed)

module _ (api : GestureApi) (Other : Type 0) where
  owner-normalize_event :
      (now : ℕ) (e : InputEvent api.Event Other) (b b' : Batch api Other)
      → normalize_event api Other now e b ≡ some b'
      → SameOwner b'.current b.current
  unfolding normalize_event
  owner-normalize_event now (key u true r) b b' p = ground arith
  owner-normalize_event now (key u false r) b b' p = ground arith
  owner-normalize_event now (pointer_button u true c) b b' p = ground arith
  owner-normalize_event now (pointer_button u false c) b b' p = ground arith
  owner-normalize_event now release_all b b' p = ground arith
  owner-normalize_event now (system_gesture g) b b' p = ground arith
  owner-normalize_event now (other o) b b' p = ground arith

  pub owner-normalize_events :
      (now : ℕ) (es : List (InputEvent api.Event Other)) (b b' : Batch api Other)
      → normalize_events api Other now es b ≡ some b'
      → SameOwner b'.current b.current
  unfolding normalize_events
  owner-normalize_events now [] b b' p = ground arith
  owner-normalize_events now (e ∷ es) b b' p =
      elim (Option-cases (normalize_event api Other now e b)) [
        | inl q ↦ absurd (ground arith)
        | inr (next, q) ↦
            let (l, d, r) = owner-normalize_events now es next b' (ground arith) in
            let (l', d', r') = owner-normalize_event now e b next q in (l ∙ l', d ∙ d', r ∙ r')
      ]
