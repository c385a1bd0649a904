-- ===== src/InputSession/Normalize/Native.antt =====
-- The host's keyboard and mouse, as the normalized events leave them: a key or button is down
-- exactly while some session holds it.
use arcrelay_protocol.Prelude.{
  inl, inr, ℕ, ◌≡◌, refl, ◌∙◌, Bool, true, false, List, [], ◌∷◌, ◌++◌, if◌then◌else◌, bytes_eq,
  nat_eq, contains, Bool-cases,
}
use arcrelay_protocol.InputSession.Normalize.{
  GestureApi, InputEvent, key, pointer_button, release_all, system_gesture, other, Batch, key_event,
  button_event,
}
use arcrelay_protocol.InputSession.Normalize.Held.{
  set_held, HeldAgree, press-HeldAgree, lift-HeldAgree, repeat-HeldAgree, either-HeldAgree,
}

module _ {E O : Type 0} where
  -- What the host's keyboard holds after an event, and after a list of them.
  abbrev pub key_step : InputEvent E O → (ℕ → Bool) → ℕ → Bool
  key_step (key hid_usage down repeat) held = set_held hid_usage down held
  key_step (pointer_button b d c) held = held
  key_step release_all held = held
  key_step (system_gesture g) held = held
  key_step (other o) held = held

  abbrev pub button_step : InputEvent E O → (ℕ → Bool) → ℕ → Bool
  button_step (key u d r) held = held
  button_step (pointer_button button down clicks) held = set_held button down held
  button_step release_all held = held
  button_step (system_gesture g) held = held
  button_step (other o) held = held

  unfoldable pub held_after :
      (InputEvent E O → (ℕ → Bool) → ℕ → Bool) → List (InputEvent E O) → (ℕ → Bool) → ℕ → Bool
  held_after step [] held = held
  held_after step (e ∷ es) held = held_after step es (step e held)

  pub held_after-append :
      (step : InputEvent E O → (ℕ → Bool) → ℕ → Bool) (xs ys : List (InputEvent E O))
      (held : ℕ → Bool)
      → held_after step (xs ++ ys) held ≡ held_after step ys (held_after step xs held)
  unfolding held_after
  held_after-append step [] ys held = refl
  held_after-append step (x ∷ xs) ys held = held_after-append step xs ys (step x held)

  pub held_after-sent :
      (step : InputEvent E O → (ℕ → Bool) → ℕ → Bool) (t : Bool) (xs : List (InputEvent E O))
      (e : InputEvent E O) (held : ℕ → Bool)
      → held_after step (if t then xs ++ e ∷ [] else xs) held
        ≡ (if t then step e (held_after step xs held) else held_after step xs held)
  unfolding held_after
  held_after-sent step true xs e held = held_after-append step xs (e ∷ []) held
  held_after-sent step false xs e held = refl

  pub held_after-first :
      (step : InputEvent E O → (ℕ → Bool) → ℕ → Bool) (t : Bool) (e : InputEvent E O)
      (xs : List (InputEvent E O)) (held : ℕ → Bool)
      → held_after step (if t then e ∷ xs else xs) held
        ≡ held_after step xs (if t then step e held else held)
  unfolding held_after
  held_after-first step true e xs held = refl
  held_after-first step false e xs held = refl

  -- An event that the step passes over, sent or not.
  pub held_after-passed :
      (step : InputEvent E O → (ℕ → Bool) → ℕ → Bool) (t : Bool) (xs : List (InputEvent E O))
      (e : InputEvent E O) (held : ℕ → Bool)
      → ((h : ℕ → Bool) → step e h ≡ h)
      → held_after step (if t then xs ++ e ∷ [] else xs) held ≡ held_after step xs held
  unfolding held_after
  held_after-passed step true xs e held p = held_after-append step xs (e ∷ []) held ∙ p _
  held_after-passed step false xs e held p = refl

module _ (api : GestureApi) (Other : Type 0) where
  -- Before and within a batch: `keys` and `buttons` are the holds of the other sessions.
  pub record BatchAgree (keys buttons : ℕ → ℕ) (held down : ℕ → Bool) (b : Batch api Other)
      : Type 0 where
    pub keyboard :
        HeldAgree keys b.key_counts b.current.pressed_keys (held_after key_step b.normalized held)
    pub mouse :
        HeldAgree buttons b.button_counts b.current.pressed_buttons
          (held_after button_step b.normalized down)

  module _ (keys buttons : ℕ → ℕ) (held down : ℕ → Bool) where
    pub key_event-BatchAgree :
        (u : ℕ) (d repeat : Bool) (b : Batch api Other)
        → BatchAgree keys buttons held down b
        → BatchAgree keys buttons held down (key_event api Other u d repeat b)
    unfolding key_event
    key_event-BatchAgree u true repeat b h = elim (Bool-cases (contains u b.current.pressed_keys)) [
      | inl e ↦ rw e (record {
        keyboard = rw held_after-sent (
            either-HeldAgree repeat
              (repeat-HeldAgree keys b.key_counts b.current.pressed_keys _ u e h.keyboard)
              h.keyboard);
        mouse = rw held_after-passed h.mouse;
      })
      | inr e ↦ rw e (record {
        keyboard =
            rw held_after-sent
              (press-HeldAgree keys b.key_counts b.current.pressed_keys _ u e h.keyboard);
        mouse = rw held_after-passed h.mouse;
      })
    ]
    key_event-BatchAgree u false repeat b h =
        elim (Bool-cases (contains u b.current.pressed_keys)) [
          | inl e ↦ rw e (record {
            keyboard =
                rw held_after-sent
                  (lift-HeldAgree keys b.key_counts b.current.pressed_keys _ u e h.keyboard);
            mouse = rw held_after-passed h.mouse;
          })
          | inr e ↦ rw e h
        ]

    pub button_event-BatchAgree :
        (u : ℕ) (d : Bool) (clicks : ℕ) (b : Batch api Other)
        → BatchAgree keys buttons held down b
        → BatchAgree keys buttons held down (button_event api Other u d clicks b)
    unfolding button_event
    button_event-BatchAgree u true clicks b h =
        elim (Bool-cases (contains u b.current.pressed_buttons)) [
          | inl e ↦ rw e h
          | inr e ↦ rw e (record {
            keyboard = rw held_after-passed h.keyboard;
            mouse =
                rw held_after-sent
                  (press-HeldAgree buttons b.button_counts b.current.pressed_buttons _ u e h.mouse);
          })
        ]
    button_event-BatchAgree u false clicks b h =
        elim (Bool-cases (contains u b.current.pressed_buttons)) [
          | inl e ↦ rw e (record {
            keyboard = rw held_after-passed h.keyboard;
            mouse =
                rw held_after-sent
                  (lift-HeldAgree buttons b.button_counts b.current.pressed_buttons _ u e h.mouse);
          })
          | inr e ↦ rw e h
        ]
