-- ===== src/InputSession/Host/Safety.antt =====
-- What no client can bring about: a second controller, or a key that stays down.
use arcrelay_protocol.Prelude.{
  ℕ, ◌≤◌, ◌≡◌, ap, ◌∙◌, Bool, false, some, List, [], ◌∷◌, arith, Bytes, bytes_eq, nat_eq, length,
  Map, get, contains, contains-count,
}
use arcrelay_protocol.InputSession.{InputLease, input_lease_eq, ActiveInputSession}
use arcrelay_protocol.InputSession.Normalize.{GestureApi}
use arcrelay_protocol.InputSession.Normalize.Native.{held_after}
use arcrelay_protocol.InputSession.Normalize.Sessions.{SessionsAgree, only_session, nobody}
use arcrelay_protocol.InputSession.Normalize.Held.{HeldAgree}
use arcrelay_protocol.InputSession.Host.{Host, InputControl, Reach}
use arcrelay_protocol.InputSession.Host.Invariant.{IsFaithful, IsReliable}
use arcrelay_protocol.InputSession.Host.Reachable.{Reach-IsSafe}

module _ {Gesture : Type 0} where
  one_at_most :
      (active : Map InputLease (ActiveInputSession Gesture)) (keys buttons : Map ℕ ℕ)
      (held down : ℕ → Bool)
      → SessionsAgree active keys buttons held down
      → length active ≤ 1
  one_at_most [] keys buttons held down h = omega arith
  one_at_most (x ∷ []) keys buttons held down h = omega arith
  one_at_most (x ∷ y ∷ z) keys buttons held down h = absurd h

held-contains :
    (counts : Map ℕ ℕ) (pressed : List ℕ) (held : ℕ → Bool)
    → HeldAgree nobody counts pressed held
    → (k : ℕ) → held k ≡ contains k pressed
held-contains counts pressed held h k =
    ground (arith, h.counted k, h.shown k, contains-count k pressed)

module _ (api : GestureApi) (Other : Type 0) {S : Type 0} (control : InputControl api Other S)
    (faithful : IsFaithful api Other control) (device_of : ℕ → Bytes) where
  -- In every state that sections under the gate, of any connections, lead to, at most one client is in
  -- control.
  pub single_controller :
      {h : Host api Other S} → Reach api Other control device_of h → length h.state.active ≤ 1
  single_controller {h} r =
      let p = Reach-IsSafe api Other control faithful device_of r in
      one_at_most h.state.active _ _ p.held p.down p.agrees.sessions

  -- If the host never fails to apply events, and presses and lifts what they say, then in every
  -- reachable state it holds down exactly the keys and the buttons that the client in control has
  -- pressed and not released, if that client's input is not routed elsewhere.
  pub held_by_controller :
      {h : Host api Other S} (lease : InputLease) (s : ActiveInputSession api.Gesture) (k : ℕ)
      → IsReliable api Other control
      → Reach api Other control device_of h
      → get lease h.state.active ≡ some s
      → s.workspace_routed ≡ false
      → (control.key_down h.control k ≡ contains k s.pressed_keys)
        × (control.button_down h.control k ≡ contains k s.pressed_buttons)
  unfolding held_after
  held_by_controller {h} lease s k reliable r e off =
      let p = Reach-IsSafe api Other control faithful device_of r in
      let (_, _, keyboard, mouse) =
        only_session lease s h.state.active _ _ p.held p.down e p.agrees.sessions in
      let (keys, buttons) = p.exact lease s reliable e off in
      (
        ap (λ (f : ℕ → Bool). f k) keys ∙ held-contains _ s.pressed_keys p.held keyboard k,
        ap (λ (f : ℕ → Bool). f k) buttons ∙ held-contains _ s.pressed_buttons p.down mouse k,
      )
