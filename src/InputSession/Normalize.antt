-- ===== src/InputSession/Normalize.antt =====
-- src/server/input_session.rs: the effective native events of a batch, and the release of a session.
pub mod Held
pub mod Native
pub mod Batches
pub mod Sessions
pub mod Refused
pub mod Panic
use arcrelay_protocol.Prelude.{
  ◌⊎◌, ℕ, suc, zero, ◌+◌, ◌-◌, ◌≤◌, ◌<◌, ◌%◌, ◌≡◌, ◌≢◌, ◌∙◌, Bool, true, false, not, ◌||◌, ◌&&◌,
  Option, none, some, List, [], ◌∷◌, ◌++◌, map, arith, leb, ◌==◌, if◌then◌else◌, Bytes, bytes_eq,
  nat_eq, Map, get, remove, insert, value, increment, contains, add_element, remove_element,
  is_some_and,
}
use arcrelay_protocol.InputSession.{
  InputLease, input_lease_eq, ActiveInputSession, InputSessionState, Result, ok, err, not_active,
  invalid_gesture, ◌>>=◌, ◌>>◌, validate_owner, is_err,
}

-- arcrelay_core's `SystemGestureSequence`: `apply` fails on an event that is not valid.
pub record GestureApi : Type 1 where
  pub Gesture : Type 0
  pub Event : Type 0
  pub idle : Gesture
  pub is_valid : Event → Bool
  pub apply : Event → Gesture → Option (Gesture × List Event)
  pub cancel : Gesture → Gesture × Option Event
  pub is_active : Gesture → Bool

-- The variants of arcrelay_core's `InputEvent` that the code tells apart; `other` stands for those
-- that it passes on as they are.
pub data InputEvent (Gesture Other : Type 0) : Type 0 where
  key : ℕ → Bool → Bool → InputEvent Gesture Other
  pointer_button : ℕ → Bool → ℕ → InputEvent Gesture Other
  release_all : InputEvent Gesture Other
  system_gesture : Gesture → InputEvent Gesture Other
  other : Other → InputEvent Gesture Other

-- The count after `saturating_sub(1)`, and whether the value was given up by its last holder.
pub decrement_count : Map ℕ ℕ → ℕ → Map ℕ ℕ × Bool
decrement_count counts held = elim (get held counts) [
  | none ↦ (counts, false)
  | some n ↦ if n - 1 == 0 then (remove held counts, true) else (insert held (n - 1) counts, false)
]

module _ (api : GestureApi) (Other : Type 0) where
  open api use {Gesture, Event, idle, is_valid, apply, cancel, is_active}

  abbrev pub Native : Type 0
  Native = InputEvent Event Other

  -- The state without the session in hand, the session, and the events so far.
  pub record Batch : Type 0 where
    pub key_counts : Map ℕ ℕ
    pub button_counts : Map ℕ ℕ
    pub current : ActiveInputSession Gesture
    pub normalized : List Native

  unfoldable pub key_event : ℕ → Bool → Bool → Batch → Batch
  unfolding decrement_count
  key_event hid_usage true repeat b =
      let counts = increment hid_usage 1 b.key_counts in
      let pressed : ActiveInputSession Gesture = record b.current {
        pressed_keys = add_element hid_usage b.current.pressed_keys;
      } in
      let event = b.normalized ++ key hid_usage true repeat ∷ [] in
      if not (contains hid_usage b.current.pressed_keys)
      then record b {
        key_counts = counts;
        current = pressed;
        normalized = if value hid_usage counts == 1 then event else b.normalized;
      }
      else record b { normalized = if repeat then event else b.normalized }
  key_event hid_usage false repeat b =
      let decremented = decrement_count b.key_counts hid_usage in
      let released : ActiveInputSession Gesture = record b.current {
        pressed_keys = remove_element hid_usage b.current.pressed_keys;
      } in
      if contains hid_usage b.current.pressed_keys
      then record b {
        key_counts = decremented.0;
        current = released;
        normalized =
            if decremented.1 then b.normalized ++ key hid_usage false repeat ∷ [] else b.normalized;
      }
      else b

  pub button_event : ℕ → Bool → ℕ → Batch → Batch
  unfolding decrement_count
  button_event button true click_count b =
      let counts = increment button 1 b.button_counts in
      let pressed : ActiveInputSession Gesture = record b.current {
        pressed_buttons = add_element button b.current.pressed_buttons;
      } in
      let event = b.normalized ++ pointer_button button true click_count ∷ [] in
      if not (contains button b.current.pressed_buttons)
      then record b {
        button_counts = counts;
        current = pressed;
        normalized = if value button counts == 1 then event else b.normalized;
      }
      else b
  button_event button false click_count b =
      let decremented = decrement_count b.button_counts button in
      let released : ActiveInputSession Gesture = record b.current {
        pressed_buttons = remove_element button b.current.pressed_buttons;
      } in
      if contains button b.current.pressed_buttons
      then record b {
        button_counts = decremented.0;
        current = released;
        normalized =
            if decremented.1
            then b.normalized ++ pointer_button button false click_count ∷ []
            else b.normalized;
      }
      else b

  -- `pressed_keys.drain()`, in the order of the list.
  pub release_keys : List ℕ → Map ℕ ℕ → Map ℕ ℕ × List Native
  unfolding decrement_count
  release_keys [] counts = (counts, [])
  release_keys (hid_usage ∷ rest) counts =
      let decremented = decrement_count counts hid_usage in
      let released = release_keys rest decremented.0 in
      (released.0, if decremented.1 then key hid_usage false false ∷ released.1 else released.1)

  pub release_buttons : List ℕ → Map ℕ ℕ → Map ℕ ℕ × List Native
  unfolding decrement_count
  release_buttons [] counts = (counts, [])
  release_buttons (button ∷ rest) counts =
      let decremented = decrement_count counts button in
      let released = release_buttons rest decremented.0 in
      (released.0, if decremented.1 then pointer_button button false 1 ∷ released.1 else released.1)

  pub gesture_events : Option Event → List Native
  gesture_events none = []
  gesture_events (some event) = system_gesture event ∷ []

  -- The counts and the session after the release, and the events that it sends.
  pub release_session_state : Batch → Batch
  unfolding release_keys release_buttons gesture_events
  release_session_state b =
      let cancelled = cancel b.current.system_gesture in
      let keys = release_keys b.current.pressed_keys b.key_counts in
      let buttons = release_buttons b.current.pressed_buttons b.button_counts in
      record {
        key_counts = keys.0;
        button_counts = buttons.0;
        current = record b.current {
          system_gesture = cancelled.0;
          system_gesture_updated = none;
          pressed_keys = [];
          pressed_buttons = [];
        };
        normalized = b.normalized ++ (gesture_events cancelled.1 ++ (keys.1 ++ buttons.1));
      }

  pub gesture_batch : ℕ → List Event → Gesture → Batch → Batch
  gesture_batch now phases gesture b =
      let updated : Option ℕ = elim phases [
        | [] ↦ b.current.system_gesture_updated
        | _ ∷ _ ↦ if is_active gesture then some now else none
      ] in
      record b {
        current = record b.current { system_gesture = gesture; system_gesture_updated = updated };
        normalized = b.normalized ++ map system_gesture phases;
      }

  -- One round of the loop; `none` is the panic of `expect`.
  unfoldable pub normalize_event : ℕ → Native → Batch → Option Batch
  unfolding key_event button_event release_session_state gesture_batch
  normalize_event now (key hid_usage down repeat) b = some (key_event hid_usage down repeat b)
  normalize_event now (pointer_button button down clicks) b =
      some (button_event button down clicks b)
  normalize_event now release_all b = some (release_session_state b)
  normalize_event now (system_gesture event) b = elim (apply event b.current.system_gesture) [
    | none ↦ none
    | some (gesture, phases) ↦ some (gesture_batch now phases gesture b)
  ]
  normalize_event now (other event) b =
      some (record b { normalized = b.normalized ++ other event ∷ [] })

  unfoldable pub normalize_events : ℕ → List Native → Batch → Option Batch
  normalize_events now [] b = some b
  normalize_events now (event ∷ events) b = elim (normalize_event now event b) [
    | none ↦ none
    | some next ↦ normalize_events now events next
  ]

  -- The gestures of a batch are validated before anything is changed.
  unfoldable pub all_valid : List Native → Bool
  all_valid [] = true
  all_valid (system_gesture event ∷ events) = is_valid event && all_valid events
  all_valid (_ ∷ events) = all_valid events

  unfoldable pub normalize_reliable_events :
      ℕ
      → InputLease
      → Bytes
      → List Native
      → InputSessionState Gesture
      → Option (InputSessionState Gesture × Result (List Native))
  unfolding normalize_events all_valid
  normalize_reliable_events now lease device_id events state =
      if not (all_valid events)
      then some (state, err invalid_gesture)
      else elim (get lease state.active) [
        | none ↦ some (state, err not_active)
        | some current ↦ elim (validate_owner current lease device_id) [
          | err e ↦
              some
                (record state { active = insert lease current (remove lease state.active) }, err e)
          | ok _ ↦
              elim (normalize_events now events (record {
                key_counts = state.pressed_key_counts;
                button_counts = state.pressed_button_counts;
                current = current;
                normalized = [];
              })) [
                | none ↦ none
                | some b ↦ some (
                  record {
                    active = insert lease b.current (remove lease state.active);
                    pressed_key_counts = b.key_counts;
                    pressed_button_counts = b.button_counts;
                  },
                  ok b.normalized,
                )
              ]
        ]
      ]

  unfoldable pub release :
      InputLease → InputSessionState Gesture → InputSessionState Gesture × List Native
  unfolding release_session_state
  release lease state = elim (get lease state.active) [
    | none ↦ (state, [])
    | some current ↦
        let b = release_session_state (record {
          key_counts = state.pressed_key_counts;
          button_counts = state.pressed_button_counts;
          current = current;
          normalized = [];
        }) in
        (
          record {
            active = remove lease state.active;
            pressed_key_counts = b.key_counts;
            pressed_button_counts = b.button_counts;
          },
          b.normalized,
        )
  ]

  unfoldable pub cancel_idle_system_gesture :
      ℕ → InputLease → Bytes → InputSessionState Gesture → InputSessionState Gesture × List Native
  unfolding gesture_events
  cancel_idle_system_gesture now lease device_id state = elim (get lease state.active) [
    | none ↦ (state, [])
    | some current ↦
        let cancelled = cancel current.system_gesture in
        let idle_for =
          is_some_and current.system_gesture_updated (λ updated. leb 2000 (now - updated)) in
        if is_err (validate_owner current lease device_id) || not idle_for then (state, []) else (
          record state {
            active =
                insert lease
                  (record current { system_gesture_updated = none; system_gesture = cancelled.0 })
                  state.active;
          },
          gesture_events cancelled.1,
        )
  ]
