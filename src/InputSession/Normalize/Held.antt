-- ===== src/InputSession/Normalize/Held.antt =====
-- Counted holds: the count of a value is the number of sessions that hold it, and the host holds
-- exactly the values with a positive count. The steps are those of src/server/input_session.rs.
use arcrelay_protocol.Prelude.{
  ℕ, ◌+◌, ◌-◌, ◌≤◌, ◌<◌, ◌≡◌, Bool, true, false, List, ◌∷◌, arith, ltb, ◌==◌, if◌then◌else◌,
  bytes_eq, nat_eq, same, count, Map, u64_max, contains, contains-count, add_element,
  remove_element, count-add_element, count-remove_element, get-remove, get-insert, value,
  value-increment, increment,
}
use arcrelay_protocol.InputSession.Normalize.{decrement_count}

-- What the host holds after a native event that presses or lifts a value.
abbrev pub set_held : ℕ → Bool → (ℕ → Bool) → ℕ → Bool
set_held a down held k = if same k a then down else held k

-- `others` counts the holds of the other sessions, `pressed` is the set of the one in hand.
pub record HeldAgree (others : ℕ → ℕ) (counts : Map ℕ ℕ) (pressed : List ℕ) (held : ℕ → Bool)
    : Type 0 where
  pub counted : (k : ℕ) → value k counts ≡ others k + count k pressed
  pub once : (k : ℕ) → count k pressed ≤ 1
  pub room : (k : ℕ) → others k + 1 ≤ u64_max
  pub shown : (k : ℕ) → held k ≡ ltb 0 (value k counts)

pub value-decrement_count :
    (j a : ℕ) (counts : Map ℕ ℕ)
    → value j (decrement_count counts a).0
      ≡ (if same j a then value j counts - 1 else value j counts)
unfolding decrement_count value
value-decrement_count j a counts =
    ground (arith, get-remove j a counts, get-insert j a (value a counts - 1) counts)

-- The second part tells whether the last hold was given up.
pub decrement_count_last :
    (a : ℕ) (counts : Map ℕ ℕ)
    → 0 < value a counts
    → (decrement_count counts a).1 ≡ (value a counts == 1)
unfolding decrement_count value
decrement_count_last a counts h = ground arith

module _ (others : ℕ → ℕ) (counts : Map ℕ ℕ) (pressed : List ℕ) (held : ℕ → Bool) (a : ℕ) where
  -- A press of a value that the session does not hold yet.
  pub press-HeldAgree :
      contains a pressed ≡ false
      → HeldAgree others counts pressed held
      → HeldAgree others
          (increment a 1 counts)
          (add_element a pressed)
          (if value a (increment a 1 counts) == 1 then set_held a true held else held)
  press-HeldAgree new h =
      let after = λ (k : ℕ).
        value-increment k a 1 counts
          (ground (arith, h.counted a, h.room a, contains-count a pressed)) in
      record {
        counted = λ k.
            ground (
              arith,
              h.counted k,
              after k,
              count-add_element k a pressed,
              contains-count a pressed,
            );
        once = λ k. ground (arith, h.once k, count-add_element k a pressed);
        room = h.room;
        shown = λ k. ground (arith, h.shown k, after k, after a);
      }

  pub lift-HeldAgree :
      contains a pressed ≡ true
      → HeldAgree others counts pressed held
      → HeldAgree others
          (decrement_count counts a).0
          (remove_element a pressed)
          (if (decrement_count counts a).1 then set_held a false held else held)
  lift-HeldAgree holds h =
      let last =
        decrement_count_last a counts (ground (arith, h.counted a, contains-count a pressed)) in
      let after = λ (k : ℕ). value-decrement_count k a counts in
      record {
        counted = λ k. ground (
          arith,
          h.counted k,
          h.once k,
          after k,
          count-remove_element k a pressed,
          contains-count a pressed,
        );
        once = λ k. ground (arith, h.once k, count-remove_element k a pressed);
        room = h.room;
        shown =
            λ k. ground (arith, h.shown k, h.counted k, after k, last, contains-count a pressed);
      }

  -- A key that the session holds and that repeats.
  pub repeat-HeldAgree :
      contains a pressed ≡ true
      → HeldAgree others counts pressed held
      → HeldAgree others counts pressed (set_held a true held)
  repeat-HeldAgree holds h = record {
    counted = h.counted;
    once = h.once;
    room = h.room;
    shown = λ k. ground (arith, h.shown k, h.counted k, contains-count a pressed);
  }

  -- One value of a set that is drained.
  pub drain-HeldAgree :
      HeldAgree others counts (a ∷ pressed) held
      → HeldAgree others
          (decrement_count counts a).0
          pressed
          (if (decrement_count counts a).1 then set_held a false held else held)
  unfolding count
  drain-HeldAgree h =
      let last = decrement_count_last a counts (ground (arith, h.counted a)) in
      let after = λ (k : ℕ). value-decrement_count k a counts in
      record {
        counted = λ k. ground (arith, h.counted k, after k);
        once = λ k. ground (arith, h.once k);
        room = h.room;
        shown = λ k. ground (arith, h.shown k, h.counted k, after k, last);
      }

pub either-HeldAgree :
    {others : ℕ → ℕ} {counts : Map ℕ ℕ} {pressed : List ℕ} {held held' : ℕ → Bool} (t : Bool)
    → HeldAgree others counts pressed held
    → HeldAgree others counts pressed held'
    → HeldAgree others counts pressed (if t then held else held')
either-HeldAgree true h h' = h
either-HeldAgree false h h' = h'
