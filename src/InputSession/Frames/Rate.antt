-- ===== src/InputSession/Frames/Rate.antt =====
-- The rate limit of `accept_reliable`, and the order of the frames that it accepts.
use arcrelay_protocol.Prelude.{
  ℕ, ◌+◌, ◌-◌, ◌≤◌, ◌<◌, ◌≡◌, refl, ap, sym, List, [], ◌∷◌, ◌++◌, arith, ltb, if◌then◌else◌,
  bytes_eq, nat_eq, length, length-append, saturating_add,
}
use arcrelay_protocol.InputSession.{
  ActiveInputSession, InputFeedbackSnapshot, Result, ok, err, max_reliable_frames_per_second,
  input_lease_timeout,
}
use arcrelay_protocol.InputSession.Frames.{drop_old_frames, accept_reliable_frame}

-- How many of the times lie less than a second before `now`.
pub recent : ℕ → List ℕ → ℕ
recent now [] = 0
recent now (t ∷ ts) = (if ltb (now - t) 1000 then 1 else 0) + recent now ts

recent-le-length : (now : ℕ) (ts : List ℕ) → recent now ts ≤ length ts
unfolding recent
recent-le-length now [] = omega arith
recent-le-length now (t ∷ ts) = ground (arith, recent-le-length now ts)

recent-append : (now : ℕ) (xs ys : List ℕ) → recent now (xs ++ ys) ≡ recent now xs + recent now ys
unfolding recent
recent-append now [] ys = omega arith
recent-append now (x ∷ xs) ys = omega (arith, recent-append now xs ys)

-- What is dropped at one time is not recent at any later one.
recent-drop_old_frames :
    (now later : ℕ) (ts : List ℕ)
    → now ≤ later
    → recent later (drop_old_frames now ts) ≡ recent later ts
unfolding recent drop_old_frames
recent-drop_old_frames now later [] h = refl
recent-drop_old_frames now later (t ∷ ts) h = ground (arith, recent-drop_old_frames now later ts h)

length-drop_old_frames : (now : ℕ) (ts : List ℕ) → length (drop_old_frames now ts) ≤ length ts
unfolding drop_old_frames
length-drop_old_frames now [] = omega arith
length-drop_old_frames now (t ∷ ts) = ground (arith, length-drop_old_frames now ts)

-- An attempt of a client: the time, the sequence number, the client's clock.
abbrev pub Attempt : Type 0
Attempt = ℕ × ℕ × ℕ

-- The attempts come in the order of time, from `now` on.
abbrev pub FromOn : ℕ → List Attempt → Type 0
FromOn now [] = Unit {0}
FromOn now ((t, _, _) ∷ rest) = (now ≤ t) × FromOn t rest

pub logged : ℕ → Result InputFeedbackSnapshot → List ℕ → List ℕ
logged now (ok _) log = now ∷ log
logged now (err _) log = log

module _ {Gesture : Type 0} where
  -- At every attempt, at most `max_reliable_frames_per_second` frames of the last second have been
  -- accepted, this one included. `log` holds the times of the frames accepted before.
  abbrev pub RateHolds : List Attempt → List ℕ → ActiveInputSession Gesture → Type 0
  RateHolds [] log s = Unit {0}
  RateHolds ((now, sequence, elapsed) ∷ rest) log s =
      let result = accept_reliable_frame now sequence elapsed s in
      let log' = logged now result.1 log in
      (recent now log' ≤ max_reliable_frames_per_second) × RateHolds rest log' result.0

  -- What the session keeps is enough to count the recent frames, now and later.
  record Tracks (now : ℕ) (log : List ℕ) (s : ActiveInputSession Gesture) : Type 0 where
    counted : (later : ℕ) → now ≤ later → recent later log ≡ recent later s.reliable_frames
    bounded : length s.reliable_frames ≤ max_reliable_frames_per_second

  accept-Tracks :
      {now : ℕ} (t sequence elapsed : ℕ) (log : List ℕ) (s : ActiveInputSession Gesture)
      → now ≤ t
      → Tracks now log s
      → (let result = accept_reliable_frame t sequence elapsed s in
          Tracks t (logged t result.1 log) result.0)
  unfolding accept_reliable_frame logged recent
  accept-Tracks t sequence elapsed log s h tracks = record {
    counted = λ later l. ground (
      arith,
      tracks.counted later (omega arith),
      recent-drop_old_frames t later s.reliable_frames l,
      recent-append later (drop_old_frames t s.reliable_frames) (t ∷ []),
    );
    bounded = ground (
      arith,
      tracks.bounded,
      length-drop_old_frames t s.reliable_frames,
      length-append (drop_old_frames t s.reliable_frames) (t ∷ []),
    );
  }

  run-RateHolds :
      (attempts : List Attempt) {now : ℕ} (log : List ℕ) (s : ActiveInputSession Gesture)
      → FromOn now attempts
      → Tracks now log s
      → RateHolds attempts log s
  run-RateHolds [] log s h tracks = tt
  run-RateHolds ((t, sequence, elapsed) ∷ rest) log s (h, later) tracks =
      let result = accept_reliable_frame t sequence elapsed s in
      let next = accept-Tracks t sequence elapsed log s h tracks in
      (
        omega (
          arith,
          next.counted t (omega arith),
          next.bounded,
          recent-le-length t result.0.reliable_frames,
        ),
        run-RateHolds rest (logged t result.1 log) result.0 later next,
      )

  -- From a session without frames on, whatever a client sends in the order of time, no second
  -- sees more than 240 accepted reliable frames.
  pub accept_reliable_frame-RateHolds :
      (attempts : List Attempt) (s : ActiveInputSession Gesture)
      → s.reliable_frames ≡ []
      → FromOn 0 attempts
      → RateHolds attempts [] s
  unfolding recent
  accept_reliable_frame-RateHolds attempts s fresh h = run-RateHolds attempts [] s h (record {
    counted = λ later _. ap (recent later) (sym fresh);
    bounded = ground (arith, fresh);
  })

  -- What an accepted reliable frame means: the session had not expired, the sequence number is the
  -- next one, the client's clock has not gone back, and the frame is the last that the session holds.
  pub record Accepted (now sequence elapsed : ℕ) (s after : ActiveInputSession Gesture)
      : Type 0 where
    alive : now < s.last_activity + input_lease_timeout
    next : sequence ≡ saturating_add s.reliable_sequence 1
    clock : s.reliable_elapsed_us ≤ elapsed
    kept :
        (after.reliable_sequence ≡ sequence)
        × (after.reliable_elapsed_us ≡ elapsed)
        × (after.last_activity ≡ now)

  -- If a reliable frame is accepted, then the session had not expired, the sequence number was the
  -- next one (stopping at the largest) and the client's clock had not gone back; the session then
  -- keeps the number, the clock and the time, and the snapshot reports the number.
  pub accept_reliable_frame-Accepted :
      (now sequence elapsed : ℕ) (s : ActiveInputSession Gesture) (snapshot : InputFeedbackSnapshot)
      → (accept_reliable_frame now sequence elapsed s).1 ≡ ok snapshot
      → Accepted now sequence elapsed s (accept_reliable_frame now sequence elapsed s).0
        × (snapshot.reliable_sequence ≡ sequence)
  unfolding accept_reliable_frame
  accept_reliable_frame-Accepted now sequence elapsed s snapshot h = (
    record {
      alive = ground (arith, h);
      next = ground (arith, h);
      clock = ground (arith, h);
      kept = (ground (arith, h), ground (arith, h), ground (arith, h));
    },
    ground (arith, h),
  )
