-- ===== src/Commands/Runs.antt =====
-- The runs of the command server: any requests and tasks, in any order.
use arcrelay_protocol.Prelude.{
  inl, inr, ℕ, ◌+◌, ◌≤◌, ◌≡◌, ap, sym, ◌∙◌, none, some, List, [], ◌∷◌, arith, if◌then◌else◌, Bytes,
  bytes_eq, nat_eq, length, get, remove, present, get-remove, get-insert, Option-cases,
  remove-IsDistinct, insert-IsDistinct, length-remove, length-insert_absent,
}
use arcrelay_protocol.CommandCache as Cache
use arcrelay_protocol.CommandCache.{CommandCache, CommandCacheKey, command_cache_key_eq}
use arcrelay_protocol.CommandCache.Eviction.{insert-in_flight}
use arcrelay_protocol.Commands.{
  CommandServer, Response, look_up, join, finish, release_task, max_background_commands, is_final,
}
use arcrelay_protocol.Commands.Tasks.{
  idle, IsConsistent, idle-IsConsistent, look_up-IsConsistent, join-IsConsistent,
  release_task-IsConsistent,
}

-- A command that has been executed under a key, and its response.
abbrev pub Execution : Type 0 → Type 0
Execution Body = CommandCacheKey × Bytes × Response Body

module _ {Body : Type 0} where
  -- The executions after a task has ended with a response.
  unfoldable pub record_finish :
      ℕ → Response Body → CommandServer Body → List (Execution Body) → List (Execution Body)
  record_finish channel r s history = elim (get channel s.running) [
    | none ↦ history
    | some (key, command) ↦ (key, command, r) ∷ history
  ]

module _ {Body : Type 0} (encoded_len : Response Body → ℕ) where
  finish-IsConsistent :
      (now channel : ℕ) (r : Response Body) (s : CommandServer Body)
      → IsConsistent s
      → IsConsistent (finish encoded_len now channel r s)
  unfolding finish present
  finish-IsConsistent now channel r s c = elim (Option-cases (get channel s.running)) [
    | inl miss ↦ rw (miss, finish) c
    | inr ((key, command), hit) ↦
        let cache : CommandCache (Response Body) = record s.cache {
          in_flight = remove key s.cache.in_flight;
        } in
        let e : (if is_final r
              then Cache.insert encoded_len now key command r cache
              else cache).in_flight
            ≡ remove key s.cache.in_flight =
          ground (arith, insert-in_flight encoded_len now key command r cache) in
        rw (hit, finish)
          (record {
            has_task = λ k i h. ground (
              arith,
              ap (get k) (sym e) ∙ h,
              get-remove k key s.cache.in_flight,
              c.has_task k i,
              get-remove i.channel channel s.running,
              hit,
            );
            in_flight = λ ch k cmd h.
                ap (get k) e
                ∙ ground (
                  arith,
                  h,
                  get-remove k key s.cache.in_flight,
                  c.in_flight ch k cmd,
                  get-remove ch channel s.running,
                  c.in_flight channel key command hit,
                );
            unused = λ ch h. ground (
              arith,
              c.unused ch,
              get-remove ch channel s.running,
              get-insert ch channel r s.ended,
            );
            one_stage = λ ch. ground (
              arith,
              c.one_stage ch,
              get-remove ch channel s.running,
              get-insert ch channel r s.ended,
            );
            running_distinct = remove-IsDistinct channel s.running c.running_distinct;
            ended_distinct = insert-IsDistinct channel r s.ended c.ended_distinct;
            capacity = ground (
              arith,
              c.capacity,
              length-remove channel (key, command) s.running c.running_distinct hit,
              c.one_stage channel,
              length-insert_absent channel r s.ended,
            );
          })
  ]

  -- One step of any request or task, with the executions up to it.
  pub data Step
      : CommandServer Body × List (Execution Body)
        → CommandServer Body × List (Execution Body)
        → Type 0 where
    looked :
        (draw : Bytes) (now : ℕ) (key : CommandCacheKey) (command : Bytes) (request_id : ℕ)
        {s : CommandServer Body} {history : List (Execution Body)}
        → Step (s, history) ((look_up draw now key command request_id s).0, history)
    joined :
        (draw : Bytes) (now : ℕ) (key : CommandCacheKey) (command : Bytes) (request_id : ℕ)
        {s : CommandServer Body} {history : List (Execution Body)}
        → Step (s, history) ((join draw now key command request_id s).0, history)
    finished :
        (now channel : ℕ) (r : Response Body) {s : CommandServer Body}
        {history : List (Execution Body)}
        → Step (s, history) (finish encoded_len now channel r s, record_finish channel r s history)
    released :
        (channel : ℕ) {s : CommandServer Body} {history : List (Execution Body)}
        → Step (s, history) (release_task channel s, history)

  pub data Reach
      : CommandServer Body × List (Execution Body)
        → CommandServer Body × List (Execution Body)
        → Type 0 where
    stop : {x : CommandServer Body × List (Execution Body)} → Reach x x
    step : {x y z : CommandServer Body × List (Execution Body)} → Reach x y → Step y z → Reach x z

  Step-IsConsistent :
      {x y : CommandServer Body × List (Execution Body)}
      → Step x y
      → IsConsistent x.0
      → IsConsistent y.0
  Step-IsConsistent (looked draw now key command request_id {s}) c =
      look_up-IsConsistent draw now key command request_id s c
  Step-IsConsistent (joined draw now key command request_id {s}) c =
      join-IsConsistent draw now key command request_id s c
  Step-IsConsistent (finished now channel r {s}) c = finish-IsConsistent now channel r s c
  Step-IsConsistent (released channel {s}) c = release_task-IsConsistent channel s c

  pub Reach-IsConsistent :
      {x y : CommandServer Body × List (Execution Body)}
      → Reach x y
      → IsConsistent x.0
      → IsConsistent y.0
  Reach-IsConsistent stop c = c
  Reach-IsConsistent (step run last) c = Step-IsConsistent last (Reach-IsConsistent run c)

  -- However requests and tasks interleave, two tasks that run at the same time have different
  -- idempotency keys, and at most 32 commands run or have yet to send their response.
  pub one_task_per_key :
      {s : CommandServer Body} {history : List (Execution Body)}
      → Reach (idle, []) (s, history)
      → ((channel other : ℕ) (key : CommandCacheKey) (command command' : Bytes)
          → get channel s.running ≡ some (key, command)
          → get other s.running ≡ some (key, command')
          → channel ≡ other)
        × (length s.running + length s.ended ≤ max_background_commands)
  one_task_per_key run =
      let c = Reach-IsConsistent run idle-IsConsistent in
      (
        λ channel other key command command' h h'.
            ground (arith, c.in_flight channel key command h, c.in_flight other key command' h'),
        omega (arith, c.capacity),
      )
