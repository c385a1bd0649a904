-- ===== src/Commands/Answers.antt =====
-- Whose response a request gets: always that of an execution of its own command, under its own key.
use arcrelay_protocol.Prelude.{
  inl, inr, ◌⊎◌, ℕ, ◌≡◌, refl, subst, some, List, [], arith, ◌==◌, Bytes, bytes_eq, bytes_discrete,
  nat_eq, get, remove, Option-cases, Bool-cases,
}
use mathlib.Core.List.Memᴰ.{Memᴰ, head, tail}
use arcrelay_protocol.CommandCache.{
  CommandCache, CommandCacheKey, CachedCommand, command_cache_key_eq, prune,
}
use arcrelay_protocol.CommandCache.Eviction.{prune-Shrinks, insert-entries}
use arcrelay_protocol.Status.{invalid_argument}
use arcrelay_protocol.Commands.{
  CommandServer, Response, ServerControlFrame, look_up, lead, join, finish, release_task,
  reused_key, into_frame, response_error, response_frame_for_request, cached_command_frame,
  is_final,
}
use arcrelay_protocol.Commands.Tasks.{idle}
use arcrelay_protocol.Commands.Runs.{
  Execution, Step, looked, joined, finished, released, Reach, stop, step, record_finish,
}

module _ {Body : Type 0} where
  -- What the cache holds are responses of executions.
  abbrev IsExplained : List (Execution Body) → CommandCache (Response Body) → Type 0
  IsExplained history c =
      (k : CommandCacheKey) (e : CachedCommand (Response Body))
      → get k c.entries ≡ some e
      → Memᴰ (k, e.command, e.response) history

  pub look_up_server :
      (draw : Bytes) (now : ℕ) (key : CommandCacheKey) (command : Bytes) (request_id : ℕ)
      (s : CommandServer Body)
      → (look_up draw now key command request_id s).0 ≡ record s { cache = prune now s.cache }
  unfolding look_up
  look_up_server draw now key command request_id s = ground arith

  -- A join leaves the pruned server, or leads the command.
  pub join_server :
      (draw : Bytes) (now : ℕ) (key : CommandCacheKey) (command : Bytes) (request_id : ℕ)
      (s : CommandServer Body)
      → (let s' : CommandServer Body = record s { cache = prune now s.cache } in
          ((join draw now key command request_id s).0 ≡ s')
          ⊎ (join draw now key command request_id s ≡ lead key command s'))
  unfolding join
  join_server draw now key command request_id s =
      elim (Option-cases (cached_command_frame draw (prune now s.cache) key command request_id)) [
        | inr (frame, e) ↦ inl (ground (arith, e))
        | inl e ↦ elim (Option-cases (get key (prune now s.cache).in_flight)) [
          | inr (i, hit) ↦ inl (ground (arith, e, hit))
          | inl miss ↦ elim (Bool-cases (s.permits == 0)) [
            | inl spent ↦ inl (ground (arith, e, miss, spent))
            | inr left ↦ inr (rw (e, miss, left, join) refl)
          ]
        ]
      ]

  pruned-IsExplained :
      (now : ℕ) (history : List (Execution Body)) (c : CommandCache (Response Body))
      → IsExplained history c
      → IsExplained history (prune now c)
  pruned-IsExplained now history c h k e found = h k e ((prune-Shrinks now c).entries k e found)

  lead_entries :
      (key : CommandCacheKey) (command : Bytes) (s : CommandServer Body)
      → (lead key command s).0.cache.entries ≡ s.cache.entries
  unfolding lead
  lead_entries key command s = refl

  join-IsExplained :
      (draw : Bytes) (now : ℕ) (key : CommandCacheKey) (command : Bytes) (request_id : ℕ)
      (s : CommandServer Body) (history : List (Execution Body))
      → IsExplained history s.cache
      → IsExplained history (join draw now key command request_id s).0.cache
  unfolding lead
  join-IsExplained draw now key command request_id s history h k e found =
      let kept = pruned-IsExplained now history s.cache h k e in
      elim (join_server draw now key command request_id s) [
        | inl same_server ↦ kept (subst (λ t. get k t.cache.entries ≡ some e) same_server found)
        | inr led ↦ kept (subst (λ t. get k t.0.cache.entries ≡ some e) led found)
      ]

  module _ (encoded_len : Response Body → ℕ) where
    finish-IsExplained :
        (now channel : ℕ) (r : Response Body) (s : CommandServer Body)
        (history : List (Execution Body))
        → IsExplained history s.cache
        → IsExplained (record_finish channel r s history) (finish encoded_len now channel r s).cache
    unfolding finish record_finish
    finish-IsExplained now channel r s history h = elim (Option-cases (get channel s.running)) [
      | inl miss ↦ rw (miss, finish, record_finish) h
      | inr ((key, command), hit) ↦
          rw (hit, finish, record_finish)
            (λ k e found.
              let cache : CommandCache (Response Body) = record s.cache {
                in_flight = remove key s.cache.in_flight;
              } in
              elim (Bool-cases (is_final r)) [
                | inr again ↦ tail (h k e (ground (arith, found, again)))
                | inl final ↦
                    elim (insert-entries encoded_len now key command r cache k e
                      (ground (arith, found, final))) [
                        | inl (p, q, w) ↦ head (ground (arith, p, q, w))
                        | inr old ↦ tail (h k e old)
                      ]
              ])
    ]

    Step-IsExplained :
        {x y : CommandServer Body × List (Execution Body)}
        → Step encoded_len x y
        → IsExplained x.1 x.0.cache
        → IsExplained y.1 y.0.cache
    unfolding release_task
    Step-IsExplained (looked draw now key command request_id {s} {history}) h =
        rw (look_up_server draw now key command request_id s)
          (pruned-IsExplained now history s.cache h)
    Step-IsExplained (joined draw now key command request_id {s} {history}) h =
        join-IsExplained draw now key command request_id s history h
    Step-IsExplained (finished now channel r {s} {history}) h =
        finish-IsExplained now channel r s history h
    Step-IsExplained (released channel {s} {history}) h = λ k e found. h k e (ground (arith, found))

    Reach-IsExplained :
        {x y : CommandServer Body × List (Execution Body)}
        → Reach encoded_len x y
        → IsExplained x.1 x.0.cache
        → IsExplained y.1 y.0.cache
    Reach-IsExplained stop h = h
    Reach-IsExplained (step run last) h = Step-IsExplained last (Reach-IsExplained run h)

    -- However requests and tasks interleave, a request that the cache answers is told that its key
    -- was reused for another command, or it gets the response of an execution of its own command
    -- under its own key, with its own request id.
    pub cached_command_frame-executed :
        {s : CommandServer Body} {history : List (Execution Body)} (draw : Bytes)
        (key : CommandCacheKey) (command : Bytes) (request_id : ℕ) (frame : ServerControlFrame Body)
        → Reach encoded_len (idle, []) (s, history)
        → cached_command_frame draw s.cache key command request_id ≡ some frame
        → (frame ≡ response_error draw request_id invalid_argument reused_key)
          ⊎ ((r : Response Body) × Memᴰ (key, command, r) history
              × (frame ≡ response_frame_for_request r request_id))
    unfolding cached_command_frame into_frame
    cached_command_frame-executed {s} {history} draw key command request_id frame run h =
        elim (Option-cases (get key s.cache.entries)) [
          | inl miss ↦ absurd (ground (arith, miss, h))
          | inr (e, hit) ↦ elim (bytes_discrete e.command command) [
            | no p ↦ inl (ground (arith, hit, h, p))
            | yes p ↦ inr (
              e.response,
              subst (λ c. Memᴰ {A = Execution Body} (key, c, e.response) history) p
                  (Reach-IsExplained run (λ k e found. absurd (unfold get in ground (arith, found)))
                    key e hit),
              ground (arith, hit, h, p),
            )
          ]
        ]
