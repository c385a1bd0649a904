-- ===== src/Commands/Followers.antt =====
-- The requests that wait for a running command: what the channel they follow brings them.
use arcrelay_protocol.Prelude.{
  inl, inr, ℕ, ◌+◌, ◌≤◌, ◌≡◌, ap, sym, ◌∙◌, subst, some, List, [], arith, Bytes, bytes_eq, nat_eq,
  ℕ_discrete, get, present, get-remove, get-insert, Option-cases,
}
use mathlib.Core.List.Memᴰ.{Memᴰ, head, tail}
use arcrelay_protocol.CommandCache.{CommandCacheKey, command_cache_key_eq, prune}
use arcrelay_protocol.CommandCache.Eviction.{prune-Shrinks}
use arcrelay_protocol.Commands.{
  CommandServer, Response, follows, lead, join, finish, release_task, cached_command_frame,
}
use arcrelay_protocol.Commands.Tasks.{join-IsConsistent, idle, IsConsistent, idle-IsConsistent}
use arcrelay_protocol.Commands.Runs.{
  Execution, Step, looked, joined, finished, released, Reach, stop, step, record_finish,
  Reach-IsConsistent,
}
use arcrelay_protocol.Commands.Answers.{look_up_server, join_server}

module _ {Body : Type 0} where
  -- The channel belongs to a run of the command under the key, ended or not.
  pub data Traces (channel : ℕ) (k : CommandCacheKey) (command : Bytes) (s : CommandServer Body)
      (history : List (Execution Body)) : Type 0 where
    runs : get channel s.running ≡ some (k, command) → Traces channel k command s history
    has_ended :
        {r : Response Body}
        → get channel s.ended ≡ some r
        → Memᴰ (k, command, r) history
        → Traces channel k command s history
    sent :
        {r : Response Body}
        → get channel s.results ≡ some r
        → Memᴰ (k, command, r) history
        → Traces channel k command s history

  -- Where a channel keeps its stage, it keeps its trace.
  keep-Traces :
      (channel : ℕ) (k : CommandCacheKey) (command : Bytes) (s s' : CommandServer Body)
      (history : List (Execution Body))
      → ((p : CommandCacheKey × Bytes)
          → get channel s.running ≡ some p
          → get channel s'.running ≡ some p)
      → ((r : Response Body) → get channel s.ended ≡ some r → get channel s'.ended ≡ some r)
      → ((r : Response Body) → get channel s.results ≡ some r → get channel s'.results ≡ some r)
      → Traces channel k command s history
      → Traces channel k command s' history
  keep-Traces channel k command s s' history f g h (runs e) = runs (f (k, command) e)
  keep-Traces channel k command s s' history f g h (has_ended {r} e m) = has_ended (g r e) m
  keep-Traces channel k command s s' history f g h (sent {r} e m) = sent (h r e) m

  lead-Traces :
      (channel : ℕ) (k : CommandCacheKey) (command : Bytes) (key : CommandCacheKey)
      (command' : Bytes) (s : CommandServer Body) (history : List (Execution Body))
      → ((c : ℕ)
          → s.next_channel ≤ c
          → present c s.running + present c s.ended + present c s.results ≡ 0)
      → Traces channel k command s history
      → Traces channel k command (lead key command' s).0 history
  unfolding lead present
  lead-Traces channel k command key command' s history unused t =
      keep-Traces channel k command s _ history
        (λ p e.
          ground
            (arith, e, unused channel, get-insert channel s.next_channel (key, command') s.running))
        (λ r e. e) (λ r e. e) t

  release_task-Traces :
      (channel : ℕ) (k : CommandCacheKey) (command : Bytes) (other : ℕ) (s : CommandServer Body)
      (history : List (Execution Body))
      → IsConsistent s
      → Traces channel k command s history
      → Traces channel k command (release_task other s) history
  unfolding release_task present
  release_task-Traces channel k command other s history c t =
      elim (Option-cases (get other s.ended)) [
        | inl miss ↦ rw (miss, release_task) t
        | inr (r, hit) ↦
            rw (hit, release_task)
              (elim t [
                | runs e ↦ runs e
                | has_ended {r = r'} e m ↦ elim (ℕ_discrete channel other) [
                  | yes p ↦ sent (ground (arith, e, p, hit, get-insert channel other r s.results)) m
                  | no p ↦ has_ended (ground (arith, e, p, get-remove channel other s.ended)) m
                ]
                | sent {r = r'} e m ↦
                    sent
                      (ground
                        (arith, e, hit, c.one_stage channel, get-insert channel other r s.results))
                      m
              ])
      ]

  module _ (encoded_len : Response Body → ℕ) where
    finish-Traces :
        (channel : ℕ) (k : CommandCacheKey) (command : Bytes) (now other : ℕ) (r : Response Body)
        (s : CommandServer Body) (history : List (Execution Body))
        → IsConsistent s
        → Traces channel k command s history
        → Traces channel k command
            (finish encoded_len now other r s)
            (record_finish other r s history)
    unfolding finish record_finish present
    finish-Traces channel k command now other r s history c t =
        elim (Option-cases (get other s.running)) [
          | inl miss ↦ rw (miss, finish, record_finish) t
          | inr ((key, command'), hit) ↦
              rw (hit, finish, record_finish)
                (elim t [
                  | runs e ↦ elim (ℕ_discrete channel other) [
                    | yes p ↦
                        has_ended {r = r} (ground (arith, p, get-insert channel other r s.ended))
                          (head (ground (arith, e, p, hit)))
                    | no p ↦ runs (ground (arith, e, p, get-remove channel other s.running))
                  ]
                  | has_ended {r = r'} e m ↦
                      has_ended
                        (ground
                          (arith, e, hit, c.one_stage channel, get-insert channel other r s.ended))
                        (tail m)
                  | sent {r = r'} e m ↦ sent e (tail m)
                ])
        ]

    Step-Traces :
        (channel : ℕ) (k : CommandCacheKey) (command : Bytes)
        {x y : CommandServer Body × List (Execution Body)}
        → Step encoded_len x y
        → IsConsistent x.0
        → Traces channel k command x.0 x.1
        → Traces channel k command y.0 y.1
    Step-Traces channel k command (looked draw now key cmd request_id {s} {history}) c t =
        rw (look_up_server draw now key cmd request_id s)
          (keep-Traces channel k command s _ history (λ p e. e) (λ r e. e) (λ r e. e) t)
    Step-Traces channel k command (joined draw now key cmd request_id {s} {history}) c t =
        let t' : Traces channel k command (record s { cache = prune now s.cache }) history =
          keep-Traces channel k command s _ history (λ p e. e) (λ r e. e) (λ r e. e) t in
        elim (join_server draw now key cmd request_id s) [
          | inl same_server ↦ rw same_server t'
          | inr led ↦
              subst (λ u. Traces channel k command u.0 history) (sym led)
                (lead-Traces channel k command key cmd _ history c.unused t')
        ]
    Step-Traces channel k command (finished now other r {s} {history}) c t =
        finish-Traces channel k command now other r s history c t
    Step-Traces channel k command (released other {s} {history}) c t =
        release_task-Traces channel k command other s history c t

    Reach-Traces :
        (channel : ℕ) (k : CommandCacheKey) (command : Bytes)
        {x y : CommandServer Body × List (Execution Body)}
        → Reach encoded_len x y
        → IsConsistent x.0
        → Traces channel k command x.0 x.1
        → Traces channel k command y.0 y.1
    Reach-Traces channel k command stop c t = t
    Reach-Traces channel k command (step run last) c t =
        Step-Traces channel k command last (Reach-IsConsistent encoded_len run c)
          (Reach-Traces channel k command run c t)

    -- The channel that a request joins is that of a task which runs its own command under its key.
    join_follows :
        (draw : Bytes) (now : ℕ) (key : CommandCacheKey) (command : Bytes) (request_id channel : ℕ)
        (s : CommandServer Body)
        → IsConsistent s
        → (join draw now key command request_id s).1 ≡ follows channel
        → get channel (join draw now key command request_id s).0.running ≡ some (key, command)
    unfolding join lead
    join_follows draw now key command request_id channel s c h =
        let cache = prune now s.cache in
        elim (Option-cases (cached_command_frame draw cache key command request_id)) [
          | inr (frame, e) ↦ absurd (ground (arith, h, e))
          | inl e ↦ elim (Option-cases (get key cache.in_flight)) [
            | inr (i, hit) ↦
                let task =
                  c.has_task key i
                    (ap (get key) (sym (prune-Shrinks now s.cache).in_flight) ∙ hit) in
                ground (arith, h, e, hit, task)
            | inl miss ↦
                ground
                  (arith, h, e, miss, get-insert channel s.next_channel (key, command) s.running)
          ]
        ]

    -- However requests and tasks interleave, before and after it, a request that follows a channel
    -- finds there only the response of an execution of its own command under its own key.
    pub followers_get_their_command :
        {s s' : CommandServer Body} {history history' : List (Execution Body)} (draw : Bytes)
        (now : ℕ) (key : CommandCacheKey) (command : Bytes) (request_id channel : ℕ)
        (r : Response Body)
        → Reach encoded_len (idle, []) (s, history)
        → (join draw now key command request_id s).1 ≡ follows channel
        → Reach encoded_len ((join draw now key command request_id s).0, history) (s', history')
        → get channel s'.results ≡ some r
        → Memᴰ (key, command, r) history'
    unfolding present
    followers_get_their_command {s} {history' = history'} draw now key command request_id channel r
          before h after found =
        let c = Reach-IsConsistent encoded_len before idle-IsConsistent in
        let c' = join-IsConsistent draw now key command request_id s c in
        let t =
          Reach-Traces channel key command after c'
            (runs (join_follows draw now key command request_id channel s c h)) in
        let done = Reach-IsConsistent encoded_len after c' in
        elim t [
          | runs e ↦ absurd (ground (arith, e, found, done.one_stage channel))
          | has_ended {r = r'} e m ↦ absurd (ground (arith, e, found, done.one_stage channel))
          | sent {r = r'} e m ↦
              subst (λ x. Memᴰ {A = Execution Body} (key, command, x) history')
                (ground (arith, e, found)) m
        ]
