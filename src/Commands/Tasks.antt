-- ===== src/Commands/Tasks.antt =====
-- The tasks that run commands: one for a key at a time, and no more than there are permits.
use arcrelay_protocol.Prelude.{
  inl, inr, ℕ, ◌+◌, ◌≤◌, ◌<◌, ◌≡◌, refl, ap, sym, ◌∙◌, not, none, some, [], arith, ◌==◌, Bytes,
  bytes_eq, nat_eq, same, length, get, present, get-remove, get-insert, Option-cases, Bool-cases,
  IsDistinct, remove-IsDistinct, insert-IsDistinct, length-remove, length-insert_absent,
}
use arcrelay_protocol.CommandCache.{
  CommandCacheKey, InFlightCommand, command_cache_key_eq, prune, empty,
}
use arcrelay_protocol.CommandCache.Eviction.{prune-Shrinks}
use arcrelay_protocol.Commands.{
  CommandServer, look_up, lead, join, release_task, max_background_commands, cached_command_frame,
}

module _ {Body : Type 0} where
  abbrev pub idle : CommandServer Body
  idle = record {
    cache = empty;
    permits = max_background_commands;
    running = [];
    ended = [];
    results = [];
    next_channel = 0;
  }

  pub record IsConsistent (s : CommandServer Body) : Type 0 where
    -- A command in flight has its task, and a task its command in flight.
    pub has_task :
        (k : CommandCacheKey) (i : InFlightCommand)
        → get k s.cache.in_flight ≡ some i
        → get i.channel s.running ≡ some (k, i.command)
    pub in_flight :
        (channel : ℕ) (k : CommandCacheKey) (command : Bytes)
        → get channel s.running ≡ some (k, command)
        → get k s.cache.in_flight ≡ some (record { command = command; channel = channel })
    -- A channel is new, or runs, or ended, or has its result: never two of these.
    pub unused :
        (channel : ℕ)
        → s.next_channel ≤ channel
        → present channel s.running + present channel s.ended + present channel s.results ≡ 0
    pub one_stage :
        (channel : ℕ)
        → present channel s.running + present channel s.ended + present channel s.results ≤ 1
    pub running_distinct : IsDistinct s.running
    pub ended_distinct : IsDistinct s.ended
    pub capacity : s.permits + length s.running + length s.ended ≡ max_background_commands

  pub idle-IsConsistent : IsConsistent idle
  unfolding get present
  idle-IsConsistent = record {
    has_task = λ k i h. ground (arith, h);
    in_flight = λ channel k command h. ground (arith, h);
    unused = λ channel h. omega arith;
    one_stage = λ channel. omega arith;
    running_distinct = tt;
    ended_distinct = tt;
    capacity = refl;
  }

  -- The cache without stale entries, and the rest as it was.
  pruned : ℕ → CommandServer Body → CommandServer Body
  pruned now s = record s { cache = prune now s.cache }

  pruned-IsConsistent :
      (now : ℕ) (s : CommandServer Body) → IsConsistent s → IsConsistent (pruned now s)
  unfolding pruned
  pruned-IsConsistent now s c =
      let e = (prune-Shrinks now s.cache).in_flight in
      record {
        has_task = λ k i h. c.has_task k i (ap (get k) (sym e) ∙ h);
        in_flight = λ channel k command h. ap (get k) e ∙ c.in_flight channel k command h;
        unused = c.unused;
        one_stage = c.one_stage;
        running_distinct = c.running_distinct;
        ended_distinct = c.ended_distinct;
        capacity = c.capacity;
      }

  lead-IsConsistent :
      (key : CommandCacheKey) (command : Bytes) (s : CommandServer Body)
      → get key s.cache.in_flight ≡ none
      → 0 < s.permits
      → IsConsistent s
      → IsConsistent (lead key command s).0
  unfolding lead present
  lead-IsConsistent key command s free permit c = record {
    has_task = λ k i h. ground (
      arith,
      h,
      get-insert k key (record { command = command; channel = s.next_channel }) s.cache.in_flight,
      get-insert i.channel s.next_channel (key, command) s.running,
      c.has_task k i,
      c.unused i.channel,
    );
    in_flight = λ channel k cmd h. ground (
      arith,
      h,
      get-insert k key (record { command = command; channel = s.next_channel }) s.cache.in_flight,
      get-insert channel s.next_channel (key, command) s.running,
      c.in_flight channel k cmd,
      free,
    );
    unused = λ channel h.
        ground
          (arith, c.unused channel, get-insert channel s.next_channel (key, command) s.running);
    one_stage = λ channel. ground (
      arith,
      c.one_stage channel,
      c.unused channel,
      get-insert channel s.next_channel (key, command) s.running,
    );
    running_distinct = insert-IsDistinct s.next_channel (key, command) s.running c.running_distinct;
    ended_distinct = c.ended_distinct;
    capacity = ground (
      arith,
      c.capacity,
      c.unused s.next_channel,
      length-insert_absent s.next_channel (key, command) s.running,
    );
  }

  pub look_up-IsConsistent :
      (draw : Bytes) (now : ℕ) (key : CommandCacheKey) (command : Bytes) (request_id : ℕ)
      (s : CommandServer Body)
      → IsConsistent s
      → IsConsistent (look_up draw now key command request_id s).0
  unfolding look_up pruned
  look_up-IsConsistent draw now key command request_id s c =
      elim (Option-cases (cached_command_frame draw (prune now s.cache) key command request_id)) [
        | inl e ↦ rw (e, look_up) (pruned-IsConsistent now s c)
        | inr (frame, e) ↦ rw (e, look_up) (pruned-IsConsistent now s c)
      ]

  pub join-IsConsistent :
      (draw : Bytes) (now : ℕ) (key : CommandCacheKey) (command : Bytes) (request_id : ℕ)
      (s : CommandServer Body)
      → IsConsistent s
      → IsConsistent (join draw now key command request_id s).0
  unfolding join pruned
  join-IsConsistent draw now key command request_id s c =
      let c' = pruned-IsConsistent now s c in
      elim (Option-cases (cached_command_frame draw (prune now s.cache) key command request_id)) [
        | inr (frame, e) ↦ rw (e, join) c'
        | inl e ↦ elim (Option-cases (get key (prune now s.cache).in_flight)) [
          | inr (i, hit) ↦ elim (Bool-cases (not (same i.command command))) [
            | inl other ↦ rw (e, hit, other, join) c'
            | inr alike ↦ rw (e, hit, alike, join) c'
          ]
          | inl miss ↦ elim (Bool-cases (s.permits == 0)) [
            | inl spent ↦ rw (e, miss, spent, join) c'
            | inr left ↦
                rw (e, miss, left, join)
                  (lead-IsConsistent key command (pruned now s) miss (ground arith) c')
          ]
        ]
      ]

  pub release_task-IsConsistent :
      (channel : ℕ) (s : CommandServer Body)
      → IsConsistent s
      → IsConsistent (release_task channel s)
  unfolding release_task present
  release_task-IsConsistent channel s c = elim (Option-cases (get channel s.ended)) [
    | inl miss ↦ rw (miss, release_task) c
    | inr (r, hit) ↦
        rw (hit, release_task)
          (record {
            has_task = c.has_task;
            in_flight = c.in_flight;
            unused = λ ch h. ground (
              arith,
              c.unused ch,
              get-remove ch channel s.ended,
              get-insert ch channel r s.results,
            );
            one_stage = λ ch. ground (
              arith,
              c.one_stage ch,
              get-remove ch channel s.ended,
              get-insert ch channel r s.results,
            );
            running_distinct = c.running_distinct;
            ended_distinct = remove-IsDistinct channel s.ended c.ended_distinct;
            capacity =
                omega (arith, c.capacity, length-remove channel r s.ended c.ended_distinct hit);
          })
  ]
