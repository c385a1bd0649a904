-- ===== src/Commands/Examples.antt =====
-- A command that is run once, answered to a request that waits for it, and kept.
use arcrelay_protocol.Prelude.{
  ◌⊎◌, ℕ, ◌+◌, ◌≤◌, ◌≡◌, refl, some, List, [], ◌∷◌, Bytes, bytes_eq, bytes_discrete, nat_eq,
  ℕ_discrete, length, get, remove, insert, bytes, value, exceeds, increment, saturating_add,
  wrapping_add,
}
use mathlib.Core.List.Memᴰ.{Memᴰ}
use arcrelay_protocol.CommandCache as Cache
use arcrelay_protocol.CommandCache.{
  CommandCacheKey, CommandCacheKey-discrete, command_cache_key_eq, prune, prune_stale, prune_excess,
  global_limits_exceeded, forget, store, enforce_device_limits, enforce_devices,
  over_budget_devices, entry_size, entry_of, device_over_budget, remove_entry, retain_ne, is_stale,
}
use arcrelay_protocol.Status.{ok_status, invalid_argument}
use arcrelay_protocol.Commands.{
  CommandServer, Response, follows, lead, join, finish, release_task, reused_key, response_error,
  response_frame_for_request, cached_command_frame, max_background_commands,
}
use arcrelay_protocol.Commands.Tasks.{idle}
use arcrelay_protocol.Commands.Runs.{
  Execution, Reach, stop, step, joined, finished, released, record_finish, one_task_per_key,
}
use arcrelay_protocol.Commands.Answers.{cached_command_frame-executed}
use arcrelay_protocol.Commands.Followers.{followers_get_their_command}

abbrev key : CommandCacheKey
key = record { device_public_key = 1 ∷ 2 ∷ []; idempotency_key = bytes "0123456789abcdef" }

abbrev play : Bytes
play = bytes "play"

abbrev encoded_len : Response ℕ → ℕ
encoded_len r = 10

abbrev done : Response ℕ
done = record { request_id = 1; status = some ok_status; body = some 5 }

abbrev server : CommandServer ℕ
server = idle

-- The request 1 leads the command.
abbrev leading : CommandServer ℕ
leading = (join [] 100 key play 1 server).0

abbrev ended_server : CommandServer ℕ
ended_server = finish encoded_len 150 0 done leading

abbrev history : List (Execution ℕ)
history = record_finish 0 done leading []

leads : (join [] 100 key play 1 server).1 ≡ follows 0
unfolding join lead cached_command_frame get prune prune_stale prune_excess global_limits_exceeded
leads = refl

Reach-ended : Reach encoded_len (server, []) (ended_server, history)
Reach-ended = step (step stop (joined [] 100 key play 1)) (finished 150 0 done)

one_task_per_key_example :
    ((channel other : ℕ) (k : CommandCacheKey) (command command' : Bytes)
      → get channel leading.running ≡ some (k, command)
      → get other leading.running ≡ some (k, command')
      → channel ≡ other)
    × (length leading.running + length leading.ended ≤ max_background_commands)
one_task_per_key_example = one_task_per_key encoded_len (step stop (joined [] 100 key play 1))

sent : get 0 (release_task 0 ended_server).results ≡ some done
unfolding release_task finish join lead cached_command_frame get insert remove ℕ_discrete prune
    prune_stale prune_excess global_limits_exceeded
sent = refl

followers_get_their_command_example : Memᴰ (key, play, done) history
followers_get_their_command_example =
    followers_get_their_command encoded_len [] 100 key play 1 0 done stop leads
      (step (step stop (finished 150 0 done)) (released 0)) sent

-- The request 2 repeats the command.
repeated :
    cached_command_frame [] ended_server.cache key play 2 ≡ some (response_frame_for_request done 2)
unfolding cached_command_frame join lead finish ok_status prune prune_stale prune_excess
    global_limits_exceeded Cache.insert forget store enforce_device_limits enforce_devices
    over_budget_devices entry_size entry_of device_over_budget remove_entry retain_ne is_stale
    saturating_add value increment exceeds get insert remove CommandCacheKey-discrete bytes_discrete
    ℕ_discrete wrapping_add
repeated = refl

cached_command_frame-executed_example :
    (response_frame_for_request done 2 ≡ response_error [] 2 invalid_argument reused_key)
    ⊎ ((r : Response ℕ) × Memᴰ (key, play, r) history
        × (response_frame_for_request done 2 ≡ response_frame_for_request r 2))
cached_command_frame-executed_example =
    cached_command_frame-executed encoded_len [] key play 2 (response_frame_for_request done 2)
      Reach-ended repeated
