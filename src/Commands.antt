-- ===== src/Commands.antt =====
-- src/server/proto_handler/requests/control.rs: how `handle_request` runs a command under its
-- idempotency key. The cache is locked three times: to look the key up, to join the running command
-- or to start it, and in the command's own task when it ends. Each is an operation here, and any
-- others can come between them. A watch channel is its number.
pub mod Tasks
pub mod Runs
pub mod Answers
pub mod Followers
mod Examples
use arcrelay_protocol.Prelude.{
  ◌⊎◌, ℕ, suc, zero, ◌+◌, ◌-◌, ◌≤◌, ◌<◌, ◌≡◌, ◌≢◌, ◌∙◌, Bool, true, false, not, ◌||◌, ◌&&◌, Option,
  none, some, List, [], ◌∷◌, ◌++◌, arith, leb, ◌==◌, if◌then◌else◌, Bytes, bytes_eq, nat_eq, same,
  length, Map, get, remove, insert, bytes, ◌%◌, ◌*◌, is_some_and,
}
use arcrelay_protocol.CommandCache as Cache
use arcrelay_protocol.CommandCache.{CommandCache, CommandCacheKey, command_cache_key_eq, prune}
use arcrelay_protocol.Status.{
  ErrorCode, Status, status as make_status, invalid_argument, resource_exhausted, internal,
  unavailable,
}

abbrev pub max_background_commands : ℕ
max_background_commands = 32

pub record Response (Body : Type 0) : Type 0 where
  pub request_id : ℕ
  pub status : Option Status
  pub body : Option Body

-- A frame that is a response, or one of the others.
pub data ServerControlFrame (Body : Type 0) : Type 0 where
  response : Response Body → ServerControlFrame Body
  other : ServerControlFrame Body

pub record RequestRejection : Type 0 where
  pub request_id : ℕ
  pub code : ErrorCode
  pub message : Bytes

-- What a request gets from a section of the code that holds the lock.
pub data Outcome (Body : Type 0) : Type 0 where
  returned : ServerControlFrame Body → Outcome Body
  pending : Outcome Body
  follows : ℕ → Outcome Body

-- How the spawned `handle_command` ended.
pub data TaskResult (Body : Type 0) : Type 0 where
  completed : ServerControlFrame Body → TaskResult Body
  panicked : Bytes → TaskResult Body

-- `command_cache`, the free permits of `command_limit`, and by channel: the command of
-- each running task, the response of one that has left the lock, and the values sent.
pub record CommandServer (Body : Type 0) : Type 0 where
  pub cache : CommandCache (Response Body)
  pub permits : ℕ
  pub running : Map ℕ (CommandCacheKey × Bytes)
  pub ended : Map ℕ (Response Body)
  pub results : Map ℕ (Response Body)
  pub next_channel : ℕ

abbrev pub reused_key : Bytes
reused_key = bytes "idempotency key was reused for a different command"

module _ {Body : Type 0} where
  unfoldable pub response_error : Bytes → ℕ → ErrorCode → Bytes → ServerControlFrame Body
  response_error draw request_id code message = response (record {
    request_id = request_id;
    status = some (make_status draw code message);
    body = none;
  })

  unfoldable pub into_frame : Bytes → RequestRejection → ServerControlFrame Body
  unfolding response_error
  into_frame draw rejection =
      response_error draw rejection.request_id rejection.code rejection.message

  pub response_frame_for_request : Response Body → ℕ → ServerControlFrame Body
  response_frame_for_request r request_id = response (record r { request_id = request_id })

  -- `none` where the key is not in the cache.
  pub cached_command_frame :
      Bytes
      → CommandCache (Response Body)
      → CommandCacheKey
      → Bytes
      → ℕ
      → Option (ServerControlFrame Body)
  unfolding response_frame_for_request into_frame
  cached_command_frame draw cache key command request_id = elim (get key cache.entries) [
    | none ↦ none
    | some cached ↦
        if not (same cached.command command)
        then some (
            into_frame draw
              (record { request_id = request_id; code = invalid_argument; message = reused_key }))
        else some (response_frame_for_request cached.response request_id)
  ]

  -- The checks that come before the cache: the length of the key, and `authorize_command`.
  pub command_refused :
      Bytes → ℕ → Bytes → Option RequestRejection → Option (ServerControlFrame Body)
  unfolding into_frame
  command_refused draw request_id idempotency_key authorized =
      if not (leb 16 (length idempotency_key) && leb (length idempotency_key) 64)
      then some (
          response_error draw request_id invalid_argument
            (bytes "commands require a 16-64 byte idempotency key"))
      else elim authorized [ none ↦ none | some rejection ↦ some (into_frame draw rejection) ]

  -- The first look into the cache.
  pub look_up :
      Bytes
      → ℕ
      → CommandCacheKey
      → Bytes
      → ℕ
      → CommandServer Body
      → CommandServer Body × Outcome Body
  unfolding cached_command_frame
  look_up draw now key command request_id server =
      let cache = prune now server.cache in
      let server' : CommandServer Body = record server { cache = cache } in
      elim (cached_command_frame draw cache key command request_id) [
        | some frame ↦ (server', returned frame)
        | none ↦ (server', pending)
      ]

  -- A permit is taken, the command enters `in_flight`, and its task is spawned.
  pub lead : CommandCacheKey → Bytes → CommandServer Body → CommandServer Body × Outcome Body
  lead key command server =
      let channel = server.next_channel in
      (
        record server {
          cache = record server.cache {
            in_flight =
                insert key (record { command = command; channel = channel }) server.cache.in_flight;
          };
          permits = server.permits - 1;
          running = insert channel (key, command) server.running;
          next_channel = suc channel;
        },
        follows channel,
      )

  -- The second look; then the running command of the key is joined, or the request leads one.
  pub join :
      Bytes
      → ℕ
      → CommandCacheKey
      → Bytes
      → ℕ
      → CommandServer Body
      → CommandServer Body × Outcome Body
  unfolding cached_command_frame lead
  join draw now key command request_id server =
      let cache = prune now server.cache in
      let server' : CommandServer Body = record server { cache = cache } in
      elim (cached_command_frame draw cache key command request_id) [
        | some frame ↦ (server', returned frame)
        | none ↦ elim (get key cache.in_flight) [
          | some in_flight ↦
              if not (same in_flight.command command)
              then (server', returned (response_error draw request_id invalid_argument reused_key))
              else (server', follows in_flight.channel)
          | none ↦
              if server.permits == 0
              then (
                server',
                returned (
                    response_error draw request_id resource_exhausted
                      (bytes "too many background commands are active")),
              )
              else lead key command server'
        ]
      ]

  -- The response of a task, by the frame it produced.
  pub task_response : Bytes → ℕ → TaskResult Body → Response Body
  unfolding response_error
  task_response draw request_id (completed (response r)) = r
  task_response draw request_id (completed other) = record {
    request_id = request_id;
    status = some (make_status draw internal (bytes "command handler returned an invalid frame"));
    body = none;
  }
  task_response draw request_id (panicked error) = record {
    request_id = request_id;
    status = some (make_status draw internal (bytes "command task failed: " ++ error));
    body = none;
  }

  -- `response.status.as_ref().is_some_and(|status| !status.retryable)`
  pub is_final : Response Body → Bool
  is_final r = is_some_and r.status (λ s. not s.retryable)

  -- The end of the task: the channel has its response, and the permit is free.
  pub release_task : ℕ → CommandServer Body → CommandServer Body
  release_task channel server = elim (get channel server.ended) [
    | none ↦ server
    | some r ↦ record server {
      permits = suc server.permits;
      ended = remove channel server.ended;
      results = insert channel r server.results;
    }
  ]

module _ {Body : Type 0} (encoded_len : Response Body → ℕ) where
  -- The task's section of the lock: its entry leaves `in_flight`, and a final response enters the
  -- cache. Only a running task has one.
  pub finish : ℕ → ℕ → Response Body → CommandServer Body → CommandServer Body
  unfolding is_final
  finish now channel r server = elim (get channel server.running) [
    | none ↦ server
    | some (key, command) ↦
        let cache = record server.cache { in_flight = remove key server.cache.in_flight } in
        record server {
          cache = if is_final r then Cache.insert encoded_len now key command r cache else cache;
          running = remove channel server.running;
          ended = insert channel r server.ended;
        }
  ]

-- What a request answers once the channel it follows has a value, or has been dropped without one.
pub reply : {Body : Type 0} → Bytes → Option (Response Body) → ℕ → ServerControlFrame Body
unfolding response_frame_for_request response_error
reply draw none request_id =
    response_error draw request_id unavailable (bytes "the original command ended without a result")
reply draw (some r) request_id = response_frame_for_request r request_id
