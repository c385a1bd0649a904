-- ===== src/CommandCache.antt =====
-- src/server/command_cache.rs: the responses of finished commands, kept per authenticated device
-- and idempotency key. `Instant::now()` is an argument of each call, in milliseconds; the encoded
-- length of a response is prost's and is a parameter.

pub mod Accounting
pub mod Order
pub mod Limits
pub mod DeviceLimits
pub mod Insertion
pub mod Newest
pub mod Eviction
mod Examples
use arcrelay_protocol.Prelude.{
  ℕ, suc, ◌+◌, ◌-◌, ◌≤◌, ◌<◌, ◌≡◌, Bool, true, false, ◌||◌, Option, none, some, List, [], ◌∷◌, ◌++◌,
  arith, ltb, leb, if◌then◌else◌, Eq, Bytes, bytes_eq, bytes_discrete, same, length, Map, get,
  remove, zero, saturating_add, increment, decrement, exceeds,
}
use arcrelay_protocol.Prelude.Maps

abbrev pub command_cache_ttl : ℕ
command_cache_ttl = 300000

abbrev pub max_cached_commands_per_device : ℕ
max_cached_commands_per_device = 256

abbrev pub max_cached_command_bytes_per_device : ℕ
max_cached_command_bytes_per_device = 8388608

abbrev pub max_cached_commands_global : ℕ
max_cached_commands_global = 1024

abbrev pub max_cached_command_bytes_global : ℕ
max_cached_command_bytes_global = 67108864

pub record CommandCacheKey : Type 0 where
  pub device_public_key : Bytes
  pub idempotency_key : Bytes

unfoldable pub CommandCacheKey-discrete : Discrete CommandCacheKey
unfolding bytes_discrete
CommandCacheKey-discrete = hlevel bytes_discrete

instance abbrev pub command_cache_key_eq : Eq CommandCacheKey
command_cache_key_eq = record { dec_eq = CommandCacheKey-discrete }

-- A running command: its encoding, and the channel that its response will be sent on.
pub record InFlightCommand : Type 0 where
  pub command : Bytes
  pub channel : ℕ

pub record CachedCommand (Response : Type 0) : Type 0 where
  pub command : Bytes
  pub response : Response
  pub created_at : ℕ
  pub size : ℕ

pub record CommandCache (Response : Type 0) : Type 0 where
  pub entries : Map CommandCacheKey (CachedCommand Response)
  pub in_flight : Map CommandCacheKey InFlightCommand
  pub insertion_order : List CommandCacheKey
  pub per_device_bytes : Map Bytes ℕ
  pub per_device_entries : Map Bytes ℕ
  pub total_bytes : ℕ

-- `iter().position(|key| key.device_public_key == device)` and `remove(position)`
pub take_of_device : Bytes → List CommandCacheKey → Option (CommandCacheKey × List CommandCacheKey)
take_of_device device [] = none
take_of_device device (key ∷ rest) =
    if same key.device_public_key device
    then some (key, rest)
    else elim (take_of_device device rest) [
      | none ↦ none
      | some (found, others) ↦ some (found, key ∷ others)
    ]

-- `insertion_order.retain(|existing| existing != &key)`
unfoldable pub retain_ne : CommandCacheKey → List CommandCacheKey → List CommandCacheKey
retain_ne key [] = []
retain_ne key (k ∷ rest) =
    let others = retain_ne key rest in if same k key then others else k ∷ others

module _ {Response : Type 0} where
  -- `CommandCache::default()`
  abbrev pub empty : CommandCache Response
  empty = record {
    entries = [];
    in_flight = [];
    insertion_order = [];
    per_device_bytes = [];
    per_device_entries = [];
    total_bytes = 0;
  }

  -- The entry is gone from the map and from the three totals; the order is the caller's.
  pub discard :
      CommandCacheKey → CachedCommand Response → CommandCache Response → CommandCache Response
  discard key entry c = record c {
    entries = remove key c.entries;
    total_bytes = c.total_bytes - entry.size;
    per_device_bytes = decrement key.device_public_key entry.size c.per_device_bytes;
    per_device_entries = decrement key.device_public_key 1 c.per_device_entries;
  }

  unfoldable pub remove_entry : CommandCacheKey → CommandCache Response → CommandCache Response
  remove_entry key c = elim (get key c.entries) [ none ↦ c | some entry ↦ discard key entry c ]

  unfoldable pub global_limits_exceeded : CommandCache Response → Bool
  global_limits_exceeded c =
      ltb max_cached_commands_global (length c.entries)
      || ltb max_cached_command_bytes_global c.total_bytes

  -- `is_none_or(|entry| now.duration_since(entry.created_at) >= COMMAND_CACHE_TTL)`
  unfoldable pub is_stale : ℕ → CommandCacheKey → CommandCache Response → Bool
  is_stale now key c = elim (get key c.entries) [
    | none ↦ true
    | some entry ↦ leb command_cache_ttl (now - entry.created_at)
  ]

  -- `insertion_order.pop_front()`, then `remove_entry`
  pub pop_entry :
      CommandCacheKey → List CommandCacheKey → CommandCache Response → CommandCache Response
  unfolding remove_entry discard
  pop_entry key rest c = remove_entry key (record c { insertion_order = rest })

  -- The first loop of `prune`, over the order that it pops from.
  unfoldable pub prune_stale :
      ℕ → List CommandCacheKey → CommandCache Response → CommandCache Response
  prune_stale now [] c = c
  prune_stale now (key ∷ rest) c =
      let next = prune_stale now rest (pop_entry key rest c) in
      if is_stale now key c then next else c

  -- Its second loop.
  unfoldable pub prune_excess : List CommandCacheKey → CommandCache Response → CommandCache Response
  prune_excess [] c = c
  prune_excess (key ∷ rest) c =
      let next = prune_excess rest (pop_entry key rest c) in
      if global_limits_exceeded c then next else c

  unfoldable pub prune : ℕ → CommandCache Response → CommandCache Response
  prune now c = let c' = prune_stale now c.insertion_order c in prune_excess c'.insertion_order c'

  unfoldable pub device_over_budget : Bytes → CommandCache Response → Bool
  device_over_budget device c =
      exceeds max_cached_commands_per_device device c.per_device_entries
      || exceeds max_cached_command_bytes_per_device device c.per_device_bytes

  -- The `while` loop for one device. Every round takes a key off the order, which bounds it.
  pub enforce_device : ℕ → Bytes → CommandCache Response → CommandCache Response
  enforce_device zero device c = c
  enforce_device (suc fuel) device c = elim (device_over_budget device c) [
    | true ↦ elim (take_of_device device c.insertion_order) [
      | none ↦ c
      | some (key, rest) ↦ enforce_device fuel device (pop_entry key rest c)
    ]
    | false ↦ c
  ]

  -- The `for` loop over the devices that were over budget when it began.
  unfoldable pub enforce_devices : List Bytes → CommandCache Response → CommandCache Response
  enforce_devices [] c = c
  enforce_devices (device ∷ rest) c =
      enforce_devices rest (enforce_device (length c.insertion_order) device c)

  unfoldable pub over_budget_devices : List (Bytes × ℕ) → CommandCache Response → List Bytes
  over_budget_devices [] c = []
  over_budget_devices ((device, _) ∷ rest) c =
      let others = over_budget_devices rest c in
      if device_over_budget device c then device ∷ others else others

  unfoldable pub enforce_device_limits : CommandCache Response → CommandCache Response
  enforce_device_limits c = enforce_devices (over_budget_devices c.per_device_entries c) c

  -- The head of `insert`: an earlier entry under the key goes, from the map and from the order.
  unfoldable pub forget : CommandCacheKey → CommandCache Response → CommandCache Response
  forget key c =
      let c' = remove_entry key c in
      record c' { insertion_order = retain_ne key c'.insertion_order }

  unfoldable pub store :
      CommandCacheKey → CachedCommand Response → CommandCache Response → CommandCache Response
  store key entry c = record c {
    total_bytes = saturating_add c.total_bytes entry.size;
    per_device_bytes = increment key.device_public_key entry.size c.per_device_bytes;
    per_device_entries = increment key.device_public_key 1 c.per_device_entries;
    entries = Maps.insert key entry c.entries;
    insertion_order = c.insertion_order ++ key ∷ [];
  }

module _ {Response : Type 0} (encoded_len : Response → ℕ) where
  unfoldable pub entry_size : CommandCacheKey → Bytes → Response → ℕ
  entry_size key command response =
      saturating_add (saturating_add (length key.idempotency_key) (length command))
        (encoded_len response)

  unfoldable pub entry_of : ℕ → CommandCacheKey → Bytes → Response → CachedCommand Response
  entry_of now key command response = record {
    command = command;
    response = response;
    created_at = now;
    size = entry_size key command response;
  }

  unfoldable pub insert :
      ℕ → CommandCacheKey → Bytes → Response → CommandCache Response → CommandCache Response
  unfolding entry_of
  insert now key command response c =
      let size = entry_size key command response in
      if ltb max_cached_command_bytes_per_device size || ltb max_cached_command_bytes_global size
      then forget key c
      else prune now
          (enforce_device_limits (store key (entry_of now key command response) (forget key c)))
