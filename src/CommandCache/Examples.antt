-- ===== src/CommandCache/Examples.antt =====
-- A cache that is asked to keep one response.
use arcrelay_protocol.Prelude.{
  ℕ, ◌≡◌, some, [], ◌∷◌, arith, bytes_eq, nat_eq, get, bytes, saturating_add,
}
use arcrelay_protocol.CommandCache.{
  CommandCacheKey, CommandCache, command_cache_key_eq, empty, insert as insert_command, entry_of,
  entry_size,
}
use arcrelay_protocol.CommandCache.Insertion.{IsValid, empty-IsValid, insert-IsValid}
use arcrelay_protocol.CommandCache.Newest.{get-insert_self}

abbrev key : CommandCacheKey
key = record { device_public_key = 1 ∷ 2 ∷ []; idempotency_key = bytes "0123456789abcdef" }

-- A response is a number, and takes 10 bytes.
abbrev encoded_len : ℕ → ℕ
encoded_len response = 10

abbrev one_entry : CommandCache ℕ
one_entry = insert_command encoded_len 100 key (bytes "play") 7 empty

one_entry-IsValid : IsValid one_entry
one_entry-IsValid = insert-IsValid encoded_len 100 key (bytes "play") 7 empty empty-IsValid

insert-IsValid_example : IsValid (insert_command encoded_len 200 key (bytes "stop") 8 one_entry)
insert-IsValid_example =
    insert-IsValid encoded_len 200 key (bytes "stop") 8 one_entry one_entry-IsValid

get-insert_self_example :
    get key (insert_command encoded_len 200 key (bytes "stop") 8 one_entry).entries
    ≡ some (entry_of encoded_len 200 key (bytes "stop") 8)
get-insert_self_example =
    get-insert_self encoded_len 200 key (bytes "stop") 8 one_entry one_entry-IsValid
      (unfold entry_size in unfold saturating_add in omega arith)

stored : get key one_entry.entries ≡ some (entry_of encoded_len 100 key (bytes "play") 7)
stored =
    get-insert_self encoded_len 100 key (bytes "play") 7 empty empty-IsValid
      (unfold entry_size in unfold saturating_add in omega arith)
