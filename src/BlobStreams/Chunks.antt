-- ===== src/BlobStreams/Chunks.antt =====
-- The chunks of a download, put together by a client that checks every one.
use arcrelay_protocol.Prelude.{
  inl, inr, ℕ, zero, suc, ◌+◌, ◌-◌, ◌≤◌, ◌<◌, ◌≡◌, refl, ap, sym, ◌∙◌, Bool, true, false, not, ◌||◌,
  Option, none, some, List, [], ◌∷◌, ◌++◌, arith, ltb, ◌==◌, if◌then◌else◌, Bytes, length, take,
  drop, min, take-append-drop, Bool-cases,
}
use arcrelay_protocol.BlobStreams.{BlobStreamChunk, send_chunks, blob_chunks}

-- The last chunk says so, and no other does.
unfoldable pub last_only : Bool → Bytes → Option Bytes → List BlobStreamChunk → Option Bytes
last_only true content more [] = some content
last_only true content more (chunk ∷ chunks) = none
last_only false content none chunks = none
last_only false content (some others) chunks = some (content ++ others)

-- A client that takes chunks of at most `chunk_size` bytes, each where the one before it ended.
unfoldable pub reassemble : ℕ → ℕ → ℕ → List BlobStreamChunk → Option Bytes
reassemble chunk_size transfer_id expected [] = none
reassemble chunk_size transfer_id expected (chunk ∷ chunks) =
    let more = reassemble chunk_size transfer_id (expected + length chunk.content) chunks in
    if not (chunk.transfer_id == transfer_id)
      || not (chunk.offset == expected)
      || ltb chunk_size (length chunk.content)
    then none
    else last_only chunk.end_of_blob chunk.content more chunks

length-drop : (n : ℕ) (xs : Bytes) → length (drop n xs) ≡ length xs - n
length-drop zero xs = omega arith
length-drop (suc n) [] = omega arith
length-drop (suc n) (x ∷ xs) = omega (arith, length-drop n xs)

length-take : (n : ℕ) (xs : Bytes) → n ≤ length xs → length (take n xs) ≡ n
length-take zero xs le = refl
length-take (suc n) [] le = omega arith
length-take (suc n) (x ∷ xs) le = omega (arith, length-take n xs (omega arith))

take-length : (xs : Bytes) → take (length xs) xs ≡ xs
take-length [] = refl
take-length (x ∷ xs) = ap (◌∷◌ x) (take-length xs)

drop-nil : (n : ℕ) → ◌≡◌ {A = Bytes} (drop n []) []
drop-nil zero = refl
drop-nil (suc n) = refl

add_suc : (n k : ℕ) → suc (n + k) ≡ suc n + k
add_suc n k = omega arith

drop-drop : (n k : ℕ) (xs : Bytes) → drop k (drop n xs) ≡ drop (n + k) xs
drop-drop zero k xs = ap (λ (m : ℕ). drop m xs) (omega arith)
drop-drop (suc n) k [] = drop-nil k ∙ sym (drop-nil (suc n + k))
drop-drop (suc n) k (x ∷ xs) = drop-drop n k xs ∙ ap (λ (m : ℕ). drop m (x ∷ xs)) (add_suc n k)

-- Nothing is left to send.
sends_nothing :
    (fuel size id : ℕ) (content : Bytes) → send_chunks fuel size id (length content) content ≡ []
unfolding send_chunks
sends_nothing zero size id content = refl
sends_nothing (suc fuel) size id content = ground arith

drop-length : (xs : Bytes) → drop (length xs) xs ≡ []
drop-length [] = refl
drop-length (x ∷ xs) = drop-length xs

-- A chunk of `n` bytes and what comes after it.
chunk_then_rest :
    (n offset : ℕ) (content : Bytes)
    → take n (drop offset content) ++ drop (offset + n) content ≡ drop offset content
chunk_then_rest n offset content =
    ap (λ (rest : Bytes). take n (drop offset content) ++ rest) (sym (drop-drop offset n content))
    ∙ take-append-drop n (drop offset content)

chunk_length :
    (n offset : ℕ) (content : Bytes)
    → offset + n ≤ length content
    → length (take n (drop offset content)) ≡ n
chunk_length n offset content le =
    length-take n (drop offset content) (omega (arith, length-drop offset content, le))

last_chunk :
    (offset : ℕ) (content : Bytes)
    → offset ≤ length content
    → take (length content - offset) (drop offset content) ≡ drop offset content
last_chunk offset content le =
    ap (λ (n : ℕ). take n (drop offset content)) (sym (length-drop offset content))
    ∙ take-length (drop offset content)

-- The chunk from `offset` to `chunk_end`, before chunks that bring the rest.
module _ (size id offset chunk_end : ℕ) (content : Bytes) (rest : List BlobStreamChunk) where
  abbrev chunk : BlobStreamChunk
  chunk = record {
    transfer_id = id;
    offset = offset;
    content = take (chunk_end - offset) (drop offset content);
    end_of_blob = chunk_end == length content;
  }

  chunk_then :
      offset < chunk_end
      → chunk_end < length content
      → chunk_end ≤ offset + size
      → reassemble size id chunk_end rest ≡ some (drop chunk_end content)
      → reassemble size id offset (chunk ∷ rest) ≡ some (drop offset content)
  unfolding reassemble last_only
  chunk_then lt inside fits ih =
      let n = chunk_end - offset in
      let ends : offset + n ≡ chunk_end = omega (arith, lt) in
      let long = chunk_length n offset content (omega (arith, ends, inside)) in
      let whole = chunk_then_rest n offset content in ground (arith, ends, long, whole, ih)

  chunk_last :
      offset < chunk_end
      → chunk_end ≡ length content
      → chunk_end ≤ offset + size
      → rest ≡ []
      → reassemble size id offset (chunk ∷ rest) ≡ some (drop offset content)
  unfolding reassemble last_only
  chunk_last lt ends fits none_left =
      let n = chunk_end - offset in
      let long = chunk_length n offset content (omega (arith, lt, ends)) in
      let whole = last_chunk offset content (omega (arith, lt, ends)) in
      ground (arith, none_left, ends, long, whole)

-- Enough fuel for the loop: one round for each byte that is left.
reassemble-send_chunks :
    (fuel size id offset : ℕ) (content : Bytes)
    → 0 < size
    → offset < length content
    → length content ≤ fuel + offset
    → reassemble size id offset (send_chunks fuel size id offset content)
      ≡ some (drop offset content)
unfolding send_chunks
reassemble-send_chunks zero size id offset content pos lt enough =
    absurd (omega (arith, lt, enough))
reassemble-send_chunks (suc fuel) size id offset content pos lt enough =
    elim (Bool-cases (ltb (offset + size) (length content))) [
      | inl more ↦
          let ih =
            reassemble-send_chunks fuel size id (offset + size) content pos (ground (arith, more))
              (omega (arith, pos, enough)) in
          let min_more : min (offset + size) (length content) ≡ offset + size =
            ground (arith, more) in
          let sent =
            chunk_then size id offset (offset + size) content
              (send_chunks fuel size id (offset + size) content) (omega (arith, pos))
              (ground (arith, more)) (omega arith) ih in
          ground (arith, sent, lt, min_more, more)
      | inr last ↦
          let min_last : min (offset + size) (length content) ≡ length content =
            ground (arith, last) in
          let sent =
            chunk_last size id offset (length content) content
              (send_chunks fuel size id (length content) content) lt refl (ground (arith, last))
              (sends_nothing fuel size id content) in
          ground (arith, sent, lt, min_last, last)
    ]

pub reassemble-blob_chunks :
    (size id offset : ℕ) (content : Bytes)
    → 0 < size
    → offset ≤ length content
    → reassemble size id offset (blob_chunks size id offset content) ≡ some (drop offset content)
unfolding reassemble last_only blob_chunks
reassemble-blob_chunks size id offset content pos le =
    elim (Bool-cases (offset == length content)) [
      | inl ends ↦
          let at_end : offset ≡ length content = ground (arith, ends) in
          let empty : drop offset content ≡ [] =
            ap (λ (n : ℕ). drop n content) at_end ∙ drop-length content in
          ground (arith, at_end, empty)
      | inr inside ↦ ground (
        arith,
        inside,
        reassemble-send_chunks (length content) size id offset content pos
            (ground (arith, inside, le)) (omega arith),
      )
    ]
