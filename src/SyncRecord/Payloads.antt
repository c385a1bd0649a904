-- ===== src/SyncRecord/Payloads.antt =====
-- What a record that is accepted for synchronization carries.
use arcrelay_protocol.Prelude.{
  inl, inr, ℕ, ◌+◌, ◌≤◌, ◌<◌, ◌≡◌, ◌⊎◌, refl, true, false, Option, none, some, arith, Bytes,
  bytes_eq, length, bytes, Bool-cases, Option-cases,
}
use arcrelay_protocol.Prelude.Int.{ℤ, pos, negsuc}
use arcrelay_protocol.BlobStore.{BlobRef}
use arcrelay_protocol.SyncRecord.{
  ClipboardContentKind, text, html, image, files, other_kind, ClipboardSyncChangeKind,
  ClipboardRichText, Payload, text_payload, rich_text, image_payload, ClipboardSyncRecord, i64_max,
  all_hex, valid_clipboard_blob_ref, is_capture_time, valid_text, max_rich_text_bytes,
  check_rich_text, check_image, check_payload, validate_clipboard_sync_record,
}

-- The blobs that a payload refers to.
pub data Refers : Payload → BlobRef → Type 0 where
  to_image : {b : BlobRef} → Refers (image_payload b) b
  to_html : {r : ClipboardRichText} {b : BlobRef} → r.html ≡ some b → Refers (rich_text r) b
  to_rtf : {r : ClipboardRichText} {b : BlobRef} → r.rtf ≡ some b → Refers (rich_text r) b

-- A blob is named by its SHA-256, and is neither empty nor larger than 20 MiB.
pub record IsAddressed (r : BlobRef) : Type 0 where
  pub name : r.blob_id ≡ r.sha256
  pub digest : length r.sha256 ≡ 32
  pub filled : 0 < r.size
  pub bounded : r.size ≤ 20971520

valid-IsAddressed :
    (r : BlobRef) (media_type : Bytes) (maximum : ℕ)
    → maximum ≤ 20971520
    → valid_clipboard_blob_ref (some r) media_type maximum ≡ true
    → IsAddressed r
unfolding valid_clipboard_blob_ref
valid-IsAddressed r media_type maximum small h = record {
  name = ground (arith, h);
  digest = ground (arith, h);
  filled = ground (arith, h);
  bounded = ground (arith, h, small);
}

image-IsAddressed : (b : BlobRef) → check_image (some (image_payload b)) ≡ none → IsAddressed b
unfolding check_image
image-IsAddressed b h =
    valid-IsAddressed b (bytes "image/png") 20971520 (omega arith) (ground (arith, h))

html-IsAddressed :
    (r : ClipboardRichText) (b : BlobRef)
    → r.html ≡ some b
    → check_rich_text (some (rich_text r)) ≡ none
    → IsAddressed b
unfolding check_rich_text
html-IsAddressed r b e h =
    valid-IsAddressed b (bytes "text/html; charset=utf-8") max_rich_text_bytes (omega arith)
      (ground (arith, e, h))

rtf-IsAddressed :
    (r : ClipboardRichText) (b : BlobRef)
    → r.rtf ≡ some b
    → check_rich_text (some (rich_text r)) ≡ none
    → IsAddressed b
unfolding check_rich_text
rtf-IsAddressed r b e h =
    valid-IsAddressed b (bytes "text/rtf") max_rich_text_bytes (omega arith) (ground (arith, e, h))

check_payload-IsAddressed :
    (k : ClipboardContentKind) (p : Payload) (b : BlobRef)
    → check_payload k (some p) ≡ none
    → Refers p b
    → IsAddressed b
unfolding check_payload valid_text check_rich_text check_image
check_payload-IsAddressed k (text_payload _) b h refers = elim refers [ ]
check_payload-IsAddressed image (image_payload b) _ h to_image = image-IsAddressed b h
check_payload-IsAddressed html (rich_text r) b h (to_html e) = html-IsAddressed r b e h
check_payload-IsAddressed html (rich_text r) b h (to_rtf e) = rtf-IsAddressed r b e h
check_payload-IsAddressed html (image_payload b) _ h to_image = absurd (ground (arith, h))
check_payload-IsAddressed image (rich_text r) b h (to_html e) = absurd (ground (arith, h))
check_payload-IsAddressed image (rich_text r) b h (to_rtf e) = absurd (ground (arith, h))
check_payload-IsAddressed text (image_payload b) _ h to_image = absurd (ground (arith, h))
check_payload-IsAddressed text (rich_text r) b h _ = absurd (ground (arith, h))
check_payload-IsAddressed files (image_payload b) _ h to_image = absurd (ground (arith, h))
check_payload-IsAddressed files (rich_text r) b h _ = absurd (ground (arith, h))
check_payload-IsAddressed other_kind (image_payload b) _ h to_image = absurd (ground (arith, h))
check_payload-IsAddressed other_kind (rich_text r) b h _ = absurd (ground (arith, h))

-- The payload of a record that is not deleted.
pub data Carries : ClipboardContentKind → Option Payload → Type 0 where
  some_text :
      {content : Bytes}
      → 0 < length content
      → length content ≤ 786432
      → Carries text (some (text_payload content))
  some_html :
      {r : ClipboardRichText} {h : BlobRef}
      → r.html ≡ some h
      → length r.plain_text ≤ 1048576
      → Carries html (some (rich_text r))
  some_image : {b : BlobRef} → Carries image (some (image_payload b))
  file_metadata : Carries files none

check_payload-Carries :
    (k : ClipboardContentKind) (p : Option Payload) → check_payload k p ≡ none → Carries k p
unfolding check_payload valid_text check_rich_text check_image
check_payload-Carries text (some (text_payload content)) h =
    some_text (ground (arith, h)) (ground (arith, h))
check_payload-Carries text (some (rich_text r)) h = absurd (ground (arith, h))
check_payload-Carries text (some (image_payload b)) h = absurd (ground (arith, h))
check_payload-Carries text none h = absurd (ground (arith, h))
check_payload-Carries html (some (rich_text r)) h = elim (Option-cases r.html) [
  | inl miss ↦ absurd (unfold valid_clipboard_blob_ref in ground (arith, h, miss))
  | inr (b, hit) ↦ some_html hit (ground (arith, h))
]
check_payload-Carries html (some (text_payload content)) h = absurd (ground (arith, h))
check_payload-Carries html (some (image_payload b)) h = absurd (ground (arith, h))
check_payload-Carries html none h = absurd (ground (arith, h))
check_payload-Carries image (some (image_payload b)) h = some_image
check_payload-Carries image (some (text_payload content)) h = absurd (ground (arith, h))
check_payload-Carries image (some (rich_text r)) h = absurd (ground (arith, h))
check_payload-Carries image none h = absurd (ground (arith, h))
check_payload-Carries files none h = file_metadata
check_payload-Carries files (some p) h = absurd (ground (arith, h))
check_payload-Carries other_kind p h = absurd (ground (arith, h))

is_capture_time-pos :
    (now : ℕ) (t : ℤ)
    → is_capture_time now t ≡ true
    → (ms : ℕ) × (t ≡ pos ms) × (0 < ms) × (ms ≤ now + 300000)
unfolding is_capture_time
is_capture_time-pos now (pos ms) h = (ms, refl, ground (arith, h), ground (arith, h))
is_capture_time-pos now (negsuc ms) h = absurd (ground (arith, h))

module _ (kind_of : ℤ → ClipboardContentKind) (change_of : ℤ → ClipboardSyncChangeKind) where
  -- In a record that passes the check, every blob is named by its SHA-256, and is neither empty nor
  -- larger than 20 MiB.
  pub validate_clipboard_sync_record-IsAddressed :
      (now : ℕ) (r : ClipboardSyncRecord) (p : Payload) (b : BlobRef)
      → validate_clipboard_sync_record kind_of change_of now r ≡ none
      → r.payload ≡ some p
      → Refers p b
      → IsAddressed b
  unfolding validate_clipboard_sync_record
  validate_clipboard_sync_record-IsAddressed now r p b h e refers =
      check_payload-IsAddressed (kind_of r.kind) p b (ground (arith, h, e)) refers

  -- `now` is the host's clock.
  pub record IsSynchronizable (now : ℕ) (r : ClipboardSyncRecord) : Type 0 where
    pub identified : (length r.sync_id ≡ 64) × (all_hex r.sync_id ≡ true)
    pub revised : (0 < r.revision) × (r.revision ≤ i64_max)
    pub favorite : (0 < r.favorite_revision) × (r.favorite_revision ≤ i64_max)
    pub previewed : length r.preview ≤ 2048
    pub captured : (t : ℕ) × (r.captured_at_ms ≡ pos t) × (0 < t) × (t ≤ now + 300000)
    pub carried :
        ((r.deleted ≡ true) × (r.payload ≡ none))
        ⊎ ((r.deleted ≡ false) × Carries (kind_of r.kind) r.payload)

  -- A record that passes the check has an identifier of 64 hexadecimal digits, two revisions that are
  -- positive and fit into 63 bits, and a preview of at most 2048 bytes; it was captured at most five
  -- minutes ahead of the host's clock; and it is a deletion without a payload, or carries the
  -- payload of its kind.
  pub validate_clipboard_sync_record-IsSynchronizable :
      (now : ℕ) (r : ClipboardSyncRecord)
      → validate_clipboard_sync_record kind_of change_of now r ≡ none
      → IsSynchronizable now r
  unfolding validate_clipboard_sync_record
  validate_clipboard_sync_record-IsSynchronizable now r h = record {
    identified = (ground (arith, h), ground (arith, h));
    revised = (ground (arith, h), ground (arith, h));
    favorite = (ground (arith, h), ground (arith, h));
    previewed = ground (arith, h);
    captured = is_capture_time-pos now r.captured_at_ms (ground (arith, h));
    carried = elim (Bool-cases r.deleted) [
      | inl gone ↦ inl (gone, ground (arith, h, gone))
      | inr kept ↦
          inr (kept, check_payload-Carries (kind_of r.kind) r.payload (ground (arith, h, kept)))
    ];
  }
