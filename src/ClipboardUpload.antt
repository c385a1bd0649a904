-- ===== src/ClipboardUpload.antt =====
-- src/server/clipboard_upload.rs: blobs that a client has uploaded for a clipboard record. SHA-256 is
-- a parameter; `Instant::now()` is an argument of each call, in milliseconds.
pub mod Accounting
pub mod Lookup
pub mod Examples
use arcrelay_protocol.Prelude.{
  ◌⊎◌, ℕ, suc, zero, ◌+◌, ◌-◌, ◌≤◌, ◌<◌, ◌≡◌, ◌≢◌, ◌∙◌, Bool, true, false, not, ◌||◌, ◌&&◌, Option,
  none, some, List, [], ◌∷◌, ◌++◌, arith, ltb, leb, ◌==◌, if◌then◌else◌, Eq, Bytes, bytes_eq,
  bytes_discrete, nat_eq, same, length, Map, get, remove, insert, bytes, ◌%◌, ◌*◌, saturating_add,
}

abbrev pub max_blob_bytes : ℕ
max_blob_bytes = 20971520

abbrev pub max_total_bytes : ℕ
max_total_bytes = 67108864

abbrev pub upload_ttl : ℕ
upload_ttl = 120000

-- The key of an upload: its id and its media type.
abbrev pub UploadKey : Type 0
UploadKey = Bytes × Bytes

unfoldable pub upload_key_discrete : Discrete UploadKey
unfolding bytes_discrete
upload_key_discrete = hlevel bytes_discrete

instance abbrev pub upload_key_eq : Eq UploadKey
upload_key_eq = record { dec_eq = upload_key_discrete }

pub record ClipboardUpload : Type 0 where
  pub bytes : Bytes
  pub sha256 : Bytes
  pub created_at : ℕ

pub record ClipboardUploadStore : Type 0 where
  pub uploads : Map UploadKey ClipboardUpload
  pub total_bytes : ℕ

pub data UploadError : Type 0 where
  invalid_upload digest_mismatch cache_full : UploadError

pub data UploadResult : Type 0 where
  stored : UploadResult
  refused : UploadError → UploadResult

abbrev pub empty : ClipboardUploadStore
empty = record { uploads = []; total_bytes = 0 }

unfoldable pub expired_keys : ℕ → Map UploadKey ClipboardUpload → List UploadKey
expired_keys now [] = []
expired_keys now ((key, upload) ∷ rest) =
    let others = expired_keys now rest in
    if leb upload_ttl (now - upload.created_at) then key ∷ others else others

pub remove_upload : UploadKey → ClipboardUploadStore → ClipboardUploadStore
remove_upload key store = elim (get key store.uploads) [
  | none ↦ store
  | some upload ↦ record {
    uploads = remove key store.uploads;
    total_bytes = store.total_bytes - length upload.bytes;
  }
]

unfoldable pub remove_uploads : List UploadKey → ClipboardUploadStore → ClipboardUploadStore
unfolding remove_upload
remove_uploads [] store = store
remove_uploads (key ∷ keys) store = remove_uploads keys (remove_upload key store)

unfoldable pub prune : ℕ → ClipboardUploadStore → ClipboardUploadStore
unfolding expired_keys remove_uploads
prune now store = remove_uploads (expired_keys now store.uploads) store

unfoldable pub is_media_type : Bytes → Bool
is_media_type media_type =
    same media_type (bytes "image/png")
    || same media_type (bytes "text/html; charset=utf-8")
    || same media_type (bytes "text/rtf")

unfoldable pub previous_bytes : UploadKey → ClipboardUploadStore → ℕ
previous_bytes key store = elim (get key store.uploads) [
  | none ↦ 0
  | some upload ↦ length upload.bytes
]

module _ (digest : Bytes → Bytes) where
  unfoldable pub insert_upload :
      ℕ → Bytes → Bytes → Bytes → Bytes → ClipboardUploadStore → ClipboardUploadStore × UploadResult
  unfolding is_media_type previous_bytes
  insert_upload now upload_id blob expected_sha256 media_type store =
      let pruned = prune now store in
      let key : UploadKey = (upload_id, media_type) in
      let next_total =
        saturating_add (pruned.total_bytes - previous_bytes key pruned) (length blob) in
      if not (length upload_id == 32)
        || length blob == 0
        || ltb max_blob_bytes (length blob)
        || not (is_media_type media_type)
      then (store, refused invalid_upload)
      else if not (length expected_sha256 == 32) || not (same (digest blob) expected_sha256)
      then (store, refused digest_mismatch)
      else if ltb max_total_bytes next_total
      then (pruned, refused cache_full)
      else (
        record {
          uploads =
              insert key (record { bytes = blob; sha256 = digest blob; created_at = now })
                pruned.uploads;
          total_bytes = next_total;
        },
        stored,
      )

pub get_upload :
    ℕ → Bytes → Bytes → Bytes → ClipboardUploadStore → ClipboardUploadStore × Option Bytes
get_upload now upload_id expected_sha256 expected_media_type store =
    let pruned = prune now store in
    (
      pruned,
      elim (get (upload_id, expected_media_type) pruned.uploads) [
        | none ↦ none
        | some upload ↦ if same upload.sha256 expected_sha256 then some upload.bytes else none
      ],
    )
