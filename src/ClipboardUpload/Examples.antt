-- ===== src/ClipboardUpload/Examples.antt =====
-- An upload of three bytes.
use arcrelay_protocol.Prelude.{
  ◌+◌, ◌≡◌, refl, none, some, [], ◌∷◌, ◌++◌, arith, ltb, if◌then◌else◌, Bytes, bytes_eq,
  bytes_discrete, nat_eq, ℕ_discrete, get, take, bytes, saturating_add,
}
use arcrelay_protocol.ClipboardUpload.{
  ClipboardUploadStore, upload_key_eq, stored, empty, expired_keys, remove_uploads, prune,
  previous_bytes, is_media_type, insert_upload, get_upload, upload_ttl,
}
use arcrelay_protocol.ClipboardUpload.Accounting.{IsValid, empty-IsValid, insert_upload-IsValid}
use arcrelay_protocol.ClipboardUpload.Lookup.{get_upload-insert_upload}

-- A digest of 32 bytes that tells texts of up to 32 bytes apart.
abbrev pub digest : Bytes → Bytes
digest b = take 32 (b ++ bytes "________________________________")

abbrev pub id : Bytes
id = bytes "0123456789abcdef0123456789abcdef"

abbrev pub png : Bytes
png = bytes "image/png"

abbrev pub blob : Bytes
blob = 1 ∷ 2 ∷ 3 ∷ []

abbrev after : ClipboardUploadStore
after = (insert_upload digest 100 id blob (digest blob) png empty).0

accepted : (insert_upload digest 100 id blob (digest blob) png empty).1 ≡ stored
unfolding insert_upload prune expired_keys remove_uploads previous_bytes is_media_type get
    bytes_discrete ℕ_discrete saturating_add
accepted = refl

insert_upload-IsValid_example : IsValid digest after
insert_upload-IsValid_example =
    insert_upload-IsValid digest 100 id blob (digest blob) png empty (empty-IsValid digest)

get_upload-insert_upload_example :
    (get_upload 120099 id (digest blob) png after).1
    ≡ (if ltb 120099 (100 + upload_ttl) then some blob else none)
get_upload-insert_upload_example =
    get_upload-insert_upload digest 100 120099 id blob (digest blob) png empty
      (empty-IsValid digest) accepted (omega arith)

found : (get_upload 200 id (digest blob) png after).1 ≡ some blob
found =
    get_upload-insert_upload digest 100 200 id blob (digest blob) png empty (empty-IsValid digest)
      accepted (omega arith)
