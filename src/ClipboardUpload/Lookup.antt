-- ===== src/ClipboardUpload/Lookup.antt =====
-- What a lookup finds.
use arcrelay_protocol.Prelude.{
  inl, inr, ℕ, ◌+◌, ◌-◌, ◌≤◌, ◌≡◌, refl, ap, ◌∙◌, Bool, none, some, List, [], ◌∷◌, arith, ltb, leb,
  if◌then◌else◌, Bytes, bytes_eq, nat_eq, same, count, Map, get, get-remove, get-insert,
  Option-cases, is_some_and, IsDistinct,
}
use arcrelay_protocol.ClipboardUpload.{
  UploadKey, upload_key_eq, upload_key_discrete, ClipboardUpload, ClipboardUploadStore, stored,
  expired_keys, remove_upload, remove_uploads, prune, insert_upload, get_upload, upload_ttl,
}
use arcrelay_protocol.ClipboardUpload.Accounting.{IsValid, prune-IsValid, insert_upload-IsValid}

get-remove_upload :
    (k key : UploadKey) (s : ClipboardUploadStore)
    → get k (remove_upload key s).uploads ≡ (if same k key then none else get k s.uploads)
unfolding remove_upload
get-remove_upload k key s = ground (arith, get-remove k key s.uploads)

get-remove_uploads :
    (k : UploadKey) (keys : List UploadKey) (s : ClipboardUploadStore)
    → get k (remove_uploads keys s).uploads
      ≡ (if ltb 0 (count k keys) then none else get k s.uploads)
unfolding remove_uploads count
get-remove_uploads k [] s = ground arith
get-remove_uploads k (key ∷ keys) s =
    ground (arith, get-remove_uploads k keys (remove_upload key s), get-remove_upload k key s)

is_expired : ℕ → ClipboardUpload → Bool
is_expired now u = leb upload_ttl (now - u.created_at)

expired_absent :
    (now : ℕ) (k : UploadKey) (m : Map UploadKey ClipboardUpload)
    → get k m ≡ none
    → count k (expired_keys now m) ≡ 0
unfolding expired_keys count get
expired_absent now k [] h = refl
expired_absent now k ((key, u) ∷ m) h = ground (arith, h, expired_absent now k m)

count-expired_keys :
    (now : ℕ) (k : UploadKey) (m : Map UploadKey ClipboardUpload)
    → IsDistinct m
    → ltb 0 (count k (expired_keys now m)) ≡ is_some_and (get k m) (is_expired now)
unfolding expired_keys count get is_expired
count-expired_keys now k [] d = refl
count-expired_keys now k ((key, u) ∷ m) d = elim (upload_key_discrete k key) [
  | yes p ↦ ground (arith, d, p, expired_absent now key m)
  | no p ↦ ground (arith, d, p, count-expired_keys now k m d.1)
]

get-prune :
    (now : ℕ) (k : UploadKey) (s : ClipboardUploadStore)
    → IsDistinct s.uploads
    → get k (prune now s).uploads
      ≡ (if is_some_and (get k s.uploads) (is_expired now) then none else get k s.uploads)
unfolding prune
get-prune now k s d =
    get-remove_uploads k (expired_keys now s.uploads) s
    ∙ ap (λ b. if b then none else get k s.uploads) (count-expired_keys now k s.uploads d)

module _ (digest : Bytes → Bytes) where
  insert_upload_stored :
      (now : ℕ) (upload_id blob sha256 media_type : Bytes) (s : ClipboardUploadStore)
      → (insert_upload digest now upload_id blob sha256 media_type s).1 ≡ stored
      → (get
            (upload_id, media_type)
            (insert_upload digest now upload_id blob sha256 media_type s).0.uploads
          ≡ some (record { bytes = blob; sha256 = sha256; created_at = now }))
  unfolding insert_upload
  insert_upload_stored now upload_id blob sha256 media_type s h =
      let key : UploadKey = (upload_id, media_type) in
      ground (
        arith,
        h,
        get-insert key key (record { bytes = blob; sha256 = digest blob; created_at = now })
            (prune now s).uploads,
      )

  -- An upload that is accepted is found under its id, digest and media type at any time in the two
  -- minutes that follow, as it was sent, and not afterwards.
  pub get_upload-insert_upload :
      (now later : ℕ) (upload_id blob sha256 media_type : Bytes) (s : ClipboardUploadStore)
      → IsValid digest s
      → (insert_upload digest now upload_id blob sha256 media_type s).1 ≡ stored
      → now ≤ later
      → (get_upload later upload_id sha256 media_type
          (insert_upload digest now upload_id blob sha256 media_type s).0).1
        ≡ (if ltb later (now + upload_ttl) then some blob else none)
  unfolding get_upload is_expired
  get_upload-insert_upload now later upload_id blob sha256 media_type s v h le =
      let key : UploadKey = (upload_id, media_type) in
      let after = (insert_upload digest now upload_id blob sha256 media_type s).0 in
      let kept = insert_upload_stored now upload_id blob sha256 media_type s h in
      let w = insert_upload-IsValid digest now upload_id blob sha256 media_type s v in
      ground (arith, kept, le, get-prune later key after w.distinct)

  -- What a lookup returns has the digest that was asked for.
  pub digest-get_upload :
      (now : ℕ) (upload_id blob sha256 media_type : Bytes) (s : ClipboardUploadStore)
      → IsValid digest s
      → (get_upload now upload_id sha256 media_type s).1 ≡ some blob
      → digest blob ≡ sha256
  unfolding get_upload
  digest-get_upload now upload_id blob sha256 media_type s v h =
      let key : UploadKey = (upload_id, media_type) in
      elim (Option-cases (get key (prune now s).uploads)) [
        | inl miss ↦ absurd (ground (arith, miss, h))
        | inr (u, hit) ↦ ground (arith, hit, h, (prune-IsValid digest now s v).digests key u hit)
      ]
