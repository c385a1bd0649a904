-- ===== src/ClipboardUpload/Accounting.antt =====
-- The invariant of the upload store, through every operation.
use arcrelay_protocol.Prelude.{
  inl, inr, ℕ, ◌-◌, ◌≤◌, ◌≡◌, refl, not, ◌||◌, some, List, [], ◌∷◌, arith, ltb, ◌==◌, Bytes,
  bytes_eq, nat_eq, same, length, get, insert, get-remove, get-insert, Option-cases, Bool-cases,
  remove_absent, IsDistinct, remove-IsDistinct, insert-IsDistinct, sum_by, sum_by-remove,
  sum_by-insert, saturating_add, saturating_add_exact,
}
use arcrelay_protocol.ClipboardUpload.{
  UploadKey, upload_key_eq, ClipboardUpload, ClipboardUploadStore, empty, expired_keys,
  remove_upload, remove_uploads, prune, previous_bytes, is_media_type, insert_upload,
  max_total_bytes, max_blob_bytes,
}

abbrev pub upload_size : UploadKey → ClipboardUpload → ℕ
upload_size key upload = length upload.bytes

-- The total is the sum of the sizes and within the limit; every upload carries its own digest.
pub record IsValid (digest : Bytes → Bytes) (s : ClipboardUploadStore) : Type 0 where
  pub distinct : IsDistinct s.uploads
  pub total : s.total_bytes ≡ sum_by upload_size s.uploads
  pub bounded : s.total_bytes ≤ max_total_bytes
  pub digests :
      (k : UploadKey) (u : ClipboardUpload) → get k s.uploads ≡ some u → u.sha256 ≡ digest u.bytes

module _ (digest : Bytes → Bytes) where
  pub empty-IsValid : IsValid digest empty
  unfolding sum_by get
  empty-IsValid = record {
    distinct = tt;
    total = refl;
    bounded = omega arith;
    digests = λ k u h. absurd (ground (arith, h));
  }

  remove_upload-IsValid :
      (key : UploadKey) (s : ClipboardUploadStore)
      → IsValid digest s
      → IsValid digest (remove_upload key s)
  unfolding remove_upload
  remove_upload-IsValid key s v = elim (Option-cases (get key s.uploads)) [
    | inl miss ↦ rw (miss, remove_upload) v
    | inr (u, hit) ↦
        rw (hit, remove_upload)
          (record {
            distinct = remove-IsDistinct key s.uploads v.distinct;
            total =
                omega (arith, v.total, sum_by-remove upload_size key u s.uploads v.distinct hit);
            bounded = omega (arith, v.bounded);
            digests = λ k w h. ground (arith, h, get-remove k key s.uploads, v.digests k w);
          })
  ]

  remove_uploads-IsValid :
      (keys : List UploadKey) (s : ClipboardUploadStore)
      → IsValid digest s
      → IsValid digest (remove_uploads keys s)
  unfolding remove_uploads
  remove_uploads-IsValid [] s v = v
  remove_uploads-IsValid (key ∷ keys) s v =
      remove_uploads-IsValid keys _ (remove_upload-IsValid key s v)

  pub prune-IsValid :
      (now : ℕ) (s : ClipboardUploadStore) → IsValid digest s → IsValid digest (prune now s)
  unfolding prune
  prune-IsValid now s v = remove_uploads-IsValid (expired_keys now s.uploads) s v

  store-IsValid :
      (now : ℕ) (key : UploadKey) (blob : Bytes) (s : ClipboardUploadStore)
      → length blob ≤ max_blob_bytes
      → saturating_add (s.total_bytes - previous_bytes key s) (length blob) ≤ max_total_bytes
      → IsValid digest s
      → IsValid digest (record {
        uploads =
            insert key (record { bytes = blob; sha256 = digest blob; created_at = now }) s.uploads;
        total_bytes = saturating_add (s.total_bytes - previous_bytes key s) (length blob);
      })
  unfolding previous_bytes
  store-IsValid now key blob s small fits v =
      let u : ClipboardUpload = record { bytes = blob; sha256 = digest blob; created_at = now } in
      let exact =
        saturating_add_exact (s.total_bytes - previous_bytes key s) (length blob)
          (omega (arith, v.bounded)) in
      let sum = sum_by-insert upload_size key u s.uploads in
      record {
        distinct = insert-IsDistinct key u s.uploads v.distinct;
        total = elim (Option-cases (get key s.uploads)) [
          | inl miss ↦ ground (arith, miss, exact, sum, v.total, remove_absent key s.uploads)
          | inr (w, hit) ↦ ground (
            arith,
            hit,
            exact,
            sum,
            v.total,
            sum_by-remove upload_size key w s.uploads v.distinct hit,
          )
        ];
        bounded = fits;
        digests = λ k w h. ground (arith, h, get-insert k key u s.uploads, v.digests k w);
      }

  -- An upload, accepted or refused at any time, keeps the invariant: the total is the sum of the
  -- sizes and at most 64 MiB, and every upload that is kept has the digest it is kept with.
  pub insert_upload-IsValid :
      (now : ℕ) (upload_id blob sha256 media_type : Bytes) (s : ClipboardUploadStore)
      → IsValid digest s
      → IsValid digest (insert_upload digest now upload_id blob sha256 media_type s).0
  unfolding insert_upload
  insert_upload-IsValid now upload_id blob sha256 media_type s v =
      let w = prune-IsValid now s v in
      let key : UploadKey = (upload_id, media_type) in
      elim (Bool-cases (
        not (length upload_id == 32)
        || length blob == 0
        || ltb max_blob_bytes (length blob)
        || not (is_media_type media_type))) [
          | inl bad ↦ rw (bad, insert_upload) v
          | inr good ↦
              elim (Bool-cases (not (length sha256 == 32) || not (same (digest blob) sha256))) [
                | inl wrong ↦ rw (good, wrong, insert_upload) v
                | inr right ↦
                    elim (Bool-cases (
                      ltb max_total_bytes (
                        saturating_add
                          ((prune now s).total_bytes - previous_bytes key (prune now s))
                          (length blob)))) [
                            | inl full ↦ rw (good, right, full, insert_upload) w
                            | inr room ↦
                                rw (good, right, room, insert_upload)
                                  (store-IsValid now key blob (prune now s) (ground arith)
                                    (ground arith) w)
                          ]
              ]
        ]
