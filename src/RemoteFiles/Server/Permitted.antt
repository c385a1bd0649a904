-- ===== src/RemoteFiles/Server/Permitted.antt =====
-- Which calls of the provider a device can cause.
use arcrelay_protocol.Prelude.{
  inl, inr, ◌⊎◌, ℕ, ◌≡◌, refl, Bool, true, false, Option, none, some, List, [], ◌∷◌, ◌++◌, arith,
  ltb, if◌then◌else◌, Bytes, bytes_eq, nat_eq, int_eq, All, Bool-cases, ℤ,
}
use arcrelay_protocol.RemoteFiles.{can_read, can_write, can_list_shares}
use arcrelay_protocol.RemoteFiles.Requests.{
  RemoteFileRequest, list_shares, watch_changes, stat, move_entry, conditional_delete, read_range,
  conditional_upload, list_directory, create_directory, rename, delete, download, thumbnail, upload,
}
use arcrelay_protocol.RemoteFiles.Wire.{CodecResult, ok, err, Prost}
use arcrelay_protocol.RemoteFiles.RequestCodec.{RequestFrame}
use arcrelay_protocol.RemoteFiles.RequestCodec as RequestCodec
use arcrelay_protocol.RemoteFiles.RoundTrip.{request_decoded}
use arcrelay_protocol.RemoteFiles.Confined.{
  IsConfined, components, targets, validate-IsConfined, RenamesRoot, renames_root,
}
use arcrelay_protocol.RemoteFiles.Server.{
  RemoteFileResult, accepted, rejected, RemoteFileThumbnail, RemoteFileDownload, Call,
  watch_changes_call, stat_call, move_call, conditional_delete_call, read_range_call,
  list_shares_call, list_directory_call, create_directory_call, rename_call, delete_call,
  prepare_upload_call, commit_system_upload_call, Effect, called, Ending, Handled, after,
  write_then,
}
use arcrelay_protocol.RemoteFiles.Server.Transfers.{
  Host, no_read, no_write, send_file, send_thumbnail, handle_upload, prepared, page_limit,
}
use arcrelay_protocol.RemoteFiles.Server.Stream.{
  handle_rename, handle_request, handle_remote_file_stream, serve,
}
use arcrelay_protocol.RemoteFiles.Server.Rights.{
  to_write, right_of, holds, places, MayCall, IsPermitted, root_rename,
}
use arcrelay_protocol.RemoteFiles.Server.Receiving.{
  write_then-IsPermitted, guarded-IsPermitted, receive_file-IsPermitted,
}

module _ (host : Host) where
  abbrev ArePermittedHere : List Effect → Type 0
  ArePermittedHere = All (IsPermitted host.access)

  may_write :
      (c : Call) (share_id : Bytes)
      → right_of c ≡ to_write share_id
      → can_write host.access share_id ≡ true
      → All IsConfined (places c)
      → MayCall host.access c
  unfolding holds
  may_write c share_id e h p = record { right = rw e h; confined = inr p }

  prepared-IsPermitted :
      {A : Type 0} (r : RemoteFileResult A) (next : A → Handled)
      → ((x : A) → ArePermittedHere (next x).0)
      → ArePermittedHere (prepared host r next).0
  unfolding prepared
  prepared-IsPermitted (rejected error) next h =
      write_then-IsPermitted host.access host.transport _ _ tt
  prepared-IsPermitted (accepted x) next h = h x

  handle_upload-IsPermitted :
      (share_id path name : Bytes) (size : ℕ) (overwrite : Bool) (modified : Option ℤ)
      (expected : Option Bytes)
      → IsConfined (components path ++ name ∷ [])
      → ArePermittedHere (handle_upload host share_id path name size overwrite modified expected).0
  unfolding handle_upload right_of places
  handle_upload-IsPermitted share_id path name size overwrite modified expected p =
      elim (Bool-cases (can_write host.access share_id)) [
        | inr refused ↦
            rw (refused, All) (write_then-IsPermitted host.access host.transport no_write _ tt)
        | inl allowed ↦ elim (Bool-cases (ltb host.transport.sizes.content size)) [
          | inl large ↦
              rw (allowed, large, All) (write_then-IsPermitted host.access host.transport _ _ tt)
          | inr fits ↦
              rw (allowed, fits, All)
                (
                  may_write (prepare_upload_call share_id path name size overwrite modified)
                      share_id refl allowed (p, tt),
                  prepared-IsPermitted host.provider.prepare_upload _ (λ u.
                      receive_file-IsPermitted host.access host share_id path name size expected u
                        (λ t revision.
                          may_write (commit_system_upload_call share_id path name t revision)
                            share_id refl allowed (p, tt))),
                )
        ]
      ]

  send_file-IsPermitted : (d : RemoteFileDownload) → ArePermittedHere (send_file host d).0
  unfolding send_file write_then
  send_file-IsPermitted d = ground arith

  send_thumbnail-IsPermitted :
      (t : Option RemoteFileThumbnail) → ArePermittedHere (send_thumbnail host t).0
  unfolding send_thumbnail write_then
  send_thumbnail-IsPermitted none = ground arith
  send_thumbnail-IsPermitted (some t) = ground arith

  -- A download or a thumbnail.
  reading-IsPermitted :
      {A : Type 0} (share_id : Bytes) (c : Call) (r : RemoteFileResult A) (next : A → Handled)
      → (can_read host.access share_id ≡ true → MayCall host.access c)
      → ((x : A) → ArePermittedHere (next x).0)
      → ArePermittedHere
          (if can_read host.access share_id
            then after (called c) (prepared host r next)
            else write_then host.transport no_read ([], Ending.finished)).0
  reading-IsPermitted share_id c r next h k = elim (Bool-cases (can_read host.access share_id)) [
    | inl allowed ↦ rw (allowed, All) (h allowed, prepared-IsPermitted r next k)
    | inr refused ↦
        rw (refused, All) (write_then-IsPermitted host.access host.transport no_read _ tt)
  ]

  handle_request-IsPermitted :
      (r : RemoteFileRequest)
      → All IsConfined (targets r)
      → ArePermittedHere (handle_request host r).0
  unfolding handle_request targets right_of places holds
  handle_request-IsPermitted (conditional_upload share_id path name size expected_revision) p =
      handle_upload-IsPermitted share_id path name size _ _ (some expected_revision) p.0
  handle_request-IsPermitted (upload share_id path name size overwrite modified) p =
      handle_upload-IsPermitted share_id path name size _ _ none p.0
  handle_request-IsPermitted (download share_id path) p =
      reading-IsPermitted share_id _ _ _ (λ h. record { right = h; confined = inr p })
        send_file-IsPermitted
  handle_request-IsPermitted (thumbnail share_id path max_dimension) p =
      reading-IsPermitted share_id _ _ _ (λ h. record { right = h; confined = inr p })
        send_thumbnail-IsPermitted
  handle_request-IsPermitted (watch_changes share_id epoch after_sequence) p =
      guarded-IsPermitted host.access host (can_read host.access share_id) no_read
        (watch_changes_call share_id epoch after_sequence) _ _
        (λ h. record { right = h; confined = inr p })
  handle_request-IsPermitted (stat share_id path) p =
      guarded-IsPermitted host.access host (can_read host.access share_id) no_read
        (stat_call share_id path) _ _ (λ h. record { right = h; confined = inr p })
  handle_request-IsPermitted (conditional_delete share_id path expected_revision recursive) p =
      guarded-IsPermitted host.access host (can_write host.access share_id) no_write
        (conditional_delete_call share_id path expected_revision recursive) _ _
        (λ h. record { right = h; confined = inr p })
  handle_request-IsPermitted (move_entry share_id path destination overwrite expected_revision) p =
      guarded-IsPermitted host.access host (can_write host.access share_id) no_write
        (move_call share_id path destination overwrite expected_revision) _ _
        (λ h. record { right = h; confined = inr p })
  handle_request-IsPermitted (read_range share_id path offset length' revision) p =
      guarded-IsPermitted host.access host (can_read host.access share_id) no_read
        (read_range_call share_id path offset length' revision) _ _
        (λ h. record { right = h; confined = inr p })
  handle_request-IsPermitted list_shares p =
      guarded-IsPermitted host.access host (can_list_shares host.access) _ list_shares_call _ _
        (λ h. record { right = h; confined = inr p })
  handle_request-IsPermitted (list_directory share_id path cursor limit wanted key direction) p =
      guarded-IsPermitted host.access host (can_read host.access share_id) no_read
        (list_directory_call share_id path cursor (page_limit limit) wanted key direction) _ _
        (λ h. record { right = h; confined = inr p })
  handle_request-IsPermitted (create_directory share_id path name) p =
      guarded-IsPermitted host.access host (can_write host.access share_id) no_write
        (create_directory_call share_id path name) _ _ (λ h. record { right = h; confined = inr p })
  handle_request-IsPermitted (rename share_id path new_name) p =
      guarded-IsPermitted host.access host (can_write host.access share_id) no_write
        (rename_call share_id path new_name) _ _ (λ h. record { right = h; confined = inr p })
  handle_request-IsPermitted (delete share_id path) p =
      guarded-IsPermitted host.access host (can_write host.access share_id) no_write
        (delete_call share_id path) _ _ (λ h. record { right = h; confined = inr p })

  root_rename-IsPermitted :
      (r : RemoteFileRequest) → RenamesRoot r → ArePermittedHere (handle_request host r).0
  unfolding handle_request handle_rename right_of holds
  root_rename-IsPermitted r (renames_root share_id new_name) =
      guarded-IsPermitted host.access host (can_write host.access share_id) no_write
        (rename_call share_id [] new_name) _ _
        (λ h. record { right = h; confined = inl (root_rename share_id new_name) })

  serve-IsPermitted :
      (served : Bool) (d : CodecResult RemoteFileRequest)
      → ((r : RemoteFileRequest) → d ≡ ok r → RenamesRoot r ⊎ All IsConfined (targets r))
      → ArePermittedHere (serve host served d).0
  unfolding serve
  serve-IsPermitted served (err e) h = tt
  serve-IsPermitted true (ok r) h = elim (h r refl) [
    | inl root ↦ root_rename-IsPermitted r root
    | inr p ↦ handle_request-IsPermitted r p
  ]
  serve-IsPermitted false (ok r) h = write_then-IsPermitted host.access host.transport _ _ tt

  -- Whatever bytes a device sends and whatever the host answers, every call that is made of the
  -- provider is one that the access of the device gives the right to, reading, writing or listing,
  -- at places that are the root of the share or below it, unless it is a rename of the root.
  pub handle_remote_file_stream-IsPermitted :
      (prost : Prost RequestFrame) (served : Bool) (frame : Option Bytes)
      → All (IsPermitted host.access) (handle_remote_file_stream host prost served frame).0
  unfolding handle_remote_file_stream
  handle_remote_file_stream-IsPermitted prost served none = tt
  handle_remote_file_stream-IsPermitted prost served (some content) =
      let t = host.transport in
      serve-IsPermitted served (RequestCodec.decode_wire t.codes t.sizes prost content)
        (λ r e. validate-IsConfined t.sizes r (request_decoded t.codes t.sizes prost r content e))
