-- ===== src/RemoteFiles/Server/Receiving.antt =====
-- Receiving an upload makes no calls of the provider but those that commit it.
use arcrelay_protocol.Prelude.{
  inl, inr, ℕ, ◌≡◌, refl, Bool, true, false, Option, none, some, List, [], ◌∷◌, arith, Bytes,
  bytes_eq, nat_eq, int_eq, All, All-append, ℤ, Option-cases,
}
use arcrelay_protocol.RemoteFiles.{RemoteFileAccess, RemoteFileEntry, RemoteFileError}
use arcrelay_protocol.RemoteFiles.Responses.{RemoteFileResponse}
use arcrelay_protocol.RemoteFiles.Server.{
  RemoteFileResult, accepted, rejected, RemoteFileUpload, Call, commit_system_upload_call, Effect,
  called, Handled, Transport, write_then,
}
use arcrelay_protocol.RemoteFiles.Server.Upload.{
  UploadIo, IoError, Io, ◌>>=◌, attempt, check_trailing, check_unchanged, publish, receive,
  transfer,
}
use arcrelay_protocol.RemoteFiles.Server.Transfers.{Host, answer, guarded, conclude, receive_file}
use arcrelay_protocol.RemoteFiles.Server.Rights.{MayCall, IsPermitted}

module _ (a : RemoteFileAccess) where
  abbrev pub ArePermitted : List Effect → Type 0
  ArePermitted = All (IsPermitted a)

  pub write_then-IsPermitted :
      (t : Transport) (r : RemoteFileResponse) (next : Handled)
      → ArePermitted next.0
      → ArePermitted (write_then t r next).0
  unfolding write_then
  write_then-IsPermitted t r next h = ground (arith, h)

  pub guarded-IsPermitted :
      {A : Type 0} (host : Host) (allowed : Bool) (r : RemoteFileResponse) (c : Call)
      (result : RemoteFileResult A) (f : A → RemoteFileResponse)
      → (allowed ≡ true → MayCall a c)
      → ArePermitted (guarded host allowed r c result f).0
  unfolding guarded
  guarded-IsPermitted host true r c result f h =
      (h refl, write_then-IsPermitted host.transport (answer result f) _ tt)
  guarded-IsPermitted host false r c result f h = write_then-IsPermitted host.transport r _ tt

  >>=-IsPermitted :
      {A B : Type 0} (m : Io A) (f : A → Io B)
      → ArePermitted m.0
      → ((x : A) → ArePermitted (f x).0)
      → ArePermitted (m >>= f).0
  >>=-IsPermitted (effects, accepted x) f h k = All-append (IsPermitted a) effects _ h (k x)
  >>=-IsPermitted (effects, rejected e) f h k = h

  attempt-IsPermitted :
      (o : Option IoError) (f : IoError → RemoteFileError) (effect : Effect)
      → IsPermitted a effect
      → ArePermitted (attempt o f effect).0
  attempt-IsPermitted none f effect h = (h, tt)
  attempt-IsPermitted (some error) f effect h = tt

  receive-IsPermitted :
      (io : UploadIo) (system : Bool) (size : ℕ) (t : Bytes)
      → ArePermitted (receive io system size t).0
  unfolding receive check_trailing
  receive-IsPermitted io system size t = ground arith

  check_unchanged-IsPermitted :
      (io : UploadIo) (m : Option ℤ) → ArePermitted (check_unchanged io m).0
  unfolding check_unchanged
  check_unchanged-IsPermitted io none = tt
  check_unchanged-IsPermitted io (some m) = ground arith

  publish-IsPermitted :
      (io : UploadIo) (u : RemoteFileUpload) (t : Bytes) → ArePermitted (publish io u t).0
  unfolding publish
  publish-IsPermitted io u t = ground arith

  transfer-IsPermitted :
      (io : UploadIo) (commit : RemoteFileResult (RemoteFileEntry × Bytes))
      (share_id path name : Bytes) (expected : Option Bytes) (u : RemoteFileUpload) (size : ℕ)
      (t : Bytes)
      → ((revision : Bytes) → MayCall a (commit_system_upload_call share_id path name t revision))
      → ArePermitted (transfer io commit share_id path name expected u size t).0
  unfolding transfer
  transfer-IsPermitted io commit share_id path name (some revision) u size t h =
      >>=-IsPermitted (receive io true size t) _ (receive-IsPermitted io true size t) (λ _.
        >>=-IsPermitted
          (called (commit_system_upload_call share_id path name t revision) ∷ [], commit) _
          (h revision, tt) (λ _. tt))
  transfer-IsPermitted io commit share_id path name none u size t h =
      >>=-IsPermitted (receive io false size t) _ (receive-IsPermitted io false size t) (λ _.
        >>=-IsPermitted (check_unchanged io u.expected_modified_at_ms) _
          (check_unchanged-IsPermitted io u.expected_modified_at_ms)
          (λ _. >>=-IsPermitted (publish io u t) _ (publish-IsPermitted io u t) (λ _. tt)))

  conclude-IsPermitted :
      (host : Host) (u : RemoteFileUpload) (t : Bytes) (m : Io (Option (RemoteFileEntry × Bytes)))
      → ArePermitted m.0
      → ArePermitted (conclude host u t m).0
  unfolding conclude
  conclude-IsPermitted host u t (effects, accepted (some (entry, revision))) h =
      All-append (IsPermitted a) effects _ h (write_then-IsPermitted host.transport _ _ tt)
  conclude-IsPermitted host u t (effects, accepted none) h =
      All-append (IsPermitted a) effects _ h (write_then-IsPermitted host.transport _ _ tt)
  conclude-IsPermitted host u t (effects, rejected error) h =
      All-append (IsPermitted a) effects _ h (tt, write_then-IsPermitted host.transport _ _ tt)

  pub receive_file-IsPermitted :
      (host : Host) (share_id path name : Bytes) (size : ℕ) (expected : Option Bytes)
      (u : RemoteFileUpload)
      → ((t revision : Bytes) → MayCall a (commit_system_upload_call share_id path name t revision))
      → ArePermitted (receive_file host share_id path name size expected u).0
  unfolding receive_file
  receive_file-IsPermitted host share_id path name size expected u h =
      write_then-IsPermitted host.transport _ _
        (elim (Option-cases (host.upload_io.parent u.destination)) [
          | inl none' ↦ rw (none', All) tt
          | inr (parent, e) ↦
              rw (e, All)
                (conclude-IsPermitted host u _ _ (
                  transfer-IsPermitted host.upload_io host.provider.commit_system_upload share_id
                    path name expected u size (host.upload_io.temporary_in parent) (h _)))
        ])
