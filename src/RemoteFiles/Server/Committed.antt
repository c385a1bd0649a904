-- ===== src/RemoteFiles/Server/Committed.antt =====
-- When an upload reaches its destination.
use arcrelay_protocol.Prelude.{
  inl, inr, ℕ, ◌≤◌, ◌≡◌, refl, Bool, true, false, Option, none, some, List, [], ◌∷◌, arith, Bytes,
  int_eq, All, All-append, Bool-cases, Option-cases, ℤ,
}
use arcrelay_protocol.RemoteFiles.{RemoteFileEntry, RemoteFileError}
use arcrelay_protocol.RemoteFiles.Responses.{RemoteFileResponse}
use arcrelay_protocol.RemoteFiles.Server.{
  RemoteFileResult, accepted, rejected, RemoteFileUpload, commit_system_upload_call, Effect, called,
  wrote, sent, on_file, FileEffect, opened, created, written, synced, renamed, linked, removed,
  Handled, Transport, write_then,
}
use arcrelay_protocol.RemoteFiles.Server.Upload.{
  UploadIo, Io, IoError, ◌>>=◌, attempt, commit_error, check_trailing, check_unchanged, publish,
  receive, transfer,
}
use arcrelay_protocol.RemoteFiles.Server.Transfers.{Host, conclude, receive_file}

-- The content is on the disk whole: all that was declared was received, written and synced.
pub record IsWhole (io : UploadIo) (size : ℕ) : Type 0 where
  pub received : size ≤ io.available
  pub copied : io.copy ≡ none
  pub flushed : io.flush ≡ none
  pub synced : io.sync_all ≡ none

-- A plain upload that takes its destination, by `overwrite` or by a link that fails if it is there.
pub record MayPublish (io : UploadIo) (u : RemoteFileUpload) (size : ℕ) (overwrite : Bool)
    (destination : Bytes) : Type 0 where
  pub whole : IsWhole io size
  pub wanted : u.overwrite ≡ overwrite
  pub place : destination ≡ u.destination
  pub unchanged : (m : ℤ) → u.expected_modified_at_ms ≡ some m → io.metadata ≡ some m

-- An upload to a system folder that the provider commits.
pub record MayCommit (io : UploadIo) (size : ℕ) : Type 0 where
  pub whole : IsWhole io size
  pub exact : io.available ≡ size

abbrev pub OnFile : UploadIo → RemoteFileUpload → ℕ → FileEffect → Type 0
OnFile io u size (opened path) = Unit
OnFile io u size (created path) = Unit
OnFile io u size (written path count) = Unit
OnFile io u size (synced path) = Unit
OnFile io u size (renamed temporary destination) = MayPublish io u size true destination
OnFile io u size (linked temporary destination) = MayPublish io u size false destination
OnFile io u size (removed path) = Unit

abbrev pub IsSound : UploadIo → RemoteFileUpload → ℕ → Effect → Type 0
IsSound io u size (called call) = MayCommit io size
IsSound io u size (wrote response) = Unit
IsSound io u size (sent count) = Unit
IsSound io u size (on_file effect) = OnFile io u size effect

module _ (io : UploadIo) (u : RemoteFileUpload) (size : ℕ) where
  abbrev AreSound : List Effect → Type 0
  AreSound = All (IsSound io u size)

  >>=-IsSound :
      {A B : Type 0} (m : Io A) (f : A → Io B)
      → AreSound m.0
      → ((x : A) → m.1 ≡ accepted x → AreSound (f x).0)
      → AreSound (m >>= f).0
  >>=-IsSound (effects, accepted x) f h k = All-append (IsSound io u size) effects _ h (k x refl)
  >>=-IsSound (effects, rejected e) f h k = h

  attempt-IsSound :
      (o : Option IoError) (f : IoError → RemoteFileError) (effect : Effect)
      → IsSound io u size effect
      → AreSound (attempt o f effect).0
  attempt-IsSound none f effect h = (h, tt)
  attempt-IsSound (some error) f effect h = tt

  receive-IsSound : (system : Bool) (t : Bytes) → AreSound (receive io system size t).0
  unfolding receive check_trailing
  receive-IsSound system t = ground arith

  receive-IsWhole :
      (system : Bool) (t : Bytes) (x : Unit {0})
      → (receive io system size t).1 ≡ accepted x
      → IsWhole io size × (system ≡ true → io.available ≡ size)
  unfolding receive check_trailing
  receive-IsWhole system t x h = (
    record {
      received = ground (arith, h);
      copied = ground (arith, h);
      flushed = ground (arith, h);
      synced = ground (arith, h);
    },
    λ e. ground (arith, h, e),
  )

  check_unchanged-IsSound : (m : Option ℤ) → AreSound (check_unchanged io m).0
  unfolding check_unchanged
  check_unchanged-IsSound none = tt
  check_unchanged-IsSound (some m) = ground arith

  metadata-check_unchanged :
      (o : Option ℤ) (x : Unit {0})
      → (check_unchanged io o).1 ≡ accepted x
      → (m : ℤ) → o ≡ some m
      → io.metadata ≡ some m
  unfolding check_unchanged
  metadata-check_unchanged o x h m e = ground (arith, h, e)

  publish-IsSound :
      (t : Bytes)
      → IsWhole io size
      → ((m : ℤ) → u.expected_modified_at_ms ≡ some m → io.metadata ≡ some m)
      → AreSound (publish io u t).0
  unfolding publish
  publish-IsSound t w k = elim (Bool-cases u.overwrite) [
    | inl e ↦
        rw (e, All)
          (attempt-IsSound io.rename commit_error (on_file (renamed t u.destination))
            (record { whole = w; wanted = e; place = refl; unchanged = k }))
    | inr e ↦
        rw (e, All)
          (>>=-IsSound (attempt io.hard_link commit_error (on_file (linked t u.destination))) _
            (attempt-IsSound io.hard_link commit_error (on_file (linked t u.destination))
              (record { whole = w; wanted = e; place = refl; unchanged = k }))
            (λ _ _. (tt, tt)))
  ]

  transfer-IsSound :
      (commit : RemoteFileResult (RemoteFileEntry × Bytes)) (share_id path name : Bytes)
      (expected : Option Bytes) (t : Bytes)
      → AreSound (transfer io commit share_id path name expected u size t).0
  unfolding transfer
  transfer-IsSound commit share_id path name (some revision) t =
      >>=-IsSound (receive io true size t) _ (receive-IsSound true t) (λ x h.
        let (w, exact) = receive-IsWhole true t x h in
        >>=-IsSound (called (commit_system_upload_call share_id path name t revision) ∷ [], commit)
          _ (record { whole = w; exact = exact refl }, tt) (λ _ _. tt))
  transfer-IsSound commit share_id path name none t =
      >>=-IsSound (receive io false size t) _ (receive-IsSound false t) (λ x h.
        >>=-IsSound (check_unchanged io u.expected_modified_at_ms) _
          (check_unchanged-IsSound u.expected_modified_at_ms)
          (λ y k.
            >>=-IsSound (publish io u t) _
              (publish-IsSound t (receive-IsWhole false t x h).0
                (metadata-check_unchanged u.expected_modified_at_ms y k))
              (λ _ _. tt)))

  write_then-IsSound :
      (t : Transport) (r : RemoteFileResponse) (next : Handled)
      → AreSound next.0
      → AreSound (write_then t r next).0
  unfolding write_then
  write_then-IsSound t r next h = ground (arith, h)

  conclude-IsSound :
      (host : Host) (t : Bytes) (m : Io (Option (RemoteFileEntry × Bytes)))
      → AreSound m.0
      → AreSound (conclude host u t m).0
  unfolding conclude
  conclude-IsSound host t (effects, accepted (some (entry, revision))) h =
      All-append (IsSound io u size) effects _ h (write_then-IsSound host.transport _ _ tt)
  conclude-IsSound host t (effects, accepted none) h =
      All-append (IsSound io u size) effects _ h (write_then-IsSound host.transport _ _ tt)
  conclude-IsSound host t (effects, rejected error) h =
      All-append (IsSound io u size) effects _ h (tt, write_then-IsSound host.transport _ _ tt)

-- However the client, the files and the provider behave, an upload takes its destination only after
-- all that was declared has been received, written and synced. It replaces what is there only if it
-- may overwrite, and else takes the place by a link; if a time of change is expected, the
-- destination has it. The provider commits only if the client sent exactly what it declared.
pub receive_file-IsSound :
    (host : Host) (share_id path name : Bytes) (size : ℕ) (expected : Option Bytes)
    (u : RemoteFileUpload)
    → All (IsSound host.upload_io u size) (receive_file host share_id path name size expected u).0
unfolding receive_file
receive_file-IsSound host share_id path name size expected u =
    let io = host.upload_io in
    write_then-IsSound io u size host.transport _ _ (elim (Option-cases (io.parent u.destination)) [
      | inl orphan ↦ rw (orphan, All) tt
      | inr (parent, e) ↦
          rw (e, All)
            (conclude-IsSound io u size host _ _ (
              transfer-IsSound io u size host.provider.commit_system_upload share_id path name
                expected (io.temporary_in parent)))
    ])
