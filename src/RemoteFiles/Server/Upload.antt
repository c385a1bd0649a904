-- ===== src/RemoteFiles/Server/Upload.antt =====
-- src/server/proto_handler/input.rs: the body of an upload, from the temporary file to the commit.
use arcrelay_protocol.Prelude.{
  ℕ, Bool, true, false, not, ◌&&◌, Option, none, some, List, [], ◌∷◌, ◌++◌, ltb, ◌==◌,
  if◌then◌else◌, Bytes, bytes, ℤ, min, same, int_eq,
}
use arcrelay_protocol.RemoteFiles.{
  RemoteFileErrorCode, invalid_argument, permission_denied, not_found, conflict, unavailable,
  RemoteFileError, RemoteFileEntry,
}
use arcrelay_protocol.RemoteFiles.Server.{
  RemoteFileResult, accepted, rejected, RemoteFileUpload, commit_system_upload_call, Effect, called,
  on_file, created, written, synced, renamed, linked, removed,
}

pub data IoErrorKind : Type 0 where
  denied exists other_kind : IoErrorKind

pub record IoError : Type 0 where
  pub kind : IoErrorKind
  pub text : Bytes

-- What the files and the stream answer. `available` is how much the client sends before it ends the
-- stream, and `metadata` the time of the last change of the destination, or `none` if it is not there.
pub record UploadIo : Type 0 where
  pub parent : Bytes → Option Bytes
  pub temporary_in : Bytes → Bytes
  pub create : Option IoError
  pub available : ℕ
  pub copy : Option IoError
  pub trailing : Option Bytes
  pub flush : Option IoError
  pub sync_all : Option IoError
  pub metadata : Option ℤ
  pub rename : Option IoError
  pub hard_link : Option IoError

-- A computation with effects that may fail.
abbrev pub Io : Type 0 → Type 0
Io A = List Effect × RemoteFileResult A

infixl 5 ◌>>=◌ ◌>>◌
abbrev pub ◌>>=◌ : {A B : Type 0} → Io A → (A → Io B) → Io B
(effects, rejected e) >>= f = (effects, rejected e)
(effects, accepted a) >>= f = let (more, result) = f a in (effects ++ more, result)

abbrev pub ◌>>◌ : {A B : Type 0} → Io A → Io B → Io B
m >> k = m >>= λ _. k

abbrev pub return : {A : Type 0} → A → Io A
return a = ([], accepted a)

abbrev pub fail : {A : Type 0} → RemoteFileErrorCode → Bytes → Io A
fail code message = ([], rejected (record { code = code; message = message }))

abbrev pub fail_if : Bool → RemoteFileErrorCode → Bytes → Io (Unit {0})
fail_if true code message = fail code message
fail_if false code message = ([], accepted tt)

-- An operation on a file: its effect, or its error by a message.
abbrev pub attempt : Option IoError → (IoError → RemoteFileError) → Effect → Io (Unit {0})
attempt none to_error effect = (effect ∷ [], accepted tt)
attempt (some error) to_error effect = ([], rejected (to_error error))

abbrev pub check : Option IoError → (IoError → RemoteFileError) → Io (Unit {0})
check none to_error = ([], accepted tt)
check (some error) to_error = ([], rejected (to_error error))

abbrev pub unavailable_error : Bytes → IoError → RemoteFileError
unavailable_error message error = record { code = unavailable; message = message ++ error.text }

unfoldable pub create_error : IoError → RemoteFileError
create_error error = elim error.kind [
  | denied ↦ record {
    code = permission_denied;
    message =
        bytes
          "upload failed: target directory is read-only or the current user lacks write permission";
  }
  | exists ↦ unavailable_error (bytes "failed to create upload file: ") error
  | other_kind ↦ unavailable_error (bytes "failed to create upload file: ") error
]

unfoldable pub commit_error : IoError → RemoteFileError
commit_error error = record {
  code = elim error.kind [ denied ↦ unavailable | exists ↦ conflict | other_kind ↦ unavailable ];
  message = bytes "failed to commit uploaded file: " ++ error.text;
}

-- The `read` past the declared size, which is made for a system folder only.
unfoldable pub check_trailing : UploadIo → Bool → ℕ → ℕ → Io (Unit {0})
check_trailing io system received size =
    if system && received == size
    then elim io.trailing [
      | some message ↦ fail unavailable message
      | none ↦
          fail_if (ltb size io.available) invalid_argument
            (bytes "upload exceeds its declared size")
    ]
    else return tt

unfoldable pub check_unchanged : UploadIo → Option ℤ → Io (Unit {0})
check_unchanged io none = return tt
check_unchanged io (some expected) = elim io.metadata [
  | none ↦ fail not_found (bytes "the remote file was deleted; the local edited copy was retained")
  | some actual ↦
      fail_if (not (same actual expected)) conflict
        (bytes "the remote file was modified elsewhere; the local edited copy was retained")
]

-- `rename` if the upload may overwrite, and else a link that fails if the destination is there.
unfoldable pub publish : UploadIo → RemoteFileUpload → Bytes → Io (Unit {0})
unfolding commit_error
publish io upload temporary =
    if upload.overwrite
    then attempt io.rename commit_error (on_file (renamed temporary upload.destination))
    else do
      attempt io.hard_link commit_error (on_file (linked temporary upload.destination))
      (on_file (removed temporary) ∷ [], accepted tt)

-- The numbers in the last message are left out.
unfoldable pub receive : UploadIo → Bool → ℕ → Bytes → Io (Unit {0})
unfolding create_error check_trailing
receive io system size temporary =
    let received = min size io.available in
    do
      attempt io.create create_error (on_file (created temporary))
      attempt io.copy (unavailable_error (bytes "upload stream failed: "))
          (on_file (written temporary received))
      check_trailing io system received size
      check io.flush (unavailable_error (bytes "failed to flush upload: "))
      attempt io.sync_all (unavailable_error (bytes "failed to synchronize upload: "))
          (on_file (synced temporary))
      fail_if (not (received == size)) unavailable (bytes "upload ended early: expected bytes")

-- What is committed, if the upload is one to a system folder; `none` is a plain upload.
unfoldable pub transfer :
    UploadIo
    → RemoteFileResult (RemoteFileEntry × Bytes)
    → (share_id relative_path name : Bytes) → Option Bytes
    → RemoteFileUpload
    → ℕ
    → Bytes
    → Io (Option (RemoteFileEntry × Bytes))
unfolding receive check_unchanged publish
transfer io commit share_id relative_path name (some expected) upload size temporary = do
  receive io true size temporary
  committed ← (
    called (commit_system_upload_call share_id relative_path name temporary expected) ∷ [],
    commit,
  )
  return (some committed)
transfer io commit share_id relative_path name none upload size temporary = do
  receive io false size temporary
  check_unchanged io upload.expected_modified_at_ms
  publish io upload temporary
  return none
