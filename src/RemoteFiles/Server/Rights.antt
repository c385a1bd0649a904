-- ===== src/RemoteFiles/Server/Rights.antt =====
-- What each call of the provider takes, and where it reaches.
use arcrelay_protocol.Prelude.{
  ◌⊎◌, ◌≡◌, Bool, true, List, [], ◌∷◌, ◌++◌, Bytes, bytes_eq, nat_eq, int_eq, All,
}
use arcrelay_protocol.RemoteFiles.{RemoteFileAccess, can_read, can_write, can_list_shares}
use arcrelay_protocol.RemoteFiles.Confined.{IsConfined, components, beside}
use arcrelay_protocol.RemoteFiles.Server.{
  Call, watch_changes_call, stat_call, move_call, conditional_delete_call, read_range_call,
  list_shares_call, list_directory_call, create_directory_call, rename_call, delete_call,
  prepare_download_call, prepare_thumbnail_call, prepare_upload_call, commit_system_upload_call,
  Effect, called, wrote, sent, on_file,
}

-- What a call of the provider takes.
pub data Right : Type 0 where
  to_list : Right
  to_read to_write : (share_id : Bytes) → Right

unfoldable pub right_of : Call → Right
right_of (watch_changes_call share_id epoch after_sequence) = to_read share_id
right_of (stat_call share_id path) = to_read share_id
right_of (move_call share_id path destination overwrite expected_revision) = to_write share_id
right_of (conditional_delete_call share_id path expected_revision recursive) = to_write share_id
right_of (read_range_call share_id path offset length' revision) = to_read share_id
right_of list_shares_call = to_list
right_of (list_directory_call share_id path cursor limit wanted key direction) = to_read share_id
right_of (create_directory_call share_id path name) = to_write share_id
right_of (rename_call share_id path new_name) = to_write share_id
right_of (delete_call share_id path) = to_write share_id
right_of (prepare_download_call share_id path) = to_read share_id
right_of (prepare_thumbnail_call share_id path max_dimension) = to_read share_id
right_of (prepare_upload_call share_id path name size overwrite modified) = to_write share_id
right_of (commit_system_upload_call share_id path name temporary expected) = to_write share_id

unfoldable pub holds : RemoteFileAccess → Right → Bool
holds access to_list = can_list_shares access
holds access (to_read share_id) = can_read access share_id
holds access (to_write share_id) = can_write access share_id

-- The places in the share that a call reads or changes.
unfoldable pub places : Call → List (List Bytes)
places (watch_changes_call share_id epoch after_sequence) = []
places (stat_call share_id path) = components path ∷ []
places (move_call share_id path destination overwrite expected_revision) =
    components path ∷ components destination ∷ []
places (conditional_delete_call share_id path expected_revision recursive) = components path ∷ []
places (read_range_call share_id path offset length' revision) = components path ∷ []
places list_shares_call = []
places (list_directory_call share_id path cursor limit wanted key direction) = components path ∷ []
places (create_directory_call share_id path name) = (components path ++ name ∷ []) ∷ []
places (rename_call share_id path new_name) =
    components path ∷ beside (components path) new_name ∷ []
places (delete_call share_id path) = components path ∷ []
places (prepare_download_call share_id path) = components path ∷ []
places (prepare_thumbnail_call share_id path max_dimension) = components path ∷ []
places (prepare_upload_call share_id path name size overwrite modified) =
    (components path ++ name ∷ []) ∷ []
places (commit_system_upload_call share_id path name temporary expected) =
    (components path ++ name ∷ []) ∷ []

-- The one call that reaches out of the share: a new name for its root.
pub data IsRootRename : Call → Type 0 where
  root_rename : (share_id new_name : Bytes) → IsRootRename (rename_call share_id [] new_name)

-- A call that the access of the device gives the right to, at places that are the root of the share or
-- below it, if it does not rename the root.
pub record MayCall (access : RemoteFileAccess) (call : Call) : Type 0 where
  pub right : holds access (right_of call) ≡ true
  pub confined : IsRootRename call ⊎ All IsConfined (places call)

abbrev pub IsPermitted : RemoteFileAccess → Effect → Type 0
IsPermitted access (called call) = MayCall access call
IsPermitted access (wrote response) = Unit
IsPermitted access (sent count) = Unit
IsPermitted access (on_file effect) = Unit
