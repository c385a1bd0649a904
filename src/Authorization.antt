-- ===== src/Authorization.antt =====
-- src/server/proto_handler/requests/control.rs: what a session may ask for, by the features that were
-- negotiated and the capabilities that the device was granted.
pub mod Query
pub mod Command
pub mod Blobs
pub mod ReadOnly
pub mod Needs
pub mod Refusals
pub mod Decisions
mod Examples
use arcrelay_protocol.Prelude.{
  ℕ, Bool, true, false, not, ◌&&◌, ◌||◌, Option, none, some, List, [], ◌∷◌, ◌++◌, any, leb, ◌==◌,
  if◌then◌else◌, Bytes, bytes, length, trim, has_control,
}
use arcrelay_protocol.Status.{ErrorCode, permission_denied, unsupported}
use arcrelay_protocol.Commands.{RequestRejection}

-- The features and capabilities that these checks name.
pub data Feature : Type 0 where
  system processes media clipboard windows actions notifications clipboard_sync blobs : Feature

pub data CapabilityId : Type 0 where
  system_read process_read process_manage media_read media_control clipboard_read clipboard_write :
      CapabilityId
  clipboard_sync window_read window_control action_read action_execute notification_read :
      CapabilityId
  notification_acknowledge remote_input_inject : CapabilityId

-- The sets `features` and `capabilities` of a session.
pub record Grants : Type 0 where
  pub features : Feature → Bool
  pub capabilities : CapabilityId → Bool

-- `{:?}` of a feature.
abbrev pub feature_name : Feature → Bytes
feature_name system = bytes "System"
feature_name processes = bytes "Processes"
feature_name media = bytes "Media"
feature_name clipboard = bytes "Clipboard"
feature_name windows = bytes "Windows"
feature_name actions = bytes "Actions"
feature_name notifications = bytes "Notifications"
feature_name clipboard_sync = bytes "ClipboardSync"
feature_name blobs = bytes "Blobs"

unfoldable pub reject : ℕ → ErrorCode → Bytes → Option RequestRejection
reject request_id code message =
    some (record { request_id = request_id; code = code; message = message })

-- `none` is `Ok(())`; `first?; then` runs the second check if the first one passes.
abbrev pub and_then : Option RequestRejection → Option RequestRejection → Option RequestRejection
and_then none next = next
and_then (some rejection) next = some rejection

unfoldable pub require_feature : ℕ → Grants → Feature → Option RequestRejection
unfolding reject
require_feature request_id grants feature =
    if grants.features feature
    then none
    else reject request_id unsupported
        (bytes "feature " ++ feature_name feature ++ bytes " was not negotiated")

module _ (token : CapabilityId → Bytes) where
  unfoldable pub require_capability : ℕ → Grants → CapabilityId → Option RequestRejection
  unfolding reject
  require_capability request_id grants capability =
      if grants.capabilities capability
      then none
      else reject request_id permission_denied
          (bytes "capability " ++ token capability ++ bytes " was not granted")

unfoldable pub require_any_capability : ℕ → Grants → List CapabilityId → Option RequestRejection
unfolding reject
require_any_capability request_id grants required =
    if any grants.capabilities required
    then none
    else reject request_id permission_denied (bytes "required capability was not granted")

unfoldable pub valid_control_identifier : Bytes → Bool
valid_control_identifier value =
    let value' = trim value in
    not (length value' == 0) && leb (length value') 256 && not (has_control value')
