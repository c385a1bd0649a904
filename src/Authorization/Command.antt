-- ===== src/Authorization/Command.antt =====
-- `validate_command` and `authorize_command`, and `decode` of src/clipboard_replication/collections.rs.
-- A command has the fields that are checked. What other crates decide is a record of parameters: the
-- numbers of generated enums, the largest collection, and whether serde reads a valid one.
use arcrelay_protocol.Prelude.{
  ℕ, Bool, false, not, ◌||◌, Option, none, some, ltb, ◌==◌, if◌then◌else◌, Bytes, bytes, length,
  trim,
}
use arcrelay_protocol.Prelude.Int.{ℤ}
use arcrelay_protocol.Status.{invalid_argument}
use arcrelay_protocol.Commands.{RequestRejection}
use arcrelay_protocol.SyncRecord.{
  ClipboardContentKind, ClipboardSyncChangeKind, ClipboardSyncRecord,
  validate_clipboard_sync_record,
}
use arcrelay_protocol.Authorization.{
  Feature, processes, media, clipboard, windows, actions, notifications, CapabilityId,
  process_manage, media_control, clipboard_read, clipboard_write, window_control, action_execute,
  notification_acknowledge, remote_input_inject, Grants, reject, and_then, require_feature,
  require_capability, valid_control_identifier,
}

pub record ClipboardCollectionRecord : Type 0 where
  pub format_version : ℕ
  pub document_json : Bytes

-- The fields `pid`, `record_id`, `window_id` and `space_id` are unsigned numbers.
pub data Command : Type 0 where
  playback_action : (action : ℤ) → Command
  set_system_volume : (volume : ℕ) → Command
  set_app_volume : (app_name : Bytes) (volume : ℕ) → Command
  set_microphone set_dnd : Command
  kill_process : (pid : ℕ) → Command
  set_clipboard : (content : Bytes) → Command
  clear_clipboard_history : Command
  paste_clipboard_record delete_clipboard_record set_clipboard_favorite set_clipboard_labels :
      (record_id : ℕ) → Command
  create_clipboard_label : (name : Bytes) → Command
  update_clipboard_label : (label_id name : Bytes) → Command
  delete_clipboard_label : (label_id : Bytes) → Command
  update_clipboard_policy : (retention_days : Option ℕ) → Command
  focus_window : (window_id : ℕ) → Command
  switch_space : (space_id : ℕ) → Command
  execute_quick_action : (action_id : Bytes) → Command
  run_automation set_automation_enabled : (automation_id : Bytes) → Command
  cancel_automation : (activity_id : Bytes) → Command
  mark_notification_read : (notification_id : Bytes) → Command
  apply_clipboard_collection : ClipboardCollectionRecord → Command
  apply_clipboard_sync_record : Option ClipboardSyncRecord → Command

pub record Externals : Type 0 where
  pub is_playback_action : ℤ → Bool
  pub kind_of : ℤ → ClipboardContentKind
  pub change_of : ℤ → ClipboardSyncChangeKind
  pub max_collection_bytes : ℕ
  pub is_collection : Bytes → Bool

abbrev pub max_clipboard_text_bytes : ℕ
max_clipboard_text_bytes = 524288

-- `decode(record).is_ok()`
unfoldable pub decodes : Externals → ClipboardCollectionRecord → Bool
decodes ext r =
    if not (r.format_version == 1) || ltb ext.max_collection_bytes (length r.document_json)
    then false
    else ext.is_collection r.document_json

abbrev pub unless : Bool → Bytes → Option Bytes
unless test message = if test then none else some message

abbrev pub non_zero : ℕ → Bytes → Option Bytes
non_zero n message = unless (not (n == 0)) message

abbrev pub record_id_is_zero : Bytes
record_id_is_zero = bytes "clipboard record id must be non-zero"

unfoldable pub validate_command : Externals → ℕ → Option Command → Option Bytes
unfolding decodes
validate_command ext now none = some (bytes "empty command")
validate_command ext now (some (playback_action action)) =
    unless (ext.is_playback_action action) (bytes "invalid playback action")
validate_command ext now (some (set_system_volume volume)) =
    unless (not (ltb 100 volume)) (bytes "system volume must be between 0 and 100")
validate_command ext now (some (set_app_volume app_name volume)) =
    if not (valid_control_identifier app_name)
    then some (bytes "invalid application name")
    else unless (not (ltb 100 volume)) (bytes "application volume must be between 0 and 100")
validate_command ext now (some (kill_process pid)) =
    non_zero pid (bytes "process id must be non-zero")
validate_command ext now (some (set_clipboard content)) =
    unless (not (ltb max_clipboard_text_bytes (length content)))
      (bytes "clipboard content is too large")
validate_command ext now (some (paste_clipboard_record record_id)) =
    non_zero record_id record_id_is_zero
validate_command ext now (some (delete_clipboard_record record_id)) =
    non_zero record_id record_id_is_zero
validate_command ext now (some (set_clipboard_favorite record_id)) =
    non_zero record_id record_id_is_zero
validate_command ext now (some (set_clipboard_labels record_id)) =
    non_zero record_id record_id_is_zero
validate_command ext now (some (create_clipboard_label name)) =
    non_zero (length (trim name)) (bytes "clipboard label name is required")
validate_command ext now (some (update_clipboard_label label_id name)) =
    unless (not (length label_id == 0 || length (trim name) == 0))
      (bytes "clipboard label id and name are required")
validate_command ext now (some (delete_clipboard_label label_id)) =
    non_zero (length label_id) (bytes "clipboard label id is required")
validate_command ext now (some (update_clipboard_policy none)) =
    some (bytes "clipboard policy is required")
validate_command ext now (some (update_clipboard_policy (some retention_days))) =
    unless (not (ltb 3650 retention_days)) (bytes "invalid clipboard retention policy")
validate_command ext now (some (focus_window window_id)) =
    non_zero window_id (bytes "window id must be non-zero")
validate_command ext now (some (switch_space space_id)) =
    non_zero space_id (bytes "space id must be non-zero")
validate_command ext now (some (execute_quick_action action_id)) =
    unless (valid_control_identifier action_id) (bytes "invalid quick action id")
validate_command ext now (some (run_automation automation_id)) =
    unless (valid_control_identifier automation_id) (bytes "invalid automation id")
validate_command ext now (some (set_automation_enabled automation_id)) =
    unless (valid_control_identifier automation_id) (bytes "invalid automation id")
validate_command ext now (some (cancel_automation activity_id)) =
    unless (valid_control_identifier activity_id) (bytes "invalid automation activity id")
validate_command ext now (some (mark_notification_read notification_id)) =
    unless (valid_control_identifier notification_id) (bytes "invalid notification id")
validate_command ext now (some (apply_clipboard_collection r)) =
    unless (decodes ext r) (bytes "invalid collection")
validate_command ext now (some (apply_clipboard_sync_record none)) =
    some (bytes "clipboard sync record is required")
validate_command ext now (some (apply_clipboard_sync_record (some r))) =
    validate_clipboard_sync_record ext.kind_of ext.change_of now r
validate_command ext now (some set_microphone) = none
validate_command ext now (some set_dnd) = none
validate_command ext now (some clear_clipboard_history) = none

unfoldable pub command_access : Command → Feature × CapabilityId
command_access (playback_action _) = (media, media_control)
command_access (set_system_volume _) = (media, media_control)
command_access (set_app_volume _ _) = (media, media_control)
command_access set_microphone = (media, media_control)
command_access set_dnd = (media, media_control)
command_access (kill_process _) = (processes, process_manage)
command_access (set_clipboard _) = (clipboard, clipboard_write)
command_access clear_clipboard_history = (clipboard, clipboard_write)
command_access (paste_clipboard_record _) = (clipboard, clipboard_write)
command_access (delete_clipboard_record _) = (clipboard, clipboard_write)
command_access (set_clipboard_favorite _) = (clipboard, clipboard_write)
command_access (create_clipboard_label _) = (clipboard, clipboard_write)
command_access (update_clipboard_label _ _) = (clipboard, clipboard_write)
command_access (delete_clipboard_label _) = (clipboard, clipboard_write)
command_access (set_clipboard_labels _) = (clipboard, clipboard_write)
command_access (update_clipboard_policy _) = (clipboard, clipboard_write)
command_access (focus_window _) = (windows, window_control)
command_access (switch_space _) = (windows, window_control)
command_access (execute_quick_action _) = (actions, action_execute)
command_access (run_automation _) = (actions, action_execute)
command_access (set_automation_enabled _) = (actions, action_execute)
command_access (cancel_automation _) = (actions, action_execute)
command_access (mark_notification_read _) = (notifications, notification_acknowledge)
command_access (apply_clipboard_collection _) =
    (Feature.clipboard_sync, CapabilityId.clipboard_sync)
command_access (apply_clipboard_sync_record _) =
    (Feature.clipboard_sync, CapabilityId.clipboard_sync)

module _ (token : CapabilityId → Bytes) where
  -- A paste puts the record on the clipboard and types it.
  unfoldable pub authorize_paste : ℕ → Grants → Option RequestRejection
  authorize_paste request_id grants = and_then (require_feature request_id grants clipboard) (
      and_then (require_capability token request_id grants clipboard_read) (
        and_then (require_capability token request_id grants clipboard_write)
          (require_capability token request_id grants remote_input_inject)))

  unfoldable pub authorize_other : ℕ → Command → Grants → Option RequestRejection
  authorize_other request_id command grants =
      let (feature, capability) = command_access command in
      and_then (require_feature request_id grants feature)
        (require_capability token request_id grants capability)

  unfoldable pub authorize_command :
      Externals → ℕ → ℕ → Option Command → Grants → Option RequestRejection
  unfolding reject authorize_paste authorize_other
  authorize_command ext now request_id command grants = elim (validate_command ext now command) [
    | some message ↦ reject request_id invalid_argument message
    | none ↦ elim command [
      | none ↦ reject request_id invalid_argument (bytes "empty command")
      | some (paste_clipboard_record _) ↦ authorize_paste request_id grants
      | some other ↦ authorize_other request_id other grants
    ]
  ]
