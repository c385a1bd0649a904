-- ===== src/Authorization/Needs.antt =====
-- The feature and the capabilities that each command and each query takes, as a table apart from the code.
use arcrelay_protocol.Prelude.{ℕ, Option, Bytes}
use arcrelay_protocol.Prelude.Int.{ℤ}
use arcrelay_protocol.SyncRecord.{ClipboardSyncRecord}
use arcrelay_protocol.Authorization.{
  Feature, system, processes, media, clipboard, windows, actions, notifications, CapabilityId,
  system_read, process_read, process_manage, media_read, media_control, clipboard_read,
  clipboard_write, window_read, window_control, action_read, action_execute, notification_read,
  notification_acknowledge, remote_input_inject,
}
use arcrelay_protocol.Authorization.Command.{
  Command, ClipboardCollectionRecord, command_access, playback_action, set_system_volume,
  set_app_volume, set_microphone, set_dnd, kill_process, set_clipboard, clear_clipboard_history,
  paste_clipboard_record, delete_clipboard_record, set_clipboard_favorite, set_clipboard_labels,
  create_clipboard_label, update_clipboard_label, delete_clipboard_label, update_clipboard_policy,
  focus_window, switch_space, execute_quick_action, run_automation, set_automation_enabled,
  cancel_automation, mark_notification_read, apply_clipboard_collection,
  apply_clipboard_sync_record,
}
use arcrelay_protocol.Authorization.Query.{
  Query, GetClipboard, query_access, get_system, get_devices, list_processes, get_media,
  get_clipboard, list_windows, list_actions, get_action_output, get_notifications,
  get_clipboard_collections, get_clipboard_sync,
}

-- What each command takes: a feature, and a capability for each thing that it does. A paste reads a
-- record, puts it on the clipboard, and types it.
pub data Needs : Command → Feature → CapabilityId → Type 0 where
  playback_action_needs : (action : ℤ) → Needs (playback_action action) media media_control
  set_system_volume_needs : (volume : ℕ) → Needs (set_system_volume volume) media media_control
  set_app_volume_needs :
      (app_name : Bytes) (volume : ℕ) → Needs (set_app_volume app_name volume) media media_control
  set_microphone_needs : Needs set_microphone media media_control
  set_dnd_needs : Needs set_dnd media media_control
  kill_process_needs : (pid : ℕ) → Needs (kill_process pid) processes process_manage
  set_clipboard_needs : (content : Bytes) → Needs (set_clipboard content) clipboard clipboard_write
  clear_clipboard_history_needs : Needs clear_clipboard_history clipboard clipboard_write
  paste_clipboard_record_needs :
      (record_id : ℕ) → Needs (paste_clipboard_record record_id) clipboard clipboard_write
  delete_clipboard_record_needs :
      (record_id : ℕ) → Needs (delete_clipboard_record record_id) clipboard clipboard_write
  set_clipboard_favorite_needs :
      (record_id : ℕ) → Needs (set_clipboard_favorite record_id) clipboard clipboard_write
  set_clipboard_labels_needs :
      (record_id : ℕ) → Needs (set_clipboard_labels record_id) clipboard clipboard_write
  create_clipboard_label_needs :
      (name : Bytes) → Needs (create_clipboard_label name) clipboard clipboard_write
  update_clipboard_label_needs :
      (label_id name : Bytes)
      → Needs (update_clipboard_label label_id name) clipboard clipboard_write
  delete_clipboard_label_needs :
      (label_id : Bytes) → Needs (delete_clipboard_label label_id) clipboard clipboard_write
  update_clipboard_policy_needs :
      (retention_days : Option ℕ)
      → Needs (update_clipboard_policy retention_days) clipboard clipboard_write
  focus_window_needs : (window_id : ℕ) → Needs (focus_window window_id) windows window_control
  switch_space_needs : (space_id : ℕ) → Needs (switch_space space_id) windows window_control
  execute_quick_action_needs :
      (action_id : Bytes) → Needs (execute_quick_action action_id) actions action_execute
  run_automation_needs :
      (automation_id : Bytes) → Needs (run_automation automation_id) actions action_execute
  set_automation_enabled_needs :
      (automation_id : Bytes) → Needs (set_automation_enabled automation_id) actions action_execute
  cancel_automation_needs :
      (activity_id : Bytes) → Needs (cancel_automation activity_id) actions action_execute
  mark_notification_read_needs :
      (notification_id : Bytes)
      → Needs (mark_notification_read notification_id) notifications notification_acknowledge
  apply_clipboard_collection_needs :
      (r : ClipboardCollectionRecord)
      → Needs (apply_clipboard_collection r) Feature.clipboard_sync CapabilityId.clipboard_sync
  apply_clipboard_sync_record_needs :
      (r : Option ClipboardSyncRecord)
      → Needs (apply_clipboard_sync_record r) Feature.clipboard_sync CapabilityId.clipboard_sync
  paste_reads : (record_id : ℕ) → Needs (paste_clipboard_record record_id) clipboard clipboard_read
  paste_types :
      (record_id : ℕ) → Needs (paste_clipboard_record record_id) clipboard remote_input_inject

pub access-Needs :
    (command : Command) → Needs command (command_access command).0 (command_access command).1
unfolding command_access
access-Needs (playback_action action) = playback_action_needs action
access-Needs (set_system_volume volume) = set_system_volume_needs volume
access-Needs (set_app_volume app_name volume) = set_app_volume_needs app_name volume
access-Needs set_microphone = set_microphone_needs
access-Needs set_dnd = set_dnd_needs
access-Needs (kill_process pid) = kill_process_needs pid
access-Needs (set_clipboard content) = set_clipboard_needs content
access-Needs clear_clipboard_history = clear_clipboard_history_needs
access-Needs (paste_clipboard_record record_id) = paste_clipboard_record_needs record_id
access-Needs (delete_clipboard_record record_id) = delete_clipboard_record_needs record_id
access-Needs (set_clipboard_favorite record_id) = set_clipboard_favorite_needs record_id
access-Needs (set_clipboard_labels record_id) = set_clipboard_labels_needs record_id
access-Needs (create_clipboard_label name) = create_clipboard_label_needs name
access-Needs (update_clipboard_label label_id name) = update_clipboard_label_needs label_id name
access-Needs (delete_clipboard_label label_id) = delete_clipboard_label_needs label_id
access-Needs (update_clipboard_policy retention_days) = update_clipboard_policy_needs retention_days
access-Needs (focus_window window_id) = focus_window_needs window_id
access-Needs (switch_space space_id) = switch_space_needs space_id
access-Needs (execute_quick_action action_id) = execute_quick_action_needs action_id
access-Needs (run_automation automation_id) = run_automation_needs automation_id
access-Needs (set_automation_enabled automation_id) = set_automation_enabled_needs automation_id
access-Needs (cancel_automation activity_id) = cancel_automation_needs activity_id
access-Needs (mark_notification_read notification_id) = mark_notification_read_needs notification_id
access-Needs (apply_clipboard_collection r) = apply_clipboard_collection_needs r
access-Needs (apply_clipboard_sync_record r) = apply_clipboard_sync_record_needs r

-- What each query takes.
pub data QueryNeeds : Query → Feature → CapabilityId → Type 0 where
  get_system_needs : QueryNeeds get_system system system_read
  get_devices_needs : QueryNeeds get_devices system system_read
  list_processes_needs : (sort_by : ℤ) → QueryNeeds (list_processes sort_by) processes process_read
  get_media_needs : QueryNeeds get_media media media_read
  get_clipboard_needs :
      (request : GetClipboard) → QueryNeeds (get_clipboard request) clipboard clipboard_read
  list_windows_needs : QueryNeeds list_windows windows window_read
  list_actions_needs : QueryNeeds list_actions actions action_read
  get_action_output_needs :
      (action_id : Bytes) → QueryNeeds (get_action_output action_id) actions action_read
  get_notifications_needs :
      (limit : ℕ) → QueryNeeds (get_notifications limit) notifications notification_read
  get_clipboard_collections_needs :
      (after_id : Bytes)
      → QueryNeeds
          (get_clipboard_collections after_id)
          Feature.clipboard_sync
          CapabilityId.clipboard_sync
  get_clipboard_sync_needs :
      (limit : ℕ)
      → QueryNeeds (get_clipboard_sync limit) Feature.clipboard_sync CapabilityId.clipboard_sync

pub access-QueryNeeds :
    (query : Query) → QueryNeeds query (query_access query).0 (query_access query).1
unfolding query_access
access-QueryNeeds get_system = get_system_needs
access-QueryNeeds get_devices = get_devices_needs
access-QueryNeeds (list_processes sort_by) = list_processes_needs sort_by
access-QueryNeeds get_media = get_media_needs
access-QueryNeeds (get_clipboard request) = get_clipboard_needs request
access-QueryNeeds list_windows = list_windows_needs
access-QueryNeeds list_actions = list_actions_needs
access-QueryNeeds (get_action_output action_id) = get_action_output_needs action_id
access-QueryNeeds (get_notifications limit) = get_notifications_needs limit
access-QueryNeeds (get_clipboard_collections after_id) = get_clipboard_collections_needs after_id
access-QueryNeeds (get_clipboard_sync limit) = get_clipboard_sync_needs limit
