-- ===== src/Authorization/Query.antt =====
-- `validate_query` and `authorize_query`. A query has the fields that are checked; `sort_by` and the
-- kinds are numbers of generated enums.
use arcrelay_protocol.Prelude.{
  ℕ, Bool, true, false, not, ◌||◌, Option, none, some, List, any, ltb, ◌==◌, if◌then◌else◌, Bytes,
  bytes, length, has_control, is_some_and,
}
use arcrelay_protocol.Prelude.Int.{ℤ}
use arcrelay_protocol.Status.{invalid_argument}
use arcrelay_protocol.Commands.{RequestRejection}
use arcrelay_protocol.Authorization.{
  Feature, system, processes, media, clipboard, windows, actions, notifications, CapabilityId,
  system_read, process_read, media_read, clipboard_read, window_read, action_read,
  notification_read, Grants, reject, and_then, require_feature, require_capability,
  valid_control_identifier,
}

pub record GetClipboard : Type 0 where
  pub history_limit : ℕ
  pub search : Bytes
  pub cursor_timestamp_ms : Option ℤ
  pub cursor_id : Option ℕ
  pub kinds : List ℤ

pub data Query : Type 0 where
  get_system get_media get_devices list_windows list_actions : Query
  list_processes : (sort_by : ℤ) → Query
  get_clipboard : GetClipboard → Query
  get_action_output : (action_id : Bytes) → Query
  get_notifications : (limit : ℕ) → Query
  get_clipboard_collections : (after_id : Bytes) → Query
  get_clipboard_sync : (limit : ℕ) → Query

abbrev pub max_clipboard_items : ℕ
max_clipboard_items = 200

abbrev is_some {ℓ} : {A : Type ℓ} → Option A → Bool
is_some none = false
is_some (some a) = true

abbrev same_bool : Bool → Bool → Bool
same_bool true b = b
same_bool false b = not b

-- Which numbers are values of an enum, other than its `Unspecified`.
pub record QueryNumbers : Type 0 where
  pub is_process_sort : ℤ → Bool
  pub is_content_kind : ℤ → Bool

-- `none` is `Ok(())`.
unfoldable pub validate_clipboard_query : QueryNumbers → GetClipboard → Option Bytes
validate_clipboard_query numbers request =
    if ltb max_clipboard_items request.history_limit
    then some (bytes "clipboard history limit must not exceed 200")
    else if ltb 512 (length request.search) || has_control request.search
    then some (bytes "invalid clipboard search query")
    else if not (same_bool (is_some request.cursor_timestamp_ms) (is_some request.cursor_id))
        || is_some_and request.cursor_id (λ id. id == 0)
    then some (bytes "clipboard cursor is incomplete")
    else if any (λ kind. not (numbers.is_content_kind kind)) request.kinds
    then some (bytes "invalid clipboard content kind")
    else none

unfoldable pub validate_query : QueryNumbers → Option Query → Option Bytes
unfolding validate_clipboard_query
validate_query numbers none = some (bytes "empty query")
validate_query numbers (some (list_processes sort_by)) =
    if numbers.is_process_sort sort_by then none else some (bytes "invalid process sort order")
validate_query numbers (some (get_clipboard request)) = validate_clipboard_query numbers request
validate_query numbers (some (get_action_output action_id)) =
    if valid_control_identifier action_id then none else some (bytes "invalid quick action id")
validate_query numbers (some (get_notifications limit)) =
    if ltb 100 limit then some (bytes "notification limit must not exceed 100") else none
validate_query numbers (some (get_clipboard_collections after_id)) =
    if ltb 64 (length after_id) then some (bytes "invalid collection cursor") else none
validate_query numbers (some (get_clipboard_sync limit)) =
    if ltb 200 limit then some (bytes "clipboard sync page limit must not exceed 200") else none
validate_query numbers (some get_system) = none
validate_query numbers (some get_media) = none
validate_query numbers (some get_devices) = none
validate_query numbers (some list_windows) = none
validate_query numbers (some list_actions) = none

unfoldable pub query_access : Query → Feature × CapabilityId
query_access get_system = (system, system_read)
query_access (list_processes _) = (processes, process_read)
query_access get_media = (media, media_read)
query_access (get_clipboard _) = (clipboard, clipboard_read)
query_access get_devices = (system, system_read)
query_access list_windows = (windows, window_read)
query_access list_actions = (actions, action_read)
query_access (get_action_output _) = (actions, action_read)
query_access (get_notifications _) = (notifications, notification_read)
query_access (get_clipboard_collections _) = (Feature.clipboard_sync, CapabilityId.clipboard_sync)
query_access (get_clipboard_sync _) = (Feature.clipboard_sync, CapabilityId.clipboard_sync)

module _ (token : CapabilityId → Bytes) (numbers : QueryNumbers) where
  unfoldable pub authorize_query : ℕ → Option Query → Grants → Option RequestRejection
  unfolding reject
  authorize_query request_id query grants = elim (validate_query numbers query) [
    | some message ↦ reject request_id invalid_argument message
    | none ↦ elim query [
      | none ↦ reject request_id invalid_argument (bytes "empty query")
      | some body ↦
          let (feature, capability) = query_access body in
          and_then (require_feature request_id grants feature)
            (require_capability token request_id grants capability)
    ]
  ]
