-- ===== src/Authorization/Examples.antt =====
-- A session that may control media, and one that may read the clipboard and its blobs.
use arcrelay_protocol.Prelude.{
  ◌≡◌, refl, true, false, none, some, [], ◌∷◌, arith, leb, if◌then◌else◌, Bytes, bytes, length,
  drop, Bool,
}
use arcrelay_protocol.Status.{ok_status}
use arcrelay_protocol.Commands.{response}
use arcrelay_protocol.SyncRecord.{ClipboardContentKind, ClipboardSyncChangeKind}
use arcrelay_protocol.BlobStore.Examples as Blob
use arcrelay_protocol.BlobStreams.Downloads.{delivered}
use arcrelay_protocol.Authorization.{
  Feature, media, clipboard, CapabilityId, media_control, clipboard_read, Grants, require_feature,
  require_capability, require_any_capability,
}
use arcrelay_protocol.Authorization.Command.{
  Command, Externals, set_system_volume, validate_command, command_access, authorize_command,
}
use arcrelay_protocol.Authorization.Blobs.{
  get_blob, blob_refused, ticket_frame, may_use_blobs, get_blob_lem,
}
use arcrelay_protocol.Authorization.ReadOnly.{MayChange, authorize_command-MayChange}
use arcrelay_protocol.Authorization.Needs.{Needs}
use arcrelay_protocol.Authorization.Decisions.{Decided, authorize_command-Decided}

abbrev externals : Externals
externals = record {
  is_playback_action = λ n. true;
  kind_of = λ n. ClipboardContentKind.text;
  change_of = λ n. ClipboardSyncChangeKind.change 1;
  max_collection_bytes = 100;
  is_collection = λ text. true;
}

abbrev token : CapabilityId → Bytes
token c = bytes "media.control"

abbrev is_media : Feature → Bool
is_media media = true
is_media _ = false

abbrev is_clipboard : Feature → Bool
is_clipboard clipboard = true
is_clipboard Feature.blobs = true
is_clipboard _ = false

abbrev is_media_control : CapabilityId → Bool
is_media_control media_control = true
is_media_control _ = false

abbrev is_clipboard_read : CapabilityId → Bool
is_clipboard_read clipboard_read = true
is_clipboard_read _ = false

abbrev player : Grants
player = record { features = is_media; capabilities = is_media_control }

abbrev reader : Grants
reader = record { features = is_clipboard; capabilities = is_clipboard_read }

volume_accepted : authorize_command token externals 0 7 (some (set_system_volume 100)) player ≡ none
unfolding authorize_command validate_command command_access require_feature require_capability
volume_accepted = refl

authorize_command-MayChange_example :
    (c : Command) × (some (set_system_volume 100) ≡ some c)
    × (player.features (command_access c).0 ≡ true)
    × MayChange player
authorize_command-MayChange_example =
    authorize_command-MayChange token externals 0 7 (some (set_system_volume 100)) player
      volume_accepted

authorize_command-Decided_example :
    Decided
      (Needs (set_system_volume 101))
      (validate_command externals 0 (some (set_system_volume 101)))
      player
      7
      (authorize_command token externals 0 7 (some (set_system_volume 101)) player)
authorize_command-Decided_example =
    authorize_command-Decided token externals 0 7 (some (set_system_volume 101)) player

ticket_comes :
    get_blob [] 200 (9 ∷ []) (bytes "secret" ∷ []) Blob.phone 7 [] Blob.content reader Blob.one_blob
    ≡ some (
      Blob.ticketed,
      response (record { request_id = 7; status = some ok_status; body = some Blob.ticket }),
    )
unfolding get_blob blob_refused require_feature require_any_capability ticket_frame
ticket_comes = ground (arith, Blob.issues_it)

get_blob_lem_example :
    (reader.features Feature.blobs ≡ true)
    × (may_use_blobs reader ≡ true)
    × (length Blob.content ≡ 32)
    × (content : Bytes) × (content ≡ Blob.content)
    × ((delivered 16 [] 30199 Blob.phone
          (record { transfer_id = 9; ticket = bytes "secret"; offset = 16 })
          Blob.ticketed)
        ≡ (if leb 16 (length content) then some (drop 16 content) else none))
get_blob_lem_example =
    get_blob_lem Blob.digest 16 200 30199 16 7 [] (9 ∷ []) (bytes "secret" ∷ []) Blob.phone []
      Blob.content reader Blob.one_blob Blob.ticketed Blob.ticket (omega arith)
      Blob.one_blob-IsValid ticket_comes (omega arith)
