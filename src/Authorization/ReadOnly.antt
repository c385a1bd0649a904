-- ===== src/Authorization/ReadOnly.antt =====
-- What a session with capabilities to read only may ask for.
use arcrelay_protocol.Prelude.{
  inl, inr, ℕ, ◌≡◌, refl, arith, Bool, true, false, Option, none, some, Bytes, Option-cases,
}
use arcrelay_protocol.Authorization.{
  Feature, CapabilityId, system_read, process_read, process_manage, media_read, media_control,
  clipboard_read, clipboard_write, window_read, window_control, action_read, action_execute,
  notification_read, notification_acknowledge, remote_input_inject, Grants, reject, and_then,
  require_feature, require_capability,
}
use arcrelay_protocol.Authorization.Command.{
  Command, Externals, validate_command, command_access, authorize_paste, authorize_other,
  authorize_command, paste_clipboard_record, set_dnd,
}

-- A capability that lets a device change something on the host.
unfoldable pub changes : CapabilityId → Bool
changes system_read = false
changes process_read = false
changes media_read = false
changes clipboard_read = false
changes window_read = false
changes action_read = false
changes notification_read = false
changes process_manage = true
changes media_control = true
changes clipboard_write = true
changes CapabilityId.clipboard_sync = true
changes window_control = true
changes action_execute = true
changes notification_acknowledge = true
changes remote_input_inject = true

-- One of the granted capabilities changes something.
pub MayChange : Grants → Type 0
MayChange grants = (c : CapabilityId) × (grants.capabilities c ≡ true) × (changes c ≡ true)

command_changes : (command : Command) → changes (command_access command).1 ≡ true
unfolding changes command_access
command_changes set_dnd = refl
command_changes _ = refl

module _ (token : CapabilityId → Bytes) where
  both_pass :
      (request_id : ℕ) (grants : Grants) (f : Feature) (c : CapabilityId)
      → and_then
          (require_feature request_id grants f)
          (require_capability token request_id grants c)
        ≡ none
      → (grants.features f ≡ true) × (grants.capabilities c ≡ true)
  unfolding require_feature require_capability reject
  both_pass request_id grants f c h = (ground (arith, h), ground (arith, h))

  pub paste_passes :
      (request_id : ℕ) (grants : Grants)
      → authorize_paste token request_id grants ≡ none
      → (grants.features Feature.clipboard ≡ true)
        × (grants.capabilities clipboard_read ≡ true)
        × (grants.capabilities clipboard_write ≡ true)
        × (grants.capabilities remote_input_inject ≡ true)
  unfolding authorize_paste require_feature require_capability reject
  paste_passes request_id grants h =
      (ground (arith, h), ground (arith, h), ground (arith, h), ground (arith, h))

  pub other_passes :
      (request_id : ℕ) (command : Command) (grants : Grants)
      → authorize_other token request_id command grants ≡ none
      → (grants.features (command_access command).0 ≡ true)
        × (grants.capabilities (command_access command).1 ≡ true)
  unfolding authorize_other
  other_passes request_id command grants h =
      both_pass request_id grants (command_access command).0 (command_access command).1 h

  -- What an accepted command has passed.
  pub accepted_command :
      (ext : Externals) (now request_id : ℕ) (command : Command) (grants : Grants)
      → authorize_command token ext now request_id (some command) grants ≡ none
      → (validate_command ext now (some command) ≡ none)
        × (grants.features (command_access command).0 ≡ true)
        × (grants.capabilities (command_access command).1 ≡ true)
  unfolding authorize_command reject command_access
  accepted_command ext now request_id (paste_clipboard_record id) grants h =
      elim (Option-cases (validate_command ext now (some (paste_clipboard_record id)))) [
        | inr (m, bad) ↦ absurd (ground (arith, bad, h))
        | inl valid ↦
            let (f, _, c, _) = paste_passes request_id grants (ground (arith, valid, h)) in
            (valid, f, c)
      ]
  accepted_command ext now request_id command grants h =
      elim (Option-cases (validate_command ext now (some command))) [
        | inr (m, bad) ↦ absurd (ground (arith, bad, h))
        | inl valid ↦
            let (f, c) = other_passes request_id command grants (ground (arith, valid, h)) in
            (valid, f, c)
      ]

  -- A command is accepted only if its feature was negotiated and the device holds a capability that
  -- lets it change something.
  pub authorize_command-MayChange :
      (ext : Externals) (now request_id : ℕ) (command : Option Command) (grants : Grants)
      → authorize_command token ext now request_id command grants ≡ none
      → (c : Command) × (command ≡ some c)
        × (grants.features (command_access c).0 ≡ true)
        × MayChange grants
  unfolding authorize_command reject MayChange
  authorize_command-MayChange ext now request_id none grants h =
      elim (Option-cases (validate_command ext now none)) [
        | inr (m, bad) ↦ absurd (ground (arith, bad, h))
        | inl valid ↦ absurd (ground (arith, valid, h))
      ]
  authorize_command-MayChange ext now request_id (some c) grants h =
      let (valid, f, held) = accepted_command ext now request_id c grants h in
      (c, refl, f, ((command_access c).1, held, command_changes c))
