-- ===== src/Authorization/Decisions.antt =====
-- What the check of a command decides: it is accepted with everything that it needs, or refused.
use arcrelay_protocol.Prelude.{
  inl, inr, ℕ, ◌≡◌, sym, subst, arith, true, Option, none, some, Bytes, Option-cases,
}
use arcrelay_protocol.Commands.{RequestRejection}
use arcrelay_protocol.Authorization.{Feature, CapabilityId, Grants, reject}
use arcrelay_protocol.Authorization.Command.{
  Command, Externals, validate_command, command_access, authorize_command,
}
use arcrelay_protocol.Authorization.Needs.{
  Needs, paste_clipboard_record_needs, paste_reads, paste_types,
}
use arcrelay_protocol.Authorization.ReadOnly.{paste_passes, other_passes, accepted_command}
use arcrelay_protocol.Authorization.Refusals.{Refused, NeedsOf, authorize_command-Refused}

-- The grants have all the features and capabilities that are needed.
pub HasAll : (Feature → CapabilityId → Type 0) → Grants → Type 0
HasAll needs grants =
    (f : Feature) (c : CapabilityId)
    → needs f c
    → (grants.features f ≡ true) × (grants.capabilities c ≡ true)

pub data Decided (needs : Feature → CapabilityId → Type 0) (fault : Option Bytes) (grants : Grants)
    (request_id : ℕ) : Option RequestRejection → Type 0 where
  accepted : fault ≡ none → HasAll needs grants → Decided needs fault grants request_id none
  refused :
      (r : RequestRejection)
      → Refused needs fault grants r
      → r.request_id ≡ request_id
      → Decided needs fault grants request_id (some r)

module _ (token : CapabilityId → Bytes) where
  accepted-HasAll :
      (ext : Externals) (now request_id : ℕ) (command : Command) (grants : Grants) (f : Feature)
      (c : CapabilityId)
      → Needs command f c
      → validate_command ext now (some command) ≡ none
      → authorize_command token ext now request_id (some command) grants ≡ none
      → (grants.features f ≡ true) × (grants.capabilities c ≡ true)
  unfolding authorize_command command_access
  accepted-HasAll ext now request_id _ grants _ _ (paste_clipboard_record_needs id) valid h =
      let (on, reads, writes, types) =
        paste_passes token request_id grants (ground (arith, valid, h)) in
      (on, writes)
  accepted-HasAll ext now request_id _ grants _ _ (paste_reads id) valid h =
      let (on, reads, writes, types) =
        paste_passes token request_id grants (ground (arith, valid, h)) in
      (on, reads)
  accepted-HasAll ext now request_id _ grants _ _ (paste_types id) valid h =
      let (on, reads, writes, types) =
        paste_passes token request_id grants (ground (arith, valid, h)) in
      (on, types)
  accepted-HasAll ext now request_id command grants _ _ _ valid h =
      other_passes token request_id command grants (ground (arith, valid, h))

  accepted-Decided :
      (ext : Externals) (now request_id : ℕ) (command : Option Command) (grants : Grants)
      → authorize_command token ext now request_id command grants ≡ none
      → Decided (NeedsOf command) (validate_command ext now command) grants request_id none
  unfolding authorize_command validate_command reject HasAll
  accepted-Decided ext now request_id none grants h = absurd (ground (arith, h))
  accepted-Decided ext now request_id (some command) grants h =
      let (valid, _, _) = accepted_command token ext now request_id command grants h in
      accepted valid
        (λ f c need. accepted-HasAll ext now request_id command grants f c need valid h)

  -- A command is accepted only if it is valid, all features that it needs were negotiated and all
  -- capabilities that it needs were granted. Otherwise the refusal has the request's id, and its code
  -- tells whether the command is invalid, with the text of its check, or is valid and needs a feature
  -- that was not negotiated, or is valid and needs a capability that was not granted.
  pub authorize_command-Decided :
      (ext : Externals) (now request_id : ℕ) (command : Option Command) (grants : Grants)
      → Decided
          (NeedsOf command)
          (validate_command ext now command)
          grants
          request_id
          (authorize_command token ext now request_id command grants)
  authorize_command-Decided ext now request_id command grants =
      elim (Option-cases (authorize_command token ext now request_id command grants)) [
        | inr (r, e) ↦
            let (reason, id) =
              authorize_command-Refused token ext now request_id command grants r e in
            subst (Decided _ _ grants request_id) (sym e) (refused r reason id)
        | inl e ↦
            subst (Decided _ _ grants request_id) (sym e)
              (accepted-Decided ext now request_id command grants e)
      ]
