-- ===== src/Authorization/Refusals.antt =====
-- What the error code of a refusal says, for queries and commands alike.
use arcrelay_protocol.Prelude.{
  inl, inr, ℕ, ◌≡◌, refl, sym, subst, bytes, arith, true, false, Option, none, some, Bytes,
  Bool-cases, Option-cases,
}
use arcrelay_protocol.Status.{invalid_argument, permission_denied, unsupported}
use arcrelay_protocol.Commands.{RequestRejection}
use arcrelay_protocol.Authorization.{
  Feature, clipboard, CapabilityId, clipboard_read, clipboard_write, remote_input_inject, Grants,
  reject, and_then, require_feature, require_capability,
}
use arcrelay_protocol.Authorization.Command.{
  Command, Externals, validate_command, command_access, authorize_paste, authorize_other,
  authorize_command, paste_clipboard_record,
}
use arcrelay_protocol.Authorization.Needs.{
  Needs, QueryNeeds, access-Needs, access-QueryNeeds, paste_clipboard_record_needs, paste_reads,
  paste_types,
}
use arcrelay_protocol.Authorization.Query.{
  Query, QueryNumbers, validate_query, query_access, authorize_query,
}

-- Why a request that takes the features and capabilities of `needs` is refused, given what its own check
-- says: the fault that the check names, a feature that it needs and that was not negotiated, or a
-- capability that it needs and that was not granted, in this order.
pub data Refused (needs : Feature → CapabilityId → Type 0) (fault : Option Bytes) (grants : Grants)
    (r : RequestRejection) : Type 0 where
  faulty :
      (message : Bytes)
      → fault ≡ some message
      → r.code ≡ invalid_argument
      → r.message ≡ message
      → Refused needs fault grants r
  not_negotiated :
      (f : Feature) (c : CapabilityId)
      → needs f c
      → fault ≡ none
      → grants.features f ≡ false
      → r.code ≡ unsupported
      → Refused needs fault grants r
  not_granted :
      (f : Feature) (c : CapabilityId)
      → needs f c
      → fault ≡ none
      → grants.features f ≡ true
      → grants.capabilities c ≡ false
      → r.code ≡ permission_denied
      → Refused needs fault grants r

-- No request, no needs.
abbrev pub NeedsOf : Option Command → Feature → CapabilityId → Type 0
NeedsOf none f c = ⊥
NeedsOf (some command) f c = Needs command f c

abbrev pub QueryNeedsOf : Option Query → Feature → CapabilityId → Type 0
QueryNeedsOf none f c = ⊥
QueryNeedsOf (some query) f c = QueryNeeds query f c

module _ (token : CapabilityId → Bytes) where
  capability-Refused :
      (needs : Feature → CapabilityId → Type 0) (request_id : ℕ) (f : Feature) (c : CapabilityId)
      (grants : Grants) (r : RequestRejection)
      → needs f c
      → grants.features f ≡ true
      → require_capability token request_id grants c ≡ some r
      → Refused needs none grants r × (r.request_id ≡ request_id)
  unfolding require_capability reject
  capability-Refused needs request_id f c grants r needed negotiated h =
      elim (Bool-cases (grants.capabilities c)) [
        | inl held ↦ absurd (ground (arith, held, h))
        | inr missing ↦ (
          not_granted f c needed refl negotiated missing (ground (arith, missing, h)),
          ground (arith, missing, h),
        )
      ]

  -- A feature, then other checks.
  feature_first :
      (needs : Feature → CapabilityId → Type 0) (request_id : ℕ) (f : Feature) (c : CapabilityId)
      (next : Option RequestRejection) (grants : Grants) (r : RequestRejection)
      → needs f c
      → (grants.features f ≡ true
          → next ≡ some r
          → Refused needs none grants r × (r.request_id ≡ request_id))
      → and_then (require_feature request_id grants f) next ≡ some r
      → Refused needs none grants r × (r.request_id ≡ request_id)
  unfolding require_feature reject
  feature_first needs request_id f c next grants r needed goes_on h =
      elim (Bool-cases (grants.features f)) [
        | inl negotiated ↦ goes_on negotiated (ground (arith, negotiated, h))
        | inr missing ↦ (
          not_negotiated f c needed refl missing (ground (arith, missing, h)),
          ground (arith, missing, h),
        )
      ]

  capability_first :
      (needs : Feature → CapabilityId → Type 0) (request_id : ℕ) (f : Feature) (c : CapabilityId)
      (next : Option RequestRejection) (grants : Grants) (r : RequestRejection)
      → needs f c
      → grants.features f ≡ true
      → (next ≡ some r → Refused needs none grants r × (r.request_id ≡ request_id))
      → and_then (require_capability token request_id grants c) next ≡ some r
      → Refused needs none grants r × (r.request_id ≡ request_id)
  unfolding require_capability reject
  capability_first needs request_id f c next grants r needed negotiated goes_on h =
      elim (Bool-cases (grants.capabilities c)) [
        | inl held ↦ goes_on (ground (arith, held, h))
        | inr missing ↦ (
          not_granted f c needed refl negotiated missing (ground (arith, missing, h)),
          ground (arith, missing, h),
        )
      ]

  paste-Refused :
      (id request_id : ℕ) (grants : Grants) (r : RequestRejection)
      → authorize_paste token request_id grants ≡ some r
      → Refused (Needs (paste_clipboard_record id)) none grants r × (r.request_id ≡ request_id)
  unfolding authorize_paste
  paste-Refused id request_id grants r h =
      let needs = Needs (paste_clipboard_record id) in
      let first = capability_first needs request_id clipboard in
      feature_first needs request_id clipboard clipboard_read _ grants r (paste_reads id)
        (λ f. first clipboard_read _ grants r (paste_reads id) f (
          first clipboard_write _ grants r (paste_clipboard_record_needs id) f (
            capability-Refused needs request_id clipboard remote_input_inject grants r
              (paste_types id) f)))
        h

  access-Refused :
      (needs : Feature → CapabilityId → Type 0) (request_id : ℕ) (f : Feature) (c : CapabilityId)
      (grants : Grants) (r : RequestRejection)
      → needs f c
      → and_then
          (require_feature request_id grants f)
          (require_capability token request_id grants c)
        ≡ some r
      → Refused needs none grants r × (r.request_id ≡ request_id)
  access-Refused needs request_id f c grants r needed h =
      feature_first needs request_id f c _ grants r needed
        (λ negotiated. capability-Refused needs request_id f c grants r needed negotiated) h

  body-Refused :
      (ext : Externals) (now request_id : ℕ) (command : Command) (grants : Grants)
      (r : RequestRejection)
      → validate_command ext now (some command) ≡ none
      → authorize_command token ext now request_id (some command) grants ≡ some r
      → Refused (Needs command) none grants r × (r.request_id ≡ request_id)
  unfolding authorize_command authorize_other
  body-Refused ext now request_id (paste_clipboard_record id) grants r valid h =
      paste-Refused id request_id grants r (ground (arith, valid, h))
  body-Refused ext now request_id command grants r valid h =
      access-Refused (Needs command) request_id (command_access command).0
        (command_access command).1 grants r (access-Needs command) (ground (arith, valid, h))

  with_fault :
      (needs : Feature → CapabilityId → Type 0) (fault : Option Bytes) (request_id : ℕ)
      (grants : Grants) (r : RequestRejection)
      → fault ≡ none
      → Refused needs none grants r × (r.request_id ≡ request_id)
      → Refused needs fault grants r × (r.request_id ≡ request_id)
  with_fault needs fault request_id grants r none_found (refused, id) =
      (subst (λ f. Refused needs f grants r) (sym none_found) refused, id)

  fault_first :
      (needs : Feature → CapabilityId → Type 0) (fault : Option Bytes) (m : Bytes) (request_id : ℕ)
      (grants : Grants) (r : RequestRejection)
      → fault ≡ some m
      → reject request_id invalid_argument m ≡ some r
      → Refused needs fault grants r × (r.request_id ≡ request_id)
  unfolding reject
  fault_first needs fault m request_id grants r found h =
      (faulty m found (ground (arith, h)) (ground (arith, h)), ground (arith, h))

  -- A command that is refused is invalid, and the refusal has the text of its check; or it is valid and
  -- needs a feature that was not negotiated; or it is valid, and a capability that it needs is
  -- missing: the error code tells which, and the refusal has the request's id.
  pub authorize_command-Refused :
      (ext : Externals) (now request_id : ℕ) (command : Option Command) (grants : Grants)
      (r : RequestRejection)
      → authorize_command token ext now request_id command grants ≡ some r
      → Refused (NeedsOf command) (validate_command ext now command) grants r
        × (r.request_id ≡ request_id)
  unfolding authorize_command validate_command
  authorize_command-Refused ext now request_id none grants r h =
      fault_first _ _ (bytes "empty command") request_id grants r refl h
  authorize_command-Refused ext now request_id (some c) grants r h =
      elim (Option-cases (validate_command ext now (some c))) [
        | inr (m, bad) ↦ fault_first _ _ m request_id grants r bad (ground (arith, bad, h))
        | inl valid ↦
            with_fault _ _ request_id grants r valid
              (body-Refused ext now request_id c grants r valid h)
      ]

  -- The same of a query.
  pub authorize_query-Refused :
      (numbers : QueryNumbers) (request_id : ℕ) (query : Option Query) (grants : Grants)
      (r : RequestRejection)
      → authorize_query token numbers request_id query grants ≡ some r
      → Refused (QueryNeedsOf query) (validate_query numbers query) grants r
        × (r.request_id ≡ request_id)
  unfolding authorize_query validate_query
  authorize_query-Refused numbers request_id none grants r h =
      fault_first _ _ (bytes "empty query") request_id grants r refl h
  authorize_query-Refused numbers request_id (some q) grants r h =
      elim (Option-cases (validate_query numbers (some q))) [
        | inr (m, bad) ↦ fault_first _ _ m request_id grants r bad (ground (arith, bad, h))
        | inl valid ↦ with_fault _ _ request_id grants r valid (
            access-Refused (QueryNeeds q) request_id (query_access q).0 (query_access q).1 grants r
              (access-QueryNeeds q) (ground (arith, valid, h)))
      ]
