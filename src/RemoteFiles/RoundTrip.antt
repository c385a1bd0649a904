-- ===== src/RemoteFiles/RoundTrip.antt =====
-- What is encoded is decoded again, and what is decoded can be encoded.
use arcrelay_protocol.Prelude.{
  inl, inr, ◌≡◌, refl, ap, subst, Option, none, some, List, [], ◌∷◌, arith, map, Bytes,
  Option-cases,
}
use arcrelay_protocol.RemoteFiles.{
  ContentSizes, RemoteFileError, RemoteFileShare, RemoteFileSortKey, by_name, by_modified, by_type,
  by_size, RemoteFileSortDirection, ascending, descending, RemoteFileEntry,
}
use arcrelay_protocol.RemoteFiles.Requests.{RemoteFileRequest, list_directory}
use arcrelay_protocol.RemoteFiles.Requests as Requests
use arcrelay_protocol.RemoteFiles.Responses.{RemoteFileResponse}
use arcrelay_protocol.RemoteFiles.Responses as Responses
use arcrelay_protocol.RemoteFiles.Wire.{
  CodecResult, ok, err, once_valid, EnumCode, EnumCodes, Prost, ResponseFrame, kind_of, code_of,
  name_key, modified_key, type_key, size_key, ascending_direction, descending_direction,
  encode_sort_key, decode_sort_key, encode_sort_direction, decode_sort_direction, encode_error_code,
  decode_error_code, encode_share, decode_share, encode_entry, decode_entry, decode_entries,
}
use arcrelay_protocol.RemoteFiles.RequestCodec.{RequestFrame, encode_body, decode_body}
use arcrelay_protocol.RemoteFiles.RequestCodec as RequestCodec
use arcrelay_protocol.RemoteFiles.ResponseCodec.{
  map_option, encode_frame, decode_error, decode_optional, decode_fields,
}
use arcrelay_protocol.RemoteFiles.ResponseCodec as ResponseCodec

-- Every value of the enum is the value of its number.
pub record IsEnum {A : Type 0} (code : EnumCode A) : Type 0 where
  pub try_from-number : (a : A) → code.try_from (code.number a) ≡ some a

pub record AreEnums (codes : EnumCodes) : Type 0 where
  pub sort_key : IsEnum codes.sort_key
  pub sort_direction : IsEnum codes.sort_direction
  pub error_code : IsEnum codes.error_code
  pub entry_kind : IsEnum codes.entry_kind

-- prost reads a message that it has written.
abbrev pub Reads : {Message : Type 0} → Prost Message → Message → Type 0
Reads prost m = prost.decode (prost.encode_to_vec m) ≡ some m

abbrev pub request_frame : EnumCodes → RemoteFileRequest → RequestFrame
request_frame codes r = record { body = some (encode_body codes r) }

once_valid-eq-ok {ℓ} :
    {A : Type ℓ} (v : Option Bytes) (a b : A) → once_valid v a ≡ ok b → (v ≡ none) × (a ≡ b)
once_valid-eq-ok none a b h = (refl, cc)
once_valid-eq-ok (some message) a b h = cc

module _ (codes : EnumCodes) (sizes : ContentSizes) (prost : Prost RequestFrame) where
  request_checked :
      (d : CodecResult RemoteFileRequest) (r : RemoteFileRequest)
      → RequestCodec.checked codes sizes prost d ≡ ok r
      → Requests.validate sizes r ≡ none
  unfolding RequestCodec.checked
  request_checked (ok r') r h =
      let (valid, e) = once_valid-eq-ok (Requests.validate sizes r') r' r h in
      subst (λ x. Requests.validate sizes x ≡ none) e valid
  request_checked (err e) r h = cc

  pub request_decoded :
      (r : RemoteFileRequest) (content : Bytes)
      → RequestCodec.decode_wire codes sizes prost content ≡ ok r
      → Requests.validate sizes r ≡ none
  unfolding RequestCodec.decode_wire RequestCodec.decode_frame
  request_decoded r content h = elim (Option-cases (prost.decode content)) [
    | inl none' ↦ ground (arith, h, none')
    | inr (frame, e) ↦ elim (Option-cases frame.body) [
      | inl none' ↦ ground (arith, h, e, none')
      | inr (body, e') ↦ request_checked (decode_body codes body) r (ground (arith, h, e, e'))
    ]
  ]

module _ (codes : EnumCodes) (sizes : ContentSizes) (prost : Prost ResponseFrame) where
  response_checked :
      (d : CodecResult RemoteFileResponse) (r : RemoteFileResponse)
      → ResponseCodec.checked codes sizes prost d ≡ ok r
      → Responses.validate sizes r ≡ none
  unfolding ResponseCodec.checked
  response_checked (ok r') r h =
      let (valid, e) = once_valid-eq-ok (Responses.validate sizes r') r' r h in
      subst (λ x. Responses.validate sizes x ≡ none) e valid
  response_checked (err e) r h = cc

  response_decoded :
      (r : RemoteFileResponse) (content : Bytes)
      → ResponseCodec.decode_wire codes sizes prost content ≡ ok r
      → Responses.validate sizes r ≡ none
  unfolding ResponseCodec.decode_wire
  response_decoded r content h = elim (Option-cases (prost.decode content)) [
    | inl none' ↦ ground (arith, h, none')
    | inr (frame, e) ↦ response_checked (decode_fields codes frame) r (ground (arith, h, e))
  ]

module _ (codes : EnumCodes) (enums : AreEnums codes) where
  sort_key_round : (k : RemoteFileSortKey) → decode_sort_key codes (encode_sort_key codes k) ≡ ok k
  unfolding decode_sort_key encode_sort_key
  sort_key_round by_name = ground (arith, enums.sort_key.try_from-number name_key)
  sort_key_round by_modified = ground (arith, enums.sort_key.try_from-number modified_key)
  sort_key_round by_type = ground (arith, enums.sort_key.try_from-number type_key)
  sort_key_round by_size = ground (arith, enums.sort_key.try_from-number size_key)

  sort_direction_round :
      (d : RemoteFileSortDirection)
      → decode_sort_direction codes (encode_sort_direction codes d) ≡ ok d
  unfolding decode_sort_direction encode_sort_direction
  sort_direction_round ascending =
      ground (arith, enums.sort_direction.try_from-number ascending_direction)
  sort_direction_round descending =
      ground (arith, enums.sort_direction.try_from-number descending_direction)

  decode_body-encode_body : (r : RemoteFileRequest) → decode_body codes (encode_body codes r) ≡ ok r
  unfolding decode_body encode_body
  decode_body-encode_body (list_directory share_id path cursor limit wanted key direction) =
      ground (arith, sort_key_round key, sort_direction_round direction)
  decode_body-encode_body _ = refl

  error_round :
      (e : Option RemoteFileError)
      → decode_error codes
          (map_option (λ (error : RemoteFileError). encode_error_code codes error.code) e)
          (map_option (λ (error : RemoteFileError). error.message) e)
        ≡ ok e
  unfolding decode_error decode_error_code encode_error_code
  error_round none = refl
  error_round (some e) = ground (arith, enums.error_code.try_from-number (code_of e.code))

  entry_round : (e : RemoteFileEntry) → decode_entry codes (encode_entry codes e) ≡ ok e
  unfolding decode_entry encode_entry
  entry_round e = ground (arith, enums.entry_kind.try_from-number (kind_of e.kind))

  entries_round :
      (es : List RemoteFileEntry) → decode_entries codes (map (encode_entry codes) es) ≡ ok es
  unfolding decode_entries
  entries_round [] = refl
  entries_round (e ∷ es) = ground (arith, entry_round e, entries_round es)

  optional_round :
      (e : Option RemoteFileEntry)
      → decode_optional codes (map_option (encode_entry codes) e) ≡ ok e
  unfolding decode_optional
  optional_round none = refl
  optional_round (some e) = ground (arith, entry_round e)

  shares_round : (ss : List RemoteFileShare) → map decode_share (map encode_share ss) ≡ ss
  unfolding decode_share encode_share
  shares_round [] = refl
  shares_round (s ∷ ss) = ap (◌∷◌ s) (shares_round ss)

  decode_fields-encode_frame :
      (r : RemoteFileResponse) → decode_fields codes (encode_frame codes r) ≡ ok r
  unfolding decode_fields encode_frame
  decode_fields-encode_frame r = ground (
    arith,
    error_round r.error,
    entries_round r.entries,
    optional_round r.entry,
    shares_round r.shares,
  )

  module _ (sizes : ContentSizes) (prost : Prost RequestFrame) where
    request_again :
        (r : RemoteFileRequest)
        → Reads prost (request_frame codes r)
        → Requests.validate sizes r ≡ none
        → RequestCodec.decode_wire codes sizes prost (prost.encode_to_vec (request_frame codes r))
          ≡ ok r
    unfolding RequestCodec.decode_wire RequestCodec.decode_frame RequestCodec.checked
    request_again r p h = ground (arith, h, decode_body-encode_body r, p)

  module _ (sizes : ContentSizes) (prost : Prost ResponseFrame) where
    response_again :
        (r : RemoteFileResponse)
        → Reads prost (encode_frame codes r)
        → Responses.validate sizes r ≡ none
        → ResponseCodec.decode_wire codes sizes prost (prost.encode_to_vec (encode_frame codes r))
          ≡ ok r
    unfolding ResponseCodec.decode_wire ResponseCodec.checked
    response_again r p h = ground (arith, h, decode_fields-encode_frame r, p)

  -- If prost reads the message that it writes for a request, and every value of an enum is the value
  -- of its number, then a request that passes its check is encoded, and what it is encoded to is decoded
  -- to it.
  pub request_round_trip :
      (sizes : ContentSizes) (prost : Prost RequestFrame) (r : RemoteFileRequest)
      → Reads prost (request_frame codes r)
      → Requests.validate sizes r ≡ none
      → (content : Bytes) × (RequestCodec.encode_wire codes sizes prost r ≡ ok content)
        × (RequestCodec.decode_wire codes sizes prost content ≡ ok r)
  request_round_trip sizes prost r p valid = (
    prost.encode_to_vec (request_frame codes r),
    (unfold RequestCodec.encode_wire in rw valid refl),
    request_again sizes prost r p valid,
  )

  -- If prost reads the message that it writes for a response, and every value of an enum is the value
  -- of its number, then a response that passes its check is encoded, and what it is encoded to is decoded
  -- to it.
  pub response_round_trip :
      (sizes : ContentSizes) (prost : Prost ResponseFrame) (r : RemoteFileResponse)
      → Reads prost (encode_frame codes r)
      → Responses.validate sizes r ≡ none
      → (content : Bytes) × (ResponseCodec.encode_wire codes sizes prost r ≡ ok content)
        × (ResponseCodec.decode_wire codes sizes prost content ≡ ok r)
  response_round_trip sizes prost r p valid = (
    prost.encode_to_vec (encode_frame codes r),
    (unfold ResponseCodec.encode_wire in rw valid refl),
    response_again sizes prost r p valid,
  )
