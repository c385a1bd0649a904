-- ===== src/Negotiation.antt =====
-- src/server/proto_handler/requests/control.rs: the features and the limits that a connection starts
-- with. The numbers of the features and arcrelay_wire's sizes are parameters.
pub mod Highest
pub mod OwnLimits
mod Examples
use arcrelay_protocol.Prelude.{
  ◌⊎◌, ℕ, suc, zero, ◌+◌, ◌-◌, ◌≤◌, ◌<◌, ◌≡◌, ◌≢◌, ◌∙◌, Bool, true, false, not, ◌||◌, ◌&&◌, Option,
  none, some, List, [], ◌∷◌, ◌++◌, arith, ltb, leb, ◌==◌, if◌then◌else◌, bytes_eq, nat_eq, length,
  Map, get, insert, ◌%◌, ◌*◌, is_some_and,
}
use arcrelay_protocol.Prelude.{min, max}

pub record FeatureVersion : Type 0 where
  pub feature : ℕ
  pub min_version : ℕ
  pub max_version : ℕ

-- `is_err` of `proto::Feature::try_from`, negated, and the number of `Unspecified`.
pub record FeatureNumbers : Type 0 where
  pub is_feature : ℕ → Bool
  pub unspecified : ℕ
  pub input_reliable : ℕ
  pub input_datagram : ℕ
  pub blobs : ℕ
  pub remote_files : ℕ
  pub printing : ℕ

module _ (numbers : FeatureNumbers) where
  pub is_invalid_range : FeatureVersion → Bool
  is_invalid_range f =
      not (numbers.is_feature f.feature)
      || f.feature == numbers.unspecified
      || f.min_version == 0
      || ltb f.max_version f.min_version

  -- The loop over the client's features; `none` is the error.
  pub client_ranges : List FeatureVersion → Map ℕ (ℕ × ℕ) → Option (Map ℕ (ℕ × ℕ))
  unfolding is_invalid_range
  client_ranges [] ranges = some ranges
  client_ranges (f ∷ features) ranges =
      let next = client_ranges features (insert f.feature (f.min_version, f.max_version) ranges) in
      if is_invalid_range f || is_some_and (get f.feature ranges) (λ range. true)
      then none
      else next

  -- The loop over the server's features.
  pub select_features : Map ℕ (ℕ × ℕ) → List FeatureVersion → Map ℕ ℕ → Map ℕ ℕ
  select_features ranges [] selected = selected
  select_features ranges (f ∷ features) selected = elim (get f.feature ranges) [
    | none ↦ select_features ranges features selected
    | some (client_min, client_max) ↦
        let minimum = max client_min f.min_version in
        let maximum = min client_max f.max_version in
        select_features ranges features
          (if leb minimum maximum then insert f.feature maximum selected else selected)
  ]

  pub negotiate_features : List FeatureVersion → List FeatureVersion → Option (Map ℕ ℕ)
  unfolding client_ranges select_features
  negotiate_features client server =
      if ltb 64 (length client) then none else elim (client_ranges client []) [
        | none ↦ none
        | some ranges ↦ some (select_features ranges server [])
      ]

pub record ProtocolLimits : Type 0 where
  pub max_control_frame_bytes : ℕ
  pub max_reliable_input_frame_bytes : ℕ
  pub max_datagram_bytes : ℕ
  pub max_concurrent_requests : ℕ
  pub heartbeat_interval_ms : ℕ
  pub heartbeat_timeout_ms : ℕ
  pub max_blob_chunk_bytes : ℕ
  pub max_remote_file_message_bytes : ℕ
  pub max_remote_file_content_bytes : ℕ
  pub max_print_chunk_bytes : ℕ
  pub max_print_document_bytes : ℕ

-- The sizes of arcrelay_wire and arcrelay_core.
pub record WireSizes : Type 0 where
  pub control_frame : ℕ
  pub reliable_input_frame : ℕ
  pub datagram : ℕ
  pub blob_chunk : ℕ
  pub print_chunk : ℕ
  pub print_document : ℕ
  pub remote_file_message_size : ℕ
  pub remote_file_content_size : ℕ

abbrev pub heartbeat_timeout : ℕ
heartbeat_timeout = 45000

abbrev pub max_concurrent_requests_offered : ℕ
max_concurrent_requests_offered = 16

pub protocol_limits : WireSizes → ProtocolLimits
protocol_limits wire = record {
  max_control_frame_bytes = wire.control_frame;
  max_reliable_input_frame_bytes = wire.reliable_input_frame;
  max_datagram_bytes = wire.datagram;
  max_concurrent_requests = max_concurrent_requests_offered;
  heartbeat_interval_ms = 15000;
  heartbeat_timeout_ms = heartbeat_timeout;
  max_blob_chunk_bytes = wire.blob_chunk;
  max_remote_file_message_bytes = wire.remote_file_message_size;
  max_remote_file_content_bytes = wire.remote_file_content_size;
  max_print_chunk_bytes = wire.print_chunk;
  max_print_document_bytes = wire.print_document;
}

-- The field that `invalid` names.
pub data LimitError : Type 0 where
  limits_required control_frame reliable_input_frame datagram concurrent_requests blob_chunk :
      LimitError
  heartbeat_interval heartbeat_timeout_range remote_file_message remote_file_content print_chunk
        print_document :
      LimitError

pub offers : ℕ → List FeatureVersion → Bool
offers feature [] = false
offers feature (f ∷ features) = f.feature == feature || offers feature features

-- `none` is `Ok(())`.
pub validate_receive_limits :
    FeatureNumbers → WireSizes → Option ProtocolLimits → List FeatureVersion → Option LimitError
validate_receive_limits numbers wire none features = some limits_required
validate_receive_limits numbers wire (some limits) features =
    if not (
      leb 4096 limits.max_control_frame_bytes
      && leb limits.max_control_frame_bytes wire.control_frame)
    then some control_frame
    else if ltb wire.reliable_input_frame limits.max_reliable_input_frame_bytes
        || (offers numbers.input_reliable features && limits.max_reliable_input_frame_bytes == 0)
    then some reliable_input_frame
    else if ltb wire.datagram limits.max_datagram_bytes
        || (offers numbers.input_datagram features && limits.max_datagram_bytes == 0)
    then some datagram
    else if not (leb 1 limits.max_concurrent_requests && leb limits.max_concurrent_requests 1024)
    then some concurrent_requests
    else if ltb wire.blob_chunk limits.max_blob_chunk_bytes
        || (offers numbers.blobs features && limits.max_blob_chunk_bytes == 0)
    then some blob_chunk
    else if not (leb 1000 limits.heartbeat_interval_ms && leb limits.heartbeat_interval_ms 120000)
    then some heartbeat_interval
    else if ltb limits.heartbeat_timeout_ms (min (limits.heartbeat_interval_ms * 2) 4294967295)
        || ltb 300000 limits.heartbeat_timeout_ms
    then some heartbeat_timeout_range
    else if ltb wire.remote_file_message_size limits.max_remote_file_message_bytes
        || (offers numbers.remote_files features && ltb limits.max_remote_file_message_bytes 4096)
    then some remote_file_message
    else if ltb wire.remote_file_content_size limits.max_remote_file_content_bytes
        || (offers numbers.remote_files features && limits.max_remote_file_content_bytes == 0)
    then some remote_file_content
    else if ltb wire.print_chunk limits.max_print_chunk_bytes
        || (offers numbers.printing features && limits.max_print_chunk_bytes == 0)
    then some print_chunk
    else if ltb wire.print_document limits.max_print_document_bytes
        || (offers numbers.printing features && limits.max_print_document_bytes == 0)
    then some print_document
    else none
