-- ===== src/Negotiation/OwnLimits.antt =====
-- The server's own limits against its own check.
use arcrelay_protocol.Prelude.{
  ℕ, ◌≤◌, ◌<◌, ◌≡◌, true, none, some, List, arith, bytes_eq, nat_eq, ◌*◌,
}
use arcrelay_protocol.Negotiation.{
  FeatureVersion, FeatureNumbers, ProtocolLimits, WireSizes, offers, protocol_limits,
  validate_receive_limits,
}

-- The sizes of the wire format are large enough to be of use.
pub record IsUsable (wire : WireSizes) : Type 0 where
  pub control_frame : 4096 ≤ wire.control_frame
  pub reliable_input_frame : 0 < wire.reliable_input_frame
  pub datagram : 0 < wire.datagram
  pub blob_chunk : 0 < wire.blob_chunk
  pub print_chunk : 0 < wire.print_chunk
  pub print_document : 0 < wire.print_document
  pub remote_file_message : 4096 ≤ wire.remote_file_message_size
  pub remote_file_content : 0 < wire.remote_file_content_size

-- If the sizes of the wire format are usable, the limits that the server announces pass the check
-- that it makes of a client's, whatever features are offered.
pub validate_receive_limits-protocol_limits :
    (numbers : FeatureNumbers) (wire : WireSizes) (features : List FeatureVersion)
    → IsUsable wire
    → validate_receive_limits numbers wire (some (protocol_limits wire)) features ≡ none
unfolding validate_receive_limits protocol_limits
validate_receive_limits-protocol_limits numbers wire features usable = ground arith

-- A size that is within the wire's, and at least `least` if the feature that uses it is offered.
abbrev pub Fits : List FeatureVersion → ℕ → ℕ → ℕ → ℕ → Type 0
Fits features feature least size bound =
    (size ≤ bound) × (offers feature features ≡ true → least ≤ size)

-- What limits that are accepted allow: every size within the wire's, a heartbeat that fits twice into
-- its timeout, and a usable size for each feature that is offered.
pub record IsAcceptable (numbers : FeatureNumbers) (wire : WireSizes) (l : ProtocolLimits)
    (features : List FeatureVersion) : Type 0 where
  pub control :
      (4096 ≤ l.max_control_frame_bytes) × (l.max_control_frame_bytes ≤ wire.control_frame)
  pub requests : (1 ≤ l.max_concurrent_requests) × (l.max_concurrent_requests ≤ 1024)
  pub interval : (1000 ≤ l.heartbeat_interval_ms) × (l.heartbeat_interval_ms ≤ 120000)
  pub heartbeat : l.heartbeat_interval_ms * 2 ≤ l.heartbeat_timeout_ms
  pub timeout : l.heartbeat_timeout_ms ≤ 300000
  pub reliable_input :
      Fits features numbers.input_reliable 1 l.max_reliable_input_frame_bytes
        wire.reliable_input_frame
  pub datagrams : Fits features numbers.input_datagram 1 l.max_datagram_bytes wire.datagram
  pub blobs : Fits features numbers.blobs 1 l.max_blob_chunk_bytes wire.blob_chunk
  pub file_messages :
      Fits features numbers.remote_files 4096 l.max_remote_file_message_bytes
        wire.remote_file_message_size
  pub file_content :
      Fits features numbers.remote_files 1 l.max_remote_file_content_bytes
        wire.remote_file_content_size
  pub print_chunks : Fits features numbers.printing 1 l.max_print_chunk_bytes wire.print_chunk
  pub print_documents :
      Fits features numbers.printing 1 l.max_print_document_bytes wire.print_document

-- A client's receive limits that pass the check are acceptable: every size is within the wire's and
-- positive for each feature offered, a message of remote files at least 4096 bytes; a control frame is
-- at least 4096 bytes, 1 to 1024 requests may be open, and the heartbeat, of 1 to 120 seconds, fits
-- twice into its timeout of at most 300 seconds.
pub validate_receive_limits-IsAcceptable :
    (numbers : FeatureNumbers) (wire : WireSizes) (limits : ProtocolLimits)
    (features : List FeatureVersion)
    → validate_receive_limits numbers wire (some limits) features ≡ none
    → IsAcceptable numbers wire limits features
unfolding validate_receive_limits
validate_receive_limits-IsAcceptable numbers wire l features h = record {
  control = ground (arith, h);
  requests = ground (arith, h);
  interval = ground (arith, h);
  heartbeat = ground (arith, h);
  timeout = ground (arith, h);
  reliable_input = (ground (arith, h), λ o. ground (arith, h, o));
  datagrams = (ground (arith, h), λ o. ground (arith, h, o));
  blobs = (ground (arith, h), λ o. ground (arith, h, o));
  file_messages = (ground (arith, h), λ o. ground (arith, h, o));
  file_content = (ground (arith, h), λ o. ground (arith, h, o));
  print_chunks = (ground (arith, h), λ o. ground (arith, h, o));
  print_documents = (ground (arith, h), λ o. ground (arith, h, o));
}
