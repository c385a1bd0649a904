-- ===== src/Negotiation/Examples.antt =====
-- A client that is older than the server for one feature.
use arcrelay_protocol.Prelude.{
  ℕ, ◌≡◌, refl, none, some, List, [], ◌∷◌, arith, ltb, bytes_eq, nat_eq, ℕ_discrete, get, remove,
  insert,
}
use arcrelay_protocol.Negotiation.{
  FeatureVersion, FeatureNumbers, WireSizes, is_invalid_range, client_ranges, select_features,
  negotiate_features, protocol_limits, validate_receive_limits,
}
use arcrelay_protocol.Negotiation.Highest.{
  IsOffer, range_of, highest_common, negotiate_features-highest_common,
}
use arcrelay_protocol.Negotiation.OwnLimits.{
  IsUsable, IsAcceptable, validate_receive_limits-protocol_limits,
  validate_receive_limits-IsAcceptable,
}

abbrev numbers : FeatureNumbers
numbers = record {
  is_feature = λ n. ltb n 16;
  unspecified = 0;
  input_reliable = 1;
  input_datagram = 2;
  blobs = 3;
  remote_files = 4;
  printing = 5;
}

abbrev client : List FeatureVersion
client =
    record { feature = 3; min_version = 1; max_version = 4 }
    ∷ record { feature = 7; min_version = 1; max_version = 1 }
    ∷ []

abbrev server : List FeatureVersion
server =
    record { feature = 3; min_version = 2; max_version = 3 }
    ∷ record { feature = 7; min_version = 2; max_version = 2 }
    ∷ []

server-IsOffer : IsOffer server
unfolding ℕ_discrete
server-IsOffer = (refl, (refl, tt))

negotiated : negotiate_features numbers client server ≡ some ((3, 3) ∷ [])
unfolding negotiate_features client_ranges select_features is_invalid_range get insert remove
    ℕ_discrete
negotiated = refl

negotiate_features-highest_common_example :
    get {K = ℕ} 3 ((3, 3) ∷ []) ≡ highest_common (range_of 3 client) (range_of 3 server)
negotiate_features-highest_common_example =
    negotiate_features-highest_common numbers 3 client server ((3, 3) ∷ []) server-IsOffer
      negotiated

abbrev wire : WireSizes
wire = record {
  control_frame = 1048576;
  reliable_input_frame = 16384;
  datagram = 1200;
  blob_chunk = 65536;
  print_chunk = 65536;
  print_document = 104857600;
  remote_file_message_size = 1048576;
  remote_file_content_size = 1073741824;
}

wire-IsUsable : IsUsable wire
wire-IsUsable = record {
  control_frame = omega arith;
  reliable_input_frame = omega arith;
  datagram = omega arith;
  blob_chunk = omega arith;
  print_chunk = omega arith;
  print_document = omega arith;
  remote_file_message = omega arith;
  remote_file_content = omega arith;
}

validate_receive_limits-protocol_limits_example :
    validate_receive_limits numbers wire (some (protocol_limits wire)) client ≡ none
validate_receive_limits-protocol_limits_example =
    validate_receive_limits-protocol_limits numbers wire client wire-IsUsable

validate_receive_limits-IsAcceptable_example :
    IsAcceptable numbers wire (protocol_limits wire) client
validate_receive_limits-IsAcceptable_example =
    validate_receive_limits-IsAcceptable numbers wire (protocol_limits wire) client
      (validate_receive_limits-protocol_limits numbers wire client wire-IsUsable)
