-- ===== src/RemoteFiles/Examples.antt =====
-- A device that may read one share, and write another.
mod Codes
use arcrelay_protocol.Prelude.{
  ℕ, zero, suc, ◌≡◌, refl, true, false, Option, none, some, List, [], ◌∷◌, ◌++◌, nat_eq, Bytes,
  bytes_eq, bytes_discrete, ℕ_discrete, int_eq, length, take, drop, any, All, contains, has_control,
  split, bytes, ℤ, pos, negsuc,
}
use arcrelay_protocol.RemoteFiles.{
  ContentSizes, invalid_argument, permission_denied, not_found, conflict, resource_exhausted,
  failed_precondition, unavailable, cancelled, internal, remote_files_read, remote_files_write,
  remote_file_shares, unconstrained, Grant, from_grants, can_read, can_write, file, folder,
  RemoteFileEntry,
}
use arcrelay_protocol.RemoteFiles.Grants.{grants_read, grants_write, from_grants-exact}
use arcrelay_protocol.RemoteFiles.Requests.{RemoteFileRequest, download, validate}
use arcrelay_protocol.RemoteFiles.Responses.{RemoteFileResponse, success}
use arcrelay_protocol.RemoteFiles.Responses as Responses
use arcrelay_protocol.RemoteFiles.Paths.{
  validate_share_id, validate_relative_path, is_bad_component,
}
use arcrelay_protocol.RemoteFiles.Wire.{
  ok, EnumCodes, Prost, ResponseFrame, RequestBody, download_body, ProtoSortKey, unspecified_key,
  name_key, modified_key, type_key, size_key, ProtoSortDirection, unspecified_direction,
  ascending_direction, descending_direction, ProtoErrorCode, unspecified_code, code_of,
  ProtoEntryKind, unspecified_kind, kind_of,
}
use arcrelay_protocol.RemoteFiles.RequestCodec.{RequestFrame}
use arcrelay_protocol.RemoteFiles.RequestCodec as RequestCodec
use arcrelay_protocol.RemoteFiles.ResponseCodec.{encode_frame}
use arcrelay_protocol.RemoteFiles.ResponseCodec as ResponseCodec
use arcrelay_protocol.RemoteFiles.RoundTrip.{AreEnums, request_round_trip, response_round_trip}
use arcrelay_protocol.RemoteFiles.Server.{accepted, RemoteFileUpload, RemoteFileProvider}
use arcrelay_protocol.RemoteFiles.Server.Upload.{UploadIo}
use arcrelay_protocol.RemoteFiles.Server.Transfers.{Host, receive_file}
use arcrelay_protocol.RemoteFiles.Server.Stream.{handle_remote_file_stream}
use arcrelay_protocol.RemoteFiles.Server.Rights.{IsPermitted}
use arcrelay_protocol.RemoteFiles.Server.Permitted.{handle_remote_file_stream-IsPermitted}
use arcrelay_protocol.RemoteFiles.Server.Committed.{IsSound, receive_file-IsSound}
use arcrelay_protocol.RemoteFiles.Examples.Codes.{codes, codes-AreEnums}

abbrev sizes : ContentSizes
sizes = record { content = 1000; thumbnail = 100 }

-- The request to download, with the length of the share's id in front.
abbrev write_body : RequestBody → Bytes
write_body (download_body share_id path) = length share_id ∷ (share_id ++ path)
write_body _ = []

abbrev read_body : Bytes → Option RequestFrame
read_body [] = none
read_body (n ∷ rest) = some (record { body = some (download_body (take n rest) (drop n rest)) })

abbrev written : RequestFrame → Bytes
written frame = elim frame.body [ none ↦ [] | some body ↦ write_body body ]

abbrev request_prost : Prost RequestFrame
request_prost = record { encode_to_vec = written; decode = read_body }

abbrev response_prost : Prost ResponseFrame
response_prost = record {
  encode_to_vec = λ frame. frame.range_data;
  decode = λ content. some (encode_frame codes (record success { range_data = content }));
}

abbrev wanted : RemoteFileRequest
wanted = download (bytes "docs") (bytes "a/b")

wanted_valid : validate sizes wanted ≡ none
unfolding validate has_control split contains validate_share_id validate_relative_path
    is_bad_component ℕ_discrete bytes_discrete
wanted_valid = refl

request_round_trip_example :
    (content : Bytes) × (RequestCodec.encode_wire codes sizes request_prost wanted ≡ ok content)
    × (RequestCodec.decode_wire codes sizes request_prost content ≡ ok wanted)
unfolding RequestCodec.encode_body
request_round_trip_example =
    request_round_trip codes codes-AreEnums sizes request_prost wanted refl wanted_valid

abbrev range_read : RemoteFileResponse
range_read = record success { range_data = bytes "hello" }

range_read_valid : Responses.validate sizes range_read ≡ none
unfolding Responses.validate
range_read_valid = refl

response_round_trip_example :
    (content : Bytes) × (ResponseCodec.encode_wire codes sizes response_prost range_read
      ≡ ok content)
    × (ResponseCodec.decode_wire codes sizes response_prost content ≡ ok range_read)
unfolding encode_frame
response_round_trip_example =
    response_round_trip codes codes-AreEnums sizes response_prost range_read refl range_read_valid

-- Direction 1 is towards the device.
abbrev grants : List (Grant ℕ)
grants =
    record {
      capability = remote_files_read;
      direction = 1;
      constraints = remote_file_shares (bytes "docs" ∷ []) false;
    }
    ∷ record {
      capability = remote_files_write;
      direction = 1;
      constraints = remote_file_shares (bytes "inbox" ∷ []) true;
    }
    ∷ record { capability = remote_files_write; direction = 2; constraints = unconstrained }
    ∷ []

from_grants-exact_example :
    (can_read (from_grants grants 1) (bytes "docs") ≡ any (grants_read 1 (bytes "docs")) grants)
    × (can_write (from_grants grants 1) (bytes "docs") ≡ any (grants_write 1 (bytes "docs")) grants)
from_grants-exact_example = from_grants-exact grants 1 (bytes "docs")

abbrev entry : RemoteFileEntry
entry = record {
  id = bytes "7";
  name = bytes "b";
  relative_path = bytes "a/b";
  kind = file;
  size = 5;
  modified_at_ms = pos 9;
  revision = [];
}

abbrev target : RemoteFileUpload
target = record {
  destination = bytes "/srv/b";
  entry = entry;
  overwrite = true;
  expected_modified_at_ms = some (pos 9);
}

abbrev io : UploadIo
io = record {
  parent = λ path. some (bytes "/srv");
  temporary_in = λ parent. bytes "/srv/.arcrelay-upload-1";
  create = none;
  available = 5;
  copy = none;
  trailing = none;
  flush = none;
  sync_all = none;
  metadata = some (pos 9);
  rename = none;
  hard_link = none;
}

abbrev provider : RemoteFileProvider
provider = record {
  watch_changes = accepted (bytes "e", 1, [], false);
  stat = accepted (entry, bytes "r");
  move_entry = accepted entry;
  conditional_delete = accepted tt;
  read_range = accepted (bytes "hello");
  list_shares = accepted [];
  list_directory = accepted (record { entries = entry ∷ []; next_cursor = none });
  create_directory = accepted entry;
  rename = accepted entry;
  delete = accepted tt;
  prepare_download = accepted (record { path = bytes "/srv/a/b"; entry = entry });
  prepare_thumbnail = accepted none;
  prepare_upload = accepted target;
  commit_system_upload = accepted (entry, bytes "r");
}

abbrev host : Host
host = record {
  access = from_grants grants 1;
  provider = provider;
  transport = record {
    codes = codes;
    sizes = sizes;
    prost = response_prost;
    write_frame = λ content. true;
  };
  upload_io = io;
  open_file = none;
  copied = some 5;
}

abbrev download_frame : Option Bytes
download_frame = some (4 ∷ bytes "docsa/b")

handle_remote_file_stream-IsPermitted_example :
    All
      (IsPermitted host.access)
      (handle_remote_file_stream host request_prost true download_frame).0
handle_remote_file_stream-IsPermitted_example =
    handle_remote_file_stream-IsPermitted host request_prost true download_frame

receive_file-IsSound_example :
    All
      (IsSound host.upload_io target 5)
      (receive_file host (bytes "inbox") [] (bytes "b") 5 none target).0
receive_file-IsSound_example =
    receive_file-IsSound host (bytes "inbox") [] (bytes "b") 5 none target
