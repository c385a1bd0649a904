-- ===== src/RemoteFiles/Examples/Codes.antt =====
-- Numbers for the enums of the messages.
use arcrelay_protocol.Prelude.{
  zero, suc, ◌≡◌, refl, Option, none, some, nat_eq, bytes_eq, int_eq, ℤ, pos, negsuc,
}
use arcrelay_protocol.RemoteFiles.{
  invalid_argument, permission_denied, not_found, conflict, resource_exhausted, failed_precondition,
  unavailable, cancelled, internal, file, folder,
}
use arcrelay_protocol.RemoteFiles.Wire.{
  EnumCodes, ProtoSortKey, unspecified_key, name_key, modified_key, type_key, size_key,
  ProtoSortDirection, unspecified_direction, ascending_direction, descending_direction,
  ProtoErrorCode, unspecified_code, code_of, ProtoEntryKind, unspecified_kind, kind_of,
}
use arcrelay_protocol.RemoteFiles.RoundTrip.{AreEnums}

abbrev pub number_of_key : ProtoSortKey → ℤ
number_of_key unspecified_key = pos 0
number_of_key name_key = pos 1
number_of_key modified_key = pos 2
number_of_key type_key = pos 3
number_of_key size_key = pos 4

abbrev pub key_of_number : ℤ → Option ProtoSortKey
key_of_number (pos zero) = some unspecified_key
key_of_number (pos (suc zero)) = some name_key
key_of_number (pos (suc (suc zero))) = some modified_key
key_of_number (pos (suc (suc (suc zero)))) = some type_key
key_of_number (pos (suc (suc (suc (suc zero))))) = some size_key
key_of_number _ = none

abbrev pub number_of_direction : ProtoSortDirection → ℤ
number_of_direction unspecified_direction = pos 0
number_of_direction ascending_direction = pos 1
number_of_direction descending_direction = pos 2

abbrev pub direction_of_number : ℤ → Option ProtoSortDirection
direction_of_number (pos zero) = some unspecified_direction
direction_of_number (pos (suc zero)) = some ascending_direction
direction_of_number (pos (suc (suc zero))) = some descending_direction
direction_of_number _ = none

abbrev pub number_of_code : ProtoErrorCode → ℤ
number_of_code unspecified_code = negsuc 0
number_of_code (code_of invalid_argument) = pos 0
number_of_code (code_of permission_denied) = pos 1
number_of_code (code_of not_found) = pos 2
number_of_code (code_of conflict) = pos 3
number_of_code (code_of resource_exhausted) = negsuc 1
number_of_code (code_of failed_precondition) = negsuc 2
number_of_code (code_of unavailable) = negsuc 3
number_of_code (code_of cancelled) = negsuc 4
number_of_code (code_of internal) = negsuc 5

abbrev pub code_of_number : ℤ → Option ProtoErrorCode
code_of_number (negsuc zero) = some unspecified_code
code_of_number (pos zero) = some (code_of invalid_argument)
code_of_number (pos (suc zero)) = some (code_of permission_denied)
code_of_number (pos (suc (suc zero))) = some (code_of not_found)
code_of_number (pos (suc (suc (suc zero)))) = some (code_of conflict)
code_of_number (negsuc (suc zero)) = some (code_of resource_exhausted)
code_of_number (negsuc (suc (suc zero))) = some (code_of failed_precondition)
code_of_number (negsuc (suc (suc (suc zero)))) = some (code_of unavailable)
code_of_number (negsuc (suc (suc (suc (suc zero))))) = some (code_of cancelled)
code_of_number (negsuc (suc (suc (suc (suc (suc zero)))))) = some (code_of internal)
code_of_number _ = none

abbrev pub number_of_kind : ProtoEntryKind → ℤ
number_of_kind unspecified_kind = pos 0
number_of_kind (kind_of file) = pos 1
number_of_kind (kind_of folder) = pos 2

abbrev pub kind_of_number : ℤ → Option ProtoEntryKind
kind_of_number (pos zero) = some unspecified_kind
kind_of_number (pos (suc zero)) = some (kind_of file)
kind_of_number (pos (suc (suc zero))) = some (kind_of folder)
kind_of_number _ = none

abbrev pub codes : EnumCodes
codes = record {
  sort_key = record { number = number_of_key; try_from = key_of_number };
  sort_direction = record { number = number_of_direction; try_from = direction_of_number };
  error_code = record { number = number_of_code; try_from = code_of_number };
  entry_kind = record { number = number_of_kind; try_from = kind_of_number };
}

key_round : (k : ProtoSortKey) → key_of_number (number_of_key k) ≡ some k
key_round unspecified_key = refl
key_round name_key = refl
key_round modified_key = refl
key_round type_key = refl
key_round size_key = refl

direction_round : (d : ProtoSortDirection) → direction_of_number (number_of_direction d) ≡ some d
direction_round unspecified_direction = refl
direction_round ascending_direction = refl
direction_round descending_direction = refl

code_round : (c : ProtoErrorCode) → code_of_number (number_of_code c) ≡ some c
code_round unspecified_code = refl
code_round (code_of invalid_argument) = refl
code_round (code_of permission_denied) = refl
code_round (code_of not_found) = refl
code_round (code_of conflict) = refl
code_round (code_of resource_exhausted) = refl
code_round (code_of failed_precondition) = refl
code_round (code_of unavailable) = refl
code_round (code_of cancelled) = refl
code_round (code_of internal) = refl

kind_round : (k : ProtoEntryKind) → kind_of_number (number_of_kind k) ≡ some k
kind_round unspecified_kind = refl
kind_round (kind_of file) = refl
kind_round (kind_of folder) = refl

pub codes-AreEnums : AreEnums codes
codes-AreEnums = record {
  sort_key = record { try_from-number = key_round };
  sort_direction = record { try_from-number = direction_round };
  error_code = record { try_from-number = code_round };
  entry_kind = record { try_from-number = kind_round };
}
