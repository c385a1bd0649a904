-- ===== src/RemoteFiles/Paths.antt =====
-- src/remote_files.rs: the checks of share ids, paths and names. `none` is `Ok(())`.
use arcrelay_protocol.Prelude.{
  Bool, not, ◌&&◌, ◌||◌, Option, none, some, ltb, ◌==◌, if◌then◌else◌, Bytes, bytes_eq, nat_eq,
  same, length, any, contains, has_control, split, bytes,
}

-- The `?` of the source.
infixr 30 ◌then_check◌
abbrev pub ◌then_check◌ : Option Bytes → Option Bytes → Option Bytes
none then_check next = next
some message then_check next = some message

abbrev pub fail_if : Bool → Bytes → Option Bytes
fail_if test message = if test then some message else none

unfoldable pub validate_share_id : Bytes → Option Bytes
unfolding has_control
validate_share_id value =
    fail_if (length value == 0 || ltb 256 (length value) || has_control value)
      (bytes "invalid remote file share id")

unfoldable pub is_bad_component : Bytes → Bool
is_bad_component component =
    length component == 0
    || same component (bytes ".")
    || same component (bytes "..")
    || ltb 255 (length component)

unfoldable pub validate_relative_path : Bytes → Option Bytes
unfolding has_control split is_bad_component contains
validate_relative_path value =
    fail_if
      (ltb 4096 (length value)
        || contains b'\\' value
        || has_control value
        || (not (length value == 0) && any is_bad_component (split b'/' value)))
      (bytes "invalid remote file path")

unfoldable pub validate_file_name : Bytes → Option Bytes
unfolding has_control contains
validate_file_name value =
    fail_if
      (length value == 0
        || ltb 255 (length value)
        || same value (bytes ".")
        || same value (bytes "..")
        || contains b'/' value
        || contains b'\\' value
        || contains 0 value
        || has_control value)
      (bytes "invalid remote file name")
