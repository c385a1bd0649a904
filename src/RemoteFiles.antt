-- ===== src/RemoteFiles.antt =====
-- src/remote_files.rs: access to shared folders, by grants; the requests, the responses and their
-- wire format are in the modules below. The sizes of arcrelay_wire and the grants of arcrelay_peer
-- are parameters.
pub mod Grants
pub mod Paths
pub mod Requests
pub mod Responses
pub mod Wire
pub mod RequestCodec
pub mod ResponseCodec
pub mod Confined
pub mod RoundTrip
pub mod Server
mod Examples
use arcrelay_protocol.Prelude.{
  ℕ, Bool, true, false, not, ◌&&◌, ◌||◌, Option, none, some, List, [], ◌∷◌, ◌==◌, if◌then◌else◌, Eq,
  Bytes, bytes_eq, same, length, contains, add_element, ℤ,
}

pub data RemoteFileErrorCode : Type 0 where
  invalid_argument permission_denied not_found conflict resource_exhausted : RemoteFileErrorCode
  failed_precondition unavailable cancelled internal : RemoteFileErrorCode

pub record RemoteFileError : Type 0 where
  pub code : RemoteFileErrorCode
  pub message : Bytes

-- `MAX_REMOTE_FILE_CONTENT_SIZE` and `MAX_REMOTE_FILE_THUMBNAIL_SIZE`
pub record ContentSizes : Type 0 where
  pub content : ℕ
  pub thumbnail : ℕ

abbrev pub default_remote_directory_page_size : ℕ
default_remote_directory_page_size = 100

abbrev pub max_remote_directory_page_size : ℕ
max_remote_directory_page_size = 200

abbrev pub max_remote_range_bytes : ℕ
max_remote_range_bytes = 262144

-- Of a capability only the two that the code names are told apart.
pub data CapabilityId : Type 0 where
  remote_files_read remote_files_write : CapabilityId
  other : ℕ → CapabilityId

pub data GrantConstraints : Type 0 where
  unconstrained : GrantConstraints
  remote_file_shares : (share_ids : List Bytes) (writable : Bool) → GrantConstraints

pub record Grant (Direction : Type 0) : Type 0 where
  pub capability : CapabilityId
  pub direction : Direction
  pub constraints : GrantConstraints

pub record RemoteFileAccess : Type 0 where
  pub read_all : Bool
  pub write_all : Bool
  pub read_shares : List Bytes
  pub write_shares : List Bytes

abbrev pub no_access : RemoteFileAccess
no_access = record { read_all = false; write_all = false; read_shares = []; write_shares = [] }

-- `extend`
unfoldable pub add_all : List Bytes → List Bytes → List Bytes
add_all [] shares = shares
add_all (share ∷ more) shares = add_all more (add_element share shares)

abbrev pub covers_all : GrantConstraints → Bool
covers_all unconstrained = true
covers_all (remote_file_shares share_ids writable) = false

abbrev pub shares_of : GrantConstraints → List Bytes
shares_of unconstrained = []
shares_of (remote_file_shares share_ids writable) = share_ids

abbrev pub writable_constraint : GrantConstraints → Bool
writable_constraint unconstrained = true
writable_constraint (remote_file_shares share_ids writable) = writable

-- The body of the loop.
unfoldable pub allow : CapabilityId → GrantConstraints → RemoteFileAccess → RemoteFileAccess
unfolding add_all
allow remote_files_read constraints access = record access {
  read_all = access.read_all || covers_all constraints;
  read_shares = add_all (shares_of constraints) access.read_shares;
}
allow remote_files_write constraints access =
    if writable_constraint constraints
    then record access {
      write_all = access.write_all || covers_all constraints;
      write_shares = add_all (shares_of constraints) access.write_shares;
    }
    else access
allow (other capability) constraints access = access

module _ {Direction : Type 0} ⦃e : Eq Direction⦄ where
  unfoldable pub allow_each :
      List (Grant Direction) → Direction → RemoteFileAccess → RemoteFileAccess
  unfolding allow
  allow_each [] direction access = access
  allow_each (grant ∷ grants) direction access = allow_each grants direction (
      if same grant.direction direction
      then allow grant.capability grant.constraints access
      else access)

  unfoldable pub from_grants : List (Grant Direction) → Direction → RemoteFileAccess
  unfolding allow_each
  from_grants grants direction = allow_each grants direction no_access

unfoldable pub can_list_shares : RemoteFileAccess → Bool
can_list_shares access =
    access.read_all
    || access.write_all
    || not (length access.read_shares == 0)
    || not (length access.write_shares == 0)

unfoldable pub can_read : RemoteFileAccess → Bytes → Bool
can_read access share_id = access.read_all || contains share_id access.read_shares

unfoldable pub can_write : RemoteFileAccess → Bytes → Bool
can_write access share_id = access.write_all || contains share_id access.write_shares

pub record RemoteFileShare : Type 0 where
  pub id : Bytes
  pub name : Bytes
  pub writable : Bool

pub data RemoteFileKind : Type 0 where
  file folder : RemoteFileKind

pub data RemoteFileSortKey : Type 0 where
  by_name by_modified by_type by_size : RemoteFileSortKey

pub data RemoteFileSortDirection : Type 0 where
  ascending descending : RemoteFileSortDirection

pub record RemoteFileEntry : Type 0 where
  pub id : Bytes
  pub name : Bytes
  pub relative_path : Bytes
  pub kind : RemoteFileKind
  pub size : ℕ
  pub modified_at_ms : ℤ
  pub revision : Bytes
