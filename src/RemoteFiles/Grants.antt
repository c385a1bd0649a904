-- ===== src/RemoteFiles/Grants.antt =====
-- What access the grants of a device give, against each grant read by itself.
use arcrelay_protocol.Prelude.{
  ◌≡◌, refl, ◌∙◌, Bool, true, false, ◌&&◌, ◌||◌, List, [], ◌∷◌, arith, if◌then◌else◌, Eq, Bytes,
  bytes_eq, same, any, contains, contains-count, add_element, count-add_element,
}
use arcrelay_protocol.RemoteFiles.{
  CapabilityId, remote_files_read, remote_files_write, other, GrantConstraints, unconstrained,
  remote_file_shares, Grant, RemoteFileAccess, no_access, add_all, writable_constraint, allow,
  allow_each, from_grants, can_read, can_write,
}

-- A constraint that does not exclude a share.
pub admits : GrantConstraints → Bytes → Bool
admits unconstrained share_id = true
admits (remote_file_shares share_ids writable) share_id = contains share_id share_ids

-- A grant to read a share, and one to write it.
pub reads : CapabilityId → GrantConstraints → Bytes → Bool
unfolding admits
reads remote_files_read constraints share_id = admits constraints share_id
reads remote_files_write constraints share_id = false
reads (other capability) constraints share_id = false

pub writes : CapabilityId → GrantConstraints → Bytes → Bool
unfolding admits
writes remote_files_read constraints share_id = false
writes remote_files_write constraints share_id =
    writable_constraint constraints && admits constraints share_id
writes (other capability) constraints share_id = false

contains-add_element :
    (s x : Bytes) (shares : List Bytes)
    → contains s (add_element x shares) ≡ (same s x || contains s shares)
contains-add_element s x shares = ground (
  arith,
  contains-count s shares,
  contains-count s (add_element x shares),
  count-add_element s x shares,
)

contains-add_all :
    (s : Bytes) (more shares : List Bytes)
    → contains s (add_all more shares) ≡ (contains s more || contains s shares)
unfolding add_all contains
contains-add_all s [] shares = refl
contains-add_all s (x ∷ more) shares =
    ground (arith, contains-add_all s more (add_element x shares), contains-add_element s x shares)

can_read-allow :
    (s : Bytes) (c : CapabilityId) (k : GrantConstraints) (a : RemoteFileAccess)
    → can_read (allow c k a) s ≡ (can_read a s || reads c k s)
unfolding can_read allow reads
can_read-allow s remote_files_read unconstrained a =
    ground (arith, contains-add_all s [] a.read_shares)
can_read-allow s remote_files_read (remote_file_shares ids w) a =
    ground (arith, contains-add_all s ids a.read_shares)
can_read-allow s remote_files_write k a = ground arith
can_read-allow s (other c) k a = ground arith

can_write-allow :
    (s : Bytes) (c : CapabilityId) (k : GrantConstraints) (a : RemoteFileAccess)
    → can_write (allow c k a) s ≡ (can_write a s || writes c k s)
unfolding can_write allow writes
can_write-allow s remote_files_read k a = ground arith
can_write-allow s remote_files_write unconstrained a =
    ground (arith, contains-add_all s [] a.write_shares)
can_write-allow s remote_files_write (remote_file_shares ids w) a =
    ground (arith, contains-add_all s ids a.write_shares)
can_write-allow s (other c) k a = ground arith

module _ {Direction : Type 0} ⦃e : Eq Direction⦄ where
  pub grants_read : Direction → Bytes → Grant Direction → Bool
  grants_read d s g = same g.direction d && reads g.capability g.constraints s

  pub grants_write : Direction → Bytes → Grant Direction → Bool
  grants_write d s g = same g.direction d && writes g.capability g.constraints s

  allow_each-read :
      (s : Bytes) (grants : List (Grant Direction)) (d : Direction) (a : RemoteFileAccess)
      → can_read (allow_each grants d a) s ≡ (can_read a s || any (grants_read d s) grants)
  unfolding allow_each grants_read
  allow_each-read s [] d a = ground arith
  allow_each-read s (g ∷ grants) d a = ground (
    arith,
    allow_each-read s grants d
        (if same g.direction d then allow g.capability g.constraints a else a),
    can_read-allow s g.capability g.constraints a,
  )

  allow_each-write :
      (s : Bytes) (grants : List (Grant Direction)) (d : Direction) (a : RemoteFileAccess)
      → can_write (allow_each grants d a) s ≡ (can_write a s || any (grants_write d s) grants)
  unfolding allow_each grants_write
  allow_each-write s [] d a = ground arith
  allow_each-write s (g ∷ grants) d a = ground (
    arith,
    allow_each-write s grants d
        (if same g.direction d then allow g.capability g.constraints a else a),
    can_write-allow s g.capability g.constraints a,
  )

  -- A device can read a share exactly if one of its grants, in the direction asked for, is to read
  -- and is not constrained to other shares; it can write one exactly if a grant is to write, is not
  -- constrained to other shares, and is not constrained to reading.
  pub from_grants-exact :
      (grants : List (Grant Direction)) (d : Direction) (s : Bytes)
      → (can_read (from_grants grants d) s ≡ any (grants_read d s) grants)
        × (can_write (from_grants grants d) s ≡ any (grants_write d s) grants)
  unfolding from_grants
  from_grants-exact grants d s = (
    allow_each-read s grants d no_access ∙ (unfold can_read in unfold contains in refl),
    allow_each-write s grants d no_access ∙ (unfold can_write in unfold contains in refl),
  )
