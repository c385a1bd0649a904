-- ===== src/InputSession/Acquire.antt =====
-- Who gets control, and under which lease.
use arcrelay_protocol.Prelude.{
  inl, inr, ◌⊎◌, ℕ, ◌<◌, ◌≡◌, refl, Bool, Option, some, List, [], ◌∷◌, arith, Bytes, bytes_eq,
  nat_eq, Map, get, remove, insert,
}
use arcrelay_protocol.InputSession.{
  InputLease, input_lease_eq, ActiveInputSession, InputSessionState, Result, ok, err,
  already_controlled, acquire_with_routing, new_session, lease_of_draw,
}

-- The ranges that every client runtime can represent.
pub record IsRepresentable (lease : InputLease) : Type 0 where
  pub session_pos : 0 < lease.session_id
  pub session_signed : lease.session_id < 9223372036854775808
  pub epoch_pos : 0 < lease.epoch
  pub epoch_u32 : lease.epoch < 4294967296

lease_of_draw-IsRepresentable : (r s : ℕ) → s < 4294967296 → IsRepresentable (lease_of_draw (r, s))
unfolding lease_of_draw
lease_of_draw-IsRepresentable r s h = ground arith

module _ {Gesture : Type 0} where
  -- Nobody was in control, and the caller is now, with nothing pressed.
  pub record Grants (idle : Gesture) (now : ℕ) (device_id : Bytes) (routed : Bool)
      (state : InputSessionState Gesture)
      (answer : Option (InputSessionState Gesture × Result InputLease)) : Type 0 where
    pub free : state.active ≡ []
    pub lease : InputLease
    pub representable : IsRepresentable lease
    pub granted :
        answer
        ≡ some (
          record state { active = (lease, new_session idle now lease device_id routed) ∷ [] },
          ok lease,
        )

  -- Another session is in control; it is named, and the state is as it was.
  pub record Denies (state : InputSessionState Gesture)
      (answer : Option (InputSessionState Gesture × Result InputLease)) : Type 0 where
    pub owner : InputLease
    pub current : ActiveInputSession Gesture
    pub rest : Map InputLease (ActiveInputSession Gesture)
    pub taken : state.active ≡ (owner, current) ∷ rest
    pub denied :
        answer ≡ some (state, err (already_controlled current.device_id current.lease.epoch))

  -- With one random draw at least, `acquire_with_routing` answers. Either nobody was in control,
  -- and the caller gets a new session under a lease of positive numbers that fit a signed 64-bit
  -- and an unsigned 32-bit integer; or a session was, and the answer is the error that
  -- names its device and epoch, and nothing changes.
  pub acquire_exclusive :
      (idle : Gesture) (now r s : ℕ) (draws : List (ℕ × ℕ)) (device_id : Bytes) (routed : Bool)
      (state : InputSessionState Gesture)
      → s < 4294967296
      → let answer = acquire_with_routing idle now ((r, s) ∷ draws) device_id routed state in
        Grants idle now device_id routed state answer ⊎ Denies state answer
  unfolding acquire_with_routing get insert remove
  acquire_exclusive idle now r s draws device_id routed state h = by_active state.active refl
    where
      by_active :
          (active : Map InputLease (ActiveInputSession Gesture))
          → state.active ≡ active
          → let answer = acquire_with_routing idle now ((r, s) ∷ draws) device_id routed state in
            Grants idle now device_id routed state answer ⊎ Denies state answer
      by_active [] e = inl (record {
        free = e;
        lease = lease_of_draw (r, s);
        representable = lease_of_draw-IsRepresentable r s h;
        granted = ground (arith, e);
      })
      by_active ((owner, current) ∷ rest) e = inr (record {
        owner = owner;
        current = current;
        rest = rest;
        taken = e;
        denied = ground (arith, e);
      })
