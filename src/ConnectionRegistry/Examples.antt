-- ===== src/ConnectionRegistry/Examples.antt =====
-- A device that connects twice.
use arcrelay_protocol.Prelude.{
  ℕ, ◌≡◌, ◌≢◌, refl, true, none, some, [], ◌∷◌, Bytes, bytes_eq, bytes_discrete, nat_eq, get,
  remove, insert, bytes,
}
use arcrelay_protocol.Prelude.{contains}
use arcrelay_protocol.ConnectionRegistry.{
  ConnectionRegistry, ActiveConnection, new, register_inner, unregister,
}
use arcrelay_protocol.ConnectionRegistry.Replacement.{
  IsFresh, new-IsFresh, register-IsFresh, register_inner-replaces,
}

abbrev phone : Bytes
phone = bytes "phone"

abbrev once : ConnectionRegistry ℕ
once = (register_inner phone (some 9) ((2, 3) ∷ []) new).0

once-IsFresh : IsFresh once
once-IsFresh = register-IsFresh phone (some 9) ((2, 3) ∷ []) new new-IsFresh

abbrev first : ActiveConnection ℕ
first = record { disconnect = 0; transport = some 9; negotiated_features = (2, 3) ∷ [] }

first_found : get phone once.connections ≡ some first
unfolding register_inner get insert remove bytes_discrete
first_found = refl

tablet : bytes "tablet" ≢ phone
tablet p = cc

abbrev twice : ConnectionRegistry ℕ × ℕ
twice = register_inner phone none [] once

register_inner-replaces_example :
    (contains 0 twice.0.notified ≡ true)
    × (unregister phone 0 twice.0 ≡ twice.0)
    × (get phone (unregister phone twice.1 twice.0).connections ≡ none)
    × (get (bytes "tablet") (unregister phone twice.1 twice.0).connections
        ≡ get (bytes "tablet") once.connections)
register_inner-replaces_example =
    register_inner-replaces phone (bytes "tablet") none [] first once once-IsFresh first_found
      tablet
