-- ===== src/ConnectionRegistry/Features.antt =====
-- The two ways to ask for a feature: for one device, and for all.
use arcrelay_protocol.Prelude.{
  ℕ, ◌≡◌, refl, false, ◌&&◌, none, [], ◌∷◌, arith, Bytes, bytes_eq, nat_eq, Map, get, is_some_and,
  IsDistinct,
}
use arcrelay_protocol.Prelude.{contains}
use arcrelay_protocol.ConnectionRegistry.{
  ConnectionRegistry, ActiveConnection, is_some, supports_feature, transport_for_feature,
  devices_with_feature, list_connected_with_feature,
}

module _ {Transport : Type 0} where
  absent_device :
      (feature version : ℕ) (d : Bytes) (m : Map Bytes (ActiveConnection Transport))
      → get d m ≡ none
      → contains d (devices_with_feature feature version m) ≡ false
  unfolding devices_with_feature get contains
  absent_device feature version d [] h = refl
  absent_device feature version d ((e, c) ∷ m) h =
      ground (arith, h, absent_device feature version d m)

  listed :
      (feature version : ℕ) (d : Bytes) (m : Map Bytes (ActiveConnection Transport))
      → IsDistinct m
      → contains d (devices_with_feature feature version m)
        ≡ is_some_and (get d m) (λ c. is_some c.transport && supports_feature feature version c)
  unfolding devices_with_feature get contains
  listed feature version d [] h = refl
  listed feature version d ((e, c) ∷ m) h =
      ground (arith, h, listed feature version d m, absent_device feature version e m)

  -- A device is listed for a feature exactly if asking for its transport with that feature gives one.
  pub list_connected_with_feature-transport :
      (feature version : ℕ) (d : Bytes) (r : ConnectionRegistry Transport)
      → IsDistinct r.connections
      → contains d (list_connected_with_feature feature version r)
        ≡ is_some (transport_for_feature d feature version r)
  unfolding list_connected_with_feature transport_for_feature
  list_connected_with_feature-transport feature version d r h =
      ground (arith, listed feature version d r.connections h)
