-- ===== src/ConnectionRegistry.antt =====
-- src/server/connection_registry.rs: the live connections, one for a device. A `Notify` is its
-- number; those that have been signalled are kept. A transport is quinn's and is a parameter.
pub mod Replacement
pub mod Features
mod Examples
use arcrelay_protocol.Prelude.{
  ◌⊎◌, ℕ, suc, zero, ◌+◌, ◌-◌, ◌≤◌, ◌<◌, ◌≡◌, ◌≢◌, ◌∙◌, Bool, true, false, ◌||◌, ◌&&◌, Option, none,
  some, List, [], ◌∷◌, ◌++◌, map, arith, ◌==◌, if◌then◌else◌, Bytes, bytes_eq, nat_eq, Map, get,
  remove, insert, ◌%◌, ◌*◌, is_some_and,
}

pub record ActiveConnection (Transport : Type 0) : Type 0 where
  pub disconnect : ℕ
  pub transport : Option Transport
  pub negotiated_features : Map ℕ ℕ

pub record ConnectionRegistry (Transport : Type 0) : Type 0 where
  pub connections : Map Bytes (ActiveConnection Transport)
  pub notified : List ℕ
  pub next_notify : ℕ

module _ {Transport : Type 0} where
  pub supports_feature : ℕ → ℕ → ActiveConnection Transport → Bool
  supports_feature feature version connection =
      is_some_and (get feature connection.negotiated_features) (λ selected. selected == version)

  abbrev pub new : ConnectionRegistry Transport
  new = record { connections = []; notified = []; next_notify = 0 }

  -- The new connection replaces the previous one of the device, which is signalled.
  pub register_inner :
      Bytes
      → Option Transport
      → Map ℕ ℕ
      → ConnectionRegistry Transport
      → ConnectionRegistry Transport × ℕ
  register_inner device_id transport negotiated_features registry =
      let notify = registry.next_notify in
      (
        record {
          connections =
              insert device_id
                (record {
                  disconnect = notify;
                  transport = transport;
                  negotiated_features = negotiated_features;
                })
                registry.connections;
          notified = elim (get device_id registry.connections) [
            | none ↦ registry.notified
            | some previous ↦ previous.disconnect ∷ registry.notified
          ];
          next_notify = suc notify;
        },
        notify,
      )

  pub register : Bytes → ConnectionRegistry Transport → ConnectionRegistry Transport × ℕ
  unfolding register_inner
  register device_id = register_inner device_id none []

  pub register_transport_with_features :
      Bytes → Transport → Map ℕ ℕ → ConnectionRegistry Transport → ConnectionRegistry Transport × ℕ
  unfolding register_inner
  register_transport_with_features device_id transport features =
      register_inner device_id (some transport) features

  pub register_transport :
      Bytes → Transport → ConnectionRegistry Transport → ConnectionRegistry Transport × ℕ
  unfolding register_transport_with_features
  register_transport device_id transport = register_transport_with_features device_id transport []

  -- `Arc::ptr_eq` compares the numbers.
  pub unregister : Bytes → ℕ → ConnectionRegistry Transport → ConnectionRegistry Transport
  unregister device_id notify registry =
      if is_some_and (get device_id registry.connections) (λ active. active.disconnect == notify)
      then record registry { connections = remove device_id registry.connections }
      else registry

  pub disconnect_device : Bytes → ConnectionRegistry Transport → ConnectionRegistry Transport × Bool
  disconnect_device device_id registry = elim (get device_id registry.connections) [
    | none ↦ (registry, false)
    | some connection ↦
        (record registry { notified = connection.disconnect ∷ registry.notified }, true)
  ]

  pub transport_of : Bytes → ConnectionRegistry Transport → Option Transport
  transport_of device_id registry = elim (get device_id registry.connections) [
    | none ↦ none
    | some connection ↦ connection.transport
  ]

  pub transport_for_feature : Bytes → ℕ → ℕ → ConnectionRegistry Transport → Option Transport
  unfolding supports_feature
  transport_for_feature device_id feature version registry =
      elim (get device_id registry.connections) [
        | none ↦ none
        | some connection ↦
            if supports_feature feature version connection then connection.transport else none
      ]

  pub list_connected : ConnectionRegistry Transport → List Bytes
  list_connected registry = map (λ entry. entry.0) registry.connections

  abbrev pub is_some : Option Transport → Bool
  is_some none = false
  is_some (some t) = true

  pub devices_with_feature : ℕ → ℕ → Map Bytes (ActiveConnection Transport) → List Bytes
  unfolding supports_feature
  devices_with_feature feature version [] = []
  devices_with_feature feature version ((device_id, connection) ∷ rest) =
      let others = devices_with_feature feature version rest in
      if is_some connection.transport && supports_feature feature version connection
      then device_id ∷ others
      else others

  pub list_connected_with_feature : ℕ → ℕ → ConnectionRegistry Transport → List Bytes
  unfolding devices_with_feature
  list_connected_with_feature feature version registry =
      devices_with_feature feature version registry.connections
