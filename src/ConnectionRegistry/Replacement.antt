-- ===== src/ConnectionRegistry/Replacement.antt =====
-- A device that reconnects: what becomes of the connection before.
use arcrelay_protocol.Prelude.{
  inl, inr, ℕ, ◌<◌, ◌≡◌, ◌≢◌, true, Option, none, some, arith, ◌==◌, Bytes, bytes_eq, nat_eq, Map,
  get, insert, get-remove, get-insert, Bool-cases, is_some_and, IsDistinct, remove-IsDistinct,
  insert-IsDistinct,
}
use arcrelay_protocol.Prelude.{contains}
use arcrelay_protocol.ConnectionRegistry.{
  ConnectionRegistry, ActiveConnection, new, register_inner, unregister,
}

module _ {Transport : Type 0} where
  -- Every signal is of a number that has been given out, and no two devices share one.
  pub record IsFresh (r : ConnectionRegistry Transport) : Type 0 where
    pub distinct : IsDistinct r.connections
    pub given :
        (d : Bytes) (c : ActiveConnection Transport)
        → get d r.connections ≡ some c
        → c.disconnect < r.next_notify
    pub own :
        (d e : Bytes) (c : ActiveConnection Transport) (c' : ActiveConnection Transport)
        → get d r.connections ≡ some c
        → get e r.connections ≡ some c'
        → c.disconnect ≡ c'.disconnect
        → d ≡ e

  pub new-IsFresh : IsFresh new
  unfolding get
  new-IsFresh = record {
    distinct = tt;
    given = λ d c h. absurd (ground (arith, h));
    own = λ d e c c' h. absurd (ground (arith, h));
  }

  -- The invariant is kept by a registration and by an unregistration.
  pub register-IsFresh :
      (d : Bytes) (t : Option Transport) (f : Map ℕ ℕ) (r : ConnectionRegistry Transport)
      → IsFresh r
      → IsFresh (register_inner d t f r).0
  unfolding register_inner
  register-IsFresh d t f r i =
      let c : ActiveConnection Transport = record {
        disconnect = r.next_notify;
        transport = t;
        negotiated_features = f;
      } in
      record {
        distinct = insert-IsDistinct d c r.connections i.distinct;
        given = λ e x h. ground (arith, h, get-insert e d c r.connections, i.given e x);
        own = λ e e' x x' h h' p. ground (
          arith,
          h,
          h',
          p,
          get-insert e d c r.connections,
          get-insert e' d c r.connections,
          i.given e x,
          i.given e' x',
          i.own e e' x x',
        );
      }

  pub unregister-IsFresh :
      (d : Bytes) (n : ℕ) (r : ConnectionRegistry Transport)
      → IsFresh r
      → IsFresh (unregister d n r)
  unfolding unregister
  unregister-IsFresh d n r i =
      elim (Bool-cases (is_some_and (get d r.connections) (λ active. active.disconnect == n))) [
        | inr e ↦ rw (e, unregister) i
        | inl e ↦
            rw (e, unregister)
              (record {
                distinct = remove-IsDistinct d r.connections i.distinct;
                given = λ x c h. ground (arith, h, get-remove x d r.connections, i.given x c);
                own = λ x y c c' h h' p. ground (
                  arith,
                  h,
                  h',
                  p,
                  get-remove x d r.connections,
                  get-remove y d r.connections,
                  i.own x y c c',
                );
              })
      ]

  -- After a device has reconnected: its former connection has been signalled, and when that one
  -- ends it takes nothing away; when the new one ends, the device is gone; and other devices keep
  -- what they had throughout.
  pub register_inner-replaces :
      (d other : Bytes) (t : Option Transport) (f : Map ℕ ℕ) (previous : ActiveConnection Transport)
      (r : ConnectionRegistry Transport)
      → IsFresh r
      → get d r.connections ≡ some previous
      → other ≢ d
      → (let result = register_inner d t f r in
          (contains previous.disconnect result.0.notified ≡ true)
          × (unregister d previous.disconnect result.0 ≡ result.0)
          × (get d (unregister d result.1 result.0).connections ≡ none)
          × (get other (unregister d result.1 result.0).connections ≡ get other r.connections))
  unfolding register_inner unregister contains
  register_inner-replaces d other t f previous r i h ne =
      let c : ActiveConnection Transport = record {
        disconnect = r.next_notify;
        transport = t;
        negotiated_features = f;
      } in
      let connections = insert d c r.connections in
      (
        ground (arith, h),
        ground (arith, h, i.given d previous, get-insert d d c r.connections),
        ground (arith, get-insert d d c r.connections, get-remove d d connections),
        ground (
          arith,
          ne,
          get-insert d d c r.connections,
          get-insert other d c r.connections,
          get-remove other d connections,
        ),
      )
