-- ===== src/Sockets/Tcp/Connecting.antt =====
-- Which addresses `start_bind` and `start_connect` of tcp.rs let through, and what they start.
use wasmx.Base.{
  ◌≡◌, ◌≢◌, ◌↔◌, ◌≤◌, refl, Bool, true, false, ok, err, arith, not, ◌||◌, if◌then◌else◌,
}
use wasmx.Io.{Handle}
use wasmx.Sockets.Errors.{ErrorCode}
use wasmx.Sockets.Address.{
  Family, SocketAddr, ip, port, is_valid_address_family, is_valid_remote_address,
  is_valid_unicast_address,
}
use wasmx.Sockets.Address.Ranges.{
  IsWellFormed, IsUnicast, IsSpecified, IsOfFamily, is_valid_address_family_iff,
  is_valid_unicast_address_iff, is_valid_remote_address_iff,
}
use wasmx.Sockets.Tcp.{TcpOs, TcpState, start_bind, start_connect, start_connect_valid, bind}
use wasmx.Sockets.Tcp.Lifecycle.{rank}

module _ (os : TcpOs) where
  start_connect_valid_iff :
      (a : SocketAddr) (s : TcpState) (w : os.World)
      → ((start_connect_valid os a s w).0 ≡ ok tt) ↔ (rank s ≤ 2)
  unfolding start_connect_valid
  start_connect_valid_iff a (TcpState.default k) w = ground arith
  start_connect_valid_iff a _ w = ground arith

  -- `start_connect` succeeds exactly when the address, of well-formed parts, is unicast, is not the
  -- unspecified one, has a port, is of the socket's family and no IPv4-compatible or IPv4-mapped IPv6
  -- address (`::2` to `::ffff:ffff`, `::ffff:0:0` to `::ffff:ffff:ffff`), and the socket is in one of
  -- the states default, bind started and bound.
  pub start_connect_iff :
      (family : Family) (a : SocketAddr) (s : TcpState) (w : os.World)
      → IsWellFormed (ip a)
      → ((start_connect os family a s w).0 ≡ ok tt) ↔ (
          IsUnicast (ip a)
          × ((port a ≢ 0) × IsSpecified (ip a))
          × IsOfFamily (ip a) family
          × (rank s ≤ 2))
  unfolding start_connect
  start_connect_iff family a s w h =
      let u = is_valid_unicast_address_iff (ip a) h in
      let r = is_valid_remote_address_iff a h in
      let f = is_valid_address_family_iff (ip a) family h in
      let v = start_connect_valid_iff a s w in
      tests (is_valid_unicast_address (ip a)) (is_valid_remote_address a)
        (is_valid_address_family (ip a) family) u r f v
    where
      tests :
          (b c d : Bool)
          → (b ≡ true) ↔ IsUnicast (ip a)
          → (c ≡ true) ↔ ((port a ≢ 0) × IsSpecified (ip a))
          → (d ≡ true) ↔ IsOfFamily (ip a) family
          → ((start_connect_valid os a s w).0 ≡ ok tt) ↔ (rank s ≤ 2)
          → ((if not b || not c || not d
                then (err ErrorCode.invalid_argument, s, w)
                else start_connect_valid os a s w).0
              ≡ ok tt)
            ↔ (IsUnicast (ip a)
                × ((port a ≢ 0) × IsSpecified (ip a))
                × IsOfFamily (ip a) family
                × (rank s ≤ 2))
      tests true true true u r f v = ((λ e. (u.0 refl, r.0 refl, f.0 refl, v.0 e)), (λ t. v.1 t.3))
      tests true true false u r f v = ((λ e. cc), (λ t. cc (f.1 t.2)))
      tests true false d u r f v = ((λ e. cc), (λ t. cc (r.1 t.1)))
      tests false c d u r f v = ((λ e. cc), (λ t. cc (u.1 t.0)))

  -- `start_bind` succeeds only for a socket in the state default, an address, of well-formed parts,
  -- that is unicast and of the socket's family, and when the system allows address reuse to be set
  -- and binds; the socket is then in the state bind started.
  pub start_bind-ok :
      (family : Family) (a : SocketAddr) (s : TcpState) (w : os.World)
      → IsWellFormed (ip a)
      → (start_bind os family a s w).0 ≡ ok tt
      → (sock : Handle) × (s ≡ TcpState.default sock)
        × ((start_bind os family a s w).1 ≡ TcpState.bind_started sock)
        × IsUnicast (ip a)
        × (is_valid_address_family (ip a) family ≡ true)
        × ((bind os sock a w).0 ≡ ok tt)
  unfolding start_bind
  start_bind-ok family a (TcpState.default sock) w h e =
      let u = is_valid_unicast_address_iff (ip a) h in
      (sock, refl, ground arith, u.0 (ground arith), ground arith, ground arith)
  start_bind-ok family a _ w h e = ground arith
