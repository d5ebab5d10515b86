-- ===== src/Tests/Udp.antt =====
-- A socket of udp.rs over a system whose world is the peer that it holds.
use wasmx.Base.{
  ℕ, ◌≡◌, ◌≢◌, ◌≤◌, ◌*◌, min, max, arith, i32_max, refl, true, List, [], ◌∷◌, Option, none, some,
  ok, err, length,
}
use wasmx.Sockets.Errors.{ErrorKind, ErrorCode}
use wasmx.Sockets.Address.{
  Family, SocketAddr, is_valid_address_family, is_valid_remote_address, is_unspecified,
  to_canonical,
}
use wasmx.Sockets.Options.{Sockopt}
use wasmx.Sockets.Udp.{
  UdpOs, UdpSocket, UdpState, moved, bind, disconnect, reconnect, released, connect, send,
  send_loop,
}
use wasmx.Sockets.Udp.Peer.{TracksPeer}
use wasmx.Sockets.Udp.Coherence.{
  Call, binds, connects, sends, serve, run, IsCoherent, run-IsCoherent,
}
use wasmx.Sockets.Options.RoundTrip.{IsLinux}
use wasmx.Sockets.Udp.Settings.{
  unicast_hop_limit, change_unicast_hop_limit, get_receive_buffer_size, change_receive_buffer_size,
  get_send_buffer_size, change_send_buffer_size, settings_round_trip,
}
use wasmx.Tests.Addresses.{web}
use wasmx.Tests.Tcp.{refusal}

abbrev Peer : Type 0
Peer = Option SocketAddr

abbrev options : Sockopt ℕ Peer
options = record {
  socket_keepalive = λ fd w. ok true;
  set_socket_keepalive = λ fd b w. (ok tt, w);
  tcp_keepidle = λ fd w. ok 0;
  set_tcp_keepidle = λ fd n w. (ok tt, w);
  tcp_keepintvl = λ fd w. ok 0;
  set_tcp_keepintvl = λ fd n w. (ok tt, w);
  tcp_keepcnt = λ fd w. ok 0;
  set_tcp_keepcnt = λ fd n w. (ok tt, w);
  ip_ttl = λ fd w. ok 64;
  set_ip_ttl = λ fd n w. (ok tt, w);
  ipv6_unicast_hops = λ fd w. ok 64;
  set_ipv6_unicast_hops = λ fd n w. (ok tt, w);
  recv_buffer_size = λ fd w. ok 64;
  set_recv_buffer_size = λ fd n w. (ok tt, w);
  send_buffer_size = λ fd w. ok 64;
  set_send_buffer_size = λ fd n w. (ok tt, w);
}

abbrev system : UdpOs
system = record {
  World = Peer;
  os_new = λ family w. (ok 1, w);
  set_v6only = λ s w. (ok tt, w);
  os_error = λ e. record { errno = some e; kind = ErrorKind.other 0 };
  register = λ s w. (ok s, w);
  os_bind = λ s a w. (ok tt, w);
  os_connect = λ s a w. (ok tt, some a);
  connect_unspec = λ s w. (ok tt, none);
  os_send = λ s buf w. (ok (length buf), w);
  os_send_to = λ s buf a w. (err refusal, w);
  os_recv = λ s n w. (ok (1 ∷ []), w);
  os_recv_from = λ s n w. (ok (1 ∷ [], web), w);
  local_addr = λ s w. ok web;
  peer_addr = λ s w. ok web;
  sockopt = options;
}

system-TracksPeer : TracksPeer system
system-TracksPeer = record {
  peer = λ h w. w;
  bind_keeps = λ h a w. refl;
  connect_sets = λ h a w e. refl;
  connect_fails = λ h a x w n e. cc;
  unspec_clears = λ h w e. refl;
  unspec_fails = λ h x w e. cc;
  send_keeps = λ h buf w. refl;
  send_to_keeps = λ h buf a w. refl;
  recv_keeps = λ h n w. refl;
  recv_from_keeps = λ h n w. refl;
}

abbrev fresh : UdpSocket
fresh = record { socket = 1; udp_state = UdpState.default; family = Family.ipv4 }

abbrev joined : UdpSocket
joined = record { socket = 1; udp_state = UdpState.connected web; family = Family.ipv4 }

abbrev calls : List Call
calls = binds web ∷ connects web ∷ connects web ∷ sends 1 (5 ∷ 6 ∷ []) ∷ []

run-calls : run system calls fresh none ≡ some (joined, some web)
unfolding run serve bind moved connect reconnect released disconnect send send_loop
    is_valid_address_family is_valid_remote_address is_unspecified to_canonical
run-calls = refl

fresh-IsCoherent : IsCoherent system system-TracksPeer fresh none
unfolding system-TracksPeer
fresh-IsCoherent = refl

run-IsCoherent_example : IsCoherent system system-TracksPeer joined (some web)
run-IsCoherent_example =
    run-IsCoherent system system-TracksPeer calls fresh joined none (some web) fresh-IsCoherent
      run-calls

-- A system whose world is the option that was set last.
abbrev cell : Sockopt ℕ ℕ
cell = record {
  socket_keepalive = λ fd w. ok true;
  set_socket_keepalive = λ fd b w. (ok tt, w);
  tcp_keepidle = λ fd w. ok w;
  set_tcp_keepidle = λ fd n w. (ok tt, n);
  tcp_keepintvl = λ fd w. ok w;
  set_tcp_keepintvl = λ fd n w. (ok tt, n);
  tcp_keepcnt = λ fd w. ok w;
  set_tcp_keepcnt = λ fd n w. (ok tt, n);
  ip_ttl = λ fd w. ok w;
  set_ip_ttl = λ fd n w. (ok tt, n);
  ipv6_unicast_hops = λ fd w. ok w;
  set_ipv6_unicast_hops = λ fd n w. (ok tt, n);
  recv_buffer_size = λ fd w. ok w;
  set_recv_buffer_size = λ fd n w. (ok tt, max 2304 (2 * min n 212_992));
  send_buffer_size = λ fd w. ok w;
  set_send_buffer_size = λ fd n w. (ok tt, max 4608 (2 * min n 212_992));
}

abbrev cell-IsLinux : IsLinux cell
cell-IsLinux = record {
  recv_min = 2304;
  recv_max = 212_992;
  send_min = 4608;
  send_max = 212_992;
  recv_fits = omega arith;
  send_fits = omega arith;
  doubles_recv = λ fd n w e. refl;
  doubles_send = λ fd n w e. refl;
  keeps_ttl = λ fd n w e. refl;
  keeps_hops = λ fd n w e. refl;
}

abbrev tuned : UdpOs
tuned = record {
  World = ℕ;
  os_new = λ family w. (ok 1, w);
  set_v6only = λ s w. (ok tt, w);
  os_error = λ e. record { errno = some e; kind = ErrorKind.other 0 };
  register = λ s w. (ok s, w);
  os_bind = λ s a w. (ok tt, w);
  os_connect = λ s a w. (ok tt, w);
  connect_unspec = λ s w. (ok tt, w);
  os_send = λ s buf w. (ok (length buf), w);
  os_send_to = λ s buf a w. (err refusal, w);
  os_recv = λ s n w. (ok (1 ∷ []), w);
  os_recv_from = λ s n w. (ok (1 ∷ [], web), w);
  local_addr = λ s w. ok web;
  peer_addr = λ s w. ok web;
  sockopt = cell;
}

settings_round_trip_example :
    ((◌≡◌ {A = ℕ} 200 0)
      → (change_unicast_hop_limit tuned 200 joined 7 ≡ (err ErrorCode.invalid_argument, 7))
        × (change_receive_buffer_size tuned 200 joined 7 ≡ (err ErrorCode.invalid_argument, 7))
        × (change_send_buffer_size tuned 200 joined 7 ≡ (err ErrorCode.invalid_argument, 7)))
    × ((200 ≤ 255)
        → (change_unicast_hop_limit tuned 200 joined 7).0 ≡ ok tt
        → unicast_hop_limit tuned joined (change_unicast_hop_limit tuned 200 joined 7).1 ≡ ok 200)
    × ((◌≢◌ {A = ℕ} 200 0)
        → (cell.set_recv_buffer_size 1 (min 200 i32_max) 7).0 ≡ ok tt
        → let (r, w) = change_receive_buffer_size tuned 200 joined 7 in
          (r ≡ ok tt) × (get_receive_buffer_size tuned joined w ≡ ok 1152))
    × ((◌≢◌ {A = ℕ} 200 0)
        → (cell.set_send_buffer_size 1 (min 200 i32_max) 7).0 ≡ ok tt
        → let (r, w) = change_send_buffer_size tuned 200 joined 7 in
          (r ≡ ok tt) × (get_send_buffer_size tuned joined w ≡ ok 2304))
settings_round_trip_example = settings_round_trip tuned cell-IsLinux joined 200 7
