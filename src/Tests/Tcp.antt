-- ===== src/Tests/Tcp.antt =====
-- The states of tcp.rs over a system whose calls succeed, but for a connection that is refused.
use wasmx.Base.{ℕ, ◌≤◌, ◌≡◌, ◌≢◌, ◌↔◌, ◌⊎◌, refl, true, List, [], ◌∷◌, none, some, ok, err}
use wasmx.Sockets.Errors.{ErrorCode, ErrorKind, IoError, Errno, from_io_error, from_errno}
use wasmx.Sockets.Address.{Family, ip, port, is_valid_address_family, is_valid_unicast_address}
use wasmx.Sockets.Address.Ranges.{IsUnicast, IsSpecified, IsOfFamily}
use wasmx.Sockets.Tcp.{
  TcpOs, TcpState, poll, bind, start_bind, start_connect, finish_connect, establish, accept,
}
use wasmx.Sockets.Tcp.Lifecycle.{
  Call, finish_connects, polls, accepts, listens, finish_listens, rank, call, run, IsSpent,
  IsSettled, rank-run, run-IsSettled, call-failure,
}
use wasmx.Sockets.Tcp.Polling.{poll-ready}
use wasmx.Sockets.Tcp.Connecting.{start_connect_iff}
use wasmx.Tests.Addresses.{ten-IsOctets, web}

abbrev pub refusal : IoError
refusal = record { errno = some Errno.connrefused; kind = ErrorKind.connection_refused }

-- The world counts the calls.
abbrev pub system : TcpOs
system = record {
  World = ℕ;
  os_new = λ family w. (ok 1, w);
  set_v6only = λ s w. (ok tt, w);
  os_error = λ e. record { errno = some e; kind = ErrorKind.other 0 };
  set_reuseaddr = λ s b w. (ok tt, w);
  os_bind = λ s a w. (ok tt, w);
  os_connect = λ s a w. (2, w);
  poll_connect = λ f w. (some (err refusal), w);
  os_listen = λ s n w. (ok 3, w);
  os_relisten = λ l n w. (ok tt, w);
  poll_accept = λ l w. (some (ok (4, web)), w);
  os_shutdown = λ s how w. w;
  local_addr = λ fd w. ok web;
  peer_addr = λ s w. ok web;
}

abbrev calls : List Call
calls = listens 5 ∷ finish_listens ∷ polls ∷ accepts ∷ []

refused :
    (call system finish_connects (TcpState.connect_started 2) 0).0
    ≡ some ErrorCode.connection_refused
unfolding call finish_connect establish from_io_error from_errno
refused = refl

polled : (poll system (TcpState.connect_started 2) 0).0 ≡ true
unfolding poll
polled = refl

bound : (start_bind system Family.ipv4 web (TcpState.default 1) 0).0 ≡ ok tt
unfolding start_bind bind is_valid_address_family is_valid_unicast_address
bound = refl

call-failure_example :
    ((call system finish_connects (TcpState.connect_started 2) 0).1 ≡ TcpState.connect_started 2)
    ⊎ IsSpent system 0 finish_connects
        (TcpState.connect_started 2)
        (call system finish_connects (TcpState.connect_started 2) 0).1
call-failure_example =
    call-failure system finish_connects (TcpState.connect_started 2) 0 ErrorCode.connection_refused
      refused

poll-ready_example :
    let (_, s, w) = poll system (TcpState.connect_started 2) 0 in
    ((finish_connect system s w).0 ≢ err ErrorCode.would_block)
    × ((accept system s w).0 ≢ err ErrorCode.would_block)
    × (poll system s w ≡ (true, s, w))
poll-ready_example = poll-ready system (TcpState.connect_started 2) 0 polled

run-IsSettled_example :
    IsSettled system (TcpState.listening 3 none) (run system calls (TcpState.listening 3 none) 0).0
run-IsSettled_example = run-IsSettled system calls (TcpState.listening 3 none) 0

rank-run_example : rank (TcpState.bound 1) ≤ rank (run system calls (TcpState.bound 1) 0).0
rank-run_example = rank-run system calls (TcpState.bound 1) 0

start_connect_iff_example :
    ((start_connect system Family.ipv4 web (TcpState.default 1) 0).0 ≡ ok tt) ↔ (
      IsUnicast (ip web)
      × ((port web ≢ 0) × IsSpecified (ip web))
      × IsOfFamily (ip web) Family.ipv4
      × (0 ≤ 2))
start_connect_iff_example =
    start_connect_iff system Family.ipv4 web (TcpState.default 1) 0 ten-IsOctets
