-- ===== src/Sockets/Tcp.antt =====
-- crates/wasmlet/src/engine/wasi/sockets/tcp.rs, `TcpState` and its transitions, on Linux. A call
-- gives back its result, the state (`*self`) and the world.
pub mod Lifecycle
pub mod Polling
pub mod Connecting
pub mod Socket
use wasmx.Base.{
  ℕ, Bool, true, false, Option, none, some, Result, ok, err, ⊤, not, ◌&&◌, ◌||◌, ltb, if◌then◌else◌,
}
use wasmx.Io.{Handle, InputStream, OutputStream}
use wasmx.Sockets.Errors.{ErrorCode, Errno, IoError, from_errno, from_io_error}
use wasmx.Sockets.Address.{
  Family, SocketAddr, ip, port, is_valid_address_family, is_valid_remote_address,
  is_valid_unicast_address,
}
use wasmx.Sockets.Address.Conversions.{IpSocketAddress, from_socket_addr}

-- `std::net::Shutdown`
pub data Shutdown : Type 0 where
  read write both : Shutdown

-- What is behind a file descriptor: `tokio::net::{TcpSocket, TcpListener, TcpStream}`.
pub data Fd : Type 0 where
  socket listener stream : Handle → Fd

abbrev pub Accepted : Type 0
Accepted = Result (Handle × SocketAddr) IoError

-- What tcp.rs calls of tokio, `std::net` and rustix. `none` from a poll is `Poll::Pending`.
pub record TcpOs : Type 1 where
  pub World : Type 0
  pub os_new : Family → World → Result Handle IoError × World
  pub set_v6only : Handle → World → Result ⊤ Errno × World
  -- `impl From<Errno> for std::io::Error`
  pub os_error : Errno → IoError
  pub set_reuseaddr : Handle → Bool → World → Result ⊤ Errno × World
  pub os_bind : Handle → SocketAddr → World → Result ⊤ IoError × World
  -- `TcpSocket::connect` makes a future, which `poll_connect` polls
  pub os_connect : Handle → SocketAddr → World → Handle × World
  pub poll_connect : Handle → World → Option (Result Handle IoError) × World
  pub os_listen : Handle → ℕ → World → Result Handle IoError × World
  -- `rustix::net::listen` on a listener
  pub os_relisten : Handle → ℕ → World → Result ⊤ Errno × World
  pub poll_accept : Handle → World → Option Accepted × World
  pub os_shutdown : Handle → Shutdown → World → World
  pub local_addr : Fd → World → Result SocketAddr IoError
  pub peer_addr : Handle → World → Result SocketAddr IoError

pub data TcpState : Type 0 where
  default bind_started bound : Handle → TcpState
  listen_started : Handle → TcpState
  listening : Handle → Option Accepted → TcpState
  connect_started : Handle → TcpState
  connect_ready : Result Handle IoError → TcpState
  connected : Handle → TcpState
  closed : TcpState

-- `as_std_view`
unfoldable pub as_std_view : TcpState → Result Fd ErrorCode
as_std_view (TcpState.default s) = ok (Fd.socket s)
as_std_view (TcpState.bind_started s) = ok (Fd.socket s)
as_std_view (TcpState.bound s) = ok (Fd.socket s)
as_std_view (TcpState.connected s) = ok (Fd.stream s)
as_std_view (TcpState.listen_started l) = ok (Fd.listener l)
as_std_view (TcpState.listening l p) = ok (Fd.listener l)
as_std_view _ = err ErrorCode.invalid_state

unfoldable pub is_listening : TcpState → Bool
is_listening (TcpState.listening l p) = true
is_listening _ = false

-- `fn bind`: the mapping of the error of the call
unfoldable pub bind_error : IoError → ErrorCode
bind_error e = elim e.errno [
  | some Errno.afnosupport ↦ ErrorCode.invalid_argument
  | _ ↦ from_io_error e
]

-- Linux passes pending network errors of the new connection on from `accept`.
unfoldable pub is_pending_network_error : Errno → Bool
is_pending_network_error Errno.connreset = true
is_pending_network_error Errno.netreset = true
is_pending_network_error Errno.hostunreach = true
is_pending_network_error Errno.hostdown = true
is_pending_network_error Errno.netdown = true
is_pending_network_error Errno.netunreach = true
is_pending_network_error Errno.proto = true
is_pending_network_error Errno.noprotoopt = true
is_pending_network_error Errno.nonet = true
is_pending_network_error Errno.opnotsupp = true
is_pending_network_error _ = false

unfoldable pub accept_errno : IoError → Errno → ErrorCode
unfolding is_pending_network_error
accept_errno e n =
    if is_pending_network_error n then ErrorCode.connection_aborted else from_io_error e

unfoldable pub accept_error : IoError → ErrorCode
unfolding accept_errno
accept_error e = elim e.errno [ some n ↦ accept_errno e n | none ↦ from_io_error e ]

unfoldable pub accept_result : Accepted → Result (Handle × SocketAddr) ErrorCode
accept_result (ok a) = ok a
accept_result (err e) = err (accept_error e)

-- the address that a call reports, as the guest's
unfoldable pub address_result : Result SocketAddr IoError → Result IpSocketAddress ErrorCode
address_result (ok a) = ok (from_socket_addr a)
address_result (err e) = err (from_io_error e)

module _ (os : TcpOs) where
  open os use {World}

  abbrev pub Reply {ℓ} : Type ℓ → Type ℓ
  Reply A = Result A ErrorCode × TcpState × World

  -- `TcpState::poll`; `true` is `Poll::Ready`
  unfoldable pub poll : TcpState → World → Bool × TcpState × World
  poll (TcpState.listening l none) w =
      let (r, w') = os.poll_accept l w in
      elim r [
        | some a ↦ (true, TcpState.listening l (some a), w')
        | none ↦ (false, TcpState.listening l none, w')
      ]
  poll (TcpState.connect_started f) w =
      let (r, w') = os.poll_connect f w in
      elim r [
        | some a ↦ (true, TcpState.connect_ready a, w')
        | none ↦ (false, TcpState.connect_started f, w')
      ]
  poll s w = (true, s, w)

  -- `fn bind`
  unfoldable pub bind : Handle → SocketAddr → World → Result ⊤ ErrorCode × World
  bind sock a w =
      let (r, w1) = os.set_reuseaddr sock (ltb 0 (port a)) w in
      elim r [
        | ok _ ↦
            (let (q, w2) = os.os_bind sock a w1 in
              elim q [ ok _ ↦ (ok tt, w2) | err e ↦ (err (bind_error e), w2) ])
        | err n ↦ (err (from_errno n), w1)
      ]

  unfoldable pub bind_default : Handle → Result ⊤ ErrorCode × World → Reply ⊤
  bind_default sock (ok _, w) = (ok tt, TcpState.bind_started sock, w)
  bind_default sock (err e, w) = (err e, TcpState.default sock, w)

  unfoldable pub start_bind_valid : SocketAddr → TcpState → World → Reply ⊤
  unfolding bind_default
  start_bind_valid a (TcpState.default sock) w = bind_default sock (bind sock a w)
  start_bind_valid a s w = (err ErrorCode.invalid_state, s, w)

  unfoldable pub start_bind : Family → SocketAddr → TcpState → World → Reply ⊤
  unfolding start_bind_valid
  start_bind family a s w =
      if not (is_valid_unicast_address (ip a)) || not (is_valid_address_family (ip a) family)
      then (err ErrorCode.invalid_argument, s, w)
      else start_bind_valid a s w

  unfoldable pub finish_bind : TcpState → World → Reply ⊤
  finish_bind (TcpState.bind_started sock) w = (ok tt, TcpState.bound sock, w)
  finish_bind s w = (err ErrorCode.not_in_progress, s, w)

  unfoldable pub begin_connect : Handle → SocketAddr → World → Reply ⊤
  begin_connect sock a w =
      let (f, w') = os.os_connect sock a w in (ok tt, TcpState.connect_started f, w')

  unfoldable pub start_connect_valid : SocketAddr → TcpState → World → Reply ⊤
  unfolding begin_connect
  start_connect_valid a (TcpState.default sock) w = begin_connect sock a w
  start_connect_valid a (TcpState.bind_started sock) w = begin_connect sock a w
  start_connect_valid a (TcpState.bound sock) w = begin_connect sock a w
  start_connect_valid a s w = (err ErrorCode.invalid_state, s, w)

  unfoldable pub start_connect : Family → SocketAddr → TcpState → World → Reply ⊤
  unfolding start_connect_valid
  start_connect family a s w =
      if not (is_valid_unicast_address (ip a))
        || not (is_valid_remote_address a)
        || not (is_valid_address_family (ip a) family)
      then (err ErrorCode.invalid_argument, s, w)
      else start_connect_valid a s w

  -- The end of `finish_connect`, on the result of the connection.
  unfoldable pub establish : Result Handle IoError → World → Reply (InputStream × OutputStream)
  establish (ok s) w =
      (ok (InputStream.tcp_stream s, OutputStream.tcp_stream s), TcpState.connected s, w)
  establish (err e) w = (err (from_io_error e), TcpState.closed, w)

  unfoldable pub finish_connect : TcpState → World → Reply (InputStream × OutputStream)
  unfolding establish
  finish_connect (TcpState.connect_started f) w =
      let (r, w') = os.poll_connect f w in
      elim r [
        | some a ↦ establish a w'
        | none ↦ (err ErrorCode.would_block, TcpState.connect_started f, w')
      ]
  finish_connect (TcpState.connect_ready a) w = establish a w
  finish_connect s w = (err ErrorCode.not_in_progress, s, w)

  -- A failed `listen` leaves the state that `mem::replace` put there.
  unfoldable pub begin_listen : ℕ → Handle → World → Reply ⊤
  begin_listen backlog sock w =
      let (r, w') = os.os_listen sock backlog w in
      elim r [
        | ok l ↦ (ok tt, TcpState.listen_started l, w')
        | err e ↦ (err (from_io_error e), TcpState.closed, w')
      ]

  unfoldable pub start_listen : ℕ → TcpState → World → Reply ⊤
  unfolding begin_listen
  start_listen backlog (TcpState.bind_started sock) w = begin_listen backlog sock w
  start_listen backlog (TcpState.bound sock) w = begin_listen backlog sock w
  start_listen backlog (TcpState.listen_started l) w =
      (err ErrorCode.concurrency_conflict, TcpState.listen_started l, w)
  start_listen backlog s w = (err ErrorCode.invalid_state, s, w)

  unfoldable pub finish_listen : TcpState → World → Reply ⊤
  finish_listen (TcpState.listen_started l) w = (ok tt, TcpState.listening l none, w)
  finish_listen s w = (err ErrorCode.not_in_progress, s, w)

  unfoldable pub accept : TcpState → World → Reply (Handle × SocketAddr)
  unfolding accept_result accept_error
  accept (TcpState.listening l (some a)) w = (accept_result a, TcpState.listening l none, w)
  accept (TcpState.listening l none) w =
      let (r, w') = os.poll_accept l w in
      elim r [
        | some a ↦ (accept_result a, TcpState.listening l none, w')
        | none ↦ (err ErrorCode.would_block, TcpState.listening l none, w')
      ]
  accept s w = (err ErrorCode.invalid_state, s, w)

  -- the result of the call itself is thrown away
  unfoldable pub shutdown : Shutdown → TcpState → World → Result ⊤ ErrorCode × World
  shutdown how (TcpState.connected s) w = (ok tt, os.os_shutdown s how w)
  shutdown how s w = (err ErrorCode.invalid_state, w)

  unfoldable pub local_address : TcpState → World → Result IpSocketAddress ErrorCode
  unfolding address_result
  local_address (TcpState.bind_started s) w = address_result (os.local_addr (Fd.socket s) w)
  local_address (TcpState.bound s) w = address_result (os.local_addr (Fd.socket s) w)
  local_address (TcpState.connected s) w = address_result (os.local_addr (Fd.stream s) w)
  local_address (TcpState.listen_started l) w = address_result (os.local_addr (Fd.listener l) w)
  local_address (TcpState.listening l p) w = address_result (os.local_addr (Fd.listener l) w)
  local_address s w = err ErrorCode.invalid_state

  unfoldable pub remote_address : TcpState → World → Result IpSocketAddress ErrorCode
  unfolding address_result
  remote_address (TcpState.connected s) w = address_result (os.peer_addr s w)
  remote_address s w = err ErrorCode.invalid_state
