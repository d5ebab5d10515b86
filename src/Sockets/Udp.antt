-- ===== src/Sockets/Udp.antt =====
-- crates/wasmlet/src/engine/wasi/sockets/udp.rs: `UdpSocket`. A call gives back its result, the socket
-- where it may change, and the world.
pub mod Peer
pub mod Coherence
pub mod Settings
use wasmx.Base.{
  ℕ, zero, suc, Bool, true, false, List, Option, none, some, Result, ok, err, ⊤, not, ◌||◌, ◌&&◌,
  ◌==◌, ltb, if◌then◌else◌, length, take, drop, u16_max,
}
use wasmx.Io.{Handle}
use wasmx.Sockets.Errors.{ErrorCode, Errno, IoError, from_errno, from_io_error}
use wasmx.Sockets.Address.{
  Family, Ipv4Addr, Ipv6Addr, SocketAddr, ip, is_valid_address_family, is_valid_remote_address,
}
use wasmx.Sockets.Address.Conversions.{IpSocketAddress, from_socket_addr}
use wasmx.Sockets.Options.{Sockopt}
use wasmx.Sockets.Options
use wasmx.Sockets.Tcp.{address_result}

-- `MAX_UDP_DATAGRAM_SIZE`
abbrev pub max_udp_datagram_size : ℕ
max_udp_datagram_size = u16_max

pub data UdpState : Type 0 where
  default bound : UdpState
  connected : SocketAddr → UdpState

pub record UdpSocket : Type 0 where
  pub socket : Handle
  pub udp_state : UdpState
  pub family : Family

-- What udp.rs calls of cap-std, tokio, `std::net` and rustix; a receive is cut to its bytes.
pub record UdpOs : Type 1 where
  pub World : Type 0
  pub os_new : Family → World → Result Handle IoError × World
  pub set_v6only : Handle → World → Result ⊤ Errno × World
  pub os_error : Errno → IoError
  -- `tokio::net::UdpSocket::try_from`
  pub register : Handle → World → Result Handle IoError × World
  pub os_bind : Handle → SocketAddr → World → Result ⊤ Errno × World
  pub os_connect : Handle → SocketAddr → World → Result ⊤ Errno × World
  pub connect_unspec : Handle → World → Result ⊤ Errno × World
  pub os_send : Handle → List ℕ → World → Result ℕ IoError × World
  pub os_send_to : Handle → List ℕ → SocketAddr → World → Result ℕ IoError × World
  pub os_recv : Handle → ℕ → World → Result (List ℕ) IoError × World
  pub os_recv_from : Handle → ℕ → World → Result (List ℕ × SocketAddr) IoError × World
  pub local_addr : Handle → World → Result SocketAddr IoError
  pub peer_addr : Handle → World → Result SocketAddr IoError
  pub sockopt : Sockopt Handle World

-- `PartialEq` of `core::net::SocketAddr`
unfoldable pub eq_v4 : Ipv4Addr → Ipv4Addr → Bool
eq_v4 a b = (a.o0 == b.o0) && (a.o1 == b.o1) && (a.o2 == b.o2) && (a.o3 == b.o3)

unfoldable pub eq_v6 : Ipv6Addr → Ipv6Addr → Bool
eq_v6 a b =
    (a.s0 == b.s0)
    && (a.s1 == b.s1)
    && (a.s2 == b.s2)
    && (a.s3 == b.s3)
    && (a.s4 == b.s4)
    && (a.s5 == b.s5)
    && (a.s6 == b.s6)
    && (a.s7 == b.s7)

unfoldable pub eq_addr : SocketAddr → SocketAddr → Bool
unfolding eq_v4 eq_v6
eq_addr (SocketAddr.v4 a) (SocketAddr.v4 b) = eq_v4 a.ip b.ip && (a.port == b.port)
eq_addr (SocketAddr.v6 a) (SocketAddr.v6 b) =
    eq_v6 a.ip b.ip
    && (a.port == b.port)
    && (a.flowinfo == b.flowinfo)
    && (a.scope_id == b.scope_id)
eq_addr _ _ = false

-- the mapping of the errors of `fn bind` and of `connect`
unfoldable pub bind_error : Errno → ErrorCode
bind_error Errno.afnosupport = ErrorCode.invalid_argument
bind_error e = from_errno e

unfoldable pub connect_error : Errno → ErrorCode
connect_error Errno.afnosupport = ErrorCode.invalid_argument
connect_error Errno.inprogress = ErrorCode.unknown
connect_error e = from_errno e

-- How a waiting send ends that does not succeed: an error, or a slice out of range.
pub data SendFailure : Type 0 where
  code : ErrorCode → SendFailure
  panicked : SendFailure

-- The `loop` of `send` and of `send_to`, by the call it repeats.
unfoldable pub send_loop :
    {W : Type 0} (send : List ℕ → W → Result ℕ IoError × W)
    → ℕ
    → List ℕ
    → W
    → Option (Result ⊤ SendFailure × W)
send_loop send zero buf w = none
send_loop send (suc fuel) buf w =
    let (r, w1) = send buf w in
    elim r [
      | err e ↦ some (err (code (from_io_error e)), w1)
      | ok n ↦
          (let rest = send_loop send fuel (drop n buf) w1 in
            if n == length buf
            then some (ok tt, w1)
            else if ltb (length buf) n
            then some (err panicked, w1)
            else rest)
    ]

module _ (os : UdpOs) where
  open os use {World}

  abbrev pub Reply {ℓ} : Type ℓ → Type ℓ
  Reply A = Result A ErrorCode × UdpSocket × World

  -- the end of `new`, once the descriptor is there
  unfoldable pub registered :
      Family → Result Handle IoError × World → Result UdpSocket IoError × World
  registered family (ok h, w) =
      (ok (record { socket = h; udp_state = UdpState.default; family = family }), w)
  registered family (err e, w) = (err e, w)

  unfoldable pub new : Family → World → Result UdpSocket IoError × World
  unfolding registered
  new Family.ipv4 w =
      let (r, w1) = os.os_new Family.ipv4 w in
      elim r [ ok fd ↦ registered Family.ipv4 (os.register fd w1) | err e ↦ (err e, w1) ]
  new Family.ipv6 w =
      let (r, w1) = os.os_new Family.ipv6 w in
      elim r [
        | ok fd ↦
            (let (q, w2) = os.set_v6only fd w1 in
              elim q [
                | ok _ ↦ registered Family.ipv6 (os.register fd w2)
                | err n ↦ (err (os.os_error n), w2)
              ])
        | err e ↦ (err e, w1)
      ]

  -- a system call whose success puts the socket into a state
  unfoldable pub moved :
      (Errno → ErrorCode) → UdpSocket → UdpState → Result ⊤ Errno × World → Reply ⊤
  moved coded t s (ok _, w) = (ok tt, record t { udp_state = s }, w)
  moved coded t s (err e, w) = (err (coded e), t, w)

  unfoldable pub bind : SocketAddr → UdpSocket → World → Reply ⊤
  unfolding moved
  bind a t w = elim t.udp_state [
    | UdpState.default ↦
        if not (is_valid_address_family (ip a) t.family)
        then (err ErrorCode.invalid_argument, t, w)
        else moved bind_error t UdpState.bound (os.os_bind t.socket a w)
    | _ ↦ (err ErrorCode.invalid_state, t, w)
  ]

  unfoldable pub disconnect : UdpSocket → World → Reply ⊤
  unfolding moved
  disconnect t w = elim t.udp_state [
    | UdpState.connected a ↦ moved from_errno t UdpState.bound (os.connect_unspec t.socket w)
    | _ ↦ (err ErrorCode.invalid_state, t, w)
  ]

  -- "Step #2: (Re)connect"
  unfoldable pub reconnect : SocketAddr → Reply ⊤ → Reply ⊤
  unfolding moved
  reconnect a (err e, t, w) = (err e, t, w)
  reconnect a (ok _, t, w) =
      moved connect_error t (UdpState.connected a) (os.os_connect t.socket a w)

  -- "Step #1: Disconnect"
  unfoldable pub released : UdpSocket → World → Reply ⊤
  unfolding disconnect
  released t w = elim t.udp_state [ UdpState.connected a ↦ disconnect t w | _ ↦ (ok tt, t, w) ]

  unfoldable pub connect : SocketAddr → UdpSocket → World → Reply ⊤
  unfolding reconnect released
  connect a t w =
      if not (is_valid_address_family (ip a) t.family) || not (is_valid_remote_address a)
      then (err ErrorCode.invalid_argument, t, w)
      else reconnect a (released t w)

  abbrev pub Sent : Type 0
  Sent = Option (Result ⊤ SendFailure × World)

  unfoldable pub send : ℕ → List ℕ → UdpSocket → World → Sent
  send fuel buf t w = elim t.udp_state [
    | UdpState.connected a ↦ send_loop (os.os_send t.socket) fuel buf w
    | _ ↦ some (err (code ErrorCode.invalid_argument), w)
  ]

  unfoldable pub send_to : ℕ → List ℕ → SocketAddr → UdpSocket → World → Sent
  send_to fuel buf a t w =
      let to_peer = send_loop (os.os_send t.socket) fuel buf w in
      let to_addr = send_loop (λ buf. os.os_send_to t.socket buf a) fuel buf w in
      elim t.udp_state [
        | UdpState.connected c ↦
            if eq_addr a c then to_peer else some (err (code ErrorCode.invalid_argument), w)
        | _ ↦ to_addr
      ]

  abbrev pub Received : Type 0
  Received = Result (List ℕ × IpSocketAddress) ErrorCode × World

  abbrev pub received : SocketAddr → Result (List ℕ) IoError × World → Received
  received a (ok buf, w) = (ok (take max_udp_datagram_size buf, from_socket_addr a), w)
  received a (err e, w) = (err (from_io_error e), w)

  abbrev pub received_from : Result (List ℕ × SocketAddr) IoError × World → Received
  received_from (ok (buf, a), w) = (ok (take max_udp_datagram_size buf, from_socket_addr a), w)
  received_from (err e, w) = (err (from_io_error e), w)

  unfoldable pub receive : UdpSocket → World → Received
  receive t w = elim t.udp_state [
    | UdpState.default ↦ (err ErrorCode.invalid_state, w)
    | UdpState.bound ↦ received_from (os.os_recv_from t.socket max_udp_datagram_size w)
    | UdpState.connected a ↦ received a (os.os_recv t.socket max_udp_datagram_size w)
  ]

  unfoldable pub local_address : UdpSocket → World → Result IpSocketAddress ErrorCode
  local_address t w = elim t.udp_state [
    | UdpState.default ↦ err ErrorCode.invalid_state
    | _ ↦ address_result (os.local_addr t.socket w)
  ]

  unfoldable pub remote_address : UdpSocket → World → Result IpSocketAddress ErrorCode
  remote_address t w = elim t.udp_state [
    | UdpState.connected a ↦ address_result (os.peer_addr t.socket w)
    | _ ↦ err ErrorCode.invalid_state
  ]
