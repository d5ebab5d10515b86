-- ===== src/Sockets/Tcp/Socket.antt =====
-- crates/wasmlet/src/engine/wasi/sockets/tcp.rs, `TcpSocket`, on Linux: the state behind its lock,
-- the backlog and the options.
pub mod Backlog
pub mod KeepAlive
use wasmx.Base.{
  ℕ, ◌*◌, Bool, true, false, Result, ok, err, ⊤, ◌==◌, leb, if◌then◌else◌, clamp, i32_max, u32_max,
  u64_max,
}
use wasmx.Io.{Handle, InputStream, OutputStream}
use wasmx.Sockets.Errors.{ErrorCode, Errno, IoError, from_errno}
use wasmx.Sockets.Address.{Family, SocketAddr}
use wasmx.Sockets.Address.Conversions.{IpSocketAddress}
use wasmx.Sockets.Options.{
  Sockopt, coded, coded_with, saturate, get_unicast_hop_limit, set_unicast_hop_limit,
  receive_buffer_size, set_receive_buffer_size, send_buffer_size, set_send_buffer_size,
}
use wasmx.Sockets.Tcp.{TcpOs, TcpState, Fd, Shutdown, as_std_view}
use wasmx.Sockets.Tcp

-- `DEFAULT_BACKLOG`
abbrev pub default_backlog : ℕ
default_backlog = 128

-- `RwLock<TcpState>`: a poisoned lock stays so, and hides the state.
pub data Lock : Type 0 where
  poisoned : Lock
  holds : TcpState → Lock

pub record TcpSocket : Type 0 where
  pub tcp_state : Lock
  pub listen_backlog_size : ℕ
  pub family : Family

unfoldable pub from_state : TcpState → Family → TcpSocket
from_state s family = record {
  tcp_state = holds s;
  listen_backlog_size = default_backlog;
  family = family;
}

-- `MIN` and `MAX` of `set_keep_alive_idle_time`, and `MIN_SECS` and `MAX_SECS` of
-- `set_keep_alive_interval`: one second, and `i16::MAX` seconds
abbrev pub min_keep_alive : ℕ
min_keep_alive = 1_000_000_000

abbrev pub max_keep_alive : ℕ
max_keep_alive = 32767 * 1_000_000_000

-- `MIN_CNT` and `MAX_CNT` of `set_keep_alive_count`
abbrev pub max_keep_alive_count : ℕ
max_keep_alive_count = 127

-- `value.try_into().unwrap_or(MAX_BACKLOG).clamp(MIN_BACKLOG, MAX_BACKLOG)`
unfoldable pub clamp_backlog : ℕ → ℕ
clamp_backlog value = clamp 1 i32_max (if leb value u32_max then value else i32_max)

abbrev pub saturated : Result ℕ Errno → Result ℕ ErrorCode
saturated (ok v) = ok (saturate v)
saturated (err n) = err (from_errno n)

abbrev pub without_value {ℓ κ} :
    {A : Type ℓ} {W : Type κ} → Result A ErrorCode × W → Result ⊤ ErrorCode × W
without_value (ok _, w) = (ok tt, w)
without_value (err e, w) = (err e, w)

-- The descriptor behind the lock.
unfoldable pub view : Lock → Result Fd ErrorCode
view poisoned = err ErrorCode.unknown
view (holds s) = as_std_view s

unfoldable pub is_listening : TcpSocket → Bool
is_listening t = elim t.tcp_state [ poisoned ↦ false | holds s ↦ Tcp.is_listening s ]

module _ (os : TcpOs) where
  open os use {World}

  unfoldable pub new : Family → World → Result TcpSocket IoError × World
  unfolding from_state
  new Family.ipv4 w =
      let (r, w1) = os.os_new Family.ipv4 w in
      elim r [ ok s ↦ (ok (from_state (TcpState.default s) Family.ipv4), w1) | err e ↦ (err e, w1) ]
  new Family.ipv6 w =
      let (r, w1) = os.os_new Family.ipv6 w in
      elim r [
        | ok s ↦
            (let (q, w2) = os.set_v6only s w1 in
              elim q [
                | ok _ ↦ (ok (from_state (TcpState.default s) Family.ipv6), w2)
                | err n ↦ (err (os.os_error n), w2)
              ])
        | err e ↦ (err e, w1)
      ]

  -- A call of `TcpState` under the write lock.
  unfoldable pub locked {ℓ} :
      {A : Type ℓ}
      → (TcpState → World → Tcp.Reply os A)
      → TcpSocket
      → World
      → Result A ErrorCode × TcpSocket × World
  locked f t w = elim t.tcp_state [
    | poisoned ↦ (err ErrorCode.unknown, t, w)
    | holds s ↦ (let (r, s', w') = f s w in (r, record t { tcp_state = holds s' }, w'))
  ]

  unfoldable pub start_bind :
      SocketAddr → TcpSocket → World → Result ⊤ ErrorCode × TcpSocket × World
  start_bind a t w = locked (Tcp.start_bind os t.family a) t w

  unfoldable pub finish_bind : TcpSocket → World → Result ⊤ ErrorCode × TcpSocket × World
  finish_bind t w = locked (Tcp.finish_bind os) t w

  unfoldable pub start_connect :
      SocketAddr → TcpSocket → World → Result ⊤ ErrorCode × TcpSocket × World
  start_connect a t w = locked (Tcp.start_connect os t.family a) t w

  unfoldable pub finish_connect :
      TcpSocket → World → Result (InputStream × OutputStream) ErrorCode × TcpSocket × World
  finish_connect t w = locked (Tcp.finish_connect os) t w

  unfoldable pub start_listen : TcpSocket → World → Result ⊤ ErrorCode × TcpSocket × World
  start_listen t w = locked (Tcp.start_listen os t.listen_backlog_size) t w

  unfoldable pub finish_listen : TcpSocket → World → Result ⊤ ErrorCode × TcpSocket × World
  finish_listen t w = locked (Tcp.finish_listen os) t w

  -- The new connection as a socket of its own, with its two streams.
  abbrev pub accepted :
      Family
      → Result (Handle × SocketAddr) ErrorCode
      → Result (TcpSocket × InputStream × OutputStream) ErrorCode
  accepted family (ok (s, _)) = ok (
    from_state (TcpState.connected s) family,
    InputStream.tcp_stream s,
    OutputStream.tcp_stream s,
  )
  accepted family (err e) = err e

  unfoldable pub accept :
      TcpSocket
      → World
      → Result (TcpSocket × InputStream × OutputStream) ErrorCode × TcpSocket × World
  accept t w = let (r, t', w') = locked (Tcp.accept os) t w in (accepted t.family r, t', w')

  unfoldable pub shutdown : Shutdown → TcpSocket → World → Result ⊤ ErrorCode × World
  shutdown how t w = elim t.tcp_state [
    | poisoned ↦ (err ErrorCode.unknown, w)
    | holds s ↦ Tcp.shutdown os how s w
  ]

  unfoldable pub local_address : TcpSocket → World → Result IpSocketAddress ErrorCode
  local_address t w = elim t.tcp_state [
    | poisoned ↦ err ErrorCode.unknown
    | holds s ↦ Tcp.local_address os s w
  ]

  unfoldable pub remote_address : TcpSocket → World → Result IpSocketAddress ErrorCode
  remote_address t w = elim t.tcp_state [
    | poisoned ↦ err ErrorCode.unknown
    | holds s ↦ Tcp.remote_address os s w
  ]

  -- A listener is asked to listen again; only if it agrees is the new size kept.
  unfoldable pub relisten : Handle → ℕ → TcpSocket → World → Result ⊤ ErrorCode × TcpSocket × World
  relisten l size t w =
      let (r, w') = os.os_relisten l size w in
      elim r [
        | ok _ ↦ (ok tt, record t { listen_backlog_size = size }, w')
        | err _ ↦ (err ErrorCode.not_supported, t, w')
      ]

  unfoldable pub set_backlog_in :
      Lock → ℕ → TcpSocket → World → Result ⊤ ErrorCode × TcpSocket × World
  unfolding relisten
  set_backlog_in poisoned size t w = (err ErrorCode.unknown, t, w)
  set_backlog_in (holds (TcpState.default s)) size t w =
      (ok tt, record t { listen_backlog_size = size }, w)
  set_backlog_in (holds (TcpState.bind_started s)) size t w =
      (ok tt, record t { listen_backlog_size = size }, w)
  set_backlog_in (holds (TcpState.bound s)) size t w =
      (ok tt, record t { listen_backlog_size = size }, w)
  set_backlog_in (holds (TcpState.listen_started l)) size t w = relisten l size t w
  set_backlog_in (holds (TcpState.listening l p)) size t w = relisten l size t w
  set_backlog_in (holds _) size t w = (err ErrorCode.invalid_state, t, w)

  unfoldable pub set_listen_backlog_size :
      ℕ → TcpSocket → World → Result ⊤ ErrorCode × TcpSocket × World
  unfolding set_backlog_in
  set_listen_backlog_size value t w =
      if value == 0
      then (err ErrorCode.invalid_argument, t, w)
      else set_backlog_in t.tcp_state (clamp_backlog value) t w

module _ {World : Type 0} (so : Sockopt Fd World) where
  -- An option of the descriptor behind the lock: read, and set.
  unfoldable pub get_option {ℓ} :
      {A : Type ℓ} → (Fd → World → Result A ErrorCode) → TcpSocket → World → Result A ErrorCode
  get_option get t w = elim (view t.tcp_state) [ ok fd ↦ get fd w | err e ↦ err e ]

  unfoldable pub set_option :
      (Fd → World → Result ⊤ ErrorCode × World) → TcpSocket → World → Result ⊤ ErrorCode × World
  set_option set t w = elim (view t.tcp_state) [ ok fd ↦ set fd w | err e ↦ (err e, w) ]

  unfoldable pub keep_alive_enabled : TcpSocket → World → Result Bool ErrorCode
  keep_alive_enabled = get_option (λ fd w. coded (so.socket_keepalive fd w))

  unfoldable pub set_keep_alive_enabled : Bool → TcpSocket → World → Result ⊤ ErrorCode × World
  set_keep_alive_enabled value =
      set_option (λ fd w. coded_with (so.set_socket_keepalive fd value w))

  unfoldable pub keep_alive_idle_time : TcpSocket → World → Result ℕ ErrorCode
  keep_alive_idle_time = get_option (λ fd w. saturated (so.tcp_keepidle fd w))

  unfoldable pub set_keep_alive_idle_time : ℕ → TcpSocket → World → Result ⊤ ErrorCode × World
  set_keep_alive_idle_time value = set_option λ fd w.
      if value == 0
      then (err ErrorCode.invalid_argument, w)
      else coded_with (so.set_tcp_keepidle fd (clamp min_keep_alive max_keep_alive value) w)

  unfoldable pub keep_alive_interval : TcpSocket → World → Result ℕ ErrorCode
  keep_alive_interval = get_option (λ fd w. saturated (so.tcp_keepintvl fd w))

  unfoldable pub set_keep_alive_interval : ℕ → TcpSocket → World → Result ⊤ ErrorCode × World
  set_keep_alive_interval value = set_option λ fd w.
      if value == 0
      then (err ErrorCode.invalid_argument, w)
      else coded_with (so.set_tcp_keepintvl fd (clamp min_keep_alive max_keep_alive value) w)

  unfoldable pub keep_alive_count : TcpSocket → World → Result ℕ ErrorCode
  keep_alive_count = get_option (λ fd w. coded (so.tcp_keepcnt fd w))

  unfoldable pub set_keep_alive_count : ℕ → TcpSocket → World → Result ⊤ ErrorCode × World
  set_keep_alive_count value = set_option λ fd w.
      if value == 0
      then (err ErrorCode.invalid_argument, w)
      else coded_with (so.set_tcp_keepcnt fd (clamp 1 max_keep_alive_count value) w)

  unfoldable pub hop_limit : TcpSocket → World → Result ℕ ErrorCode
  hop_limit t = get_option (λ fd w. get_unicast_hop_limit so fd t.family w) t

  unfoldable pub set_hop_limit : ℕ → TcpSocket → World → Result ⊤ ErrorCode × World
  set_hop_limit value t = set_option (λ fd w. set_unicast_hop_limit so fd t.family value w) t

  unfoldable pub get_receive_buffer_size : TcpSocket → World → Result ℕ ErrorCode
  get_receive_buffer_size = get_option (receive_buffer_size so)

  unfoldable pub change_receive_buffer_size : ℕ → TcpSocket → World → Result ⊤ ErrorCode × World
  change_receive_buffer_size value =
      set_option (λ fd w. without_value (set_receive_buffer_size so fd value w))

  unfoldable pub get_send_buffer_size : TcpSocket → World → Result ℕ ErrorCode
  get_send_buffer_size = get_option (send_buffer_size so)

  unfoldable pub change_send_buffer_size : ℕ → TcpSocket → World → Result ⊤ ErrorCode × World
  change_send_buffer_size value =
      set_option (λ fd w. without_value (set_send_buffer_size so fd value w))
