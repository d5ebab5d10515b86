-- ===== src/Sockets/Options.antt =====
-- crates/wasmlet/src/engine/wasi/sockets/util.rs, the socket options, on Linux; a `usize` has 64
-- bits. `F` is the type of the sockets, `World` what lies outside the program.
pub mod RoundTrip
use wasmx.Base.{
  ℕ, ◌/◌, Bool, Option, none, some, Result, ok, err, ⊤, ◌==◌, leb, if◌then◌else◌, clamp, i32_max,
  u64_max,
}
use wasmx.Sockets.Errors.{ErrorCode, Errno, from_errno}
use wasmx.Sockets.Address.{Family}

-- What is called of `rustix::net::sockopt`; a `Duration` is its nanoseconds.
pub record Sockopt (F World : Type 0) : Type 0 where
  pub socket_keepalive : F → World → Result Bool Errno
  pub set_socket_keepalive : F → Bool → World → Result ⊤ Errno × World
  pub tcp_keepidle : F → World → Result ℕ Errno
  pub set_tcp_keepidle : F → ℕ → World → Result ⊤ Errno × World
  pub tcp_keepintvl : F → World → Result ℕ Errno
  pub set_tcp_keepintvl : F → ℕ → World → Result ⊤ Errno × World
  pub tcp_keepcnt : F → World → Result ℕ Errno
  pub set_tcp_keepcnt : F → ℕ → World → Result ⊤ Errno × World
  pub ip_ttl : F → World → Result ℕ Errno
  pub set_ip_ttl : F → ℕ → World → Result ⊤ Errno × World
  pub ipv6_unicast_hops : F → World → Result ℕ Errno
  pub set_ipv6_unicast_hops : F → ℕ → World → Result ⊤ Errno × World
  pub recv_buffer_size : F → World → Result ℕ Errno
  pub set_recv_buffer_size : F → ℕ → World → Result ⊤ Errno × World
  pub send_buffer_size : F → World → Result ℕ Errno
  pub set_send_buffer_size : F → ℕ → World → Result ⊤ Errno × World

-- The `?` that turns an `Errno` into an `ErrorCode`.
abbrev pub coded {ℓ} : {A : Type ℓ} → Result A Errno → Result A ErrorCode
coded (ok a) = ok a
coded (err n) = err (from_errno n)

abbrev pub coded_with {ℓ} : {W : Type ℓ} → Result ⊤ Errno × W → Result ⊤ ErrorCode × W
coded_with (r, w) = (coded r, w)

unfoldable pub normalize_get_buffer_size : ℕ → ℕ
normalize_get_buffer_size value = value / 2

unfoldable pub normalize_set_buffer_size : ℕ → ℕ
normalize_set_buffer_size value = clamp 1 i32_max value

-- `value.try_into().unwrap_or(u64::MAX)`, and the same from `u64` to `usize`
abbrev pub saturate : ℕ → ℕ
saturate value = if leb value u64_max then value else u64_max

abbrev pub buffer_size : Result ℕ Errno → Result ℕ ErrorCode
buffer_size (ok v) = ok (saturate (normalize_get_buffer_size v))
buffer_size (err n) = err (from_errno n)

-- A system that has no such buffer is not an error.
abbrev pub buffer_set {ℓ} : {W : Type ℓ} → ℕ → Result ⊤ Errno × W → Result ℕ ErrorCode × W
buffer_set value (ok _, w) = (ok value, w)
buffer_set value (err Errno.nobufs, w) = (ok value, w)
buffer_set value (err n, w) = (err (from_errno n), w)

module _ {F World : Type 0} (so : Sockopt F World) where
  unfoldable pub get_ip_ttl : F → World → Result ℕ ErrorCode
  get_ip_ttl fd w = elim (so.ip_ttl fd w) [
    | ok v ↦ if leb v 255 then ok v else err ErrorCode.not_supported
    | err n ↦ err (from_errno n)
  ]

  unfoldable pub get_ipv6_unicast_hops : F → World → Result ℕ ErrorCode
  get_ipv6_unicast_hops fd w = coded (so.ipv6_unicast_hops fd w)

  unfoldable pub get_unicast_hop_limit : F → Family → World → Result ℕ ErrorCode
  unfolding get_ip_ttl get_ipv6_unicast_hops
  get_unicast_hop_limit fd Family.ipv4 w = get_ip_ttl fd w
  get_unicast_hop_limit fd Family.ipv6 w = get_ipv6_unicast_hops fd w

  unfoldable pub set_hops : F → Family → ℕ → World → Result ⊤ ErrorCode × World
  set_hops fd Family.ipv4 value w = coded_with (so.set_ip_ttl fd value w)
  set_hops fd Family.ipv6 value w = coded_with (so.set_ipv6_unicast_hops fd value w)

  unfoldable pub set_unicast_hop_limit : F → Family → ℕ → World → Result ⊤ ErrorCode × World
  unfolding set_hops
  set_unicast_hop_limit fd family value w =
      if value == 0 then (err ErrorCode.invalid_argument, w) else set_hops fd family value w

  unfoldable pub receive_buffer_size : F → World → Result ℕ ErrorCode
  receive_buffer_size fd w = buffer_size (so.recv_buffer_size fd w)

  unfoldable pub set_receive_buffer_size : F → ℕ → World → Result ℕ ErrorCode × World
  set_receive_buffer_size fd value w =
      let size = normalize_set_buffer_size (saturate value) in
      if value == 0
      then (err ErrorCode.invalid_argument, w)
      else buffer_set size (so.set_recv_buffer_size fd size w)

  unfoldable pub send_buffer_size : F → World → Result ℕ ErrorCode
  send_buffer_size fd w = buffer_size (so.send_buffer_size fd w)

  unfoldable pub set_send_buffer_size : F → ℕ → World → Result ℕ ErrorCode × World
  set_send_buffer_size fd value w =
      let size = normalize_set_buffer_size (saturate value) in
      if value == 0
      then (err ErrorCode.invalid_argument, w)
      else buffer_set size (so.set_send_buffer_size fd size w)
