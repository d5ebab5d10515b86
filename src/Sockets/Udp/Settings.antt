-- ===== src/Sockets/Udp/Settings.antt =====
-- The options of `UdpSocket` in sockets/udp.rs, which leave the socket itself as it is.
use wasmx.Base.{ℕ, ◌≤◌, ◌≡◌, ◌≢◌, ◌∙◌, refl, ap, min, Result, ok, err, ⊤, i32_max}
use wasmx.Sockets.Errors.{ErrorCode}
use wasmx.Sockets.Address.{Family}
use wasmx.Sockets.Options.{
  get_unicast_hop_limit, set_unicast_hop_limit, receive_buffer_size, set_receive_buffer_size,
  send_buffer_size, set_send_buffer_size,
}
use wasmx.Sockets.Options.RoundTrip.{IsLinux, clamped, hop_limit_round_trip, buffer_size_round_trip}
use wasmx.Sockets.Udp.{UdpOs, UdpSocket}

module _ (os : UdpOs) where
  open os use {World, sockopt}

  unfoldable pub address_family : UdpSocket → Family
  address_family t = t.family

  unfoldable pub unicast_hop_limit : UdpSocket → World → Result ℕ ErrorCode
  unicast_hop_limit t w = get_unicast_hop_limit sockopt t.socket t.family w

  unfoldable pub change_unicast_hop_limit : ℕ → UdpSocket → World → Result ⊤ ErrorCode × World
  change_unicast_hop_limit value t w = set_unicast_hop_limit sockopt t.socket t.family value w

  unfoldable pub get_receive_buffer_size : UdpSocket → World → Result ℕ ErrorCode
  get_receive_buffer_size t w = receive_buffer_size sockopt t.socket w

  -- `?`, and `Ok(())`
  abbrev pub without_value : Result ℕ ErrorCode × World → Result ⊤ ErrorCode × World
  without_value (ok _, w) = (ok tt, w)
  without_value (err e, w) = (err e, w)

  unfoldable pub change_receive_buffer_size : ℕ → UdpSocket → World → Result ⊤ ErrorCode × World
  change_receive_buffer_size value t w =
      without_value (set_receive_buffer_size sockopt t.socket value w)

  unfoldable pub get_send_buffer_size : UdpSocket → World → Result ℕ ErrorCode
  get_send_buffer_size t w = send_buffer_size sockopt t.socket w

  unfoldable pub change_send_buffer_size : ℕ → UdpSocket → World → Result ⊤ ErrorCode × World
  change_send_buffer_size value t w = without_value (set_send_buffer_size sockopt t.socket value w)

  without_value-world : (r : Result ℕ ErrorCode × World) → (without_value r).1 ≡ r.1
  without_value-world (ok n, w) = refl
  without_value-world (err e, w) = refl

  without_value-ok :
      (r : Result ℕ ErrorCode × World) (n : ℕ) → r.0 ≡ ok n → (without_value r).0 ≡ ok tt
  without_value-ok (ok m, w) n h = refl
  without_value-ok (err e, w) n h = (let q = h in cc)

  -- On Linux, which limits a buffer size to a maximum, doubles it and brings it up to a minimum, an option that was set on
  -- a UDP socket is read back. A hop limit or a buffer size of 0 is refused and changes nothing; a hop limit of one
  -- octet that is taken is read as it was set; and a buffer size that the system takes is read as it was set, but
  -- at most 2147483647 and the maximum, and at least half the minimum.
  pub settings_round_trip :
      (l : IsLinux sockopt) (t : UdpSocket) (n : ℕ) (w : World)
      → ((n ≡ 0)
          → (change_unicast_hop_limit n t w ≡ (err ErrorCode.invalid_argument, w))
            × (change_receive_buffer_size n t w ≡ (err ErrorCode.invalid_argument, w))
            × (change_send_buffer_size n t w ≡ (err ErrorCode.invalid_argument, w)))
        × ((n ≤ 255)
            → (change_unicast_hop_limit n t w).0 ≡ ok tt
            → unicast_hop_limit t (change_unicast_hop_limit n t w).1 ≡ ok n)
        × ((n ≢ 0)
            → (sockopt.set_recv_buffer_size t.socket (min n i32_max) w).0 ≡ ok tt
            → let (r, w') = change_receive_buffer_size n t w in
              (r ≡ ok tt) × (get_receive_buffer_size t w' ≡ ok (clamped l.recv_min l.recv_max n)))
        × ((n ≢ 0)
            → (sockopt.set_send_buffer_size t.socket (min n i32_max) w).0 ≡ ok tt
            → let (r, w') = change_send_buffer_size n t w in
              (r ≡ ok tt) × (get_send_buffer_size t w' ≡ ok (clamped l.send_min l.send_max n)))
  unfolding unicast_hop_limit change_unicast_hop_limit get_receive_buffer_size
      change_receive_buffer_size get_send_buffer_size change_send_buffer_size set_unicast_hop_limit
  settings_round_trip l t n w =
      let (r0, s0, r, s) = buffer_size_round_trip sockopt l t.socket n w in
      let received = set_receive_buffer_size sockopt t.socket n w in
      let sent = set_send_buffer_size sockopt t.socket n w in
      (
        λ z. (rw z refl, ap without_value (r0 z), ap without_value (s0 z)),
        λ k e. ((hop_limit_round_trip sockopt l t.socket t.family n w k).0 e).1,
        λ z e. (
          without_value-ok received (min n i32_max) (r z e).0,
          ap (receive_buffer_size sockopt t.socket) (without_value-world received) ∙ (r z e).1,
        ),
        λ z e. (
          without_value-ok sent (min n i32_max) (s z e).0,
          ap (send_buffer_size sockopt t.socket) (without_value-world sent) ∙ (s z e).1,
        ),
      )
