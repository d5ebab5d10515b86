-- ===== src/Sockets/Options/RoundTrip.antt =====
-- The options of sockets/util.rs, set and then read back.
use wasmx.Base.{
  ℕ, ◌*◌, ◌/◌, min, max, ◌≤◌, ◌≡◌, ◌≢◌, refl, Result, ok, err, ⊤, arith, nonzero, i32_max, u64_max,
}
use wasmx.Sockets.Errors.{ErrorCode, Errno}
use wasmx.Sockets.Address.{Family}
use wasmx.Sockets.Options.{
  Sockopt, get_unicast_hop_limit, set_unicast_hop_limit, receive_buffer_size,
  set_receive_buffer_size, send_buffer_size, set_send_buffer_size, normalize_get_buffer_size,
  normalize_set_buffer_size, buffer_size, saturate, buffer_set,
}

pub saturate_le : (s : ℕ) → s ≤ u64_max → saturate s ≡ s
saturate_le s h = ground arith

-- What is read of a size `n` of the guest's, for the limits of the system.
abbrev pub clamped : ℕ → ℕ → ℕ → ℕ
clamped lo hi n = max (lo / 2) (min (min n i32_max) hi)

module _ {F World : Type 0} (so : Sockopt F World) where
  -- Linux: a size that was set is limited to a maximum of the system, doubled, and then brought up to a minimum, which
  -- fits in an `int`; and a hop limit that was set is kept.
  pub record IsLinux : Type 0 where
    pub recv_min : ℕ
    pub recv_max : ℕ
    pub send_min : ℕ
    pub send_max : ℕ
    pub recv_fits : recv_min ≤ i32_max
    pub send_fits : send_min ≤ i32_max
    pub doubles_recv :
        (fd : F) (n : ℕ) (w : World)
        → (so.set_recv_buffer_size fd n w).0 ≡ ok tt
        → so.recv_buffer_size fd (so.set_recv_buffer_size fd n w).1
          ≡ ok (max recv_min (2 * min n recv_max))
    pub doubles_send :
        (fd : F) (n : ℕ) (w : World)
        → (so.set_send_buffer_size fd n w).0 ≡ ok tt
        → so.send_buffer_size fd (so.set_send_buffer_size fd n w).1
          ≡ ok (max send_min (2 * min n send_max))
    pub keeps_ttl :
        (fd : F) (n : ℕ) (w : World)
        → (so.set_ip_ttl fd n w).0 ≡ ok tt
        → so.ip_ttl fd (so.set_ip_ttl fd n w).1 ≡ ok n
    pub keeps_hops :
        (fd : F) (n : ℕ) (w : World)
        → (so.set_ipv6_unicast_hops fd n w).0 ≡ ok tt
        → so.ipv6_unicast_hops fd (so.set_ipv6_unicast_hops fd n w).1 ≡ ok n

  -- A hop limit of one octet that was set is read back, for either family; 0 is refused and nothing
  -- is set.
  pub hop_limit_round_trip :
      IsLinux
      → (fd : F) (family : Family) (n : ℕ) (w : World) → n ≤ 255
      → let (r, w') = set_unicast_hop_limit so fd family n w in
        ((r ≡ ok tt) → (n ≢ 0) × (get_unicast_hop_limit so fd family w' ≡ ok n))
        × ((n ≡ 0) → (r ≡ err ErrorCode.invalid_argument) × (w' ≡ w))
  unfolding set_unicast_hop_limit get_unicast_hop_limit
  hop_limit_round_trip l fd Family.ipv4 n w h = (ground (arith, l.keeps_ttl fd n w), ground arith)
  hop_limit_round_trip l fd Family.ipv6 n w h = (ground (arith, l.keeps_hops fd n w), ground arith)

  -- The size that is asked of the system, for a size of the guest's.
  set_size : (n : ℕ) → n ≢ 0 → normalize_set_buffer_size (saturate n) ≡ min n i32_max
  unfolding normalize_set_buffer_size
  set_size n h = ground arith

  half_of_max : (lo m : ℕ) → max lo (2 * m) / 2 ≡ max (lo / 2) m
  half_of_max lo m = ground arith

  size_of_double :
      (lo hi n : ℕ)
      → lo ≤ i32_max
      → buffer_size (ok (max lo (2 * min (min n i32_max) hi))) ≡ ok (clamped lo hi n)
  unfolding normalize_get_buffer_size
  size_of_double lo hi n h =
      rw (half_of_max lo (min (min n i32_max) hi), saturate_le (clamped lo hi n) (ground arith))
        refl

  set_then_get :
      (lo hi n : ℕ) (t : Result ⊤ Errno × World) (get : World → Result ℕ Errno)
      → lo ≤ i32_max
      → t.0 ≡ ok tt
      → get t.1 ≡ ok (max lo (2 * min (min n i32_max) hi))
      → ((buffer_set (min n i32_max) t).0 ≡ ok (min n i32_max))
        × (buffer_size (get (buffer_set (min n i32_max) t).1) ≡ ok (clamped lo hi n))
  set_then_get lo hi n (ok u, w) get h e g = (refl, rw g (size_of_double lo hi n h))
  set_then_get lo hi n (err x, w) get h e g = cc

  -- A buffer size of the guest's, for receiving or for sending: 0 is refused, and any other that
  -- the system accepts is read back as it was set, but limited to 2147483647 and the limits of the system.
  pub buffer_size_round_trip :
      (l : IsLinux) (fd : F) (n : ℕ) (w : World)
      → ((n ≡ 0) → set_receive_buffer_size so fd n w ≡ (err ErrorCode.invalid_argument, w))
        × ((n ≡ 0) → set_send_buffer_size so fd n w ≡ (err ErrorCode.invalid_argument, w))
        × ((n ≢ 0)
            → (so.set_recv_buffer_size fd (min n i32_max) w).0 ≡ ok tt
            → let (r, w') = set_receive_buffer_size so fd n w in
              (r ≡ ok (min n i32_max))
              × (receive_buffer_size so fd w' ≡ ok (clamped l.recv_min l.recv_max n)))
        × ((n ≢ 0)
            → (so.set_send_buffer_size fd (min n i32_max) w).0 ≡ ok tt
            → let (r, w') = set_send_buffer_size so fd n w in
              (r ≡ ok (min n i32_max))
              × (send_buffer_size so fd w' ≡ ok (clamped l.send_min l.send_max n)))
  unfolding set_receive_buffer_size receive_buffer_size set_send_buffer_size send_buffer_size
  buffer_size_round_trip l fd n w = (
    ground arith,
    ground arith,
    (λ h e.
        rw (nonzero n h, set_size n h)
          (set_then_get l.recv_min l.recv_max n _ (so.recv_buffer_size fd) l.recv_fits e
            (l.doubles_recv fd (min n i32_max) w e))),
    (λ h e.
        rw (nonzero n h, set_size n h)
          (set_then_get l.send_min l.send_max n _ (so.send_buffer_size fd) l.send_fits e
            (l.doubles_send fd (min n i32_max) w e))),
  )
