-- ===== src/Sockets/Tcp/Socket/KeepAlive.antt =====
-- The keep-alive options of a `TcpSocket` of tcp.rs, set and then read back.
use wasmx.Base.{
  Bool-cases, inl, inr, ap, if◌then◌else◌, ℕ, ◌+◌, ◌*◌, ◌/◌, ◌≤◌, ◌<◌, ◌≡◌, ◌≢◌, refl, Result, ok,
  err, ⊤, arith, clamp, ◌==◌, min,
}
use wasmx.Sockets.Errors.{ErrorCode, Errno}
use wasmx.Sockets.Options.RoundTrip.{saturate_le}
use wasmx.Sockets.Options.{Sockopt, coded, coded_with}
use wasmx.Sockets.Tcp.{Fd}
use wasmx.Sockets.Tcp.Socket.{
  TcpSocket, view, get_option, set_option, keep_alive_idle_time, set_keep_alive_idle_time,
  keep_alive_interval, set_keep_alive_interval, keep_alive_count, set_keep_alive_count,
  min_keep_alive, max_keep_alive, saturated, max_keep_alive_count,
}

abbrev pub second : ℕ
second = 1_000_000_000

-- A time that was read back after `n` nanoseconds were set: from 1 to 32767 seconds, and less than
-- a second below `n` if `n` itself lies in that range.
pub record IsNear (n m : ℕ) : Type 0 where
  pub lower : second ≤ m
  pub upper : m ≤ 32767 * second
  pub near : second ≤ n → n ≤ 32767 * second → (m ≤ n) × (n < m + second)

IsNear-clamp : (n : ℕ) → IsNear n (clamp min_keep_alive max_keep_alive n / second * second)
IsNear-clamp n = record {
  lower = ground arith;
  upper = ground arith;
  near = λ a b. (ground arith, ground arith);
}

module _ {W : Type 0} (w : W) (set : ℕ → W → Result ⊤ Errno × W) where
  -- a setter of tcp.rs, with its bounds
  abbrev bounded_set : ℕ → ℕ → ℕ → Result ⊤ ErrorCode × W
  bounded_set lo hi n =
      if n == 0 then (err ErrorCode.invalid_argument, w) else coded_with (set (clamp lo hi n) w)

  coded-ok : (t : Result ⊤ Errno × W) → (coded_with t).0 ≡ ok tt → t.0 ≡ ok tt
  coded-ok (ok u, v) e = refl
  coded-ok (err x, v) e = cc

  time_round_trip :
      (get : W → Result ℕ Errno)
      → ((m : ℕ) → (set m w).0 ≡ ok tt → get (set m w).1 ≡ ok (m / second * second))
      → (n : ℕ) → (bounded_set min_keep_alive max_keep_alive n).0 ≡ ok tt
      → (m : ℕ) × (saturated (get (bounded_set min_keep_alive max_keep_alive n).1) ≡ ok m)
        × IsNear n m
  time_round_trip get law n = elim (Bool-cases (n == 0)) [
    | inl d ↦ rw d (λ e. cc)
    | inr d ↦ rw d (λ e.
        let c = clamp min_keep_alive max_keep_alive n in
        let near = IsNear-clamp n in
        (
          c / second * second,
          rw (law c (coded-ok (set c w) e)) (ap ok (saturate_le _ (omega (arith, near.upper)))),
          near,
        ))
  ]

  count_round_trip :
      (get : W → Result ℕ Errno)
      → ((m : ℕ) → (set m w).0 ≡ ok tt → get (set m w).1 ≡ ok m)
      → (n : ℕ) → (bounded_set 1 max_keep_alive_count n).0 ≡ ok tt
      → (n ≢ 0) × (coded (get (bounded_set 1 max_keep_alive_count n).1) ≡ ok (min n 127))
  count_round_trip get law n = elim (Bool-cases (n == 0)) [
    | inl d ↦ rw d (λ e. cc)
    | inr d ↦ rw d (λ e.
        let c = clamp 1 max_keep_alive_count n in
        ((λ z. ground arith), rw (law c (coded-ok (set c w) e)) (ap ok (ground arith))))
  ]

module _ {World : Type 0} (so : Sockopt Fd World) where
  -- Linux keeps the times of the keep-alive options in whole seconds, rounded down, and the count.
  pub record KeepsSeconds : Type 0 where
    pub idle :
        (fd : Fd) (n : ℕ) (w : World)
        → (so.set_tcp_keepidle fd n w).0 ≡ ok tt
        → so.tcp_keepidle fd (so.set_tcp_keepidle fd n w).1 ≡ ok (n / second * second)
    pub interval :
        (fd : Fd) (n : ℕ) (w : World)
        → (so.set_tcp_keepintvl fd n w).0 ≡ ok tt
        → so.tcp_keepintvl fd (so.set_tcp_keepintvl fd n w).1 ≡ ok (n / second * second)
    pub count :
        (fd : Fd) (n : ℕ) (w : World)
        → (so.set_tcp_keepcnt fd n w).0 ≡ ok tt
        → so.tcp_keepcnt fd (so.set_tcp_keepcnt fd n w).1 ≡ ok n

  set_option-view :
      (t : TcpSocket) (fd : Fd)
      → view t.tcp_state ≡ ok fd
      → (set : Fd → World → Result ⊤ ErrorCode × World) (w : World)
      → set_option so set t w ≡ set fd w
  unfolding set_option
  set_option-view t fd e set w = rw (e, set_option)

  get_option-view :
      (t : TcpSocket) (fd : Fd)
      → view t.tcp_state ≡ ok fd
      → (get : Fd → World → Result ℕ ErrorCode) (w : World) → get_option so get t w ≡ get fd w
  unfolding get_option
  get_option-view t fd e get w = rw (e, get_option)

  -- For a socket whose state has a descriptor, a set that succeeds is of a value that is not 0, and the
  -- value that is then read is near it, for the idle time and for the interval; for the count it is
  -- the value itself, but at most 127.
  pub keep_alive_round_trip :
      KeepsSeconds
      → (t : TcpSocket) (fd : Fd) (n : ℕ) (w : World) → view t.tcp_state ≡ ok fd
      → (let (r, v) = set_keep_alive_idle_time so n t w in
          r ≡ ok tt → (m : ℕ) × (keep_alive_idle_time so t v ≡ ok m) × IsNear n m)
        × (let (r, v) = set_keep_alive_interval so n t w in
            r ≡ ok tt → (m : ℕ) × (keep_alive_interval so t v ≡ ok m) × IsNear n m)
        × (let (r, v) = set_keep_alive_count so n t w in
            r ≡ ok tt → (n ≢ 0) × (keep_alive_count so t v ≡ ok (min n 127)))
  unfolding set_keep_alive_idle_time keep_alive_idle_time set_keep_alive_interval
      keep_alive_interval set_keep_alive_count keep_alive_count
  keep_alive_round_trip l t fd n w e =
      simp (set_option-view t fd e, get_option-view t fd e)
        (
          time_round_trip w (so.set_tcp_keepidle fd) (so.tcp_keepidle fd) (λ m. l.idle fd m w) n,
          time_round_trip w (so.set_tcp_keepintvl fd) (so.tcp_keepintvl fd) (λ m. l.interval fd m w)
              n,
          count_round_trip w (so.set_tcp_keepcnt fd) (so.tcp_keepcnt fd) (λ m. l.count fd m w) n,
        )
