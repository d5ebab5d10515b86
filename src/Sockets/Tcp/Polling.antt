-- ===== src/Sockets/Tcp/Polling.antt =====
-- What `TcpState::poll` of tcp.rs, behind `subscribe`, promises about the call that follows.
use wasmx.Base.{
  ◌≡◌, ◌≢◌, refl, Bool, true, false, Option, none, some, Result, ok, err, arith, inl, inr,
  Option-cases,
}
use wasmx.Io.{Handle}
use wasmx.Sockets.Errors.{ErrorCode, IoError, is_progress-from_io_error, from_io_error, Errno}
use wasmx.Sockets.Tcp.{
  TcpOs, TcpState, Accepted, poll, finish_connect, accept, accept_error, accept_result,
  accept_errno, establish,
}

accept_errno-ne : (e : IoError) (n : Errno) → accept_errno e n ≢ ErrorCode.would_block
unfolding accept_errno
accept_errno-ne e n h = ground (arith, is_progress-from_io_error e)

accept_error-ne : (e : IoError) → accept_error e ≢ ErrorCode.would_block
unfolding accept_error
accept_error-ne e h = go e.errno h
  where
    go :
        (o : Option Errno)
        → ¬ (
            ◌≡◌ {A = ErrorCode}
              (elim o [ some n ↦ accept_errno e n | none ↦ from_io_error e ])
              ErrorCode.would_block)
    go none q = ground (arith, is_progress-from_io_error e)
    go (some n) q = accept_errno-ne e n q

accept_result-ne : (a : Accepted) → accept_result a ≢ err ErrorCode.would_block
unfolding accept_result
accept_result-ne (ok a) h = cc
accept_result-ne (err e) h = ground (arith, accept_error-ne e)

module _ (os : TcpOs) where
  establish-ne :
      (a : Result Handle IoError) (w : os.World) → (establish os a w).0 ≢ err ErrorCode.would_block
  unfolding establish
  establish-ne (ok a) w h = cc
  establish-ne (err e) w h = ground (arith, is_progress-from_io_error e)

  -- A state on which a poll that is ready leaves the socket.
  abbrev IsReady : Bool × TcpState × os.World → Type 0
  IsReady (true, s, w) =
      ((finish_connect os s w).0 ≢ err ErrorCode.would_block)
      × ((accept os s w).0 ≢ err ErrorCode.would_block)
      × (poll os s w ≡ (true, s, w))
  IsReady (false, s, w) = Unit {0}

  poll-IsReady : (s : TcpState) (w : os.World) → IsReady (poll os s w)
  unfolding poll finish_connect accept
  poll-IsReady (TcpState.listening l none) w = elim (Option-cases (os.poll_accept l w).0) [
    | inl e ↦ rw (e, poll) tt
    | inr (a, e) ↦ rw (e, poll) ((λ h. cc), accept_result-ne a, refl)
  ]
  poll-IsReady (TcpState.listening l (some a)) w = ((λ h. cc), accept_result-ne a, refl)
  poll-IsReady (TcpState.connect_started f) w = elim (Option-cases (os.poll_connect f w).0) [
    | inl e ↦ rw (e, poll) tt
    | inr (a, e) ↦ rw (e, poll) (establish-ne a (os.poll_connect f w).1, (λ h. cc), refl)
  ]
  poll-IsReady (TcpState.connect_ready a) w = (establish-ne a w, (λ h. cc), refl)
  poll-IsReady _ w = ((λ h. cc), (λ h. cc), refl)

  -- After a poll that is ready, in whatever state, the next `finish_connect` and the next `accept`
  -- do not answer `would-block`, and another poll is ready at once and changes nothing.
  pub poll-ready :
      (s : TcpState) (w : os.World)
      → (poll os s w).0 ≡ true
      → let (_, s', w') = poll os s w in
        ((finish_connect os s' w').0 ≢ err ErrorCode.would_block)
        × ((accept os s' w').0 ≢ err ErrorCode.would_block)
        × (poll os s' w' ≡ (true, s', w'))
  poll-ready s w h = go (poll os s w) (poll-IsReady s w) h
    where
      go :
          (t : Bool × TcpState × os.World)
          → IsReady t
          → t.0 ≡ true
          → ((finish_connect os t.1 t.2).0 ≢ err ErrorCode.would_block)
            × ((accept os t.1 t.2).0 ≢ err ErrorCode.would_block)
            × (poll os t.1 t.2 ≡ (true, t.1, t.2))
      go (true, t, v) r e = r
      go (false, t, v) r e = cc
