-- ===== src/Io/Readiness/Answers.antt =====
-- What the two checks of a `Pollable` of io/mod.rs say of one another.
use wasmx.Base.{
  ◌≡◌, refl, sym, ◌∙◌, ap, inl, inr, true, false, Option, none, some, ltb, Bool-cases, Option-cases,
  ==_iff, arith,
}
use wasmx.Io.{
  Handle, Pollable, tcp_socket, tcp_stream_readable, tcp_stream_writable, udp_socket_readable,
  udp_socket_writable, semaphore, sleep,
}
use wasmx.Sockets.Tcp.{TcpOs, TcpState}
use wasmx.Sockets.Tcp as Tcp
use wasmx.Sockets.Tcp.Polling.{poll-ready}
use wasmx.Io.Readiness.{
  SleepState, pending, elapsed, Probe, Locks, put, poll_state, poll_socket, poll, is_over, is_ready,
}

-- tokio: a semaphore, which is never closed here, makes a new `acquire` wait where it has no permits; and a sleep is
-- ready when it is elapsed.
pub record IsSteady (os : TcpOs) (probe : Probe os) : Type 0 where
  pub acquire_waits :
      (h : Handle) (w : os.World)
      → probe.available_permits h w ≡ 0
      → (probe.poll_acquire h w).0 ≡ false
  pub sleep_elapsed : (h : Handle) (w : os.World) → (probe.poll_sleep h w).0 ≡ probe.is_elapsed h w

-- The pollables whose readiness the host itself keeps: not those of streams and datagrams, which ask the system.
pub data IsHeld : Pollable → Type 0 where
  held_socket : (h : Handle) → IsHeld (tcp_socket h)
  held_semaphore : (h : Handle) → IsHeld (semaphore h)
  held_sleep : (h : Handle) → IsHeld (sleep h)
  held_ready : IsHeld Pollable.ready

put-same {ℓ} :
    {A : Type ℓ} (h : Handle) (a : A) (cell : Handle → Option A) → put h a cell h ≡ some a
unfolding put
put-same h a cell = rw ((==_iff h h).1 refl) refl

module _ (os : TcpOs) (probe : Probe os) (steady : IsSteady os probe) where
  -- The two checks of a pollable agree, whatever it stands for, if an open semaphore without permits makes
  -- an `acquire` wait and a sleep is ready when it is elapsed.
  pub is_ready-poll :
      (p : Pollable) (l : Locks) (w : os.World)
      → (is_ready os probe p l w).0 ≡ (poll os probe p l w).0
  unfolding is_ready poll poll_state is_over
  is_ready-poll (semaphore h) l w = elim (Bool-cases (ltb 0 (probe.available_permits h w))) [
    | inl e ↦ rw (e, poll, is_ready) refl
    | inr e ↦ rw (e, poll, is_ready) (sym (steady.acquire_waits h w (ground arith)))
  ]
  is_ready-poll (sleep h) l w = elim (Option-cases (l.sleeps h)) [
    | inl e ↦ rw (e, poll, is_ready) refl
    | inr (pending s, e) ↦ rw (e, poll, is_ready) (sym (steady.sleep_elapsed s w))
    | inr (elapsed, e) ↦ rw (e, poll, is_ready) refl
  ]
  is_ready-poll (tcp_socket h) l w = refl
  is_ready-poll (tcp_stream_readable h) l w = refl
  is_ready-poll (tcp_stream_writable h) l w = refl
  is_ready-poll (udp_socket_readable h) l w = refl
  is_ready-poll (udp_socket_writable h) l w = refl
  is_ready-poll Pollable.ready l w = refl

  socket-none :
      (h : Handle) (l : Locks) (w : os.World)
      → l.sockets h ≡ none
      → poll_socket os probe h l w ≡ (true, l, w)
  unfolding poll_socket
  socket-none h l w e = rw (e, poll_socket) refl

  socket-some :
      (h : Handle) (l : Locks) (w : os.World) (s : TcpState)
      → l.sockets h ≡ some s
      → let (r, s', w') = Tcp.poll os s w in
        poll_socket os probe h l w ≡ (r, record l { sockets = put h s' l.sockets }, w')
  unfolding poll_socket
  socket-some h l w s e = rw (e, poll_socket) refl

  socket-again :
      (h : Handle) (l : Locks) (w : os.World)
      → (poll_socket os probe h l w).0 ≡ true
      → let (_, l', w') = poll_socket os probe h l w in (poll_socket os probe h l' w').0 ≡ true
  socket-again h l w r = elim (Option-cases (l.sockets h)) [
    | inl e ↦ rw (socket-none h l w e, socket-none h l w e) refl
    | inr (s, e) ↦
        (let t = Tcp.poll os s w in
          rw
            (
              socket-some h l w s e,
              socket-some h (record l { sockets = put h t.1 l.sockets }) t.2 t.1
                  (put-same h t.1 l.sockets),
            )
            (ap (λ x. x.0) (poll-ready os s w (rw (socket-some h l w s e) at r)).2))
  ]

  sleep-some :
      (h : Handle) (l : Locks) (w : os.World) (s : SleepState)
      → l.sleeps h ≡ some s
      → let (r, s', w') = poll_state os probe s w in
        poll os probe (sleep h) l w ≡ (r, record l { sleeps = put h s' l.sleeps }, w')
  unfolding poll
  sleep-some h l w s e = rw (e, poll) refl

  sleep-none :
      (h : Handle) (l : Locks) (w : os.World)
      → l.sleeps h ≡ none
      → poll os probe (sleep h) l w ≡ (true, l, w)
  unfolding poll
  sleep-none h l w e = rw (e, poll) refl

  sleep-free :
      (h : Handle) (l : Locks) (w : os.World)
      → l.sleeps h ≡ none
      → (is_ready os probe (sleep h) l w).0 ≡ true
  unfolding is_ready
  sleep-free h l w e = rw (e, is_ready) refl

  sleep-over :
      (h : Handle) (l : Locks) (w : os.World)
      → l.sleeps h ≡ some elapsed
      → (is_ready os probe (sleep h) l w).0 ≡ true
  unfolding is_ready is_over
  sleep-over h l w e = rw (e, is_ready) refl

  state-elapsed :
      (s : SleepState) (w : os.World)
      → (poll_state os probe s w).0 ≡ true
      → (poll_state os probe s w).1 ≡ elapsed
  unfolding poll_state
  state-elapsed elapsed w r = refl
  state-elapsed (pending h) w r = rw r refl

  sleep-again :
      (h : Handle) (l : Locks) (w : os.World)
      → (poll os probe (sleep h) l w).0 ≡ true
      → let (_, l', w') = poll os probe (sleep h) l w in
        (is_ready os probe (sleep h) l' w').0 ≡ true
  unfolding poll is_ready
  sleep-again h l w r = elim (Option-cases (l.sleeps h)) [
    | inl e ↦ rw (sleep-none h l w e) (sleep-free h l w e)
    | inr (s, e) ↦
        (let t = poll_state os probe s w in
          rw (sleep-some h l w s e) (
            sleep-over h (record l { sleeps = put h t.1 l.sleeps }) t.2
              (put-same h t.1 l.sleeps
                ∙ ap (λ x. some x) (state-elapsed s w (rw (sleep-some h l w s e) at r)))))
  ]

  semaphore-again :
      (h : Handle) (l : Locks) (w : os.World)
      → (poll os probe (semaphore h) l w).0 ≡ true
      → let (_, l', w') = poll os probe (semaphore h) l w in
        (is_ready os probe (semaphore h) l' w').0 ≡ true
  unfolding poll is_ready
  semaphore-again h l w r = elim (Bool-cases (ltb 0 (probe.available_permits h w))) [
    | inl e ↦ rw (e, poll, is_ready) e
    | inr e ↦ absurd (cc (steady.acquire_waits h w (ground arith), rw (e, poll) at r))
  ]

  -- After a poll that finds a TCP socket, a semaphore, a sleep or what is always ready to be ready, the other check
  -- finds it ready too, if a semaphore without permits makes an `acquire` wait and a sleep is ready exactly when it
  -- is elapsed.
  pub poll-is_ready :
      (p : Pollable) (l : Locks) (w : os.World)
      → IsHeld p
      → (poll os probe p l w).0 ≡ true
      → let (_, l', w') = poll os probe p l w in (is_ready os probe p l' w').0 ≡ true
  unfolding is_ready poll poll_state is_over poll_socket
  poll-is_ready _ l w (held_socket h) e = socket-again h l w e
  poll-is_ready _ l w (held_semaphore h) e = semaphore-again h l w e
  poll-is_ready _ l w (held_sleep h) e = sleep-again h l w e
  poll-is_ready _ l w held_ready e = refl
