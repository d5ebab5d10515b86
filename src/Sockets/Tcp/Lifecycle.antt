-- ===== src/Sockets/Tcp/Lifecycle.antt =====
-- The life of a `TcpState` of tcp.rs over any sequence of calls.
use wasmx.Base.{
  ℕ, ◌≤◌, ◌≡◌, refl, ◌⊎◌, inl, inr, List, [], ◌∷◌, Option, none, some, Result, ok, err, arith,
  Result-cases,
}
use wasmx.Io.{Handle}
use wasmx.Sockets.Errors.{ErrorCode, IoError}
use wasmx.Sockets.Address.{Family, SocketAddr}
use wasmx.Sockets.Tcp.{
  TcpOs, TcpState, Reply, Accepted, poll, start_bind, finish_bind, start_connect, finish_connect,
  start_listen, finish_listen, accept, establish, begin_listen,
}

-- The calls that may change a `TcpState`.
pub data Call : Type 0 where
  binds : Family → SocketAddr → Call
  connects : Family → SocketAddr → Call
  listens : ℕ → Call
  finish_binds finish_connects finish_listens accepts polls : Call

-- How far a socket has come.
abbrev pub rank : TcpState → ℕ
rank (TcpState.default s) = 0
rank (TcpState.bind_started s) = 1
rank (TcpState.bound s) = 2
rank (TcpState.listen_started l) = 3
rank (TcpState.listening l p) = 4
rank (TcpState.connect_started f) = 5
rank (TcpState.connect_ready a) = 6
rank (TcpState.connected s) = 7
rank TcpState.closed = 8

Connect-cases :
    (o : Option (Result Handle IoError))
    → (o ≡ none) ⊎ ((x : IoError) × (o ≡ some (err x))) ⊎ ((h : Handle) × (o ≡ some (ok h)))
Connect-cases none = inl refl
Connect-cases (some (err x)) = inr (inl (x, refl))
Connect-cases (some (ok h)) = inr (inr (h, refl))

abbrev pub failure {ℓ} : {A : Type ℓ} → Result A ErrorCode → Option ErrorCode
failure (ok a) = none
failure (err e) = some e

module _ (os : TcpOs) where
  -- The state after a failed call in the world `w`, where it is not the state before: a `listen` that the
  -- system refuses and a connection that came to an error close the socket, and a failed accept has used up
  -- the error that a poll had kept.
  pub data IsSpent (w : os.World) : Call → TcpState → TcpState → Type 0 where
    listen_failed :
        (n : ℕ) (sock : Handle) (s : TcpState) (x : IoError)
        → (s ≡ TcpState.bind_started sock) ⊎ (s ≡ TcpState.bound sock)
        → (os.os_listen sock n w).0 ≡ err x
        → IsSpent w (listens n) s TcpState.closed
    polled_failed :
        (f : Handle) (x : IoError)
        → (os.poll_connect f w).0 ≡ some (err x)
        → IsSpent w finish_connects (TcpState.connect_started f) TcpState.closed
    connect_failed :
        (x : IoError) → IsSpent w finish_connects (TcpState.connect_ready (err x)) TcpState.closed
    accept_failed :
        (l : Handle) (x : IoError)
        → IsSpent w accepts (TcpState.listening l (some (err x))) (TcpState.listening l none)

  abbrev pub Called : Type 0
  Called = Option ErrorCode × TcpState × os.World

  abbrev pub called {ℓ} : {A : Type ℓ} → Reply os A → Called
  called (r, s, w) = (failure r, s, w)

  -- A call, by the error that it returns and what it leaves.
  unfoldable pub call : Call → TcpState → os.World → Called
  call (binds family a) s w = called (start_bind os family a s w)
  call finish_binds s w = called (finish_bind os s w)
  call (connects family a) s w = called (start_connect os family a s w)
  call finish_connects s w = called (finish_connect os s w)
  call (listens backlog) s w = called (start_listen os backlog s w)
  call finish_listens s w = called (finish_listen os s w)
  call accepts s w = called (accept os s w)
  call polls s w = let (_, s', w') = poll os s w in (none, s', w')

  unfoldable pub run : List Call → TcpState → os.World → TcpState × os.World
  run [] s w = (s, w)
  run (c ∷ cs) s w = let (_, s', w') = call c s w in run cs s' w'

  call-rank : (c : Call) (s : TcpState) (w : os.World) → rank s ≤ rank (call c s w).1
  unfolding call start_bind start_connect finish_bind finish_connect start_listen finish_listen
      accept poll
  call-rank (binds family a) s w = ground arith
  call-rank (connects family a) s w = ground arith
  call-rank finish_binds s w = ground arith
  call-rank finish_connects s w = ground arith
  call-rank (listens n) s w = ground arith
  call-rank finish_listens s w = ground arith
  call-rank accepts s w = ground arith
  call-rank polls s w = ground arith

  -- No sequence of calls, whatever they return, moves a socket back to an earlier stage of
  -- default, bind started, bound, listen started, listening, connect started, connect ready,
  -- connected, closed.
  pub rank-run : (cs : List Call) (s : TcpState) (w : os.World) → rank s ≤ rank (run cs s w).0
  unfolding run
  rank-run [] s w = omega arith
  rank-run (c ∷ cs) s w =
      let (_, s', w') = call c s w in omega (arith, call-rank c s w, rank-run cs s' w')

  -- Where a socket stays once it is there: connected to the same stream, listening on the same
  -- listener, or closed.
  abbrev pub IsSettled : TcpState → TcpState → Type 0
  IsSettled (TcpState.connected h) t = t ≡ TcpState.connected h
  IsSettled (TcpState.listening l p) t = (q : Option Accepted) × (t ≡ TcpState.listening l q)
  IsSettled TcpState.closed t = t ≡ TcpState.closed
  IsSettled _ t = Unit {0}

  call-connected :
      (c : Call) (h : Handle) (w : os.World)
      → (call c (TcpState.connected h) w).1 ≡ TcpState.connected h
  unfolding call start_bind start_connect finish_bind finish_connect start_listen finish_listen
      accept poll
  call-connected finish_binds h w = refl
  call-connected _ h w = ground arith

  call-closed : (c : Call) (w : os.World) → (call c TcpState.closed w).1 ≡ TcpState.closed
  unfolding call start_bind start_connect finish_bind finish_connect start_listen finish_listen
      accept poll
  call-closed finish_binds w = refl
  call-closed _ w = ground arith

  -- what a listening socket keeps
  abbrev kept_accept : Option Accepted → TcpState → Option Accepted
  kept_accept d (TcpState.listening l q) = q
  kept_accept d _ = d

  call-listening :
      (c : Call) (l : Handle) (p : Option Accepted) (w : os.World)
      → let t = (call c (TcpState.listening l p) w).1 in t ≡ TcpState.listening l (kept_accept p t)
  unfolding call start_bind start_connect finish_bind finish_connect start_listen finish_listen
      accept poll
  call-listening finish_binds l p w = refl
  call-listening _ l p w = ground arith

  -- A connected socket stays connected to its stream, a listening one keeps its listener, and a
  -- closed one stays closed, through any sequence of calls.
  pub run-IsSettled : (cs : List Call) (s : TcpState) (w : os.World) → IsSettled s (run cs s w).0
  unfolding run
  run-IsSettled cs (TcpState.connected h) w = go cs w
    where
      go :
          (cs : List Call) (w : os.World)
          → (run cs (TcpState.connected h) w).0 ≡ TcpState.connected h
      go [] w = refl
      go (c ∷ cs) w = rw (call-connected c h w, run) (go cs (call c (TcpState.connected h) w).2)
  run-IsSettled cs TcpState.closed w = go cs w
    where
      go : (cs : List Call) (w : os.World) → (run cs TcpState.closed w).0 ≡ TcpState.closed
      go [] w = refl
      go (c ∷ cs) w = rw (call-closed c w, run) (go cs (call c TcpState.closed w).2)
  run-IsSettled cs (TcpState.listening l p) w = go cs p w
    where
      go :
          (cs : List Call) (p : Option Accepted) (w : os.World)
          → (q : Option Accepted) × ((run cs (TcpState.listening l p) w).0 ≡ TcpState.listening l q)
      go [] p w = (p, refl)
      go (c ∷ cs) p w =
          let t = call c (TcpState.listening l p) w in
          rw (call-listening c l p w, run) (go cs (kept_accept p t.1) t.2)
  run-IsSettled cs _ w = tt

  failed_connect :
      (s : TcpState) (w : os.World) (e : ErrorCode)
      → failure (finish_connect os s w).0 ≡ some e
      → ((finish_connect os s w).1 ≡ s) ⊎ IsSpent w finish_connects s (finish_connect os s w).1
  unfolding finish_connect establish
  failed_connect (TcpState.connect_started f) w e h = elim (Connect-cases (os.poll_connect f w).0) [
    | inl q ↦ rw (q, finish_connect) (inl refl)
    | inr (inl (x, q)) ↦ rw (q, finish_connect) (inr (polled_failed f x q))
    | inr (inr (k, q)) ↦ (let g = rw (q, finish_connect) at h in cc)
  ]
  failed_connect (TcpState.connect_ready (ok k)) w e h = cc
  failed_connect (TcpState.connect_ready (err x)) w e h = inr (connect_failed x)
  failed_connect _ w e h = inl refl

  refused_listen :
      (n : ℕ) (sock : Handle) (s : TcpState) (w : os.World) (e : ErrorCode)
      → (s ≡ TcpState.bind_started sock) ⊎ (s ≡ TcpState.bound sock)
      → failure (begin_listen os n sock w).0 ≡ some e
      → IsSpent w (listens n) s (begin_listen os n sock w).1
  unfolding begin_listen
  refused_listen n sock s w e k h = elim (Result-cases (os.os_listen sock n w).0) [
    | inl (l, q) ↦ (let g = rw (q, begin_listen) at h in cc)
    | inr (x, q) ↦ rw (q, begin_listen) (listen_failed n sock s x k q)
  ]

  failed_listen :
      (n : ℕ) (s : TcpState) (w : os.World) (e : ErrorCode)
      → failure (start_listen os n s w).0 ≡ some e
      → ((start_listen os n s w).1 ≡ s) ⊎ IsSpent w (listens n) s (start_listen os n s w).1
  unfolding start_listen
  failed_listen n (TcpState.bind_started k) w e h =
      inr (refused_listen n k (TcpState.bind_started k) w e (inl refl) h)
  failed_listen n (TcpState.bound k) w e h =
      inr (refused_listen n k (TcpState.bound k) w e (inr refl) h)
  failed_listen n _ w e h = inl refl

  failed_accept :
      (s : TcpState) (w : os.World) (e : ErrorCode)
      → failure (accept os s w).0 ≡ some e
      → ((accept os s w).1 ≡ s) ⊎ IsSpent w accepts s (accept os s w).1
  unfolding accept
  failed_accept (TcpState.listening l (some (ok a))) w e h = cc
  failed_accept (TcpState.listening l (some (err x))) w e h = inr (accept_failed l x)
  failed_accept (TcpState.listening l none) w e h = ground arith
  failed_accept _ w e h = inl refl

  -- A call that fails leaves the state as it was, but for a `listen` that the system refuses and a connection
  -- that has come to an error, which close the socket, and for an accept that gives out the error that a poll
  -- had kept, which goes on listening without it. A connection that is still pending stays so.
  pub call-failure :
      (c : Call) (s : TcpState) (w : os.World) (e : ErrorCode)
      → (call c s w).0 ≡ some e
      → ((call c s w).1 ≡ s) ⊎ IsSpent w c s (call c s w).1
  unfolding call start_bind start_connect finish_bind finish_connect start_listen finish_listen
      accept poll
  call-failure (binds family a) s w e h = ground arith
  call-failure (connects family a) s w e h = ground arith
  call-failure finish_binds s w e h = ground arith
  call-failure finish_connects s w e h = failed_connect s w e h
  call-failure (listens n) s w e h = failed_listen n s w e h
  call-failure finish_listens s w e h = ground arith
  call-failure accepts s w e h = failed_accept s w e h
  call-failure polls s w e h = cc
