-- ===== src/Sockets/Udp/Coherence.antt =====
-- The state of a `UdpSocket` of udp.rs against the peer that the system holds for it.
use wasmx.Base.{
  ℕ, ◌≡◌, refl, sym, ◌∙◌, inl, inr, List, [], ◌∷◌, Option, none, some, Result, ok, err, ⊤, not,
  ◌||◌, Bool-cases,
}
use wasmx.Io.{Handle}
use wasmx.Sockets.Errors.{ErrorCode, Errno}
use wasmx.Sockets.Address.{Family, SocketAddr, ip, is_valid_address_family, is_valid_remote_address}
use wasmx.Sockets.Udp.{
  UdpOs, UdpSocket, UdpState, SendFailure, Reply, moved, bind, disconnect, reconnect, released,
  connect, send, send_to, receive,
}
use wasmx.Sockets.Udp.Peer.{
  TracksPeer, socket_of, LeavesPeer, send-LeavesPeer, send_to-LeavesPeer, receive-peer,
}

pub data Call : Type 0 where
  binds connects : SocketAddr → Call
  disconnects receives : Call
  sends : ℕ → List ℕ → Call
  sends_to : ℕ → List ℕ → SocketAddr → Call

-- The peer that a state stands for.
abbrev pub peer_of : UdpState → Option SocketAddr
peer_of (UdpState.connected a) = some a
peer_of _ = none

module _ (os : UdpOs) where
  abbrev pub Served : Type 0
  Served = Option (UdpSocket × os.World)

  abbrev pub with_socket {ℓ} : {A : Type ℓ} → UdpSocket → Option (A × os.World) → Served
  with_socket t (some (r, w)) = some (t, w)
  with_socket t none = none

  -- A call on the socket, by what it leaves.
  unfoldable pub serve : Call → UdpSocket → os.World → Served
  serve (binds a) t w = let (_, t', w') = bind os a t w in some (t', w')
  serve (connects a) t w = let (_, t', w') = connect os a t w in some (t', w')
  serve disconnects t w = let (_, t', w') = disconnect os t w in some (t', w')
  serve receives t w = some (t, (receive os t w).1)
  serve (sends fuel buf) t w = with_socket t (send os fuel buf t w)
  serve (sends_to fuel buf a) t w = with_socket t (send_to os fuel buf a t w)

  unfoldable pub run : List Call → UdpSocket → os.World → Served
  run [] t w = some (t, w)
  run (c ∷ cs) t w = elim (serve c t w) [ none ↦ none | some (t', w') ↦ run cs t' w' ]

  module _ (tracks : TracksPeer os) where
    -- The state says which peer the system holds.
    abbrev pub IsCoherent : UdpSocket → os.World → Type 0
    IsCoherent t w = tracks.peer t.socket w ≡ peer_of t.udp_state

    abbrev Keeps : Served → Type 0
    Keeps none = Unit {0}
    Keeps (some (t, w)) = IsCoherent t w

    abbrev Leaves : Reply os ⊤ → Type 0
    Leaves (r, t, w) = IsCoherent t w

    -- a system call whose success means the state `s`
    moved-Leaves :
        (coded : Errno → ErrorCode) (t : UdpSocket) (s : UdpState) (w : os.World)
        (p : Result ⊤ Errno × os.World)
        → (p.0 ≡ ok tt → tracks.peer t.socket p.1 ≡ peer_of s)
        → ((e : Errno) → p.0 ≡ err e → tracks.peer t.socket p.1 ≡ tracks.peer t.socket w)
        → IsCoherent t w
        → Leaves (moved os coded t s p)
    unfolding moved
    moved-Leaves coded t s w (ok u, v) good bad h = good refl
    moved-Leaves coded t s w (err e, v) good bad h = bad e refl ∙ h

    bind-Leaves :
        (a : SocketAddr) (h : Handle) (s : UdpState) (family : Family) (w : os.World)
        → IsCoherent (socket_of h s family) w
        → Leaves (bind os a (socket_of h s family) w)
    unfolding bind
    bind-Leaves a h UdpState.default family w c =
        elim (Bool-cases (not (is_valid_address_family (ip a) family))) [
          | inl d ↦ rw (d, bind) c
          | inr d ↦
              rw (d, bind)
                (moved-Leaves _ (socket_of h UdpState.default family) UdpState.bound w
                  (os.os_bind h a w) (λ e. tracks.bind_keeps h a w ∙ c)
                  (λ x e. tracks.bind_keeps h a w) c)
        ]
    bind-Leaves a h UdpState.bound family w c = c
    bind-Leaves a h (UdpState.connected b) family w c = c

    disconnect-Leaves :
        (h : Handle) (s : UdpState) (family : Family) (w : os.World)
        → IsCoherent (socket_of h s family) w
        → Leaves (disconnect os (socket_of h s family) w)
    unfolding disconnect
    disconnect-Leaves h UdpState.default family w c = c
    disconnect-Leaves h UdpState.bound family w c = c
    disconnect-Leaves h (UdpState.connected b) family w c =
        moved-Leaves _ (socket_of h (UdpState.connected b) family) UdpState.bound w
          (os.connect_unspec h w) (tracks.unspec_clears h w) (λ x. tracks.unspec_fails h x w) c

    released-Leaves :
        (h : Handle) (s : UdpState) (family : Family) (w : os.World)
        → IsCoherent (socket_of h s family) w
        → Leaves (released os (socket_of h s family) w)
    unfolding released
    released-Leaves h UdpState.default family w c = c
    released-Leaves h UdpState.bound family w c = c
    released-Leaves h (UdpState.connected b) family w c =
        disconnect-Leaves h (UdpState.connected b) family w c

    -- Where the call before succeeded, the socket has no peer.
    Alone : Reply os ⊤ → Type 0
    Alone (ok u, t, w) = tracks.peer t.socket w ≡ none
    Alone (err e, t, w) = Unit {0}

    moved-Alone :
        (coded : Errno → ErrorCode) (t : UdpSocket) (s : UdpState) (p : Result ⊤ Errno × os.World)
        → (p.0 ≡ ok tt → tracks.peer t.socket p.1 ≡ none)
        → Alone (moved os coded t s p)
    unfolding moved Alone
    moved-Alone coded t s (ok u, v) good = good refl
    moved-Alone coded t s (err e, v) good = tt

    released-Alone :
        (h : Handle) (s : UdpState) (family : Family) (w : os.World)
        → IsCoherent (socket_of h s family) w
        → Alone (released os (socket_of h s family) w)
    unfolding released disconnect Alone
    released-Alone h UdpState.default family w c = c
    released-Alone h UdpState.bound family w c = c
    released-Alone h (UdpState.connected b) family w c =
        moved-Alone _ (socket_of h (UdpState.connected b) family) UdpState.bound
          (os.connect_unspec h w) (tracks.unspec_clears h w)

    reconnect-Leaves :
        (a : SocketAddr) (r : Reply os ⊤) → Alone r → Leaves r → Leaves (reconnect os a r)
    unfolding reconnect Alone
    reconnect-Leaves a (err e, t, w) n h = h
    reconnect-Leaves a (ok u, t, w) n h =
        moved-Leaves _ t (UdpState.connected a) w (os.os_connect t.socket a w)
          (tracks.connect_sets t.socket a w)
          (λ e q. tracks.connect_fails t.socket a e w n q ∙ sym n) h

    connect-Leaves :
        (a : SocketAddr) (t : UdpSocket) (w : os.World) → IsCoherent t w → Leaves (connect os a t w)
    unfolding connect
    connect-Leaves a t w c =
        elim (Bool-cases
          (not (is_valid_address_family (ip a) t.family) || not (is_valid_remote_address a))) [
            | inl d ↦ rw (d, connect) c
            | inr d ↦
                rw (d, connect)
                  (reconnect-Leaves a (released os t w)
                    (released-Alone t.socket t.udp_state t.family w c)
                    (released-Leaves t.socket t.udp_state t.family w c))
          ]

    with_socket-Keeps :
        (t : UdpSocket) (w : os.World) (o : Option (Result ⊤ SendFailure × os.World))
        → IsCoherent t w
        → LeavesPeer os tracks t.socket w o
        → Keeps (with_socket t o)
    with_socket-Keeps t w none c k = tt
    with_socket-Keeps t w (some (r, v)) c k = k ∙ c

    serve-Keeps : (c : Call) (t : UdpSocket) (w : os.World) → IsCoherent t w → Keeps (serve c t w)
    unfolding serve
    serve-Keeps (binds a) t w c = bind-Leaves a t.socket t.udp_state t.family w c
    serve-Keeps (connects a) t w c = connect-Leaves a t w c
    serve-Keeps disconnects t w c = disconnect-Leaves t.socket t.udp_state t.family w c
    serve-Keeps receives t w c = receive-peer os tracks t.socket t.udp_state t.family w ∙ c
    serve-Keeps (sends fuel buf) t w c =
        with_socket-Keeps t w (send os fuel buf t w) c
          (send-LeavesPeer os tracks fuel buf t.socket t.udp_state t.family w)
    serve-Keeps (sends_to fuel buf a) t w c =
        with_socket-Keeps t w (send_to os fuel buf a t w) c
          (send_to-LeavesPeer os tracks fuel buf a t.socket t.udp_state t.family w)

    run-Keeps :
        (cs : List Call) (t : UdpSocket) (w : os.World) → IsCoherent t w → Keeps (run cs t w)
    unfolding run
    run-Keeps [] t w c = c
    run-Keeps (k ∷ cs) t w c = go (serve k t w) (serve-Keeps k t w c) (λ t w. run-Keeps cs t w)
      where
        go :
            (o : Served)
            → Keeps o
            → ((t : UdpSocket) (w : os.World) → IsCoherent t w → Keeps (run cs t w))
            → Keeps (elim o [ none ↦ none | some (t', w') ↦ run cs t' w' ])
        go none h rest = tt
        go (some (t', w')) h rest = rest t' w' h

    -- Through any sequence of calls, whether they fail or not, the state of a socket says which peer the
    -- system holds for it, connected to an address or to none, if it said so at first; and if the system keeps
    -- peers as `TracksPeer` says, whatever becomes of a peer in a connect that fails on a socket that has one.
    pub run-IsCoherent :
        (cs : List Call) (t t' : UdpSocket) (w w' : os.World)
        → IsCoherent t w
        → run cs t w ≡ some (t', w')
        → IsCoherent t' w'
    run-IsCoherent cs t t' w w' c e = rw e at (run-Keeps cs t w c)
