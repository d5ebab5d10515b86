-- ===== src/Sockets/Udp/Peer.antt =====
-- `UdpSocket` of udp.rs: what the system holds of a socket, and that sending and receiving leave it.
use wasmx.Base.{
  ℕ, zero, suc, ◌≡◌, refl, ◌∙◌, ap, inl, inr, List, Option, none, some, Result, ok, err, ⊤, ◌==◌,
  ltb, length, drop, Bool-cases, Result-cases,
}
use wasmx.Io.{Handle}
use wasmx.Sockets.Errors.{Errno, IoError}
use wasmx.Sockets.Address.{Family, SocketAddr}
use wasmx.Sockets.Udp.{
  UdpOs, UdpSocket, UdpState, SendFailure, eq_addr, send_loop, send, send_to, receive, received,
  received_from,
}

-- The system keeps a peer for each socket. A connect that succeeds sets it. One that fails leaves a socket
-- without a peer as it is; nothing is said of one that has a peer. A connect to the unspecified family clears
-- it, or fails and leaves it. Nothing else changes it.
pub record TracksPeer (os : UdpOs) : Type 0 where
  pub peer : Handle → os.World → Option SocketAddr
  pub bind_keeps :
      (h : Handle) (a : SocketAddr) (w : os.World) → peer h (os.os_bind h a w).1 ≡ peer h w
  pub connect_sets :
      (h : Handle) (a : SocketAddr) (w : os.World)
      → (os.os_connect h a w).0 ≡ ok tt
      → peer h (os.os_connect h a w).1 ≡ some a
  pub connect_fails :
      (h : Handle) (a : SocketAddr) (e : Errno) (w : os.World)
      → peer h w ≡ none
      → (os.os_connect h a w).0 ≡ err e
      → peer h (os.os_connect h a w).1 ≡ none
  pub unspec_clears :
      (h : Handle) (w : os.World)
      → (os.connect_unspec h w).0 ≡ ok tt
      → peer h (os.connect_unspec h w).1 ≡ none
  pub unspec_fails :
      (h : Handle) (e : Errno) (w : os.World)
      → (os.connect_unspec h w).0 ≡ err e
      → peer h (os.connect_unspec h w).1 ≡ peer h w
  pub send_keeps :
      (h : Handle) (buf : List ℕ) (w : os.World) → peer h (os.os_send h buf w).1 ≡ peer h w
  pub send_to_keeps :
      (h : Handle) (buf : List ℕ) (a : SocketAddr) (w : os.World)
      → peer h (os.os_send_to h buf a w).1 ≡ peer h w
  pub recv_keeps : (h : Handle) (n : ℕ) (w : os.World) → peer h (os.os_recv h n w).1 ≡ peer h w
  pub recv_from_keeps :
      (h : Handle) (n : ℕ) (w : os.World) → peer h (os.os_recv_from h n w).1 ≡ peer h w

abbrev pub socket_of : Handle → UdpState → Family → UdpSocket
socket_of h s family = record { socket = h; udp_state = s; family = family }

module _ (os : UdpOs) (tracks : TracksPeer os) where
  abbrev pub LeavesPeer : Handle → os.World → Option (Result ⊤ SendFailure × os.World) → Type 0
  LeavesPeer h w none = Unit {0}
  LeavesPeer h w (some (r, v)) = tracks.peer h v ≡ tracks.peer h w

  LeavesPeer-after :
      (h : Handle) (w v : os.World) (o : Option (Result ⊤ SendFailure × os.World))
      → tracks.peer h v ≡ tracks.peer h w
      → LeavesPeer h v o
      → LeavesPeer h w o
  LeavesPeer-after h w v none e k = tt
  LeavesPeer-after h w v (some (r, u)) e k = k ∙ e

  send_loop-LeavesPeer :
      (h : Handle) (f : List ℕ → os.World → Result ℕ IoError × os.World)
      → ((buf : List ℕ) (w : os.World) → tracks.peer h (f buf w).1 ≡ tracks.peer h w)
      → (fuel : ℕ) (buf : List ℕ) (w : os.World) → LeavesPeer h w (send_loop f fuel buf w)
  unfolding send_loop
  send_loop-LeavesPeer h f keeps zero buf w = tt
  send_loop-LeavesPeer h f keeps (suc fuel) buf w = elim (Result-cases (f buf w).0) [
    | inr (e, d) ↦ rw (d, send_loop) (keeps buf w)
    | inl (n, d) ↦
        rw (d, send_loop)
          (elim (Bool-cases (n == length buf)) [
            | inl q ↦ rw q (keeps buf w)
            | inr q ↦ rw q (elim (Bool-cases (ltb (length buf) n)) [
              | inl z ↦ rw z (keeps buf w)
              | inr z ↦ rw z (
                  LeavesPeer-after h w (f buf w).1 _ (keeps buf w)
                    (send_loop-LeavesPeer h f keeps fuel (drop n buf) (f buf w).1))
            ])
          ])
  ]

  pub send-LeavesPeer :
      (fuel : ℕ) (buf : List ℕ) (h : Handle) (s : UdpState) (family : Family) (w : os.World)
      → LeavesPeer h w (send os fuel buf (socket_of h s family) w)
  unfolding send
  send-LeavesPeer fuel buf h UdpState.default family w = refl
  send-LeavesPeer fuel buf h UdpState.bound family w = refl
  send-LeavesPeer fuel buf h (UdpState.connected b) family w =
      send_loop-LeavesPeer h (os.os_send h) (tracks.send_keeps h) fuel buf w

  pub send_to-LeavesPeer :
      (fuel : ℕ) (buf : List ℕ) (a : SocketAddr) (h : Handle) (s : UdpState) (family : Family)
      (w : os.World)
      → LeavesPeer h w (send_to os fuel buf a (socket_of h s family) w)
  unfolding send_to
  send_to-LeavesPeer fuel buf a h UdpState.default family w =
      send_loop-LeavesPeer h (λ buf. os.os_send_to h buf a) (λ b v. tracks.send_to_keeps h b a v)
        fuel buf w
  send_to-LeavesPeer fuel buf a h UdpState.bound family w =
      send_loop-LeavesPeer h (λ buf. os.os_send_to h buf a) (λ b v. tracks.send_to_keeps h b a v)
        fuel buf w
  send_to-LeavesPeer fuel buf a h (UdpState.connected b) family w =
      elim (Bool-cases (eq_addr a b)) [
        | inl d ↦ rw d (send_loop-LeavesPeer h (os.os_send h) (tracks.send_keeps h) fuel buf w)
        | inr d ↦ rw d refl
      ]

  received-world :
      (a : SocketAddr) (r : Result (List ℕ) IoError × os.World) → (received os a r).1 ≡ r.1
  received-world a (ok b, w) = refl
  received-world a (err e, w) = refl

  received_from-world :
      (r : Result (List ℕ × SocketAddr) IoError × os.World) → (received_from os r).1 ≡ r.1
  received_from-world (ok b, w) = refl
  received_from-world (err e, w) = refl

  pub receive-peer :
      (h : Handle) (s : UdpState) (family : Family) (w : os.World)
      → tracks.peer h (receive os (socket_of h s family) w).1 ≡ tracks.peer h w
  unfolding receive
  receive-peer h UdpState.default family w = refl
  receive-peer h UdpState.bound family w =
      ap (tracks.peer h) (received_from-world (os.os_recv_from h _ w))
      ∙ tracks.recv_from_keeps h _ w
  receive-peer h (UdpState.connected b) family w =
      ap (tracks.peer h) (received-world b (os.os_recv h _ w)) ∙ tracks.recv_keeps h _ w
