-- ===== src/Sockets/Tcp/Socket/Backlog.antt =====
-- The listen backlog of a `TcpSocket` of tcp.rs, over any sequence of calls.
use wasmx.Base.{
  ℕ, ◌≤◌, ◌≡◌, ◌≢◌, refl, List, [], ◌∷◌, ok, err, arith, i32_max, min, Result-cases, ◌==◌, inl, inr,
  Bool-cases, nonzero,
}
use wasmx.Io.{Handle}
use wasmx.Sockets.Errors.{ErrorCode}
use wasmx.Sockets.Address.{Family, SocketAddr}
use wasmx.Sockets.Tcp.{TcpOs, TcpState, Reply, begin_listen}
use wasmx.Sockets.Tcp
use wasmx.Sockets.Tcp.Socket.{
  TcpSocket, Lock, holds, from_state, locked, start_bind, finish_bind, start_connect,
  finish_connect, start_listen, finish_listen, accept, clamp_backlog, set_backlog_in,
  set_listen_backlog_size,
}

pub record HasBacklog (t : TcpSocket) : Type 0 where
  pub lower : 1 ≤ t.listen_backlog_size
  pub upper : t.listen_backlog_size ≤ i32_max

abbrev pub All : List TcpSocket → Type 0
All [] = Unit {0}
All (t ∷ ts) = HasBacklog t × All ts

pub data Call : Type 0 where
  binds connects : SocketAddr → Call
  finish_binds finish_connects listens finish_listens accepts : Call
  sets_backlog : ℕ → Call

from_state-HasBacklog : (s : TcpState) (family : Family) → HasBacklog (from_state s family)
unfolding from_state
from_state-HasBacklog s family = omega arith

clamp_backlog_bounds : (n : ℕ) → (1 ≤ clamp_backlog n) × (clamp_backlog n ≤ i32_max)
unfolding clamp_backlog
clamp_backlog_bounds n = (ground arith, ground arith)

clamp_backlog-min : (n : ℕ) → n ≢ 0 → clamp_backlog n ≡ min n i32_max
unfolding clamp_backlog
clamp_backlog-min n h = ground arith

module _ (os : TcpOs) where
  -- The sockets that a call leaves: the one it was made on, and the one that it made.
  unfoldable pub serve : Call → TcpSocket → os.World → List TcpSocket × os.World
  serve (binds a) t w = let (_, t', w') = start_bind os a t w in (t' ∷ [], w')
  serve (connects a) t w = let (_, t', w') = start_connect os a t w in (t' ∷ [], w')
  serve finish_binds t w = let (_, t', w') = finish_bind os t w in (t' ∷ [], w')
  serve finish_connects t w = let (_, t', w') = finish_connect os t w in (t' ∷ [], w')
  serve listens t w = let (_, t', w') = start_listen os t w in (t' ∷ [], w')
  serve finish_listens t w = let (_, t', w') = finish_listen os t w in (t' ∷ [], w')
  serve accepts t w =
      let (r, t', w') = accept os t w in
      elim r [ ok (u, _, _) ↦ (t' ∷ u ∷ [], w') | err _ ↦ (t' ∷ [], w') ]
  serve (sets_backlog n) t w = let (_, t', w') = set_listen_backlog_size os n t w in (t' ∷ [], w')

  locked-HasBacklog {ℓ} :
      {A : Type ℓ} (f : TcpState → os.World → Reply os A) (t : TcpSocket) (w : os.World)
      → HasBacklog t
      → HasBacklog (locked os f t w).1
  unfolding locked
  locked-HasBacklog f t w h = ground arith

  set_backlog_in-HasBacklog :
      (l : Lock) (n : ℕ) (t : TcpSocket) (w : os.World)
      → HasBacklog t
      → 1 ≤ n
      → n ≤ i32_max
      → HasBacklog (set_backlog_in os l n t w).1
  unfolding set_backlog_in
  set_backlog_in-HasBacklog l n t w h a b = ground arith

  set_listen_backlog_size-HasBacklog :
      (n : ℕ) (t : TcpSocket) (w : os.World)
      → HasBacklog t
      → HasBacklog (set_listen_backlog_size os n t w).1
  unfolding set_listen_backlog_size
  set_listen_backlog_size-HasBacklog n t w h = elim (Bool-cases (n == 0)) [
    | inl d ↦ rw d h
    | inr d ↦ rw d (
        set_backlog_in-HasBacklog t.tcp_state (clamp_backlog n) t w h (clamp_backlog_bounds n).0
          (clamp_backlog_bounds n).1)
  ]

  -- Every socket that any call leaves, the accepted one among them, has a backlog of 1 to
  -- 2147483647 if the one that it was made on had.
  pub serve-HasBacklog :
      (c : Call) (t : TcpSocket) (w : os.World) → HasBacklog t → All (serve c t w).0
  unfolding serve start_bind start_connect finish_bind finish_connect start_listen finish_listen
      accept
  serve-HasBacklog (binds a) t w h = (locked-HasBacklog _ t w h, tt)
  serve-HasBacklog (connects a) t w h = (locked-HasBacklog _ t w h, tt)
  serve-HasBacklog finish_binds t w h = (locked-HasBacklog _ t w h, tt)
  serve-HasBacklog finish_connects t w h = (locked-HasBacklog _ t w h, tt)
  serve-HasBacklog listens t w h = (locked-HasBacklog _ t w h, tt)
  serve-HasBacklog finish_listens t w h = (locked-HasBacklog _ t w h, tt)
  serve-HasBacklog accepts t w h = elim (Result-cases (locked os (Tcp.accept os) t w).0) [
    | inl (a, e) ↦
        rw (e, serve)
          (
            locked-HasBacklog (Tcp.accept os) t w h,
            (from_state-HasBacklog (TcpState.connected a.0) t.family, tt),
          )
    | inr (x, e) ↦ rw (e, serve) (locked-HasBacklog (Tcp.accept os) t w h, tt)
  ]
  serve-HasBacklog (sets_backlog n) t w h = (set_listen_backlog_size-HasBacklog n t w h, tt)

  abbrev pub bound_socket : Handle → ℕ → Family → TcpSocket
  bound_socket sock backlog family = record {
    tcp_state = holds (TcpState.bound sock);
    listen_backlog_size = backlog;
    family = family;
  }

  -- The size that a guest sets on a bound socket, limited to 2147483647, is the one with which the
  -- system is then asked to listen; 0 is refused and changes nothing.
  pub start_listen-set_listen_backlog_size :
      (n backlog : ℕ) (sock : Handle) (family : Family) (w : os.World)
      → (set_listen_backlog_size os 0 (bound_socket sock backlog family) w
          ≡ (err ErrorCode.invalid_argument, bound_socket sock backlog family, w))
        × (n ≢ 0
            → let (r, t, v) = set_listen_backlog_size os n (bound_socket sock backlog family) w in
              let (q, s, u) = begin_listen os (min n i32_max) sock w in
              (r ≡ ok tt) × (start_listen os t v ≡ (q, record t { tcp_state = holds s }, u)))
  unfolding set_listen_backlog_size set_backlog_in start_listen locked Tcp.start_listen
  start_listen-set_listen_backlog_size n backlog sock family w =
      (refl, λ h. rw (nonzero n h, clamp_backlog-min n h) (refl, refl))
