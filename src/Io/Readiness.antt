-- ===== src/Io/Readiness.antt =====
-- `Pollable` and `SleepState` of crates/wasmlet/src/engine/wasi/io/mod.rs: the two checks of a pollable that
-- `poll` of io/poll.rs makes. What stands behind a lock is a cell, which is nothing where the lock is poisoned.
pub mod Answers
use wasmx.Base.{ℕ, Bool, true, false, Option, none, some, ◌==◌, ltb, if◌then◌else◌}
use wasmx.Io.{
  Handle, Pollable, tcp_socket, tcp_stream_readable, tcp_stream_writable, udp_socket_readable,
  udp_socket_writable, semaphore, sleep,
}
use wasmx.Sockets.Tcp.{TcpOs, TcpState}
use wasmx.Sockets.Tcp as Tcp

pub data SleepState : Type 0 where
  pending : Handle → SleepState
  elapsed : SleepState

-- What is called of tokio: a poll gives `true` for `Poll::Ready`.
pub record Probe (os : TcpOs) : Type 0 where
  pub readable : Handle → os.World → Bool × os.World
  pub writable : Handle → os.World → Bool × os.World
  pub udp_readable : Handle → os.World → Bool × os.World
  pub udp_writable : Handle → os.World → Bool × os.World
  pub available_permits : Handle → os.World → ℕ
  -- a poll of a new `acquire`, which is dropped after it
  pub poll_acquire : Handle → os.World → Bool × os.World
  pub poll_sleep : Handle → os.World → Bool × os.World
  pub is_elapsed : Handle → os.World → Bool

pub record Locks : Type 0 where
  pub sockets : Handle → Option TcpState
  pub sleeps : Handle → Option SleepState

unfoldable pub put {ℓ} : {A : Type ℓ} → Handle → A → (Handle → Option A) → Handle → Option A
put h a cell i = if i == h then some a else cell i

module _ (os : TcpOs) (probe : Probe os) where
  -- What a check gives back, with the cells and the world that it leaves.
  abbrev pub Checked : Type 0
  Checked = Bool × Locks × os.World

  -- `SleepState::poll`
  unfoldable pub poll_state : SleepState → os.World → Bool × SleepState × os.World
  poll_state elapsed w = (true, elapsed, w)
  poll_state (pending h) w =
      let (r, w') = probe.poll_sleep h w in (r, if r then elapsed else pending h, w')

  -- `poll` of the state of a socket, under its lock
  unfoldable pub poll_socket : Handle → Locks → os.World → Checked
  poll_socket h l w = elim (l.sockets h) [
    | none ↦ (true, l, w)
    | some s ↦
        (let (r, s', w') = Tcp.poll os s w in (r, record l { sockets = put h s' l.sockets }, w'))
  ]

  abbrev pub with_locks : Locks → Bool × os.World → Checked
  with_locks l (r, w) = (r, l, w)

  -- `Pollable::poll`
  unfoldable pub poll : Pollable → Locks → os.World → Checked
  unfolding poll_socket poll_state
  poll (tcp_socket h) l w = poll_socket h l w
  poll (tcp_stream_readable h) l w = with_locks l (probe.readable h w)
  poll (tcp_stream_writable h) l w = with_locks l (probe.writable h w)
  poll (udp_socket_readable h) l w = with_locks l (probe.udp_readable h w)
  poll (udp_socket_writable h) l w = with_locks l (probe.udp_writable h w)
  poll (semaphore h) l w =
      if ltb 0 (probe.available_permits h w)
      then (true, l, w)
      else with_locks l (probe.poll_acquire h w)
  poll (sleep h) l w = elim (l.sleeps h) [
    | none ↦ (true, l, w)
    | some s ↦
        (let (r, s', w') = poll_state s w in (r, record l { sleeps = put h s' l.sleeps }, w'))
  ]
  poll Pollable.ready l w = (true, l, w)

  -- `sleep.read()` in `is_ready`
  unfoldable pub is_over : SleepState → os.World → Bool
  is_over (pending h) w = probe.is_elapsed h w
  is_over elapsed w = true

  -- `Pollable::is_ready`
  unfoldable pub is_ready : Pollable → Locks → os.World → Checked
  is_ready (tcp_socket h) l w = poll_socket h l w
  is_ready (tcp_stream_readable h) l w = with_locks l (probe.readable h w)
  is_ready (tcp_stream_writable h) l w = with_locks l (probe.writable h w)
  is_ready (udp_socket_readable h) l w = with_locks l (probe.udp_readable h w)
  is_ready (udp_socket_writable h) l w = with_locks l (probe.udp_writable h w)
  is_ready (semaphore h) l w = (ltb 0 (probe.available_permits h w), l, w)
  is_ready (sleep h) l w = (elim (l.sleeps h) [ none ↦ true | some s ↦ is_over s w ], l, w)
  is_ready Pollable.ready l w = (true, l, w)
