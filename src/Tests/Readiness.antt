-- ===== src/Tests/Readiness.antt =====
-- The checks of a pollable over a system whose world is a clock: a semaphore has a permit and a sleep is over
-- once the clock is past 10.
use wasmx.Base.{◌≡◌, refl, ◌-◌, true, false, some, ltb, arith}
use wasmx.Io.{sleep}
use wasmx.Sockets.Tcp.{TcpState}
use wasmx.Io.Readiness.{Probe, Locks, pending, poll, poll_state, is_ready}
use wasmx.Io.Readiness.Answers.{IsSteady, held_sleep, poll-is_ready}
use wasmx.Tests.Tcp.{system}

abbrev probe : Probe system
probe = record {
  readable = λ h w. (true, w);
  writable = λ h w. (true, w);
  udp_readable = λ h w. (true, w);
  udp_writable = λ h w. (true, w);
  available_permits = λ h w. w - 10;
  poll_acquire = λ h w. (ltb 10 w, w);
  poll_sleep = λ h w. (ltb 10 w, w);
  is_elapsed = λ h w. ltb 10 w;
}

probe-IsSteady : IsSteady system probe
probe-IsSteady = record { acquire_waits = λ h w e. ground arith; sleep_elapsed = λ h w. refl }

abbrev locks : Locks
locks = record { sockets = λ h. some (TcpState.connect_started h); sleeps = λ h. some (pending h) }

too_early : (poll system probe (sleep 5) locks 3).0 ≡ false
unfolding poll poll_state
too_early = refl

slept : (poll system probe (sleep 5) locks 12).0 ≡ true
unfolding poll poll_state
slept = refl

poll-is_ready_example :
    let (_, l, w) = poll system probe (sleep 5) locks 12 in
    (is_ready system probe (sleep 5) l w).0 ≡ true
poll-is_ready_example =
    poll-is_ready system probe probe-IsSteady (sleep 5) locks 12 (held_sleep 5) slept
