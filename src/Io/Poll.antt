-- ===== src/Io/Poll.antt =====
-- `poll` of crates/wasmlet/src/engine/wasi/io/poll.rs, `Host` for `wasi:io/poll`. `Pollable::is_ready` and
-- `Pollable::poll` are its two checks of a pollable, which may change the world. A `Reading` is what one
-- turn of the inner `loop` finds of the shutdown deadline, the clock and its two futures.
pub mod Answers
use wasmx.Base.{
  ℕ, zero, suc, ◌-◌, Bool, true, false, List, [], ◌∷◌, Option, none, some, Result, ok, err, ⊤, Poll,
  pending, ready, min, ◌==◌, ltb, ◌&&◌, not, if◌then◌else◌, length, u32_max,
}

pub record Reading : Type 0 where
  pub shutdown : ℕ
  pub now : ℕ
  -- the sleep until the deadline is over
  pub elapsed : Bool
  -- `shutdown.changed()`
  pub changed : Poll (Result ⊤ ⊤)

pub data PollError : Type 0 where
  empty_list too_many deadline_reached forced_shutdown : PollError

-- How a turn of the closure of `poll_fn` ends: it waits to be woken, fails, or has used up its readings
-- and goes on turning.
pub data Turn : Type 0 where
  waits : Turn
  fails : PollError → Turn
  turning : Turn

-- `self.deadline` after the shutdown deadline was read
unfoldable pub merge_deadline : ℕ → ℕ → ℕ
merge_deadline deadline shutdown =
    if not (deadline == 0) && not (shutdown == 0)
    then min shutdown deadline
    else if deadline == 0
    then shutdown
    else deadline

-- the test of the deadline in one turn of the `loop`
unfoldable pub is_over : ℕ → Reading → Bool
is_over deadline r =
    if ltb 0 deadline then (if (deadline - r.now) == 0 then true else r.elapsed) else false

-- One turn of the inner `loop`: how it ends the closure, or nothing where the loop goes on.
unfoldable pub turn_once : ℕ → Reading → Option Turn
unfolding is_over
turn_once deadline r =
    let changed : Option Turn = elim r.changed [
      | pending ↦ some waits
      | ready (ok _) ↦ none
      | ready (err _) ↦ some (fails forced_shutdown)
    ] in
    if is_over deadline r
    then some (fails deadline_reached)
    else if r.shutdown == 0
    then changed
    else none

-- the inner `loop`, with the deadline that it keeps
unfoldable pub wait_loop : ℕ → List Reading → ℕ × Turn
wait_loop deadline [] = (deadline, turning)
wait_loop deadline (r ∷ rs) = elim (turn_once (merge_deadline deadline r.shutdown) r) [
  | some t ↦ (merge_deadline deadline r.shutdown, t)
  | none ↦ wait_loop (merge_deadline deadline r.shutdown) rs
]

pub data Answer : Type 0 where
  answered : List ℕ → Answer
  failed : PollError → Answer
  unanswered : Answer

module _ {P W : Type 0} (is_ready poll : P → W → Bool × W) where
  -- the two `for` loops over `zip(0.., &pollables)`
  unfoldable pub ready_from : (P → W → Bool × W) → ℕ → List P → W → List ℕ × W
  ready_from check i [] w = ([], w)
  ready_from check i (p ∷ ps) w =
      let (b, w1) = check p w in
      let (rest, w2) = ready_from check (suc i) ps w1 in (if b then i ∷ rest else rest, w2)

  -- the closure of `poll_fn`, each time that it is woken
  unfoldable pub async_poll : ℕ → List P → List (List Reading) → W → Answer × W
  async_poll deadline ps [] w = (unanswered, w)
  async_poll deadline ps (readings ∷ wakes) w =
      let (found, w1) = ready_from poll 0 ps w in
      let (d, turn) = wait_loop deadline readings in
      elim found [
        | i ∷ is ↦ (answered (i ∷ is), w1)
        | [] ↦ elim turn [
          | waits ↦ async_poll d ps wakes w1
          | fails e ↦ (failed e, w1)
          | turning ↦ (unanswered, w1)
        ]
      ]

  unfoldable pub poll_host : ℕ → List P → List (List Reading) → W → Answer × W
  unfolding async_poll
  poll_host deadline [] wakes w = (failed empty_list, w)
  poll_host deadline (p ∷ ps) wakes w =
      let (found, w1) = ready_from is_ready 0 (p ∷ ps) w in
      let first : Answer × W = elim found [
        | i ∷ is ↦ (answered (i ∷ is), w1)
        | [] ↦ async_poll deadline (p ∷ ps) wakes w1
      ] in
      if ltb u32_max (length (p ∷ ps)) then (failed too_many, w) else first
