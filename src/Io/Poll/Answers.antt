-- ===== src/Io/Poll/Answers.antt =====
-- What `poll` of io/poll.rs answers.
use wasmx.Base.{
  ℕ, suc, ◌+◌, ◌≤◌, ◌<◌, ◌≡◌, ◌≢◌, refl, ◌⊎◌, inl, inr, Bool, List, [], ◌∷◌, none, some, arith,
  Bool-cases, Option-cases, List-cases, length, ltb, u32_max,
}
use wasmx.Io.Poll.{
  Reading, PollError, deadline_reached, Turn, waits, fails, turning, merge_deadline, is_over,
  turn_once, wait_loop, Answer, answered, ready_from, async_poll, poll_host,
}

-- A shutdown was requested before each of the readings.
unfoldable pub AllRequested : List Reading → Type 0
AllRequested [] = Unit {0}
AllRequested (r ∷ rs) = (r.shutdown ≢ 0) × AllRequested rs

turn_once-requested :
    (d : ℕ) (r : Reading)
    → r.shutdown ≢ 0
    → (turn_once d r ≡ none) ⊎ (turn_once d r ≡ some (fails deadline_reached))
unfolding turn_once is_over
turn_once-requested d r h = ground arith

-- Once a shutdown is requested the loop never gives control back to wait for a pollable: it turns, until
-- the deadline fails the call.
pub wait_loop-requested :
    (deadline : ℕ) (rs : List Reading)
    → AllRequested rs
    → ((wait_loop deadline rs).1 ≡ turning) ⊎ ((wait_loop deadline rs).1 ≡ fails deadline_reached)
unfolding AllRequested wait_loop
wait_loop-requested deadline [] h = inl refl
wait_loop-requested deadline (r ∷ rs) h =
    let d = merge_deadline deadline r.shutdown in
    elim (turn_once-requested d r h.0) [
      | inl e ↦ rw (e, wait_loop) (wait_loop-requested d rs h.1)
      | inr e ↦ rw (e, wait_loop) (inr refl)
    ]

-- One of the readings was taken before `d`.
pub AnyBefore : ℕ → List Reading → Type 0
AnyBefore d [] = ⊥
AnyBefore d (r ∷ rs) = (r.now < d) ⊎ AnyBefore d rs

merge_deadline-le :
    (deadline shutdown : ℕ)
    → 0 < deadline
    → (0 < merge_deadline deadline shutdown) × (merge_deadline deadline shutdown ≤ deadline)
unfolding merge_deadline
merge_deadline-le deadline shutdown h = (ground arith, ground arith)

turn_once-waits : (d : ℕ) (r : Reading) → 0 < d → turn_once d r ≡ some waits → r.now < d
unfolding turn_once is_over
turn_once-waits d r h e = ground arith

-- What a loop may end with that was entered with a deadline.
Timely : ℕ → List Reading → ℕ × Turn → Type 0
Timely deadline rs (d, t) = (0 < d) × (d ≤ deadline) × (t ≡ waits → AnyBefore d rs)

Timely-later :
    (deadline d : ℕ) (r : Reading) (rs : List Reading) (x : ℕ × Turn)
    → d ≤ deadline
    → Timely d rs x
    → Timely deadline (r ∷ rs) x
unfolding Timely AnyBefore
Timely-later deadline d r rs (d', t) l (a, b, c) = (a, omega arith, λ q. inr (c q))

Timely-now :
    (deadline d : ℕ) (r : Reading) (rs : List Reading) (t : Turn)
    → 0 < d
    → d ≤ deadline
    → turn_once d r ≡ some t
    → Timely deadline (r ∷ rs) (d, t)
unfolding Timely AnyBefore
Timely-now deadline d r rs t h l e = (h, l, λ q. inl (turn_once-waits d r h (rw q at e)))

Timely-none : (deadline : ℕ) → 0 < deadline → Timely deadline [] (deadline, turning)
unfolding Timely
Timely-none deadline h = (h, omega arith, λ e. cc)

wait_loop-Timely :
    (deadline : ℕ) (rs : List Reading) → 0 < deadline → Timely deadline rs (wait_loop deadline rs)
unfolding wait_loop
wait_loop-Timely deadline [] h = Timely-none deadline h
wait_loop-Timely deadline (r ∷ rs) h =
    let d = merge_deadline deadline r.shutdown in
    let m = merge_deadline-le deadline r.shutdown h in
    elim (Option-cases (turn_once d r)) [
      | inl e ↦
          rw (e, wait_loop)
            (Timely-later deadline d r rs (wait_loop d rs) m.1 (wait_loop-Timely d rs m.0))
      | inr (t, e) ↦ rw (e, wait_loop) (Timely-now deadline d r rs t m.0 m.1 e)
    ]

-- The loop, entered with a deadline, keeps one that is no later; and it waits for a pollable only if the
-- clock stood before that.
pub wait_loop-deadline :
    (deadline : ℕ) (rs : List Reading)
    → 0 < deadline
    → let (d, t) = wait_loop deadline rs in (0 < d) × (d ≤ deadline) × (t ≡ waits → AnyBefore d rs)
unfolding Timely
wait_loop-deadline deadline rs h = wait_loop-Timely deadline rs h

Turn-cases : (t : Turn) → (t ≡ waits) ⊎ ((e : PollError) × (t ≡ fails e)) ⊎ (t ≡ turning)
Turn-cases waits = inl refl
Turn-cases (fails e) = inr (inl (e, refl))
Turn-cases turning = inr (inr refl)

module _ {P W : Type 0} (is_ready poll : P → W → Bool × W) where
  -- Positions of the list of pollables.
  abbrev pub AreBelow : ℕ → List ℕ → Type 0
  AreBelow n [] = Unit {0}
  AreBelow n (i ∷ is) = (i < n) × AreBelow n is

  ready_from-AreBelow :
      (n : ℕ) (check : P → W → Bool × W) (i : ℕ) (ps : List P) (w : W)
      → i + length ps ≤ n
      → AreBelow n (ready_from is_ready poll check i ps w).0
  unfolding ready_from
  ready_from-AreBelow n check i [] w h = tt
  ready_from-AreBelow n check i (p ∷ ps) w h =
      let (b, w1) = check p w in
      elim (Bool-cases b) [
        | inl e ↦
            rw (e, ready_from)
              (omega arith, ready_from-AreBelow n check (suc i) ps w1 (omega arith))
        | inr e ↦ rw (e, ready_from) (ready_from-AreBelow n check (suc i) ps w1 (omega arith))
      ]

  -- An answer names at least one pollable, and none that is not there.
  abbrev pub IsAnswer : ℕ → Answer → Type 0
  IsAnswer n (answered is) = (is ≢ []) × AreBelow n is
  IsAnswer n _ = Unit {0}

  async_poll-IsAnswer :
      (deadline : ℕ) (ps : List P) (wakes : List (List Reading)) (w : W)
      → IsAnswer (length ps) (async_poll is_ready poll deadline ps wakes w).0
  unfolding async_poll
  async_poll-IsAnswer deadline ps [] w = tt
  async_poll-IsAnswer deadline ps (readings ∷ wakes) w =
      let (found, w1) = ready_from is_ready poll poll 0 ps w in
      let (d, t) = wait_loop deadline readings in
      elim (List-cases found) [
        | inr (i, is, e) ↦
            rw (e, async_poll)
              ((λ q. cc), rw e at (ready_from-AreBelow (length ps) poll 0 ps w (omega arith)))
        | inl e ↦
            rw (e, async_poll)
              (elim (Turn-cases t) [
                | inl q ↦ rw (q, async_poll) (async_poll-IsAnswer d ps wakes w1)
                | inr (inl (x, q)) ↦ rw (q, async_poll) tt
                | inr (inr q) ↦ rw (q, async_poll) tt
              ])
      ]

  -- An answer of `poll` names at least one pollable, and only positions of the list that it was given, in both
  -- of its phases and however often it was woken.
  pub poll_host-IsAnswer :
      (deadline : ℕ) (ps : List P) (wakes : List (List Reading)) (w : W)
      → IsAnswer (length ps) (poll_host is_ready poll deadline ps wakes w).0
  unfolding poll_host
  poll_host-IsAnswer deadline [] wakes w = tt
  poll_host-IsAnswer deadline (p ∷ ps) wakes w =
      let (found, w1) = ready_from is_ready poll is_ready 0 (p ∷ ps) w in
      elim (Bool-cases (ltb u32_max (length (p ∷ ps)))) [
        | inl b ↦ rw b tt
        | inr b ↦ rw b (elim (List-cases found) [
          | inr (i, is, e) ↦
              rw (e, poll_host)
                (
                  (λ q. cc),
                  rw e at
                      (ready_from-AreBelow (length (p ∷ ps)) is_ready 0 (p ∷ ps) w (omega arith)),
                )
          | inl e ↦ rw (e, poll_host) (async_poll-IsAnswer deadline (p ∷ ps) wakes w1)
        ])
      ]
