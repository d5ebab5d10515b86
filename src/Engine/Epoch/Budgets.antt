-- ===== src/Engine/Epoch/Budgets.antt =====
-- What the epoch callback of `Engine::new_store` grants in all.
use wasmx.Base.{
  ℕ, zero, suc, ◌+◌, ◌-◌, ◌*◌, ◌≤◌, ◌<◌, ◌≡◌, ◌∙◌, ap, sym, List, [], ◌∷◌, Option, none, some, ok,
  err, arith, min, inl, inr, ◌⊎◌,
}
use wasmx.Engine.Epoch.{
  Signal, quiet, requested, dropped, Expired, exhausted, shutdown_exhausted, forced, slice, initial,
  Grant, charge, drain, callback,
}

-- The ticks of the callbacks before one fails, and that failure if there is one.
pub run : Option ℕ → List Signal → ℕ × Option Expired
unfolding callback
run budget [] = (0, none)
run budget (signal ∷ signals) = elim (callback budget signal) [
  | err e ↦ (0, some e)
  | ok (n, left) ↦ (let (total, e) = run left signals in (n + total, e))
]

-- A guest that runs until each deadline, from a first grant on.
pub run_from : ℕ × Option ℕ → List Signal → ℕ × Option Expired
unfolding run
run_from (n, left) signals = let (total, e) = run left signals in (n + total, e)

-- A store with its initial deadline.
pub run_store : Option ℕ → List Signal → ℕ × Option Expired
unfolding run_from
run_store budget signals = run_from (initial budget) signals

-- What the callback may answer that has seen `signal` with `budget` left. It fails when the budget is
-- spent, when a requested deadline has passed, or when the channel is dropped. Else it grants 100 ticks,
-- or all that is left where that is less: of the budget, from which they are taken off; or, with a shutdown
-- requested, of the way to its deadline, the rest of which is the new budget.
pub IsGrant : Option ℕ → Signal → Grant → Type 0
IsGrant budget signal (err exhausted) = budget ≡ some 0
IsGrant budget (requested deadline now) (err shutdown_exhausted) = deadline ≤ now
IsGrant budget quiet (err shutdown_exhausted) = ⊥
IsGrant budget dropped (err shutdown_exhausted) = ⊥
IsGrant budget dropped (err forced) = Unit {0}
IsGrant budget quiet (err forced) = ⊥
IsGrant budget (requested deadline now) (err forced) = ⊥
IsGrant budget dropped (ok g) = ⊥
IsGrant none quiet (ok (n, left)) = (n ≡ 100) × (left ≡ none)
IsGrant (some b) quiet (ok (n, left)) = (0 < b) × (n ≡ min 100 b) × (left ≡ some (b - n))
IsGrant budget (requested deadline now) (ok (n, left)) =
    (now < deadline) × (n ≡ min 100 (deadline - now)) × (left ≡ some (deadline - (now + n)))

-- For every budget and signal the callback answers as `IsGrant` says.
pub callback-IsGrant :
    (budget : Option ℕ) (signal : Signal) → IsGrant budget signal (callback budget signal)
unfolding IsGrant callback charge drain initial slice
callback-IsGrant none quiet = ground arith
callback-IsGrant none dropped = ground arith
callback-IsGrant none (requested deadline now) = ground arith
callback-IsGrant (some b) quiet = ground arith
callback-IsGrant (some b) dropped = ground arith
callback-IsGrant (some b) (requested deadline now) = ground arith

callback-quiet : (b : ℕ) → 0 < b → callback (some b) quiet ≡ ok (min 100 b, some (b - 100))
unfolding callback charge initial slice
callback-quiet b positive = ground arith

callback-exhausted : (b : ℕ) → b ≡ 0 → callback (some b) quiet ≡ err exhausted
unfolding callback charge initial slice
callback-exhausted b spent = ground arith

-- So many callbacks in a row that see no shutdown.
unfoldable pub quiet_for : ℕ → List Signal
quiet_for zero = []
quiet_for (suc polls) = quiet ∷ quiet_for polls

zero-or-positive : (b : ℕ) → (b ≡ 0) ⊎ (0 < b)
zero-or-positive b = ground arith

run-exhausted :
    (polls b : ℕ) → b + 100 ≤ polls * 100 → run (some b) (quiet_for polls) ≡ (b, some exhausted)
unfolding run quiet_for
run-exhausted zero b enough = ground arith
run-exhausted (suc polls) b enough = elim (zero-or-positive b) [
  | inl spent ↦ rw (callback-exhausted b spent, run) (ap (λ x. (x, some exhausted)) (sym spent))
  | inr positive ↦
      rw (callback-quiet b positive, run)
        (rw (run-exhausted polls (b - 100) (omega arith))
          (ap (λ x. (x, some exhausted)) (omega arith)))
]

initial-slice : (budget : ℕ) → initial (some budget) ≡ (min 100 budget, some (budget - 100))
unfolding initial slice
initial-slice budget = ground arith

-- A store with a budget whose guest runs on and sees no shutdown is granted ticks that add up to exactly
-- the budget, and then trapped, if there is at least one callback and the callbacks are enough for the
-- budget at 100 ticks each.
pub run_store-exhausted :
    (polls budget : ℕ)
    → budget ≤ polls * 100
    → 0 < polls
    → run_store (some budget) (quiet_for polls) ≡ (budget, some exhausted)
unfolding run_store run_from
run_store-exhausted polls budget enough some_poll =
    ap (λ g. run_from g (quiet_for polls)) (initial-slice budget)
    ∙ rw (run-exhausted polls (budget - 100) (omega arith))
        (ap (λ x. (x, some exhausted)) (omega arith))
