-- ===== src/Engine/Epoch.antt =====
-- `Engine::new_store` of crates/wasmlet/src/engine/mod.rs: the epoch deadline of a store and the callback
-- that extends it, in slices of at most 100 ticks of a millisecond. The receiver of the shutdown
-- deadline and the clock are read at each callback; what they say is its `Signal`.
pub mod Budgets
use wasmx.Base.{
  ℕ, ◌-◌, Bool, true, false, List, [], ◌∷◌, Option, none, some, Result, ok, err, leb, ltb,
  if◌then◌else◌,
}

pub data Signal : Type 0 where
  quiet : Signal
  requested : ℕ → ℕ → Signal
  dropped : Signal

pub data Expired : Type 0 where
  exhausted : Expired
  shutdown_exhausted : Expired
  forced : Expired

-- `budget.checked_sub(100)`: the next slice, and what is left.
unfoldable pub slice : ℕ → ℕ × ℕ
slice budget = if leb 100 budget then (100, budget - 100) else (budget, 0)

-- The deadline that is set at first, and the budget that is left.
unfoldable pub initial : Option ℕ → ℕ × Option ℕ
unfolding slice
initial none = (100, none)
initial (some budget) = let (n, left) = slice budget in (n, some left)

abbrev pub Grant : Type 0
Grant = Result (ℕ × Option ℕ) Expired

unfoldable pub charge : Option ℕ → Grant
unfolding initial
charge budget = elim budget [
  | none ↦ ok (initial none)
  | some b ↦ if ltb 0 b then ok (initial (some b)) else err exhausted
]

unfoldable pub drain : ℕ → ℕ → Grant
unfolding initial
drain deadline now =
    if ltb 0 (deadline - now) then ok (initial (some (deadline - now))) else err shutdown_exhausted

-- The callback: the budget is charged first, then the shutdown is looked at.
unfoldable pub callback : Option ℕ → Signal → Grant
unfolding charge drain
callback budget signal = elim (charge budget) [
  | err e ↦ err e
  | ok (n, left) ↦ elim signal [
    | requested deadline now ↦ drain deadline now
    | quiet ↦ ok (n, left)
    | dropped ↦ err forced
  ]
]
