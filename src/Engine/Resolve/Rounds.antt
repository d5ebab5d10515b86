-- ===== src/Engine/Resolve/Rounds.antt =====
-- The rounds of `apply_manifest` in engine/mod.rs come to an end.
use wasmx.Base.{
  ℕ, zero, suc, ◌≤◌, ◌<◌, ◌≡◌, ◌≢◌, inl, inr, Bool, true, false, List, [], ◌∷◌, none, ok, err,
  arith, length, Bool-cases, Result-cases,
}
use wasmx.Engine.Resolve.{Wasmtime, Import, same}
use wasmx.Engine.Resolve.Passes.{
  State, Passed, collect, revisit, first_pass, first_visit, round, rounds, resolve_workloads,
}

-- `xs` is `ys` less some of its entries.
pub data IsSub : List ℕ → List ℕ → Type 0 where
  done : IsSub [] []
  keep : (x : ℕ) (xs ys : List ℕ) → IsSub xs ys → IsSub (x ∷ xs) (x ∷ ys)
  skip : (y : ℕ) (xs ys : List ℕ) → IsSub xs ys → IsSub xs (y ∷ ys)

IsSub-length : (xs ys : List ℕ) → IsSub xs ys → length xs ≤ length ys
IsSub-length _ _ done = omega arith
IsSub-length _ _ (keep x xs ys s) = omega (arith, IsSub-length xs ys s)
IsSub-length _ _ (skip y xs ys s) = omega (arith, IsSub-length xs ys s)

same-cons : (x : ℕ) (xs ys : List ℕ) → same (x ∷ xs) (x ∷ ys) ≡ same xs ys
unfolding same
same-cons x xs ys = ground arith

IsSub-shorter : (xs ys : List ℕ) → IsSub xs ys → same ys xs ≡ false → length xs < length ys
unfolding same
IsSub-shorter _ _ done e = cc
IsSub-shorter _ _ (keep x xs ys s) e =
    omega (arith, IsSub-shorter xs ys s (rw (same-cons x ys xs) at e))
IsSub-shorter _ _ (skip y xs ys s) e = omega (arith, IsSub-length xs ys s)

module _ (wt : Wasmtime) where
  abbrev Leaves : List ℕ → Passed wt → Type 0
  Leaves us (ok (s, next)) = IsSub next us
  Leaves us (err e) = Unit {0}

  collect-Leaves :
      (idx : ℕ) (waits : Bool) (us : List ℕ) (p : Passed wt)
      → Leaves us p
      → Leaves (idx ∷ us) (collect wt idx waits p)
  collect-Leaves idx true us (ok (s, next)) h = keep idx next us h
  collect-Leaves idx false us (ok (s, next)) h = skip idx next us h
  collect-Leaves idx true us (err e) h = tt
  collect-Leaves idx false us (err e) h = tt

  round-Leaves : (us : List ℕ) (s : State wt) → Leaves us (round wt us s)
  unfolding round
  round-Leaves [] s = done
  round-Leaves (idx ∷ us) s = elim (Result-cases (revisit wt idx s)) [
    | inl (t, e) ↦ rw (e, round) (collect-Leaves idx t.1 us (round wt us t.0) (round-Leaves us t.0))
    | inr (x, e) ↦ rw (e, round) tt
  ]

  -- With as many rounds as workloads wait, the rounds end.
  rounds-ne-none :
      (fuel : ℕ) (us : List ℕ) (s : State wt) → length us ≤ fuel → rounds wt fuel us s ≢ none
  unfolding rounds
  rounds-ne-none fuel [] s h = λ p. cc
  rounds-ne-none zero (u ∷ us) s h = absurd (omega arith)
  rounds-ne-none (suc fuel) (u ∷ us) s h = elim (Result-cases (round wt (u ∷ us) s)) [
    | inl (t, e) ↦
        rw (e, rounds)
          (elim (Bool-cases (same (u ∷ us) t.1)) [
            | inl d ↦ rw d (λ p. cc)
            | inr d ↦ rw d (
                rounds-ne-none fuel t.1 t.0
                  (omega (arith, IsSub-shorter t.1 (u ∷ us) (rw e at (round-Leaves (u ∷ us) s)) d)))
          ])
    | inr (x, e) ↦ rw (e, rounds) (λ p. cc)
  ]

  abbrev AtMost : ℕ → Passed wt → Type 0
  AtMost n (ok (s, next)) = length next ≤ n
  AtMost n (err e) = Unit {0}

  collect-AtMost :
      (idx : ℕ) (waits : Bool) (n : ℕ) (p : Passed wt)
      → AtMost n p
      → AtMost (suc n) (collect wt idx waits p)
  collect-AtMost idx true n (ok (s, next)) h = omega arith
  collect-AtMost idx false n (ok (s, next)) h = omega arith
  collect-AtMost idx true n (err e) h = tt
  collect-AtMost idx false n (err e) h = tt

  module _ (plugins : List (ℕ × wt.Plugin)) (names : List ℕ) where
    first_pass-AtMost :
        (idx : ℕ) (imports : List (List Import)) (s : State wt)
        → AtMost (length imports) (first_pass wt plugins names idx imports s)
    unfolding first_pass
    first_pass-AtMost idx [] s = omega arith
    first_pass-AtMost idx (is ∷ imports) s =
        elim (Result-cases (first_visit wt plugins names idx is s)) [
          | inl (t, e) ↦
              rw (e, first_pass)
                (collect-AtMost idx t.1 (length imports)
                  (first_pass wt plugins names (suc idx) imports t.0)
                  (first_pass-AtMost (suc idx) imports t.0))
          | inr (x, e) ↦ rw (e, first_pass) tt
        ]

    -- The resolution of workloads, each of which may import from any other, comes to an end within as many
    -- rounds as there are workloads: it succeeds or fails, whatever they import.
    pub resolve_workloads-ends :
        (fuel : ℕ) (imports : List (List Import)) (s : State wt)
        → length imports ≤ fuel
        → resolve_workloads wt fuel plugins names imports s ≢ none
    unfolding resolve_workloads
    resolve_workloads-ends fuel imports s h =
        elim (Result-cases (first_pass wt plugins names 0 imports s)) [
          | inl (t, e) ↦
              rw (e, resolve_workloads)
                (rounds-ne-none fuel t.1 t.0
                  (omega (arith, rw e at (first_pass-AtMost 0 imports s))))
          | inr (x, e) ↦ rw (e, resolve_workloads) (λ p. cc)
        ]
