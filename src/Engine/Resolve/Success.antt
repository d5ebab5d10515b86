-- ===== src/Engine/Resolve/Success.antt =====
-- What the resolution of workloads in engine/mod.rs leaves when it succeeds.
use wasmx.Base.{
  ℕ, zero, suc, ◌+◌, ◌<◌, ◌≡◌, refl, ◌⊎◌, inl, inr, Bool, true, false, List, [], ◌∷◌, Option, some,
  Result, ok, err, arith, length, Bool-cases, Result-cases,
}
use wasmx.Engine.Resolve.{Wasmtime, Failure, Import, same, Slots}
use wasmx.Engine.Resolve.Passes.{
  State, Passed, collect, revisit, first_pass, first_visit, round, rounds, resolve_workloads,
}
use wasmx.Engine.Resolve.Visits.{
  contains, contains-head, contains-tail, contains-cases, equal_or_not, IsResolved, Settled,
  revisit-Visited, first_visit-Visited, visit-Settled,
}

module _ (wt : Wasmtime) where
  -- a round, from its visits
  Settles : ℕ → List ℕ → Passed wt → Type 0
  Settles n extra (ok (s, next)) = Settled wt n next extra s.0
  Settles n extra (err e) = Unit {0}

  collect-Settles :
      (n idx : ℕ) (waits : Bool) (extra : List ℕ) (p : Passed wt)
      → ((waits ≡ true) → Settles n (idx ∷ extra) p)
      → ((waits ≡ false) → Settles n extra p)
      → Settles n extra (collect wt idx waits p)
  unfolding Settles Settled
  collect-Settles n idx true extra (ok (s, next)) a b = λ i l. moved i (a refl i l)
    where
      moved :
          (i : ℕ)
          → IsResolved wt i s.0 ⊎ (contains i next ≡ true) ⊎ (contains i (idx ∷ extra) ≡ true)
          → IsResolved wt i s.0 ⊎ (contains i (idx ∷ next) ≡ true) ⊎ (contains i extra ≡ true)
      moved i (inl r) = inl r
      moved i (inr (inl m)) = inr (inl (contains-tail i idx next m))
      moved i (inr (inr m)) = elim (contains-cases i idx extra m) [
        | inl q ↦ inr (inl (rw q (contains-head idx next)))
        | inr q ↦ inr (inr q)
      ]
  collect-Settles n idx false extra (ok (s, next)) a b = b refl
  collect-Settles n idx true extra (err e) a b = tt
  collect-Settles n idx false extra (err e) a b = tt

  round-Settles :
      (n : ℕ) (us extra : List ℕ) (s : State wt)
      → Settled wt n us extra s.0
      → Settles n extra (round wt us s)
  unfolding round Settles
  round-Settles n [] extra s h = h
  round-Settles n (idx ∷ us) extra s h = elim (Result-cases (revisit wt idx s)) [
    | inl (t, e) ↦
        (let v =
            visit-Settled wt n idx us extra s.0 t.0 t.1 h (rw e at (revisit-Visited wt idx s)) in
          rw (e, round)
            (collect-Settles n idx t.1 extra (round wt us t.0)
              (λ q. round-Settles n us (idx ∷ extra) t.0 (v.0 q))
              (λ q. round-Settles n us extra t.0 (v.1 q))))
    | inr (x, e) ↦ rw (e, round) tt
  ]

  -- The end of the rounds, at which nothing waits.
  Ends : ℕ → Option (Result (State wt) Failure) → Type 0
  Ends n (some (ok s)) = (i : ℕ) → i < n → IsResolved wt i s.0
  Ends n _ = Unit {0}

  none_waits :
      (i : ℕ) (s : State wt)
      → IsResolved wt i s.0 ⊎ (contains i [] ≡ true) ⊎ (contains i [] ≡ true)
      → IsResolved wt i s.0
  unfolding contains
  none_waits i s (inl r) = r
  none_waits i s (inr (inl m)) = cc
  none_waits i s (inr (inr m)) = cc

  -- The first pass comes to one more workload.
  one_more :
      (idx : ℕ) (extra : List ℕ) (slots : Slots wt)
      → Settled wt idx [] extra slots
      → Settled wt (suc idx) (idx ∷ []) extra slots
  unfolding Settled contains
  one_more idx extra slots h = λ i l. elim (equal_or_not i idx) [
    | inl q ↦ inr (inl (rw q (contains-head idx [])))
    | inr q ↦ elim (h i (omega arith)) [
      | inl r ↦ inl r
      | inr (inl m) ↦ cc
      | inr (inr m) ↦ inr (inr m)
    ]
  ]

  rounds-Ends :
      (n fuel : ℕ) (us : List ℕ) (s : State wt)
      → Settled wt n us [] s.0
      → Ends n (rounds wt fuel us s)
  unfolding rounds Ends Settled Settles
  rounds-Ends n fuel [] s h = λ i l. none_waits i s (h i l)
  rounds-Ends n zero (u ∷ us) s h = tt
  rounds-Ends n (suc fuel) (u ∷ us) s h = elim (Result-cases (round wt (u ∷ us) s)) [
    | inl (t, e) ↦
        rw (e, rounds)
          (elim (Bool-cases (same (u ∷ us) t.1)) [
            | inl d ↦ rw d tt
            | inr d ↦ rw d (rounds-Ends n fuel t.1 t.0 (rw e at (round-Settles n (u ∷ us) [] s h)))
          ])
    | inr (x, e) ↦ rw (e, rounds) tt
  ]

  module _ (plugins : List (ℕ × wt.Plugin)) (names : List ℕ) where
    first_pass-Settles :
        (idx : ℕ) (imports : List (List Import)) (extra : List ℕ) (s : State wt)
        → Settled wt idx [] extra s.0
        → Settles (idx + length imports) extra (first_pass wt plugins names idx imports s)
    unfolding first_pass Settles Settled
    first_pass-Settles idx [] extra s h = λ i l. h i (omega arith)
    first_pass-Settles idx (is ∷ imports) extra s h =
        elim (Result-cases (first_visit wt plugins names idx is s)) [
          | inl (t, e) ↦
              (let v =
                  visit-Settled wt (suc idx) idx [] extra s.0 t.0 t.1 (one_more idx extra s.0 h)
                    (rw e at (first_visit-Visited wt plugins names idx is s)) in
                let bound : idx + suc (length imports) ≡ suc idx + length imports = omega arith in
                rw (e, first_pass, bound)
                  (collect-Settles (suc idx + length imports) idx t.1 extra
                    (first_pass wt plugins names (suc idx) imports t.0)
                    (λ q. first_pass-Settles (suc idx) imports (idx ∷ extra) t.0 (v.0 q))
                    (λ q. first_pass-Settles (suc idx) imports extra t.0 (v.1 q))))
          | inr (x, e) ↦ rw (e, first_pass) tt
        ]

    resolve_workloads-Ends :
        (fuel : ℕ) (imports : List (List Import)) (s : State wt)
        → Ends (length imports) (resolve_workloads wt fuel plugins names imports s)
    unfolding resolve_workloads Ends Settles Settled
    resolve_workloads-Ends fuel imports s =
        elim (Result-cases (first_pass wt plugins names 0 imports s)) [
          | inl (t, e) ↦
              rw (e, resolve_workloads)
                (rounds-Ends (length imports) fuel t.1 t.0 (λ i l.
                  (rw e at (first_pass-Settles 0 imports [] s (λ j m. absurd (omega arith)))) i
                    (omega arith)))
          | inr (x, e) ↦ rw (e, resolve_workloads) tt
        ]

    -- When the resolution of workloads succeeds, in whatever number of rounds, every workload is resolved.
    pub resolve_workloads-IsResolved :
        (fuel : ℕ) (imports : List (List Import)) (s s' : State wt) (i : ℕ)
        → resolve_workloads wt fuel plugins names imports s ≡ some (ok s')
        → i < length imports
        → IsResolved wt i s'.0
    unfolding resolve_workloads Ends
    resolve_workloads-IsResolved fuel imports s s' i e l =
        (rw e at (resolve_workloads-Ends fuel imports s)) i l
