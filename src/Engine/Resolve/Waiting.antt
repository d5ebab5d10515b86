-- ===== src/Engine/Resolve/Waiting.antt =====
-- The order in which the rounds of `apply_manifest` in engine/mod.rs instantiate workloads.
use wasmx.Base.{
  ℕ, ◌≡◌, refl, sym, ◌∙◌, ◌⊎◌, inl, inr, Bool, true, false, List, [], ◌∷◌, some, ok, err,
  Result-cases,
}
use wasmx.Engine.Resolve.{
  Wasmtime, corrupted_list, get_elem?, UnresolvedImport, CompiledWorkload, unresolved, Slots,
}
use wasmx.Engine.Resolve.Passes.{State, Passed, collect, revisit, round}
use wasmx.Engine.Resolve.Visits.{IsResolved, Visited, revisit-Visited, equal_or_not}
use wasmx.Engine.Resolve.Covered.{AreResolved, Covered, Covered-refl, Covered-none, Covered-trans}
use wasmx.Engine.Resolve.Order.{Brings, revisit-Brings}

module _ (wt : Wasmtime) where
  -- Visits one after the other, of whatever workloads, none of which fails.
  pub data Visits : State wt → State wt → Type 0 where
    no_visit : (s : State wt) → Visits s s
    visit :
        (s t u : State wt) (idx : ℕ) (waits : Bool)
        → Visits s t
        → revisit wt idx t ≡ ok (u, waits)
        → Visits s u

  Visits-append : (s t u : State wt) → Visits s t → Visits t u → Visits s u
  Visits-append s _ _ v (no_visit t) = v
  Visits-append s _ _ v (visit t x y idx waits k e) =
      visit s x y idx waits (Visits-append s t x v k) e

  pub Reaches : State wt → Passed wt → Type 0
  Reaches s (ok (t, next)) = Visits s t
  Reaches s (err e) = Unit {0}

  collect-Reaches :
      (s t : State wt) (idx : ℕ) (waits : Bool) (p : Passed wt)
      → Visits s t
      → Reaches t p
      → Reaches s (collect wt idx waits p)
  unfolding Reaches
  collect-Reaches s t idx true (ok (u, next)) v h = Visits-append s t u v h
  collect-Reaches s t idx false (ok (u, next)) v h = Visits-append s t u v h
  collect-Reaches s t idx true (err e) v h = tt
  collect-Reaches s t idx false (err e) v h = tt

  -- A round is such visits.
  pub round-Reaches : (us : List ℕ) (s : State wt) → Reaches s (round wt us s)
  unfolding round Reaches
  round-Reaches [] s = no_visit s
  round-Reaches (idx ∷ us) s = elim (Result-cases (revisit wt idx s)) [
    | inl ((t, waits), e) ↦
        rw (e, round)
          (collect-Reaches s t idx waits (round wt us t) (visit s s t idx waits (no_visit s) e)
            (round-Reaches us t))
    | inr (x, e) ↦ rw (e, round) tt
  ]

  -- A workload that is resolved is not visited again.
  revisit-resolved :
      (idx : ℕ) (s : State wt) → IsResolved wt idx s.0 → revisit wt idx s ≡ err corrupted_list
  unfolding revisit
  revisit-resolved idx s (c, e) = rw (e, revisit) refl

  revisit-keeps :
      (idx i : ℕ) (s t : State wt) (waits : Bool)
      → revisit wt idx s ≡ ok (t, waits)
      → IsResolved wt i s.0
      → IsResolved wt i t.0
  unfolding Visited
  revisit-keeps idx i s t waits e (c, r) = elim (equal_or_not i idx) [
    | inl q ↦ (let g = revisit-resolved idx s (c, rw q at r) in cc)
    | inr q ↦ (c, (rw e at (revisit-Visited wt idx s)).0 i q ∙ r)
  ]

  -- Workload `idx`, which at first waited for the imports, waits for some that cover them, or is resolved.
  abbrev Pending : ℕ → List (UnresolvedImport wt) → Slots wt → Type 0
  Pending idx is slots =
      ((c : CompiledWorkload wt) × (rest : List (UnresolvedImport wt)) × (get_elem? idx slots
          ≡ some (unresolved c rest))
        × Covered wt is rest slots)
      ⊎ IsResolved wt idx slots

  brought :
      (idx : ℕ) (is rest : List (UnresolvedImport wt)) (s t : State wt) (waits : Bool)
      → ((i : ℕ) → IsResolved wt i s.0 → IsResolved wt i t.0)
      → Covered wt is rest s.0
      → Brings wt idx s.0 rest (ok (t, waits))
      → Pending idx is t.0
  unfolding Brings
  brought idx is rest s t true k h (c, left, e, g) =
      inl (c, left, e, later is left (Covered-trans wt is rest left s.0 s.0 (λ i r. r) h g))
    where
      later :
          (is left : List (UnresolvedImport wt)) → Covered wt is left s.0 → Covered wt is left t.0
      later is left g = Covered-trans wt is left left s.0 t.0 k g (Covered-refl wt left t.0)
  brought idx is rest s t false k h (r, g) = inr r

  visit-Pending :
      (idx j : ℕ) (is : List (UnresolvedImport wt)) (s t : State wt) (waits : Bool)
      → revisit wt j s ≡ ok (t, waits)
      → Pending idx is s.0
      → Pending idx is t.0
  unfolding Visited
  visit-Pending idx j is s t waits e (inr r) = inr (revisit-keeps j idx s t waits e r)
  visit-Pending idx j is s t waits e (inl (c, rest, g, h)) = elim (equal_or_not idx j) [
    | inl q ↦
        brought idx is rest s t waits (λ i r. revisit-keeps j i s t waits e r) h
          (rw (sym q) at (rw e at (revisit-Brings wt j s c rest (rw q at g))))
    | inr q ↦ inl (
      c,
      rest,
      (rw e at (revisit-Visited wt j s)).0 idx q ∙ g,
      Covered-trans wt is rest rest s.0 t.0 (λ i r. revisit-keeps j i s t waits e r) h
          (Covered-refl wt rest t.0),
    )
  ]

  Visits-Pending :
      (idx : ℕ) (c : CompiledWorkload wt) (is : List (UnresolvedImport wt)) (s t : State wt)
      → get_elem? idx s.0 ≡ some (unresolved c is)
      → Visits s t
      → Pending idx is t.0
  Visits-Pending idx c is _ _ g (no_visit s) = inl (c, is, g, Covered-refl wt is s.0)
  Visits-Pending idx c is _ _ g (visit s t u j waits v e) =
      visit-Pending idx j is t u waits e (Visits-Pending idx c is s t g v)

  instantiated :
      (idx : ℕ) (is : List (UnresolvedImport wt)) (t u : State wt)
      → revisit wt idx t ≡ ok (u, false)
      → Pending idx is t.0
      → AreResolved wt is t.0
  unfolding Brings AreResolved Covered
  instantiated idx is t u e (inr r) = (let g = revisit-resolved idx t r in cc)
  instantiated idx is t u e (inl (c, rest, g, h)) =
      let b = rw e at (revisit-Brings wt idx t c rest g) in
      Covered-none wt is t.0 (Covered-trans wt is rest [] t.0 t.0 (λ i r. r) h (all rest b.1))
    where
      all : (xs : List (UnresolvedImport wt)) → AreResolved wt xs t.0 → Covered wt xs [] t.0
      all [] a = tt
      all (x ∷ xs) a = (inl a.0, all xs a.1)

  -- A workload that waits for imports, and is instantiated by a visit after any number of others, of itself and of other
  -- workloads, is so only when the targets of all those imports are resolved before that visit.
  pub Visits-AreResolved :
      (idx : ℕ) (c : CompiledWorkload wt) (is : List (UnresolvedImport wt)) (s t u : State wt)
      → get_elem? idx s.0 ≡ some (unresolved c is)
      → Visits s t
      → revisit wt idx t ≡ ok (u, false)
      → AreResolved wt is t.0
  Visits-AreResolved idx c is s t u g v e =
      instantiated idx is t u e (Visits-Pending idx c is s t g v)
