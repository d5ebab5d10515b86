-- ===== src/Engine/Resolve/Visits.antt =====
-- What one visit of a workload in the passes of engine/mod.rs leaves.
use wasmx.Base.{
  ℕ, zero, suc, ◌<◌, ◌≡◌, ◌≢◌, refl, ◌∙◌, ◌⊎◌, inl, inr, Bool, true, false, List, [], ◌∷◌, Option,
  none, some, Result, ok, err, arith, ◌==◌, ◌||◌, Bool-cases,
}
use wasmx.Engine.Resolve.{
  Wasmtime, Failure, Import, get_elem?, put, taken, compiled, unresolved, resolved, Slots, Relinked,
  WorkloadPre, relink,
}
use wasmx.Engine.Resolve.Passes.{State, settle, revisit, first_visit, resolve_imports}

unfoldable pub contains : ℕ → List ℕ → Bool
contains i [] = false
contains i (x ∷ xs) = (i == x) || contains i xs

pub get-put-same {ℓ} :
    {A : Type ℓ} (i : ℕ) (a b : A) (xs : List A)
    → get_elem? i xs ≡ some b
    → get_elem? i (put i a xs) ≡ some a
unfolding get_elem? put
get-put-same i a b [] e = cc
get-put-same zero a b (x ∷ xs) e = refl
get-put-same (suc i) a b (x ∷ xs) e = get-put-same i a b xs e

pub get-put-other {ℓ} :
    {A : Type ℓ} (i j : ℕ) (a : A) (xs : List A) → i ≢ j → get_elem? i (put j a xs) ≡ get_elem? i xs
unfolding get_elem? put
get-put-other i j a [] h = refl
get-put-other zero zero a (x ∷ xs) h = absurd (h refl)
get-put-other zero (suc j) a (x ∷ xs) h = refl
get-put-other (suc i) zero a (x ∷ xs) h = refl
get-put-other (suc i) (suc j) a (x ∷ xs) h = get-put-other i j a xs (λ e. h (omega arith))

pub contains-head : (i : ℕ) (us : List ℕ) → contains i (i ∷ us) ≡ true
unfolding contains
contains-head i us = ground arith

pub contains-tail : (i j : ℕ) (us : List ℕ) → contains i us ≡ true → contains i (j ∷ us) ≡ true
unfolding contains
contains-tail i j us e = ground arith

pub contains-cases :
    (i j : ℕ) (us : List ℕ) → contains i (j ∷ us) ≡ true → (i ≡ j) ⊎ (contains i us ≡ true)
unfolding contains
contains-cases i j us e = ground arith

pub equal_or_not : (i j : ℕ) → (i ≡ j) ⊎ (i ≢ j)
equal_or_not i j = ground arith

module _ (wt : Wasmtime) where
  -- Workload `i` is resolved.
  abbrev pub IsResolved : ℕ → Slots wt → Type 0
  IsResolved i slots = (c : wt.Component) × (get_elem? i slots ≡ some (resolved c))

  -- Every workload before `n` is resolved or waits in one of two lists.
  unfoldable pub Settled : ℕ → List ℕ → List ℕ → Slots wt → Type 0
  Settled n us extra slots =
      (i : ℕ) → i < n → IsResolved i slots ⊎ (contains i us ≡ true) ⊎ (contains i extra ≡ true)

  -- A visit has put a workload back at `idx`, resolved unless it waits.
  unfoldable pub Visited : ℕ → Slots wt → Result (State wt × Bool) Failure → Type 0
  Visited idx slots (err e) = Unit {0}
  Visited idx slots (ok (s, waits)) =
      ((i : ℕ) → i ≢ idx → get_elem? i s.0 ≡ get_elem? i slots)
      × (waits ≡ false → IsResolved idx s.0)

  settle-Visited :
      (idx : ℕ) (c : wt.Component) (r : Relinked wt) (p : WorkloadPre wt) (slots : Slots wt)
      (w : wt.World)
      → get_elem? idx slots ≡ some p
      → Visited idx slots (settle wt idx c r (put idx taken slots, w))
  unfolding settle Visited
  settle-Visited idx c (err e) p slots w g = tt
  settle-Visited idx c (ok (l, i ∷ is)) p slots w g = (
    (λ j h.
        get-put-other j idx (unresolved (record { component = c; linker = l }) (i ∷ is))
          (put idx taken slots) h
        ∙ get-put-other j idx taken slots h),
    (λ e. cc),
  )
  settle-Visited idx c (ok (l, [])) p slots w g = elim (Bool-cases (wt.instantiate idx c l w).0) [
    | inl d ↦
        rw (d, settle)
          (
            (λ j h.
                get-put-other j idx (resolved c) (put idx taken slots) h
                ∙ get-put-other j idx taken slots h),
            (λ e. (
              c,
              get-put-same idx (resolved c) taken (put idx taken slots)
                  (get-put-same idx taken p slots g),
            )),
          )
    | inr d ↦ rw (d, settle) tt
  ]

  pub revisit-Visited : (idx : ℕ) (s : State wt) → Visited idx s.0 (revisit wt idx s)
  unfolding revisit Visited
  revisit-Visited idx s = go (get_elem? idx s.0) refl
    where
      go :
          (o : Option (WorkloadPre wt)) → get_elem? idx s.0 ≡ o → Visited idx s.0 (revisit wt idx s)
      go none e = rw (e, revisit) tt
      go (some taken) e = rw (e, revisit) tt
      go (some (compiled c)) e = rw (e, revisit) tt
      go (some (resolved c)) e = rw (e, revisit) tt
      go (some (unresolved c imports)) e =
          rw (e, revisit)
            (settle-Visited idx c.component (relink wt (put idx taken s.0) imports c.linker)
              (unresolved c imports) s.0 s.1 e)

  pub first_visit-Visited :
      (plugins : List (ℕ × wt.Plugin)) (names : List ℕ) (idx : ℕ) (imports : List Import)
      (s : State wt)
      → Visited idx s.0 (first_visit wt plugins names idx imports s)
  unfolding first_visit Visited
  first_visit-Visited plugins names idx imports s = go (get_elem? idx s.0) refl
    where
      go :
          (o : Option (WorkloadPre wt))
          → get_elem? idx s.0 ≡ o
          → Visited idx s.0 (first_visit wt plugins names idx imports s)
      go none e = rw (e, first_visit) tt
      go (some taken) e = rw (e, first_visit) tt
      go (some (unresolved c is)) e = rw (e, first_visit) tt
      go (some (resolved c)) e = rw (e, first_visit) tt
      go (some (compiled c)) e =
          rw (e, first_visit)
            (settle-Visited idx c.component
              (resolve_imports wt plugins names (put idx taken s.0) c.component imports c.linker)
              (compiled c) s.0 s.1 e)

  -- A workload that is neither first in the list nor just visited stays where it was.
  kept :
      (idx i : ℕ) (us extra : List ℕ) (before after : Slots wt)
      → i ≢ idx
      → get_elem? i after ≡ get_elem? i before
      → IsResolved i before ⊎ (contains i (idx ∷ us) ≡ true) ⊎ (contains i extra ≡ true)
      → IsResolved i after ⊎ (contains i us ≡ true) ⊎ (contains i extra ≡ true)
  unfolding contains
  kept idx i us extra before after h e (inl (c, r)) = inl (c, e ∙ r)
  kept idx i us extra before after h e (inr (inl m)) = inr (inl (ground arith))
  kept idx i us extra before after h e (inr (inr m)) = inr (inr m)

  -- After a visit, the workload visited waits in the other list, or is resolved.
  pub visit-Settled :
      (n idx : ℕ) (us extra : List ℕ) (slots : Slots wt) (s : State wt) (waits : Bool)
      → Settled n (idx ∷ us) extra slots
      → Visited idx slots (ok (s, waits))
      → ((waits ≡ true) → Settled n us (idx ∷ extra) s.0)
        × ((waits ≡ false) → Settled n us extra s.0)
  unfolding Settled Visited
  visit-Settled n idx us extra slots s waits h v = (
    (λ e i l. elim (equal_or_not i idx) [
      | inl q ↦ inr (inr (rw q (contains-head idx extra)))
      | inr q ↦ wider i (kept idx i us extra slots s.0 q (v.0 i q) (h i l))
    ]),
    (λ e i l. elim (equal_or_not i idx) [
      | inl q ↦ inl (rw q (v.1 e))
      | inr q ↦ kept idx i us extra slots s.0 q (v.0 i q) (h i l)
    ]),
  )
    where
      wider :
          (i : ℕ)
          → IsResolved i s.0 ⊎ (contains i us ≡ true) ⊎ (contains i extra ≡ true)
          → IsResolved i s.0 ⊎ (contains i us ≡ true) ⊎ (contains i (idx ∷ extra) ≡ true)
      wider i (inl r) = inl r
      wider i (inr (inl m)) = inr (inl m)
      wider i (inr (inr m)) = inr (inr (contains-tail i idx extra m))
