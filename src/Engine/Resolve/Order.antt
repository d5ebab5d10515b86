-- ===== src/Engine/Resolve/Order.antt =====
-- What a visit in a round of `apply_manifest` in engine/mod.rs does with the imports that a workload waits for.
use wasmx.Base.{
  ℕ, ◌≡◌, ◌≢◌, refl, sym, ◌∙◌, ◌⊎◌, inl, inr, Bool, true, false, List, [], ◌∷◌, Option, none, some,
  Result, ok, err, arith, Bool-cases,
}
use wasmx.Engine.Resolve.{
  Wasmtime, Failure, get_elem?, put, UnresolvedImport, CompiledWorkload, WorkloadPre, taken,
  compiled, unresolved, resolved, Slots, Relinked, Link, Linked, now, link_target, relink, postpone,
  resolve_workload_import,
}
use wasmx.Engine.Resolve.Passes.{State, settle, revisit}
use wasmx.Engine.Resolve.Covered.{Among, AreResolved, Covered, Covered-more, Covered-none}
use wasmx.Engine.Resolve.Visits.{IsResolved, get-put-same, get-put-other}

module _ (wt : Wasmtime) where
  Targets : Slots wt → UnresolvedImport wt → Link wt → Type 0
  Targets slots i (ok (some l)) = IsResolved wt i.target_idx slots
  Targets slots i _ = Unit {0}

  now-Targets :
      (slots : Slots wt) (i : UnresolvedImport wt) (r : Linked wt)
      → IsResolved wt i.target_idx slots
      → Targets slots i (now wt r)
  unfolding Targets
  now-Targets slots i (ok l) h = h
  now-Targets slots i (err e) h = tt

  link_target-Targets :
      (slots : Slots wt) (i : UnresolvedImport wt) (l : wt.Linker)
      → Targets slots i (link_target wt (get_elem? i.target_idx slots) i l)
  unfolding Targets link_target
  link_target-Targets slots i l = go (get_elem? i.target_idx slots) refl
    where
      go :
          (o : Option (WorkloadPre wt))
          → get_elem? i.target_idx slots ≡ o
          → Targets slots i (link_target wt o i l)
      go none e = tt
      go (some taken) e = tt
      go (some (compiled c)) e = tt
      go (some (unresolved c is)) e = tt
      go (some (resolved c)) e =
          now-Targets slots i (resolve_workload_import wt l i.name i.ty i.target c) (c, e)

  -- What the links leave behind covers all imports.
  Covers : Slots wt → List (UnresolvedImport wt) → Relinked wt → Type 0
  Covers slots is (ok (l, rest)) = Covered wt is rest slots
  Covers slots is (err e) = Unit {0}

  postpone-Covers :
      (slots : Slots wt) (i : UnresolvedImport wt) (is : List (UnresolvedImport wt))
      (r : Relinked wt)
      → Covers slots is r
      → Covers slots (i ∷ is) (postpone wt i r)
  unfolding Covers Covered Among
  postpone-Covers slots i is (ok (l, rest)) h = (inr (inl refl), Covered-more wt is rest i slots h)
  postpone-Covers slots i is (err e) h = tt

  more-Covers :
      (slots : Slots wt) (i : UnresolvedImport wt) (is : List (UnresolvedImport wt))
      (r : Relinked wt)
      → IsResolved wt i.target_idx slots
      → Covers slots is r
      → Covers slots (i ∷ is) r
  unfolding Covers Covered
  more-Covers slots i is (ok (l, rest)) h k = (inl h, k)
  more-Covers slots i is (err e) h k = tt

  link-cases :
      (r : Link wt)
      → ((l : wt.Linker) × (r ≡ ok (some l))) ⊎ (r ≡ ok none) ⊎ ((e : Failure) × (r ≡ err e))
  link-cases (ok (some l)) = inl (l, refl)
  link-cases (ok none) = inr (inl refl)
  link-cases (err e) = inr (inr (e, refl))

  relink-Covers :
      (slots : Slots wt) (is : List (UnresolvedImport wt)) (l : wt.Linker)
      → Covers slots is (relink wt slots is l)
  unfolding relink Covers Targets Covered
  relink-Covers slots [] l = tt
  relink-Covers slots (i ∷ is) l =
      elim (link-cases (link_target wt (get_elem? i.target_idx slots) i l)) [
        | inl (l', e) ↦
            rw (e, relink)
              (more-Covers slots i is (relink wt slots is l')
                (rw e at (link_target-Targets slots i l)) (relink-Covers slots is l'))
        | inr (inl e) ↦
            rw (e, relink)
              (postpone-Covers slots i is (relink wt slots is l) (relink-Covers slots is l))
        | inr (inr (x, e)) ↦ rw (e, relink) tt
      ]

  -- a workload whose place is taken is none of the resolved ones
  taken-IsResolved :
      (idx i : ℕ) (p : WorkloadPre wt) (slots : Slots wt)
      → get_elem? idx slots ≡ some p
      → IsResolved wt i (put idx taken slots)
      → IsResolved wt i slots
  taken-IsResolved idx i p slots g (c, r) = elim (equal_or_not i idx) [
    | inl q ↦ absurd (taken-ne (sym (get-put-same idx taken p slots g) ∙ rw q at r))
    | inr q ↦ (c, sym (get-put-other i idx taken slots q) ∙ r)
  ]
    where
      equal_or_not : (i j : ℕ) → (i ≡ j) ⊎ (i ≢ j)
      equal_or_not i j = ground arith

      taken-ne : ¬ (◌≡◌ {A = Option (WorkloadPre wt)} (some taken) (some (resolved c)))
      taken-ne e = cc

  all_taken :
      (idx : ℕ) (p : WorkloadPre wt) (is rest : List (UnresolvedImport wt)) (slots : Slots wt)
      → get_elem? idx slots ≡ some p
      → Covered wt is rest (put idx taken slots)
      → Covered wt is rest slots
  unfolding Covered
  all_taken idx p [] rest slots g h = tt
  all_taken idx p (i ∷ is) rest slots g (inl r, h) =
      (inl (taken-IsResolved idx i.target_idx p slots g r), all_taken idx p is rest slots g h)
  all_taken idx p (i ∷ is) rest slots g (inr m, h) = (inr m, all_taken idx p is rest slots g h)

  -- What a visit leaves of a workload that waited for the imports: the workload waits for those that are left, which
  -- cover them, or it is resolved and the target of every import was resolved before.
  unfoldable pub Brings :
      ℕ → Slots wt → List (UnresolvedImport wt) → Result (State wt × Bool) Failure → Type 0
  Brings idx slots is (ok (s, true)) =
      (c : CompiledWorkload wt) × (rest : List (UnresolvedImport wt)) × (get_elem? idx s.0
        ≡ some (unresolved c rest))
      × Covered wt is rest slots
  Brings idx slots is (ok (s, false)) = IsResolved wt idx s.0 × AreResolved wt is slots
  Brings idx slots is (err e) = Unit {0}

  settle-Brings :
      (idx : ℕ) (c : wt.Component) (p : WorkloadPre wt) (is : List (UnresolvedImport wt))
      (slots : Slots wt) (w : wt.World) (r : Relinked wt)
      → get_elem? idx slots ≡ some p
      → Covers (put idx taken slots) is r
      → Brings idx slots is (settle wt idx c r (put idx taken slots, w))
  unfolding settle Covers Brings
  settle-Brings idx c p is slots w (err e) g h = tt
  settle-Brings idx c p is slots w (ok (l, i ∷ js)) g h = (
    record { component = c; linker = l },
    i ∷ js,
    get-put-same idx (unresolved (record { component = c; linker = l }) (i ∷ js)) taken
        (put idx taken slots) (get-put-same idx taken p slots g),
    all_taken idx p is (i ∷ js) slots g h,
  )
  settle-Brings idx c p is slots w (ok (l, [])) g h =
      elim (Bool-cases (wt.instantiate idx c l w).0) [
        | inl d ↦
            rw (d, settle)
              (
                (
                  c,
                  get-put-same idx (resolved c) taken (put idx taken slots)
                      (get-put-same idx taken p slots g),
                ),
                Covered-none wt is slots (all_taken idx p is [] slots g h),
              )
        | inr d ↦ rw (d, settle) tt
      ]

  pub revisit-Brings :
      (idx : ℕ) (s : State wt) (c : CompiledWorkload wt) (is : List (UnresolvedImport wt))
      → get_elem? idx s.0 ≡ some (unresolved c is)
      → Brings idx s.0 is (revisit wt idx s)
  unfolding revisit
  revisit-Brings idx s c is e =
      rw (e, revisit)
        (settle-Brings idx c.component (unresolved c is) is s.0 s.1
          (relink wt (put idx taken s.0) is c.linker) e
          (relink-Covers (put idx taken s.0) is c.linker))
