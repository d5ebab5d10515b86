-- ===== src/Engine/Resolve/Passes.antt =====
-- `resolve_imports` of engine/mod.rs, and the two passes of `apply_manifest` that instantiate the
-- workloads: each once in the order of their names, then those that have to wait, in rounds.
use wasmx.Base.{
  ℕ, zero, suc, Bool, true, false, List, [], ◌∷◌, Option, none, some, Result, ok, err,
  if◌then◌else◌,
}
use wasmx.Engine.Resolve.{
  Wasmtime, Failure, target_not_found, plugin_not_found, cycle, corrupted_list, link_failed,
  instantiation_failed, panicked, Import, ImportKind, lookup, position, get_elem?, put, same,
  UnresolvedImport, taken, compiled, unresolved, resolved, link_target, linked, Slots, Relinked,
  postpone, relink,
}

module _ (wt : Wasmtime) where
  open wt use {Component, Linker, Plugin, World}

  -- what does not change over the passes: the plugins and the names of the workloads
  module _ (plugins : List (ℕ × Plugin)) (names : List ℕ) where
    unfoldable pub resolve_imports : Slots wt → Component → List Import → Linker → Relinked wt
    resolve_imports slots component [] l = ok (l, [])
    resolve_imports slots component (c ∷ cs) l = elim (wt.get_import component c.instance_name) [
      | none ↦ resolve_imports slots component cs l
      | some ty ↦ elim c.kind [
        | ImportKind.workload ↦ elim (position c.target names) [
          | none ↦ err target_not_found
          | some idx ↦
              (let i : UnresolvedImport wt = record {
                name = c.instance_name;
                ty = ty;
                target = c.target;
                target_idx = idx;
              } in
                elim (link_target wt (get_elem? idx slots) i l) [
                  | ok (some l') ↦ resolve_imports slots component cs l'
                  | ok none ↦ postpone wt i (resolve_imports slots component cs l)
                  | err e ↦ err e
                ])
        ]
        | ImportKind.plugin ↦ elim (lookup c.target plugins) [
          | none ↦ err plugin_not_found
          | some p ↦ elim (wt.open_instance c.instance_name l) [
            | none ↦ err link_failed
            | some l1 ↦ elim (linked wt (wt.add_plugin p c.instance_name ty l1)) [
              | ok l2 ↦ resolve_imports slots component cs l2
              | err e ↦ err e
            ]
          ]
        ]
      ]
    ]

  abbrev pub State : Type 0
  State = Slots wt × World

  -- The end of a visit of workload `idx`, whose place is taken: it waits, or it is instantiated.
  unfoldable pub settle : ℕ → Component → Relinked wt → State → Result (State × Bool) Failure
  settle idx component (err e) s = err e
  settle idx component (ok (l, i ∷ is)) (slots, w) = ok (
    (put idx (unresolved (record { component = component; linker = l }) (i ∷ is)) slots, w),
    true,
  )
  settle idx component (ok (l, [])) (slots, w) =
      let (done, w') = wt.instantiate idx component l w in
      if done
      then ok ((put idx (resolved component) slots, w'), false)
      else err instantiation_failed

  -- the body of the `for` in the first pass, and of that in a round
  unfoldable pub first_visit :
      List (ℕ × Plugin) → List ℕ → ℕ → List Import → State → Result (State × Bool) Failure
  unfolding settle
  first_visit plugins names idx imports (slots, w) = elim (get_elem? idx slots) [
    | some (compiled c) ↦
        (let slots' = put idx taken slots in
          settle idx c.component (resolve_imports plugins names slots' c.component imports c.linker)
            (slots', w))
    | some _ ↦ err corrupted_list
    | none ↦ err panicked
  ]

  unfoldable pub revisit : ℕ → State → Result (State × Bool) Failure
  unfolding settle
  revisit idx (slots, w) = elim (get_elem? idx slots) [
    | some (unresolved c imports) ↦
        (let slots' = put idx taken slots in
          settle idx c.component (relink wt slots' imports c.linker) (slots', w))
    | some _ ↦ err corrupted_list
    | none ↦ err panicked
  ]

  -- A state, and the workloads that have to wait.
  abbrev pub Passed : Type 0
  Passed = Result (State × List ℕ) Failure

  abbrev pub collect : ℕ → Bool → Passed → Passed
  collect idx true (ok (s, next)) = ok (s, idx ∷ next)
  collect idx false (ok (s, next)) = ok (s, next)
  collect idx b (err e) = err e

  unfoldable pub first_pass : List (ℕ × Plugin) → List ℕ → ℕ → List (List Import) → State → Passed
  first_pass plugins names idx [] s = ok (s, [])
  first_pass plugins names idx (imports ∷ rest) s = elim (first_visit plugins names idx imports s) [
    | ok (s', waits) ↦ collect idx waits (first_pass plugins names (suc idx) rest s')
    | err e ↦ err e
  ]

  unfoldable pub round : List ℕ → State → Passed
  round [] s = ok (s, [])
  round (idx ∷ rest) s = elim (revisit idx s) [
    | ok (s', waits) ↦ collect idx waits (round rest s')
    | err e ↦ err e
  ]

  -- the `while`: rounds as long as workloads wait and each round brings one on
  unfoldable pub rounds : ℕ → List ℕ → State → Option (Result State Failure)
  rounds fuel [] s = some (ok s)
  rounds zero (u ∷ us) s = none
  rounds (suc fuel) (u ∷ us) s = elim (round (u ∷ us) s) [
    | ok (s', next) ↦
        (let rest = rounds fuel next s' in if same (u ∷ us) next then some (err cycle) else rest)
    | err e ↦ some (err e)
  ]

  unfoldable pub resolve_workloads :
      ℕ → List (ℕ × Plugin) → List ℕ → List (List Import) → State → Option (Result State Failure)
  resolve_workloads fuel plugins names imports s = elim (first_pass plugins names 0 imports s) [
    | ok (s', next) ↦ rounds fuel next s'
    | err e ↦ some (err e)
  ]
