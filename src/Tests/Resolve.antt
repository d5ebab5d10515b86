-- ===== src/Tests/Resolve.antt =====
-- Two workloads of engine/mod.rs, named 10 and 11, the first of which imports instance 5 from the
-- second, over a linker that counts what is linked and a world that counts what is instantiated.
use wasmx.Base.{ℕ, suc, ◌≡◌, ◌≢◌, refl, true, false, List, [], ◌∷◌, some, none, ok, arith}
use wasmx.Engine.Resolve.{
  Wasmtime, component_func, instance_type, Import, ImportKind, lookup, position, get_elem?, put,
  same, UnresolvedImport, compiled, unresolved, resolved, link_item, link_items,
  resolve_workload_import, link_target, relink,
}
use wasmx.Engine.Resolve.Passes.{
  State, resolve_imports, settle, first_visit, revisit, first_pass, round, rounds,
  resolve_workloads,
}
use wasmx.Engine.Resolve.Rounds.{resolve_workloads-ends}
use wasmx.Engine.Resolve.Visits.{IsResolved}
use wasmx.Engine.Resolve.Success.{resolve_workloads-IsResolved}
use wasmx.Engine.Resolve.Covered.{AreResolved}
use wasmx.Engine.Resolve.Waiting.{no_visit, Visits-AreResolved}

abbrev counting : Wasmtime
counting = record {
  Component = ℕ;
  Instance = ℕ;
  Linker = ℕ;
  Plugin = ℕ;
  World = ℕ;
  get_import = λ c name. some 0;
  exports = λ i. (1, component_func) ∷ [];
  get_export = λ c name. some (instance_type 0);
  has_instance = λ c name. true;
  has_func = λ c name func. true;
  open_instance = λ name l. some l;
  link_func = λ target name func l. some (suc l);
  link_resource = λ name resource l. some l;
  add_plugin = λ p name i l. some l;
  instantiate = λ idx c l w. (true, suc w);
}

abbrev imports : List (List Import)
imports = (record { instance_name = 5; kind = ImportKind.workload; target = 11 } ∷ []) ∷ [] ∷ []

abbrev names : List ℕ
names = 10 ∷ 11 ∷ []

abbrev start : State counting
start = (
  compiled (record { component = 0; linker = 0 })
      ∷ compiled (record { component = 1; linker = 0 })
      ∷ [],
  0,
)

abbrev after : State counting
after = (resolved 0 ∷ resolved 1 ∷ [], 2)

abbrev waiting : UnresolvedImport counting
waiting = record { name = 5; ty = 0; target = 11; target_idx = 1 }

-- after the first pass
abbrev between : State counting
between = (unresolved (record { component = 0; linker = 0 }) (waiting ∷ []) ∷ resolved 1 ∷ [], 1)

resolve_workloads-start : resolve_workloads counting 2 [] names imports start ≡ some (ok after)
unfolding resolve_workloads first_pass first_visit settle resolve_imports position lookup get_elem?
    put link_target rounds round revisit relink resolve_workload_import link_items link_item same
resolve_workloads-start = refl

revisit-between : revisit counting 0 between ≡ ok (after, false)
unfolding revisit settle relink get_elem? put link_target resolve_workload_import link_items
    link_item lookup
revisit-between = refl

resolve_workloads-ends_example : resolve_workloads counting 2 [] names imports start ≢ none
resolve_workloads-ends_example =
    resolve_workloads-ends counting [] names 2 imports start (omega arith)

resolve_workloads-IsResolved_example : IsResolved counting 0 (resolved 0 ∷ resolved 1 ∷ [])
resolve_workloads-IsResolved_example =
    resolve_workloads-IsResolved counting [] names 2 imports start after 0 resolve_workloads-start
      (omega arith)

-- The workload that imports from the other waits until that is resolved.
Visits-AreResolved_example : AreResolved counting (waiting ∷ []) between.0
unfolding get_elem?
Visits-AreResolved_example =
    Visits-AreResolved counting 0 (record { component = 0; linker = 0 }) (waiting ∷ []) between
      between after refl (no_visit between) revisit-between
