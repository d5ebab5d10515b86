-- ===== src/Engine/Resolve.antt =====
-- crates/wasmlet/src/engine/mod.rs: the imports of workloads and the order of their instantiation,
-- `resolve_workload_import`, `resolve_imports` and the passes over the workloads in `apply_manifest`.
-- A name is a number; it is only compared.
pub mod Passes
pub mod Rounds
pub mod Visits
pub mod Success
pub mod Covered
pub mod Order
pub mod Waiting
use wasmx.Base.{
  ℕ, zero, suc, Bool, true, false, List, [], ◌∷◌, Option, none, some, Result, ok, err, ◌==◌, ◌&&◌,
  if◌then◌else◌,
}

-- The `bail!`, `ensure!` and `context` of these functions; `panicked` is an index out of range.
pub data Failure : Type 0 where
  target_not_found plugin_not_found cycle corrupted_list link_failed : Failure
  export_not_found not_an_instance not_a_function not_a_resource : Failure
  instantiation_failed panicked : Failure

-- `types::ComponentItem`, for the exports of an instance; a resource is one of the host's or not.
pub data Item : Type 0 where
  component_func other : Item
  resource : Bool → Item

-- The export of a component under the name of an instance.
pub data Exported (I : Type 0) : Type 0 where
  instance_type : I → Exported I
  other_type : Exported I

-- What is called of wasmtime, and of the plugins. `World` holds the threads and channels.
pub record Wasmtime : Type 1 where
  pub Component : Type 0
  pub Instance : Type 0
  pub Linker : Type 0
  pub Plugin : Type 0
  pub World : Type 0
  pub get_import : Component → ℕ → Option Instance
  pub exports : Instance → List (ℕ × Item)
  pub get_export : Component → ℕ → Option (Exported Instance)
  -- `export_index` of the instance, and of a function in it
  pub has_instance : Component → ℕ → Bool
  pub has_func : Component → ℕ → ℕ → Bool
  -- `Linker::instance`, `link_workload_import` and `resource` for a name in an instance
  pub open_instance : ℕ → Linker → Option Linker
  pub link_func : ℕ → ℕ → ℕ → Linker → Option Linker
  pub link_resource : ℕ → ℕ → Linker → Option Linker
  pub add_plugin : Plugin → ℕ → Instance → Linker → Option Linker
  -- `instantiate_workload`, by the index of the workload
  pub instantiate : ℕ → Component → Linker → World → Bool × World

-- The value under a name, and the place of a name, in a list.
unfoldable pub lookup {ℓ} : {A : Type ℓ} → ℕ → List (ℕ × A) → Option A
lookup name [] = none
lookup name ((key, a) ∷ rest) = if name == key then some a else lookup name rest

unfoldable pub position : ℕ → List ℕ → Option ℕ
position name [] = none
position name (key ∷ keys) =
    if name == key
    then some 0
    else elim (position name keys) [ none ↦ none | some i ↦ some (suc i) ]

-- `workload_pres[idx]`, read and assigned
unfoldable pub get_elem? {ℓ} : {A : Type ℓ} → ℕ → List A → Option A
get_elem? i [] = none
get_elem? zero (x ∷ xs) = some x
get_elem? (suc i) (x ∷ xs) = get_elem? i xs

unfoldable pub put {ℓ} : {A : Type ℓ} → ℕ → A → List A → List A
put i a [] = []
put zero a (x ∷ xs) = a ∷ xs
put (suc i) a (x ∷ xs) = x ∷ put i a xs

-- `unresolved != unresolved_next`, negated
unfoldable pub same : List ℕ → List ℕ → Bool
same [] [] = true
same (x ∷ xs) (y ∷ ys) = (x == y) && same xs ys
same _ _ = false

-- `config::component::{ImportKind, Import}`, with the name that it is configured under
pub data ImportKind : Type 0 where
  workload plugin : ImportKind

pub record Import : Type 0 where
  pub instance_name : ℕ
  pub kind : ImportKind
  pub target : ℕ

module _ (wt : Wasmtime) where
  open wt use {Component, Instance, Linker, Plugin, World}

  pub record UnresolvedImport : Type 0 where
    pub name : ℕ
    pub ty : Instance
    pub target : ℕ
    pub target_idx : ℕ

  pub record CompiledWorkload : Type 0 where
    pub component : Component
    pub linker : Linker

  pub data WorkloadPre : Type 0 where
    taken : WorkloadPre
    compiled : CompiledWorkload → WorkloadPre
    unresolved : CompiledWorkload → List UnresolvedImport → WorkloadPre
    resolved : Component → WorkloadPre

  abbrev pub Linked : Type 0
  Linked = Result Linker Failure

  abbrev pub linked : Option Linker → Linked
  linked (some l) = ok l
  linked none = err link_failed

  -- an export of the imported instance, against the target's instance of the same name
  unfoldable pub link_item : Component → Instance → ℕ → ℕ → ℕ × Item → Linker → Linked
  link_item component target_ty target instance_name (name, component_func) l =
      elim (lookup name (wt.exports target_ty)) [
        | none ↦ err export_not_found
        | some component_func ↦
            if wt.has_func component instance_name name
            then linked (wt.link_func target instance_name name l)
            else err export_not_found
        | some _ ↦ err not_a_function
      ]
  link_item component target_ty target instance_name (name, resource host) l =
      elim (lookup name (wt.exports target_ty)) [
        | none ↦ err export_not_found
        | some (resource true) ↦ ok l
        | some (resource false) ↦ linked (wt.link_resource instance_name name l)
        | some _ ↦ err not_a_resource
      ]
  link_item component target_ty target instance_name (name, other) l = ok l

  unfoldable pub link_items : Component → Instance → ℕ → ℕ → List (ℕ × Item) → Linker → Linked
  link_items component target_ty target instance_name [] l = ok l
  link_items component target_ty target instance_name (item ∷ items) l =
      elim (link_item component target_ty target instance_name item l) [
        | ok l' ↦ link_items component target_ty target instance_name items l'
        | err e ↦ err e
      ]

  unfoldable pub resolve_workload_import : Linker → ℕ → Instance → ℕ → Component → Linked
  resolve_workload_import l instance_name import_ty target component =
      elim (wt.open_instance instance_name l) [
        | none ↦ err link_failed
        | some l' ↦ elim (wt.get_export component instance_name) [
          | none ↦ err export_not_found
          | some other_type ↦ err not_an_instance
          | some (instance_type target_ty) ↦
              if wt.has_instance component instance_name
              then link_items component target_ty target instance_name (wt.exports import_ty) l'
              else err export_not_found
        ]
      ]

  -- A link to a workload, or nothing where that has to wait.
  abbrev pub Link : Type 0
  Link = Result (Option Linker) Failure

  abbrev pub now : Linked → Link
  now (ok l) = ok (some l)
  now (err e) = err e

  -- the `match &workload_pres[target_idx]`
  unfoldable pub link_target : Option WorkloadPre → UnresolvedImport → Linker → Link
  link_target (some (resolved component)) i l =
      now (resolve_workload_import l i.name i.ty i.target component)
  link_target (some (compiled w)) i l = ok none
  link_target (some (unresolved w imports)) i l = ok none
  link_target (some taken) i l = err cycle
  link_target none i l = err panicked

  abbrev pub Slots : Type 0
  Slots = List WorkloadPre

  abbrev pub Relinked : Type 0
  Relinked = Result (Linker × List UnresolvedImport) Failure

  abbrev pub postpone : UnresolvedImport → Relinked → Relinked
  postpone i (ok (l, rest)) = ok (l, i ∷ rest)
  postpone i (err e) = err e

  -- the `for` over the unresolved imports of a workload
  unfoldable pub relink : Slots → List UnresolvedImport → Linker → Relinked
  relink slots [] l = ok (l, [])
  relink slots (i ∷ is) l = elim (link_target (get_elem? i.target_idx slots) i l) [
    | ok (some l') ↦ relink slots is l'
    | ok none ↦ postpone i (relink slots is l)
    | err e ↦ err e
  ]
