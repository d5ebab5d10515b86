-- ===== src/Engine/Workload.antt =====
-- crates/wasmlet/src/engine/workload/value.rs, and `handle_workload_import` of engine/mod.rs: the values of a call
-- between two workloads, each of which has a store with a resource table.

pub mod Shapes
pub mod Call
use Prim.Native.String.{String}
use wasmx.Base.{
  ℕ, Bool, true, false, List, [], ◌∷◌, ◌++◌, Option, none, some, Result, ok, err, ⊤, if◌then◌else◌,
}

-- The types of resources that are tried, in the order of the code. `guest` is `ResourceAny`.
pub data Kind : Type 0 where
  pollable input_stream output_stream tcp_socket guest : Kind

pub data Failure : Type 0 where
  -- an error of wasmtime, and the `bail!("TODO")` on a resource that is borrowed
  wasmtime : ℕ → Failure
  borrowed : Failure
  -- the `context`s and the `ensure!` of `handle_workload_import`
  not_sent not_accepted receiver_dropped no_result not_invoked : Failure

-- What is called of wasmtime. A store holds its resource table, and what a table holds is an `Entry`.
pub record Wasmtime : Type 1 where
  pub Any : Type 0
  pub Store : Type 0
  pub Entry : Type 0
  -- `try_into_resource`: the representation and `owned`, where it is of the type
  pub try_into_resource : Kind → Any → Store → Option (ℕ × Bool) × Store
  -- `ResourceTable::delete`, `push` and `get`
  pub delete : Kind → ℕ → Store → Result Entry Failure × Store
  pub push : Kind → Entry → Store → Result ℕ Failure × Store
  pub get : Kind → ℕ → Store → Result Entry Failure
  pub try_into_resource_any : Kind → ℕ → Store → Result Any Failure × Store
  -- the entries of `guest`, which are `ResourceAny`s
  pub entry_of : Any → Entry
  pub any_of : Entry → Any

-- `wasmtime::component::Val`, with floats and integers as bits. A list of values, of fields and an optional value have
-- types of their own. `R` is `ResourceAny`.
mutual
  pub data Val (R : Type 0) : Type 0 where
    bool : Bool → Val R
    s8 u8 s16 u16 s32 u32 s64 u64 float32 float64 char : ℕ → Val R
    string enum : String → Val R
    list tuple : Vals R → Val R
    fields : Fields R → Val R
    variant : String → Maybe R → Val R
    option result_ok result_err : Maybe R → Val R
    flags : List String → Val R
    resource : R → Val R

  pub data Vals (R : Type 0) : Type 0 where
    nil : Vals R
    cons : Val R → Vals R → Vals R

  pub data Fields (R : Type 0) : Type 0 where
    end : Fields R
    field : String → Val R → Fields R → Fields R

  pub data Maybe (R : Type 0) : Type 0 where
    nothing : Maybe R
    just : Val R → Maybe R

module _ (wt : Wasmtime) where
  open wt use {Any, Store, Entry}

  -- The store of the caller and that of the target, around a call that may fail.
  abbrev pub Stores : Type 0
  Stores = Store × Store

  abbrev pub M : Type 0 → Type 0
  M A = Stores → Result A Failure × Stores

  abbrev pub step :
      {A B : Type 0} → Result A Failure × Stores → (A → M B) → Result B Failure × Stores
  step (ok a, s) k = k a s
  step (err e, s) k = (err e, s)

  unfoldable mutual
    -- The `match` that `lower` and `lift` share, over what they do with a resource.
    pub convert : (Any → M Any) → Val Any → M (Val Any)
    convert f (resource any) s = step (f any s) (λ a t. (ok (resource a), t))
    convert f (list vs) s = step (convert_vals f vs s) (λ us t. (ok (list us), t))
    convert f (tuple vs) s = step (convert_vals f vs s) (λ us t. (ok (tuple us), t))
    convert f (fields vs) s = step (convert_fields f vs s) (λ us t. (ok (fields us), t))
    convert f (variant k v) s = step (convert_maybe f v s) (λ u t. (ok (variant k u), t))
    convert f (option v) s = step (convert_maybe f v s) (λ u t. (ok (option u), t))
    convert f (result_ok v) s = step (convert_maybe f v s) (λ u t. (ok (result_ok u), t))
    convert f (result_err v) s = step (convert_maybe f v s) (λ u t. (ok (result_err u), t))
    convert f v s = (ok v, s)

    pub convert_vals : (Any → M Any) → Vals Any → M (Vals Any)
    convert_vals f nil s = (ok nil, s)
    convert_vals f (cons v vs) s =
        step (convert f v s) (λ u t. step (convert_vals f vs t) (λ us r. (ok (cons u us), r)))

    pub convert_fields : (Any → M Any) → Fields Any → M (Fields Any)
    convert_fields f end s = (ok end, s)
    convert_fields f (field name v vs) s =
        step (convert f v s)
          (λ u t. step (convert_fields f vs t) (λ us r. (ok (field name u us), r)))

    pub convert_maybe : (Any → M Any) → Maybe Any → M (Maybe Any)
    convert_maybe f nothing s = (ok nothing, s)
    convert_maybe f (just v) s = step (convert f v s) (λ u t. (ok (just u), t))

  -- The chain of `else if`s over `try_into_resource`: the first type that fits.
  unfoldable pub first_kind : List Kind → Any → Store → Option (Kind × ℕ × Bool) × Store
  first_kind [] any s = (none, s)
  first_kind (k ∷ ks) any s =
      let (r, s') = wt.try_into_resource k any s in
      let rest = first_kind ks any s' in
      elim r [ some (rep, owned) ↦ (some (k, rep, owned), s') | none ↦ rest ]

  -- A resource of the host leaves one table for the other, if it is owned.
  unfoldable pub move_host : Kind → ℕ → Bool → Store → Store → Result Any Failure × Stores
  move_host k rep true from to =
      let (r, from') = wt.delete k rep from in
      elim r [
        | err e ↦ (err e, (from', to))
        | ok entry ↦
            (let (n, to') = wt.push k entry to in
              elim n [
                | err e ↦ (err e, (from', to'))
                | ok rep' ↦
                    (let (any, to'') = wt.try_into_resource_any k rep' to' in (any, (from', to'')))
              ])
      ]
  move_host k rep false from to =
      (elim (wt.get k rep from) [ err e ↦ err e | ok entry ↦ err borrowed ], (from, to))

  unfoldable pub lower_guest : ℕ → Bool → M Any
  lower_guest rep true (s, t) =
      let (r, s') = wt.delete guest rep s in
      (elim r [ err e ↦ err e | ok entry ↦ ok (wt.any_of entry) ], (s', t))
  lower_guest rep false (s, t) =
      (elim (wt.get guest rep s) [ err e ↦ err e | ok entry ↦ ok (wt.any_of entry) ], (s, t))

  abbrev pub host_kinds : List Kind
  host_kinds = pollable ∷ input_stream ∷ output_stream ∷ tcp_socket ∷ []

  unfoldable pub lower_kind : Kind → ℕ → Bool → M Any
  unfolding lower_guest move_host
  lower_kind guest rep owned s = lower_guest rep owned s
  lower_kind k rep owned (s, t) = move_host k rep owned s t

  -- The arm of a resource in `lower`: the caller's table is looked into, and the target's is given to.
  unfoldable pub lower_resource : Any → M Any
  unfolding first_kind lower_kind
  lower_resource any (s, t) =
      let (k, s') = first_kind (host_kinds ++ (guest ∷ [])) any s in
      elim k [ none ↦ (ok any, (s', t)) | some (k, rep, owned) ↦ lower_kind k rep owned (s', t) ]

  -- The arm in `lift`, the other way round. What is of no type of the host becomes an entry of the caller's table.
  unfoldable pub lift_resource : Any → M Any
  unfolding first_kind move_host
  lift_resource any (s, t) =
      let (k, t') = first_kind host_kinds any t in
      elim k [
        | some (k, rep, true) ↦ (let (r, (t'', s')) = move_host k rep true t' s in (r, (s', t'')))
        | some (k, rep, false) ↦ move_host k rep false s t'
        | none ↦
            (let (n, s') = wt.push guest (wt.entry_of any) s in
              elim n [
                | err e ↦ (err e, (s', t'))
                | ok rep ↦ (let (r, s'') = wt.try_into_resource_any guest rep s' in (r, (s'', t')))
              ])
      ]

  unfoldable pub lower : Val Any → M (Val Any)
  unfolding convert lower_resource
  lower v = convert lower_resource v

  unfoldable pub lift : Val Any → M (Val Any)
  unfolding convert lift_resource
  lift v = convert lift_resource v

  -- The loop over the results: each result of the target is lifted into the place of one of the caller.
  unfoldable pub lift_results : Vals Any → Vals Any → M (Vals Any)
  unfolding lift
  lift_results (cons v vs) (cons o os) s =
      step (lift v s) (λ u t. step (lift_results vs os t) (λ us r. (ok (cons u us), r)))
  lift_results vs os s = (ok os, s)

  -- `vec![Val::Bool(false); results.len()]`
  unfoldable pub blank : Vals Any → Vals Any
  blank nil = nil
  blank (cons v vs) = cons (bool false) (blank vs)

  -- The workload behind the channels: it accepts an invocation with a store of its own, and runs a function, which gives
  -- back the store and the results.
  pub record Target : Type 0 where
    pub accept : Result Store Failure
    pub invoke : ℕ → Store → Vals Any → Vals Any → Result (Store × Vals Any) Failure

  unfoldable pub handle_workload_import :
      Target → ℕ → Vals Any → Vals Any → Store → Result (Vals Any) Failure × Store
  unfolding convert_vals lower_resource lift_results blank
  handle_workload_import target idx params results s = elim target.accept [
    | err e ↦ (err e, s)
    | ok t ↦
        (let (ps, (s', t')) = convert_vals lower_resource params (s, t) in
          elim ps [
            | err e ↦ (err e, s')
            | ok ps ↦ elim (target.invoke idx t' ps (blank results)) [
              | err e ↦ (err e, s')
              | ok (t'', out) ↦
                  (let (rs, (s'', u)) = lift_results out results (s', t'') in (rs, s''))
            ]
          ])
  ]
