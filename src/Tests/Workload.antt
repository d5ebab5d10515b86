-- ===== src/Tests/Workload.antt =====
-- The values of a call between workloads, over stores that count the entries of their tables.
use wasmx.Base.{ℕ, ◌+◌, ◌≡◌, refl, true, none, some, ok}
use wasmx.Engine.Workload.{
  pollable, Wasmtime, Val, Vals, bool, u32, list, fields, option, resource, nil, cons, end, field,
  nothing, lower, lift, blank, Target, handle_workload_import, convert_vals, lower_resource,
  lift_resource, first_kind, lower_kind, move_host, lift_results,
}
use wasmx.Engine.Workload.Shapes.{lower-lift, shapes}
use wasmx.Engine.Workload.Call.{overlay, handle_workload_import-shapes}

-- Every resource is a pollable that is owned.
abbrev wt : Wasmtime
wt = record {
  Any = ℕ;
  Store = ℕ;
  Entry = ℕ;
  try_into_resource = λ k any s. (elim k [ pollable ↦ some (any, true) | _ ↦ none ], s);
  delete = λ k rep s. (ok rep, s);
  push = λ k entry s. (ok (entry + s), s + 1);
  get = λ k rep s. ok rep;
  try_into_resource_any = λ k rep s. (ok rep, s);
  entry_of = λ any. any;
  any_of = λ entry. entry;
}

abbrev plain : Val ℕ
plain = list (cons (option nothing) (cons (fields (field "a" (u32 3) end)) nil))

lower-lift_example :
    (lower wt plain (1, 2) ≡ (ok plain, (1, 2))) × (lift wt plain (1, 2) ≡ (ok plain, (1, 2)))
lower-lift_example = lower-lift wt plain (1, 2) (tt, ((tt, tt), tt))

-- The target gives its parameters back.
abbrev echo : Target wt
echo = record { accept = ok 10; invoke = λ idx s ps buf. ok (s, ps) }

abbrev params : Vals ℕ
params = cons (resource 4) (cons plain nil)

abbrev places : Vals ℕ
places = cons (bool true) (cons (bool true) (cons (bool true) nil))

abbrev results : Vals ℕ
results = cons (resource 16) (cons plain (cons (bool true) nil))

called : (handle_workload_import wt echo 0 params places 2).0 ≡ ok results
unfolding handle_workload_import convert_vals lower_resource lift_resource first_kind lower_kind
    move_host lift_results lift
called = refl

handle_workload_import-shapes_example :
    (t : ℕ) × (t' : ℕ) × (ps : Vals ℕ) × (out : Vals ℕ) × (echo.invoke 0 t ps (blank wt places)
      ≡ ok (t', out))
    × (shapes ps ≡ shapes params)
    × (shapes results ≡ overlay (shapes out) (shapes places))
handle_workload_import-shapes_example =
    handle_workload_import-shapes wt echo 0 params places results 2 called
