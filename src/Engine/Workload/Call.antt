-- ===== src/Engine/Workload/Call.antt =====
-- What a call between workloads brings to the target and back: `handle_workload_import` of engine/mod.rs.
use wasmx.Base.{ℕ, ◌≡◌, refl, subst, Result, ok, err, ⊤, inl, inr, Result-cases}
use wasmx.Engine.Workload.{
  Wasmtime, Failure, Vals, nil, cons, Stores, convert, convert_vals, lower_resource, lift_resource,
  lift, lift_results, blank, Target, handle_workload_import,
}
use wasmx.Engine.Workload.Shapes.{shape, shapes, Holds, step-Holds, convert-shape, vals-shape}

-- The results of a call over the places that the caller has for them.
unfoldable pub overlay : Vals ⊤ → Vals ⊤ → Vals ⊤
overlay (cons v vs) (cons o os) = cons v (overlay vs os)
overlay vs os = os

module _ (wt : Wasmtime) where
  open wt use {Any, Store}

  lift_results-shape :
      (vs os : Vals Any) (s : Stores wt)
      → Holds wt (λ us. shapes us ≡ overlay (shapes vs) (shapes os)) (lift_results wt vs os s)
  unfolding lift_results shape Holds overlay lift
  lift_results-shape nil nil s = refl
  lift_results-shape nil (cons o os) s = refl
  lift_results-shape (cons v vs) nil s = refl
  lift_results-shape (cons v vs) (cons o os) s =
      step-Holds wt (λ u. shape u ≡ shape v)
        (λ us. shapes us ≡ overlay (shapes (cons v vs)) (shapes (cons o os)))
        (convert wt (lift_resource wt) v s) _ (convert-shape wt (lift_resource wt) v s)
        (λ u t e.
          step-Holds wt (λ us. shapes us ≡ overlay (shapes vs) (shapes os))
            (λ us. shapes us ≡ overlay (shapes (cons v vs)) (shapes (cons o os)))
            (lift_results wt vs os t) _ (lift_results-shape vs os t) (λ us r q. cc))

  ok-injective : {A E : Type 0} {a b : A} → ◌≡◌ {A = Result A E} (ok a) (ok b) → a ≡ b
  ok-injective e = cc e

  Holds-ok :
      {A : Type 0} (P : A → Type 0) (r : Result A Failure × Stores wt) (a : A)
      → Holds wt P r
      → r.0 ≡ ok a
      → P a
  unfolding Holds
  Holds-ok P (ok b, s) a h e = subst P (ok-injective e) h
  Holds-ok P (err x, s) a h e = absurd (cc e)

  -- When a call of another workload succeeds, the function of the target was called with parameters of the shape that the
  -- caller gave, and the caller gets as many results as it has places for, each of the shape that the target gave
  -- where it gave one.
  pub handle_workload_import-shapes :
      (target : Target wt) (idx : ℕ) (params results rs : Vals Any) (s : Store)
      → (handle_workload_import wt target idx params results s).0 ≡ ok rs
      → (t : Store) × (t' : Store) × (ps : Vals Any) × (out : Vals Any) × (target.invoke idx t ps
            (blank wt results)
          ≡ ok (t', out))
        × (shapes ps ≡ shapes params)
        × (shapes rs ≡ overlay (shapes out) (shapes results))
  unfolding handle_workload_import
  handle_workload_import-shapes target idx params results rs s e =
      elim (Result-cases target.accept) [
        | inr (x, a) ↦ absurd (cc (rw (a, handle_workload_import) at e))
        | inl (t, a) ↦
            (let r = convert_vals wt (lower_resource wt) params (s, t) in
              elim (Result-cases r.0) [
                | inr (x, b) ↦ absurd (cc (rw (a, handle_workload_import, b) at e))
                | inl (ps, b) ↦
                    elim (Result-cases (target.invoke idx r.1.1 ps (blank wt results))) [
                      | inr (x, c) ↦ absurd (cc (rw (a, handle_workload_import, b, c) at e))
                      | inl ((t', out), c) ↦ (
                        r.1.1,
                        t',
                        ps,
                        out,
                        c,
                        Holds-ok (λ us. shapes us ≡ shapes params) r ps
                            (vals-shape wt (lower_resource wt) params (s, t)) b,
                        Holds-ok (λ us. shapes us ≡ overlay (shapes out) (shapes results))
                            (lift_results wt out results (r.1.0, t')) rs
                            (lift_results-shape out results (r.1.0, t'))
                            (rw (a, handle_workload_import, b, c) at e),
                      )
                    ]
              ])
      ]
