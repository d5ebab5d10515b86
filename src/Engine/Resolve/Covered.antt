-- ===== src/Engine/Resolve/Covered.antt =====
-- The imports of a workload of engine/mod.rs that are resolved or are left to wait for.
use wasmx.Base.{ℕ, ◌≡◌, refl, ◌⊎◌, inl, inr, List, [], ◌∷◌}
use wasmx.Engine.Resolve.{Wasmtime, UnresolvedImport, Slots}
use wasmx.Engine.Resolve.Visits.{IsResolved}

-- `a` is in the list.
unfoldable pub Among : {A : Type 0} → A → List A → Type 0
Among a [] = ⊥
Among a (x ∷ xs) = (a ≡ x) ⊎ Among a xs

module _ (wt : Wasmtime) where
  -- The targets of all imports are resolved.
  unfoldable pub AreResolved : List (UnresolvedImport wt) → Slots wt → Type 0
  AreResolved [] slots = Unit {0}
  AreResolved (i ∷ is) slots = IsResolved wt i.target_idx slots × AreResolved is slots

  -- The target of each import is resolved, or the import is among those left.
  unfoldable pub Covered :
      List (UnresolvedImport wt) → List (UnresolvedImport wt) → Slots wt → Type 0
  Covered [] rest slots = Unit {0}
  Covered (i ∷ is) rest slots =
      (IsResolved wt i.target_idx slots ⊎ Among i rest) × Covered is rest slots

  pub Covered-more :
      (is rest : List (UnresolvedImport wt)) (j : UnresolvedImport wt) (slots : Slots wt)
      → Covered is rest slots
      → Covered is (j ∷ rest) slots
  unfolding Covered Among
  Covered-more [] rest j slots h = tt
  Covered-more (i ∷ is) rest j slots (inl r, h) = (inl r, Covered-more is rest j slots h)
  Covered-more (i ∷ is) rest j slots (inr m, h) = (inr (inr m), Covered-more is rest j slots h)

  pub Covered-refl : (is : List (UnresolvedImport wt)) (slots : Slots wt) → Covered is is slots
  unfolding Covered Among
  Covered-refl [] slots = tt
  Covered-refl (i ∷ is) slots = (inr (inl refl), Covered-more is is i slots (Covered-refl is slots))

  pub Covered-none :
      (is : List (UnresolvedImport wt)) (slots : Slots wt)
      → Covered is [] slots
      → AreResolved is slots
  unfolding Covered Among AreResolved
  Covered-none [] slots h = tt
  Covered-none (i ∷ is) slots (inl r, h) = (r, Covered-none is slots h)
  Covered-none (i ∷ is) slots (inr m, h) = elim m [ ]

  -- What was left is covered in turn, in a later state in which no target is less resolved.
  pub Covered-trans :
      (is rest left : List (UnresolvedImport wt)) (before after : Slots wt)
      → ((i : ℕ) → IsResolved wt i before → IsResolved wt i after)
      → Covered is rest before
      → Covered rest left after
      → Covered is left after
  unfolding Covered Among
  Covered-trans [] rest left before after k h g = tt
  Covered-trans (i ∷ is) rest left before after k (inl r, h) g =
      (inl (k i.target_idx r), Covered-trans is rest left before after k h g)
  Covered-trans (i ∷ is) rest left before after k (inr m, h) g =
      (found rest m g, Covered-trans is rest left before after k h g)
    where
      found :
          (xs : List (UnresolvedImport wt))
          → Among i xs
          → Covered xs left after
          → IsResolved wt i.target_idx after ⊎ Among i left
      found [] m g = elim m [ ]
      found (x ∷ xs) (inl e) g = rw e g.0
      found (x ∷ xs) (inr m) g = found xs m g.1
