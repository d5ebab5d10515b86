-- ===== src/Engine/Workload/Shapes.antt =====
-- What the values of a call between workloads, in engine/mod.rs and workload/value.rs, keep on their way.
use wasmx.Base.{◌≡◌, refl, ap, Result, ok, err, ⊤}
use wasmx.Engine.Workload.{
  Wasmtime, Failure, Val, Vals, Fields, Maybe, bool, s8, u8, s16, u16, s32, u32, s64, u64, float32,
  float64, char, string, enum, list, tuple, fields, variant, option, result_ok, result_err, flags,
  resource, nil, cons, end, field, nothing, just, Stores, M, step, convert, convert_vals,
  convert_fields, convert_maybe, lower_resource, lift_resource, lower, lift,
}

-- A value less what its resources are.
unfoldable mutual
  pub shape : {R : Type 0} → Val R → Val ⊤
  shape (bool b) = bool b
  shape (s8 n) = s8 n
  shape (u8 n) = u8 n
  shape (s16 n) = s16 n
  shape (u16 n) = u16 n
  shape (s32 n) = s32 n
  shape (u32 n) = u32 n
  shape (s64 n) = s64 n
  shape (u64 n) = u64 n
  shape (float32 n) = float32 n
  shape (float64 n) = float64 n
  shape (char n) = char n
  shape (string t) = string t
  shape (enum t) = enum t
  shape (list vs) = list (shapes vs)
  shape (tuple vs) = tuple (shapes vs)
  shape (fields vs) = fields (field_shapes vs)
  shape (variant k v) = variant k (maybe_shape v)
  shape (option v) = option (maybe_shape v)
  shape (result_ok v) = result_ok (maybe_shape v)
  shape (result_err v) = result_err (maybe_shape v)
  shape (flags l) = flags l
  shape (resource r) = resource tt

  pub shapes : {R : Type 0} → Vals R → Vals ⊤
  shapes nil = nil
  shapes (cons v vs) = cons (shape v) (shapes vs)

  pub field_shapes : {R : Type 0} → Fields R → Fields ⊤
  field_shapes end = end
  field_shapes (field k v vs) = field k (shape v) (field_shapes vs)

  pub maybe_shape : {R : Type 0} → Maybe R → Maybe ⊤
  maybe_shape nothing = nothing
  maybe_shape (just v) = just (shape v)

-- No resource is in the value.
abbrev mutual
  pub IsPlain : {R : Type 0} → Val R → Type 0
  IsPlain (resource r) = ⊥
  IsPlain (list vs) = ArePlain vs
  IsPlain (tuple vs) = ArePlain vs
  IsPlain (fields vs) = FieldsPlain vs
  IsPlain (variant k v) = MaybePlain v
  IsPlain (option v) = MaybePlain v
  IsPlain (result_ok v) = MaybePlain v
  IsPlain (result_err v) = MaybePlain v
  IsPlain _ = Unit {0}

  pub ArePlain : {R : Type 0} → Vals R → Type 0
  ArePlain nil = Unit {0}
  ArePlain (cons v vs) = IsPlain v × ArePlain vs

  pub FieldsPlain : {R : Type 0} → Fields R → Type 0
  FieldsPlain end = Unit {0}
  FieldsPlain (field k v vs) = IsPlain v × FieldsPlain vs

  pub MaybePlain : {R : Type 0} → Maybe R → Type 0
  MaybePlain nothing = Unit {0}
  MaybePlain (just v) = IsPlain v

module _ (wt : Wasmtime) where
  open wt use {Any, Store}

  unfoldable pub Holds : {A : Type 0} → (A → Type 0) → Result A Failure × Stores wt → Type 0
  Holds P (ok a, s) = P a
  Holds P (err e, s) = Unit {0}

  pub step-Holds :
      {A B : Type 0} (Q : A → Type 0) (P : B → Type 0) (r : Result A Failure × Stores wt)
      (k : A → M wt B)
      → Holds Q r
      → ((a : A) (s : Stores wt) → Q a → Holds P (k a s))
      → Holds P (step wt r k)
  unfolding Holds
  step-Holds Q P (ok a, s) k h f = f a s h
  step-Holds Q P (err e, s) k h f = tt

  any-Holds : {A : Type 0} (r : Result A Failure × Stores wt) → Holds (λ a. Unit {0}) r
  unfolding Holds
  any-Holds (ok a, s) = tt
  any-Holds (err e, s) = tt

  module _ (f : Any → M wt Any) where
    -- A value is converted into one of the same shape, whatever is done with its resources.
    mutual
      unfolding convert shape Holds

      pub convert-shape :
          (v : Val Any) (s : Stores wt) → Holds (λ u. shape u ≡ shape v) (convert wt f v s)
      convert-shape (resource any) s =
          step-Holds (λ a. Unit {0}) (λ u. shape u ≡ resource tt) (f any s) _ (any-Holds (f any s))
            (λ a t h. refl)
      convert-shape (list vs) s =
          step-Holds (λ us. shapes us ≡ shapes vs) (λ u. shape u ≡ list (shapes vs))
            (convert_vals wt f vs s) _ (vals-shape vs s) (λ us t e. ap list e)
      convert-shape (tuple vs) s =
          step-Holds (λ us. shapes us ≡ shapes vs) (λ u. shape u ≡ tuple (shapes vs))
            (convert_vals wt f vs s) _ (vals-shape vs s) (λ us t e. ap tuple e)
      convert-shape (fields vs) s =
          step-Holds (λ us. field_shapes us ≡ field_shapes vs)
            (λ u. shape u ≡ fields (field_shapes vs)) (convert_fields wt f vs s) _
            (fields-shape vs s) (λ us t e. ap fields e)
      convert-shape (variant k v) s =
          step-Holds (λ u. maybe_shape u ≡ maybe_shape v) (λ u. shape u ≡ variant k (maybe_shape v))
            (convert_maybe wt f v s) _ (maybe-shape v s) (λ u t e. ap (variant k) e)
      convert-shape (option v) s =
          step-Holds (λ u. maybe_shape u ≡ maybe_shape v) (λ u. shape u ≡ option (maybe_shape v))
            (convert_maybe wt f v s) _ (maybe-shape v s) (λ u t e. ap option e)
      convert-shape (result_ok v) s =
          step-Holds (λ u. maybe_shape u ≡ maybe_shape v) (λ u. shape u ≡ result_ok (maybe_shape v))
            (convert_maybe wt f v s) _ (maybe-shape v s) (λ u t e. ap result_ok e)
      convert-shape (result_err v) s =
          step-Holds (λ u. maybe_shape u ≡ maybe_shape v)
            (λ u. shape u ≡ result_err (maybe_shape v)) (convert_maybe wt f v s) _ (maybe-shape v s)
            (λ u t e. ap result_err e)
      convert-shape _ s = refl

      pub vals-shape :
          (vs : Vals Any) (s : Stores wt)
          → Holds (λ us. shapes us ≡ shapes vs) (convert_vals wt f vs s)
      vals-shape nil s = refl
      vals-shape (cons v vs) s =
          step-Holds (λ u. shape u ≡ shape v) (λ us. shapes us ≡ shapes (cons v vs))
            (convert wt f v s) _ (convert-shape v s)
            (λ u t e.
              step-Holds (λ us. shapes us ≡ shapes vs) (λ us. shapes us ≡ shapes (cons v vs))
                (convert_vals wt f vs t) _ (vals-shape vs t) (λ us r q. cc))

      fields-shape :
          (vs : Fields Any) (s : Stores wt)
          → Holds (λ us. field_shapes us ≡ field_shapes vs) (convert_fields wt f vs s)
      fields-shape end s = refl
      fields-shape (field k v vs) s =
          step-Holds (λ u. shape u ≡ shape v) (λ us. field_shapes us ≡ field_shapes (field k v vs))
            (convert wt f v s) _ (convert-shape v s)
            (λ u t e.
              step-Holds (λ us. field_shapes us ≡ field_shapes vs)
                (λ us. field_shapes us ≡ field_shapes (field k v vs)) (convert_fields wt f vs t) _
                (fields-shape vs t) (λ us r q. cc))

      maybe-shape :
          (v : Maybe Any) (s : Stores wt)
          → Holds (λ u. maybe_shape u ≡ maybe_shape v) (convert_maybe wt f v s)
      maybe-shape nothing s = refl
      maybe-shape (just v) s =
          step-Holds (λ u. shape u ≡ shape v) (λ u. maybe_shape u ≡ just (shape v))
            (convert wt f v s) _ (convert-shape v s) (λ u t e. ap just e)

    mutual
      unfolding convert

      convert-plain : (v : Val Any) (s : Stores wt) → IsPlain v → convert wt f v s ≡ (ok v, s)
      convert-plain (resource any) s h = absurd h
      convert-plain (list vs) s h =
          ap (λ r. step wt r (λ us t. (ok (list us), t))) (vals-plain vs s h)
      convert-plain (tuple vs) s h =
          ap (λ r. step wt r (λ us t. (ok (tuple us), t))) (vals-plain vs s h)
      convert-plain (fields vs) s h =
          ap (λ r. step wt r (λ us t. (ok (fields us), t))) (fields-plain vs s h)
      convert-plain (variant k v) s h =
          ap (λ r. step wt r (λ u t. (ok (variant k u), t))) (maybe-plain v s h)
      convert-plain (option v) s h =
          ap (λ r. step wt r (λ u t. (ok (option u), t))) (maybe-plain v s h)
      convert-plain (result_ok v) s h =
          ap (λ r. step wt r (λ u t. (ok (result_ok u), t))) (maybe-plain v s h)
      convert-plain (result_err v) s h =
          ap (λ r. step wt r (λ u t. (ok (result_err u), t))) (maybe-plain v s h)
      convert-plain _ s h = refl

      vals-plain :
          (vs : Vals Any) (s : Stores wt) → ArePlain vs → convert_vals wt f vs s ≡ (ok vs, s)
      vals-plain nil s h = refl
      vals-plain (cons v vs) s h = rw (convert-plain v s h.0, vals-plain vs s h.1) refl

      fields-plain :
          (vs : Fields Any) (s : Stores wt) → FieldsPlain vs → convert_fields wt f vs s ≡ (ok vs, s)
      fields-plain end s h = refl
      fields-plain (field k v vs) s h = rw (convert-plain v s h.0, fields-plain vs s h.1) refl

      maybe-plain :
          (v : Maybe Any) (s : Stores wt) → MaybePlain v → convert_maybe wt f v s ≡ (ok v, s)
      maybe-plain nothing s h = refl
      maybe-plain (just v) s h = rw (convert-plain v s h) refl

  -- A value without resources arrives as it is, on the way to the target and on the way back, and no table is
  -- touched.
  pub lower-lift :
      (v : Val Any) (s : Stores wt)
      → IsPlain v
      → (lower wt v s ≡ (ok v, s)) × (lift wt v s ≡ (ok v, s))
  unfolding lower lift
  lower-lift v s h =
      (convert-plain (lower_resource wt) v s h, convert-plain (lift_resource wt) v s h)
