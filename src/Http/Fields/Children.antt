-- ===== src/Http/Fields/Children.antt =====
-- Fields of http/host/types.rs that belong to a request or a response: `WithChildren::child` of engine/mod.rs.
use wasmx.Base.{◌≡◌, inl, inr, refl, ℕ, List, ok, err, Result-cases}
use wasmx.Http.Fields.{
  HeaderError, HeaderLib, WithChildren, Cells, Changed, make_child, parse_name, parse_values,
  parse_header_value, change, set, delete, append, immutable,
}

pub data Edit (lib : HeaderLib) : Type 0 where
  sets : lib.FieldName → List (List ℕ) → Edit lib
  deletes : lib.FieldName → Edit lib
  appends : lib.FieldName → List ℕ → Edit lib

unfoldable pub edit : (lib : HeaderLib) → Edit lib → WithChildren → Cells lib → Changed lib
edit lib (sets name values) f c = set lib f name values c
edit lib (deletes name) f c = delete lib f name c
edit lib (appends name value) f c = append lib f name value c

change-child :
    (lib : HeaderLib) (f : WithChildren) (g : lib.HeaderMap → lib.HeaderMap) (c : Cells lib)
    → change lib (make_child f) g c ≡ (ok (err immutable), c)
unfolding change make_child
change-child lib f g c = refl

-- Every change of fields that are the child of others is refused with an error for the guest, poisoned lock or
-- not, and leaves every map as it was.
pub edit-child :
    (lib : HeaderLib) (e : Edit lib) (f : WithChildren) (c : Cells lib)
    → (x : HeaderError) × (edit lib e (make_child f) c ≡ (ok (err x), c))
unfolding edit set delete append
edit-child lib (sets name values) f c = elim (Result-cases (parse_name lib name)) [
  | inr (x, e) ↦ (x, rw (e, set) refl)
  | inl (n, e) ↦ elim (Result-cases (parse_values lib n values)) [
    | inr (x, d) ↦ (x, rw (e, set, d) refl)
    | inl (vs, d) ↦ (immutable, rw (e, set, d) (change-child lib f _ c))
  ]
]
edit-child lib (deletes name) f c = elim (Result-cases (parse_name lib name)) [
  | inr (x, e) ↦ (x, rw (e, delete) refl)
  | inl (n, e) ↦ (immutable, rw (e, delete) (change-child lib f _ c))
]
edit-child lib (appends name value) f c = elim (Result-cases (parse_name lib name)) [
  | inr (x, e) ↦ (x, rw (e, append) refl)
  | inl (n, e) ↦ elim (Result-cases (parse_header_value lib n value)) [
    | inr (x, d) ↦ (x, rw (e, append, d) refl)
    | inl (v, d) ↦ (immutable, rw (e, append, d) (change-child lib f _ c))
  ]
]
