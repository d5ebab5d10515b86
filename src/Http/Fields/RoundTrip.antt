-- ===== src/Http/Fields/RoundTrip.antt =====
-- What `get` of http/host/types.rs reads of what `set` wrote.
use mathlib.Core.List.{append-nil, append_assoc}
use wasmx.Base.{
  ℕ, ◌≡◌, ◌≢◌, refl, sym, ◌∙◌, inl, inr, List, [], ◌∷◌, ◌++◌, ◌⊎◌, map, Option, none, some, Result,
  ok, err, Result-cases, Option-cases, Bool-cases, ==_iff,
}
use wasmx.Http.Fields.{
  HeaderName, content_length, HeaderError, HeaderLib, WithChildren, parent, child, as_arc, Cells,
  update, change, set, get, append_all, parse_name, parse_values, parse_header_value,
  is_forbidden_header,
}

-- `http::HeaderMap` keeps the values of a name in the order of the appends, and `HeaderValue` its bytes.
pub record KeepsValues (lib : HeaderLib) : Type 0 where
  pub removed : (n : HeaderName) (m : lib.HeaderMap) → lib.get_all (lib.remove n m) n ≡ []
  pub appended :
      (n : HeaderName) (v : lib.Value) (m : lib.HeaderMap)
      → lib.get_all (lib.append_value n v m) n ≡ lib.get_all m n ++ (v ∷ [])
  pub bytes : (b : List ℕ) (v : lib.Value) → lib.from_bytes b ≡ some v → lib.as_bytes v ≡ b

module _ (lib : HeaderLib) (keeps : KeepsValues lib) where
  ok_of_some :
      (o : Option lib.Value) (v : lib.Value)
      → ◌≡◌ {A = Result lib.Value HeaderError}
          (elim o [ some x ↦ ok x | none ↦ err HeaderError.invalid_syntax ])
          (ok v)
      → o ≡ some v
  ok_of_some none v e = absurd (cc e)
  ok_of_some (some x) v e = cc e

  value-bytes :
      (n : HeaderName) (b : List ℕ) (v : lib.Value)
      → n ≢ content_length
      → parse_header_value lib n b ≡ ok v
      → lib.as_bytes v ≡ b
  unfolding parse_header_value
  value-bytes content_length b v ne e = absurd (ne refl)
  value-bytes _ b v ne e = keeps.bytes b v (ok_of_some (lib.from_bytes b) v e)

  values-bytes :
      (n : HeaderName) (bs : List (List ℕ)) (vs : List lib.Value)
      → n ≢ content_length
      → parse_values lib n bs ≡ ok vs
      → map lib.as_bytes vs ≡ bs
  unfolding parse_values
  values-bytes n [] [] ne e = refl
  values-bytes n [] (v ∷ vs) ne e = absurd (cc e)
  values-bytes n (b ∷ bs) us ne e = elim (Result-cases (parse_header_value lib n b)) [
    | inr (x, d) ↦ absurd (cc (rw (d, parse_values) at e))
    | inl (v, d) ↦ elim (Result-cases (parse_values lib n bs)) [
      | inr (x, q) ↦ absurd (cc (rw (d, parse_values, q) at e))
      | inl (vs, q) ↦
          cc (rw (d, parse_values, q) at e, value-bytes n b v ne d, values-bytes n bs vs ne q)
    ]
  ]

  append_all-get_all :
      (n : HeaderName) (vs : List lib.Value) (m : lib.HeaderMap)
      → lib.get_all (append_all lib n vs m) n ≡ lib.get_all m n ++ vs
  unfolding append_all
  append_all-get_all n [] m = sym (append-nil (lib.get_all m n))
  append_all-get_all n (v ∷ vs) m =
      append_all-get_all n vs (lib.append_value n v m)
      ∙ rw (keeps.appended n v m) (append_assoc (lib.get_all m n) (v ∷ []) vs)

  change-cell :
      (h : WithChildren) (g : lib.HeaderMap → lib.HeaderMap) (c : Cells lib)
      → (change lib h g c).0 ≡ ok (ok tt)
      → (m : lib.HeaderMap) × ((change lib h g c).1.cell (as_arc h) ≡ some (g m))
  unfolding change update
  change-cell (child h) g c e = absurd (cc e)
  change-cell (parent h) g c e = elim (Option-cases (c.cell h)) [
    | inl d ↦ absurd (cc (rw (d, change) at e))
    | inr (m, d) ↦ (m, rw (d, change, (==_iff h h).1 refl) refl)
  ]

  name-ok :
      (name : lib.FieldName) (n : HeaderName)
      → lib.parse name ≡ some n
      → (parse_name lib name ≡ ok n) ⊎ (parse_name lib name ≡ err HeaderError.forbidden)
  unfolding parse_name
  name-ok name n p = elim (Bool-cases (is_forbidden_header n)) [
    | inl d ↦ inr (rw (p, parse_name, d) refl)
    | inr d ↦ inl (rw (p, parse_name, d) refl)
  ]

  -- The cell and the values that a `set` that succeeds has left.
  set-cell :
      (h : WithChildren) (name : lib.FieldName) (n : HeaderName) (values : List (List ℕ))
      (c : Cells lib)
      → lib.parse name ≡ some n
      → (set lib h name values c).0 ≡ ok (ok tt)
      → (m : lib.HeaderMap) × (vs : List lib.Value) × (parse_values lib n values ≡ ok vs)
        × ((set lib h name values c).1.cell (as_arc h)
            ≡ some (append_all lib n vs (lib.remove n m)))
  unfolding set
  set-cell h name n values c p e = elim (name-ok name n p) [
    | inr d ↦ absurd (cc (rw (d, set) at e))
    | inl d ↦ elim (Result-cases (parse_values lib n values)) [
      | inr (x, q) ↦ absurd (cc (rw (d, set, q) at e))
      | inl (vs, q) ↦
          (let (m, cell) =
              change-cell h (λ m. append_all lib n vs (lib.remove n m)) c (rw (d, set, q) at e) in
            (m, vs, q, rw (d, set, q) cell))
    ]
  ]

  -- After a `set` that succeeds, for any header but `Content-Length`, `get` gives back the values that
  -- were set, in order, and no others, if a `HeaderMap` keeps the values of a name in order and a
  -- `HeaderValue` its bytes.
  pub get-set :
      (h : WithChildren) (name : lib.FieldName) (n : HeaderName) (values : List (List ℕ))
      (c : Cells lib)
      → lib.parse name ≡ some n
      → n ≢ content_length
      → (set lib h name values c).0 ≡ ok (ok tt)
      → get lib h name (set lib h name values c).1 ≡ ok values
  unfolding get
  get-set h name n values c p ne e =
      (let (m, vs, q, cell) = set-cell h name n values c p e in
        rw
          (
            cell,
            get,
            p,
            append_all-get_all n vs (lib.remove n m),
            keeps.removed n m,
            values-bytes n values vs ne q,
          )
          refl)
