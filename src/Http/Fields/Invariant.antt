-- ===== src/Http/Fields/Invariant.antt =====
-- The headers that may come to stand in the fields of http/host/types.rs.
use wasmx.Base.{
  ℕ, suc, ◌≡◌, ◌⊎◌, ◌∙◌, sym, ap, subst, inl, inr, true, false, List, [], ◌∷◌, some, Result, ok,
  err, ◌==◌, if◌then◌else◌, Bool-cases, Result-cases, Option-cases,
}
use mathlib.Core.Option.{some-injective}
use wasmx.Io.{Handle}
use wasmx.Http.Fields.{
  HeaderName, HeaderError, HeaderLib, WithChildren, parent, child, as_arc, is_forbidden_header,
  Cells, update, new, parse_name, parse_header_value, collect_entries, from_list, change,
  parse_values, append_all, set, delete, append, clone,
}

-- `http::HeaderMap`: an empty map has no key, an append adds none but its own, a removal adds none.
pub record IsMap (lib : HeaderLib) : Type 0 where
  pub empty_key : (n : HeaderName) → lib.contains_key lib.empty n ≡ false
  pub append_key :
      (n k : HeaderName) (v : lib.Value) (m : lib.HeaderMap)
      → lib.contains_key (lib.append_value n v m) k ≡ true
      → (k ≡ n) ⊎ (lib.contains_key m k ≡ true)
  pub remove_key :
      (n k : HeaderName) (m : lib.HeaderMap)
      → lib.contains_key (lib.remove n m) k ≡ true
      → lib.contains_key m k ≡ true

pub data Call (lib : HeaderLib) : Type 0 where
  lists : List (lib.FieldName × List ℕ) → Call lib
  sets : WithChildren → lib.FieldName → List (List ℕ) → Call lib
  deletes : WithChildren → lib.FieldName → Call lib
  appends : WithChildren → lib.FieldName → List ℕ → Call lib
  clones : WithChildren → Call lib

module _ (lib : HeaderLib) where
  unfoldable pub serve : Call lib → Cells lib → Cells lib
  serve (lists entries) c = (from_list lib entries c).1
  serve (sets f name values) c = (set lib f name values c).1
  serve (deletes f name) c = (delete lib f name c).1
  serve (appends f name value) c = (append lib f name value c).1
  serve (clones f) c = (clone lib f c).1

  unfoldable pub run : List (Call lib) → Cells lib → Cells lib
  run [] c = c
  run (k ∷ ks) c = run ks (serve k c)

  -- No key of the map is a forbidden header.
  abbrev pub IsClean : lib.HeaderMap → Type 0
  IsClean m = (n : HeaderName) → lib.contains_key m n ≡ true → is_forbidden_header n ≡ false

  abbrev pub AreClean : Cells lib → Type 0
  AreClean c = (h : Handle) (m : lib.HeaderMap) → c.cell h ≡ some m → IsClean m

  -- A name that parses is not forbidden.
  Allowed : Result HeaderName HeaderError → Type 0
  Allowed (ok n) = is_forbidden_header n ≡ false
  Allowed (err e) = Unit {0}

  parse_name-Allowed : (name : lib.FieldName) → Allowed (parse_name lib name)
  unfolding parse_name Allowed
  parse_name-Allowed name = elim (Option-cases (lib.parse name)) [
    | inl e ↦ rw (e, parse_name) tt
    | inr (n, e) ↦
        rw (e, parse_name)
          (elim (Bool-cases (is_forbidden_header n)) [ inl d ↦ rw d tt | inr d ↦ rw d d ])
  ]

  parsed :
      (name : lib.FieldName) (n : HeaderName)
      → parse_name lib name ≡ ok n
      → is_forbidden_header n ≡ false
  unfolding Allowed
  parsed name n e = subst Allowed e (parse_name-Allowed name)

  update-AreClean :
      (h next : Handle) (m : lib.HeaderMap) (c : Cells lib)
      → AreClean c
      → IsClean m
      → AreClean (record { next = next; cell = update lib h m c.cell })
  unfolding update
  update-AreClean h next m c clean k i m' e = elim (Bool-cases (i == h)) [
    | inl d ↦
        subst IsClean (some-injective m m' (sym (ap (λ b. if b then some m else c.cell i) d) ∙ e)) k
    | inr d ↦ clean i m' (sym (ap (λ b. if b then some m else c.cell i) d) ∙ e)
  ]

  module _ (map : IsMap lib) where
    append-IsClean :
        (n : HeaderName) (v : lib.Value) (m : lib.HeaderMap)
        → is_forbidden_header n ≡ false
        → IsClean m
        → IsClean (lib.append_value n v m)
    append-IsClean n v m a clean k e = elim (map.append_key n k v m e) [
      | inl q ↦ rw q a
      | inr q ↦ clean k q
    ]

    empty-IsClean : IsClean lib.empty
    empty-IsClean n e = cc (map.empty_key n)

    remove-IsClean : (n : HeaderName) (m : lib.HeaderMap) → IsClean m → IsClean (lib.remove n m)
    remove-IsClean n m clean k e = clean k (map.remove_key n k m e)

    append_all-IsClean :
        (n : HeaderName) (vs : List lib.Value) (m : lib.HeaderMap)
        → is_forbidden_header n ≡ false
        → IsClean m
        → IsClean (append_all lib n vs m)
    unfolding append_all
    append_all-IsClean n [] m a clean = clean
    append_all-IsClean n (v ∷ vs) m a clean =
        append_all-IsClean n vs (lib.append_value n v m) a (append-IsClean n v m a clean)

    IsCleanResult : Result lib.HeaderMap HeaderError → Type 0
    IsCleanResult (ok m) = IsClean m
    IsCleanResult (err e) = Unit {0}

    collect_entries-IsClean :
        (entries : List (lib.FieldName × List ℕ)) (m : lib.HeaderMap)
        → IsClean m
        → IsCleanResult (collect_entries lib entries m)
    unfolding collect_entries IsCleanResult
    collect_entries-IsClean [] m clean = clean
    collect_entries-IsClean ((name, value) ∷ entries) m clean =
        elim (Result-cases (parse_name lib name)) [
          | inr (x, e) ↦ rw (e, IsCleanResult, collect_entries) tt
          | inl (n, e) ↦
              rw (e, IsCleanResult, collect_entries)
                (elim (Result-cases (parse_header_value lib n value)) [
                  | inr (x, d) ↦ rw d tt
                  | inl (v, d) ↦ rw d (
                      collect_entries-IsClean entries (lib.append_value n v m)
                        (append-IsClean n v m (parsed name n e) clean))
                ])
        ]

    change-AreClean :
        (f : WithChildren) (g : lib.HeaderMap → lib.HeaderMap) (c : Cells lib)
        → ((m : lib.HeaderMap) → IsClean m → IsClean (g m))
        → AreClean c
        → AreClean (change lib f g c).1
    unfolding change
    change-AreClean (child h) g c keep clean = clean
    change-AreClean (parent h) g c keep clean = elim (Option-cases (c.cell h)) [
      | inl e ↦ rw (e, change) clean
      | inr (m, e) ↦ rw (e, change) (update-AreClean h c.next (g m) c clean (keep m (clean h m e)))
    ]

    serve-AreClean : (k : Call lib) (c : Cells lib) → AreClean c → AreClean (serve k c)
    unfolding serve from_list new set delete append clone IsCleanResult
    serve-AreClean (lists entries) c clean =
        elim (Result-cases (collect_entries lib entries lib.empty)) [
          | inr (x, e) ↦ rw (e, serve, from_list) clean
          | inl (m, e) ↦
              rw (e, serve, from_list)
                (update-AreClean c.next (suc c.next) m c clean
                  (subst IsCleanResult e (collect_entries-IsClean entries lib.empty empty-IsClean)))
        ]
    serve-AreClean (sets f name values) c clean = elim (Result-cases (parse_name lib name)) [
      | inr (x, e) ↦ rw (e, serve, set) clean
      | inl (n, e) ↦
          rw (e, serve, set)
            (elim (Result-cases (parse_values lib n values)) [
              | inr (x, d) ↦ rw d clean
              | inl (vs, d) ↦ rw d (
                  change-AreClean f (λ m. append_all lib n vs (lib.remove n m)) c
                    (λ m k.
                      append_all-IsClean n vs (lib.remove n m) (parsed name n e)
                        (remove-IsClean n m k))
                    clean)
            ])
    ]
    serve-AreClean (deletes f name) c clean = elim (Result-cases (parse_name lib name)) [
      | inr (x, e) ↦ rw (e, serve, delete) clean
      | inl (n, e) ↦
          rw (e, serve, delete) (change-AreClean f (lib.remove n) c (remove-IsClean n) clean)
    ]
    serve-AreClean (appends f name value) c clean = elim (Result-cases (parse_name lib name)) [
      | inr (x, e) ↦ rw (e, serve, append) clean
      | inl (n, e) ↦
          rw (e, serve, append)
            (elim (Result-cases (parse_header_value lib n value)) [
              | inr (x, d) ↦ rw d clean
              | inl (v, d) ↦ rw d (
                  change-AreClean f (lib.append_value n v) c
                    (λ m k. append-IsClean n v m (parsed name n e) k) clean)
            ])
    ]
    serve-AreClean (clones f) c clean = elim (Option-cases (c.cell (as_arc f))) [
      | inl e ↦ rw (e, serve, clone) clean
      | inr (m, e) ↦
          rw (e, serve, clone)
            (update-AreClean c.next (suc c.next) m c clean (clean (as_arc f) m e))
    ]

    -- Where no map has a forbidden header, no calls of `from_list`, `set`, `delete`, `append` and `clone`
    -- bring one into any, whatever fields they name, if an append adds no key but its own and a removal
    -- adds none.
    pub run-AreClean : (ks : List (Call lib)) (c : Cells lib) → AreClean c → AreClean (run ks c)
    unfolding run
    run-AreClean [] c clean = clean
    run-AreClean (k ∷ ks) c clean = run-AreClean ks (serve k c) (serve-AreClean k c clean)
