-- ===== src/Http/Fields.antt =====
-- `HostFields` of crates/wasmlet/src/engine/wasi/http/host/types.rs, over `WithChildren` of
-- engine/mod.rs. A cell is what an `Arc<RwLock<HeaderMap>>` holds, or nothing where its lock is poisoned;
-- the place of a `WithChildren` in the resource table is left out.
pub mod Children
pub mod Invariant
pub mod RoundTrip
use wasmx.Base.{
  ℕ, zero, suc, Bool, true, false, List, [], ◌∷◌, Option, none, some, Result, ok, err, ⊤, ◌==◌, map,
  if◌then◌else◌,
}
use wasmx.Io.{Handle}

-- `http::HeaderName`: the names that the program knows, and the others by number.
pub data HeaderName : Type 0 where
  connection keep_alive proxy_authenticate proxy_authorization proxy_connection : HeaderName
  te transfer_encoding upgrade host http2_settings content_length : HeaderName
  other : ℕ → HeaderName

-- `is_forbidden_header`, with `DEFAULT_FORBIDDEN_HEADERS`
unfoldable pub is_forbidden_header : HeaderName → Bool
is_forbidden_header content_length = false
is_forbidden_header (other n) = false
is_forbidden_header _ = true

-- `wasi:http/types.header-error`
pub data HeaderError : Type 0 where
  invalid_syntax forbidden immutable : HeaderError

-- What is called of the crate `http` and of `str`. A name of the guest is a `FieldName`.
pub record HeaderLib : Type 1 where
  pub FieldName : Type 0
  pub Value : Type 0
  pub HeaderMap : Type 0
  pub parse : FieldName → Option HeaderName
  -- `str::from_utf8` and `str::parse::<u64>`, and `HeaderValue::from` of a `u64`
  pub parse_u64 : List ℕ → Option ℕ
  pub from_u64 : ℕ → Value
  pub from_bytes : List ℕ → Option Value
  pub as_bytes : Value → List ℕ
  pub empty : HeaderMap
  pub append_value : HeaderName → Value → HeaderMap → HeaderMap
  pub remove : HeaderName → HeaderMap → HeaderMap
  pub contains_key : HeaderMap → HeaderName → Bool
  pub get_all : HeaderMap → HeaderName → List Value

pub data WithChildren : Type 0 where
  parent child : Handle → WithChildren

-- `as_arc`
abbrev pub as_arc : WithChildren → Handle
as_arc (parent h) = h
as_arc (child h) = h

-- `WithChildren::child`; the original is not changed
unfoldable pub make_child : WithChildren → WithChildren
make_child f = child (as_arc f)

module _ (lib : HeaderLib) where
  open lib use {FieldName, Value, HeaderMap}

  pub record Cells : Type 0 where
    pub next : Handle
    pub cell : Handle → Option HeaderMap

  unfoldable pub update :
      Handle → HeaderMap → (Handle → Option HeaderMap) → Handle → Option HeaderMap
  update h m cell i = if i == h then some m else cell i

  -- `WithChildren::new`
  unfoldable pub new : HeaderMap → Cells → WithChildren × Cells
  new m c = (parent c.next, record { next = suc c.next; cell = update c.next m c.cell })

  unfoldable pub parse_header_value : HeaderName → List ℕ → Result Value HeaderError
  parse_header_value content_length bytes = elim (lib.parse_u64 bytes) [
    | some v ↦ ok (lib.from_u64 v)
    | none ↦ err invalid_syntax
  ]
  parse_header_value name bytes = elim (lib.from_bytes bytes) [
    | some v ↦ ok v
    | none ↦ err invalid_syntax
  ]

  -- `name.parse()` and the test that follows it everywhere
  unfoldable pub parse_name : FieldName → Result HeaderName HeaderError
  parse_name name = elim (lib.parse name) [
    | none ↦ err invalid_syntax
    | some n ↦ if is_forbidden_header n then err forbidden else ok n
  ]

  -- the `for` over the entries of `from_list`
  unfoldable pub collect_entries :
      List (FieldName × List ℕ) → HeaderMap → Result HeaderMap HeaderError
  collect_entries [] m = ok m
  collect_entries ((name, value) ∷ entries) m = elim (parse_name name) [
    | err e ↦ err e
    | ok n ↦ elim (parse_header_value n value) [
      | err e ↦ err e
      | ok v ↦ collect_entries entries (lib.append_value n v m)
    ]
  ]

  unfoldable pub from_list :
      List (FieldName × List ℕ) → Cells → Result WithChildren HeaderError × Cells
  unfolding new
  from_list entries c = elim (collect_entries entries lib.empty) [
    | err e ↦ (err e, c)
    | ok m ↦ (let (f, c') = new m c in (ok f, c'))
  ]

  -- A call that changes fields: the outer error says that the lock is poisoned.
  abbrev pub Changed : Type 0
  Changed = Result (Result ⊤ HeaderError) ⊤ × Cells

  -- `get_mut`, and a change where it gives the map
  unfoldable pub change : WithChildren → (HeaderMap → HeaderMap) → Cells → Changed
  change (child h) f c = (ok (err immutable), c)
  change (parent h) f c = elim (c.cell h) [
    | none ↦ (err tt, c)
    | some m ↦ (ok (ok tt), record c { cell = update h (f m) c.cell })
  ]

  -- the values of `set`
  unfoldable pub parse_values : HeaderName → List (List ℕ) → Result (List Value) HeaderError
  parse_values n [] = ok []
  parse_values n (value ∷ values) = elim (parse_header_value n value) [
    | err e ↦ err e
    | ok v ↦ elim (parse_values n values) [ err e ↦ err e | ok vs ↦ ok (v ∷ vs) ]
  ]

  unfoldable pub append_all : HeaderName → List Value → HeaderMap → HeaderMap
  append_all n [] m = m
  append_all n (v ∷ vs) m = append_all n vs (lib.append_value n v m)

  unfoldable pub set : WithChildren → FieldName → List (List ℕ) → Cells → Changed
  set f name values c = elim (parse_name name) [
    | err e ↦ (ok (err e), c)
    | ok n ↦ elim (parse_values n values) [
      | err e ↦ (ok (err e), c)
      | ok vs ↦ change f (λ m. append_all n vs (lib.remove n m)) c
    ]
  ]

  unfoldable pub delete : WithChildren → FieldName → Cells → Changed
  delete f name c = elim (parse_name name) [
    | err e ↦ (ok (err e), c)
    | ok n ↦ change f (lib.remove n) c
  ]

  unfoldable pub append : WithChildren → FieldName → List ℕ → Cells → Changed
  append f name value c = elim (parse_name name) [
    | err e ↦ (ok (err e), c)
    | ok n ↦ elim (parse_header_value n value) [
      | err e ↦ (ok (err e), c)
      | ok v ↦ change f (lib.append_value n v) c
    ]
  ]

  -- `WithChildren::clone`
  unfoldable pub clone : WithChildren → Cells → Result WithChildren ⊤ × Cells
  unfolding new
  clone f c = elim (c.cell (as_arc f)) [
    | none ↦ (err tt, c)
    | some m ↦ (let (f', c') = new m c in (ok f', c'))
  ]

  -- `has`, of a name that parses
  unfoldable pub has : WithChildren → FieldName → Cells → Result Bool ⊤
  has f name c = elim (c.cell (as_arc f)) [
    | none ↦ err tt
    | some m ↦ elim (lib.parse name) [ none ↦ ok false | some n ↦ ok (lib.contains_key m n) ]
  ]

  -- `get`, of a name that parses; there are no values of any other
  unfoldable pub get : WithChildren → FieldName → Cells → Result (List (List ℕ)) ⊤
  get f name c = elim (c.cell (as_arc f)) [
    | none ↦ err tt
    | some m ↦ elim (lib.parse name) [
      | none ↦ ok []
      | some n ↦ ok (map lib.as_bytes (lib.get_all m n))
    ]
  ]
