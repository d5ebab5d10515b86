-- ===== src/Http/Requests.antt =====
-- crates/wasmlet/src/engine/wasi/http: `Request` of request.rs, the conversions of methods and schemes in conv.rs, and
-- the calls on the parts of requests and responses in host/types.rs, without the resource table. Texts are lists of
-- bytes.
pub mod Forwarding
use mathlib.Core.Option
use wasmx.Base.{
  ℕ, Bool, true, false, List, [], ◌∷◌, ◌||◌, ◌&&◌, not, Option, none, some, Result, ok, err, ⊤,
  ◌==◌, leb, if◌then◌else◌,
}
use wasmx.Http.Fields.{WithChildren}

-- `Method` and `Scheme` of wasi:http
pub data Method : Type 0 where
  get head post put delete connect options trace patch : Method
  other : List ℕ → Method

pub data Scheme : Type 0 where
  http https : Scheme
  other : List ℕ → Scheme

-- `http::Method` and `http::uri::Scheme`: the constants, and the others.
pub data HttpMethod (E : Type 0) : Type 0 where
  get head post put delete connect options trace patch : HttpMethod E
  extension : E → HttpMethod E

pub data HttpScheme (E : Type 0) : Type 0 where
  http https : HttpScheme E
  other : E → HttpScheme E

-- What is called of the crate `http`.
pub record UriLib : Type 1 where
  pub MethodText : Type 0
  pub SchemeText : Type 0
  pub Authority : Type 0
  pub PathAndQuery : Type 0
  pub parse_method : List ℕ → Option (HttpMethod MethodText)
  pub method_text : MethodText → List ℕ
  pub parse_scheme : List ℕ → Option (HttpScheme SchemeText)
  pub scheme_text : SchemeText → List ℕ
  pub parse_authority : List ℕ → Option Authority
  pub authority_text : Authority → List ℕ
  pub port_u16 : Authority → Option ℕ
  pub parse_path : List ℕ → Option PathAndQuery
  pub path_text : PathAndQuery → List ℕ

-- `authority.contains(':')`
unfoldable pub contains_colon : List ℕ → Bool
contains_colon [] = false
contains_colon (c ∷ cs) = (c == 58) || contains_colon cs

abbrev pub is_none {ℓ} : {A : Type ℓ} → Option A → Bool
is_none none = true
is_none (some a) = false

module _ (lib : UriLib) where
  open lib use {MethodText, SchemeText, Authority, PathAndQuery}

  -- `From<&http::Method> for Method`
  unfoldable pub from_method : HttpMethod MethodText → Method
  from_method HttpMethod.get = Method.get
  from_method HttpMethod.head = Method.head
  from_method HttpMethod.post = Method.post
  from_method HttpMethod.put = Method.put
  from_method HttpMethod.delete = Method.delete
  from_method HttpMethod.connect = Method.connect
  from_method HttpMethod.options = Method.options
  from_method HttpMethod.trace = Method.trace
  from_method HttpMethod.patch = Method.patch
  from_method (HttpMethod.extension e) = Method.other (lib.method_text e)

  -- `TryFrom<&Method> for http::Method`
  unfoldable pub to_method : Method → Option (HttpMethod MethodText)
  to_method Method.get = some HttpMethod.get
  to_method Method.head = some HttpMethod.head
  to_method Method.post = some HttpMethod.post
  to_method Method.put = some HttpMethod.put
  to_method Method.delete = some HttpMethod.delete
  to_method Method.connect = some HttpMethod.connect
  to_method Method.options = some HttpMethod.options
  to_method Method.trace = some HttpMethod.trace
  to_method Method.patch = some HttpMethod.patch
  to_method (Method.other s) = lib.parse_method s

  -- `From<&http::uri::Scheme> for Scheme`
  unfoldable pub from_scheme : HttpScheme SchemeText → Scheme
  from_scheme HttpScheme.http = Scheme.http
  from_scheme HttpScheme.https = Scheme.https
  from_scheme (HttpScheme.other e) = Scheme.other (lib.scheme_text e)

  -- `TryFrom<&Scheme> for http::uri::Scheme`
  unfoldable pub to_scheme : Scheme → Option (HttpScheme SchemeText)
  to_scheme Scheme.http = some HttpScheme.http
  to_scheme Scheme.https = some HttpScheme.https
  to_scheme (Scheme.other s) = lib.parse_scheme s

  pub record Request (B : Type 0) : Type 0 where
    pub method : HttpMethod MethodText
    pub scheme : Option (HttpScheme SchemeText)
    pub authority : Option Authority
    pub path_with_query : Option PathAndQuery
    pub headers : WithChildren
    pub body : Option B

  module _ {B : Type 0} where
    -- The calls that read a part of a request.
    unfoldable pub get_method : Request B → Method
    unfolding from_method
    get_method r = from_method r.method

    unfoldable pub get_path_with_query : Request B → Option (List ℕ)
    get_path_with_query r = Option.map lib.path_text r.path_with_query

    unfoldable pub get_scheme : Request B → Option Scheme
    unfolding from_scheme
    get_scheme r = Option.map from_scheme r.scheme

    unfoldable pub get_authority : Request B → Option (List ℕ)
    get_authority r = Option.map lib.authority_text r.authority

    -- The calls that set one.
    unfoldable pub set_method : Request B → Method → Result ⊤ ⊤ × Request B
    unfolding to_method
    set_method r method = elim (to_method method) [
      | none ↦ (err tt, r)
      | some m ↦ (ok tt, record r { method = m })
    ]

    unfoldable pub set_path_with_query : Request B → Option (List ℕ) → Result ⊤ ⊤ × Request B
    set_path_with_query r none = (ok tt, record r { path_with_query = none })
    set_path_with_query r (some text) = elim (lib.parse_path text) [
      | none ↦ (err tt, r)
      | some p ↦ (ok tt, record r { path_with_query = some p })
    ]

    unfoldable pub set_scheme : Request B → Option Scheme → Result ⊤ ⊤ × Request B
    unfolding to_scheme
    set_scheme r none = (ok tt, record r { scheme = none })
    set_scheme r (some scheme) = elim (to_scheme scheme) [
      | none ↦ (err tt, r)
      | some s ↦ (ok tt, record r { scheme = some s })
    ]

    unfoldable pub set_authority : Request B → Option (List ℕ) → Result ⊤ ⊤ × Request B
    set_authority r none = (ok tt, record r { authority = none })
    set_authority r (some text) = elim (lib.parse_authority text) [
      | none ↦ (err tt, r)
      | some a ↦
          if contains_colon text && is_none (lib.port_u16 a)
          then (err tt, r)
          else (ok tt, record r { authority = some a })
    ]

    -- `HostIncomingRequest::consume`, and the request without the body
    unfoldable pub consume : Request B → Result B ⊤ × Request B
    consume r = elim r.body [
      | none ↦ (err tt, record r { body = none })
      | some b ↦ (ok b, record r { body = none })
    ]
