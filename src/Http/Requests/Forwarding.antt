-- ===== src/Http/Requests/Forwarding.antt =====
-- A guest that forwards a request copies its parts, as the calls of host/types.rs give them, to another.
use mathlib.Core.Option
use wasmx.Base.{if◌then◌else◌, ◌≡◌, refl, Bool, false, ◌&&◌, Option, none, some, ok, err}
use wasmx.Http.Requests.{
  UriLib, HttpMethod, HttpScheme, Request, from_method, to_method, from_scheme, to_scheme,
  get_method, get_scheme, get_authority, get_path_with_query, set_method, set_scheme, set_authority,
  set_path_with_query, contains_colon, is_none,
}

-- What the crate `http` prints, it parses back as it was.
pub record ParsesBack (lib : UriLib) : Type 0 where
  pub methods :
      (m : lib.MethodText) → lib.parse_method (lib.method_text m) ≡ some (HttpMethod.extension m)
  pub schemes :
      (s : lib.SchemeText) → lib.parse_scheme (lib.scheme_text s) ≡ some (HttpScheme.other s)
  pub authorities : (a : lib.Authority) → lib.parse_authority (lib.authority_text a) ≡ some a
  pub paths : (p : lib.PathAndQuery) → lib.parse_path (lib.path_text p) ≡ some p

module _ (lib : UriLib) (back : ParsesBack lib) where
  to_method-from_method :
      (m : HttpMethod lib.MethodText) → to_method lib (from_method lib m) ≡ some m
  unfolding to_method from_method
  to_method-from_method (HttpMethod.extension e) = back.methods e
  to_method-from_method _ = refl

  to_scheme-from_scheme :
      (s : HttpScheme lib.SchemeText) → to_scheme lib (from_scheme lib s) ≡ some s
  unfolding to_scheme from_scheme
  to_scheme-from_scheme (HttpScheme.other e) = back.schemes e
  to_scheme-from_scheme _ = refl

  -- An authority with a colon and no port, as one of an IPv6 address alone.
  abbrev pub is_portless : Option lib.Authority → Bool
  is_portless none = false
  is_portless (some a) = contains_colon (lib.authority_text a) && is_none (lib.port_u16 a)

  module _ {A B : Type 0} where
    set_method-get_method :
        (src : Request lib A) (dst : Request lib B)
        → set_method lib dst (get_method lib src) ≡ (ok tt, record dst { method = src.method })
    unfolding set_method get_method
    set_method-get_method src dst = rw (set_method, to_method-from_method src.method) refl

    set_scheme-get_scheme :
        (src : Request lib A) (dst : Request lib B)
        → set_scheme lib dst (get_scheme lib src) ≡ (ok tt, record dst { scheme = src.scheme })
    unfolding set_scheme get_scheme
    set_scheme-get_scheme src dst = go src.scheme
      where
        go :
            (s : Option (HttpScheme lib.SchemeText))
            → set_scheme lib dst (Option.map (from_scheme lib) s)
              ≡ (ok tt, record dst { scheme = s })
        go none = refl
        go (some s) = rw (set_scheme, to_scheme-from_scheme s) refl

    set_path_with_query-get_path_with_query :
        (src : Request lib A) (dst : Request lib B)
        → set_path_with_query lib dst (get_path_with_query lib src)
          ≡ (ok tt, record dst { path_with_query = src.path_with_query })
    unfolding set_path_with_query get_path_with_query
    set_path_with_query-get_path_with_query src dst = go src.path_with_query
      where
        go :
            (p : Option lib.PathAndQuery)
            → set_path_with_query lib dst (Option.map lib.path_text p)
              ≡ (ok tt, record dst { path_with_query = p })
        go none = refl
        go (some p) = rw (back.paths p) refl

    set_authority-get_authority :
        (src : Request lib A) (dst : Request lib B)
        → set_authority lib dst (get_authority lib src) ≡ (
            if is_portless src.authority
            then (err tt, dst)
            else (ok tt, record dst { authority = src.authority }))
    unfolding set_authority get_authority
    set_authority-get_authority src dst = go src.authority
      where
        go :
            (a : Option lib.Authority)
            → set_authority lib dst (Option.map lib.authority_text a)
              ≡ (if is_portless a then (err tt, dst) else (ok tt, record dst { authority = a }))
        go none = refl
        go (some a) = rw (back.authorities a) refl

    -- The parts of a request, given to another one after the other, are taken as they are, but for an authority that
    -- has a colon and no port, which is refused and leaves the request as it was.
    pub set-get :
        (src : Request lib A) (dst : Request lib B)
        → let (q1, d1) = set_method lib dst (get_method lib src) in
          let (q2, d2) = set_scheme lib d1 (get_scheme lib src) in
          let (q3, d3) = set_path_with_query lib d2 (get_path_with_query lib src) in
          let copy = record dst {
            method = src.method;
            scheme = src.scheme;
            path_with_query = src.path_with_query;
          } in
          (q1 ≡ ok tt)
          × (q2 ≡ ok tt)
          × (q3 ≡ ok tt)
          × (d3 ≡ copy)
          × (set_authority lib d3 (get_authority lib src) ≡ (
              if is_portless src.authority
              then (err tt, copy)
              else (ok tt, record copy { authority = src.authority })))
    set-get src dst =
        rw
          (
            set_method-get_method src dst,
            set_scheme-get_scheme src (record dst { method = src.method }),
            set_path_with_query-get_path_with_query src
                (record dst { method = src.method; scheme = src.scheme }),
          )
          (
            refl,
            refl,
            refl,
            refl,
            set_authority-get_authority src (record dst {
              method = src.method;
              scheme = src.scheme;
              path_with_query = src.path_with_query;
            }),
          )
