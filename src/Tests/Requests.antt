-- ===== src/Tests/Requests.antt =====
-- A request to an IPv6 address is forwarded, with a library whose texts are parsed as they are and have no ports.
use wasmx.Base.{ℕ, ◌≡◌, refl, List, none, some, ok, err, if◌then◌else◌}
use wasmx.Redis.{bytes}
use wasmx.Http.Fields.{WithChildren}
use wasmx.Http.Requests.{
  UriLib, HttpMethod, HttpScheme, Request, get_method, get_scheme, get_authority,
  get_path_with_query, set_method, set_scheme, set_authority, set_path_with_query,
}
use wasmx.Http.Requests.Forwarding.{ParsesBack, is_portless, set-get}

abbrev lib : UriLib
lib = record {
  MethodText = List ℕ;
  SchemeText = List ℕ;
  Authority = List ℕ;
  PathAndQuery = List ℕ;
  parse_method = λ s. some (HttpMethod.extension s);
  method_text = λ s. s;
  parse_scheme = λ s. some (HttpScheme.other s);
  scheme_text = λ s. s;
  parse_authority = λ s. some s;
  authority_text = λ s. s;
  port_u16 = λ s. none;
  parse_path = λ s. some s;
  path_text = λ s. s;
}

lib-ParsesBack : ParsesBack lib
lib-ParsesBack = record {
  methods = λ s. refl;
  schemes = λ s. refl;
  authorities = λ s. refl;
  paths = λ s. refl;
}

abbrev incoming : Request lib ℕ
incoming = record {
  method = HttpMethod.extension (bytes "PURGE");
  scheme = some HttpScheme.https;
  authority = some (bytes "[::1]");
  path_with_query = some (bytes "/a?b");
  headers = WithChildren.parent 0;
  body = some 7;
}

abbrev outgoing : Request lib ℕ
outgoing = record {
  method = HttpMethod.get;
  scheme = none;
  authority = none;
  path_with_query = none;
  headers = WithChildren.parent 1;
  body = none;
}

set-get_example :
    let (q1, d1) = set_method lib outgoing (get_method lib incoming) in
    let (q2, d2) = set_scheme lib d1 (get_scheme lib incoming) in
    let (q3, d3) = set_path_with_query lib d2 (get_path_with_query lib incoming) in
    let copy = record outgoing {
      method = incoming.method;
      scheme = incoming.scheme;
      path_with_query = incoming.path_with_query;
    } in
    (q1 ≡ ok tt)
    × (q2 ≡ ok tt)
    × (q3 ≡ ok tt)
    × (d3 ≡ copy)
    × (set_authority lib d3 (get_authority lib incoming) ≡ (
        if is_portless lib lib-ParsesBack incoming.authority
        then (err tt, copy)
        else (ok tt, record copy { authority = incoming.authority })))
set-get_example = set-get lib lib-ParsesBack incoming outgoing
