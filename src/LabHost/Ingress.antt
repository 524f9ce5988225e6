-- ===== src/LabHost/Ingress.antt =====
-- The ingress routes of a lab host: the state file, the dynamic configuration of the proxy, and the
-- operations on both (lab_host/docker_interface.py).
mod Tests
pub mod Render
pub mod Stored
pub mod Ops
pub mod Proxy
use docker_interface.Prelude.{
  ℕ, zero, suc, ◌+◌, ◌-◌, ◌*◌, ◌/◌, ◌%◌, ◌<◌, ◌≤◌, Char, code, String, ◌≡◌, ◌≢◌, ◌⊎◌, ◌↔◌, inl, inr,
  refl, sym, ap, ◌∙◌, Bool, true, false, ◌&&◌, ◌||◌, not, List, [], ◌∷◌, ◌++◌, map, arith, ltb, leb,
  ◌==◌, if◌then◌else◌, all, any, All, sum, length, get_elem?, Option, none, some, is_some, get_or,
  Bool-cases, Option-cases, str_eq, eq_iff, eq_refl, length-append, length-map, All-append,
}
use docker_interface.Prelude.Int.{ℤ, pos, negsuc}
use docker_interface.Py.Dict.{Dict, Eq, string_eq, lookup, insert, erase, contains}
use docker_interface.Py.Value.{
  Value, null, bool, int, float, str, list, dict, Fields, fields, of_fields, as_dict, as_str,
  as_int, get, dict_or_empty,
}

-- A route as the code holds it; the port is an `int`, which a `bool` is too.
pub record Route : Type 0 where
  pub upstream_host : String
  pub upstream_port : Value
  pub service_scheme : String
  pub metadata : Dict String Value

abbrev pub Routes : Type 0
Routes = Dict String Route

abbrev pub is_scheme : String → Bool
is_scheme s = str_eq s "http" || str_eq s "https"

abbrev pub scheme_or_http : Value → String
scheme_or_http (str s) = if is_scheme s then s else "http"
scheme_or_http _ = "http"

-- One entry of the state file; an entry without a host and a port is dropped.
unfoldable pub normalize_route : Dict String Value → Option Route
unfolding get
normalize_route route_obj = elim (as_str (get "upstream_host" route_obj)) [
  | none ↦ none
  | some host ↦ elim (as_int (get "upstream_port" route_obj)) [
    | none ↦ none
    | some port ↦ some (record {
      upstream_host = host;
      upstream_port = get "upstream_port" route_obj;
      service_scheme = scheme_or_http (get "service_scheme" route_obj);
      metadata = dict_or_empty (get "metadata" route_obj);
    })
  ]
]

unfoldable pub normalize_entry : Value → Option Route
normalize_entry v = elim (as_dict v) [ none ↦ none | some d ↦ normalize_route d ]

-- A dropped entry leaves the routes alone.
unfoldable pub add_normalized : String → Option Route → Routes → Routes
add_normalized hostname none routes = routes
add_normalized hostname (some r) routes = insert hostname r routes

-- The loop over `payload.items()`.
unfoldable pub normalize_from : Routes → Dict String Value → Routes
normalize_from routes [] = routes
normalize_from routes ((hostname, v) ∷ rest) =
    normalize_from (add_normalized hostname (normalize_entry v) routes) rest

-- The state file: absent, not JSON, or a JSON document. The order of a document's keys is left out.
pub data StateFile : Type 0 where
  absent broken : StateFile
  document : Value → StateFile

-- `_load_ingress_routes_state`, on the file's content.
unfoldable pub load_routes : StateFile → Routes
load_routes (document (dict fs)) = normalize_from [] (fields fs)
load_routes _ = []

unfoldable pub encode_route : Route → Value
encode_route r = dict (
    of_fields (
      ("upstream_host", str r.upstream_host)
      ∷ ("upstream_port", r.upstream_port)
      ∷ ("service_scheme", str r.service_scheme)
      ∷ ("metadata", dict (of_fields r.metadata))
      ∷ []))

unfoldable pub encode_routes : Routes → Dict String Value
encode_routes [] = []
encode_routes ((hostname, r) ∷ routes) = (hostname, encode_route r) ∷ encode_routes routes

-- `_write_ingress_routes_state`
unfoldable pub write_routes : Routes → StateFile
write_routes routes = document (dict (of_fields (encode_routes routes)))
