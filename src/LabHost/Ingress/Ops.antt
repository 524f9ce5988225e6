-- ===== src/LabHost/Ingress/Ops.antt =====
-- `upsert_ingress_route` and `remove_ingress_route`, on the files of the ingress directory.
pub mod Laws
use docker_interface.Prelude.{
  ℕ, zero, suc, ◌+◌, ◌-◌, ◌*◌, ◌/◌, ◌%◌, ◌<◌, ◌≤◌, Char, code, String, ◌≡◌, ◌≢◌, ◌⊎◌, ◌↔◌, inl, inr,
  refl, sym, ap, ◌∙◌, Bool, true, false, ◌&&◌, ◌||◌, not, List, [], ◌∷◌, ◌++◌, map, arith, ltb, leb,
  ◌==◌, if◌then◌else◌, all, any, All, sum, length, get_elem?, Option, none, some, is_some, get_or,
  Bool-cases, Option-cases, str_eq, eq_iff, eq_refl, length-append, length-map, All-append,
}
use docker_interface.Prelude.Int.{ℤ, pos, negsuc}
use docker_interface.Py.Dict.{Dict, Eq, string_eq, lookup, insert, erase, contains}
use docker_interface.Py.Value.{Value, int, str, dict, end}
use docker_interface.LabHost.Ingress.{
  Route, Routes, StateFile, absent, broken, document, load_routes, write_routes,
}
use docker_interface.LabHost.Ingress.Render.{render_ingress_dynamic_config}

-- `routes.json`, `dynamic/routes.yml` and `traefik.yml`.
pub record Files : Type 0 where
  pub state : StateFile
  pub dynamic_config : Option String
  pub static_config : Option String

unfoldable pub ensure_state : StateFile → StateFile
ensure_state absent = document (dict end)
ensure_state f = f

unfoldable pub ensure_ingress_layout : Files → Files
unfolding ensure_state
ensure_ingress_layout files = record files {
  state = ensure_state files.state;
  dynamic_config = some (get_or files.dynamic_config "");
}

-- `_load_ingress_routes_state`, with the files that it may create.
unfoldable pub load_ingress_routes_state : Files → Routes × Files
load_ingress_routes_state files =
    let files' = ensure_ingress_layout files in (load_routes files'.state, files')

unfoldable pub write_ingress_routes_state : Routes → Files → Files
write_ingress_routes_state routes files = record (ensure_ingress_layout files) {
  state = write_routes routes;
}

unfoldable pub write_ingress_dynamic_config : (String → String) → Routes → Files → Files
write_ingress_dynamic_config digest routes files = record (ensure_ingress_layout files) {
  dynamic_config = some (render_ingress_dynamic_config digest routes);
}

pub data Scheme : Type 0 where
  http https : Scheme

abbrev pub scheme_value : Scheme → String
scheme_value http = "http"
scheme_value https = "https"

pub record IngressRouteUpsertArgs : Type 0 where
  pub upstream_host : String
  pub upstream_port : ℤ
  pub service_scheme : Scheme
  pub metadata : Option (Dict String String)

abbrev metadata_values : Option (Dict String String) → Dict String Value
metadata_values none = []
metadata_values (some d) = map (λ e. (e.0, str e.1)) d

unfoldable pub route_payload : IngressRouteUpsertArgs → Route
route_payload args = record {
  upstream_host = args.upstream_host;
  upstream_port = int args.upstream_port;
  service_scheme = scheme_value args.service_scheme;
  metadata = metadata_values args.metadata;
}

pub record UpsertResponse : Type 0 where
  pub hostname : String
  pub route : Route
  pub routes_count : ℕ

pub record RemoveResponse : Type 0 where
  pub hostname : String
  pub removed : Bool
  pub routes_count : ℕ

module _ (digest : String → String) where
  -- Both writes, in the order of the source.
  unfoldable pub write_both : Routes → Files → Files
  write_both routes files =
      write_ingress_dynamic_config digest routes (write_ingress_routes_state routes files)

  unfoldable pub upsert_ingress_route :
      String → IngressRouteUpsertArgs → Files → UpsertResponse × Files
  upsert_ingress_route hostname args files =
      let (old, files') = load_ingress_routes_state files in
      let routes = insert hostname (route_payload args) old in
      (
        record { hostname = hostname; route = route_payload args; routes_count = length routes },
        write_both routes files',
      )

  unfoldable pub remove_ingress_route : String → Files → RemoveResponse × Files
  remove_ingress_route hostname files =
      let (old, files') = load_ingress_routes_state files in
      let removed = contains hostname old in
      let routes = if removed then erase hostname old else old in
      (
        record { hostname = hostname; removed = removed; routes_count = length routes },
        write_both routes files',
      )
