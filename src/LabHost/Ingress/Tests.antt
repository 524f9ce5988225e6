-- ===== src/LabHost/Ingress/Tests.antt =====
-- The ingress on one stored route and one container.
use docker_interface.LabHost.Errors.{api_error}
use docker_interface.Prelude.{
  true, false, String, str_eq, if◌then◌else◌, is_some, length, ◌≡◌, refl, [], ◌∷◌, none, some,
}
use docker_interface.Prelude.Int.{pos}
use docker_interface.Py.Dict.{insert, lookup, string_eq}
use docker_interface.Py.Value.{Value, str, int, list, dict, field, end, cons, nil}
use docker_interface.LabHost.Ingress.{
  Route, StateFile, document, load_routes, write_routes, normalize_from, add_normalized,
  normalize_entry, normalize_route,
}
use docker_interface.LabHost.Ingress.Stored.{IsRoutes, load-write_routes}
use docker_interface.LabHost.Ingress.Ops.{
  Files, IngressRouteUpsertArgs, https, route_payload, upsert_ingress_route, remove_ingress_route,
}
use docker_interface.LabHost.Ingress.Ops.Laws.{
  InSync, routes_of, load_routes-IsRoutes, upsert_ingress_route_lem, remove_ingress_route_lem,
}
use docker_interface.LabHost.Ingress.Proxy.{
  IngressEnsureArgs, host, started, ProxyDocker, World, ensure_ingress_proxy,
}
use docker_interface.LabHost.Ingress.Proxy.Laws.{Ensured, ensure_ingress_proxy-Ensured}

-- The second entry has no port.
abbrev stored : StateFile
stored = document (
    dict (
      field "web.lab"
        (dict (field "upstream_host" (str "10.0.0.2") (field "upstream_port" (int (pos 80)) end)))
        (field "old.lab" (dict (field "upstream_host" (str "10.0.0.3") end)) end)))

abbrev web : Route
web = record {
  upstream_host = "10.0.0.2";
  upstream_port = int (pos 80);
  service_scheme = "http";
  metadata = [];
}

load_run : load_routes stored ≡ ("web.lab", web) ∷ []
unfolding load_routes normalize_from add_normalized normalize_entry normalize_route insert
load_run = refl

web-IsRoutes : IsRoutes (("web.lab", web) ∷ [])
unfolding lookup
web-IsRoutes = (record { port_is_int = refl; scheme_is_known = refl }, refl, tt)

load-write_routes_example :
    load_routes (write_routes (("web.lab", web) ∷ [])) ≡ ("web.lab", web) ∷ []
load-write_routes_example = load-write_routes (("web.lab", web) ∷ []) web-IsRoutes

load_routes-IsRoutes_example : IsRoutes (load_routes stored)
load_routes-IsRoutes_example = load_routes-IsRoutes stored

abbrev files : Files
files = record { state = stored; dynamic_config = none; static_config = none }

-- A digest for tests; the source takes the first eight hexadecimal digits of SHA-1.
abbrev digest : String → String
digest hostname = "0a1b2c3d"

abbrev args : IngressRouteUpsertArgs
args = record {
  upstream_host = "10.0.0.9";
  upstream_port = pos 8443;
  service_scheme = https;
  metadata = some (("lab", "one") ∷ []);
}

upsert_ingress_route_lem_example :
    let (response, files') = upsert_ingress_route digest "web.lab" args files in
    ((h : String)
      → lookup h (routes_of files')
        ≡ (if str_eq "web.lab" h then some (route_payload args) else lookup h (routes_of files)))
    × (response.routes_count ≡ length (routes_of files'))
    × InSync digest files'
upsert_ingress_route_lem_example = upsert_ingress_route_lem digest "web.lab" args files

remove_ingress_route_lem_example :
    let (response, files') = remove_ingress_route digest "web.lab" files in
    ((h : String)
      → lookup h (routes_of files')
        ≡ (if str_eq "web.lab" h then none else lookup h (routes_of files)))
    × (response.removed ≡ is_some (lookup "web.lab" (routes_of files)))
    × (response.routes_count ≡ length (routes_of files'))
    × InSync digest files'
remove_ingress_route_lem_example = remove_ingress_route_lem digest "web.lab" files

-- The old proxy and a container that publishes port 80.
abbrev attrs : String → Value
attrs port = dict (
    field "HostConfig"
      (dict (
        field "PortBindings"
          (dict (field "80/tcp" (list (cons (dict (field "HostPort" (str port) end)) nil)) end))
          end))
      end)

abbrev world : World
world = record {
  containers =
      ("proxy", record { is_running = true; attrs = attrs "443" })
      ∷ ("web", record { is_running = false; attrs = attrs "80" })
      ∷ [];
  files = files;
}

-- A daemon that runs the proxy and then loses it.
abbrev daemon : ProxyDocker
daemon = record {
  clear = λ existing. none;
  run = λ call. started (attrs "81");
  reload = λ found. some (api_error "no answer");
}

abbrev proxy_args : IngressEnsureArgs
proxy_args = record {
  image = "traefik:v3";
  container_name = "proxy";
  http_port = pos 80;
  https_port = pos 443;
  network_mode = host;
}

ensure_ingress_proxy-Ensured_example :
    Ensured digest daemon proxy_args world (ensure_ingress_proxy digest daemon proxy_args world)
ensure_ingress_proxy-Ensured_example = ensure_ingress_proxy-Ensured digest daemon proxy_args world
