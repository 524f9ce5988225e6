-- ===== src/LabHost/Ingress/Proxy.antt =====
-- `ensure_ingress_proxy`: the proxy container is replaced by one with free ports.
pub mod Laws
use docker_interface.Prelude.{
  ℕ, zero, suc, ◌+◌, ◌-◌, ◌*◌, ◌/◌, ◌%◌, ◌<◌, ◌≤◌, Char, code, String, ◌≡◌, ◌≢◌, ◌⊎◌, ◌↔◌, inl, inr,
  refl, sym, ap, ◌∙◌, Bool, true, false, ◌&&◌, ◌||◌, not, List, [], ◌∷◌, ◌++◌, map, arith, ltb, leb,
  ◌==◌, if◌then◌else◌, all, any, All, sum, length, get_elem?, Option, none, some, is_some, get_or,
  Bool-cases, Option-cases, str_eq, eq_iff, eq_refl, length-append, length-map, All-append,
}
use docker_interface.Prelude.Int.{ℤ, pos, negsuc}
use docker_interface.Py.Dict.{
  Dict, Eq, string_eq, int_eq, lookup, insert, erase, contains, elem, values,
}
use docker_interface.Py.Value.{Value}
use docker_interface.Py.Result.{Result, ok, err, ◌>>=◌, ◌>>◌}
use docker_interface.LabHost.Errors.{Error, DockerError, not_found, docker, Try}
use docker_interface.LabHost.Ports.{
  DockerContainer, PortSet, used_host_ports, next_available_host_port,
}
use docker_interface.LabHost.Ingress.{Routes}
use docker_interface.LabHost.Ingress.Render.{render_traefik_static_config}
use docker_interface.LabHost.Ingress.Ops.{
  Files, ensure_ingress_layout, load_ingress_routes_state, write_ingress_dynamic_config,
}

pub data NetworkMode : Type 0 where
  host bridge : NetworkMode

pub record IngressEnsureArgs : Type 0 where
  pub image : String
  pub container_name : String
  pub http_port : ℤ
  pub https_port : ℤ
  pub network_mode : NetworkMode

pub record IngressPorts : Type 0 where
  pub http : ℤ
  pub https : ℤ
  pub port_remap : Dict ℤ ℤ

-- `if port in used_ports`: the next free port, noted in the remap.
unfoldable pub take_port : PortSet → ℤ → Dict ℤ ℤ → Try (ℤ × Dict ℤ ℤ)
take_port used port remap =
    if elem port used
    then (do n ← next_available_host_port port used; ok (pos n, insert port (pos n) remap))
    else ok (port, remap)

unfoldable pub ingress_ports : NetworkMode → PortSet → ℤ → ℤ → Try IngressPorts
ingress_ports bridge used http_port https_port =
    ok (record { http = http_port; https = https_port; port_remap = [] })
ingress_ports host used http_port https_port = do
  (http, remap) ← take_port used http_port []
  (https, remap') ← take_port (http ∷ used) https_port remap
  ok (record { http = http; https = https; port_remap = remap' })

-- The call of `client.containers.run`: host networking, or the two published ports.
pub record ProxyRun : Type 0 where
  pub image : String
  pub name : String
  pub restart_policy : String
  pub command : List String
  pub published : Option (ℤ × ℤ)

abbrev published_ports : NetworkMode → IngressPorts → Option (ℤ × ℤ)
published_ports host ports = none
published_ports bridge ports = some (ports.http, ports.https)

unfoldable pub proxy_run : IngressEnsureArgs → IngressPorts → ProxyRun
proxy_run args ports = record {
  image = args.image;
  name = args.container_name;
  restart_policy = "unless-stopped";
  command = "--configFile=/etc/traefik/traefik.yml" ∷ [];
  published = published_ports args.network_mode ports;
}

-- The containers of the Docker daemon by name, and the ingress files.
pub record World : Type 0 where
  pub containers : Dict String DockerContainer
  pub files : Files

pub record ProxyInfo : Type 0 where
  pub ports : IngressPorts
  pub routes_count : ℕ

-- What `client.containers.run` may do: it creates a container and starts it.
pub data RunOutcome : Type 0 where
  started : Value → RunOutcome
  not_created : DockerError → RunOutcome
  not_started : DockerError → Value → RunOutcome

-- What the Docker daemon answers. `clear`: what `get` and `existing.remove` raise, by the container of the
-- name; `reload`: what the reload of the container that was run raises.
pub record ProxyDocker : Type 0 where
  pub clear : Option DockerContainer → Option DockerError
  pub run : ProxyRun → RunOutcome
  pub reload : Value → Option DockerError

-- `except NotFound: pass`; a removal that was refused leaves the container.
unfoldable pub after_clear :
    String
    → Option DockerError
    → Dict String DockerContainer
    → Try (Unit {0}) × Dict String DockerContainer
after_clear name none containers = (ok tt, erase name containers)
after_clear name (some (not_found message)) containers = (ok tt, erase name containers)
after_clear name (some e) containers = (err (docker e), containers)

abbrev pub reloaded : Option DockerError → Try (Unit {0})
reloaded none = ok tt
reloaded (some e) = err (docker e)

-- The containers behind `run` and `reload`, and what they return.
unfoldable pub after_run :
    (Value → Option DockerError)
    → String
    → RunOutcome
    → Dict String DockerContainer
    → Try (Unit {0}) × Dict String DockerContainer
after_run reload name (started attrs) containers =
    (reloaded (reload attrs), insert name (record { is_running = true; attrs = attrs }) containers)
after_run reload name (not_created e) containers = (err (docker e), containers)
after_run reload name (not_started e attrs) containers =
    (err (docker e), insert name (record { is_running = false; attrs = attrs }) containers)

module _ (digest : String → String) (d : ProxyDocker) where
  -- The container is run, and then the response is made.
  unfoldable pub start_proxy : IngressEnsureArgs → IngressPorts → ℕ → World → Try ProxyInfo × World
  start_proxy args ports count w =
      let (r, containers) =
        after_run d.reload args.container_name (d.run (proxy_run args ports)) w.containers in
      (
        (do r; ok (record { ports = ports; routes_count = count })),
        record w { containers = containers },
      )

  -- The configuration files, and then the container.
  unfoldable pub configure_proxy : IngressEnsureArgs → IngressPorts → World → Try ProxyInfo × World
  configure_proxy args ports w =
      let files' = record w.files {
        static_config = some (render_traefik_static_config ports.http ports.https);
      } in
      let (routes, files'') = load_ingress_routes_state files' in
      start_proxy args ports (length routes)
        (record w { files = write_ingress_dynamic_config digest routes files'' })

  unfoldable pub with_ports : IngressEnsureArgs → Try IngressPorts → World → Try ProxyInfo × World
  with_ports args (err e) w = (err e, w)
  with_ports args (ok ports) w = configure_proxy args ports w

  -- The ports in use are read behind the removal.
  unfoldable pub after_removal : IngressEnsureArgs → Try (Unit {0}) → World → Try ProxyInfo × World
  after_removal args (err e) w = (err e, w)
  after_removal args (ok _) w =
      with_ports args
        (ingress_ports args.network_mode (used_host_ports (values w.containers)) args.http_port
          args.https_port)
        w

  -- An existing container of that name is removed first.
  unfoldable pub ensure_ingress_proxy : IngressEnsureArgs → World → Try ProxyInfo × World
  ensure_ingress_proxy args w =
      let (r, containers) =
        after_clear args.container_name (d.clear (lookup args.container_name w.containers))
          w.containers in
      after_removal args r
        (record w { containers = containers; files = ensure_ingress_layout w.files })
