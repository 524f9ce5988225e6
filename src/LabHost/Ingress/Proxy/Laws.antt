-- ===== src/LabHost/Ingress/Proxy/Laws.antt =====
-- The ports of the ingress proxy, and what a failure leaves behind.
use docker_interface.Prelude.{
  ℕ, String, ◌≡◌, ◌⊎◌, inl, inr, refl, ap, ◌∙◌, true, false, [], ◌∷◌, arith, Option, none, some,
  is_some, str_eq, eq_refl, Option-cases,
}
use docker_interface.Prelude.Int.{ℤ, eqb_ℤ}
use docker_interface.Py.Dict.{
  Dict, string_eq, int_eq, lookup, insert, erase, elem, values, lookup-insert, lookup-insert_self,
  lookup-erase,
}
use docker_interface.Py.Result.{ok, err, ◌>>◌, bind-eq-ok}
use docker_interface.LabHost.Errors.{
  DockerError, image_not_found, not_found, api_error, container_error, docker_exception, Error,
  docker, Try,
}
use docker_interface.Py.Value.{Value}
use docker_interface.LabHost.Ports.{DockerContainer, PortSet, used_host_ports, assign}
use docker_interface.LabHost.Ports.Remap.{Assigned, assign-Assigned}
use docker_interface.LabHost.Ingress.{StateFile, absent, broken, document, load_routes}
use docker_interface.LabHost.Ingress.Render.{render_traefik_static_config}
use docker_interface.LabHost.Ingress.Ops.{
  Files, ensure_state, ensure_ingress_layout, load_ingress_routes_state,
  write_ingress_dynamic_config,
}
use docker_interface.LabHost.Ingress.Ops.Laws.{routes_of, InSync}
use docker_interface.LabHost.Ingress.Proxy.{
  NetworkMode, host, bridge, IngressEnsureArgs, IngressPorts, take_port, ingress_ports, proxy_run,
  World, ProxyInfo, RunOutcome, started, not_created, not_started, ProxyDocker, after_clear,
  after_run, after_removal, start_proxy, configure_proxy, with_ports, ensure_ingress_proxy,
}

-- The two ports are free and differ.
abbrev pub PortsFree : PortSet → IngressPorts → Type 0
PortsFree used p =
    (elem p.http used ≡ false) × (elem p.https used ≡ false) × (eqb_ℤ p.https p.http ≡ false)

same_port :
    (used : PortSet) (port : ℤ) (remap : Dict ℤ ℤ) {r : ℤ × Dict ℤ ℤ}
    → take_port used port remap ≡ ok r
    → assign used port ≡ ok r.0
unfolding take_port assign
same_port used port remap h = ground arith

take_port-Assigned :
    (used : PortSet) (port : ℤ) (remap : Dict ℤ ℤ) {r : ℤ × Dict ℤ ℤ}
    → take_port used port remap ≡ ok r
    → Assigned used port r.0
take_port-Assigned used port remap {r} h = assign-Assigned used port (same_port used port remap h)

ingress_ports_free :
    (used : PortSet) (http_port https_port : ℤ) {p : IngressPorts}
    → ingress_ports host used http_port https_port ≡ ok p
    → PortsFree used p
unfolding ingress_ports
ingress_ports_free used http_port https_port {p} h =
    let (a, ea, h1) = bind-eq-ok (take_port used http_port []) _ h in
    let (b, eb, h2) = bind-eq-ok (take_port (a.0 ∷ used) https_port a.1) _ h1 in
    let first = take_port-Assigned used http_port [] ea in
    let second = take_port-Assigned (a.0 ∷ used) https_port a.1 eb in ground arith

ensure_idem : (f : StateFile) → ensure_state (ensure_state f) ≡ ensure_state f
unfolding ensure_state
ensure_idem absent = refl
ensure_idem broken = refl
ensure_idem (document v) = refl

-- In host mode the ports are free; in bridge mode they are the requested ones.
abbrev pub PortsFor : NetworkMode → IngressEnsureArgs → PortSet → IngressPorts → Type 0
PortsFor host args used p = PortsFree used p
PortsFor bridge args used p = (p.http ≡ args.http_port) × (p.https ≡ args.https_port)

ingress_ports_for :
    (mode : NetworkMode) (args : IngressEnsureArgs) (used : PortSet) {p : IngressPorts}
    → ingress_ports mode used args.http_port args.https_port ≡ ok p
    → PortsFor mode args used p
ingress_ports_for host args used h = ingress_ports_free used args.http_port args.https_port h
ingress_ports_for bridge args used h = unfold ingress_ports in ground arith

-- The ports that the containers publish once the old proxy is gone.
abbrev pub used_without : String → World → PortSet
used_without name w = used_host_ports (values (erase name w.containers))

-- What Docker raised, unless it is that there is no such container.
abbrev pub IsRefusal : Option DockerError → Error → Type 0
IsRefusal (some (not_found message)) e = ⊥
IsRefusal (some exc) e = e ≡ docker exc
IsRefusal none e = ⊥

-- The container was created, and its start or the reload behind it failed.
abbrev pub IsLeft : (Value → Option DockerError) → RunOutcome → Error → Type 0
IsLeft reload (started attrs) e = IsFailure (reload attrs)
  where
    IsFailure : Option DockerError → Type 0
    IsFailure none = ⊥
    IsFailure (some exc) = e ≡ docker exc
IsLeft reload (not_created exc) e = ⊥
IsLeft reload (not_started exc attrs) e = e ≡ docker exc

module _ (digest : String → String) (d : ProxyDocker) where
  -- A proxy with such ports exists and is configured for the stored routes; or there is none, unless Docker
  -- refused to remove the old one, or has raised behind the creation of the new one.
  abbrev pub Replaced : IngressEnsureArgs → World → Try ProxyInfo → World → Type 0
  Replaced args w (ok info) w' =
      (is_some (lookup args.container_name w'.containers) ≡ true)
      × InSync digest w'.files
      × PortsFor args.network_mode args (used_without args.container_name w) info.ports
  Replaced args w (err e) w' =
      (lookup args.container_name w'.containers ≡ none)
      ⊎ ((w'.containers ≡ w.containers)
          × IsRefusal (d.clear (lookup args.container_name w.containers)) e)
      ⊎ ((ports : IngressPorts) × IsLeft d.reload (d.run (proxy_run args ports)) e)

  -- What a call that began at `w` has done: no other container and no stored route has changed.
  abbrev pub Ensured : IngressEnsureArgs → World → Try ProxyInfo × World → Type 0
  Ensured args w (r, w') =
      Replaced args w r w'
      × ((c : String)
          → str_eq args.container_name c ≡ false
          → lookup c w'.containers ≡ lookup c w.containers)
      × (routes_of w'.files ≡ routes_of w.files)

  module _ (args : IngressEnsureArgs) (w : World) where
    abbrev cleared : World
    cleared = record w {
      containers = erase args.container_name w.containers;
      files = ensure_ingress_layout w.files;
    }

    others_cleared :
        (c : String)
        → str_eq args.container_name c ≡ false
        → lookup c (erase args.container_name w.containers) ≡ lookup c w.containers
    others_cleared c h = lookup-erase args.container_name c w.containers ∙ rw h

    routes_cleared : routes_of cleared.files ≡ routes_of w.files
    unfolding ensure_ingress_layout
    routes_cleared = ap load_routes (ensure_idem w.files.state)

    proxy_gone : lookup args.container_name (erase args.container_name w.containers) ≡ none
    proxy_gone = lookup-erase args.container_name args.container_name w.containers ∙ rw eq_refl

    configured : IngressPorts → Files
    configured ports =
        let files' = record cleared.files {
          static_config = some (render_traefik_static_config ports.http ports.https);
        } in
        let (routes, files'') = load_ingress_routes_state files' in
        write_ingress_dynamic_config digest routes files''

    routes_configured : (ports : IngressPorts) → routes_of (configured ports) ≡ routes_of w.files
    unfolding configured ensure_ingress_layout write_ingress_dynamic_config
        load_ingress_routes_state
    routes_configured ports = rw (ensure_idem, ensure_idem, ensure_idem)

    configured-InSync : (ports : IngressPorts) → InSync digest (configured ports)
    unfolding configured ensure_ingress_layout write_ingress_dynamic_config
        load_ingress_routes_state
    configured-InSync ports = record {
      config_is_rendered = rw (ensure_idem, ensure_idem, ensure_idem);
    }

    others_inserted :
        (made : DockerContainer) (c : String)
        → str_eq args.container_name c ≡ false
        → lookup c (insert args.container_name made cleared.containers) ≡ lookup c w.containers
    others_inserted made c h =
        lookup-insert args.container_name c made cleared.containers ∙ rw h (others_cleared c h)

    run-Ensured :
        (ports : IngressPorts) (count : ℕ) (outcome : RunOutcome)
        → d.run (proxy_run args ports) ≡ outcome
        → PortsFor args.network_mode args (used_without args.container_name w) ports
        → Ensured args w (
            let (r, containers) =
              after_run d.reload args.container_name outcome cleared.containers in
            (
              (r >> ok (record { ports = ports; routes_count = count })),
              record cleared { containers = containers; files = configured ports },
            ))
    unfolding after_run
    run-Ensured ports count (started attrs) e good = elim (Option-cases (d.reload attrs)) [
      | inl q ↦ rw q (
        (
          ap is_some (lookup-insert_self args.container_name _ cleared.containers),
          configured-InSync ports,
          good,
        ),
        others_inserted _,
        routes_configured ports,
      )
      | inr (exc, q) ↦
          rw q (inr (inr (ports, rw (e, q) refl)), others_inserted _, routes_configured ports)
    ]
    run-Ensured ports count (not_created failure) e good =
        (inl proxy_gone, others_cleared, routes_configured ports)
    run-Ensured ports count (not_started failure attrs) e good =
        (inr (inr (ports, rw e refl)), others_inserted _, routes_configured ports)

    with_ports-Ensured :
        (r : Try IngressPorts)
        → ((ports : IngressPorts)
            → r ≡ ok ports
            → PortsFor args.network_mode args (used_without args.container_name w) ports)
        → Ensured args w (with_ports digest d args r cleared)
    unfolding with_ports configure_proxy start_proxy write_ingress_dynamic_config configured
    with_ports-Ensured (ok ports) good = run-Ensured ports _ _ refl (good ports refl)
    with_ports-Ensured (err e) good = (inl proxy_gone, others_cleared, routes_cleared)

    cleared-Ensured : Ensured args w (after_removal digest d args (ok tt) cleared)
    unfolding after_removal
    cleared-Ensured =
        with_ports-Ensured _ (λ ports h.
          ingress_ports_for args.network_mode args (used_without args.container_name w) h)

    -- The call in full, by what the removal has raised.
    removed-Ensured :
        (o : Option DockerError)
        → d.clear (lookup args.container_name w.containers) ≡ o
        → Ensured args w (
            let (r, containers) = after_clear args.container_name o w.containers in
            after_removal digest d args r
              (record w { containers = containers; files = ensure_ingress_layout w.files }))
    unfolding after_clear
    removed-Ensured none e = cleared-Ensured
    removed-Ensured (some (not_found message)) e = cleared-Ensured
    removed-Ensured (some (image_not_found message)) e =
        unfold after_removal in (inr (inl (refl, rw e refl)), (λ c h. refl), routes_cleared)
    removed-Ensured (some (api_error message)) e =
        unfold after_removal in (inr (inl (refl, rw e refl)), (λ c h. refl), routes_cleared)
    removed-Ensured (some container_error) e =
        unfold after_removal in (inr (inl (refl, rw e refl)), (λ c h. refl), routes_cleared)
    removed-Ensured (some docker_exception) e =
        unfold after_removal in (inr (inl (refl, rw e refl)), (λ c h. refl), routes_cleared)

    -- The call leaves every other container and every stored route as it was. If it returns, a container of
    -- the name exists, the configuration is the one for the stored routes, and the ports of the
    -- response are the requested ones in bridge mode, and in host mode two different ports that no
    -- remaining container publishes. If it raises, no container of the name is left, unless the exception
    -- is Docker's refusal to remove the old one, behind which no container has changed, or Docker raised it
    -- when it had created the new one and failed to start or to reload it.
    pub ensure_ingress_proxy-Ensured : Ensured args w (ensure_ingress_proxy digest d args w)
    unfolding ensure_ingress_proxy
    ensure_ingress_proxy-Ensured = removed-Ensured _ refl
