-- ===== src/ControlPlane/Reconcile/Run.antt =====
-- The steps of control_plane/reconciliation/service.py: one container, one project, one lab, one host.
use docker_interface.Prelude.{
  String, Bool, not, ◌||◌, List, [], ◌∷◌, Option, none, some, str_eq, if◌then◌else◌,
}
use docker_interface.Prelude.Int.{ℤ, pos, leb_ℤ, ltb_ℤ, eqb_ℤ}
use docker_interface.Py.Dict.{Dict, string_eq, lookup}
use docker_interface.Py.Value.{Value, str}
use docker_interface.Py.Result.{format}
use docker_interface.ControlPlane.Rows.{
  LifetimeType, persistent, ephemeral, single_use, session, ContainerStatus, created, started,
  stopped, paused, ProjectDesiredState, running, Container, Project, Host, Lab,
}
use docker_interface.Py.Result.{Result, ok, err}
use docker_interface.ControlPlane.Session.{
  SecretError, Method, get as get_method, post, delete, Session, Outside, Step, ◌>>=◌, ◌>>◌, return,
  read, for_each, labs_of, containers_of, projects_of, delete_container_row, delete_project_row,
  exposed_service_names,
}
use docker_interface.ControlPlane.Helpers.{
  Reply, extract_status_code, extract_body, extract_container_from_body, call_lab_host,
  container_path, remove_runtime_container,
}
use docker_interface.ControlPlane.Reconcile.{
  route_hostname, ttl_expired, Runtime, runtime_status, status_in, alive, completed,
  compose_containers_from_ps, all_single_use_success, any_alive,
}

module _ (outside : Outside) where
  -- `if not api_key`: an empty key counts as none.
  abbrev pub key_of : Value → Option String
  key_of (str s) = if str_eq s "" then none else some s
  key_of _ = none

  -- `_resolve_host_api_key`; whatever the secret store raises counts as no key.
  unfoldable pub key_or_none : Result SecretError Value → Option String
  key_or_none (ok v) = key_of v
  key_or_none (err e) = none

  unfoldable pub key_at : Option String → Option String
  key_at none = none
  key_at (some path) = if str_eq path "" then none else key_or_none (outside.get_secret path)

  abbrev pub resolve_host_api_key : Host → Option String
  resolve_host_api_key host = key_at host.api_key_secret_path

  module _ (host : Host) (api_key : String) where
    abbrev pub call : Method → String → Dict String String → Step Reply
    call method path query = call_lab_host outside host api_key method path query

    abbrev route_path : String → String
    route_path fqdn = format ("/ingress/routes/" ∷ fqdn ∷ [])

    unfoldable pub delete_route : String → Step (Unit {0})
    delete_route fqdn = do call delete (route_path fqdn) []; return tt

    -- `if not host.base_domain`
    unfoldable pub delete_route_below : Option String → String → String → Step (Unit {0})
    delete_route_below none lab_name resource_name = return tt
    delete_route_below (some domain) lab_name resource_name =
        if str_eq domain ""
        then return tt
        else delete_route (route_hostname resource_name lab_name domain)

    abbrev pub delete_ingress_route_if_possible : String → String → Step (Unit {0})
    delete_ingress_route_if_possible lab_name resource_name =
        delete_route_below host.base_domain lab_name resource_name

    unfoldable pub fetch_container_summary : String → Step Runtime
    fetch_container_summary container_ref = do
      result ← call get_method (container_path outside host api_key container_ref) []
      let code = extract_status_code result
      return (
          if eqb_ℤ code (pos 404) || leb_ℤ (pos 400) code
          then none
          else extract_container_from_body (extract_body result))

    unfoldable pub remove_container_row_and_runtime : Lab → Container → Step (Unit {0})
    remove_container_row_and_runtime lab row = do
      remove_runtime_container outside host api_key row.container_id
      delete_ingress_route_if_possible lab.name row.name
      delete_container_row row

    abbrev pub state_path : Container → String → String
    state_path row state = format ("/containers/" ∷ row.container_id ∷ "/state/" ∷ state ∷ [])

    unfoldable pub set_state : Container → String → Step (Unit {0})
    set_state row state = do call post (state_path row state) []; return tt

    -- The runtime is brought to the state that the row asks for.
    unfoldable pub converge_container :
        Container → ContainerStatus → Option String → Step (Unit {0})
    converge_container row started status =
        if status_in status alive then return tt else set_state row "start"
    converge_container row stopped status =
        if status_in status ("running" ∷ "restarting" ∷ "paused" ∷ [])
        then set_state row "stop"
        else return tt
    converge_container row paused status =
        if status_in status ("running" ∷ []) then set_state row "pause" else return tt
    converge_container row created status = return tt

    abbrev pub converge : Container → Runtime → Step (Unit {0})
    converge row runtime = converge_container row row.status (runtime_status runtime)

    abbrev pub container_expired : Container → Session → Bool
    container_expired row s =
        ttl_expired (outside.now s.calls) row.created_at_utc row.time_to_live_seconds

    unfoldable pub reconcile_ephemeral : Lab → Container → Runtime → Step (Unit {0})
    reconcile_ephemeral lab row runtime = do
      expired ← read (container_expired row)
      (if expired then remove_container_row_and_runtime lab row else converge row runtime)

    unfoldable pub reconcile_single_use : Lab → Container → Runtime → Step (Unit {0})
    reconcile_single_use lab row none = do
      delete_container_row row
      delete_ingress_route_if_possible lab.name row.name
    reconcile_single_use lab row (some payload) =
        if completed (some payload)
        then remove_container_row_and_runtime lab row
        else converge row (some payload)

    unfoldable pub reconcile_by_lifetime :
        LifetimeType → Lab → Container → Runtime → Step (Unit {0})
    reconcile_by_lifetime session lab row runtime = return tt
    reconcile_by_lifetime ephemeral lab row runtime = reconcile_ephemeral lab row runtime
    reconcile_by_lifetime single_use lab row runtime = reconcile_single_use lab row runtime
    reconcile_by_lifetime persistent lab row runtime = converge row runtime

    unfoldable pub runtime_or_fetch : Runtime → String → Step Runtime
    runtime_or_fetch none container_ref = fetch_container_summary container_ref
    runtime_or_fetch (some payload) container_ref = return (some payload)

    -- The heartbeat's report of the container, or else the lab host's.
    abbrev pub runtime_of : Dict String (Dict String Value) → Container → Step Runtime
    runtime_of runtime_by_id row =
        runtime_or_fetch (lookup row.container_id runtime_by_id) row.container_id

    unfoldable pub reconcile_container :
        Lab → Dict String (Dict String Value) → Container → Step (Unit {0})
    reconcile_container lab runtime_by_id row = do
      runtime ← runtime_of runtime_by_id row
      reconcile_by_lifetime row.lifetime_type lab row runtime

    abbrev pub compose_path : Project → String → String
    compose_path row rest = format ("/compose/" ∷ row.project_name ∷ rest ∷ [])

    unfoldable pub remove_project_row_and_runtime : Lab → Project → Step (Unit {0})
    remove_project_row_and_runtime lab row = do
      call delete (compose_path row "") (("remove_volumes", "false") ∷ [])
      for_each (exposed_service_names row) (delete_ingress_route_if_possible lab.name)
      delete_project_row row

    unfoldable pub compose_command : Project → String → Step (Unit {0})
    compose_command row command = do call post (compose_path row command) []; return tt

    -- The answer of `ps` decides: its code and its containers.
    unfoldable pub converge_project :
        Project → ProjectDesiredState → ℤ → List (Dict String Value) → Step (Unit {0})
    converge_project row running ps_code containers =
        if eqb_ℤ ps_code (pos 404) || not (any_alive containers)
        then compose_command row "/up"
        else return tt
    converge_project row ProjectDesiredState.stopped ps_code [] = return tt
    converge_project row ProjectDesiredState.stopped ps_code (c ∷ cs) =
        if ltb_ℤ ps_code (pos 400) then compose_command row "/down" else return tt

    abbrev pub project_expired : Project → Session → Bool
    project_expired row s =
        ttl_expired (outside.now s.calls) row.created_at_utc row.time_to_live_seconds

    unfoldable pub project_by_lifetime : LifetimeType → Lab → Project → Reply → Step (Unit {0})
    project_by_lifetime session lab row ps = return tt
    project_by_lifetime ephemeral lab row ps = do
      expired ← read (project_expired row)
      (if expired
          then remove_project_row_and_runtime lab row
          else converge_project row row.desired_state (extract_status_code ps)
              (compose_containers_from_ps ps))
    project_by_lifetime single_use lab row ps =
        if all_single_use_success (compose_containers_from_ps ps)
        then remove_project_row_and_runtime lab row
        else converge_project row row.desired_state (extract_status_code ps)
            (compose_containers_from_ps ps)
    project_by_lifetime persistent lab row ps =
        converge_project row row.desired_state (extract_status_code ps)
          (compose_containers_from_ps ps)

    unfoldable pub reconcile_project : Lab → Project → Step (Unit {0})
    reconcile_project lab row = do
      ps ← call get_method (compose_path row "/ps") []
      project_by_lifetime row.lifetime_type lab row ps

    unfoldable pub reconcile_lab : Dict String (Dict String Value) → Lab → Step (Unit {0})
    reconcile_lab runtime_by_id lab = do
      container_rows ← read (containers_of lab.id)
      for_each container_rows (reconcile_container lab runtime_by_id)
      project_rows ← read (projects_of lab.id)
      for_each project_rows (reconcile_project lab)

  unfoldable pub reconcile_with_key :
      Option String → Dict String (Dict String Value) → Host → Step (Unit {0})
  reconcile_with_key none runtime_by_id host = return tt
  reconcile_with_key (some api_key) runtime_by_id host = do
    labs ← read (labs_of host.id)
    for_each labs (reconcile_lab host api_key runtime_by_id)

  abbrev pub reconcile_for_host : Dict String (Dict String Value) → Host → Step (Unit {0})
  reconcile_for_host runtime_by_id host =
      reconcile_with_key (resolve_host_api_key host) runtime_by_id host
