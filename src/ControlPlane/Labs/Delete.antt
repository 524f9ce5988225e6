-- ===== src/ControlPlane/Labs/Delete.antt =====
-- `delete_lab` of control_plane/controller.py.
use docker_interface.Prelude.{
  String, Bool, not, ◌&&◌, ◌||◌, List, [], ◌∷◌, Option, none, some, str_eq, if◌then◌else◌,
}
use docker_interface.Prelude.Int.{ℤ, pos, leb_ℤ, eqb_ℤ}
use docker_interface.Py.Value.{Value}
use docker_interface.Py.Result.{Result, ok, err, format}
use docker_interface.ControlPlane.Rows.{Container, Project, Network, Host, Lab}
use docker_interface.ControlPlane.Session.{
  HttpError, Method, post, delete, Outside, Step, ◌>>=◌, ◌>>◌, return, read, for_each,
  containers_of, projects_of, exposed_service_names,
}
use docker_interface.ControlPlane.Helpers.{
  Reply, extract_status_code, extract_body, call_lab_host, raise_for_lab_host_error,
  remove_runtime_container,
}
use docker_interface.ControlPlane.Connection.{resolve_lab_host_connection}
use docker_interface.ControlPlane.Reconcile.{route_hostname}
use docker_interface.ControlPlane.Scheduling.{refusal}
use docker_interface.ControlPlane.Labs.{
  lab_by_name, networks_of, delete_projects, delete_containers, delete_networks, delete_lab_row,
  write, check, key_text,
}

-- A resource that was removed from the host, or that was not.
pub record Failure : Type 0 where
  pub name : String
  pub id : String
  pub status_code : ℤ
  pub body : Value

pub data Removal : Type 0 where
  removed : String → Removal
  failed : Failure → Removal

abbrev pub removed_names : List Removal → List String
removed_names [] = []
removed_names (removed name ∷ rs) = name ∷ removed_names rs
removed_names (failed f ∷ rs) = removed_names rs

abbrev pub failures : List Removal → List Failure
failures [] = []
failures (removed name ∷ rs) = failures rs
failures (failed f ∷ rs) = f ∷ failures rs

pub record DeletedLab : Type 0 where
  pub lab_name : String
  pub removed_projects : List String
  pub failed_projects : List Failure
  pub removed_containers : List String
  pub failed_containers : List Failure
  pub removed_networks : List String
  pub failed_networks : List Failure
  pub volumes_prune : Reply

-- A loop that collects what its rounds give.
abbrev pub collect : {A B : Type 0} → List A → (A → Step B) → Step (List B)
collect [] f = return []
collect (x ∷ xs) f = f x >>= λ b. collect xs f >>= λ bs. return (b ∷ bs)

-- `code >= 400 and code != 404`
abbrev pub is_refused : Reply → Bool
is_refused result =
    leb_ℤ (pos 400) (extract_status_code result)
    && not (eqb_ℤ (extract_status_code result) (pos 404))

abbrev pub failure_for : String → String → Reply → Removal
failure_for name id result = failed (record {
  name = name;
  id = id;
  status_code = extract_status_code result;
  body = extract_body result;
})

abbrev pub report : String → List Removal → List Removal → List Removal → Reply → DeletedLab
report lab_name projects containers networks volumes_prune = record {
  lab_name = lab_name;
  removed_projects = removed_names projects;
  failed_projects = failures projects;
  removed_containers = removed_names containers;
  failed_containers = failures containers;
  removed_networks = removed_names networks;
  failed_networks = failures networks;
  volumes_prune = volumes_prune;
}

abbrev pub named_lab : String → Option Lab → Result HttpError Lab
named_lab lab_name none = err (refusal 404 (format ("Lab not found: " ∷ lab_name ∷ [])))
named_lab lab_name (some lab) = ok lab

module _ (outside : Outside) where
  module _ (host : Host) (api_key : String) (lab : Lab) where
    abbrev pub call : Method → String → List (String × String) → Step Reply
    call method endpoint_path query = call_lab_host outside host api_key method endpoint_path query

    -- `code not in {200, 202, 204, 404}`
    abbrev pub is_expected : Reply → Bool
    is_expected result =
        let code = extract_status_code result in
        eqb_ℤ code (pos 200) || eqb_ℤ code (pos 202) || eqb_ℤ code (pos 204) || eqb_ℤ code (pos 404)

    abbrev pub delete_route_of : String → Step (Unit {0})
    delete_route_of fqdn = call delete (format ("/ingress/routes/" ∷ fqdn ∷ [])) [] >>= λ result.
        if is_expected result
        then return tt
        else raise_for_lab_host_error result (format ("delete ingress route '" ∷ fqdn ∷ "'" ∷ []))
            none

    abbrev pub delete_route_below_domain : Option String → String → Step (Unit {0})
    delete_route_below_domain none resource_name = return tt
    delete_route_below_domain (some domain) resource_name =
        if str_eq domain ""
        then return tt
        else delete_route_of (route_hostname resource_name lab.name domain)

    -- `_delete_ingress_route_if_possible` of the controller.
    abbrev pub delete_ingress_route : String → Step (Unit {0})
    delete_ingress_route resource_name = delete_route_below_domain host.base_domain resource_name

    abbrev pub remove_project : Project → Step Removal
    remove_project row =
        call delete (format ("/compose/" ∷ row.project_name ∷ [])) (("remove_volumes", "true") ∷ [])
        >>= λ result.
            if is_refused result
            then return (failure_for row.project_name row.project_name result)
            else (for_each (exposed_service_names row) delete_ingress_route
                >> return (removed row.project_name))

    abbrev pub remove_container : Container → Step Removal
    remove_container row =
        remove_runtime_container outside host api_key row.container_id >>= λ operation_result.
        if is_refused operation_result.1
        then return (failure_for row.name row.container_id operation_result.1)
        else (delete_ingress_route row.name >> return (removed row.name))

    abbrev pub remove_network : Network → Step Removal
    remove_network row = call delete (format ("/networks/" ∷ row.network_id ∷ [])) [] >>= λ result.
        if is_refused result
        then return (failure_for row.name row.network_id result)
        else return (removed row.name)

    -- The rows of a lab are removed, whatever its host has refused.
    abbrev pub delete_rows : Step (Unit {0})
    delete_rows =
        write (delete_projects lab.id)
        >> (write (delete_containers lab.id)
            >> (write (delete_networks lab.id) >> write (delete_lab_row lab.id)))

    abbrev pub remove_lab : String → Step DeletedLab
    remove_lab lab_name =
        (read (projects_of lab.id) >>= λ rows. collect rows remove_project) >>= λ projects.
        (read (containers_of lab.id) >>= λ rows. collect rows remove_container) >>= λ containers.
        (read (networks_of lab.id) >>= λ rows. collect rows remove_network) >>= λ networks.
        call post "/volumes/prune" [] >>= λ volumes_prune.
        delete_rows >> return (report lab_name projects containers networks volumes_prune)

  unfoldable pub delete_lab : String → Step DeletedLab
  delete_lab lab_name = check (λ s. named_lab lab_name (lab_by_name lab_name s)) >>= λ lab.
      check (resolve_lab_host_connection outside lab) >>= λ connection.
      remove_lab connection.0 (key_text connection.1) lab lab_name
