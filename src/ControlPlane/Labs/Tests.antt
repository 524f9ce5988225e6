-- ===== src/ControlPlane/Labs/Tests.antt =====
-- A lab that is created on a host, and one that is removed.
use docker_interface.Prelude.{String, ◌≡◌, refl, Bool, true, false, List, [], ◌∷◌, none, some}
use docker_interface.Prelude.Int.{ℤ, pos, ◌+ℤ◌, ◌-ℤ◌}
use docker_interface.Py.Chars.{chars, to_text, strip, lower}
use docker_interface.Py.Chars.Digits.{str_ℤ}
use docker_interface.Py.Dict.{Dict, string_eq, lookup}
use docker_interface.Py.Float.{whole}
use docker_interface.Py.Value.{Value, str, int, dict, of_fields, get, lower_text}
use docker_interface.Py.Result.{Result, ok, err}
use docker_interface.ControlPlane.Rows.{
  lab_running, Container, Host, Lab, online, persistent, started, lab_stopped,
}
use docker_interface.ControlPlane.Session.{http_error, HttpError, Session, Outside}
use docker_interface.ControlPlane.Helpers.{
  extract_status_code, extract_body, call_lab_host, call_lab_host_with, raise_for_lab_host_error,
  remove_runtime_container,
}
use docker_interface.ControlPlane.Capacity.{
  is_host_unbounded, host_memory, host_cpu, lab_memory, lab_cpu, cpu_above, above,
}
use docker_interface.ControlPlane.Connection.{
  path_or_400, fetched, host_or_404, resolve_lab_host_connection,
}
use docker_interface.ControlPlane.Reconcile.{safe_slug}
use docker_interface.ControlPlane.Scheduling.{effective_limits_for_host}
use docker_interface.ControlPlane.Labs.{lab_by_name, delete_lab_row, extract_network_from_result}
use docker_interface.ControlPlane.Labs.Create.{
  CreateLabRequest, CreatedLab, create_lab_on_host, create_lab,
}
use docker_interface.ControlPlane.Labs.Delete.{DeletedLab, delete_lab}
use docker_interface.ControlPlane.Labs.Steps.{SameRows}
use docker_interface.ControlPlane.Labs.Undone.{IsUnused}
use docker_interface.ControlPlane.Labs.Whole.{CreatedFor, create_lab-rows}
use docker_interface.ControlPlane.Labs.Deleted.{delete_lab-rows}

abbrev container : ℤ → ℤ → ℤ → Container
container id lab_id memory = record {
  id = id;
  container_id = "c";
  name = "c";
  image = "nginx";
  lab_id = lab_id;
  status = started;
  cpu_limit = none;
  memory_limit_mb = some memory;
  lifetime_type = persistent;
  time_to_live_seconds = none;
  created_at_utc = pos 0;
  last_seen_utc = pos 0;
}

abbrev host : Host
host = record {
  id = pos 3;
  hostname = "alpha";
  ip_address = "10.0.0.1";
  port = pos 8000;
  scheme = "http";
  api_key_secret_path = some "lab-hosts/10.0.0.1/agent-api-key";
  status = online;
  base_domain = none;
  dns_zone = none;
  ingress_target = none;
  cpu_total = pos 4;
  memory_total_mb = pos 2048;
  created_at_utc = pos 0;
  last_heartbeat_utc = pos 0;
}

abbrev lab : ℤ → Lab
lab id = record {
  id = id;
  name = "One";
  host_id = pos 3;
  status = lab_running;
  default_internal_network_id = none;
  default_external_network_id = none;
  cpu_limit = none;
  memory_limit_mb = some (pos 1024);
  created_at_utc = pos 0;
}

abbrev start : Session
start = record {
  hosts = host ∷ [];
  labs = lab (pos 1) ∷ [];
  containers = container (pos 1) (pos 1) (pos 512) ∷ [];
  projects = [];
  networks = [];
  calls = [];
}

-- Every request is answered with a network.
abbrev answer : Dict String Value
answer =
    ("status_code", int (pos 200))
    ∷ (
      "body",
      dict (
          of_fields (
            (
              "network",
              dict (
                  of_fields
                    (("id", str "n1") ∷ ("name", str "net") ∷ ("driver", str "bridge") ∷ [])),
            )
            ∷ [])),
    )
    ∷ []

abbrev outside : Outside
outside = record {
  answer = λ calls c. ok answer;
  now = λ calls. pos 7;
  get_secret = λ path. ok (str "key");
}

-- The second network cannot be created.
abbrev refusing : Outside
refusing = record {
  answer = λ calls c. elim calls [
    | [] ↦ ok answer
    | _ ∷ rest ↦ elim rest [ [] ↦ ok answer | _ ∷ _ ↦ err (http_error "refused") ]
  ];
  now = λ calls. pos 7;
  get_secret = λ path. ok (str "key");
}

abbrev new_id : List ℤ → ℤ
new_id ids = pos 9

abbrev payload : CreateLabRequest
payload = record {
  name = "Two";
  host_id = pos 3;
  cpu_limit = none;
  memory_limit_mb = some (pos 64);
  status = lab_stopped;
}

unused : IsUnused (pos 9) start
unused = record { labs = refl; containers = refl; projects = refl; networks = refl }

create_lab-rows_example :
    let after = create_lab whole new_id refusing payload start in
    ((e : HttpError) → after.0 ≡ err e → SameRows start after.1)
    × ((r : CreatedLab)
        → after.0 ≡ ok r
        → CreatedFor whole new_id refusing start unused payload r after.1)
create_lab-rows_example = create_lab-rows whole new_id refusing start unused payload

delete_lab-rows_example :
    ((e : HttpError)
      → (delete_lab outside "One" start).0 ≡ err e
      → SameRows start (delete_lab outside "One" start).1)
    × ((d : DeletedLab)
        → (delete_lab outside "One" start).0 ≡ ok d
        → (l : Lab) × (lab_by_name "One" start ≡ some l)
          × SameRows (delete_lab_row l.id start) (delete_lab outside "One" start).1)
delete_lab-rows_example = delete_lab-rows outside "One" start

abbrev is_ok : {A : Type 0} → Result HttpError A → Bool
is_ok (ok a) = true
is_ok (err e) = false

created : is_ok (create_lab whole new_id outside payload start).0 ≡ true
unfolding create_lab create_lab_on_host effective_limits_for_host is_host_unbounded host_memory
    host_cpu lab_memory lab_cpu path_or_400 fetched call_lab_host call_lab_host_with
    raise_for_lab_host_error extract_status_code extract_body get lookup safe_slug
    extract_network_from_result lower_text lower chars to_text strip str_ℤ ◌+ℤ◌ ◌-ℤ◌ cpu_above above
created = refl

refused : (create_lab whole new_id refusing payload start).1.labs ≡ start.labs
unfolding create_lab create_lab_on_host effective_limits_for_host is_host_unbounded host_memory
    host_cpu lab_memory lab_cpu path_or_400 fetched call_lab_host call_lab_host_with
    raise_for_lab_host_error extract_status_code extract_body get lookup safe_slug
    extract_network_from_result lower_text lower chars to_text strip str_ℤ ◌+ℤ◌ ◌-ℤ◌ cpu_above above
refused = refl

deleted : (delete_lab outside "One" start).1.labs ≡ []
unfolding delete_lab resolve_lab_host_connection host_or_404 path_or_400 fetched call_lab_host
    raise_for_lab_host_error extract_status_code extract_body get lookup remove_runtime_container
deleted = refl
