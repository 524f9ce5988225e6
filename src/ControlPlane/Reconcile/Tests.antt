-- ===== src/ControlPlane/Reconcile/Tests.antt =====
-- The reconciliation of one host with two containers and a project.
use docker_interface.Prelude.{String, ◌≡◌, refl, true, false, List, [], ◌∷◌, none, some}
use docker_interface.Prelude.Int.{ℤ, pos, ◌-ℤ◌}
use docker_interface.Py.Dict.{Dict, string_eq, lookup}
use docker_interface.Py.Value.{Value, str, int, null}
use docker_interface.Py.Result.{ok}
use docker_interface.ControlPlane.Rows.{
  lab_running, git, internal_private, LifetimeType, persistent, ephemeral, session, started,
  running, online, Container, Project, Host, Lab,
}
use docker_interface.ControlPlane.Session.{Call, Session, Outside}
use docker_interface.ControlPlane.Reconcile.{route_hostname, ttl_expired}
use docker_interface.ControlPlane.Reconcile.Run.{reconcile_container}
use docker_interface.ControlPlane.Reconcile.Heartbeat.{reconcile_heartbeat_payload}
use docker_interface.ControlPlane.Reconcile.Kept.{container_with, project_with}
use docker_interface.ControlPlane.Reconcile.Kept.Whole.{reconcile_heartbeat_payload-keeps}
use docker_interface.ControlPlane.Reconcile.OnlyDue.{without}
use docker_interface.ControlPlane.Reconcile.Settled.{Settled}
use docker_interface.ControlPlane.Reconcile.Removed.{reconcile_container-removes}

-- A lab host that answers every request, at noon.
abbrev outside : Outside
outside = record {
  answer = λ log call. ok (("status_code", int (pos 200)) ∷ ("body", null) ∷ []);
  now = λ log. pos 120000000;
  get_secret = λ path. ok (str "key");
}

abbrev container : ℤ → String → LifetimeType → Container
container id name lifetime = record {
  id = id;
  container_id = name;
  name = name;
  image = "nginx";
  lab_id = pos 1;
  status = started;
  cpu_limit = none;
  memory_limit_mb = none;
  lifetime_type = lifetime;
  time_to_live_seconds = some (pos 60);
  created_at_utc = pos 0;
  last_seen_utc = pos 0;
}

abbrev project : Project
project = record {
  id = pos 7;
  lab_id = pos 1;
  project_name = "shop";
  source_type = git;
  source_url = none;
  ref = none;
  compose_file = "docker-compose.yml";
  compose_content = none;
  env = none;
  pull = true;
  build = false;
  network_mode = internal_private;
  desired_state = running;
  exposed_services = null;
  lifetime_type = session;
  time_to_live_seconds = none;
  cpu_limit = none;
  memory_limit_mb = none;
  created_at_utc = pos 0;
  updated_at_utc = pos 0;
}

abbrev host : Host
host = record {
  id = pos 3;
  hostname = "alpha";
  ip_address = "10.0.0.1";
  port = pos 8000;
  scheme = "http";
  api_key_secret_path = some "secret/alpha";
  status = online;
  base_domain = some "lab.example.";
  dns_zone = none;
  ingress_target = none;
  cpu_total = pos 4;
  memory_total_mb = pos 4096;
  created_at_utc = pos 0;
  last_heartbeat_utc = pos 0;
}

abbrev lab : Lab
lab = record {
  id = pos 1;
  name = "One";
  host_id = pos 3;
  status = lab_running;
  default_internal_network_id = none;
  default_external_network_id = none;
  cpu_limit = none;
  memory_limit_mb = none;
  created_at_utc = pos 0;
}

abbrev start : Session
start = record {
  hosts = host ∷ [];
  labs = lab ∷ [];
  containers = container (pos 1) "web" ephemeral ∷ container (pos 2) "db" persistent ∷ [];
  projects = project ∷ [];
  networks = [];
  calls = [];
}

abbrev payload : Dict String Value
payload = ("host_id", str "alpha") ∷ []

abbrev report : Dict String Value
report = ("id", str "web") ∷ ("status", str "running") ∷ []

abbrev known : Dict String (Dict String Value)
known = ("web", report) ∷ []

hostname : route_hostname "Web_1." "One" "lab.example." ≡ "web_1-one.lab.example"
unfolding route_hostname
hostname = refl

reconcile_heartbeat_payload-keeps_example :
    let s' = (reconcile_heartbeat_payload outside false payload start).1 in
    (container_with (pos 2) s' ≡ container_with (pos 2) start)
    × (project_with (pos 7) s' ≡ project_with (pos 7) start)
reconcile_heartbeat_payload-keeps_example =
    reconcile_heartbeat_payload-keeps outside false payload start (pos 2) (pos 7) (refl, tt)
      (refl, tt)

looked_up : lookup "web" known ≡ some report
unfolding lookup
looked_up = refl

expired : (calls : List Call) → ttl_expired (pos 120000000) (pos 0) (some (pos 60)) ≡ true
unfolding ttl_expired ◌-ℤ◌
expired calls = refl

reconcile_container-removes_example :
    (calls : List Call) × (reconcile_container outside host "key" lab known
        (container (pos 1) "web" ephemeral)
        start
      ≡ (
        ok tt,
        record start {
          containers = without (container (pos 1) "web" ephemeral) start.containers;
          calls = calls;
        },
      ))
reconcile_container-removes_example =
    reconcile_container-removes outside (λ log call. refl) host "key" lab
      (container (pos 1) "web" ephemeral) report known start looked_up expired
