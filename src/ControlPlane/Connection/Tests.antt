-- ===== src/ControlPlane/Connection/Tests.antt =====
-- The connection of a lab to its host.
use docker_interface.Prelude.{[], ◌∷◌, none, some}
use docker_interface.Prelude.Int.{pos}
use docker_interface.Py.Value.{str}
use docker_interface.Py.Result.{ok}
use docker_interface.ControlPlane.Rows.{lab_running, online, Host, Lab}
use docker_interface.ControlPlane.Session.{Session, Outside}

abbrev outside : Outside
outside = record {
  answer = λ log call. ok [];
  now = λ log. pos 0;
  get_secret = λ path. ok (str "key");
}

abbrev host : Host
host = record {
  id = pos 3;
  hostname = "alpha";
  ip_address = "10.0.0.1";
  port = pos 8000;
  scheme = "http";
  api_key_secret_path = some "secret/alpha";
  status = online;
  base_domain = some "lab.example.";
  dns_zone = none;
  ingress_target = none;
  cpu_total = pos 4;
  memory_total_mb = pos 4096;
  created_at_utc = pos 0;
  last_heartbeat_utc = pos 0;
}

abbrev lab : Lab
lab = record {
  id = pos 1;
  name = "One";
  host_id = pos 3;
  status = lab_running;
  default_internal_network_id = none;
  default_external_network_id = none;
  cpu_limit = none;
  memory_limit_mb = none;
  created_at_utc = pos 0;
}

abbrev start : Session
start = record {
  hosts = host ∷ [];
  labs = lab ∷ [];
  containers = [];
  projects = [];
  networks = [];
  calls = [];
}
