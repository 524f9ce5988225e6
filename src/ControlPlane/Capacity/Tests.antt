-- ===== src/ControlPlane/Capacity/Tests.antt =====
-- The capacity of one host with two labs.
use docker_interface.Prelude.{ℕ, ◌≡◌, refl, false, [], ◌∷◌, none, some}
use docker_interface.Prelude.Int.{ℤ, pos, ◌+ℤ◌, ◌-ℤ◌}
use docker_interface.Py.Chars.{chars}
use docker_interface.Py.Chars.Digits.{int_of}
use docker_interface.Py.Memory.{match_memory, multiplier}
use docker_interface.Py.Float.{whole}
use docker_interface.Py.Result.{ok}
use docker_interface.LabHost.Limits.{parse_memory_limit_to_bytes}
use docker_interface.ControlPlane.Rows.{
  lab_running, Container, Host, Lab, online, persistent, started,
}
use docker_interface.ControlPlane.Session.{Session}
use docker_interface.ControlPlane.Capacity.{
  is_host_unbounded, lab_memory, host_memory, Requested, above, lab_cpu, host_cpu, cpu_after,
  cpu_above, after, check_capacity, enforce_resource_capacity,
}
use docker_interface.ControlPlane.Capacity.Admitted.{
  insert_container, enforce_resource_capacity-above,
}
use docker_interface.ControlPlane.Capacity.MemoryLimit.{
  Rounded, whole_mb, megabytes, matched_megabytes, parse_memory_limit_to_mb,
  parse_memory_limit_to_mb-Rounded,
}

abbrev container : ℤ → ℤ → ℤ → Container
container id lab_id memory = record {
  id = id;
  container_id = "c";
  name = "c";
  image = "nginx";
  lab_id = lab_id;
  status = started;
  cpu_limit = none;
  memory_limit_mb = some memory;
  lifetime_type = persistent;
  time_to_live_seconds = none;
  created_at_utc = pos 0;
  last_seen_utc = pos 0;
}

abbrev host : Host
host = record {
  id = pos 3;
  hostname = "alpha";
  ip_address = "10.0.0.1";
  port = pos 8000;
  scheme = "http";
  api_key_secret_path = none;
  status = online;
  base_domain = none;
  dns_zone = none;
  ingress_target = none;
  cpu_total = pos 4;
  memory_total_mb = pos 2048;
  created_at_utc = pos 0;
  last_heartbeat_utc = pos 0;
}

abbrev lab : ℤ → Lab
lab id = record {
  id = id;
  name = "One";
  host_id = pos 3;
  status = lab_running;
  default_internal_network_id = none;
  default_external_network_id = none;
  cpu_limit = none;
  memory_limit_mb = some (pos 1024);
  created_at_utc = pos 0;
}

abbrev start : Session
start = record {
  hosts = host ∷ [];
  labs = lab (pos 1) ∷ lab (pos 2) ∷ [];
  containers = container (pos 1) (pos 1) (pos 512) ∷ container (pos 2) (pos 2) (pos 1024) ∷ [];
  projects = [];
  networks = [];
  calls = [];
}

abbrev request : Requested whole.F
request = record {
  cpu = none;
  memory_mb = some (pos 512);
  existing_cpu = none;
  existing_memory_mb = none;
  resource_kind = "container";
}

abbrev new_row : Container
new_row = container (pos 9) (pos 1) (pos 512)

bounded : is_host_unbounded host ≡ false
unfolding is_host_unbounded
bounded = refl

admitted : enforce_resource_capacity whole (lab (pos 1)) host request start ≡ ok tt
unfolding enforce_resource_capacity is_host_unbounded check_capacity lab_cpu lab_memory host_cpu
    host_memory cpu_after cpu_above after above ◌+ℤ◌ ◌-ℤ◌
admitted = refl

enforce_resource_capacity-above_example :
    let s' = insert_container new_row start in
    (above (some (pos 1024)) (lab_memory (pos 1) s') ≡ false)
    × (above (some (pos 2048)) (host_memory (pos 3) s') ≡ false)
enforce_resource_capacity-above_example =
    enforce_resource_capacity-above whole (lab (pos 1)) host request start new_row bounded refl refl
      refl refl admitted

two_and_a_half : parse_memory_limit_to_mb whole (some (chars "2560 Kb")) ≡ ok (some 2)
unfolding parse_memory_limit_to_mb matched_megabytes megabytes whole_mb match_memory multiplier
    chars int_of
two_and_a_half = refl

parse_memory_limit_to_mb-Rounded_example :
    (k : ℕ) × (parse_memory_limit_to_bytes whole (chars "2560 Kb") ≡ ok k) × Rounded 2 k
parse_memory_limit_to_mb-Rounded_example =
    parse_memory_limit_to_mb-Rounded whole (chars "2560 Kb") two_and_a_half
