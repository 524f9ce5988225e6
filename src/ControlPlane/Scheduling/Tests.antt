-- ===== src/ControlPlane/Scheduling/Tests.antt =====
-- Scheduling on one host with two labs, of which one is full.
use docker_interface.Prelude.{ℕ, ◌≡◌, ◌≢◌, ◌⊎◌, refl, false, [], ◌∷◌, none, some, Elem}
use docker_interface.Prelude.Int.{ℤ, pos, ◌+ℤ◌, ◌-ℤ◌}
use docker_interface.Py.Float.{whole, whole-IsOrdered}
use docker_interface.Py.Result.{ok, err}
use docker_interface.ControlPlane.Rows.{
  lab_running, Container, Host, Lab, online, persistent, started,
}
use docker_interface.ControlPlane.Session.{HttpError, Session}
use docker_interface.ControlPlane.Capacity.{
  is_host_unbounded, lab_memory, host_memory, above, lab_cpu, host_cpu, cpu_after, cpu_above, after,
  check_capacity, enforce_resource_capacity, lab_memory_conflict,
}
use docker_interface.ControlPlane.Scheduling.{
  first_fit, least_allocated, select_target_lab, consider_lab, lab_before, lab_candidate,
  select_target_host_for_lab, refusal, lab_load_score, host_load_score,
}
use docker_interface.ControlPlane.Scheduling.Eligible.{MayTake}
use docker_interface.ControlPlane.Scheduling.Best.{select_target_lab-least, select_target_lab-none}
use docker_interface.ControlPlane.Scheduling.BestHost.{
  MayHost, NotBetter, select_target_host_for_lab-least,
}

abbrev container : ℤ → ℤ → ℤ → Container
container id lab_id memory = record {
  id = id;
  container_id = "c";
  name = "c";
  image = "nginx";
  lab_id = lab_id;
  status = started;
  cpu_limit = none;
  memory_limit_mb = some memory;
  lifetime_type = persistent;
  time_to_live_seconds = none;
  created_at_utc = pos 0;
  last_seen_utc = pos 0;
}

abbrev host : Host
host = record {
  id = pos 3;
  hostname = "alpha";
  ip_address = "10.0.0.1";
  port = pos 8000;
  scheme = "http";
  api_key_secret_path = some "lab-hosts/10.0.0.1/agent-api-key";
  status = online;
  base_domain = none;
  dns_zone = none;
  ingress_target = none;
  cpu_total = pos 4;
  memory_total_mb = pos 2048;
  created_at_utc = pos 0;
  last_heartbeat_utc = pos 0;
}

abbrev lab : ℤ → Lab
lab id = record {
  id = id;
  name = "One";
  host_id = pos 3;
  status = lab_running;
  default_internal_network_id = none;
  default_external_network_id = none;
  cpu_limit = none;
  memory_limit_mb = some (pos 1024);
  created_at_utc = pos 0;
}

abbrev start : Session
start = record {
  hosts = host ∷ [];
  labs = lab (pos 1) ∷ lab (pos 2) ∷ [];
  containers = container (pos 1) (pos 1) (pos 512) ∷ container (pos 2) (pos 2) (pos 1024) ∷ [];
  projects = [];
  networks = [];
  calls = [];
}

abbrev full : Session
full = record start {
  containers = container (pos 1) (pos 1) (pos 1024) ∷ container (pos 2) (pos 2) (pos 1024) ∷ [];
}

selected :
    select_target_lab whole none (some (pos 512)) least_allocated start ≡ ok (lab (pos 1), host)
unfolding select_target_lab consider_lab enforce_resource_capacity is_host_unbounded check_capacity
    lab_cpu lab_memory host_cpu host_memory cpu_after cpu_above after above ◌+ℤ◌ ◌-ℤ◌ lab_load_score
    lab_memory_conflict
selected = refl

none_left :
    select_target_lab whole none (some (pos 512)) first_fit full
    ≡ err (refusal 409 "No eligible lab has enough capacity for this deployment")
unfolding select_target_lab consider_lab enforce_resource_capacity is_host_unbounded check_capacity
    lab_cpu lab_memory host_cpu host_memory cpu_after cpu_above after above ◌+ℤ◌ ◌-ℤ◌ lab_load_score
    lab_memory_conflict
none_left = refl

select_target_lab-least_example :
    Elem (lab (pos 1)) start.labs
    × MayTake whole none (some (pos 512)) start (lab (pos 1)) host
    × ((other : Lab) (its_host : Host)
        → Elem other start.labs
        → MayTake whole none (some (pos 512)) start other its_host
        → lab_before whole least_allocated
            (lab_candidate whole none (some (pos 512)) other its_host start)
            (lab_candidate whole none (some (pos 512)) (lab (pos 1)) host start)
          ≡ false)
select_target_lab-least_example =
    select_target_lab-least whole none (some (pos 512)) start whole-IsOrdered least_allocated
      (lab (pos 1)) host selected

select_target_lab-none_example :
    ((l : Lab) (h : Host) → Elem l full.labs → ¬ MayTake whole none (some (pos 512)) full l h)
    × (((full.labs ≡ []) × (◌≡◌ {A = ℕ} 409 404)) ⊎ ((full.labs ≢ []) × (◌≡◌ {A = ℕ} 409 409)))
select_target_lab-none_example =
    select_target_lab-none whole none (some (pos 512)) full first_fit
      (refusal 409 "No eligible lab has enough capacity for this deployment") none_left

chosen_host : select_target_host_for_lab whole none (some (pos 512)) least_allocated start ≡ ok host
unfolding select_target_host_for_lab host_load_score is_host_unbounded lab_cpu lab_memory host_cpu
    host_memory ◌+ℤ◌
chosen_host = refl

select_target_host_for_lab-least_example :
    ((h : Host)
      → select_target_host_for_lab whole none (some (pos 512)) least_allocated start ≡ ok h
      → Elem h start.hosts
        × MayHost whole none (some (pos 512)) start h
        × ((other : Host)
            → Elem other start.hosts
            → MayHost whole none (some (pos 512)) start other
            → NotBetter whole none (some (pos 512)) start least_allocated other h))
    × ((e : HttpError)
        → select_target_host_for_lab whole none (some (pos 512)) least_allocated start ≡ err e
        → ((h : Host) → Elem h start.hosts → MayHost whole none (some (pos 512)) start h → ⊥)
          × (e.status_code ≡ 409))
select_target_host_for_lab-least_example =
    select_target_host_for_lab-least whole none (some (pos 512)) start whole-IsOrdered
      least_allocated
