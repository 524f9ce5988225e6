-- ===== src/LabHost/Containers/Tests.antt =====
-- A daemon on which another program takes the first port that is asked for.
use docker_interface.Prelude.{
  ◌≤◌, String, ◌≡◌, refl, true, List, [], ◌∷◌, ◌++◌, All, none, some, get_or,
}
use docker_interface.Prelude.Int.{pos}
use docker_interface.Py.Chars.{chars, to_text, lower}
use docker_interface.Py.Chars.Digits.{str_ℤ}
use docker_interface.Py.Dict.{string_eq, lookup, insert}
use docker_interface.Py.Value.{Value, str, list, dict, field, end, cons, nil, null}
use docker_interface.Py.Result.{Result, ok, err}
use docker_interface.LabHost.Errors.{DockerError, api_error, docker}
use docker_interface.LabHost.Ports.{
  DockerContainer, PortMapping, used_host_ports, next_available_host_port,
  remap_requested_ports_if_needed, remap_loop, assign, note_remap,
}
use docker_interface.LabHost.Containers.{
  ContainerArgs, RunKwargs, build_ports, build_container_kwargs,
}
use docker_interface.LabHost.Containers.Create.{
  Event, ran, Daemon, says_allocated, create_container,
}
use docker_interface.LabHost.Containers.Runs.{IsExpected, runs, IsAttempt, IsRuns}
use docker_interface.LabHost.Containers.Quiet.{IsConnection}
use docker_interface.LabHost.Containers.Created.{
  create_container-bounded, create_container-started, create_container-raises,
}
use docker_interface.LabHost.Containers.Published.{build_ports-last}

abbrev busy : Value
busy = dict (
    field "HostConfig"
      (dict (
        field "PortBindings"
          (dict (field "80/tcp" (list (cons (dict (field "HostPort" (str "8080") end)) nil)) end))
          end))
      end)

-- After the first run the port is published by a container.
abbrev containers_after : List Event → List DockerContainer
containers_after [] = []
containers_after (_ ∷ _) = record { is_running = true; attrs = busy } ∷ []

abbrev run_after : List Event → RunKwargs → Result DockerError String
run_after [] kwargs = err (api_error "Bind failed: Port is already allocated")
run_after (_ ∷ _) kwargs = ok "c1"

abbrev daemon : Daemon
daemon = record {
  containers = containers_after;
  run = run_after;
  reload = λ es c. ok null;
  get_network = λ es n. ok tt;
  connect = λ es n c a. ok tt;
}

abbrev requested : List PortMapping
requested = record { host = pos 8080; container = pos 80; protocol = "tcp" } ∷ []

abbrev args : ContainerArgs
args = record {
  image = "nginx";
  name = "web";
  command = none;
  env = none;
  ports = some requested;
  resources = none;
  security = none;
  network = none;
  storage = none;
  labels = none;
  restart_policy = none;
}

created : (create_container daemon args []).0 ≡ ok "c1"
unfolding create_container remap_requested_ports_if_needed used_host_ports next_available_host_port
    remap_loop assign note_remap insert says_allocated chars lower lookup
created = refl

create_container-bounded_example :
    let events = (create_container daemon args []).1 in
    (runs events ≤ 5) × IsRuns daemon args [] events
create_container-bounded_example = create_container-bounded daemon args

create_container-started_example :
    (before : List Event) × (effective : ContainerArgs) × (behind : List Event) × IsAttempt daemon
      args before effective
    × (daemon.run before (build_container_kwargs effective) ≡ ok "c1")
    × ((create_container daemon args []).1
        ≡ (before ++ ran (build_container_kwargs effective) ∷ []) ++ behind)
    × All IsConnection behind
create_container-started_example = create_container-started daemon args "c1" created

-- On a daemon that refuses every run with a collision the fifth exception is raised.
abbrev refusing : Daemon
refusing = record daemon { run = λ es kwargs. err (api_error "Port is already allocated") }

refused :
    (create_container refusing args []).0 ≡ err (docker (api_error "Port is already allocated"))
unfolding create_container remap_requested_ports_if_needed used_host_ports next_available_host_port
    remap_loop assign note_remap insert says_allocated chars lower lookup
refused = refl

create_container-raises_example : IsExpected (docker (api_error "Port is already allocated"))
create_container-raises_example = create_container-raises refusing args _ refused

-- Two mappings for one port, and one for the same number with another protocol.
abbrev three : List PortMapping
three =
    record { host = pos 8080; container = pos 80; protocol = "tcp" }
    ∷ record { host = pos 8081; container = pos 80; protocol = "tcp" }
    ∷ record { host = pos 8082; container = pos 80; protocol = "udp" }
    ∷ []

build_ports-last_example : lookup "80/tcp" (get_or (build_ports (some three)) []) ≡ some (pos 8081)
unfolding str_ℤ to_text chars
build_ports-last_example = build_ports-last (some three) (pos 80) "tcp"
