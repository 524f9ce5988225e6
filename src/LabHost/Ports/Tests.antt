-- ===== src/LabHost/Ports/Tests.antt =====
-- The ports of lab_host/docker_interface.py on two containers.
use docker_interface.Prelude.{Bool, true, false, Elem, ◌↔◌, ◌≡◌, refl, List, [], ◌∷◌, All, some}
use docker_interface.Prelude.Int.{ℤ, pos}
use docker_interface.Py.Dict.{string_eq, int_eq, elem, insert}
use docker_interface.Py.Value.{Value, str, list, dict, field, end, cons, nil, null}
use docker_interface.Py.Result.{ok, err}
use docker_interface.LabHost.Ports.{
  DockerContainer, PortMapping, used_host_ports, next_available_host_port,
  remap_requested_ports_if_needed, no_port_available, remap_loop, assign, note_remap,
}
use docker_interface.LabHost.Ports.Used.{Publishes, elem-used_host_ports}
use docker_interface.LabHost.Ports.Next.{Outcome, next_available-first_free}
use docker_interface.LabHost.Ports.Remap.{InRange}
use docker_interface.LabHost.Ports.Remap.Fresh.{
  Fresh, SameTargets, hosts, remap-Fresh, remap_unchanged, remap_silent,
}

abbrev binding : Value → Value
binding port = dict (field "HostIp" (str "") (field "HostPort" port end))

abbrev container : Bool → Value → DockerContainer
container is_running bindings = record {
  is_running = is_running;
  attrs = dict (field "HostConfig" (dict (field "PortBindings" bindings end)) end);
}

-- One container, which does not run, publishes 8080 and 8081; one has a binding without a port; one has none.
abbrev containers : List DockerContainer
containers =
    container false (
      dict (
        field "80/tcp" (list (cons (binding (str "8080")) nil))
          (field "81/tcp" (list (cons (binding (str "8081")) nil)) end)))
    ∷ container true (dict (field "80/tcp" (list (cons (binding (str "")) nil)) end))
    ∷ container true null
    ∷ []

abbrev mapping : ℤ → ℤ → PortMapping
mapping host container = record { host = host; container = container; protocol = "tcp" }

abbrev requested : List PortMapping
requested =
    mapping (pos 8080) (pos 80) ∷ mapping (pos 8082) (pos 81) ∷ mapping (pos 22) (pos 22) ∷ []

abbrev remapped : List PortMapping
remapped =
    mapping (pos 8082) (pos 80) ∷ mapping (pos 8083) (pos 81) ∷ mapping (pos 22) (pos 22) ∷ []

abbrev free : List PortMapping
free = mapping (pos 9000) (pos 80) ∷ mapping (pos 22) (pos 22) ∷ []

used_two : used_host_ports containers ≡ pos 8081 ∷ pos 8080 ∷ []
unfolding used_host_ports
used_two = refl

remap_run :
    remap_requested_ports_if_needed containers (some requested)
    ≡ ok (some remapped, (pos 8080, pos 8082) ∷ (pos 8082, pos 8083) ∷ [])
unfolding remap_requested_ports_if_needed used_host_ports next_available_host_port remap_loop assign
    note_remap insert
remap_run = refl

silent_run : remap_requested_ports_if_needed containers (some free) ≡ ok (some free, [])
unfolding remap_requested_ports_if_needed used_host_ports next_available_host_port remap_loop assign
    note_remap
silent_run = refl

no_port : next_available_host_port (pos 65535) (pos 65535 ∷ []) ≡ err no_port_available
unfolding next_available_host_port
no_port = refl

elem-used_host_ports_example :
    elem (pos 8081) (used_host_ports containers) ≡ true
    ↔ ((c : DockerContainer) × Elem c containers × Publishes (pos 8081) c.attrs)
elem-used_host_ports_example = elem-used_host_ports (pos 8081) containers

next_available-first_free_example :
    Outcome
      (pos 8080)
      (pos 8080 ∷ pos 8081 ∷ [])
      (next_available_host_port (pos 8080) (pos 8080 ∷ pos 8081 ∷ []))
next_available-first_free_example = next_available-first_free (pos 8080) (pos 8080 ∷ pos 8081 ∷ [])

remap-Fresh_example :
    Fresh (used_host_ports containers) (hosts remapped)
    × SameTargets requested remapped
    × (All InRange (hosts requested) → All InRange (hosts remapped))
remap-Fresh_example = remap-Fresh containers requested remapped remap_run

free_ports : Fresh (used_host_ports containers) (hosts free)
unfolding used_host_ports
free_ports = (refl, (refl, tt))

remap_unchanged_example :
    remap_requested_ports_if_needed containers (some free) ≡ ok (some free, [])
remap_unchanged_example = remap_unchanged containers free free_ports

remap_silent_example : free ≡ free
remap_silent_example = remap_silent containers free free silent_run
