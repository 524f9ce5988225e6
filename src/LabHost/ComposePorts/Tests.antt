-- ===== src/LabHost/ComposePorts/Tests.antt =====
-- A compose file of two services beside a container that publishes 8080.
use docker_interface.Prelude.{List, false, String, ◌≡◌, refl, [], ◌∷◌}
use docker_interface.Prelude.Int.{ℤ, pos}
use docker_interface.Py.Chars.{chars, to_text}
use docker_interface.Py.Dict.{Dict, string_eq, insert}
use docker_interface.Py.Value.{
  Value, Fields, int, str, list, dict, field, end, cons, nil, fields, of_fields, get,
}
use docker_interface.Py.Result.{ok}
use docker_interface.LabHost.Ports.{
  DockerContainer, PortSet, used_host_ports, next_available_host_port, assign, note_remap,
}
use docker_interface.LabHost.ShortPort.{parse_short_port_mapping, render_short_port_mapping}
use docker_interface.LabHost.ComposePorts.{
  published_port, desired_port, set_port, patch_entry, patch_ports, patch_service_ports,
  patch_service, patch_services, patch_payload, remap_compose_ports_in_payload,
}
use docker_interface.LabHost.ComposePorts.Fresh.{
  ServicesRewritten, remap_compose_ports_in_payload-ServicesRewritten,
}

abbrev attrs : Value
attrs = dict (
    field "HostConfig"
      (dict (
        field "PortBindings"
          (dict (field "80/tcp" (list (cons (dict (field "HostPort" (str "8080") end)) nil)) end))
          end))
      end)

abbrev containers : List DockerContainer
containers = record { is_running = false; attrs = attrs } ∷ []

abbrev long : ℤ → Value
long port = dict (field "target" (int (pos 80)) (field "published" (int port) end))

abbrev services : Value → Value → Value → Fields
services first second third =
    field "web" (dict (field "ports" (list (cons first (cons (str "9090") nil))) end))
      (field "api" (dict (field "ports" (list (cons second (cons third nil))) end)) end)

abbrev before : Fields
before = services (str "8080:80") (long (pos 8081)) (str "127.0.0.1:22:22")

abbrev behind : Fields
behind = services (str "8081:80") (long (pos 8082)) (str "127.0.0.1:22:22")

abbrev remap : Dict ℤ ℤ
remap = (pos 8080, pos 8081) ∷ (pos 8081, pos 8082) ∷ []

services_read : get "services" (("services", dict before) ∷ []) ≡ dict before
unfolding get
services_read = refl

remap_run :
    remap_compose_ports_in_payload containers (("services", dict before) ∷ [])
    ≡ ok (remap, ("services", dict behind) ∷ [])
unfolding remap_compose_ports_in_payload patch_payload get patch_services patch_service
    patch_service_ports patch_ports patch_entry desired_port parse_short_port_mapping assign
    used_host_ports next_available_host_port published_port note_remap insert set_port to_text
    render_short_port_mapping chars
remap_run = refl

remap_compose_ports_in_payload-ServicesRewritten_example :
    (out : Dict String Value) × (used : PortSet) × (("services", dict behind) ∷ []
      ≡ insert {K = String} {V = Value} "services"
          (dict (of_fields out))
          (("services", dict before) ∷ []))
    × ServicesRewritten (used_host_ports containers) (fields before) out used
remap_compose_ports_in_payload-ServicesRewritten_example =
    remap_compose_ports_in_payload-ServicesRewritten containers (("services", dict before) ∷ [])
      before services_read remap_run
