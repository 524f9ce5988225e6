-- ===== src/LabHost/ComposePorts.antt =====
-- The remapping of the ports of a compose file (`_remap_compose_ports_in_payload` and
-- `_remap_compose_ports_if_needed` of lab_host/docker_interface.py).
mod Tests
pub mod Fresh
use docker_interface.Prelude.{
  ℕ, String, ◌≡◌, refl, Bool, true, false, List, [], ◌∷◌, ◌++◌, Option, none, some, if◌then◌else◌,
}
use docker_interface.Prelude.Int.{ℤ, pos, eqb_ℤ}
use docker_interface.Py.Chars.{chars, to_text}
use docker_interface.Py.Dict.{Dict, string_eq, int_eq, insert}
use docker_interface.Py.Value.{
  Value, bool, int, str, list, dict, Items, items, of_items, fields, of_fields, as_dict, get,
}
use docker_interface.Py.Result.{Result, ok, err, ◌>>=◌}
use docker_interface.LabHost.Errors.{Try}
use docker_interface.LabHost.Ports.{
  DockerContainer, PortSet, used_host_ports, digits_value, assign, note_remap,
}
use docker_interface.LabHost.ShortPort.{
  ShortPort, parse_short_port_mapping, render_short_port_mapping,
}

-- The host port of `published`: an integer, or a text of digits.
unfoldable pub published_port : Value → Option ℤ
published_port (int n) = some n
published_port (bool true) = some (pos 1)
published_port (bool false) = some (pos 0)
published_port (str s) = elim (digits_value (str s)) [ none ↦ none | some n ↦ some (pos n) ]
published_port _ = none

abbrev short_port : Option ShortPort → Option ℤ
short_port none = none
short_port (some m) = some m.host

-- The host port that an entry asks for; an entry without one is left alone.
unfoldable pub desired_port : Value → Option ℤ
desired_port (str s) = short_port (parse_short_port_mapping (chars s))
desired_port (dict fs) = published_port (get "published" (fields fs))
desired_port _ = none

abbrev rendered : Value → Option ShortPort → ℤ → Value
rendered entry none a = entry
rendered entry (some m) a = str (to_text (render_short_port_mapping (record m { host = a })))

-- `patched["published"] = assigned_host_port`; a Boolean that is not remapped stays one.
abbrev published : Value → ℤ → Value
published (bool true) a = if eqb_ℤ a (pos 1) then bool true else int a
published (bool false) a = if eqb_ℤ a (pos 0) then bool false else int a
published _ a = int a

unfoldable pub set_port : Value → ℤ → Value
set_port (str s) a = rendered (str s) (parse_short_port_mapping (chars s)) a
set_port (dict fs) a =
    dict (of_fields (insert "published" (published (get "published" (fields fs)) a) (fields fs)))
set_port v a = v

-- `used_ports` and `remap`.
pub record Ports : Type 0 where
  pub used : PortSet
  pub remap : Dict ℤ ℤ

-- The two branches of the source differ in how they read and write the port.
unfoldable pub patch_entry : Option ℤ → Value → Ports → Try (Value × Ports)
patch_entry none entry st = ok (entry, st)
patch_entry (some desired) entry st = do
  a ← assign st.used desired
  ok (set_port entry a, record { used = a ∷ st.used; remap = note_remap desired a st.remap })

-- The loop over `ports_obj`.
unfoldable pub patch_ports : List Value → Ports → Try (List Value × Ports)
patch_ports [] st = ok ([], st)
patch_ports (entry ∷ rest) st = do
  (entry', st') ← patch_entry (desired_port entry) entry st
  (rest', st'') ← patch_ports rest st'
  ok (entry' ∷ rest', st'')

abbrev pub with_ports : Dict String Value → List Value → Value
with_ports service ports = dict (of_fields (insert "ports" (list (of_items ports)) service))

unfoldable pub patch_service_ports : Dict String Value → Value → Ports → Try (Value × Ports)
patch_service_ports service (list vs) st = do
  (ports, st') ← patch_ports (items vs) st
  ok (with_ports service ports, st')
patch_service_ports service _ st = ok (dict (of_fields service), st)

unfoldable pub patch_service : Value → Ports → Try (Value × Ports)
patch_service (dict fs) st = patch_service_ports (fields fs) (get "ports" (fields fs)) st
patch_service v st = ok (v, st)

unfoldable pub patch_services : Dict String Value → Ports → Try (Dict String Value × Ports)
patch_services [] st = ok ([], st)
patch_services ((name, service) ∷ rest) st = do
  (service', st') ← patch_service service st
  (rest', st'') ← patch_services rest st'
  ok ((name, service') ∷ rest', st'')

unfoldable pub patch_payload :
    List DockerContainer → Dict String Value → Value → Try (Dict ℤ ℤ × Dict String Value)
patch_payload containers payload (dict fs) = do
  (services, st) ←
      patch_services (fields fs) (record { used = used_host_ports containers; remap = [] })
  ok (st.remap, insert "services" (dict (of_fields services)) payload)
patch_payload containers payload _ = ok ([], payload)

-- The containers of the Docker daemon are the first argument.
unfoldable pub remap_compose_ports_in_payload :
    List DockerContainer → Dict String Value → Try (Dict ℤ ℤ × Dict String Value)
remap_compose_ports_in_payload containers payload =
    patch_payload containers payload (get "services" payload)

-- The file is a YAML document, or cannot be read; it is written again only if a port was remapped.
abbrev rewritten : Value → Dict ℤ ℤ × Dict String Value → Dict ℤ ℤ × Option Value
rewritten file ([], payload) = ([], some file)
rewritten file (e ∷ remap, payload) = (e ∷ remap, some (dict (of_fields payload)))

unfoldable pub remap_compose_ports_if_needed :
    List DockerContainer → Option Value → Try (Dict ℤ ℤ × Option Value)
remap_compose_ports_if_needed containers none = ok ([], none)
remap_compose_ports_if_needed containers (some (dict fs)) = do
  r ← remap_compose_ports_in_payload containers (fields fs)
  ok (rewritten (dict fs) r)
remap_compose_ports_if_needed containers (some v) = ok ([], some v)
