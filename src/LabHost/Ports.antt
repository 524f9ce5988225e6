-- ===== src/LabHost/Ports.antt =====
-- Host ports: which are in use, the next free one, and the remapping of requested ports
-- (`_used_host_ports`, `_next_available_host_port`, `_remap_requested_ports_if_needed` of
-- lab_host/docker_interface.py; `PortMapping` of lab_host/models.py).
mod Tests
pub mod Used
pub mod Next
pub mod Remap
pub mod Raises
use mathlib.Core.List.{foldl}
use Prim.Native.Nat.{max}
use docker_interface.Prelude.{
  ℕ, zero, suc, ◌+◌, ◌-◌, ◌*◌, ◌/◌, ◌%◌, ◌<◌, ◌≤◌, Char, code, String, ◌≡◌, ◌≢◌, ◌⊎◌, ◌↔◌, inl, inr,
  refl, sym, ap, ◌∙◌, Bool, true, false, ◌&&◌, ◌||◌, not, List, [], ◌∷◌, ◌++◌, map, arith, ltb, leb,
  ◌==◌, if◌then◌else◌, all, any, All, sum, length, get_elem?, Option, none, some, is_some, get_or,
  Bool-cases, Option-cases, str_eq, eq_iff, eq_refl, length-append, length-map, All-append,
}
use docker_interface.Prelude.Int.{ℤ, pos, pos_part, eqb_ℤ}
use docker_interface.Py.Chars.{Chars, chars}
use docker_interface.Py.Chars.Digits.{isdigit, int_of}
use docker_interface.Py.Dict.{Dict, Eq, int_eq, string_eq, elem, insert, values}
use docker_interface.Py.Value.{Value, str, as_dict, as_list, dict_or_empty, get}
use docker_interface.Py.Result.{Result, ok, err, ◌>>=◌}
use docker_interface.LabHost.Errors.{Error, value_error, Try}

-- A set of port numbers is the list of what was added; only membership is read.
abbrev pub PortSet : Type 0
PortSet = List ℤ

-- `int(x)`, if `x` is a text of digits.
unfoldable pub digits_value : Value → Option ℕ
unfolding isdigit int_of chars
digits_value (str s) = if isdigit (chars s) then some (int_of (chars s)) else none
digits_value _ = none

-- The port that one entry of `PortBindings` publishes.
unfoldable pub binding_port : Value → Option ℤ
unfolding digits_value get
binding_port binding = elim (as_dict binding) [
  | none ↦ none
  | some d ↦ elim (digits_value (get "HostPort" d)) [ none ↦ none | some n ↦ some (pos n) ]
]

-- `used.add(…)` for the bindings that publish a port.
abbrev add_binding : PortSet → Value → PortSet
add_binding used binding = elim (binding_port binding) [ none ↦ used | some p ↦ p ∷ used ]

abbrev add_binding_list : PortSet → Value → PortSet
add_binding_list used bindings = elim (as_list bindings) [
  | none ↦ used
  | some bs ↦ foldl add_binding used bs
]

unfoldable pub port_bindings : Value → Dict String Value
unfolding get
port_bindings attrs =
    dict_or_empty (get "PortBindings" (dict_or_empty (get "HostConfig" (dict_or_empty attrs))))

abbrev add_container : PortSet → Value → PortSet
add_container used attrs = foldl add_binding_list used (values (port_bindings attrs))

-- A container of the Docker daemon, as `client.containers.list` gives it.
pub record DockerContainer : Type 0 where
  pub is_running : Bool
  pub attrs : Value

-- `client.containers.list(all=…)`: without `all`, the running ones.
abbrev pub list_containers : Bool → List DockerContainer → List DockerContainer
list_containers all_containers [] = []
list_containers all_containers (c ∷ cs) =
    let rest = list_containers all_containers cs in
    if all_containers || c.is_running then c ∷ rest else rest

-- The argument is the containers of the daemon.
unfoldable pub used_host_ports : List DockerContainer → PortSet
unfolding port_bindings binding_port
used_host_ports containers =
    foldl add_container [] (map (λ c. c.attrs) (list_containers true containers))

-- The loop `while port in used_ports and port <= 65535`, with the port at which it ends.
scan : ℕ → ℕ → PortSet → ℕ
scan zero port used = port
scan (suc fuel) port used = elim (elem (pos port) used && leb port 65535) [
  | true ↦ scan fuel (port + 1) used
  | false ↦ port
]

abbrev pub no_port_available : Error
no_port_available = value_error "No available host port in range 1..65535"

-- The loop makes a round only at a port up to 65535, so this fuel is never exhausted early.
unfoldable pub next_available_host_port : ℤ → PortSet → Try ℕ
unfolding scan
next_available_host_port start_port used =
    let first = max 1 (pos_part start_port) in
    let port = scan (65536 - first) first used in
    if ltb 65535 port then err no_port_available else ok port

pub record PortMapping : Type 0 where
  pub host : ℤ
  pub container : ℤ
  pub protocol : String

-- The port that is assigned for a desired one.
unfoldable pub assign : PortSet → ℤ → Try ℤ
assign used desired =
    if elem desired used
    then (do p ← next_available_host_port desired used; ok (pos p))
    else ok desired

unfoldable pub note_remap : ℤ → ℤ → Dict ℤ ℤ → Dict ℤ ℤ
note_remap desired assigned remap =
    if eqb_ℤ assigned desired then remap else insert desired assigned remap

unfoldable pub remap_loop :
    List PortMapping → PortSet → Dict ℤ ℤ → List PortMapping → Try (List PortMapping × Dict ℤ ℤ)
remap_loop [] used remap done = ok (done, remap)
remap_loop (m ∷ ms) used remap done = do
  assigned ← assign used m.host
  remap_loop ms (assigned ∷ used) (note_remap m.host assigned remap)
      (done ++ record m { host = assigned } ∷ [])

-- The containers of the Docker daemon are the first argument.
unfoldable pub remap_requested_ports_if_needed :
    List DockerContainer → Option (List PortMapping) → Try (Option (List PortMapping) × Dict ℤ ℤ)
remap_requested_ports_if_needed containers none = ok (none, [])
remap_requested_ports_if_needed containers (some []) = ok (some [], [])
remap_requested_ports_if_needed containers (some (m ∷ ms)) = do
  (remapped, remap) ← remap_loop (m ∷ ms) (used_host_ports containers) [] []
  ok (some remapped, remap)
