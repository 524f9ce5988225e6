-- ===== src/Cli/Infra/Tests.antt =====
-- A state file of the old schema, and what operations make of it.
use docker_interface.Prelude.{
  String, ◌≡◌, refl, Bool, true, false, [], ◌∷◌, none, some, is_some, str_eq,
}
use docker_interface.Py.Dict.{Dict, string_eq, lookup}
use docker_interface.Py.Value.{Value, null, str, list, dict, of_items, of_fields, get}
use docker_interface.Py.Result.{ok}
use docker_interface.Cli.Infra.{InfraState, save, devices_of, find_device_key, device_key}
use docker_interface.Cli.Infra.Schema.{needs_migration, load}
use docker_interface.Cli.Infra.Ops.{
  Operation, lab_host, device, save_now, provision_type, run, writes, touch_device, set_lab_host,
  find_device, get_control_plane, remove_device_keys,
}
use docker_interface.Cli.Infra.Kept.{HasSchema}
use docker_interface.Cli.Infra.Reached.{
  Reached, opened, then_run, Reached-HasSchema, Reached-returns, load-file,
}
use docker_interface.Cli.Infra.Migrated.{load-get_control_plane}
use docker_interface.Cli.Infra.Devices.{device_at, set_lab_host-device, remove_device_keys-get}

abbrev is_ip : String → Bool
is_ip s = str_eq s "10.0.0.1"

abbrev cp_rest : Dict String Value
cp_rest = ("target_host", str "alpha") ∷ []

abbrev legacy : Dict String Value
legacy =
    ("control_plane", dict (of_fields (("ansible_host", str "10.0.0.1") ∷ cp_rest)))
    ∷ (
      "lab_hosts",
      dict (of_fields (("10.0.0.1", dict (of_fields (("lab_host_id", str "one") ∷ []))) ∷ [])),
    )
    ∷ ("lan", dict (of_fields (("devices", list (of_items (str "10.0.0.9" ∷ []))) ∷ [])))
    ∷ []

old : needs_migration legacy ≡ true
unfolding needs_migration get lookup
old = refl

abbrev start : InfraState
start = load is_ip (dict (of_fields legacy))

abbrev values : Dict String Value
values = ("register_ip", str "10.0.0.7") ∷ []

abbrev after : InfraState
after = set_lab_host "10.0.0.7" values none (some " beta ") start

reached : Reached is_ip (dict (of_fields legacy)) after
reached = then_run opened (lab_host "10.0.0.7" values none (some " beta ")) refl

-- A device that is not written yet.
abbrev touched : InfraState
touched = touch_device "10.0.0.8" (some "lan") none (λ d. d) after

Reached-touched : Reached is_ip (dict (of_fields legacy)) touched
Reached-touched = then_run reached (device "10.0.0.8" (some "lan") none (λ d. d)) refl

Reached-HasSchema_example :
    HasSchema touched.payload
    × HasSchema touched.file
    × ((op : Operation) (t : InfraState)
        → writes op ≡ true
        → run op touched ≡ ok t
        → t.file ≡ t.payload)
Reached-HasSchema_example =
    Reached-HasSchema is_ip (dict (of_fields legacy)) touched Reached-touched

Reached-returns_example : (t : InfraState) × (run (provision_type "lan") after ≡ ok t)
Reached-returns_example =
    Reached-returns is_ip (dict (of_fields legacy)) after reached (provision_type "lan")

load-file_example :
    (writes save_now ≡ true
      → load is_ip (dict (of_fields (save touched.payload).file)) ≡ save touched.payload)
    × (writes save_now ≡ false
        → load is_ip (dict (of_fields (save touched.payload).file)) ≡ save touched.file)
load-file_example =
    load-file is_ip (dict (of_fields legacy)) touched Reached-touched save_now
      (save touched.payload) refl

load-get_control_plane_example :
    get_control_plane (load is_ip (dict (of_fields legacy)))
    ≡ some (("ansible_host", str "10.0.0.1") ∷ cp_rest)
unfolding get
load-get_control_plane_example =
    load-get_control_plane is_ip legacy ("ansible_host", str "10.0.0.1") cp_rest old refl

schema : HasSchema start.payload
schema = (Reached-HasSchema is_ip (dict (of_fields legacy)) start opened).0

set_lab_host-device_example :
    let t = set_lab_host "10.0.0.7" values none (some " beta ") start in
    let before = devices_of start.payload in
    let after = devices_of t.payload in
    let key = device_key "10.0.0.7" (some " beta ") before in
    (get "lab_host" (device_at key after) ≡ dict (of_fields values))
    × (get "ip_address" (device_at key after) ≡ str "10.0.0.7")
    × ((field : String)
        → str_eq "lab_host" field ≡ false
        → str_eq "provision_group" field ≡ false
        → str_eq "name" field ≡ false
        → str_eq "ip_address" field ≡ false
        → get field (device_at key after) ≡ get field (device_at key before))
    × ((other : String) → str_eq key other ≡ false → get other after ≡ get other before)
    × (is_some (find_device "10.0.0.7" t) ≡ true)
set_lab_host-device_example =
    set_lab_host-device "10.0.0.7" values none (some " beta ") start schema refl

remove_device_keys-get_example :
    get "10.0.0.1" (devices_of (remove_device_keys ("10.0.0.1" ∷ []) start).payload) ≡ null
remove_device_keys-get_example = remove_device_keys-get ("10.0.0.1" ∷ []) start schema "10.0.0.1"

-- The device of the name comes first, and gets the address of the second device.
abbrev two : Dict String Value
two =
    ("10.0.0.1", dict (of_fields (("ip_address", str "10.0.0.1") ∷ ("name", str "alpha") ∷ [])))
    ∷ ("10.0.0.2", dict (of_fields (("ip_address", str "10.0.0.2") ∷ ("name", null) ∷ [])))
    ∷ []

one_address_twice : device_key "10.0.0.2" (some "alpha") two ≡ "10.0.0.1"
unfolding device_key find_device_key get lookup
one_address_twice = refl
