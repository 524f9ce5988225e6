-- ===== src/Cli/Infra/Ops.antt =====
-- The operations on the state file: each changes the document, and most write it.
use docker_interface.Prelude.{
  String, Bool, true, false, ◌||◌, List, [], ◌∷◌, any, Option, none, some, str_eq, if◌then◌else◌,
}
use docker_interface.Py.Dict.{Dict, string_eq, insert, erase}
use docker_interface.Py.Value.{Value, int, str, dict, of_fields, as_dict, get, dict_or_empty}
use docker_interface.Py.Result.{Result, ok, err}
use docker_interface.Cli.Infra.{
  InfraState, Error, type_error, schema_version, save, empty_dict, has_content, text_is,
  ensure_dict, devices_of, put_devices, upsert_device, set_item, setdefault,
}

-- `d["type"] = infra_type`
abbrev pub typed : String → Option (Dict String Value) → Result Error Value
typed infra_type none = err type_error
typed infra_type (some provision) = ok (dict (of_fields (insert "type" (str infra_type) provision)))

abbrev pub provision_of : Dict String Value → Option (Dict String Value)
provision_of payload = as_dict (get "provision" payload)

abbrev pub provided : Dict String Value → Result Error Value → Result Error InfraState
provided payload (err e) = err e
provided payload (ok provision) = ok (save (insert "provision" provision payload))

-- A missing `provision` is set first.
unfoldable pub set_provision_type : String → InfraState → Result Error InfraState
set_provision_type infra_type s =
    let payload = setdefault "provision" empty_dict s.payload in
    provided payload (typed infra_type (provision_of payload))

unfoldable pub set_terraform : Dict String Value → InfraState → InfraState
set_terraform values s = save (set_item "terraform" values s.payload)

unfoldable pub set_control_plane :
    String → Dict String Value → Option String → Option String → InfraState → InfraState
set_control_plane ip_address values provision_group name s =
    save (upsert_device ip_address provision_group name (set_item "control_plane" values) s.payload)

unfoldable pub set_lab_host :
    String → Dict String Value → Option String → Option String → InfraState → InfraState
set_lab_host ip_address values provision_group name s =
    save (upsert_device ip_address provision_group name (set_item "lab_host" values) s.payload)

abbrev pub lan_values : String → String → String → Dict String Value
lan_values ssh_user ssh_key_path become_password =
    ("ssh_user", str ssh_user)
    ∷ ("ssh_key_path", str ssh_key_path)
    ∷ ("become_password", str become_password)
    ∷ []

abbrev pub upsert_lan : Dict String Value → List String → Dict String Value → Dict String Value
upsert_lan lan [] payload = payload
upsert_lan lan (host ∷ hosts) payload = upsert_lan lan hosts (
    if has_content host
    then upsert_device host (some "lan") none (set_item "lan" lan) payload
    else payload)

unfoldable pub set_lan_for_devices :
    List String → String → String → String → InfraState → InfraState
set_lan_for_devices devices ssh_user ssh_key_path become_password s =
    save (upsert_lan (lan_values ssh_user ssh_key_path become_password) devices s.payload)

-- The fields of `control_plane` and `lab_host` that a device may be found by.
abbrev field_is : String → Dict String Value → List String → Bool
field_is identifier d names = any (λ name. text_is identifier (get name d)) names

abbrev pub is_device : String → String → Dict String Value → Bool
is_device identifier key device =
    str_eq key identifier
    || text_is identifier (get "ip_address" device)
    || text_is identifier (get "name" device)
    || field_is identifier (dict_or_empty (get "control_plane" device))
        ("target_host" ∷ "host" ∷ "ansible_host" ∷ [])
    || field_is identifier (dict_or_empty (get "lab_host" device))
        ("target_host" ∷ "ansible_host" ∷ "register_ip" ∷ "lab_host_id" ∷ [])

abbrev pub found_device :
    String
    → String
    → Value
    → Option (String × Dict String Value)
    → Option (String × Dict String Value)
found_device identifier key (dict fs) rest =
    let device = dict_or_empty (dict fs) in
    if is_device identifier key device then some (key, device) else rest
found_device identifier key _ rest = rest

abbrev pub first_device : String → Dict String Value → Option (String × Dict String Value)
first_device identifier [] = none
first_device identifier ((key, device) ∷ devices) =
    found_device identifier key device (first_device identifier devices)

unfoldable pub find_device : String → InfraState → Option (String × Dict String Value)
find_device identifier s =
    if has_content identifier then first_device identifier (devices_of s.payload) else none

-- `isinstance(cp, dict) and cp`
abbrev pub filled : Dict String Value → Option (Dict String Value) → Option (Dict String Value)
filled [] rest = rest
filled (f ∷ fs) rest = some (f ∷ fs)

abbrev pub first_control_plane : Dict String Value → Option (Dict String Value)
first_control_plane [] = none
first_control_plane ((key, device) ∷ devices) =
    filled (dict_or_empty (get "control_plane" (dict_or_empty device)))
      (first_control_plane devices)

unfoldable pub get_control_plane : InfraState → Option (Dict String Value)
get_control_plane s = first_control_plane (devices_of s.payload)

abbrev pub remove_keys : List String → Dict String Value → Dict String Value
remove_keys [] devices = devices
remove_keys (key ∷ keys) devices = remove_keys keys (erase key devices)

-- Nothing is written when there are no keys.
unfoldable pub remove_device_keys : List String → InfraState → InfraState
remove_device_keys [] s = s
remove_device_keys (key ∷ keys) s =
    let payload = ensure_dict "devices" s.payload in
    save (put_devices (remove_keys (key ∷ keys) (devices_of payload)) payload)

unfoldable pub reset : InfraState → InfraState
reset s = save (
    ("schema_version", int schema_version)
    ∷ ("provision", empty_dict)
    ∷ ("devices", empty_dict)
    ∷ ("terraform", empty_dict)
    ∷ [])

-- `upsert_device`, which writes nothing; the last argument is what the caller does with the device that it
-- returns.
unfoldable pub touch_device :
    String
    → Option String
    → Option String
    → (Dict String Value → Dict String Value)
    → InfraState
    → InfraState
touch_device ip_address provision_group name change s = record s {
  payload = upsert_device ip_address provision_group name change s.payload;
}

-- What a program may do with a state file.
pub data Operation : Type 0 where
  provision_type : String → Operation
  terraform : Dict String Value → Operation
  control_plane lab_host : String → Dict String Value → Option String → Option String → Operation
  lan_devices : List String → String → String → String → Operation
  remove : List String → Operation
  device :
      String → Option String → Option String → (Dict String Value → Dict String Value) → Operation
  save_now clear : Operation

abbrev pub run : Operation → InfraState → Result Error InfraState
run (provision_type t) s = set_provision_type t s
run (terraform values) s = ok (set_terraform values s)
run (control_plane ip values group name) s = ok (set_control_plane ip values group name s)
run (lab_host ip values group name) s = ok (set_lab_host ip values group name s)
run (lan_devices hosts user path password) s = ok (set_lan_for_devices hosts user path password s)
run (remove keys) s = ok (remove_device_keys keys s)
run (device ip group name change) s = ok (touch_device ip group name change s)
run save_now s = ok (save s.payload)
run clear s = ok (reset s)

-- Whether the operation writes the file.
abbrev pub writes : Operation → Bool
writes (device ip group name change) = false
writes (remove []) = false
writes _ = true
