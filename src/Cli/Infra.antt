-- ===== src/Cli/Infra.antt =====
-- The state file of the command line tool (cli/core/infra/state.py).
pub mod Schema
pub mod Ops
pub mod Kept
pub mod Reached
pub mod Migrated
pub mod Devices
mod Tests
use docker_interface.Prelude.{
  String, Bool, true, false, not, ◌&&◌, ◌||◌, List, [], ◌∷◌, any, Option, none, some, is_some,
  get_or, str_eq, if◌then◌else◌,
}
use docker_interface.Prelude.Int.{ℤ, pos, ltb_ℤ}
use docker_interface.Py.Chars.{chars, to_text, is_blank, strip}
use docker_interface.Py.Dict.{Dict, string_eq, lookup, contains, insert, erase}
use docker_interface.Py.Value.{
  Value, null, int, str, dict, of_fields, as_dict, as_int, as_str, get, dict_or_empty,
  list_or_empty,
}
use docker_interface.Py.Result.{Result, ok, err, ◌>>=◌}

-- The document in memory (`payload`), and the one in the file.
pub record InfraState : Type 0 where
  pub payload : Dict String Value
  pub file : Dict String Value

-- An assignment to an item of something that is not a dictionary.
pub data Error : Type 0 where
  type_error : Error

abbrev pub schema_version : ℤ
schema_version = pos 2

abbrev pub save : Dict String Value → InfraState
save payload = record { payload = payload; file = payload }

abbrev pub is_dict : Value → Bool
is_dict v = is_some (as_dict v)

abbrev pub empty_dict : Value
empty_dict = dict (of_fields [])

-- `v == s` for a text `s`
abbrev pub text_is : String → Value → Bool
text_is s (str t) = str_eq t s
text_is s _ = false

abbrev pub has_content : String → Bool
has_content s = not (str_eq s "")

unfoldable pub stripped : String → String
stripped s = to_text (strip is_blank (chars s))

-- `x.strip() if isinstance(x, str) and x.strip()`
abbrev pub kept_text : String → Option String
kept_text s = if has_content s then some s else none

abbrev pub stripped_text : Option String → Option String
stripped_text none = none
stripped_text (some s) = kept_text (stripped s)

-- `_first_str`
abbrev pub nonempty_text : Value → Option String
nonempty_text (str s) = kept_text s
nonempty_text _ = none

abbrev first_of : Option String → Option String → Option String
first_of none rest = rest
first_of (some s) rest = some s

abbrev pub first_str : List Value → Option String
first_str [] = none
first_str (v ∷ vs) = first_of (nonempty_text v) (first_str vs)

-- `d[key] = value` if there is a value
abbrev pub insert_text : String → Option String → Dict String Value → Dict String Value
insert_text key none d = d
insert_text key (some s) d = insert key (str s) d

-- `_devices`, which puts a dictionary in the place of anything else.
unfoldable pub ensure_dict : String → Dict String Value → Dict String Value
ensure_dict key payload =
    if is_dict (get key payload) then payload else insert key empty_dict payload

abbrev pub devices_of : Dict String Value → Dict String Value
devices_of payload = dict_or_empty (get "devices" payload)

abbrev pub put_devices : Dict String Value → Dict String Value → Dict String Value
put_devices devices payload = insert "devices" (dict (of_fields devices)) payload

abbrev same_name : Option String → Value → Bool
same_name none v = false
same_name (some name) v = has_content name && text_is name v

abbrev same_device : String → Option String → Value → Bool
same_device ip_address name (dict fs) =
    let device = dict_or_empty (dict fs) in
    text_is ip_address (get "ip_address" device) || same_name name (get "name" device)
same_device ip_address name _ = false

unfoldable pub find_device_key : String → Option String → Dict String Value → Option String
find_device_key ip_address name [] = none
find_device_key ip_address name ((key, device) ∷ devices) =
    let rest = find_device_key ip_address name devices in
    if same_device ip_address name device then some key else rest

-- `… or ip_address`
abbrev pub key_or : String → Option String → String
key_or ip_address none = ip_address
key_or ip_address (some key) = if has_content key then key else ip_address

-- The name is stripped; a device without a name gets `None`.
abbrev name_device : Option String → Dict String Value → Dict String Value
name_device (some name) current = insert "name" (str name) current
name_device none current = if contains "name" current then current else insert "name" null current

unfoldable pub updated_device :
    String → Option String → Option String → Dict String Value → Dict String Value
updated_device ip_address provision_group name current =
    insert_text "provision_group" (stripped_text provision_group)
      (name_device (stripped_text name) (insert "ip_address" (str ip_address) current))

-- The key of the device that an address and a name stand for.
unfoldable pub device_key : String → Option String → Dict String Value → String
device_key ip_address name devices = key_or ip_address (find_device_key ip_address name devices)

-- `upsert_device`, and what the caller does to the device that it returns.
unfoldable pub upsert_device :
    String
    → Option String
    → Option String
    → (Dict String Value → Dict String Value)
    → Dict String Value
    → Dict String Value
upsert_device ip_address provision_group name change payload =
    let devices = devices_of (ensure_dict "devices" payload) in
    let key = device_key ip_address name devices in
    let current = dict_or_empty (get key devices) in
    let device = change (updated_device ip_address provision_group name current) in
    put_devices (insert key (dict (of_fields device)) devices) (ensure_dict "devices" payload)

abbrev pub set_item : String → Dict String Value → Dict String Value → Dict String Value
set_item key values device = insert key (dict (of_fields values)) device

-- `d.setdefault(key, value)`, for the dictionary that it leaves.
abbrev pub setdefault : String → Value → Dict String Value → Dict String Value
setdefault key value d = if contains key d then d else insert key value d
