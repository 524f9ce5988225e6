-- ===== src/Cli/Infra/Schema.antt =====
-- The schema of the state file and its migration (`_ensure_schema`, `_migrate_legacy_payload`). Whether
-- a text is an address of the Internet (`_is_ip`) is a parameter.
use docker_interface.Prelude.{
  String, Bool, true, not, ◌||◌, List, [], ◌∷◌, Option, none, some, get_or, if◌then◌else◌,
}
use docker_interface.Prelude.Int.{ℤ, ltb_ℤ}
use docker_interface.Py.Dict.{Dict, string_eq, contains, insert}
use docker_interface.Py.Value.{
  Value, null, int, str, dict, of_fields, as_dict, as_int, get, dict_or_empty, list_or_empty,
}
use docker_interface.Cli.Infra.{
  InfraState, schema_version, save, is_dict, has_content, nonempty_text, first_str, ensure_dict,
  set_item,
}

-- `not isinstance(schema_version, int) or schema_version < SCHEMA_VERSION`
abbrev outdated : Option ℤ → Bool
outdated none = true
outdated (some n) = ltb_ℤ n schema_version

unfoldable pub needs_migration : Dict String Value → Bool
needs_migration payload =
    outdated (as_int (get "schema_version" payload)) || not (is_dict (get "devices" payload))

-- The name that a new device gets, and the one that an old device keeps or gets.
abbrev name_or_none : Option String → Value
name_or_none none = null
name_or_none (some name) = str name

abbrev pub named : Option String → Dict String Value → Dict String Value
named none current = current
named (some name) current = if has_content name then insert "name" (str name) current else current

abbrev pub readdressed : String → Option String → Option (Dict String Value) → Dict String Value
readdressed ip_address name none = ("ip_address", str ip_address) ∷ ("name", name_or_none name) ∷ []
readdressed ip_address name (some current) =
    named name (insert "ip_address" (str ip_address) current)

-- `setdefault("provision_group", provision_type)`
abbrev pub grouped : Option String → Dict String Value → Dict String Value
grouped none current = current
grouped (some provision_type) current =
    if contains "provision_group" current
    then current
    else insert "provision_group" (str provision_type) current

-- The `upsert_device` of the migration, and what the caller does to its device.
unfoldable pub upsert_legacy :
    Option String
    → String
    → Option String
    → (Dict String Value → Dict String Value)
    → Dict String Value
    → Dict String Value
upsert_legacy provision_type ip_address name change devices =
    let current = readdressed ip_address name (as_dict (get ip_address devices)) in
    insert ip_address (dict (of_fields (change (grouped provision_type current)))) devices

abbrev pub lan_payload : Dict String Value → Dict String Value
lan_payload lan =
    ("ssh_user", get "ssh_user" lan)
    ∷ ("ssh_key_path", get "ssh_key_path" lan)
    ∷ ("become_password", get "become_password" lan)
    ∷ []

abbrev pub set_lan : Dict String Value → Dict String Value → Dict String Value
set_lan lan device = set_item "lan" (lan_payload lan) (insert "provision_group" (str "lan") device)

-- `if not … : continue`
abbrev pub for_text :
    Option String
    → (String → Dict String Value → Dict String Value)
    → Dict String Value
    → Dict String Value
for_text none f devices = devices
for_text (some s) f devices = f s devices

abbrev pub migrate_lan_devices :
    Option String → Dict String Value → List Value → Dict String Value → Dict String Value
migrate_lan_devices provision_type lan [] devices = devices
migrate_lan_devices provision_type lan (item ∷ items) devices =
    migrate_lan_devices provision_type lan items (
      for_text (nonempty_text item)
        (λ address. upsert_legacy provision_type address none (set_lan lan)) devices)

abbrev pub migrate_lan : Option String → Value → Dict String Value → Dict String Value
migrate_lan provision_type (dict fs) devices =
    let lan = dict_or_empty (dict fs) in
    migrate_lan_devices provision_type lan (list_or_empty (get "devices" lan)) devices
migrate_lan provision_type _ devices = devices

abbrev pub with_sections : Dict String Value → Dict String Value
with_sections payload =
    insert "schema_version" (int schema_version)
      (ensure_dict "terraform" (ensure_dict "devices" (ensure_dict "provision" payload)))

module _ (is_ip : String → Bool) where
  -- A target that is not an address names the device.
  abbrev pub target_name : Option String → Option String
  target_name none = none
  target_name (some s) = if is_ip s then none else some s

  abbrev pub control_plane_address : Dict String Value → String
  control_plane_address cp =
      get_or (first_str (get "ansible_host" cp ∷ get "host" cp ∷ get "target_host" cp ∷ []))
        "control-plane"

  abbrev pub migrate_control_plane :
      Option String → Dict String Value → Dict String Value → Dict String Value
  migrate_control_plane provision_type [] devices = devices
  migrate_control_plane provision_type (f ∷ fs) devices =
      let cp = f ∷ fs in
      upsert_legacy provision_type (control_plane_address cp)
        (target_name (first_str (get "target_host" cp ∷ []))) (set_item "control_plane" cp) devices

  abbrev pub lab_host_address : String → Dict String Value → Option String
  lab_host_address key host =
      first_str
        (get "ansible_host" host ∷ get "register_ip" host ∷ get "target_host" host ∷ str key ∷ [])

  -- One entry of the legacy `lab_hosts`.
  abbrev pub migrate_lab_host :
      Option String → String → Value → Dict String Value → Dict String Value
  migrate_lab_host provision_type key (dict fs) devices =
      let host = dict_or_empty (dict fs) in
      for_text (lab_host_address key host)
        (λ address.
          upsert_legacy provision_type address
            (target_name (first_str (get "target_host" host ∷ []))) (set_item "lab_host" host))
        devices
  migrate_lab_host provision_type key _ devices = devices

  abbrev pub migrate_lab_hosts :
      Option String → Dict String Value → Dict String Value → Dict String Value
  migrate_lab_hosts provision_type [] devices = devices
  migrate_lab_hosts provision_type ((key, host) ∷ hosts) devices =
      migrate_lab_hosts provision_type hosts (migrate_lab_host provision_type key host devices)

  unfoldable pub migrated_devices : Dict String Value → Dict String Value
  migrated_devices payload =
      let provision_type = nonempty_text (get "type" (dict_or_empty (get "provision" payload))) in
      migrate_lan provision_type (get "lan" payload) (
        migrate_lab_hosts provision_type (dict_or_empty (get "lab_hosts" payload))
          (migrate_control_plane provision_type (dict_or_empty (get "control_plane" payload)) []))

  unfoldable pub migrate_legacy_payload : Dict String Value → Dict String Value
  migrate_legacy_payload payload =
      ("schema_version", int schema_version)
      ∷ ("provision", dict (of_fields (dict_or_empty (get "provision" payload))))
      ∷ ("devices", dict (of_fields (migrated_devices payload)))
      ∷ ("terraform", dict (of_fields (dict_or_empty (get "terraform" payload))))
      ∷ []

  unfoldable pub ensure_schema : Dict String Value → Dict String Value
  ensure_schema payload =
      with_sections (if needs_migration payload then migrate_legacy_payload payload else payload)

  -- `InfraState()`, on what the file holds.
  unfoldable pub load : Value → InfraState
  load file = save (ensure_schema (dict_or_empty file))
