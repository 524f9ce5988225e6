-- ===== src/Cli/Infra/Migrated.antt =====
-- The control plane of a file of the old schema is found after the migration.
use docker_interface.Prelude.{
  String, ◌≡◌, refl, ap, ◌∙◌, Bool, true, List, [], ◌∷◌, Option, none, some, str_eq, Bool-cases,
  Option-cases, inl, inr,
}
use docker_interface.Py.Dict.{Dict, string_eq, lookup, contains, insert}
use docker_interface.Py.Value.{
  Value, null, bool, int, float, str, list, dict, of_fields, as_dict, get, dict_or_empty,
  list_or_empty, fields-of_fields,
}
use docker_interface.Cli.Infra.{has_content, nonempty_text, first_str, devices_of, set_item}
use docker_interface.Cli.Infra.Schema.{
  needs_migration, named, readdressed, grouped, upsert_legacy, set_lan, migrate_lan_devices,
  migrate_lan, target_name, control_plane_address, migrate_control_plane, lab_host_address,
  migrate_lab_host, migrate_lab_hosts, migrated_devices, for_text, migrate_legacy_payload,
  ensure_schema, load,
}
use docker_interface.Cli.Infra.Ops.{filled, first_control_plane, get_control_plane}
use docker_interface.Cli.Infra.Kept.{same_key, other_key, HasSchema}
use docker_interface.Cli.Infra.Reached.{with_sections-present}

-- The control plane of a device.
abbrev control_plane_of : Value → Dict String Value
control_plane_of device = dict_or_empty (get "control_plane" (dict_or_empty device))

insert-first :
    (k : String) (v : Value) (ds : Dict String Value)
    → control_plane_of v ≡ control_plane_of (get k ds)
    → first_control_plane (insert k v ds) ≡ first_control_plane ds
unfolding insert get lookup
insert-first k v [] h = ap (λ cp. filled cp none) h
insert-first k v ((j, w) ∷ ds) h = elim (Bool-cases (str_eq j k)) [
  | inl e ↦
      let h' : control_plane_of v ≡ control_plane_of w = rw e at h in
      rw e (ap (λ cp. filled cp (first_control_plane ds)) h')
  | inr e ↦
      let h' : control_plane_of v ≡ control_plane_of (get k ds) = rw e at h in
      rw e (ap (filled (control_plane_of w)) (insert-first k v ds h'))
]

-- A change that leaves the control plane of a device alone.
abbrev Leaves : (Dict String Value → Dict String Value) → Type 0
Leaves change = (d : Dict String Value) → get "control_plane" (change d) ≡ get "control_plane" d

named-Leaves : (name : Option String) → Leaves (named name)
named-Leaves none d = refl
named-Leaves (some name) d = elim (Bool-cases (has_content name)) [
  | inl e ↦ rw e (other_key "name" "control_plane" _ d refl)
  | inr e ↦ rw e refl
]

grouped-Leaves : (group : Option String) → Leaves (grouped group)
grouped-Leaves none d = refl
grouped-Leaves (some group) d = elim (Bool-cases (contains "provision_group" d)) [
  | inl e ↦ rw e refl
  | inr e ↦ rw e (other_key "provision_group" "control_plane" _ d refl)
]

readdressed-control_plane :
    (ip : String) (name : Option String) (device : Value)
    → get "control_plane" (readdressed ip name (as_dict device))
      ≡ get "control_plane" (dict_or_empty device)
unfolding get lookup
readdressed-control_plane ip name device = elim (Option-cases (as_dict device)) [
  | inl e ↦ rw e refl
  | inr (d, e) ↦ rw e (
      named-Leaves name (insert "ip_address" (str ip) d)
      ∙ other_key "ip_address" "control_plane" _ d refl)
]

upsert_legacy-first :
    (group : Option String) (ip : String) (name : Option String)
    (change : Dict String Value → Dict String Value) (ds : Dict String Value)
    → Leaves change
    → first_control_plane (upsert_legacy group ip name change ds) ≡ first_control_plane ds
unfolding upsert_legacy
upsert_legacy-first group ip name change ds leaves =
    let d = grouped group (readdressed ip name (as_dict (get ip ds))) in
    let e : get "control_plane" (change d) ≡ get "control_plane" (dict_or_empty (get ip ds)) =
      leaves d ∙ grouped-Leaves group _ ∙ readdressed-control_plane ip name (get ip ds) in
    insert-first ip _ ds (
      ap (λ x. dict_or_empty (get "control_plane" x)) (fields-of_fields (change d))
      ∙ ap dict_or_empty e)

set_lan-Leaves : (lan : Dict String Value) → Leaves (set_lan lan)
set_lan-Leaves lan d =
    other_key "lan" "control_plane" _ _ refl ∙ other_key "provision_group" "control_plane" _ d refl

set_lab_host-Leaves : (host : Dict String Value) → Leaves (set_item "lab_host" host)
set_lab_host-Leaves host d = other_key "lab_host" "control_plane" _ d refl

abbrev Keeps : (Dict String Value → Dict String Value) → Type 0
Keeps f = (ds : Dict String Value) → first_control_plane (f ds) ≡ first_control_plane ds

for_text-Keeps :
    (o : Option String) (f : String → Dict String Value → Dict String Value)
    → ((s : String) → Keeps (f s))
    → Keeps (for_text o f)
for_text-Keeps none f h ds = refl
for_text-Keeps (some s) f h ds = h s ds

migrate_lan_devices-Keeps :
    (group : Option String) (lan : Dict String Value) (vs : List Value)
    → Keeps (migrate_lan_devices group lan vs)
migrate_lan_devices-Keeps group lan [] ds = refl
migrate_lan_devices-Keeps group lan (item ∷ vs) ds =
    let f = λ (ip : String). upsert_legacy group ip none (set_lan lan) in
    let here =
      for_text-Keeps (nonempty_text item) f
        λ ip ds'. upsert_legacy-first group ip none (set_lan lan) ds' (set_lan-Leaves lan) in
    migrate_lan_devices-Keeps group lan vs (for_text (nonempty_text item) f ds) ∙ here ds

migrate_lan-Keeps : (group : Option String) (lan : Value) → Keeps (migrate_lan group lan)
migrate_lan-Keeps group (dict fs) ds =
    let lan = dict_or_empty (dict fs) in
    migrate_lan_devices-Keeps group lan (list_or_empty (get "devices" lan)) ds
migrate_lan-Keeps group null ds = refl
migrate_lan-Keeps group (bool b) ds = refl
migrate_lan-Keeps group (int n) ds = refl
migrate_lan-Keeps group (float x) ds = refl
migrate_lan-Keeps group (str s) ds = refl
migrate_lan-Keeps group (list vs) ds = refl

module _ (is_ip : String → Bool) where
  migrate_lab_host-Keeps :
      (group : Option String) (key : String) (host : Value)
      → Keeps (migrate_lab_host is_ip group key host)
  migrate_lab_host-Keeps group key (dict fs) ds =
      let host = dict_or_empty (dict fs) in
      for_text-Keeps (lab_host_address is_ip key host) _
        (λ ip ds'. upsert_legacy-first group ip _ _ ds' (set_lab_host-Leaves host)) ds
  migrate_lab_host-Keeps group key null ds = refl
  migrate_lab_host-Keeps group key (bool b) ds = refl
  migrate_lab_host-Keeps group key (int n) ds = refl
  migrate_lab_host-Keeps group key (float x) ds = refl
  migrate_lab_host-Keeps group key (str s) ds = refl
  migrate_lab_host-Keeps group key (list vs) ds = refl

  migrate_lab_hosts-Keeps :
      (group : Option String) (hosts : Dict String Value)
      → Keeps (migrate_lab_hosts is_ip group hosts)
  migrate_lab_hosts-Keeps group [] ds = refl
  migrate_lab_hosts-Keeps group ((key, host) ∷ hosts) ds =
      migrate_lab_hosts-Keeps group hosts _ ∙ migrate_lab_host-Keeps group key host ds

  migrated_control_plane :
      (group : Option String) (entry : String × Value) (rest : Dict String Value)
      → first_control_plane (migrate_control_plane is_ip group (entry ∷ rest) [])
        ≡ some (entry ∷ rest)
  unfolding upsert_legacy insert
  migrated_control_plane group entry rest =
      let cp = entry ∷ rest in
      let ip = control_plane_address is_ip cp in
      let name = target_name is_ip (first_str (get "target_host" cp ∷ [])) in
      let d = grouped group (readdressed ip name (as_dict (get ip []))) in
      let e : control_plane_of (dict (of_fields (set_item "control_plane" cp d))) ≡ cp =
        ap (λ x. dict_or_empty (get "control_plane" x))
          (fields-of_fields (set_item "control_plane" cp d))
        ∙ ap dict_or_empty (same_key "control_plane" (dict (of_fields cp)) d)
        ∙ fields-of_fields cp in
      ap (λ x. filled x none) e

  migrate-HasSchema : (d : Dict String Value) → HasSchema (migrate_legacy_payload is_ip d)
  unfolding migrate_legacy_payload get
  migrate-HasSchema d = record {
    version = refl;
    provision = refl;
    devices = refl;
    terraform = refl;
  }

  devices_of-migrate :
      (d : Dict String Value)
      → devices_of (migrate_legacy_payload is_ip d) ≡ migrated_devices is_ip d
  unfolding migrate_legacy_payload get lookup
  devices_of-migrate d = fields-of_fields (migrated_devices is_ip d)

  migrated_devices-first :
      (d : Dict String Value) (entry : String × Value) (rest : Dict String Value)
      → dict_or_empty (get "control_plane" d) ≡ entry ∷ rest
      → first_control_plane (migrated_devices is_ip d) ≡ some (entry ∷ rest)
  unfolding migrated_devices
  migrated_devices-first d entry rest h =
      let group = nonempty_text (get "type" (dict_or_empty (get "provision" d))) in
      let ds = migrate_control_plane is_ip group (dict_or_empty (get "control_plane" d)) [] in
      let hosts = dict_or_empty (get "lab_hosts" d) in
      migrate_lan-Keeps group (get "lan" d) (migrate_lab_hosts is_ip group hosts ds)
      ∙ migrate_lab_hosts-Keeps group hosts ds
      ∙ ap (λ cp. first_control_plane (migrate_control_plane is_ip group cp [])) h
      ∙ migrated_control_plane group entry rest

  -- A file of the old schema that has a control plane: the program that opens it finds that control plane,
  -- whatever lab hosts and LAN devices are migrated beside it, even at the same address.
  pub load-get_control_plane :
      (file : Dict String Value) (entry : String × Value) (rest : Dict String Value)
      → needs_migration file ≡ true
      → get "control_plane" file ≡ dict (of_fields (entry ∷ rest))
      → get_control_plane (load is_ip (dict (of_fields file))) ≡ some (entry ∷ rest)
  unfolding load ensure_schema get_control_plane
  load-get_control_plane file entry rest old h =
      let cp : dict_or_empty (get "control_plane" file) ≡ entry ∷ rest =
        ap dict_or_empty h ∙ fields-of_fields (entry ∷ rest) in
      rw (fields-of_fields file, old, with_sections-present _ (migrate-HasSchema file))
        (ap first_control_plane (devices_of-migrate file)
          ∙ migrated_devices-first file entry rest cp)
