-- ===== src/Cli/Infra/Kept.antt =====
-- What the operations on the state file keep: the schema of the memory and of the file.
use docker_interface.Prelude.{
  String, ◌≡◌, refl, ap, ◌∙◌, true, false, List, [], ◌∷◌, Option, none, some, is_some, str_eq,
  if◌then◌else◌, arith, Bool-cases, Option-cases, inl, inr,
}
use docker_interface.Py.Dict.{Dict, string_eq, lookup, contains, insert, lookup-insert, beq_refl}
use docker_interface.Py.Value.{Value, null, int, str, dict, of_fields, as_dict, get}
use docker_interface.Py.Result.{ok}
use docker_interface.Cli.Infra.{
  has_content, InfraState, schema_version, save, is_dict, ensure_dict, put_devices, upsert_device,
  set_item,
}
use docker_interface.Cli.Infra.Ops.{set_provision_type, upsert_lan, remove_device_keys, reset}

pub get-insert :
    (k j : String) (v : Value) (d : Dict String Value)
    → get j (insert k v d) ≡ (if str_eq k j then v else get j d)
unfolding get
get-insert k j v d = rw (lookup-insert k j v d) (ground arith)

-- The version is the present one, and the three sections are dictionaries.
pub record HasSchema (payload : Dict String Value) : Type 0 where
  pub version : get "schema_version" payload ≡ int schema_version
  pub provision : is_dict (get "provision" payload) ≡ true
  pub devices : is_dict (get "devices" payload) ≡ true
  pub terraform : is_dict (get "terraform" payload) ≡ true

-- A key that is not inserted keeps its value.
pub other_key :
    (k j : String) (v : Value) (d : Dict String Value)
    → str_eq k j ≡ false
    → get j (insert k v d) ≡ get j d
other_key k j v d h = get-insert k j v d ∙ rw h refl

pub same_key : (k : String) (v : Value) (d : Dict String Value) → get k (insert k v d) ≡ v
same_key k v d = get-insert k k v d ∙ rw (beq_refl k) refl

insert-devices : (d devices : Dict String Value) → HasSchema d → HasSchema (put_devices devices d)
insert-devices d devices h = record {
  version = other_key "devices" "schema_version" _ d refl ∙ h.version;
  provision = ap is_dict (other_key "devices" "provision" _ d refl) ∙ h.provision;
  devices = ap is_dict (same_key "devices" _ d);
  terraform = ap is_dict (other_key "devices" "terraform" _ d refl) ∙ h.terraform;
}

insert-provision :
    (d provision : Dict String Value)
    → HasSchema d
    → HasSchema (insert "provision" (dict (of_fields provision)) d)
insert-provision d provision h = record {
  version = other_key "provision" "schema_version" _ d refl ∙ h.version;
  provision = ap is_dict (same_key "provision" _ d);
  devices = ap is_dict (other_key "provision" "devices" _ d refl) ∙ h.devices;
  terraform = ap is_dict (other_key "provision" "terraform" _ d refl) ∙ h.terraform;
}

pub insert-terraform :
    (d values : Dict String Value) → HasSchema d → HasSchema (set_item "terraform" values d)
insert-terraform d values h = record {
  version = other_key "terraform" "schema_version" _ d refl ∙ h.version;
  provision = ap is_dict (other_key "terraform" "provision" _ d refl) ∙ h.provision;
  devices = ap is_dict (other_key "terraform" "devices" _ d refl) ∙ h.devices;
  terraform = ap is_dict (same_key "terraform" _ d);
}

pub ensure_dict-present :
    (k : String) (d : Dict String Value) → is_dict (get k d) ≡ true → ensure_dict k d ≡ d
unfolding ensure_dict
ensure_dict-present k d h = rw h refl

contains-dict :
    (k : String) (d : Dict String Value) → is_dict (get k d) ≡ true → contains k d ≡ true
unfolding get
contains-dict k d h = elim (Option-cases (lookup k d)) [
  | inl e ↦ absurd (let x : is_dict null ≡ true = rw e at h in cc)
  | inr (v, e) ↦ rw e refl
]

is_dict-cases : (v : Value) → is_dict v ≡ true → (d : Dict String Value) × (as_dict v ≡ some d)
is_dict-cases v h = elim (Option-cases (as_dict v)) [
  | inl e ↦ absurd (let x : is_some {A = Dict String Value} none ≡ true = rw e at h in cc)
  | inr found ↦ found
]

-- The memory and the file have the schema.
pub record HaveSchema (s : InfraState) : Type 0 where
  pub in_memory : HasSchema s.payload
  pub in_file : HasSchema s.file

-- The schema holds, and the file holds what the memory holds.
pub record IsSaved (s : InfraState) : Type 0 where
  pub schema : HasSchema s.payload
  pub saved : s.file ≡ s.payload

pub save-IsSaved : (payload : Dict String Value) → HasSchema payload → IsSaved (save payload)
save-IsSaved payload h = record { schema = h; saved = refl }

pub saved-HaveSchema : (s : InfraState) → IsSaved s → HaveSchema s
saved-HaveSchema s h = record { in_memory = h.schema; in_file = rw h.saved h.schema }

pub upsert_device-HasSchema :
    (ip : String) (group name : Option String) (change : Dict String Value → Dict String Value)
    (d : Dict String Value)
    → HasSchema d
    → HasSchema (upsert_device ip group name change d)
unfolding upsert_device
upsert_device-HasSchema ip group name change d h =
    rw (ensure_dict-present "devices" d h.devices) (insert-devices d _ h)

pub upsert_lan-HasSchema :
    (lan : Dict String Value) (hosts : List String) (d : Dict String Value)
    → HasSchema d
    → HasSchema (upsert_lan lan hosts d)
upsert_lan-HasSchema lan [] d h = h
upsert_lan-HasSchema lan (host ∷ hosts) d h = elim (Bool-cases (has_content host)) [
  | inl e ↦ rw e (upsert_lan-HasSchema lan hosts _ (upsert_device-HasSchema _ _ _ _ d h))
  | inr e ↦ rw e (upsert_lan-HasSchema lan hosts d h)
]

pub set_provision_type-ok :
    (t : String) (s : InfraState)
    → HasSchema s.payload
    → (s' : InfraState) × (set_provision_type t s ≡ ok s') × IsSaved s'
unfolding set_provision_type
set_provision_type-ok t s h =
    let (provision, e) = is_dict-cases (get "provision" s.payload) h.provision in
    let present = contains-dict "provision" s.payload h.provision in
    (
      save (insert "provision" (dict (of_fields (insert "type" (str t) provision))) s.payload),
      rw (present, e) refl,
      save-IsSaved _ (insert-provision s.payload _ h),
    )

pub remove_device_keys-IsSaved :
    (key : String) (keys : List String) (s : InfraState)
    → HasSchema s.payload
    → IsSaved (remove_device_keys (key ∷ keys) s)
unfolding remove_device_keys
remove_device_keys-IsSaved key keys s h =
    rw (ensure_dict-present "devices" s.payload h.devices)
      (save-IsSaved _ (insert-devices s.payload _ h))

pub reset-IsSaved : (s : InfraState) → IsSaved (reset s)
unfolding reset get
reset-IsSaved s =
    save-IsSaved _ (record { version = refl; provision = refl; devices = refl; terraform = refl })
