-- ===== src/Cli/Infra/Devices.antt =====
-- What setting and removing devices does to the other devices, and that a device that was set is found.
use docker_interface.Prelude.{
  String, ◌≡◌, refl, sym, ap, ◌∙◌, true, false, List, [], ◌∷◌, Option, none, some, is_some, str_eq,
  eq_iff, if◌then◌else◌, arith, Bool-cases, inl, inr,
}
use docker_interface.Py.Dict.{
  Dict, string_eq, lookup, contains, insert, erase, elem, lookup-erase, beq_refl,
}
use docker_interface.Py.Value.{
  Value, null, bool, int, float, str, list, dict, fields, of_fields, get, dict_or_empty,
  fields-of_fields,
}
use docker_interface.Cli.Infra.{
  InfraState, has_content, text_is, devices_of, put_devices, set_item, upsert_device, device_key,
  updated_device, insert_text, stripped_text, name_device,
}
use docker_interface.Cli.Infra.Ops.{
  set_lab_host, find_device, first_device, found_device, is_device, remove_device_keys, remove_keys,
}
use docker_interface.Cli.Infra.Kept.{same_key, other_key, HasSchema, ensure_dict-present}

-- The device of a key, as a dictionary.
abbrev pub device_at : String → Dict String Value → Dict String Value
device_at key devices = dict_or_empty (get key devices)

devices_of-put : (d devices : Dict String Value) → devices_of (put_devices devices d) ≡ devices
devices_of-put d devices = ap dict_or_empty (same_key "devices" _ d) ∙ fields-of_fields devices

devices_of-upsert :
    (ip : String) (group name : Option String) (change : Dict String Value → Dict String Value)
    (d : Dict String Value)
    → HasSchema d
    → let key = device_key ip name (devices_of d) in
      devices_of (upsert_device ip group name change d)
      ≡ insert key
          (dict (of_fields (change (updated_device ip group name (device_at key (devices_of d))))))
          (devices_of d)
unfolding upsert_device
devices_of-upsert ip group name change d h =
    rw (ensure_dict-present "devices" d h.devices) (devices_of-put d _)

insert_text-other :
    (k j : String) (s : Option String) (d : Dict String Value)
    → str_eq k j ≡ false
    → get j (insert_text k s d) ≡ get j d
insert_text-other k j none d h = refl
insert_text-other k j (some s) d h = other_key k j (str s) d h

name_device-other :
    (j : String) (name : Option String) (d : Dict String Value)
    → str_eq "name" j ≡ false
    → get j (name_device name d) ≡ get j d
name_device-other j (some name) d h = other_key "name" j (str name) d h
name_device-other j none d h = elim (Bool-cases (contains "name" d)) [
  | inl e ↦ rw e refl
  | inr e ↦ rw e (other_key "name" j null d h)
]

module _ (ip : String) (group name : Option String) (d : Dict String Value) where
  -- A field that is none of the three is kept.
  updated_device-other :
      (j : String)
      → str_eq "provision_group" j ≡ false
      → str_eq "name" j ≡ false
      → str_eq "ip_address" j ≡ false
      → get j (updated_device ip group name d) ≡ get j d
  unfolding updated_device
  updated_device-other j p n i =
      insert_text-other "provision_group" j (stripped_text group) _ p
      ∙ name_device-other j (stripped_text name) _ n
      ∙ other_key "ip_address" j (str ip) d i

  updated_device-address : get "ip_address" (updated_device ip group name d) ≡ str ip
  unfolding updated_device
  updated_device-address =
      insert_text-other "provision_group" "ip_address" (stripped_text group) _ refl
      ∙ name_device-other "ip_address" (stripped_text name) _ refl
      ∙ same_key "ip_address" (str ip) d

found_device-some :
    (identifier key : String) (device : Value) (rest : Option (String × Dict String Value))
    → is_some rest ≡ true
    → is_some (found_device identifier key device rest) ≡ true
found_device-some identifier key (dict fs) rest h =
    elim (Bool-cases (is_device identifier key (dict_or_empty (dict fs)))) [
      | inl e ↦ rw e refl
      | inr e ↦ rw e h
    ]
found_device-some identifier key null rest h = h
found_device-some identifier key (bool b) rest h = h
found_device-some identifier key (int n) rest h = h
found_device-some identifier key (float x) rest h = h
found_device-some identifier key (str s) rest h = h
found_device-some identifier key (list vs) rest h = h

found_here :
    (identifier key : String) (device : Dict String Value)
    (rest : Option (String × Dict String Value))
    → is_device identifier key device ≡ true
    → is_some (found_device identifier key (dict (of_fields device)) rest) ≡ true
found_here identifier key device rest h =
    let h' : is_device identifier key (fields (of_fields device)) ≡ true =
      ap (is_device identifier key) (fields-of_fields device) ∙ h in
    rw h' refl

first_device-some :
    (identifier k : String) (device ds : Dict String Value)
    → get k ds ≡ dict (of_fields device)
    → is_device identifier k device ≡ true
    → is_some (first_device identifier ds) ≡ true
unfolding get lookup
first_device-some identifier k device [] h d =
    absurd (let x : null ≡ dict (of_fields device) = h in cc)
first_device-some identifier k device ((j, w) ∷ ds) h d = elim (Bool-cases (str_eq j k)) [
  | inl e ↦
      let here : w ≡ dict (of_fields device) = rw e at h in
      let same : j ≡ k = (eq_iff j k).0 e in
      rw here (found_here identifier j device _ (rw (sym same) at d))
  | inr e ↦
      let h' : get k ds ≡ dict (of_fields device) = rw e at h in
      found_device-some identifier j w (first_device identifier ds)
        (first_device-some identifier k device ds h' d)
]

-- A device with the address as its `ip_address` can be found by it.
has_address :
    (ip key : String) (d : Dict String Value)
    → get "ip_address" d ≡ str ip
    → is_device ip key d ≡ true
has_address ip key d h =
    let e : text_is ip (get "ip_address" d) ≡ true = ap (text_is ip) h ∙ beq_refl ip in
    elim (Bool-cases (str_eq key ip)) [ inl k ↦ rw k refl | inr k ↦ rw (k, e) refl ]

-- After `set_lab_host` on a state with the schema, the device of the address and the name has the values
-- and the address, and keeps its control plane and every other field; the devices of all other keys are as
-- before; and a device is found by the address, if that is not empty.
pub set_lab_host-device :
    (ip : String) (values : Dict String Value) (group name : Option String) (s : InfraState)
    → HasSchema s.payload
    → has_content ip ≡ true
    → let t = set_lab_host ip values group name s in
      let before = devices_of s.payload in
      let after = devices_of t.payload in
      let key = device_key ip name before in
      (get "lab_host" (device_at key after) ≡ dict (of_fields values))
      × (get "ip_address" (device_at key after) ≡ str ip)
      × ((field : String)
          → str_eq "lab_host" field ≡ false
          → str_eq "provision_group" field ≡ false
          → str_eq "name" field ≡ false
          → str_eq "ip_address" field ≡ false
          → get field (device_at key after) ≡ get field (device_at key before))
      × ((other : String) → str_eq key other ≡ false → get other after ≡ get other before)
      × (is_some (find_device ip t) ≡ true)
unfolding set_lab_host find_device
set_lab_host-device ip values group name s schema content =
    let before = devices_of s.payload in
    let key = device_key ip name before in
    let old = device_at key before in
    let updated = updated_device ip group name old in
    let device = set_item "lab_host" values updated in
    let put = devices_of-upsert ip group name (set_item "lab_host" values) s.payload schema in
    let at_key = same_key key (dict (of_fields device)) before in
    let whole_device : dict_or_empty (dict (of_fields device)) ≡ device = fields-of_fields device in
    let address : get "ip_address" device ≡ str ip =
      other_key "lab_host" "ip_address" _ updated refl ∙ updated_device-address ip group name old in
    rw (put, at_key, whole_device, content)
      (
        same_key "lab_host" (dict (of_fields values)) updated,
        address,
        (λ field l p n i.
            other_key "lab_host" field _ updated l
            ∙ updated_device-other ip group name old field p n i),
        (λ other o. other_key key other _ before o),
        first_device-some ip key device (insert key (dict (of_fields device)) before) at_key
            (has_address ip key device address),
      )

get-erase :
    (k j : String) (d : Dict String Value)
    → get j (erase k d) ≡ (if str_eq k j then null else get j d)
unfolding get
get-erase k j d = rw (lookup-erase k j d) (ground arith)

remove_keys-get :
    (keys : List String) (j : String) (ds : Dict String Value)
    → get j (remove_keys keys ds) ≡ (if elem j keys then null else get j ds)
remove_keys-get [] j ds = refl
remove_keys-get (k ∷ keys) j ds =
    ground (arith, remove_keys-get keys j (erase k ds), get-erase k j ds, eq_iff k j, eq_iff j k)

-- On a state with the schema, `remove_device_keys` removes the devices of these keys and no other.
pub remove_device_keys-get :
    (keys : List String) (s : InfraState)
    → HasSchema s.payload
    → (key : String)
    → get key (devices_of (remove_device_keys keys s).payload)
      ≡ (if elem key keys then null else get key (devices_of s.payload))
unfolding remove_device_keys
remove_device_keys-get [] s h key = refl
remove_device_keys-get (k ∷ keys) s h key =
    rw (ensure_dict-present "devices" s.payload h.devices, devices_of-put s.payload _)
      (remove_keys-get (k ∷ keys) key (devices_of s.payload))
