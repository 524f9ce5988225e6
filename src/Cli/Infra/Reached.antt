-- ===== src/Cli/Infra/Reached.antt =====
-- Every state of the state file that the operations reach, from any file.
use docker_interface.Prelude.{
  String, ◌≡◌, refl, sym, ap, ◌∙◌, Bool, true, false, [], ◌∷◌, some, str_eq, arith, Bool-cases,
  Option-cases, inl, inr,
}
use docker_interface.Prelude.Int.{ℤ}
use docker_interface.Py.Dict.{Dict, string_eq, lookup, insert}
use docker_interface.Py.Value.{Value, null, int, dict, of_fields, get, fields-of_fields}
use docker_interface.Py.Result.{ok, ok_injective}
use docker_interface.Cli.Infra.{InfraState, schema_version, save, is_dict, empty_dict, ensure_dict}
use docker_interface.Cli.Infra.Schema.{needs_migration, with_sections, ensure_schema, load}
use docker_interface.Cli.Infra.Ops.{
  Operation, provision_type, terraform, control_plane, lab_host, lan_devices, remove, device,
  save_now, clear, run, writes, touch_device, remove_device_keys, set_terraform, set_control_plane,
  set_lab_host, set_lan_for_devices, lan_values,
}
use docker_interface.Cli.Infra.Kept.{
  same_key, other_key, HasSchema, HaveSchema, IsSaved, save-IsSaved, saved-HaveSchema,
  ensure_dict-present, set_provision_type-ok, remove_device_keys-IsSaved, reset-IsSaved,
  upsert_device-HasSchema, upsert_lan-HasSchema, insert-terraform,
}

-- An operation that writes returns a state that is saved.
run-IsSaved :
    (op : Operation) (s : InfraState)
    → HasSchema s.payload
    → writes op ≡ true
    → (t : InfraState) × (run op s ≡ ok t) × IsSaved t
unfolding set_terraform set_control_plane set_lab_host set_lan_for_devices
run-IsSaved (provision_type t) s h w = set_provision_type-ok t s h
run-IsSaved (terraform values) s h w =
    (_, refl, save-IsSaved _ (insert-terraform s.payload values h))
run-IsSaved (control_plane ip values group name) s h w =
    (_, refl, save-IsSaved _ (upsert_device-HasSchema _ _ _ _ s.payload h))
run-IsSaved (lab_host ip values group name) s h w =
    (_, refl, save-IsSaved _ (upsert_device-HasSchema _ _ _ _ s.payload h))
run-IsSaved (lan_devices hosts user path password) s h w = (
  _,
  refl,
  save-IsSaved _ (upsert_lan-HasSchema (lan_values user path password) hosts s.payload h),
)
run-IsSaved (remove []) s h w = absurd (let x : false ≡ true = w in cc)
run-IsSaved (remove (key ∷ keys)) s h w = (_, refl, remove_device_keys-IsSaved key keys s h)
run-IsSaved (device ip group name change) s h w = absurd (let x : false ≡ true = w in cc)
run-IsSaved save_now s h w = (_, refl, save-IsSaved _ h)
run-IsSaved clear s h w = (_, refl, reset-IsSaved s)

written :
    (op : Operation) (s : InfraState)
    → HaveSchema s
    → writes op ≡ true
    → (t : InfraState) × (run op s ≡ ok t) × HaveSchema t
written op s h w =
    let (t, e, saved) = run-IsSaved op s h.in_memory w in (t, e, saved-HaveSchema t saved)

-- What does not write leaves the file as it is.
run-HaveSchema :
    (op : Operation) (s : InfraState)
    → HaveSchema s
    → (t : InfraState) × (run op s ≡ ok t) × HaveSchema t
unfolding touch_device remove_device_keys
run-HaveSchema (device ip group name change) s h = (
  _,
  refl,
  record {
    in_memory = upsert_device-HasSchema ip group name change s.payload h.in_memory;
    in_file = h.in_file;
  },
)
run-HaveSchema (remove []) s h = (s, refl, h)
run-HaveSchema (provision_type t) s h = written (provision_type t) s h refl
run-HaveSchema (terraform values) s h = written (terraform values) s h refl
run-HaveSchema (control_plane ip values group name) s h =
    written (control_plane ip values group name) s h refl
run-HaveSchema (lab_host ip values group name) s h =
    written (lab_host ip values group name) s h refl
run-HaveSchema (lan_devices hosts user path password) s h =
    written (lan_devices hosts user path password) s h refl
run-HaveSchema (remove (key ∷ keys)) s h = written (remove (key ∷ keys)) s h refl
run-HaveSchema save_now s h = written save_now s h refl
run-HaveSchema clear s h = written clear s h refl

ensure_dict-same : (k : String) (d : Dict String Value) → is_dict (get k (ensure_dict k d)) ≡ true
unfolding ensure_dict
ensure_dict-same k d = elim (Bool-cases (is_dict (get k d))) [
  | inl e ↦ rw e e
  | inr e ↦ rw e (ap is_dict (same_key k empty_dict d))
]

ensure_dict-other :
    (k j : String) (d : Dict String Value)
    → str_eq k j ≡ false
    → is_dict (get j d) ≡ true
    → is_dict (get j (ensure_dict k d)) ≡ true
unfolding ensure_dict
ensure_dict-other k j d other h = elim (Bool-cases (is_dict (get k d))) [
  | inl e ↦ rw e h
  | inr e ↦ rw e (ap is_dict (other_key k j empty_dict d other) ∙ h)
]

with_sections-HasSchema : (d : Dict String Value) → HasSchema (with_sections d)
with_sections-HasSchema d =
    let keep =
      λ (k : String) (e : Dict String Value) (o : str_eq "schema_version" k ≡ false)
          (h : is_dict (get k e) ≡ true).
        ap is_dict (other_key "schema_version" k (int schema_version) e o) ∙ h in
    let p = ensure_dict "provision" d in
    let q = ensure_dict "devices" p in
    let r = ensure_dict "terraform" q in
    record {
      version = same_key "schema_version" _ r;
      provision = keep "provision" r refl (
          ensure_dict-other "terraform" "provision" q refl
            (ensure_dict-other "devices" "provision" p refl (ensure_dict-same "provision" d)));
      devices =
          keep "devices" r refl
            (ensure_dict-other "terraform" "devices" q refl (ensure_dict-same "devices" p));
      terraform = keep "terraform" r refl (ensure_dict-same "terraform" q);
    }

-- An entry that is there already is not changed.
insert-present :
    (k : String) (v : Value) (d : Dict String Value) → lookup k d ≡ some v → insert k v d ≡ d
unfolding lookup insert
insert-present k v [] h = cc
insert-present k v ((j, w) ∷ d) h = ground (arith, insert-present k v d)

lookup-of-get :
    (k : String) (n : ℤ) (d : Dict String Value) → get k d ≡ int n → lookup k d ≡ some (int n)
unfolding get
lookup-of-get k n d h = elim (Option-cases (lookup k d)) [
  | inl e ↦ absurd (let x : null ≡ int n = rw e at h in cc)
  | inr (v, e) ↦ let x : v ≡ int n = rw e at h in e ∙ ap some x
]

pub with_sections-present : (d : Dict String Value) → HasSchema d → with_sections d ≡ d
with_sections-present d h =
    rw
      (
        ensure_dict-present "provision" d h.provision,
        ensure_dict-present "devices" d h.devices,
        ensure_dict-present "terraform" d h.terraform,
      )
      (insert-present _ _ d (lookup-of-get "schema_version" schema_version d h.version))

pub current : (d : Dict String Value) → HasSchema d → needs_migration d ≡ false
unfolding needs_migration
current d h = rw (h.version, h.devices) refl

module _ (is_ip : String → Bool) where
  load-IsSaved : (file : Value) → IsSaved (load is_ip file)
  unfolding load ensure_schema
  load-IsSaved file = save-IsSaved _ (with_sections-HasSchema _)

  -- The states from the start of a program on.
  pub data Reached (file : Value) : InfraState → Type 0 where
    opened : Reached file (load is_ip file)
    then_run :
        {s t : InfraState} → Reached file s → (op : Operation) → run op s ≡ ok t → Reached file t

  Reached-HaveSchema : {file : Value} {s : InfraState} → Reached file s → HaveSchema s
  Reached-HaveSchema {file} opened = saved-HaveSchema _ (load-IsSaved file)
  Reached-HaveSchema (then_run r op h) =
      let (t, e, kept) = run-HaveSchema op _ (Reached-HaveSchema r) in
      let same : ok t ≡ ok _ = sym e ∙ h in rw (ok_injective same) at kept

  written-saved :
      (op : Operation) (s t : InfraState)
      → HasSchema s.payload
      → writes op ≡ true
      → run op s ≡ ok t
      → t.file ≡ t.payload
  written-saved op s t h w e =
      let (t', e', saved) = run-IsSaved op s h w in
      let same : ok t' ≡ ok t = sym e' ∙ e in rw (ok_injective same) at saved.saved

  unwritten :
      (op : Operation) (s t : InfraState) → writes op ≡ false → run op s ≡ ok t → t.file ≡ s.file
  unfolding touch_device remove_device_keys
  unwritten (device ip group name change) s t w e =
      sym (ap (λ (x : InfraState). x.file) (ok_injective e))
  unwritten (remove []) s t w e = sym (ap (λ (x : InfraState). x.file) (ok_injective e))
  unwritten (provision_type _) s t w e = absurd (let x : true ≡ false = w in cc)
  unwritten (terraform _) s t w e = absurd (let x : true ≡ false = w in cc)
  unwritten (control_plane _ _ _ _) s t w e = absurd (let x : true ≡ false = w in cc)
  unwritten (lab_host _ _ _ _) s t w e = absurd (let x : true ≡ false = w in cc)
  unwritten (lan_devices _ _ _ _) s t w e = absurd (let x : true ≡ false = w in cc)
  unwritten (remove (_ ∷ _)) s t w e = absurd (let x : true ≡ false = w in cc)
  unwritten save_now s t w e = absurd (let x : true ≡ false = w in cc)
  unwritten clear s t w e = absurd (let x : true ≡ false = w in cc)

  -- In a state that any operations have reached from any file, the memory and the file have the schema of
  -- the present version, and an operation that writes makes the file hold the document of the memory.
  pub Reached-HasSchema :
      (file : Value) (s : InfraState)
      → Reached file s
      → HasSchema s.payload
        × HasSchema s.file
        × ((op : Operation) (t : InfraState)
            → writes op ≡ true
            → run op s ≡ ok t
            → t.file ≡ t.payload)
  Reached-HasSchema file s r =
      let h = Reached-HaveSchema r in
      (h.in_memory, h.in_file, λ op t w e. written-saved op s t h.in_memory w e)

  -- In a state that was reached no operation raises: every one of them returns a state.
  pub Reached-returns :
      (file : Value) (s : InfraState)
      → Reached file s
      → (op : Operation) → (t : InfraState) × (run op s ≡ ok t)
  Reached-returns file s r op = let (t, e, _) = run-HaveSchema op s (Reached-HaveSchema r) in (t, e)

  load-same :
      (s : InfraState) → HasSchema s.file → load is_ip (dict (of_fields s.file)) ≡ save s.file
  unfolding load ensure_schema
  load-same s h =
      rw (fields-of_fields s.file, current s.file h, with_sections-present s.file h) refl

  -- A program that opens the file which another has left finds the document that was written last: nothing
  -- is migrated or completed. Behind an operation that writes this is the whole state of the other, and
  -- behind one that does not write it is what the other had written before.
  pub load-file :
      (file : Value) (s : InfraState)
      → Reached file s
      → (op : Operation) (t : InfraState) → run op s ≡ ok t
      → (writes op ≡ true → load is_ip (dict (of_fields t.file)) ≡ t)
        × (writes op ≡ false → load is_ip (dict (of_fields t.file)) ≡ save s.file)
  load-file file s r op t e = (
    λ w.
        let h = Reached-HaveSchema r in
        let same = written-saved op s t h.in_memory w e in
        load-same t (Reached-HaveSchema (then_run r op e)).in_file
        ∙ (let x : save t.file ≡ record t { file = t.file; payload = t.file } = refl in
            rw same refl),
    λ w.
        load-same t (Reached-HaveSchema (then_run r op e)).in_file ∙ ap save (unwritten op s t w e),
  )
