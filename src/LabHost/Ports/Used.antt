-- ===== src/LabHost/Ports/Used.antt =====
-- `_used_host_ports` collects exactly the published ports.
use mathlib.Core.List.{foldl}
use docker_interface.Prelude.{
  ℕ, String, ◌≡◌, ◌↔◌, refl, sym, ap, ◌∙◌, inl, inr, Bool, true, false, ◌||◌, List, [], ◌∷◌, map,
  arith, any, Elem, Option, none, some, get_or, Bool-cases,
}
use docker_interface.Prelude.Int.{ℤ, pos, eqb_ℤ, eqb_ℤ_iff}
use docker_interface.Py.Chars.{chars}
use docker_interface.Py.Chars.Digits.{isdigit, int_of}
use docker_interface.Py.Dict.{Dict, int_eq, string_eq, elem, values}
use docker_interface.Py.Value.{
  Value, null, bool, int, float, str, list, dict, as_dict, as_list, dict_or_empty, list_or_empty,
  get,
}
use docker_interface.LabHost.Ports.{
  PortSet, DockerContainer, list_containers, digits_value, binding_port, add_binding,
  add_binding_list, port_bindings, add_container, used_host_ports,
}

-- A loop that adds what its elements bring holds what one of them brings, or what it began with.
fold_elem {ℓ} :
    {A : Type ℓ} (p : ℤ) (step : PortSet → A → PortSet) (brings : A → Bool)
    → ((used : PortSet) (x : A) → elem p (step used x) ≡ (brings x || elem p used))
    → (xs : List A) (used : PortSet) → elem p (foldl step used xs) ≡ (any brings xs || elem p used)
fold_elem p step brings h [] used = refl
fold_elem p step brings h (x ∷ xs) used =
    ground (arith, h used x, fold_elem p step brings h xs (step used x))

abbrev is_port : ℤ → Option ℤ → Bool
is_port p none = false
is_port p (some q) = eqb_ℤ p q

-- One entry of a container's `PortBindings` publishes the port.
abbrev publishes : ℤ → Value → Bool
publishes p attrs =
    any (λ bindings. any (λ binding. is_port p (binding_port binding)) (list_or_empty bindings))
      (values (port_bindings attrs))

elem-add_binding :
    (p : ℤ) (used : PortSet) (binding : Value)
    → elem p (add_binding used binding) ≡ (is_port p (binding_port binding) || elem p used)
elem-add_binding p used binding = ground arith

elem-add_binding_list :
    (p : ℤ) (used : PortSet) (bindings : Value)
    → elem p (add_binding_list used bindings)
      ≡ (any (λ b. is_port p (binding_port b)) (list_or_empty bindings) || elem p used)
elem-add_binding_list p used bindings =
    elim (as_list bindings)
      as (λ o.
        elem p (elim o [ none ↦ used | some bs ↦ foldl add_binding used bs ])
        ≡ (any (λ b. is_port p (binding_port b)) (get_or o []) || elem p used)) [
          | none ↦ refl
          | some bs ↦
              fold_elem p add_binding (λ b. is_port p (binding_port b)) (elem-add_binding p) bs used
        ]

elem-add_container :
    (p : ℤ) (used : PortSet) (attrs : Value)
    → elem p (add_container used attrs) ≡ (publishes p attrs || elem p used)
elem-add_container p used attrs =
    fold_elem p add_binding_list (λ bs. any (λ b. is_port p (binding_port b)) (list_or_empty bs))
      (elem-add_binding_list p) (values (port_bindings attrs)) used

elem-used_lem :
    (p : ℤ) (containers : List DockerContainer)
    → elem p (used_host_ports containers)
      ≡ any (publishes p) (map (λ c. c.attrs) (list_containers true containers))
unfolding used_host_ports
elem-used_lem p containers =
    let listed = map (λ c. c.attrs) (list_containers true containers) in
    ground (arith, fold_elem p add_container (publishes p) (elem-add_container p) listed [])

any-Elem :
    {A : Type 0} (q : A → Bool) (xs : List A)
    → any q xs ≡ true ↔ ((x : A) × Elem x xs × (q x ≡ true))
any-Elem q [] = (λ h. cc, λ h. let (x, m, _) = h in absurd m)
any-Elem q (x ∷ xs) = (
  λ h. elim (Bool-cases (q x)) [
    | inl e ↦ (x, inl refl, e)
    | inr e ↦ let (y, m, k) = (any-Elem q xs).0 (ground arith) in (y, inr m, k)
  ],
  λ h.
      let (y, m, k) = h in
      elim m [
        | inl same ↦ let k' : q x ≡ true = rw same at k in ground arith
        | inr below ↦ let rest = (any-Elem q xs).1 (y, below, k) in ground arith
      ],
)

-- The binding is a dictionary whose `HostPort` is a text of digits, with this number.
abbrev pub BindsTo : ℤ → Value → Type 0
BindsTo p binding =
    (entries : Dict String Value) × (as_dict binding ≡ some entries)
    × ((text : String) × (get "HostPort" entries ≡ str text)
        × (isdigit (chars text) ≡ true)
        × (p ≡ pos (int_of (chars text))))

-- A binding in one of the lists below `HostConfig` and `PortBindings` is to the port.
abbrev pub Publishes : ℤ → Value → Type 0
Publishes p attrs =
    let host_config = dict_or_empty (get "HostConfig" (dict_or_empty attrs)) in
    (bindings : Value) × Elem bindings (values (dict_or_empty (get "PortBindings" host_config)))
    × ((binding : Value) × Elem binding (list_or_empty bindings) × BindsTo p binding)

port-some :
    (p : ℤ) (o : Option ℕ)
    → is_port p (elim o [ none ↦ none | some n ↦ some (pos n) ]) ≡ true
      ↔ ((n : ℕ) × (o ≡ some n) × (p ≡ pos n))
port-some p none = (λ h. cc, λ h. let (n, e, _) = h in cc)
port-some p (some n) = (
  λ h. (n, refl, (eqb_ℤ_iff p (pos n)).0 h),
  λ h. let (m, e, k) = h in let same : n ≡ m = cc in (eqb_ℤ_iff p (pos n)).1 (rw same k),
)

abbrev IsNumber : Value → ℕ → Type 0
IsNumber v n =
    (text : String) × (v ≡ str text) × (isdigit (chars text) ≡ true) × (n ≡ int_of (chars text))

number_of :
    (s : String) → (isdigit (chars s) ≡ true) → digits_value (str s) ≡ some (int_of (chars s))
unfolding digits_value isdigit int_of chars
number_of s h = rw h refl

no_number : (s : String) → (isdigit (chars s) ≡ false) → digits_value (str s) ≡ none
unfolding digits_value isdigit int_of chars
no_number s h = rw h refl

digits-IsNumber : (v : Value) (n : ℕ) → digits_value v ≡ some n → IsNumber v n
unfolding digits_value
digits-IsNumber (str s) n h = elim (Bool-cases (isdigit (chars s))) [
  | inl e ↦ let x : some (int_of (chars s)) ≡ some n = sym (number_of s e) ∙ h in (s, refl, e, cc)
  | inr e ↦ absurd (let x : none ≡ some n = sym (no_number s e) ∙ h in cc)
]
digits-IsNumber null n h = cc
digits-IsNumber (bool b) n h = cc
digits-IsNumber (int i) n h = cc
digits-IsNumber (float x) n h = cc
digits-IsNumber (list vs) n h = cc
digits-IsNumber (dict fs) n h = cc

IsNumber-digits : (v : Value) (n : ℕ) → IsNumber v n → digits_value v ≡ some n
IsNumber-digits v n h = let (s, e, d, k) = h in rw (e, k) (number_of s d)

port_of : Option (Dict String Value) → Option ℤ
port_of none = none
port_of (some d) = elim (digits_value (get "HostPort" d)) [ none ↦ none | some n ↦ some (pos n) ]

binding_port-port_of : (binding : Value) → binding_port binding ≡ port_of (as_dict binding)
unfolding binding_port port_of digits_value get
binding_port-port_of binding = refl

port_of-BindsTo :
    (p : ℤ) (o : Option (Dict String Value))
    → is_port p (port_of o) ≡ true ↔ (
        (entries : Dict String Value) × (o ≡ some entries)
        × ((text : String) × (get "HostPort" entries ≡ str text)
            × (isdigit (chars text) ≡ true)
            × (p ≡ pos (int_of (chars text)))))
unfolding port_of
port_of-BindsTo p none = (λ h. cc, λ h. let (entries, e, _) = h in cc)
port_of-BindsTo p (some d) = (
  λ h.
      let (n, e, k) = (port-some p (digits_value (get "HostPort" d))).0 h in
      let (text, e', digits, same) = digits-IsNumber (get "HostPort" d) n e in
      (d, refl, (text, e', digits, k ∙ ap pos same)),
  λ h.
      let (entries, e, (text, e', digits, k)) = h in
      let here : d ≡ entries = cc in
      (port-some p (digits_value (get "HostPort" d))).1
        (int_of (chars text), IsNumber-digits _ _ (text, rw here e', digits, refl), k),
)

binding-BindsTo :
    (p : ℤ) (binding : Value) → is_port p (binding_port binding) ≡ true ↔ BindsTo p binding
binding-BindsTo p binding = rw (binding_port-port_of binding) (port_of-BindsTo p (as_dict binding))

publishes-Publishes : (p : ℤ) (attrs : Value) → publishes p attrs ≡ true ↔ Publishes p attrs
unfolding port_bindings
publishes-Publishes p attrs =
    let brings : Value → Bool = λ binding. is_port p (binding_port binding) in
    let all_bindings =
      any-Elem (λ bs. any brings (list_or_empty bs)) (values (port_bindings attrs)) in
    (
      λ h.
          let (bindings, m, k) = all_bindings.0 h in
          let (binding, m', k') = (any-Elem brings (list_or_empty bindings)).0 k in
          (bindings, m, (binding, m', (binding-BindsTo p binding).0 k')),
      λ h.
          let (bindings, m, (binding, m', b)) = h in
          let k =
            (any-Elem brings (list_or_empty bindings)).1
              (binding, m', (binding-BindsTo p binding).1 b) in
          all_bindings.1 (bindings, m, k),
    )

all_listed : (containers : List DockerContainer) → list_containers true containers ≡ containers
all_listed [] = refl
all_listed (c ∷ cs) = ap (λ r. c ∷ r) (all_listed cs)

any-map :
    {A B : Type 0} (q : B → Bool) (f : A → B) (xs : List A)
    → any q (map f xs) ≡ any (λ x. q (f x)) xs
any-map q f [] = refl
any-map q f (x ∷ xs) = ap (λ r. q (f x) || r) (any-map q f xs)

-- A port is in the result exactly if a container of the daemon, running or not, publishes it.
pub elem-used_host_ports :
    (p : ℤ) (containers : List DockerContainer)
    → elem p (used_host_ports containers) ≡ true
      ↔ ((c : DockerContainer) × Elem c containers × Publishes p c.attrs)
elem-used_host_ports p containers =
    let found = any-Elem (λ (c : DockerContainer). publishes p c.attrs) containers in
    let same : elem p (used_host_ports containers) ≡ any (λ c. publishes p c.attrs) containers =
      elem-used_lem p containers
      ∙ ap (λ cs. any (publishes p) (map (λ (c : DockerContainer). c.attrs) cs))
          (all_listed containers)
      ∙ any-map (publishes p) (λ c. c.attrs) containers in
    (
      λ h. let (c, m, k) = found.0 (sym same ∙ h) in (c, m, (publishes-Publishes p c.attrs).0 k),
      λ h. let (c, m, k) = h in same ∙ found.1 (c, m, (publishes-Publishes p c.attrs).1 k),
    )
