-- ===== src/ControlPlane/Capacity/Admitted.antt =====
-- What `enforce_resource_capacity` admits does not take a lab or a host above its memory.
use docker_interface.Prelude.{
  ◌≡◌, refl, sym, ap, ◌∙◌, Bool, true, false, not, ◌&&◌, List, [], ◌∷◌, ◌++◌, map, Option, none,
  some, if◌then◌else◌, arith, Bool-cases, inl, inr,
}
use docker_interface.Prelude.Int.{ℤ, pos, ◌+ℤ◌, eqb_ℤ, eqb_ℤ_iff, int_laws}
use docker_interface.Py.Float.{Float}
use docker_interface.Py.Result.{ok, raise_if, guard-eq-ok}
use docker_interface.ControlPlane.Rows.{Container, Host, Lab}
use docker_interface.ControlPlane.Session.{Session, labs_of, projects_of, select}
use docker_interface.ControlPlane.Capacity.{
  is_host_unbounded, sum_ℤ, or_zero, lab_memory, add_memory, host_memory, Requested, after, above,
  check_capacity, enforce_resource_capacity,
}

assoc : (a b c : ℤ) → a +ℤ (b +ℤ c) ≡ (a +ℤ b) +ℤ c
assoc a b c = grind int_laws

swap : (a b c : ℤ) → (a +ℤ c) +ℤ b ≡ (a +ℤ b) +ℤ c
swap a b c = grind int_laws

no_change : (a : ℤ) → a ≡ a +ℤ pos 0
no_change a = grind int_laws

-- What a new row adds to a sum over the rows of a lab.
sum-select :
    {A : Type 0} (q : A → Bool) (f : A → ℤ) (x : A) (xs : List A)
    → sum_ℤ (map f (select q (xs ++ x ∷ [])))
      ≡ sum_ℤ (map f (select q xs)) +ℤ (if q x then f x else pos 0)
sum-select q f x [] = elim (Bool-cases (q x)) [
  | inl e ↦ rw e (grind int_laws)
  | inr e ↦ rw e (grind int_laws)
]
sum-select q f x (y ∷ ys) = elim (Bool-cases (q y)) [
  | inl e ↦ rw e (ap (λ n. f y +ℤ n) (sum-select q f x ys) ∙ assoc (f y) _ _)
  | inr e ↦ rw e (sum-select q f x ys)
]

abbrev pub insert_container : Container → Session → Session
insert_container row s = record s { containers = s.containers ++ row ∷ [] }

abbrev share : Container → ℤ → ℤ
share row lab_id = if eqb_ℤ row.lab_id lab_id then or_zero row.memory_limit_mb else pos 0

lab_memory-insert :
    (row : Container) (lab_id : ℤ) (s : Session)
    → lab_memory lab_id (insert_container row s) ≡ lab_memory lab_id s +ℤ share row lab_id
unfolding lab_memory
lab_memory-insert row lab_id s =
    ap (λ n. n +ℤ sum_ℤ (map (λ p. or_zero p.memory_limit_mb) (projects_of lab_id s)))
      (sum-select (λ c. eqb_ℤ c.lab_id lab_id) (λ c. or_zero c.memory_limit_mb) row s.containers)
    ∙ swap _ _ _

-- The lab stands in the list exactly once, or never.
abbrev never : ℤ → List Lab → Bool
never id [] = true
never id (l ∷ ls) = not (eqb_ℤ l.id id) && never id ls

abbrev pub once : ℤ → List Lab → Bool
once id [] = false
once id (l ∷ ls) = if eqb_ℤ l.id id then never id ls else once id ls

module _ (row : Container) (s : Session) where
  add_memory-never :
      (labs : List Lab)
      → never row.lab_id labs ≡ true
      → add_memory (insert_container row s) labs ≡ add_memory s labs
  add_memory-never [] h = refl
  add_memory-never (l ∷ ls) h =
      let other : eqb_ℤ row.lab_id l.id ≡ false =
        ground (arith, eqb_ℤ_iff row.lab_id l.id, eqb_ℤ_iff l.id row.lab_id) in
      let ih = add_memory-never ls (ground arith) in
      let here : lab_memory l.id (insert_container row s) ≡ lab_memory l.id s =
        lab_memory-insert row l.id s ∙ rw other (sym (no_change (lab_memory l.id s))) in
      rw (here, ih)

  add_memory-once :
      (labs : List Lab)
      → once row.lab_id labs ≡ true
      → add_memory (insert_container row s) labs ≡ add_memory s labs +ℤ or_zero row.memory_limit_mb
  add_memory-once [] h = cc
  add_memory-once (l ∷ ls) h = elim (Bool-cases (eqb_ℤ l.id row.lab_id)) [
    | inl same ↦
        let same' : eqb_ℤ row.lab_id l.id ≡ true =
          ground (arith, eqb_ℤ_iff row.lab_id l.id, eqb_ℤ_iff l.id row.lab_id) in
        let ih = add_memory-never ls (rw same at h) in
        let here : lab_memory l.id (insert_container row s)
            ≡ lab_memory l.id s +ℤ or_zero row.memory_limit_mb =
          lab_memory-insert row l.id s ∙ rw same' refl in
        rw (here, ih) (swap (lab_memory l.id s) (add_memory s ls) (or_zero row.memory_limit_mb))
    | inr other ↦
        let other' : eqb_ℤ row.lab_id l.id ≡ false =
          ground (arith, eqb_ℤ_iff row.lab_id l.id, eqb_ℤ_iff l.id row.lab_id) in
        let ih = add_memory-once ls (rw other at h) in
        let here : lab_memory l.id (insert_container row s) ≡ lab_memory l.id s =
          lab_memory-insert row l.id s ∙ rw other' (sym (no_change (lab_memory l.id s))) in
        rw (here, ih) (assoc (lab_memory l.id s) (add_memory s ls) (or_zero row.memory_limit_mb))
  ]

after_new :
    (used : ℤ) (requested : Option ℤ) → after used none requested ≡ used +ℤ or_zero requested
unfolding after
after_new used requested = grind int_laws

fits_after :
    (limit : Option ℤ) (used n : ℤ) {existing requested memory : Option ℤ}
    → existing ≡ none
    → memory ≡ requested
    → n ≡ used +ℤ or_zero memory
    → above limit (after used existing requested) ≡ false
    → above limit n ≡ false
fits_after limit used n {existing} {requested} {memory} fresh same sum h =
    let e : after used existing requested ≡ n =
      ap (λ x. after used x requested) fresh
      ∙ after_new used requested
      ∙ ap (λ m. used +ℤ or_zero m) (sym same)
      ∙ sym sum in
    rw e at h

module _ (fl : Float) (lab : Lab) (host : Host) (r : Requested fl.F) (s : Session) where
  -- The memory checks among the four.
  abbrev MemoryFits : Type 0
  MemoryFits =
      (above lab.memory_limit_mb (after (lab_memory lab.id s) r.existing_memory_mb r.memory_mb)
        ≡ false)
      × (above (some host.memory_total_mb)
            (after (host_memory host.id s) r.existing_memory_mb r.memory_mb)
          ≡ false)

  raise_if-ok : {E : Type 0} (b : Bool) (e : E) → raise_if b e ≡ ok tt → b ≡ false
  raise_if-ok true e h = cc
  raise_if-ok false e h = refl

  checked :
      is_host_unbounded host ≡ false
      → enforce_resource_capacity fl lab host r s ≡ ok tt
      → MemoryFits
  unfolding enforce_resource_capacity check_capacity
  checked bounded h =
      let h0 : check_capacity fl lab host r s ≡ ok tt = rw bounded at h in
      let (cpu, h1) = guard-eq-ok _ _ _ h0 in
      let (memory, h2) = guard-eq-ok _ _ _ h1 in
      let (host_cpu, h3) = guard-eq-ok _ _ _ h2 in (memory, raise_if-ok _ _ h3)

  -- A new container that was admitted on a host with declared resources, with the memory that was asked
  -- for, takes neither its lab above the lab's limit nor the host above its memory, if the host lists the
  -- lab once.
  pub enforce_resource_capacity-above :
      (row : Container)
      → is_host_unbounded host ≡ false
      → r.existing_memory_mb ≡ none
      → row.lab_id ≡ lab.id
      → row.memory_limit_mb ≡ r.memory_mb
      → once lab.id (labs_of host.id s) ≡ true
      → enforce_resource_capacity fl lab host r s ≡ ok tt
      → let s' = insert_container row s in
        (above lab.memory_limit_mb (lab_memory lab.id s') ≡ false)
        × (above (some host.memory_total_mb) (host_memory host.id s') ≡ false)
  unfolding host_memory
  enforce_resource_capacity-above row bounded fresh of_lab memory listed h =
      let (in_lab, on_host) = checked bounded h in
      let same : eqb_ℤ row.lab_id lab.id ≡ true = (eqb_ℤ_iff row.lab_id lab.id).1 of_lab in
      let here : lab_memory lab.id (insert_container row s)
          ≡ lab_memory lab.id s +ℤ or_zero row.memory_limit_mb =
        lab_memory-insert row lab.id s ∙ rw same refl in
      let there = add_memory-once row s (labs_of host.id s) (rw (sym of_lab) at listed) in
      (
        fits_after lab.memory_limit_mb _ _ fresh memory here in_lab,
        fits_after (some host.memory_total_mb) (add_memory s (labs_of host.id s)) _ fresh memory
            there on_host,
      )
