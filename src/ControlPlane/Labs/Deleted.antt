-- ===== src/ControlPlane/Labs/Deleted.antt =====
-- `delete_lab` removes a lab with its rows, or changes no row.
use docker_interface.Prelude.{
  String, ◌≡◌, refl, sym, ap, Bool, not, List, [], ◌∷◌, Option, none, some, Bool-cases, inl, inr,
}
use docker_interface.Prelude.Int.{ℤ, eqb_ℤ}
use docker_interface.Py.Result.{ok, err}
use docker_interface.ControlPlane.Rows.{Container, Project, Network, Host, Lab}
use docker_interface.ControlPlane.Session.{
  HttpError, Session, Outside, Step, ◌>>=◌, read, select, containers_of, projects_of, post,
}
use docker_interface.ControlPlane.Connection.{resolve_lab_host_connection}
use docker_interface.ControlPlane.Reconcile.Invariant.{Keeps, Keeps-read}
use docker_interface.ControlPlane.Labs.{
  lab_by_name, networks_of, delete_projects, delete_containers, delete_networks, delete_lab_row,
  write, key_text,
}
use docker_interface.ControlPlane.Labs.Delete.{
  report, DeletedLab, collect, delete_rows, remove_lab, named_lab, delete_lab,
}
use docker_interface.ControlPlane.Labs.Steps.{
  SameRows, call-Keeps, collect-Keeps, remove_project-Keeps, remove_container-Keeps,
  remove_network-Keeps,
}
use docker_interface.ControlPlane.Labs.Triples.{
  After-ok, After-err, Triple, Triple-bind, Triple-return, Triple-keeps, Triple-check, Triple-write,
  Triple-fact,
}

select-twice : {A : Type 0} (p : A → Bool) (xs : List A) → select p (select p xs) ≡ select p xs
select-twice p [] = refl
select-twice p (x ∷ xs) = elim (Bool-cases (p x)) [
  | inl e ↦ rw e (rw e (ap (◌∷◌ x) (select-twice p xs)))
  | inr e ↦ rw e (select-twice p xs)
]

-- The four deletions remove what the last one would remove alone.
delete_all :
    (id : ℤ) (s : Session)
    → delete_lab_row id (delete_networks id (delete_containers id (delete_projects id s)))
      ≡ delete_lab_row id s
delete_all id s =
    rw
      (
        select-twice (λ (p : Project). not (eqb_ℤ p.lab_id id)) s.projects,
        select-twice (λ (c : Container). not (eqb_ℤ c.lab_id id)) s.containers,
        select-twice (λ (n : Network). not (eqb_ℤ n.lab_id id)) s.networks,
      )
      refl

some-ok :
    (lab_name : String) (o : Option Lab) {lab : Lab} → named_lab lab_name o ≡ ok lab → o ≡ some lab
some-ok lab_name none h = cc
some-ok lab_name (some a) {lab} h = let e : a ≡ lab = cc in ap some e

module _ (outside : Outside) (base : Session) where
  -- After an exception the rows are those of the start.
  abbrev Unchanged : HttpError → Session → Type 0
  Unchanged e s = SameRows base s

  quiet :
      {A : Type 0} (m : Step A)
      → Keeps (SameRows base) m
      → Triple Unchanged (SameRows base) m (λ _. SameRows base)
  quiet m k = Triple-keeps Unchanged (SameRows base) m k (λ e s h. h)

  delete_rows-rows :
      (host : Host) (api_key : String) (lab : Lab)
      → Triple Unchanged
          (SameRows base)
          (delete_rows outside host api_key lab)
          (λ _. SameRows (delete_lab_row lab.id base))
  delete_rows-rows host api_key lab =
      let id = lab.id in
      let b1 = delete_projects id base in
      let b2 = delete_containers id b1 in
      let b3 = delete_networks id b2 in
      let last : Triple Unchanged (SameRows b3) (write (delete_lab_row id))
          (λ _. SameRows (delete_lab_row id base)) =
        rw (sym (delete_all id base))
          (Triple-write Unchanged b3 (delete_lab_row id) (λ s h. ap (delete_lab_row id) h)) in
      Triple-bind Unchanged _ _ (λ _. SameRows b1) _
        (Triple-write Unchanged base (delete_projects id) (λ s h. ap (delete_projects id) h))
        λ _.
          Triple-bind Unchanged _ _ (λ _. SameRows b2) _
            (Triple-write Unchanged b1 (delete_containers id) (λ s h. ap (delete_containers id) h))
            λ _.
              Triple-bind Unchanged _ _ (λ _. SameRows b3) _
                (Triple-write Unchanged b2 (delete_networks id) (λ s h. ap (delete_networks id) h))
                λ _. last

  module _ (host : Host) (api_key : String) (lab : Lab) where
    collected :
        {A B : Type 0} (rows : Session → List A) (f : A → Step B)
        → ((x : A) → Keeps (SameRows base) (f x))
        → Triple Unchanged (SameRows base) (read rows >>= λ xs. collect xs f) (λ _. SameRows base)
    collected rows f h = quiet _ (
        Keeps-read (SameRows base) rows (λ xs. collect xs f) λ s _. collect-Keeps base (rows s) f h)

    remove_lab-rows :
        (lab_name : String)
        → Triple Unchanged
            (SameRows base)
            (remove_lab outside host api_key lab lab_name)
            (λ _. SameRows (delete_lab_row lab.id base))
    remove_lab-rows lab_name =
        let gone = SameRows (delete_lab_row lab.id base) in
        Triple-bind Unchanged _ _ (λ _. SameRows base) (λ _. gone)
          (collected (projects_of lab.id) _ (remove_project-Keeps base outside host api_key lab))
          λ projects.
            Triple-bind Unchanged _ _ (λ _. SameRows base) (λ _. gone)
              (collected (containers_of lab.id) _
                (remove_container-Keeps base outside host api_key lab))
              λ containers.
                Triple-bind Unchanged _ _ (λ _. SameRows base) (λ _. gone)
                  (collected (networks_of lab.id) _
                    (remove_network-Keeps base outside host api_key lab))
                  λ networks.
                    Triple-bind Unchanged _ _ (λ _. SameRows base) (λ _. gone)
                      (quiet _ (call-Keeps base outside host api_key post "/volumes/prune" []))
                      λ pruned.
                        Triple-bind Unchanged _ _ (λ _. gone) (λ _. gone)
                          (delete_rows-rows host api_key lab)
                          λ _.
                            Triple-return Unchanged
                              (report lab_name projects containers networks pruned) (λ _. gone)
                              (λ s h. h)

  named_lab-ok :
      (lab_name : String) (s : Session) {lab : Lab}
      → SameRows base s
      → named_lab lab_name (lab_by_name lab_name s) ≡ ok lab
      → lab_by_name lab_name base ≡ some lab
  named_lab-ok lab_name s {lab} same h =
      let e : lab_by_name lab_name s ≡ lab_by_name lab_name base = ap (lab_by_name lab_name) same in
      some-ok lab_name (lab_by_name lab_name base) (rw e at h)

  -- What `delete_lab` leaves in the database.
  pub delete_lab-after :
      (lab_name : String)
      → Triple Unchanged (SameRows base) (delete_lab outside lab_name) (λ _ s.
        (lab : Lab) × (lab_by_name lab_name base ≡ some lab)
        × SameRows (delete_lab_row lab.id base) s)
  unfolding delete_lab
  delete_lab-after lab_name =
      Triple-bind Unchanged _ _ _ _
        (Triple-check Unchanged (SameRows base) (λ s. named_lab lab_name (lab_by_name lab_name s))
          (λ e s h. h))
        λ lab.
          Triple-bind Unchanged _ _ _ _
            (Triple-check Unchanged _ (resolve_lab_host_connection outside lab) (λ e s h. h.0))
            λ connection.
              Triple-fact Unchanged _ (SameRows base) (lab_by_name lab_name base ≡ some lab) _ _ _
                (λ s p. (p.0.0, named_lab-ok lab_name s p.0.0 p.0.1))
                (remove_lab-rows connection.0 (key_text connection.1) lab lab_name)
                (λ found d s same. (lab, found, same))

-- A `delete_lab` that raises has changed no row. One that returns has removed the lab of that name and
-- every container, project and network of it, and no other row, whatever the lab host has refused.
pub delete_lab-rows :
    (outside : Outside) (lab_name : String) (s : Session)
    → ((e : HttpError)
        → (delete_lab outside lab_name s).0 ≡ err e
        → SameRows s (delete_lab outside lab_name s).1)
      × ((d : DeletedLab)
          → (delete_lab outside lab_name s).0 ≡ ok d
          → (lab : Lab) × (lab_by_name lab_name s ≡ some lab)
            × SameRows (delete_lab_row lab.id s) (delete_lab outside lab_name s).1)
delete_lab-rows outside lab_name s =
    let h = (delete_lab-after outside s lab_name).holds s refl in
    (
      λ e q. After-err _ _ (delete_lab outside lab_name s) h q,
      λ d q. After-ok _ _ (delete_lab outside lab_name s) h q,
    )
