-- ===== src/ControlPlane/Reconcile/Kept.antt =====
-- Rows that a reconciliation must not delete.
pub mod Whole
use docker_interface.Prelude.{
  ℕ, Char, code, String, ◌≡◌, Bool, true, false, not, ◌&&◌, ◌||◌, List, [], ◌∷◌, ◌++◌, Option, none,
  some, is_some, get_or, str_eq, if◌then◌else◌, any, ◌==◌, ◌*◌,
}
use docker_interface.Prelude.Int.{ℤ, pos, negsuc, ◌-ℤ◌, leb_ℤ, ltb_ℤ, eqb_ℤ}
use docker_interface.Py.Chars.{Chars, chars, to_text, lower, strip, is_alnum, filter}
use docker_interface.Py.Dict.{Dict, string_eq, elem, lookup, insert}
use docker_interface.Py.Value.{
  Value, str, int, list, dict, fields, items, as_dict, as_int, as_str, get, lower_text,
}
use docker_interface.Py.Result.{Result, ok, err, format}
use docker_interface.ControlPlane.Rows.{
  LifetimeType, persistent, ephemeral, single_use, session, ContainerStatus, created, started,
  stopped, paused, ProjectDesiredState, running, Container, Project, Host, Lab,
}
use docker_interface.ControlPlane.Session.{
  HttpError, Method, get as get_method, post, delete, Session, Outside, Step, ◌>>=◌, ◌>>◌, return,
  read, for_each, labs_of, containers_of, projects_of, select, first, delete_container_row,
  delete_project_row, mark_online, exposed_service_names,
}
use docker_interface.ControlPlane.Helpers.{
  Reply, extract_status_code, extract_body, extract_container_from_body, call_lab_host,
  container_path, remove_runtime_container,
}
use docker_interface.Prelude.{refl, sym, ap, ◌∙◌, arith, All, Bool-cases, inl, inr}
use docker_interface.Prelude.Int.{eqb_ℤ_iff}
use docker_interface.ControlPlane.Session.{continue, Call, put_host}
use docker_interface.ControlPlane.Helpers.{answered, note}
use docker_interface.ControlPlane.Reconcile.{
  Runtime, completed, compose_containers_from_ps, all_single_use_success, any_alive, status_in,
  alive,
}
use docker_interface.ControlPlane.Reconcile.Run.{
  call, delete_route, delete_route_below, fetch_container_summary, remove_container_row_and_runtime,
  set_state, converge_container, reconcile_ephemeral, reconcile_single_use, reconcile_by_lifetime,
  runtime_or_fetch, reconcile_container, remove_project_row_and_runtime, compose_command,
  converge_project, project_by_lifetime, reconcile_project, reconcile_lab, reconcile_with_key,
  reconcile_for_host, resolve_host_api_key,
}
use docker_interface.ControlPlane.Reconcile.Heartbeat.{
  reconcile_resolved, reconcile_heartbeat_payload,
}
use docker_interface.ControlPlane.Reconcile.Due.{Due, ProjectDue}
use docker_interface.ControlPlane.Reconcile.Invariant.{Keeps}

-- Such rows live until a request deletes them.
abbrev pub lasts : LifetimeType → Bool
lasts persistent = true
lasts session = true
lasts ephemeral = false
lasts single_use = false

abbrev pub container_with : ℤ → Session → List Container
container_with i s = select (λ c. eqb_ℤ c.id i) s.containers

abbrev pub project_with : ℤ → Session → List Project
project_with i s = select (λ p. eqb_ℤ p.id i) s.projects

-- A selection by a test that excludes the deleted rows is not changed.
select-select {ℓ} :
    {A : Type ℓ} (id : A → ℤ) (i k : ℤ) (xs : List A)
    → eqb_ℤ k i ≡ false
    → select (λ x. eqb_ℤ (id x) i) (select (λ x. not (eqb_ℤ (id x) k)) xs)
      ≡ select (λ x. eqb_ℤ (id x) i) xs
select-select id i k [] h = refl
select-select id i k (x ∷ xs) h =
    ground (arith, select-select id i k xs h, eqb_ℤ_iff (id x) i, eqb_ℤ_iff (id x) k, eqb_ℤ_iff k i)

All-rest {ℓ} :
    {A : Type ℓ} (P : A → Type 0) (b : Bool) (x : A) (r : List A)
    → All P (if b then x ∷ r else r)
    → All P r
All-rest P true x r h = h.1
All-rest P false x r h = h

All_first {ℓ} :
    {A : Type ℓ} (P : A → Type 0) (b : Bool) (x : A) (r : List A)
    → All P (if b then x ∷ r else r)
    → b ≡ true
    → P x
All_first P true x r h e = h.0
All_first P false x r h e = cc

All-if {ℓ} :
    {A : Type ℓ} (P : A → Type 0) (b : Bool) (x : A) (r : List A)
    → P x
    → All P r
    → All P (if b then x ∷ r else r)
All-if P true x r h k = (h, k)
All-if P false x r h k = k

-- What holds of every row of that id holds of a row that is listed, if it has the id.
pub listed {ℓ} :
    {A : Type ℓ} (id : A → ℤ) (good : A → Bool) (q : A → Bool) (i : ℤ) (xs : List A)
    → All (λ x. good x ≡ true) (select (λ x. eqb_ℤ (id x) i) xs)
    → All (λ x. eqb_ℤ (id x) i ≡ true → good x ≡ true) (select q xs)
listed id good q i [] h = tt
listed id good q i (x ∷ xs) h =
    let rest = All-rest (λ x. good x ≡ true) (eqb_ℤ (id x) i) x _ h in
    All-if (λ x. eqb_ℤ (id x) i ≡ true → good x ≡ true) (q x) x _
      (All_first (λ x. good x ≡ true) (eqb_ℤ (id x) i) x _ h) (listed id good q i xs rest)

module _ (i j : ℤ) (rows : List Container) (project_rows : List Project) where
  -- The rows of these ids are these.
  abbrev pub Holds : Session → Type 0
  Holds s = (container_with i s ≡ rows) × (project_with j s ≡ project_rows)

  pub Keeps-delete_container :
      (row : Container) → eqb_ℤ row.id i ≡ false → Keeps Holds (delete_container_row row)
  unfolding delete_container_row
  Keeps-delete_container row h = record {
    keeps = λ s k. (select-select (λ c. c.id) i row.id s.containers h ∙ k.0, k.1);
  }

  pub Keeps-delete_project :
      (row : Project) → eqb_ℤ row.id j ≡ false → Keeps Holds (delete_project_row row)
  unfolding delete_project_row
  Keeps-delete_project row h = record {
    keeps = λ s k. (k.0, select-select (λ p. p.id) j row.id s.projects h ∙ k.1);
  }

-- An id whose rows last differs from that of a row that does not.
other_id : (k i : ℤ) {b : Bool} → (eqb_ℤ k i ≡ true → b ≡ true) → b ≡ false → eqb_ℤ k i ≡ false
other_id k i h e = elim (Bool-cases (eqb_ℤ k i)) [
  | inl same ↦ let x = h same in cc
  | inr other ↦ other
]

Due-lasts :
    (outside : Outside) (lifetime : LifetimeType) (row : Container) (runtime : Runtime)
    → Due outside lifetime row runtime
    → lasts lifetime ≡ false
Due-lasts outside ephemeral row runtime h = refl
Due-lasts outside single_use row runtime h = refl
Due-lasts outside persistent row runtime h = absurd h
Due-lasts outside session row runtime h = absurd h

ProjectDue-lasts :
    (outside : Outside) (lifetime : LifetimeType) (row : Project) (ps : Reply)
    → ProjectDue outside lifetime row ps
    → lasts lifetime ≡ false
ProjectDue-lasts outside ephemeral row ps h = refl
ProjectDue-lasts outside single_use row ps h = refl
ProjectDue-lasts outside persistent row ps h = absurd h
ProjectDue-lasts outside session row ps h = absurd h

pub other-Due :
    (outside : Outside) (row : Container) (runtime : Runtime) (i : ℤ)
    → (eqb_ℤ row.id i ≡ true → lasts row.lifetime_type ≡ true)
    → Due outside row.lifetime_type row runtime
    → eqb_ℤ row.id i ≡ false
other-Due outside row runtime i h d =
    other_id row.id i h (Due-lasts outside row.lifetime_type row runtime d)

pub other-ProjectDue :
    (outside : Outside) (row : Project) (ps : Reply) (j : ℤ)
    → (eqb_ℤ row.id j ≡ true → lasts row.lifetime_type ≡ true)
    → ProjectDue outside row.lifetime_type row ps
    → eqb_ℤ row.id j ≡ false
other-ProjectDue outside row ps j h d =
    other_id row.id j h (ProjectDue-lasts outside row.lifetime_type row ps d)
