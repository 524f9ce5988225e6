-- ===== src/ControlPlane/Reconcile/Kept/Whole.antt =====
-- A whole reconciliation, and the rows that last.
use docker_interface.Prelude.{String, ◌≡◌, Bool, true, false, List, [], Option, none, some}
use docker_interface.Prelude.Int.{ℤ, eqb_ℤ}
use docker_interface.Py.Dict.{Dict, string_eq}
use docker_interface.Py.Value.{Value}
use docker_interface.ControlPlane.Rows.{Container, Project, Host, Lab}
use docker_interface.ControlPlane.Session.{
  Session, Outside, ◌>>=◌, ◌>>◌, read, for_each, labs_of, containers_of, projects_of, mark_online,
}
use docker_interface.Prelude.{refl, All}
use docker_interface.ControlPlane.Session.{Call}
use docker_interface.ControlPlane.Helpers.{note}
use docker_interface.ControlPlane.Reconcile.Run.{
  reconcile_container, reconcile_project, reconcile_lab, reconcile_with_key, reconcile_for_host,
}
use docker_interface.ControlPlane.Reconcile.Heartbeat.{
  reports, resolve_from_heartbeat_payload, reconcile_resolved, reconcile_heartbeat_payload,
}
use docker_interface.ControlPlane.Reconcile.Kept.{
  lasts, container_with, project_with, listed, Holds, Keeps-delete_container, Keeps-delete_project,
  other-Due, other-ProjectDue,
}
use docker_interface.ControlPlane.Reconcile.Invariant.{
  Keeps, Keeps-return, Keeps-bind, Keeps-read, Keeps-for_each, Keeps-each,
}
use docker_interface.ControlPlane.Reconcile.Invariant.Steps.{Keeps-container, Keeps-project}

module _ (i j : ℤ) (rows : List Container) (project_rows : List Project)
    (h : All (λ c. lasts c.lifetime_type ≡ true) rows)
    (hp : All (λ p. lasts p.lifetime_type ≡ true) project_rows) where
  abbrev H : Session → Type 0
  H s = Holds i j rows project_rows s

  noted : (c : Call) (s : Session) → H s → H (note c s)
  noted c s k = k

  abbrev MayGo : Container → Type 0
  MayGo row = eqb_ℤ row.id i ≡ true → lasts row.lifetime_type ≡ true

  abbrev ProjectMayGo : Project → Type 0
  ProjectMayGo row = eqb_ℤ row.id j ≡ true → lasts row.lifetime_type ≡ true

  All-MayGo : (lab_id : ℤ) (s : Session) → H s → All MayGo (containers_of lab_id s)
  All-MayGo lab_id s k =
      listed (λ c. c.id) (λ c. lasts c.lifetime_type) (λ c. eqb_ℤ c.lab_id lab_id) i s.containers
        (rw k.0 h)

  All-ProjectMayGo : (lab_id : ℤ) (s : Session) → H s → All ProjectMayGo (projects_of lab_id s)
  All-ProjectMayGo lab_id s k =
      listed (λ p. p.id) (λ p. lasts p.lifetime_type) (λ p. eqb_ℤ p.lab_id lab_id) j s.projects
        (rw k.1 hp)

  module _ (outside : Outside) where
    Keeps-projects :
        (host : Host) (api_key : String) (lab : Lab)
        → Keeps H (
            read (projects_of lab.id) >>= λ project_rows.
            for_each project_rows (reconcile_project outside host api_key lab))
    Keeps-projects host api_key lab =
        Keeps-read H (projects_of lab.id)
          (λ ps. for_each ps (reconcile_project outside host api_key lab))
          (λ s k. Keeps-for_each H _ _ _ (All-ProjectMayGo lab.id s k) (λ row k.
            Keeps-project H noted outside host api_key lab row (λ ps d.
              Keeps-delete_project i j rows project_rows row
                (other-ProjectDue outside row ps j k d))))

    Keeps-lab :
        (host : Host) (api_key : String) (known : Dict String (Dict String Value)) (lab : Lab)
        → Keeps H (reconcile_lab outside host api_key known lab)
    unfolding reconcile_lab
    Keeps-lab host api_key known lab =
        Keeps-read H (containers_of lab.id)
          (λ cs.
            for_each cs (reconcile_container outside host api_key lab known)
            >> (read (projects_of lab.id) >>= λ ps.
                for_each ps (reconcile_project outside host api_key lab)))
          (λ s k.
            Keeps-bind H _ _
              (Keeps-for_each H _ _ _ (All-MayGo lab.id s k) (λ row k.
                Keeps-container H noted outside host api_key lab known row (λ runtime d.
                  Keeps-delete_container i j rows project_rows row
                    (other-Due outside row runtime i k d))))
              (λ _. Keeps-projects host api_key lab))

    Keeps-host :
        (key : Option String) (known : Dict String (Dict String Value)) (host : Host)
        → Keeps H (reconcile_with_key outside key known host)
    unfolding reconcile_with_key
    Keeps-host none known host = Keeps-return H _
    Keeps-host (some api_key) known host =
        Keeps-read H (labs_of host.id)
          (λ labs. for_each labs (reconcile_lab outside host api_key known))
          (λ s k. Keeps-each H _ _ (Keeps-lab host api_key known))

    Keeps-mark_online : (now : ℤ) (host : Host) → Keeps H (mark_online now host)
    unfolding mark_online
    Keeps-mark_online now host = record { keeps = λ s k. k }

    Keeps-resolved :
        (payload : Dict String Value) (host : Option Host)
        → Keeps H (reconcile_resolved outside payload host)
    unfolding reconcile_resolved
    Keeps-resolved payload (some host) =
        Keeps-read H (λ s. outside.now s.calls)
          (λ now. mark_online now host >>= λ online.
            reconcile_for_host outside (reports outside payload) online)
          (λ s k. Keeps-bind H _ _ (Keeps-mark_online _ host) (λ online. Keeps-host _ _ online))
    Keeps-resolved payload none =
        Keeps-read H (λ s. s.hosts) (λ hosts. for_each hosts (reconcile_for_host outside []))
          (λ s k. Keeps-each H _ _ (λ host. Keeps-host _ _ host))

    Keeps-run :
        (locked : Bool) (payload : Dict String Value)
        → Keeps H (reconcile_heartbeat_payload outside locked payload)
    unfolding reconcile_heartbeat_payload
    Keeps-run true payload = Keeps-return H _
    Keeps-run false payload =
        Keeps-read H (resolve_from_heartbeat_payload outside payload)
          (λ host. reconcile_resolved outside payload host) (λ s k. Keeps-resolved payload _)

-- A reconciliation run for any heartbeat, with any answers of the lab hosts and even if it raises,
-- leaves the container row and the project row of an id as they are if their lifetimes are persistent
-- or session.
pub reconcile_heartbeat_payload-keeps :
    (outside : Outside) (locked : Bool) (payload : Dict String Value) (s : Session) (i j : ℤ)
    → All (λ c. lasts c.lifetime_type ≡ true) (container_with i s)
    → All (λ p. lasts p.lifetime_type ≡ true) (project_with j s)
    → let s' = (reconcile_heartbeat_payload outside locked payload s).1 in
      (container_with i s' ≡ container_with i s) × (project_with j s' ≡ project_with j s)
reconcile_heartbeat_payload-keeps outside locked payload s i j h hp =
    (Keeps-run i j (container_with i s) (project_with j s) h hp outside locked payload).keeps s
      (refl, refl)
