-- ===== src/ControlPlane/Reconcile/Invariant/Steps.antt =====
-- The steps for one container and one project keep an invariant, if the deletion of a due row does.
use docker_interface.Prelude.{code, String, List, [], ◌∷◌, none, some}
use docker_interface.Prelude.Int.{ℤ}
use docker_interface.Py.Dict.{Dict, string_eq}
use docker_interface.Py.Value.{Value}
use docker_interface.ControlPlane.Rows.{
  LifetimeType, persistent, ephemeral, single_use, session, ProjectDesiredState, running, Container,
  Project, Host, Lab,
}
use docker_interface.ControlPlane.Session.{
  Session, Outside, delete_container_row, delete_project_row,
}
use docker_interface.ControlPlane.Helpers.{Reply}
use docker_interface.Prelude.{refl, inl, inr}
use docker_interface.ControlPlane.Session.{Call}
use docker_interface.ControlPlane.Helpers.{note}
use docker_interface.ControlPlane.Reconcile.{Runtime}
use docker_interface.ControlPlane.Reconcile.Run.{
  fetch_container_summary, reconcile_ephemeral, reconcile_single_use, reconcile_by_lifetime,
  runtime_or_fetch, container_expired, project_expired, reconcile_container,
  remove_project_row_and_runtime, compose_command, converge_project, project_by_lifetime,
  reconcile_project,
}
use docker_interface.ControlPlane.Reconcile.Due.{Due, ProjectDue}
use docker_interface.ControlPlane.Reconcile.Invariant.{
  Keeps, Keeps-return, Keeps-bind, Keeps-if, Keeps-cond, Keeps-when, Keeps-each, Keeps-call,
  Keeps-post, Keeps-delete_route, Keeps-remove_container, Keeps-converge,
}

module _ (H : Session → Type 0) (noted : (c : Call) (s : Session) → H s → H (note c s)) where
  module _ (outside : Outside) where
    module _ (host : Host) (api_key : String) where
      Keeps-ephemeral :
          (lab : Lab) (row : Container) (runtime : Runtime)
          → (Due outside ephemeral row runtime → Keeps H (delete_container_row row))
          → Keeps H (reconcile_ephemeral outside host api_key lab row runtime)
      unfolding reconcile_ephemeral
      Keeps-ephemeral lab row runtime h =
          Keeps-when H (container_expired outside host api_key row) _ _
            (λ s e. Keeps-remove_container H noted outside host api_key lab row (h (s.calls, e)))
            (Keeps-converge H noted outside host api_key row row.status _)

      Keeps-single_use :
          (lab : Lab) (row : Container) (runtime : Runtime)
          → (Due outside single_use row runtime → Keeps H (delete_container_row row))
          → Keeps H (reconcile_single_use outside host api_key lab row runtime)
      unfolding reconcile_single_use
      Keeps-single_use lab row none h =
          Keeps-bind H _ _ (h (inl refl)) (λ _.
            Keeps-delete_route H noted outside host api_key host.base_domain lab.name row.name)
      Keeps-single_use lab row (some payload) h =
          Keeps-cond H _ _ _
            (λ e. Keeps-remove_container H noted outside host api_key lab row (h (inr e)))
            (Keeps-converge H noted outside host api_key row row.status _)

      pub Keeps-by_lifetime :
          (lifetime : LifetimeType) (lab : Lab) (row : Container) (runtime : Runtime)
          → (Due outside lifetime row runtime → Keeps H (delete_container_row row))
          → Keeps H (reconcile_by_lifetime outside host api_key lifetime lab row runtime)
      unfolding reconcile_by_lifetime
      Keeps-by_lifetime session lab row runtime h = Keeps-return H tt
      Keeps-by_lifetime persistent lab row runtime h =
          Keeps-converge H noted outside host api_key row row.status _
      Keeps-by_lifetime ephemeral lab row runtime h = Keeps-ephemeral lab row runtime h
      Keeps-by_lifetime single_use lab row runtime h = Keeps-single_use lab row runtime h

      pub Keeps-runtime :
          (known : Runtime) (ref : String)
          → Keeps H (runtime_or_fetch outside host api_key known ref)
      unfolding runtime_or_fetch fetch_container_summary
      Keeps-runtime none ref =
          Keeps-bind H _ _ (Keeps-call H noted outside host api_key _ _ _) (λ _. Keeps-return H _)
      Keeps-runtime (some payload) ref = Keeps-return H _

      pub Keeps-container :
          (lab : Lab) (known : Dict String (Dict String Value)) (row : Container)
          → ((runtime : Runtime)
              → Due outside row.lifetime_type row runtime
              → Keeps H (delete_container_row row))
          → Keeps H (reconcile_container outside host api_key lab known row)
      unfolding reconcile_container
      Keeps-container lab known row h =
          Keeps-bind H _ _ (Keeps-runtime _ _)
            (λ runtime. Keeps-by_lifetime row.lifetime_type lab row runtime (h runtime))

      Keeps-remove_project :
          (lab : Lab) (row : Project)
          → Keeps H (delete_project_row row)
          → Keeps H (remove_project_row_and_runtime outside host api_key lab row)
      unfolding remove_project_row_and_runtime
      Keeps-remove_project lab row h =
          Keeps-bind H _ _ (Keeps-call H noted outside host api_key _ _ _) (λ _.
            Keeps-bind H _ _
              (Keeps-each H _ _
                (Keeps-delete_route H noted outside host api_key host.base_domain lab.name))
              (λ _. h))

      Keeps-converge_project :
          (row : Project) (state : ProjectDesiredState) (code : ℤ) (cs : List (Dict String Value))
          → Keeps H (converge_project outside host api_key row state code cs)
      unfolding converge_project compose_command
      Keeps-converge_project row running code cs =
          Keeps-if H _ _ _ (Keeps-post H noted outside host api_key _ _ _ _) (Keeps-return H _)
      Keeps-converge_project row ProjectDesiredState.stopped code [] = Keeps-return H _
      Keeps-converge_project row ProjectDesiredState.stopped code (c ∷ cs) =
          Keeps-if H _ _ _ (Keeps-post H noted outside host api_key _ _ _ _) (Keeps-return H _)

      pub Keeps-project_by_lifetime :
          (lifetime : LifetimeType) (lab : Lab) (row : Project) (ps : Reply)
          → (ProjectDue outside lifetime row ps → Keeps H (delete_project_row row))
          → Keeps H (project_by_lifetime outside host api_key lifetime lab row ps)
      unfolding project_by_lifetime
      Keeps-project_by_lifetime session lab row ps h = Keeps-return H _
      Keeps-project_by_lifetime persistent lab row ps h =
          Keeps-converge_project row row.desired_state _ _
      Keeps-project_by_lifetime ephemeral lab row ps h =
          Keeps-when H (project_expired outside host api_key row) _ _
            (λ s e. Keeps-remove_project lab row (h (s.calls, e)))
            (Keeps-converge_project row row.desired_state _ _)
      Keeps-project_by_lifetime single_use lab row ps h =
          Keeps-cond H _ _ _ (λ e. Keeps-remove_project lab row (h e))
            (Keeps-converge_project row row.desired_state _ _)

      pub Keeps-project :
          (lab : Lab) (row : Project)
          → ((ps : Reply)
              → ProjectDue outside row.lifetime_type row ps
              → Keeps H (delete_project_row row))
          → Keeps H (reconcile_project outside host api_key lab row)
      unfolding reconcile_project
      Keeps-project lab row h =
          Keeps-bind H _ _ (Keeps-call H noted outside host api_key _ _ _)
            (λ ps. Keeps-project_by_lifetime row.lifetime_type lab row ps (h ps))
