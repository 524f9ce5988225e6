-- ===== src/ControlPlane/Reconcile/Due.antt =====
-- When a reconciliation may delete a row.
use docker_interface.Prelude.{◌≡◌, true, List, none}
use docker_interface.Py.Dict.{string_eq}
use docker_interface.ControlPlane.Rows.{
  LifetimeType, persistent, ephemeral, single_use, session, Container, Project,
}
use docker_interface.ControlPlane.Session.{Outside}
use docker_interface.ControlPlane.Helpers.{Reply}
use docker_interface.Prelude.{◌⊎◌}
use docker_interface.ControlPlane.Session.{Call}
use docker_interface.ControlPlane.Reconcile.{
  ttl_expired, Runtime, completed, compose_containers_from_ps, all_single_use_success,
}

-- Its time is over at some moment, or it is for a single use and the runtime that was found says that it
-- is gone or has ended well.
abbrev pub Due : Outside → LifetimeType → Container → Runtime → Type 0
Due outside ephemeral row runtime =
    (calls : List Call) × (ttl_expired (outside.now calls) row.created_at_utc
        row.time_to_live_seconds
      ≡ true)
Due outside single_use row runtime = (runtime ≡ none) ⊎ (completed runtime ≡ true)
Due outside persistent row runtime = ⊥
Due outside session row runtime = ⊥

-- The same of a project, by the answer of `ps`: all its containers have ended well.
abbrev pub ProjectDue : Outside → LifetimeType → Project → Reply → Type 0
ProjectDue outside ephemeral row ps =
    (calls : List Call) × (ttl_expired (outside.now calls) row.created_at_utc
        row.time_to_live_seconds
      ≡ true)
ProjectDue outside single_use row ps = all_single_use_success (compose_containers_from_ps ps) ≡ true
ProjectDue outside persistent row ps = ⊥
ProjectDue outside session row ps = ⊥
