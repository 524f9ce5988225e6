-- ===== src/ControlPlane/Reconcile/OnlyDue.antt =====
-- The reconciliation of one container deletes no other row, and its own only if it is due.
use docker_interface.Prelude.{ℕ, ◌*◌, String, ◌≡◌, ◌≢◌, ◌⊎◌, true, not, List, Option, none, some}
use docker_interface.Prelude.Int.{ℤ, pos, ◌-ℤ◌, leb_ℤ, eqb_ℤ}
use docker_interface.Py.Dict.{Dict, string_eq}
use docker_interface.Py.Value.{Value, as_str, as_int, get, lower_text}
use docker_interface.Py.Result.{Result, ok}
use docker_interface.ControlPlane.Rows.{
  LifetimeType, persistent, ephemeral, single_use, session, Container, Host, Lab,
}
use docker_interface.ControlPlane.Session.{Session, Outside, Call, select}
use docker_interface.ControlPlane.Reconcile.{Runtime}
use docker_interface.ControlPlane.Reconcile.Run.{runtime_of}
use docker_interface.ControlPlane.Reconcile.Due.{Due}

abbrev pub without : Container → List Container → List Container
without row cs = select (λ c. not (eqb_ℤ c.id row.id)) cs

-- The other tables are the same, and so are the containers, unless the row was deleted for a reason.
abbrev pub Deleted : Container → Type 0 → Session → Session → Type 0
Deleted row reason s s' =
    (s'.hosts ≡ s.hosts)
    × (s'.labs ≡ s.labs)
    × (s'.projects ≡ s.projects)
    × ((s'.containers ≡ s.containers) ⊎ ((s'.containers ≡ without row s.containers) × reason))

module _ (row : Container) (reason : Type 0) (s0 : Session) where
  abbrev H : Session → Type 0
  H s = Deleted row reason s0 s

-- The time to live is set, not 0, and has passed since the creation; all in microseconds.
abbrev pub IsOver : ℤ → ℤ → Option ℤ → Type 0
IsOver now created_at time_to_live =
    (n : ℕ) × (time_to_live ≡ some (pos n))
    × (n ≢ 0)
    × (leb_ℤ (pos (n * 1000000)) (now -ℤ created_at) ≡ true)

-- The report says that the container has stopped, by one of three words in any case, with exit code 0.
abbrev pub EndedWell : Dict String Value → Type 0
EndedWell payload =
    (status : String) × (as_str (get "status" payload) ≡ some status)
    × ((lower_text status ≡ "exited")
        ⊎ (lower_text status ≡ "dead")
        ⊎ (lower_text status ≡ "stopped"))
    × (as_int (get "exit_code" payload) ≡ some (pos 0))

abbrev lowered : Option String → Option String
lowered none = none
lowered (some status) = some (lower_text status)

module _ (outside : Outside) (row : Container) where
  -- By the clock at the log of requests: the time is over; or the container is for a single use and was not
  -- found, or has ended well.
  abbrev pub DueAt : LifetimeType → Runtime → List Call → Type 0
  DueAt ephemeral runtime calls =
      IsOver (outside.now calls) row.created_at_utc row.time_to_live_seconds
  DueAt single_use none calls = Unit
  DueAt single_use (some payload) calls = EndedWell payload
  DueAt persistent runtime calls = ⊥
  DueAt session runtime calls = ⊥

module _ (outside : Outside) (host : Host) (api_key : String) (lab : Lab)
    (known : Dict String (Dict String Value)) (row : Container) where
  -- The row is due by the runtime that was found, at the time when it was found.
  abbrev pub Reason : Session → Type 0
  Reason s =
      (runtime : Runtime) × ((runtime_of outside host api_key known row s).0 ≡ ok runtime)
      × DueAt outside row row.lifetime_type runtime
          (runtime_of outside host api_key known row s).1.calls
