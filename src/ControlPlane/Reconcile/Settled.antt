-- ===== src/ControlPlane/Reconcile/Settled.antt =====
-- What a reconciliation requests for a container, and what the next one requests behind it.
use docker_interface.Prelude.{String, ◌≡◌, [], ◌∷◌, ◌⊎◌, Option, none, some, List, if◌then◌else◌}
use docker_interface.Py.Dict.{string_eq, elem}
use docker_interface.Py.Result.{ok}
use docker_interface.ControlPlane.Rows.{ContainerStatus, started, Container, Host}
use docker_interface.ControlPlane.Session.{Session, Outside, Step}
use docker_interface.ControlPlane.Reconcile.Run.{set_state, converge_container}

pub data Command : Type 0 where
  start stop pause : Command

abbrev pub command_name : Command → String
command_name start = "start"
command_name stop = "stop"
command_name pause = "pause"

-- The statuses that Docker starts no container from: a paused one is to be unpaused.
abbrev pub unstartable : List String
unstartable = "paused" ∷ "dead" ∷ "removing" ∷ []

-- The status that Docker documents for a container of the status behind the command, or none where it
-- refuses the command.
abbrev pub status_after : Command → Option String → Option String
status_after c none = none
status_after start (some status) = if elem status unstartable then none else some "running"
status_after stop (some status) =
    if elem status ("running" ∷ "restarting" ∷ "paused" ∷ []) then some "exited" else some status
status_after pause (some status) = if elem status ("running" ∷ []) then some "paused" else none

module _ (outside : Outside) (host : Host) (api_key : String) (row : Container) where
  abbrev steps : ContainerStatus → Option String → Step (Unit {0})
  steps desired status = converge_container outside host api_key row desired status

  -- Nothing is requested.
  abbrev pub Settled : ContainerStatus → Option String → Type 0
  Settled desired status = (s : Session) → steps desired status s ≡ (ok tt, s)

  -- The command is requested.
  abbrev pub Requested : ContainerStatus → Option String → Command → Type 0
  Requested desired status c =
      (s : Session) → steps desired status s ≡ set_state outside host api_key row (command_name c) s

  -- One command is requested; Docker obeys it, and behind it nothing is requested.
  abbrev pub Obeyed : ContainerStatus → Option String → Type 0
  Obeyed desired status =
      (c : Command) × Requested desired status c
      × ((after : String) × (status_after c status ≡ some after) × Settled desired (some after))

  -- A start is requested that Docker refuses: there is no container, or it is paused, dead or being removed.
  abbrev pub Refused : ContainerStatus → Option String → Type 0
  Refused desired status =
      (desired ≡ started)
      × Requested desired status start
      × (status_after start status ≡ none)
      × ((status ≡ none)
          ⊎ (status ≡ some "paused")
          ⊎ (status ≡ some "dead")
          ⊎ (status ≡ some "removing"))
