-- ===== src/LabHost/Containers/Create.antt =====
-- `create_container` of lab_host/docker_interface.py, with its loop over port collisions.
use docker_interface.Prelude.{
  ℕ, zero, suc, String, Bool, true, false, ◌&&◌, ◌||◌, ◌==◌, code, List, [], ◌∷◌, ◌++◌, Option,
  none, some, if◌then◌else◌,
}
use docker_interface.Prelude.Int.{ℤ}
use docker_interface.Py.Chars.{Chars, chars, lower}
use docker_interface.Py.Dict.{Dict, string_eq, elem, keys}
use docker_interface.Py.Value.{Value, get, dict_or_empty}
use docker_interface.Py.Result.{Result, ok, err}
use docker_interface.LabHost.Errors.{
  DockerError, image_not_found, not_found, api_error, Error, docker, runtime_error, Try,
}
use docker_interface.LabHost.Ports.{DockerContainer, PortMapping, remap_requested_ports_if_needed}
use docker_interface.LabHost.Containers.{
  ContainerArgs, ContainerNetworkArgs, RunKwargs, build_container_kwargs, is_none,
}

-- What is asked of Docker and changes something there: a run of a container, and a connection of one to
-- a network.
pub data Event : Type 0 where
  ran : RunKwargs → Event
  connected : String → String → Option (List String) → Event

-- The Docker daemon, as it answers after the events so far: its containers, a
-- run, a reload of a container, a lookup of a network, and a connection.
pub record Daemon : Type 0 where
  pub containers : List Event → List DockerContainer
  pub run : List Event → RunKwargs → Result DockerError String
  pub reload : List Event → String → Result DockerError Value
  pub get_network : List Event → String → Result DockerError (Unit {0})
  pub connect : List Event → String → String → Option (List String) → Result DockerError (Unit {0})

abbrev pub Act : Type 0 → Type 0
Act A = List Event → Try A × List Event

abbrev pub resume : {A B : Type 0} → (A → Act B) → Try A × List Event → Try B × List Event
resume f (ok a, events) = f a events
resume f (err e, events) = (err e, events)

infixl 5 ◌>>=◌ ◌>>◌
abbrev pub ◌>>=◌ : {A B : Type 0} → Act A → (A → Act B) → Act B
m >>= f = λ events. resume f (m events)

abbrev pub ◌>>◌ : {A B : Type 0} → Act A → Act B → Act B
m >> k = m >>= λ _. k

abbrev pub give : {A : Type 0} → A → Act A
give a = λ events. (ok a, events)

abbrev pub throw : {A : Type 0} → Error → Act A
throw e = λ events. (err e, events)

abbrev pub ask : {A : Type 0} → (List Event → Try A) → Act A
ask f = λ events. (f events, events)

abbrev pub of_docker : {A : Type 0} → Result DockerError A → Try A
of_docker (ok a) = ok a
of_docker (err e) = err (docker e)

-- `needle in text`
abbrev starts : Chars → Chars → Bool
starts [] text = true
starts (c ∷ needle) [] = false
starts (c ∷ needle) (d ∷ text) = code c == code d && starts needle text

abbrev pub within : Chars → Chars → Bool
within needle [] = starts needle []
within needle (c ∷ text) = starts needle (c ∷ text) || within needle text

unfoldable pub says_allocated : String → Bool
says_allocated message = within (chars "port is already allocated") (lower (chars message))

-- Whether `except APIError` takes the exception and the port is the reason for it.
abbrev pub is_collision : DockerError → Bool
is_collision (image_not_found message) = says_allocated message
is_collision (not_found message) = says_allocated message
is_collision (api_error message) = says_allocated message
is_collision _ = false

module _ (d : Daemon) where
  -- `_remap_requested_ports_if_needed` and `model_copy`
  abbrev pub with_ports :
      ContainerArgs → Try (Option (List PortMapping) × Dict ℤ ℤ) → Try ContainerArgs
  with_ports args (ok (ports, _)) = ok (record args { ports = ports })
  with_ports args (err e) = err e

  abbrev pub remap_ports : ContainerArgs → Act ContainerArgs
  remap_ports args =
      ask
        λ events. with_ports args (remap_requested_ports_if_needed (d.containers events) args.ports)

  abbrev pub run_container : RunKwargs → List Event → Result DockerError String × List Event
  run_container kwargs events = (d.run events kwargs, events ++ ran kwargs ∷ [])

  -- The `else` of the loop.
  abbrev pub give_up : Option DockerError → Error
  give_up none = runtime_error "Failed to create container after retrying port remaps"
  give_up (some last_error) = docker last_error

  abbrev pub after_run :
      (ContainerArgs → DockerError → Act (String × ContainerArgs))
      → ContainerArgs
      → Result DockerError String × List Event
      → Try (String × ContainerArgs) × List Event
  after_run retry args (ok container, events) = (ok (container, args), events)
  after_run retry args (err exc, events) =
      if is_collision exc
      then (remap_ports args >>= λ args'. retry args' exc) events
      else (err (docker exc), events)

  -- The loop, with the number of attempts that are left.
  abbrev pub attempts : ℕ → ContainerArgs → Option DockerError → Act (String × ContainerArgs)
  attempts zero args last_error = throw (give_up last_error)
  attempts (suc n) args last_error = λ events.
      after_run (λ args' exc. attempts n args' (some exc)) args
        (run_container (build_container_kwargs args) events)

  abbrev pub connect_to : String → ContainerNetworkArgs → Act (Unit {0})
  connect_to container net = do
    _ ← ask λ events. of_docker (d.get_network events net.name)
    λ events. (
      of_docker (d.connect events net.name container net.aliases),
      events ++ connected net.name container net.aliases ∷ [],
    )

  -- The networks behind the first one.
  abbrev pub connect_all : String → List String → List ContainerNetworkArgs → Act (Unit {0})
  connect_all container current [] = give tt
  connect_all container current (net ∷ nets) =
      (if elem net.name current then give tt else connect_to container net)
      >> connect_all container current nets

  abbrev pub networks_of : Value → List String
  networks_of attrs =
      keys (
        dict_or_empty
          (get "Networks" (dict_or_empty (get "NetworkSettings" (dict_or_empty attrs)))))

  abbrev pub connect_networks : String → Option (List ContainerNetworkArgs) → Act (Unit {0})
  connect_networks container (some (net ∷ nets)) = if is_none net.name then give tt else (do
    attrs ← ask λ events. of_docker (d.reload events container)
    connect_all container (networks_of attrs) nets)
  connect_networks container _ = give tt

  unfoldable pub create_container : ContainerArgs → Act String
  create_container args = do
    effective ← remap_ports args
    (container, effective) ← attempts 5 effective none
    connect_networks container effective.network
    _ ← ask λ events. of_docker (d.reload events container)
    give container
