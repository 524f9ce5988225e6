-- ===== src/LabHost/Containers/Quiet.antt =====
-- What `create_container` does behind its loop runs no container.
use docker_interface.Prelude.{
  String, ◌≡◌, refl, sym, ap, ◌∙◌, inl, inr, List, [], ◌∷◌, ◌++◌, Option, none, some, All,
  All-append, Bool-cases, if◌then◌else◌,
}
use mathlib.Core.List.{append_assoc, append-nil}
use docker_interface.Py.Dict.{string_eq, elem}
use docker_interface.Py.Result.{Result, ok, err}
use docker_interface.LabHost.Errors.{DockerError, Error, docker, Try}
use docker_interface.LabHost.Containers.{ContainerArgs, ContainerNetworkArgs, is_none}
use docker_interface.LabHost.Containers.Create.{
  Event, ran, connected, Daemon, Act, resume, ◌>>=◌, ◌>>◌, give, ask, of_docker, connect_to,
  connect_all, networks_of, connect_networks,
}

abbrev pub IsConnection : Event → Type 0
IsConnection (ran kwargs) = ⊥
IsConnection (connected _ _ _) = Unit

abbrev pub IsDocker : Error → Type 0
IsDocker e = (exc : DockerError) × (e ≡ docker exc)

-- It runs no container, and what it raises is an exception of Docker.
pub record IsQuiet {A : Type 0} (m : Act A) : Type 0 where
  pub extends :
      (events : List Event)
      → (es : List Event) × ((m events).1 ≡ events ++ es) × All IsConnection es
  pub raises : (events : List Event) (e : Error) → (m events).0 ≡ err e → IsDocker e

give-IsQuiet : {A : Type 0} (a : A) → IsQuiet (give a)
give-IsQuiet a = record {
  extends = λ events. ([], sym (append-nil events), tt);
  raises = λ events e bad. absurd (let y : ok a ≡ err e = bad in cc);
}

of_docker-raises :
    {A : Type 0} (r : Result DockerError A) (e : Error) → of_docker r ≡ err e → IsDocker e
of_docker-raises (ok a) e h = cc
of_docker-raises {A} (err x) e h =
    let y : ◌≡◌ {A = Try A} (err (docker x)) (err e) = h in let z : docker x ≡ e = cc in (x, sym z)

ask-IsQuiet :
    {A : Type 0} (f : List Event → Result DockerError A)
    → IsQuiet (ask λ events. of_docker (f events))
ask-IsQuiet f = record {
  extends = λ events. ([], sym (append-nil events), tt);
  raises = λ events e bad. of_docker-raises (f events) e bad;
}

module _ {A B : Type 0} (f : A → Act B) (hf : (a : A) → IsQuiet (f a)) where
  pub resume-extends :
      (events : List Event) (r : Try A × List Event)
      → (es : List Event) × (r.1 ≡ events ++ es) × All IsConnection es
      → (es : List Event) × ((resume f r).1 ≡ events ++ es) × All IsConnection es
  resume-extends events (ok a, after) (es, e, all) =
      let (fs, e', all') = (hf a).extends after in
      (
        es ++ fs,
        e' ∙ ap (λ x. x ++ fs) e ∙ append_assoc events es fs,
        All-append IsConnection es fs all all',
      )
  resume-extends events (err x, after) h = h

  pub resume-raises :
      (P : Error → Type 0)
      → ((e : Error) → IsDocker e → P e)
      → (r : Try A × List Event) (e : Error) → ((e : Error) → r.0 ≡ err e → P e)
      → (resume f r).0 ≡ err e
      → P e
  resume-raises P also (ok a, after) e h bad = also e ((hf a).raises after e bad)
  resume-raises P also (err x, after) e h bad =
      h e (let y : err x ≡ err e = bad in let z : x ≡ e = cc in ap err z)

bind-IsQuiet :
    {A B : Type 0} (m : Act A) (f : A → Act B)
    → IsQuiet m
    → ((a : A) → IsQuiet (f a))
    → IsQuiet (m >>= f)
bind-IsQuiet m f hm hf = record {
  extends = λ events. resume-extends f hf events (m events) (hm.extends events);
  raises =
      λ events e bad. resume-raises f hf IsDocker (λ e k. k) (m events) e (hm.raises events) bad;
}

module _ (d : Daemon) where
  connect_to-IsQuiet :
      (container : String) (net : ContainerNetworkArgs) → IsQuiet (connect_to d container net)
  connect_to-IsQuiet container net =
      bind-IsQuiet _ _ (ask-IsQuiet λ events. d.get_network events net.name) λ _. record {
        extends = λ events. (connected net.name container net.aliases ∷ [], refl, (tt, tt));
        raises = λ events e bad.
            of_docker-raises (d.connect events net.name container net.aliases) e bad;
      }

  connect_all-IsQuiet :
      (container : String) (current : List String) (nets : List ContainerNetworkArgs)
      → IsQuiet (connect_all d container current nets)
  connect_all-IsQuiet container current [] = give-IsQuiet tt
  connect_all-IsQuiet container current (net ∷ nets) =
      let here : IsQuiet (if elem net.name current then give tt else connect_to d container net) =
        elim (Bool-cases (elem net.name current)) [
          | inl e ↦ rw e (give-IsQuiet tt)
          | inr e ↦ rw e (connect_to-IsQuiet container net)
        ] in
      bind-IsQuiet _ _ here λ _. connect_all-IsQuiet container current nets

  connect_networks-IsQuiet :
      (container : String) (nets : Option (List ContainerNetworkArgs))
      → IsQuiet (connect_networks d container nets)
  connect_networks-IsQuiet container none = give-IsQuiet tt
  connect_networks-IsQuiet container (some []) = give-IsQuiet tt
  connect_networks-IsQuiet container (some (net ∷ nets)) = elim (Bool-cases (is_none net.name)) [
    | inl e ↦ rw e (give-IsQuiet tt)
    | inr e ↦ rw e (
        bind-IsQuiet _ _ (ask-IsQuiet λ events. d.reload events container)
          λ attrs. connect_all-IsQuiet container (networks_of d attrs) nets)
  ]

  -- What follows a container that runs.
  abbrev pub finish : String × ContainerArgs → Act String
  finish (container, args) =
      connect_networks d container args.network
      >> ((ask λ events. of_docker (d.reload events container)) >>= λ _. give container)

  pub finish-IsQuiet : (r : String × ContainerArgs) → IsQuiet (finish r)
  finish-IsQuiet (container, args) =
      bind-IsQuiet _ _ (connect_networks-IsQuiet container args.network) λ _.
        bind-IsQuiet _ _ (ask-IsQuiet λ events. d.reload events container)
          λ _. give-IsQuiet container
