-- ===== src/LabHost/Containers/Runs.antt =====
-- The runs of a container in a log of events: how many, and with which ports.
use docker_interface.Prelude.{
  ℕ, suc, ◌+◌, ◌≡◌, ◌⊎◌, refl, sym, ap, ◌∙◌, inl, inr, List, [], ◌∷◌, ◌++◌, Option, none, some,
  arith,
}
use mathlib.Core.List.{append_assoc, append-nil}
use docker_interface.Prelude.Int.{ℤ}
use docker_interface.Py.Dict.{Dict, int_eq}
use docker_interface.Py.Result.{ok, err, Result-cases, ok_injective}
use docker_interface.LabHost.Errors.{DockerError, Error, docker}
use docker_interface.LabHost.Ports.{
  DockerContainer, PortMapping, used_host_ports, remap_requested_ports_if_needed, remap_loop,
  no_port_available,
}
use docker_interface.LabHost.Ports.Remap.Fresh.{hosts, Fresh, SameTargets, remap-Fresh}
use docker_interface.LabHost.Containers.{ContainerArgs, build_container_kwargs}
use docker_interface.LabHost.Containers.Create.{Event, ran, connected, Daemon, with_ports}

-- What `create_container` may raise: that no port is free, or an exception of Docker.
abbrev pub IsExpected : Error → Type 0
IsExpected e = (e ≡ no_port_available) ⊎ ((exc : DockerError) × (e ≡ docker exc))

-- The number of runs.
abbrev pub runs : List Event → ℕ
runs [] = 0
runs (ran kwargs ∷ es) = suc (runs es)
runs (connected _ _ _ ∷ es) = runs es

pub runs-append : (es fs : List Event) → runs (es ++ fs) ≡ runs es + runs fs
runs-append [] fs = omega arith
runs-append (ran kwargs ∷ es) fs = omega (arith, runs-append es fs)
runs-append (connected _ _ _ ∷ es) fs = runs-append es fs

SameTargets-trans :
    (ms ns ps : List PortMapping) → SameTargets ms ns → SameTargets ns ps → SameTargets ms ps
SameTargets-trans [] [] [] h k = tt
SameTargets-trans (m ∷ ms) (n ∷ ns) (p ∷ ps) h k =
    let ih = SameTargets-trans ms ns ps h.3 k.3 in
    (k.0 ∙ h.0, k.1 ∙ h.1, omega (arith, h.2, k.2), ih)
SameTargets-trans (m ∷ ms) [] ps h k = absurd h
SameTargets-trans [] (n ∷ ns) ps h k = absurd h
SameTargets-trans [] [] (p ∷ ps) h k = absurd k
SameTargets-trans (m ∷ ms) (n ∷ ns) [] h k = absurd k

SameTargets-refl : (ms : List PortMapping) → SameTargets ms ms
SameTargets-refl [] = tt
SameTargets-refl (m ∷ ms) = (refl, refl, omega arith, SameTargets-refl ms)

-- Only the host ports differ.
abbrev pub SameShape : Option (List PortMapping) → Option (List PortMapping) → Type 0
SameShape none none = Unit
SameShape (some ms) (some ns) = SameTargets ms ns
SameShape _ _ = ⊥

pub SameShape-refl : (o : Option (List PortMapping)) → SameShape o o
SameShape-refl none = tt
SameShape-refl (some ms) = SameTargets-refl ms

remap-some :
    (containers : List DockerContainer) (ms : List PortMapping) {q : Option (List PortMapping)}
    {noted : Dict ℤ ℤ}
    → remap_requested_ports_if_needed containers (some ms) ≡ ok (q, noted)
    → (ns : List PortMapping) × (q ≡ some ns)
unfolding remap_requested_ports_if_needed
remap-some containers [] h = ([], cc)
remap-some containers (m ∷ ms) {q} {noted} h =
    elim (Result-cases (remap_loop (m ∷ ms) (used_host_ports containers) [] [])) [
      | inl ((ns, r), e) ↦ (ns, let x : ok (some ns, r) ≡ ok (q, noted) = rw e at h in cc)
      | inr (e, e') ↦ absurd (let x : err e ≡ ok (q, noted) = rw e' at h in cc)
    ]

module _ (d : Daemon) (requested : ContainerArgs) where
  -- The ports are free of what Docker publishes after the events, pairwise distinct, and for the requested
  -- targets.
  abbrev pub IsPorts : List Event → Option (List PortMapping) → Option (List PortMapping) → Type 0
  IsPorts events none none = Unit
  IsPorts events (some ms) (some ns) =
      SameTargets ms ns × Fresh (used_host_ports (d.containers events)) (hosts ns)
  IsPorts events _ _ = ⊥

  -- The request, with host ports that are free after the events.
  pub record IsAttempt (events : List Event) (args : ContainerArgs) : Type 0 where
    pub is_request : args ≡ record requested { ports = args.ports }
    pub is_ports : IsPorts events requested.ports args.ports

  pub IsPorts-shape :
      (events : List Event) (o p : Option (List PortMapping)) → IsPorts events o p → SameShape o p
  IsPorts-shape events none none h = tt
  IsPorts-shape events (some ms) (some ns) h = h.0
  IsPorts-shape events none (some ns) h = h
  IsPorts-shape events (some ms) none h = h

  remapped-IsPorts :
      (events : List Event) (o p q : Option (List PortMapping)) {noted : Dict ℤ ℤ}
      → SameShape o p
      → remap_requested_ports_if_needed (d.containers events) p ≡ ok (q, noted)
      → IsPorts events o q
  unfolding remap_requested_ports_if_needed
  remapped-IsPorts events none none q shape h = let e : q ≡ none = cc in rw e tt
  remapped-IsPorts events (some ms) (some ns) q {noted} shape h =
      let (ps, e) = remap-some (d.containers events) ns h in
      let h' : remap_requested_ports_if_needed (d.containers events) (some ns)
          ≡ ok (some ps, noted) =
        rw e at h in
      let (fresh, same, _) = remap-Fresh (d.containers events) ns ps h' in
      rw e (SameTargets-trans ms ns ps shape same, fresh)
  remapped-IsPorts events none (some ns) q shape h = absurd shape
  remapped-IsPorts events (some ms) none q shape h = absurd shape

  pub remap-IsAttempt :
      (events : List Event) (args : ContainerArgs) {args' : ContainerArgs}
      → args ≡ record requested { ports = args.ports }
      → SameShape requested.ports args.ports
      → with_ports d args (remap_requested_ports_if_needed (d.containers events) args.ports)
        ≡ ok args'
      → IsAttempt events args'
  remap-IsAttempt events args {args'} same shape h =
      elim (Result-cases (remap_requested_ports_if_needed (d.containers events) args.ports)) [
        | inl ((q, noted), e) ↦
            let x : ok (record args { ports = q }) ≡ ok args' = rw e at h in
            let e' : args' ≡ record requested { ports = q } =
              sym (ok_injective x) ∙ ap (λ (a : ContainerArgs). record a { ports = q }) same in
            let ports : args'.ports ≡ q = ap (λ (a : ContainerArgs). a.ports) e' in
            record {
              is_request = e' ∙ ap (λ p. record requested { ports = p }) (sym ports);
              is_ports = rw ports (remapped-IsPorts events requested.ports args.ports q shape e);
            }
        | inr (e, e') ↦ absurd (let x : err e ≡ ok args' = rw e' at h in cc)
      ]

  -- Each run, at its place in the log, has the requested arguments on ports that are free there.
  abbrev pub IsRuns : List Event → List Event → Type 0
  IsRuns before [] = Unit
  IsRuns before (ran kwargs ∷ es) =
      ((args : ContainerArgs) × IsAttempt before args × (kwargs ≡ build_container_kwargs args))
      × IsRuns (before ++ ran kwargs ∷ []) es
  IsRuns before (connected n c a ∷ es) = IsRuns (before ++ connected n c a ∷ []) es

  pub IsRuns-append :
      (before es fs : List Event)
      → IsRuns before es
      → IsRuns (before ++ es) fs
      → IsRuns before (es ++ fs)
  IsRuns-append before [] fs h k = rw (append-nil before) at k
  IsRuns-append before (ran kwargs ∷ es) fs h k = (
    h.0,
    IsRuns-append (before ++ ran kwargs ∷ []) es fs h.1
        (rw (append_assoc before (ran kwargs ∷ []) es) k),
  )
  IsRuns-append before (connected n c a ∷ es) fs h k =
      IsRuns-append (before ++ connected n c a ∷ []) es fs h
        (rw (append_assoc before (connected n c a ∷ []) es) k)
