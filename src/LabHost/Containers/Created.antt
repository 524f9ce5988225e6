-- ===== src/LabHost/Containers/Created.antt =====
-- `create_container` as a whole.
use docker_interface.Prelude.{
  ◌≤◌, String, ◌≡◌, refl, sym, ap, ◌∙◌, ◌⊎◌, inl, inr, List, [], ◌∷◌, ◌++◌, Option, none, arith,
  All,
}
use mathlib.Core.List.{append-nil}
use docker_interface.Prelude.Int.{ℤ}
use docker_interface.Py.Dict.{Dict, string_eq}
use docker_interface.Py.Value.{Value}
use docker_interface.Py.Result.{ok, err, Result-cases, ok_injective}
use docker_interface.LabHost.Errors.{Error, Try}
use docker_interface.LabHost.Ports.{PortMapping, no_port_available, remap_requested_ports_if_needed}
use docker_interface.LabHost.Ports.Raises.{remap-raises}
use docker_interface.LabHost.Containers.{ContainerArgs, build_container_kwargs}
use docker_interface.LabHost.Containers.Create.{
  Event, ran, connected, Daemon, Act, resume, ◌>>=◌, give, ask, of_docker, with_ports, attempts,
  connect_networks, create_container,
}
use docker_interface.LabHost.Containers.Quiet.{
  IsConnection, finish, finish-IsQuiet, resume-extends, resume-raises,
}
use docker_interface.LabHost.Containers.Runs.{
  IsExpected, runs, runs-append, IsAttempt, SameShape-refl, remap-IsAttempt, IsRuns, IsRuns-append,
}
use docker_interface.LabHost.Containers.Attempts.{Tried, first-Tried}

resume-ok :
    {A B : Type 0} (f : A → Act B) (r : Try A × List Event) {b : B}
    → (resume f r).0 ≡ ok b
    → (a : A) × (r.0 ≡ ok a) × ((f a r.1).0 ≡ ok b)
resume-ok f (ok a, events) h = (a, refl, h)
resume-ok f (err e, events) h = cc

runs-connections : (es : List Event) → All IsConnection es → runs es ≡ 0
runs-connections [] h = refl
runs-connections (ran kwargs ∷ es) h = absurd h.0
runs-connections (connected _ _ _ ∷ es) h = runs-connections es h.1

module _ (d : Daemon) (args : ContainerArgs) where
  IsRuns-connections : (before es : List Event) → All IsConnection es → IsRuns d args before es
  IsRuns-connections before [] h = tt
  IsRuns-connections before (ran kwargs ∷ es) h = absurd h.0
  IsRuns-connections before (connected _ _ _ ∷ es) h = IsRuns-connections _ es h.1

  abbrev Loop : Type 0
  Loop = Try (String × ContainerArgs) × List Event

  -- The loop has run, or no port was free for it.
  abbrev Ran : Loop → Type 0
  Ran r = Tried d args 5 [] r × (create_container d args [] ≡ resume (finish d) r)

  abbrev NoPort : Type 0
  NoPort = (e : Error) × IsExpected e × (create_container d args [] ≡ (err e, []))

  with_ports-raises :
      (r : Try (Option (List PortMapping) × Dict ℤ ℤ)) {e : Error}
      → ((x : Error) → r ≡ err x → x ≡ no_port_available)
      → with_ports d args r ≡ err e
      → IsExpected e
  with_ports-raises (ok q) h bad = cc
  with_ports-raises (err x) {e} h bad = let z : x ≡ e = cc in inl (sym z ∙ h x refl)

  loop-cases : ((r : Loop) × Ran r) ⊎ NoPort
  unfolding create_container
  loop-cases =
      let remapped = remap_requested_ports_if_needed (d.containers []) args.ports in
      elim (Result-cases (with_ports d args remapped)) [
        | inl (effective, e) ↦
            let attempt = remap-IsAttempt d args [] args refl (SameShape-refl args.ports) e in
            inl (
              attempts d 5 effective none [],
              (first-Tried d args 4 effective [] attempt, rw e refl),
            )
        | inr (exc, e) ↦ inr (
          exc,
          with_ports-raises remapped (λ x q. remap-raises (d.containers []) args.ports q) e,
          rw e refl,
        )
      ]

  finish-returns :
      (c : String) (effective : ContainerArgs) (events : List Event) {c' : String}
      → (finish d (c, effective) events).0 ≡ ok c'
      → c ≡ c'
  finish-returns c effective events {c'} h =
      let reload : Act Value = ask λ es. of_docker (d.reload es c) in
      let behind : Act String = reload >>= λ _. give c in
      let (_, _, h1) = resume-ok (λ _. behind) (connect_networks d c effective.network events) h in
      let (_, _, h2) =
        resume-ok (λ _. give c) (reload (connect_networks d c effective.network events).1) h1 in
      let x : ok c ≡ ok c' = h2 in ok_injective x

  -- `create_container` runs a container five times at most. Every run has the arguments that were asked
  -- for, except for the host ports: these are pairwise distinct, no smaller, for the requested targets, and
  -- free of what Docker publishes after the events before that very run.
  pub create_container-bounded :
      let events = (create_container d args []).1 in (runs events ≤ 5) × IsRuns d args [] events
  create_container-bounded = elim loop-cases [
    | inr (e, _, q) ↦ rw q (omega arith, tt)
    | inl (r, (tried, q)) ↦
        let (es, e, all) =
          resume-extends (finish d) (finish-IsQuiet d) r.1 r ([], sym (append-nil r.1), tt) in
        let none_more = runs-connections es all in
        let sum = runs-append r.1 es in
        let bound = tried.bounded in
        rw (q, e)
          (
            omega (arith, none_more, sum, bound),
            IsRuns-append d args [] r.1 es (tried.all_runs tt) (IsRuns-connections _ es all),
          )
  ]

  -- The container that `create_container` returns is one that Docker has started for the last run in its
  -- log, with the requested arguments on host ports that are free of what Docker publishes after the events
  -- before that run. Behind it there are only connections to networks.
  pub create_container-started :
      (c : String)
      → let r = create_container d args [] in
        r.0 ≡ ok c
        → (before : List Event) × (effective : ContainerArgs) × (behind : List Event) × IsAttempt d
            args before effective
          × (d.run before (build_container_kwargs effective) ≡ ok c)
          × (r.1 ≡ (before ++ ran (build_container_kwargs effective) ∷ []) ++ behind)
          × All IsConnection behind
  create_container-started c h = elim loop-cases [
    | inr (e, _, q) ↦ absurd (let x : err e ≡ ok c = rw q at h in cc)
    | inl (r, (tried, q)) ↦
        let (es, e, all) =
          resume-extends (finish d) (finish-IsQuiet d) r.1 r ([], sym (append-nil r.1), tt) in
        let h' : (resume (finish d) r).0 ≡ ok c = rw q at h in
        let ((c', effective), h1, h2) = resume-ok (finish d) r h' in
        let (before, attempt, run, events) = tried.started c' effective h1 in
        let same = finish-returns c' effective r.1 h2 in
        rw (q, e) (before, effective, es, attempt, rw same at run, ap (λ x. x ++ es) events, all)
  ]

  -- What `create_container` raises is that no port is free, or an exception of Docker; so it is never the
  -- `RuntimeError` behind its loop.
  pub create_container-raises : (e : Error) → (create_container d args []).0 ≡ err e → IsExpected e
  create_container-raises e h = elim loop-cases [
    | inr (x, expected, q) ↦
        let y : err x ≡ err e = rw q at h in let z : x ≡ e = cc in rw z at expected
    | inl (r, (tried, q)) ↦
        let h' : (resume (finish d) r).0 ≡ err e = rw q at h in
        resume-raises (finish d) (finish-IsQuiet d) IsExpected (λ x k. inr k) r e tried.raised h'
  ]
