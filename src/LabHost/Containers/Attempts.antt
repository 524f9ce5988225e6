-- ===== src/LabHost/Containers/Attempts.antt =====
-- The loop of `create_container`: how often it runs a container, with which ports, and what it raises.
use docker_interface.Prelude.{
  ℕ, zero, suc, ◌+◌, ◌≤◌, String, ◌≡◌, refl, sym, ap, ◌∙◌, inl, inr, List, [], ◌∷◌, ◌++◌, none,
  some, arith, Bool-cases,
}
use docker_interface.Py.Dict.{int_eq}
use docker_interface.Py.Result.{ok, err, Result-cases, ok_injective}
use docker_interface.LabHost.Errors.{DockerError, Error, docker, Try}
use docker_interface.LabHost.Ports.{remap_requested_ports_if_needed}
use docker_interface.LabHost.Ports.Raises.{remap-raises}
use docker_interface.LabHost.Containers.{ContainerArgs, build_container_kwargs}
use docker_interface.LabHost.Containers.Create.{
  Event, ran, Daemon, Act, ◌>>=◌, is_collision, remap_ports, run_container, after_run, attempts,
}
use docker_interface.LabHost.Containers.Runs.{
  IsExpected, runs, runs-append, IsAttempt, IsPorts-shape, remap-IsAttempt, IsRuns, IsRuns-append,
}

module _ (d : Daemon) (requested : ContainerArgs) where
  -- What the loop has done, when it has `n` attempts left.
  pub record Tried (n : ℕ) (before : List Event) (r : Try (String × ContainerArgs) × List Event)
      : Type 0 where
    pub all_runs : IsRuns d requested [] before → IsRuns d requested [] r.1
    pub bounded : runs r.1 ≤ runs before + n
    pub started :
        (c : String) (args : ContainerArgs)
        → r.0 ≡ ok (c, args)
        → (events : List Event) × IsAttempt d requested events args
          × (d.run events (build_container_kwargs args) ≡ ok c)
          × (r.1 ≡ events ++ ran (build_container_kwargs args) ∷ [])
    pub raised : (e : Error) → r.0 ≡ err e → IsExpected e

  IsRuns-snoc :
      (args : ContainerArgs) (events : List Event)
      → IsAttempt d requested events args
      → IsRuns d requested [] events
      → IsRuns d requested [] (events ++ ran (build_container_kwargs args) ∷ [])
  IsRuns-snoc args events attempt h =
      IsRuns-append d requested [] events _ h ((args, attempt, refl), tt)

  remapped-Tried :
      (n : ℕ) (args : ContainerArgs) (exc : DockerError) (before events : List Event)
      (retry : ContainerArgs → DockerError → Act (String × ContainerArgs))
      → IsAttempt d requested before args
      → ((args' : ContainerArgs)
          → IsAttempt d requested events args'
          → Tried n events (retry args' exc events))
      → Tried n events ((remap_ports d args >>= λ args'. retry args' exc) events)
  remapped-Tried n args exc before events retry attempt h =
      elim (Result-cases (remap_requested_ports_if_needed (d.containers events) args.ports)) [
        | inl ((q, noted), e) ↦
            let shape =
              IsPorts-shape d requested before requested.ports args.ports attempt.is_ports in
            rw e
              (h _ (remap-IsAttempt d requested events args attempt.is_request shape (rw e refl)))
        | inr (exc', e) ↦
            let x = remap-raises (d.containers events) args.ports e in
            rw e (record {
              all_runs = λ all. all;
              bounded = omega arith;
              started = λ c args' bad. absurd (let y : err exc' ≡ ok (c, args') = bad in cc);
              raised = λ e' same.
                  let y : err exc' ≡ err e' = same in let z : exc' ≡ e' = cc in inl (sym z ∙ x);
            })
      ]

  -- An exception of Docker ends the loop.
  docker-raised :
      (exc : DockerError) (e : Error)
      → ◌≡◌ {A = Try (String × ContainerArgs)} (err (docker exc)) (err e)
      → IsExpected e
  docker-raised exc e same = let z : docker exc ≡ e = cc in inr (exc, sym z)

  after_run-Tried :
      (n : ℕ) (args : ContainerArgs) (events : List Event)
      (retry : ContainerArgs → DockerError → Act (String × ContainerArgs))
      → IsAttempt d requested events args
      → ((args' : ContainerArgs) (exc : DockerError) (es : List Event)
          → IsAttempt d requested es args'
          → Tried n es (retry args' exc es))
      → Tried
          (suc n)
          events
          (after_run d retry args (run_container d (build_container_kwargs args) events))
  after_run-Tried n args events retry attempt h =
      let kwargs = build_container_kwargs args in
      let es = events ++ ran kwargs ∷ [] in
      let one = runs-append events (ran kwargs ∷ []) in
      elim (Result-cases (d.run events kwargs)) [
        | inl (c, e) ↦ rw e (record {
          all_runs = λ all. IsRuns-snoc args events attempt all;
          bounded = omega (arith, one);
          started = λ c' args' same.
              let x : ok (c, args) ≡ ok (c', args') = same in
              let y = ok_injective x in
              let at : args ≡ args' = ap (λ p. p.1) y in
              rw (sym at) (events, attempt, e ∙ ap ok (ap (λ p. p.0) y), refl);
          raised = λ e' bad. absurd (let y : ok (c, args) ≡ err e' = bad in cc);
        })
        | inr (exc, e) ↦ elim (Bool-cases (is_collision exc)) [
          | inr other ↦
              rw (e, other)
                (record {
                  all_runs = λ all. IsRuns-snoc args events attempt all;
                  bounded = omega (arith, one);
                  started = λ c' args' bad.
                      absurd (let y : err (docker exc) ≡ ok (c', args') = bad in cc);
                  raised = λ e' same. docker-raised exc e' same;
                })
          | inl collision ↦
              let rest =
                remapped-Tried n args exc events es retry attempt (λ args' k. h args' exc es k) in
              rw (e, collision)
                (record {
                  all_runs = λ all. rest.all_runs (IsRuns-snoc args events attempt all);
                  bounded = let b = rest.bounded in omega (arith, b, one);
                  started = rest.started;
                  raised = rest.raised;
                })
        ]
      ]

  attempts-Tried :
      (n : ℕ) (args : ContainerArgs) (last_error : DockerError) (events : List Event)
      → IsAttempt d requested events args
      → Tried n events (attempts d n args (some last_error) events)
  attempts-Tried zero args last_error events attempt = record {
    all_runs = λ all. all;
    bounded = omega arith;
    started = λ c args' bad. absurd (let y : err (docker last_error) ≡ ok (c, args') = bad in cc);
    raised = λ e' same. docker-raised last_error e' same;
  }
  attempts-Tried (suc n) args last_error events attempt =
      after_run-Tried n args events _ attempt λ args' exc es k. attempts-Tried n args' exc es k

  pub first-Tried :
      (n : ℕ) (args : ContainerArgs) (events : List Event)
      → IsAttempt d requested events args
      → Tried (suc n) events (attempts d (suc n) args none events)
  first-Tried n args events attempt =
      after_run-Tried n args events _ attempt λ args' exc es k. attempts-Tried n args' exc es k
