-- ===== src/ControlPlane/Scheduling/Eligible.antt =====
-- The candidates are the eligible labs, each with its host.
use docker_interface.Prelude.{
  ◌≡◌, refl, sym, ap, inl, inr, true, false, List, [], ◌∷◌, ◌++◌, Option, some, Bool-cases,
  Option-cases, Elem, Elem-append,
}
use docker_interface.Prelude.Int.{ℤ}
use docker_interface.Py.Float.{Float}
use docker_interface.Py.Result.{ok, Result-cases}
use docker_interface.ControlPlane.Rows.{Host, Lab}
use docker_interface.ControlPlane.Session.{Session}
use docker_interface.ControlPlane.Capacity.{enforce_resource_capacity}
use docker_interface.ControlPlane.Scheduling.{
  is_failed, is_online, find_host, Candidate, lab_candidate, scheduled, consider_lab,
  lab_candidates,
}
use docker_interface.ControlPlane.Scheduling.Order.{enforce-Refused}

module _ (fl : Float) (cpu : Option fl.F) (memory : Option ℤ) (s : Session) where
  -- The lab has not failed, its host is online, and the request is admitted there.
  pub record MayTake (lab : Lab) (host : Host) : Type 0 where
    pub not_failed : is_failed lab.status ≡ false
    pub its_host : find_host lab.host_id s ≡ some host
    pub host_online : is_online host.status ≡ true
    pub fits : enforce_resource_capacity fl lab host (scheduled fl cpu memory) s ≡ ok tt

  abbrev Found : Lab → List (Candidate fl Lab) → Type 0
  Found lab found =
      ((c : Candidate fl Lab)
        → Elem c found
        → (host : Host) × MayTake lab host × (c ≡ lab_candidate fl cpu memory lab host s))
      × ((host : Host) → MayTake lab host → Elem (lab_candidate fl cpu memory lab host s) found)

  no_candidate : (lab : Lab) → ((host : Host) → MayTake lab host → ⊥) → Found lab []
  no_candidate lab refused = (λ c m. absurd m, λ host may. absurd (refused host may))

  same_host :
      (lab : Lab) (host host' : Host)
      → find_host lab.host_id s ≡ some host
      → MayTake lab host'
      → host ≡ host'
  same_host lab host host' e may = let h = may.its_host in cc

  one_candidate :
      (lab : Lab) (host : Host)
      → MayTake lab host
      → Found lab (lab_candidate fl cpu memory lab host s ∷ [])
  one_candidate lab host may = (
    λ c m. elim m [ inl same ↦ (host, may, same) | inr below ↦ absurd below ],
    λ host' may'. inl (
        ap (λ h. lab_candidate fl cpu memory lab h s)
          (sym (same_host lab host host' may.its_host may'))),
  )

  abbrev Considered : Lab → Type 0
  Considered lab =
      (found : List (Candidate fl Lab)) × (consider_lab fl cpu memory lab s ≡ ok found)
      × Found lab found

  on_host-Found :
      (lab : Lab) (host : Host)
      → is_failed lab.status ≡ false
      → find_host lab.host_id s ≡ some host
      → is_online host.status ≡ true
      → Considered lab
  unfolding consider_lab
  on_host-Found lab host running e up =
      elim (Result-cases (enforce_resource_capacity fl lab host (scheduled fl cpu memory) s)) [
        | inl (_, fits) ↦ (
          lab_candidate fl cpu memory lab host s ∷ [],
          rw (running, e, up, fits) refl,
          one_candidate lab host
              (record { not_failed = running; its_host = e; host_online = up; fits = fits }),
        )
        | inr (exc, raised) ↦
            let status =
              (enforce-Refused fl lab host (scheduled fl cpu memory) s).refused exc raised in
            (
              [],
              rw (running, e, up, raised, status) refl,
              no_candidate lab λ host' may.
                  let same = same_host lab host host' e may in
                  let fits : enforce_resource_capacity fl lab host (scheduled fl cpu memory) s
                      ≡ ok tt =
                    rw same may.fits in
                  cc,
            )
      ]

  consider_lab-Found : (lab : Lab) → Considered lab
  unfolding consider_lab
  consider_lab-Found lab = elim (Bool-cases (is_failed lab.status)) [
    | inl failed ↦ ([], rw failed refl, no_candidate lab λ host may. let h = may.not_failed in cc)
    | inr running ↦ elim (Option-cases (find_host lab.host_id s)) [
      | inl e ↦ ([], rw (running, e) refl, no_candidate lab λ host may. let h = may.its_host in cc)
      | inr (host, e) ↦ elim (Bool-cases (is_online host.status)) [
        | inl up ↦ on_host-Found lab host running e up
        | inr down ↦ (
          [],
          rw (running, e, down) refl,
          no_candidate lab λ host' may.
              let up : is_online host.status ≡ true =
                rw (same_host lab host host' e may) may.host_online in
              cc,
        )
      ]
    ]
  ]

  -- Every candidate is an eligible lab on its host, and every eligible lab is a candidate.
  abbrev pub AllFound : List Lab → List (Candidate fl Lab) → Type 0
  AllFound labs found =
      ((c : Candidate fl Lab)
        → Elem c found
        → (lab : Lab) × (host : Host) × Elem lab labs
          × MayTake lab host
          × (c ≡ lab_candidate fl cpu memory lab host s))
      × ((lab : Lab) (host : Host)
          → Elem lab labs
          → MayTake lab host
          → Elem (lab_candidate fl cpu memory lab host s) found)

  AllFound-cons :
      (lab : Lab) (labs : List Lab) (here rest : List (Candidate fl Lab))
      → Found lab here
      → AllFound labs rest
      → AllFound (lab ∷ labs) (here ++ rest)
  AllFound-cons lab labs here rest (sound, complete) (sounds, completes) = (
    λ c m. elim ((Elem-append c here rest).0 m) [
      | inl m' ↦ let (host, may, e) = sound c m' in (lab, host, inl refl, may, e)
      | inr m' ↦
          let (lab', host, of_labs, may, e) = sounds c m' in (lab', host, inr of_labs, may, e)
    ],
    λ lab' host m may. elim m [
      | inl same ↦ (Elem-append _ here rest).1 (inl (rw same (complete host (rw same at may))))
      | inr of_labs ↦ (Elem-append _ here rest).1 (inr (completes lab' host of_labs may))
    ],
  )

  pub lab_candidates-AllFound :
      (labs : List Lab)
      → (found : List (Candidate fl Lab)) × (lab_candidates fl cpu memory labs s ≡ ok found)
        × AllFound labs found
  lab_candidates-AllFound [] = ([], refl, ((λ c m. absurd m), λ lab host m may. absurd m))
  lab_candidates-AllFound (lab ∷ labs) =
      let (here, e, found) = consider_lab-Found lab in
      let (rest, es, founds) = lab_candidates-AllFound labs in
      (here ++ rest, rw (e, es) refl, AllFound-cons lab labs here rest found founds)
