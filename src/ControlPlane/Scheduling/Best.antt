-- ===== src/ControlPlane/Scheduling/Best.antt =====
-- The selected lab is eligible, and no eligible one stands before it in the order of the method.
use docker_interface.Prelude.{
  ◌≡◌, refl, sym, ap, ◌∙◌, ◌⊎◌, inl, inr, Bool, false, List, [], ◌∷◌, Option, Elem, sort_by,
  sort_by-Elem, sort_by-least, sort_by-empty, List-cases, ◌≢◌,
}
use docker_interface.Prelude.Int.{ℤ, ltb_ℤ}
use docker_interface.Py.Float.{Float, IsOrdered}
use docker_interface.Py.Result.{ok, err, bind-eq-ok}
use docker_interface.ControlPlane.Rows.{Host, Lab}
use docker_interface.ControlPlane.Session.{HttpError, Session}
use docker_interface.ControlPlane.Scheduling.{
  SchedulingMethod, Candidate, lab_before, lab_candidate, lab_candidates, chosen, some_labs,
  select_among, labs_by_id, select_target_lab, refusal,
}
use docker_interface.ControlPlane.Scheduling.Eligible.{MayTake, AllFound, lab_candidates-AllFound}
use docker_interface.ControlPlane.Scheduling.Order.{chosen-ok, lab_before-IsOrder}

module _ (fl : Float) (cpu : Option fl.F) (memory : Option ℤ) (s : Session) where
  -- What a selection that returns has come from.
  select_target_lab-candidate :
      (m : SchedulingMethod) {lab : Lab} {host : Host}
      → select_target_lab fl cpu memory m s ≡ ok (lab, host)
      → (found : List (Candidate fl Lab)) × (c : Candidate fl Lab) × (rest : List
          (Candidate fl Lab))
        × AllFound fl cpu memory s (labs_by_id s) found
        × (sort_by (lab_before fl m) found ≡ c ∷ rest)
        × (c.target ≡ lab)
        × (c.target_host ≡ host)
  unfolding select_target_lab
  select_target_lab-candidate m {lab} {host} h =
      let (found, e, all_found) = lab_candidates-AllFound fl cpu memory s (labs_by_id s) in
      let (_, _, h1) = bind-eq-ok (some_labs (labs_by_id s)) _ h in
      let (cs, e', h2) = bind-eq-ok (lab_candidates fl cpu memory (labs_by_id s) s) _ h1 in
      let same : cs ≡ found = cc in
      let (c, h3, h4) = bind-eq-ok (chosen _ (sort_by (lab_before fl m) cs)) _ h2 in
      let (rest, sorted) = chosen-ok _ (sort_by (lab_before fl m) cs) h3 in
      (found, c, rest, all_found, ap (sort_by (lab_before fl m)) (sym same) ∙ sorted, cc, cc)

  -- When floats are ordered as all but NaN are, a lab that was selected, with its host, is eligible (it has
  -- not failed, its host is online, and the request is admitted there), and no eligible lab stands before
  -- it: none has a smaller id for first fit, none a smaller load score, or the same and a smaller id, for
  -- least allocated.
  pub select_target_lab-least :
      IsOrdered fl
      → (m : SchedulingMethod) (lab : Lab) (host : Host)
      → select_target_lab fl cpu memory m s ≡ ok (lab, host)
      → Elem lab s.labs
        × MayTake fl cpu memory s lab host
        × ((other : Lab) (its_host : Host)
            → Elem other s.labs
            → MayTake fl cpu memory s other its_host
            → lab_before fl m
                (lab_candidate fl cpu memory other its_host s)
                (lab_candidate fl cpu memory lab host s)
              ≡ false)
  select_target_lab-least order m lab host h =
      let (found, c, rest, (sound, complete), sorted, of_lab, of_host) =
        select_target_lab-candidate m h in
      let (is_found, least) =
        sort_by-least (lab_before fl m) (lab_before-IsOrder fl order m) found sorted in
      let (lab', host', of_labs, may, same) = sound c is_found in
      let here : lab' ≡ lab = cc in
      let there : host' ≡ host = cc in
      let by_id = sort_by-Elem (λ a b. ltb_ℤ a.id b.id) in
      (
        (by_id lab s.labs).0 (rw here at of_labs),
        rw (here, there) at may,
        λ other its_host m' may'.
            let e : c ≡ lab_candidate fl cpu memory lab host s = rw (here, there) at same in
            rw e at (least _ (complete other its_host ((by_id other s.labs).1 m') may')),
      )

  abbrev NoneMayTake : List Lab → Type 0
  NoneMayTake labs =
      (lab : Lab) (host : Host) → Elem lab labs → MayTake fl cpu memory s lab host → ⊥

  select_among-none :
      (m : SchedulingMethod) (labs : List Lab) {e : HttpError}
      → select_among fl cpu memory m labs s ≡ err e
      → NoneMayTake labs
        × (((labs ≡ []) × (e.status_code ≡ 404)) ⊎ ((labs ≢ []) × (e.status_code ≡ 409)))
  select_among-none m [] h = ((λ lab host in_labs may. absurd in_labs), inl (refl, cc))
  select_among-none m (lab ∷ labs) {e} h =
      let (found, es, (sound, complete)) = lab_candidates-AllFound fl cpu memory s (lab ∷ labs) in
      let before = lab_before fl m in
      elim (List-cases (sort_by before found)) [
        | inl sorted ↦
            let empty : found ≡ [] = sort_by-empty before found sorted in
            let raised : err (refusal 409 _) ≡ err e = rw (es, sorted) at h in
            (
              λ lab' host in_labs may.
                  let m' = complete lab' host in_labs may in absurd (rw empty at m'),
              inr ((λ x. cc), cc),
            )
        | inr (c, rest, sorted) ↦
            absurd (let x : ok (c.target, c.target_host) ≡ err e = rw (es, sorted) at h in cc)
      ]

  -- A selection fails only where no lab is eligible: with a 404 if there is no lab at all, and else with a
  -- 409.
  pub select_target_lab-none :
      (m : SchedulingMethod) (e : HttpError)
      → select_target_lab fl cpu memory m s ≡ err e
      → ((lab : Lab) (host : Host) → Elem lab s.labs → ¬ MayTake fl cpu memory s lab host)
        × (((s.labs ≡ []) × (e.status_code ≡ 404)) ⊎ ((s.labs ≢ []) × (e.status_code ≡ 409)))
  unfolding select_target_lab
  select_target_lab-none m e h =
      let (none_may, status) = select_among-none m (labs_by_id s) h in
      let lt : Lab → Lab → Bool = λ a b. ltb_ℤ a.id b.id in
      (
        λ lab host in_labs may. none_may lab host ((sort_by-Elem lt lab s.labs).1 in_labs) may,
        elim status [
          | inl (empty, code) ↦ inl (sort_by-empty lt s.labs empty, code)
          | inr (full, code) ↦ inr ((λ empty. full (ap (sort_by lt) empty)), code)
        ],
      )
