-- ===== src/ControlPlane/Labs/Whole.antt =====
-- `create_lab` and `_create_lab_on_host` as a whole.
use docker_interface.Prelude.{
  String, ◌≡◌, refl, sym, ap, ◌∙◌, Bool, true, false, not, List, [], map, Option, none, some,
  is_some,
}
use docker_interface.Prelude.Int.{ℤ}
use docker_interface.Py.Float.{Float}
use docker_interface.Py.Result.{Result, ok, err, raise_if}
use docker_interface.ControlPlane.Rows.{Host, LabStatus}
use docker_interface.ControlPlane.Session.{
  HttpError, Session, Outside, Step, ◌>>=◌, get as get_method,
}
use docker_interface.ControlPlane.Helpers.{call_lab_host, raise_for_lab_host_error}
use docker_interface.ControlPlane.Reconcile.Invariant.{Keeps}
use docker_interface.ControlPlane.Scheduling.{is_online, find_host, effective_limits_for_host}
use docker_interface.ControlPlane.Labs.{lab_by_name, check, api_key_of}
use docker_interface.ControlPlane.Labs.Create.{
  CreateLabRequest, CreatedLab, new_lab, insert_and_create, create_with_key, create_lab_on_host,
  taken, known_host, host_is_online, check_host, create_lab, float_of, int_of_float,
}
use docker_interface.ControlPlane.Labs.Steps.{SameRows, call-Keeps, raise_for-Keeps}
use docker_interface.ControlPlane.Labs.Undone.{IsUnused}
use docker_interface.ControlPlane.Labs.Created.{IsCreated, insert_and_create-rows}
use docker_interface.ControlPlane.Labs.Triples.{
  After-ok, After-err, Triple, Triple-bind, Triple-keeps, Triple-check, Triple-read, Triple-fact,
  Triple-checked,
}

module _ (fl : Float) (new_id : List ℤ → ℤ) (outside : Outside) (base : Session)
    (unused : IsUnused (new_id (map (λ lab. lab.id) base.labs)) base) where
  abbrev Unchanged : HttpError → Session → Type 0
  Unchanged e s = SameRows base s

  abbrev Created : String → Host → CreatedLab → Session → Type 0
  Created name host r s = IsCreated base name host.id r.lab s

  quiet :
      {A : Type 0} (m : Step A)
      → Keeps (SameRows base) m
      → Triple Unchanged (SameRows base) m (λ _. SameRows base)
  quiet m k = Triple-keeps Unchanged (SameRows base) m k (λ e s h. h)

  module _ (name : String) (status_value : LabStatus) (host : Host) where
    create_with_key-rows :
        (cpu memory : Option ℤ) (limit_warning : Option String) (api_key : String)
        → Triple Unchanged
            (SameRows base)
            (create_with_key fl new_id outside name status_value host cpu memory limit_warning
              api_key)
            (Created name host)
    create_with_key-rows cpu memory limit_warning api_key =
        Triple-bind Unchanged (call_lab_host outside host api_key get_method "/health" []) _
          (λ _. SameRows base) (Created name host)
          (quiet _ (call-Keeps base outside host api_key get_method "/health" []))
          λ health.
            Triple-bind Unchanged (raise_for_lab_host_error health "health check" none) _
              (λ _. SameRows base) (Created name host)
              (quiet _ (raise_for-Keeps (SameRows base) health "health check" none))
              λ _.
                Triple-read Unchanged (SameRows base)
                  (new_lab fl new_id outside name status_value host cpu memory)
                  (insert_and_create fl new_id outside host api_key limit_warning)
                  (Created name host)
                  λ s h.
                    let lab = new_lab fl new_id outside name status_value host cpu memory s in
                    let same : lab.id ≡ new_id (map (λ l. l.id) base.labs) =
                      ap (λ (x : Session). new_id (map (λ l. l.id) x.labs)) h in
                    insert_and_create-rows fl new_id outside base host api_key lab (rw same unused)
                      limit_warning

    create_lab_on_host-rows :
        (cpu_limit memory_limit_mb : Option ℤ)
        → Triple Unchanged
            (SameRows base)
            (create_lab_on_host fl new_id outside name status_value host cpu_limit memory_limit_mb)
            (Created name host)
    unfolding create_lab_on_host
    create_lab_on_host-rows cpu_limit memory_limit_mb =
        let limits =
          effective_limits_for_host fl host (float_of fl new_id outside cpu_limit) memory_limit_mb
            "lab" in
        Triple-bind Unchanged (check (λ s. api_key_of outside host))
          (create_with_key fl new_id outside name status_value host
            (int_of_float fl new_id outside limits.0) limits.1 limits.2)
          (λ _. SameRows base) (Created name host)
          (Triple-fact Unchanged _ (SameRows base) (Unit {0}) _ _ _ (λ s h. (h, tt))
            (Triple-check Unchanged (SameRows base) (λ s. api_key_of outside host) (λ e s h. h))
            (λ _ a s h. h.0))
          (create_with_key-rows _ _ _)

  -- What holds of a lab that was created for a request.
  abbrev pub CreatedFor : CreateLabRequest → CreatedLab → Session → Type 0
  CreatedFor payload r s =
      (host : Host) × (lab_by_name payload.name base ≡ none)
      × (find_host payload.host_id base ≡ some host)
      × (is_online host.status ≡ true)
      × Created payload.name host r s

  checked :
      {A B : Type 0} (F : A → Type 0) (f : Session → Result HttpError A) (k : A → Step B)
      (R : B → Session → Type 0)
      → ((s : Session) (a : A) → SameRows base s → f s ≡ ok a → F a)
      → ((a : A) → F a → Triple Unchanged (SameRows base) (k a) R)
      → Triple Unchanged (SameRows base) (check f >>= k) R
  checked F f k R fact t = Triple-checked Unchanged (SameRows base) F f k R (λ e s h. h) fact t

  raise_if-none :
      {A : Type 0} (o : Option A) (e : HttpError) → raise_if (is_some o) e ≡ ok tt → o ≡ none
  raise_if-none none e h = refl
  raise_if-none (some a) e h = cc

  raise_if-not : (b : Bool) (e : HttpError) → raise_if (not b) e ≡ ok tt → b ≡ true
  raise_if-not true e h = refl
  raise_if-not false e h = cc

  known_host-ok :
      (id : ℤ) (o : Option Host) {host : Host}
      → known_host fl new_id outside id o ≡ ok host
      → o ≡ some host
  known_host-ok id none h = cc
  known_host-ok id (some a) {host} h = let e : a ≡ host = cc in ap some e

  create_lab-after :
      (payload : CreateLabRequest)
      → Triple Unchanged (SameRows base) (create_lab fl new_id outside payload) (CreatedFor payload)
  unfolding create_lab
  create_lab-after payload =
      checked (λ _. lab_by_name payload.name base ≡ none) (taken fl new_id outside payload.name) _
        (CreatedFor payload)
        (λ s a same h.
          ap (lab_by_name payload.name) (sym same) ∙ raise_if-none (lab_by_name payload.name s) _ h)
        λ _ free.
          checked (λ host. find_host payload.host_id base ≡ some host)
            (λ s. known_host fl new_id outside payload.host_id (find_host payload.host_id s)) _
            (CreatedFor payload)
            (λ s host same h.
              ap (find_host payload.host_id) (sym same) ∙ known_host-ok payload.host_id _ h)
            λ host known.
              checked (λ _. is_online host.status ≡ true)
                (λ s. host_is_online fl new_id outside host) _ (CreatedFor payload)
                (λ s a same h. raise_if-not (is_online host.status) _ h)
                λ _ up.
                  checked (λ _. Unit {0}) (check_host fl new_id outside host payload) _
                    (CreatedFor payload) (λ s a same h. tt)
                    λ _ _.
                      Triple-fact Unchanged (SameRows base) (SameRows base) (Unit {0}) _ _
                        (CreatedFor payload) (λ s h. (h, tt))
                        (create_lab_on_host-rows payload.name payload.status host payload.cpu_limit
                          payload.memory_limit_mb)
                        (λ _ r s h. (host, free, known, up, h))

  -- When the database gives the new lab an id that no row has or refers to: a `create_lab` that raises, at
  -- whatever point, leaves every row as it was. One that returns has been asked for a name that no lab has
  -- and for a host that is online, and has added the row of the lab, on that host and with its two default
  -- networks, the rows of these two networks, and nothing else.
  pub create_lab-rows :
      (payload : CreateLabRequest)
      → let after = create_lab fl new_id outside payload base in
        ((e : HttpError) → after.0 ≡ err e → SameRows base after.1)
        × ((r : CreatedLab) → after.0 ≡ ok r → CreatedFor payload r after.1)
  create_lab-rows payload =
      let h = (create_lab-after payload).holds base refl in
      let after = create_lab fl new_id outside payload base in
      (
        λ e q. After-err (CreatedFor payload) Unchanged after h q,
        λ r q. After-ok (CreatedFor payload) Unchanged after h q,
      )
