-- ===== src/ControlPlane/Scheduling.antt =====
-- On which lab a deployment goes, and on which host a lab (`_select_target_lab` and
-- `_select_target_host_for_lab` of control_plane/controller.py).
mod Order
pub mod Eligible
pub mod Best
pub mod BestHost
mod Tests
use docker_interface.Prelude.{
  ℕ, String, Bool, true, false, not, ◌&&◌, ◌||◌, ◌==◌, List, [], ◌∷◌, Option, none, some, get_or,
  str_eq, if◌then◌else◌, sort_by, ◌++◌,
}
use docker_interface.Prelude.Int.{ℤ, pos, ◌+ℤ◌, ltb_ℤ, eqb_ℤ}
use docker_interface.Py.Value.{Value, str}
use docker_interface.Py.Float.{Float}
use docker_interface.Py.Result.{Result, ok, err, ◌>>=◌, format}
use docker_interface.ControlPlane.Rows.{Host, Lab, HostStatus, online, LabStatus, lab_failed}
use docker_interface.ControlPlane.Session.{HttpError, Session, select, first}
use docker_interface.ControlPlane.Capacity.{
  is_host_unbounded, lab_cpu, lab_memory, host_cpu, host_memory, or_zero, Requested,
  enforce_resource_capacity,
}

pub data SchedulingMethod : Type 0 where
  first_fit least_allocated : SchedulingMethod

abbrev pub is_failed : LabStatus → Bool
is_failed lab_failed = true
is_failed _ = false

abbrev pub is_online : HostStatus → Bool
is_online online = true
is_online _ = false

-- `ORDER BY id` of the two `list_all`.
abbrev pub labs_by_id : Session → List Lab
labs_by_id s = sort_by (λ a b. ltb_ℤ a.id b.id) s.labs

abbrev pub hosts_by_id : Session → List Host
hosts_by_id s = sort_by (λ a b. ltb_ℤ a.id b.id) s.hosts

-- `HostRepository.get_by_id`
abbrev pub find_host : ℤ → Session → Option Host
find_host id s = first (select (λ h. eqb_ℤ h.id id) s.hosts)

abbrev pub refusal : ℕ → String → HttpError
refusal status_code detail = record { status_code = status_code; detail = str detail }

-- `not host.api_key_secret_path`
abbrev pub has_text : Option String → Bool
has_text none = false
has_text (some path) = not (str_eq path "")

-- What a list of candidates offers: the first one, in the order of the sort.
abbrev pub chosen : {A : Type 0} → String → List A → Result HttpError A
chosen detail [] = err (refusal 409 detail)
chosen detail (c ∷ cs) = ok c

abbrev pub some_labs : List Lab → Result HttpError (Unit {0})
some_labs [] = err (refusal 404 "No labs are available")
some_labs (_ ∷ _) = ok tt

module _ (fl : Float) where
  open fl use {F}

  -- The host or the lab that may be chosen, with what it has given out.
  pub record Candidate (A : Type 0) : Type 0 where
    pub target : A
    pub target_host : Host
    pub cpu_used : F
    pub memory_used_mb : ℤ

  abbrev larger : F → F → F
  larger x y = if fl.lt x y then y else x

  -- `float(used) / capacity if capacity > 0 else 1.0`
  abbrev ratio : F → F → F
  ratio used capacity =
      if fl.lt (fl.of_int (pos 0)) capacity then fl.div used capacity else fl.of_int (pos 1)

  abbrev load_of : F → ℤ → F → F → F
  load_of cpu_used memory_used_mb cpu_capacity memory_capacity =
      larger (ratio cpu_used cpu_capacity) (ratio (fl.of_int memory_used_mb) memory_capacity)

  unfoldable pub lab_load_score : Lab → Host → F → ℤ → F
  lab_load_score lab host cpu_used memory_used_mb =
      if is_host_unbounded host
      then fl.of_int (pos 0)
      else load_of cpu_used memory_used_mb (fl.of_int (get_or lab.cpu_limit host.cpu_total))
          (fl.of_int (get_or lab.memory_limit_mb host.memory_total_mb))

  unfoldable pub host_load_score : Host → F → ℤ → F
  host_load_score host cpu_used memory_used_mb =
      if is_host_unbounded host
      then fl.of_int (pos 0)
      else load_of cpu_used memory_used_mb (fl.of_int host.cpu_total)
          (fl.of_int host.memory_total_mb)

  -- Python compares the tuples `(score, id)`.
  abbrev pub key_below : F × ℤ → F × ℤ → Bool
  key_below a b = if fl.eq a.0 b.0 then ltb_ℤ a.1 b.1 else fl.lt a.0 b.0

  abbrev pub lab_key : Candidate Lab → F × ℤ
  lab_key c = (lab_load_score c.target c.target_host c.cpu_used c.memory_used_mb, c.target.id)

  abbrev pub host_key : Candidate Host → F × ℤ
  host_key c = (host_load_score c.target c.cpu_used c.memory_used_mb, c.target.id)

  abbrev pub lab_before : SchedulingMethod → Candidate Lab → Candidate Lab → Bool
  lab_before least_allocated a b = key_below (lab_key a) (lab_key b)
  lab_before first_fit a b = ltb_ℤ a.target.id b.target.id

  abbrev pub host_before : SchedulingMethod → Candidate Host → Candidate Host → Bool
  host_before least_allocated a b = key_below (host_key a) (host_key b)
  host_before first_fit a b = ltb_ℤ a.target.id b.target.id

  module _ (requested_cpu : Option F) (requested_memory_mb : Option ℤ) where
    abbrev pub scheduled : Requested F
    scheduled = record {
      cpu = requested_cpu;
      memory_mb = requested_memory_mb;
      existing_cpu = none;
      existing_memory_mb = none;
      resource_kind = "scheduled deployment";
    }

    abbrev pub lab_candidate : Lab → Host → Session → Candidate Lab
    lab_candidate lab host s = record {
      target = lab;
      target_host = host;
      cpu_used = lab_cpu fl lab.id s;
      memory_used_mb = lab_memory lab.id s;
    }

    -- `except HTTPException`
    abbrev admitted :
        Candidate Lab → Result HttpError (Unit {0}) → Result HttpError (List (Candidate Lab))
    admitted c (ok _) = ok (c ∷ [])
    admitted c (err exc) =
        if exc.status_code == 404 || exc.status_code == 409 then ok [] else err exc

    abbrev on_host : Lab → Session → Option Host → Result HttpError (List (Candidate Lab))
    on_host lab s none = ok []
    on_host lab s (some host) =
        if not (is_online host.status)
        then ok []
        else admitted (lab_candidate lab host s) (enforce_resource_capacity fl lab host scheduled s)

    -- One round of the loop over the labs.
    unfoldable pub consider_lab : Lab → Session → Result HttpError (List (Candidate Lab))
    consider_lab lab s =
        if is_failed lab.status then ok [] else on_host lab s (find_host lab.host_id s)

    abbrev pub lab_candidates : List Lab → Session → Result HttpError (List (Candidate Lab))
    lab_candidates [] s = ok []
    lab_candidates (lab ∷ labs) s = do
      found ← consider_lab lab s
      rest ← lab_candidates labs s
      ok (found ++ rest)

    abbrev selected_lab : Candidate Lab → Lab × Host
    selected_lab c = (c.target, c.target_host)

    abbrev pub select_among : SchedulingMethod → List Lab → Session → Result HttpError (Lab × Host)
    select_among scheduling_method labs s = do
      _ ← some_labs labs
      candidates ← lab_candidates labs s
      selected ←
          chosen "No eligible lab has enough capacity for this deployment"
            (sort_by (lab_before scheduling_method) candidates)
      ok (selected_lab selected)

    unfoldable pub select_target_lab : SchedulingMethod → Session → Result HttpError (Lab × Host)
    select_target_lab scheduling_method s = select_among scheduling_method (labs_by_id s) s

    -- The host has room for the request, as `_select_target_host_for_lab` counts it.
    abbrev pub has_room : Host → F → ℤ → Bool
    has_room host cpu_used memory_used =
        is_host_unbounded host
        || (not (
              fl.lt (fl.of_int host.cpu_total)
                (fl.add cpu_used (get_or requested_cpu (fl.of_int (pos 0)))))
            && not (ltb_ℤ host.memory_total_mb (memory_used +ℤ or_zero requested_memory_mb)))

    abbrev pub host_candidate : Host → Session → Candidate Host
    host_candidate host s = record {
      target = host;
      target_host = host;
      cpu_used = host_cpu fl host.id s;
      memory_used_mb = host_memory host.id s;
    }

    abbrev pub may_host : Host → Session → Bool
    may_host host s =
        is_online host.status
        && has_text host.api_key_secret_path
        && has_room host (host_cpu fl host.id s) (host_memory host.id s)

    abbrev pub host_candidates : List Host → Session → List (Candidate Host)
    host_candidates [] s = []
    host_candidates (host ∷ hosts) s =
        let rest = host_candidates hosts s in
        if may_host host s then host_candidate host s ∷ rest else rest

    unfoldable pub select_target_host_for_lab : SchedulingMethod → Session → Result HttpError Host
    select_target_host_for_lab scheduling_method s = do
      selected ←
          chosen "No eligible online host has enough capacity for this lab"
            (sort_by (host_before scheduling_method) (host_candidates (hosts_by_id s) s))
      ok selected.target

  -- The request's limits where the host declares resources; otherwise none, and a message about it.
  unfoldable pub effective_limits_for_host :
      Host → Option F → Option ℤ → String → Option F × Option ℤ × Option String
  effective_limits_for_host host none none resource_kind = (none, none, none)
  effective_limits_for_host host requested_cpu requested_memory_mb resource_kind =
      if not (is_host_unbounded host) then (requested_cpu, requested_memory_mb, none) else (
        none,
        none,
        some (
            format (
              "Host '" ∷ host.hostname
              ∷ "' is configured as unbounded (cpu_total=0 and memory_total_mb=0); " ∷ resource_kind
              ∷ " CPU/memory limits were not applied." ∷ [])),
      )
