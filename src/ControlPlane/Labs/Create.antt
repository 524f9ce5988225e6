-- ===== src/ControlPlane/Labs/Create.antt =====
-- `_create_lab_on_host`, `create_lab` and `create_lab_scheduled` of control_plane/controller.py.
use docker_interface.Prelude.{
  String, Bool, true, false, not, List, [], ◌∷◌, ◌++◌, map, Option, none, some, if◌then◌else◌,
  is_some,
}
use docker_interface.Prelude.Int.{ℤ, ◌+ℤ◌, eqb_ℤ}
use docker_interface.Py.Chars.{to_text}
use docker_interface.Py.Chars.Digits.{str_ℤ}
use docker_interface.Py.Value.{Value, str, bool, int, dict, of_fields}
use docker_interface.Py.Float.{Float}
use docker_interface.Py.Result.{Result, ok, err, raise_if, format}
use docker_interface.ControlPlane.Rows.{Network, Host, Lab, LabStatus}
use docker_interface.ControlPlane.Session.{
  HttpError, get as get_method, post, delete, Session, Outside, Step, ◌>>=◌, ◌>>◌, return, raise,
  read, for_each,
}
use docker_interface.ControlPlane.Helpers.{
  call_lab_host, call_lab_host_with, raise_for_lab_host_error,
}
use docker_interface.ControlPlane.Capacity.{
  is_host_unbounded, conflict, host_cpu, host_memory, cpu_above, above, number, or_zero,
}
use docker_interface.ControlPlane.Reconcile.{safe_slug}
use docker_interface.ControlPlane.Scheduling.{
  SchedulingMethod, refusal, is_online, find_host, effective_limits_for_host,
  select_target_host_for_lab,
}
use docker_interface.ControlPlane.Labs.{
  lab_by_name, delete_lab_row, write, check, CreatedNetwork, extract_network_from_result,
  api_key_of,
}

pub record CreateLabRequest : Type 0 where
  pub name : String
  pub host_id : ℤ
  pub cpu_limit : Option ℤ
  pub memory_limit_mb : Option ℤ
  pub status : LabStatus

-- The response, before its row is written out.
pub record CreatedLab : Type 0 where
  pub lab : Lab
  pub limit_warning : Option String

module _ (fl : Float) (new_id : List ℤ → ℤ) (outside : Outside) where
  open fl use {F}

  abbrev pub float_of : Option ℤ → Option F
  float_of none = none
  float_of (some n) = some (fl.of_int n)

  -- `int(x)` of a finite float.
  abbrev pub int_of_float : Option F → Option ℤ
  int_of_float none = none
  int_of_float (some x) = fl.trunc x

  abbrev pub insert_lab : Lab → Session → Session
  insert_lab lab s = record s { labs = s.labs ++ lab ∷ [] }

  abbrev pub insert_network : Network → Session → Session
  insert_network network s = record s { networks = s.networks ++ network ∷ [] }

  abbrev pub put_lab : Lab → List Lab → List Lab
  put_lab lab [] = []
  put_lab lab (l ∷ ls) =
      let rest = put_lab lab ls in if eqb_ℤ l.id lab.id then lab ∷ rest else l ∷ rest

  abbrev pub new_lab : String → LabStatus → Host → Option ℤ → Option ℤ → Session → Lab
  new_lab name status_value host cpu_limit memory_limit_mb s = record {
    id = new_id (map (λ lab. lab.id) s.labs);
    name = name;
    host_id = host.id;
    status = status_value;
    default_internal_network_id = none;
    default_external_network_id = none;
    cpu_limit = cpu_limit;
    memory_limit_mb = memory_limit_mb;
    created_at_utc = outside.now s.calls;
  }

  abbrev pub new_network : Lab → CreatedNetwork → Session → Network
  new_network lab created s = record {
    id = new_id (map (λ n. n.id) s.networks);
    network_id = created.network_id;
    name = created.name;
    lab_id = lab.id;
    driver = created.driver;
    created_at_utc = outside.now s.calls;
  }

  module _ (host : Host) (api_key : String) where
    abbrev network_name : Lab → String → String
    network_name lab role =
        format ("lab-" ∷ safe_slug lab.name ∷ "-" ∷ to_text (str_ℤ lab.id) ∷ "-" ∷ role ∷ [])

    abbrev pub network_body : Lab → String → Bool → Value
    network_body lab role internal = dict (
        of_fields (
          ("name", str (network_name lab role))
          ∷ ("driver", str "bridge")
          ∷ ("internal", bool internal)
          ∷ (
            "labels",
            dict (
                of_fields (
                  ("evlab.managed_by", str "control-plane")
                  ∷ ("evlab.lab.id", str (to_text (str_ℤ lab.id)))
                  ∷ ("evlab.lab.name", str lab.name)
                  ∷ ("evlab.network.role", str (format ("default-" ∷ role ∷ [])))
                  ∷ [])),
          )
          ∷ []))

    -- A default network, as the lab host has created it.
    abbrev pub request_network : Lab → String → Bool → Step CreatedNetwork
    request_network lab role internal = do
      result ←
          call_lab_host_with outside host api_key post "/networks" (network_body lab role internal)
      raise_for_lab_host_error result
          (format ("create default " ∷ role ∷ " network for lab '" ∷ lab.name ∷ "'" ∷ [])) none
      check λ s. extract_network_from_result result

    -- `except Exception: pass`
    abbrev pub ignore : {A : Type 0} → Step A → Step (Unit {0})
    ignore m = λ s. (ok tt, (m s).1)

    abbrev pub delete_network : String → Step (Unit {0})
    delete_network network_id =
        ignore
          (call_lab_host outside host api_key delete (format ("/networks/" ∷ network_id ∷ [])) [])

    -- The networks that were created are removed from the host, and the row of the lab with what refers to
    -- it; the exception goes on.
    abbrev pub undo : {A : Type 0} → Lab → List String → HttpError → Step A
    undo lab created_network_ids e =
        for_each created_network_ids delete_network >> (write (delete_lab_row lab.id) >> raise e)

    -- A step inside the `try`, after the networks that it has created so far.
    abbrev pub after_try :
        {A B : Type 0}
        → Lab
        → List String
        → (A → Step B)
        → Result HttpError A × Session
        → Result HttpError B × Session
    after_try lab ids k (ok a, s) = k a s
    after_try lab ids k (err e, s) = undo lab ids e s

    abbrev pub guarded : {A B : Type 0} → Lab → List String → Step A → (A → Step B) → Step B
    guarded lab ids m k = λ s. after_try lab ids k (m s)

    abbrev pub with_default_networks : Lab → Network → Network → Lab
    with_default_networks lab internal external = record lab {
      default_internal_network_id = some internal.id;
      default_external_network_id = some external.id;
    }

    -- The row of the lab gets its two networks.
    abbrev pub finish_lab : Lab → Network → Network → Step Lab
    finish_lab lab internal_row external_row =
        let updated = with_default_networks lab internal_row external_row in
        write (λ s. record s { labs = put_lab updated s.labs }) >> return updated

    abbrev pub keep_external : Lab → Network → Network → Step Lab
    keep_external lab internal_row external_row =
        write (insert_network external_row) >> finish_lab lab internal_row external_row

    abbrev pub store_external : Lab → Network → CreatedNetwork → Step Lab
    store_external lab internal_row external =
        read (new_network lab external) >>= keep_external lab internal_row

    abbrev pub keep_internal : Lab → CreatedNetwork → Network → Step Lab
    keep_internal lab internal internal_row =
        write (insert_network internal_row)
        >> guarded lab (internal.network_id ∷ []) (request_network lab "external" false)
            (store_external lab internal_row)

    abbrev pub store_internal : Lab → CreatedNetwork → Step Lab
    store_internal lab internal = read (new_network lab internal) >>= keep_internal lab internal

    -- The `try` of `_create_lab_on_host`, for the row that was inserted.
    abbrev pub create_networks : Lab → Step Lab
    create_networks lab = guarded lab [] (request_network lab "internal" true) (store_internal lab)

    abbrev pub created_response : Option String → Lab → Step CreatedLab
    created_response limit_warning lab =
        return (record { lab = lab; limit_warning = limit_warning })

    abbrev pub insert_and_create : Option String → Lab → Step CreatedLab
    insert_and_create limit_warning lab =
        write (insert_lab lab) >> (create_networks lab >>= created_response limit_warning)

  abbrev pub create_with_key :
      String → LabStatus → Host → Option ℤ → Option ℤ → Option String → String → Step CreatedLab
  create_with_key name status_value host cpu memory limit_warning api_key =
      call_lab_host outside host api_key get_method "/health" [] >>= λ health.
      raise_for_lab_host_error health "health check" none
      >> (read (new_lab name status_value host cpu memory)
          >>= insert_and_create host api_key limit_warning)

  unfoldable pub create_lab_on_host :
      String → LabStatus → Host → Option ℤ → Option ℤ → Step CreatedLab
  create_lab_on_host name status_value host cpu_limit memory_limit_mb =
      let (cpu, memory, limit_warning) =
        effective_limits_for_host fl host (float_of cpu_limit) memory_limit_mb "lab" in
      check (λ s. api_key_of outside host)
      >>= create_with_key name status_value host (int_of_float cpu) memory limit_warning

  abbrev host_cpu_refusal : Host → String → F → F → F → HttpError
  host_cpu_refusal host name used requested after = conflict (
      (
        "message",
        str (
            format (
              "Insufficient CPU capacity on host '" ∷ host.hostname ∷ "' for lab '" ∷ name ∷ "'"
              ∷ [])),
      )
      ∷ ("host_cpu_total", number fl (fl.of_int host.cpu_total))
      ∷ ("host_cpu_used", number fl used)
      ∷ ("requested_cpu", number fl requested)
      ∷ ("resulting_cpu", number fl after)
      ∷ [])

  abbrev host_memory_refusal : Host → String → ℤ → ℤ → ℤ → HttpError
  host_memory_refusal host name used requested after = conflict (
      (
        "message",
        str (
            format (
              "Insufficient memory capacity on host '" ∷ host.hostname ∷ "' for lab '" ∷ name ∷ "'"
              ∷ [])),
      )
      ∷ ("host_memory_total_mb", int host.memory_total_mb)
      ∷ ("host_memory_used_mb", int used)
      ∷ ("requested_memory_mb", int requested)
      ∷ ("resulting_memory_mb", int after)
      ∷ [])

  -- The two checks of a host with declared resources.
  abbrev pub check_host : Host → CreateLabRequest → Session → Result HttpError (Unit {0})
  check_host host payload s =
      let requested_cpu = fl.of_int (or_zero payload.cpu_limit) in
      let requested_memory = or_zero payload.memory_limit_mb in
      let cpu_used = host_cpu fl host.id s in
      let memory_used = host_memory host.id s in
      let cpu_after = fl.add cpu_used requested_cpu in
      let memory_after = memory_used +ℤ requested_memory in
      if is_host_unbounded host
      then ok tt
      else if cpu_above fl (some host.cpu_total) cpu_after
      then err (host_cpu_refusal host payload.name cpu_used requested_cpu cpu_after)
      else raise_if (above (some host.memory_total_mb) memory_after)
          (host_memory_refusal host payload.name memory_used requested_memory memory_after)

  abbrev pub known_host : ℤ → Option Host → Result HttpError Host
  known_host host_id none =
      err (refusal 404 (format ("Host not found: " ∷ to_text (str_ℤ host_id) ∷ [])))
  known_host host_id (some host) = ok host

  abbrev pub taken : String → Session → Result HttpError (Unit {0})
  taken name s =
      raise_if (is_some (lab_by_name name s))
        (refusal 409 (format ("Lab already exists: " ∷ name ∷ [])))

  abbrev pub host_is_online : Host → Result HttpError (Unit {0})
  host_is_online host =
      raise_if (not (is_online host.status))
        (refusal 409 (format ("Host is not online: " ∷ host.hostname ∷ [])))

  unfoldable pub create_lab : CreateLabRequest → Step CreatedLab
  create_lab payload =
      check (taken payload.name)
      >> (check (λ s. known_host payload.host_id (find_host payload.host_id s)) >>= λ host.
          check (λ s. host_is_online host)
          >> (check (check_host host payload)
              >> create_lab_on_host payload.name payload.status host payload.cpu_limit
                  payload.memory_limit_mb))

  -- The host of the request is not read: it is selected.
  unfoldable pub create_lab_scheduled :
      SchedulingMethod → CreateLabRequest → Step (Host × CreatedLab)
  create_lab_scheduled scheduling_method payload =
      check (taken payload.name)
      >> (check (
            select_target_host_for_lab fl (float_of payload.cpu_limit) payload.memory_limit_mb
              scheduling_method)
          >>= λ host.
              create_lab_on_host payload.name payload.status host payload.cpu_limit
                payload.memory_limit_mb
              >>= λ created. return (host, created))
