-- ===== src/ControlPlane/Helpers.antt =====
-- The helpers of control_plane/controller_helpers.py that talk to a lab host and read its answers.
use docker_interface.Prelude.{
  String, Bool, false, not, ◌&&◌, [], ◌∷◌, ◌++◌, Option, none, some, get_or, str_eq, if◌then◌else◌,
}
use docker_interface.Prelude.Int.{ℤ, pos, leb_ℤ, ltb_ℤ, eqb_ℤ}
use docker_interface.Py.Dict.{Dict, string_eq, elem}
use docker_interface.Py.Value.{
  Value, null, str, int, dict, of_fields, fields, as_dict, as_int, get, lower_text,
}
use docker_interface.Py.Result.{Result, ok, err, format}
use docker_interface.ControlPlane.Rows.{ContainerStatus, created, started, stopped, paused, Host}
use docker_interface.ControlPlane.Session.{
  CallError, http_error, other_failure, HttpError, Method, get as get_method, post, delete, Call,
  Session, Outside, Step, ◌>>=◌, ◌>>◌, return, raise,
}

-- An answer of a lab host, as `LabHostClient.call` gives it.
abbrev pub Reply : Type 0
Reply = Dict String Value

unfoldable pub extract_status_code : Reply → ℤ
unfolding get
extract_status_code result = get_or (as_int (get "status_code" result)) (pos 500)

unfoldable pub extract_body : Reply → Value
unfolding get
extract_body result = get "body" result

unfoldable pub extract_container_from_body : Value → Option (Dict String Value)
unfolding get
extract_container_from_body (dict fs) = as_dict (get "container" (fields fs))
extract_container_from_body _ = none

abbrev label_set : Value → Bool
label_set (str s) = not (str_eq s "")
label_set _ = false

unfoldable pub is_compose_container : Dict String Value → Bool
unfolding get
is_compose_container container = elim (as_dict (get "labels" container)) [
  | none ↦ false
  | some labels ↦ label_set (get "com.docker.compose.project" labels)
]

unfoldable pub to_container_status : Option String → ContainerStatus
unfolding lower_text
to_container_status runtime_status =
    let status_value = lower_text (get_or runtime_status "") in
    if elem status_value ("running" ∷ "restarting" ∷ [])
    then started
    else if elem status_value ("paused" ∷ [])
    then paused
    else if elem status_value ("exited" ∷ "dead" ∷ "stopped" ∷ [])
    then stopped
    else created

abbrev pub not_found_error : String → HttpError
not_found_error detail = record { status_code = 404; detail = str detail }

abbrev pub bad_gateway : String → Reply → HttpError
bad_gateway operation result = record {
  status_code = 502;
  detail = dict (
      of_fields (
        ("message", str (format ("Lab host operation failed: " ∷ operation ∷ [])))
        ∷ ("lab_host_status_code", int (extract_status_code result))
        ∷ ("lab_host_body", extract_body result)
        ∷ []));
}

-- `if not_found_detail`
abbrev pub failure_of : Option String → String → Reply → HttpError
failure_of none operation result = bad_gateway operation result
failure_of (some detail) operation result =
    if eqb_ℤ (extract_status_code result) (pos 404) && not (str_eq detail "")
    then not_found_error detail
    else bad_gateway operation result

unfoldable pub raise_for_lab_host_error : Reply → String → Option String → Step (Unit {0})
raise_for_lab_host_error result operation not_found_detail =
    if ltb_ℤ (extract_status_code result) (pos 400)
    then return tt
    else raise (failure_of not_found_detail operation result)

-- The request is noted, and a failure of it is a 502; another exception passes, and the framework answers it
-- with a 500.
abbrev pub answered : Result CallError Reply → Session → Result HttpError Reply × Session
answered (ok reply) s = (ok reply, s)
answered (err (other_failure exc)) s = (err (record { status_code = 500; detail = str exc }), s)
answered (err (http_error exc)) s = (
  err (record {
    status_code = 502;
    detail = str (format ("Lab host request failed: " ∷ exc ∷ []));
  }),
  s,
)

abbrev pub note : Call → Session → Session
note call s = record s { calls = s.calls ++ call ∷ [] }

module _ (outside : Outside) (host : Host) (api_key : String) where
  abbrev pub request : Method → String → Dict String String → Call
  request method endpoint_path query = record {
    ip_address = host.ip_address;
    port = host.port;
    scheme = host.scheme;
    api_key = api_key;
    method = method;
    endpoint_path = endpoint_path;
    query = query;
    json_body = null;
  }

  unfoldable pub call_lab_host : Method → String → Dict String String → Step Reply
  call_lab_host method endpoint_path query = λ s.
      let call = request method endpoint_path query in
      answered (outside.answer s.calls call) (note call s)

  -- The same, with a body.
  abbrev pub request_with : Method → String → Value → Call
  request_with method endpoint_path body = record {
    ip_address = host.ip_address;
    port = host.port;
    scheme = host.scheme;
    api_key = api_key;
    method = method;
    endpoint_path = endpoint_path;
    query = [];
    json_body = body;
  }

  unfoldable pub call_lab_host_with : Method → String → Value → Step Reply
  call_lab_host_with method endpoint_path body = λ s.
      let call = request_with method endpoint_path body in
      answered (outside.answer s.calls call) (note call s)

  abbrev pub container_path : String → String
  container_path ref = format ("/containers/" ∷ ref ∷ [])

  unfoldable pub fetch_runtime_container : String → Step (Option (Dict String Value))
  fetch_runtime_container ref = do
    result ← call_lab_host get_method (container_path ref) []
    (if eqb_ℤ (extract_status_code result) (pos 404) then return none else (do
      raise_for_lab_host_error result (format ("get container '" ∷ ref ∷ "'" ∷ [])) none
      return (extract_container_from_body (extract_body result))))

  abbrev force : String → Dict String String
  force value = ("force", value) ∷ []

  -- A refused removal is repeated by force; a container that is not there counts as removed.
  unfoldable pub remove_runtime_container : String → Step (Reply × Reply)
  remove_runtime_container ref = do
    stop_result ← call_lab_host post (format ("/containers/" ∷ ref ∷ "/state/stop" ∷ [])) []
    delete_result ← call_lab_host delete (container_path ref) (force "false")
    let delete_status = extract_status_code delete_result
    (if leb_ℤ (pos 400) delete_status && not (eqb_ℤ delete_status (pos 404))
        then (do
          forced ← call_lab_host delete (container_path ref) (force "true")
          return (stop_result, forced))
        else return (stop_result, delete_result))
