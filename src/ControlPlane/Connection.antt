-- ===== src/ControlPlane/Connection.antt =====
-- The host of a lab and its API key (`resolve_lab_host_connection` of
-- control_plane/controller_helpers.py).
mod Tests
pub mod Keys
use docker_interface.Prelude.{
  ℕ, String, ◌≡◌, List, [], ◌∷◌, Option, none, some, str_eq, if◌then◌else◌,
}
use docker_interface.Prelude.Int.{eqb_ℤ}
use docker_interface.Py.Value.{Value, str}
use docker_interface.Py.Result.{Result, ok, err, ◌>>=◌, format}
use docker_interface.ControlPlane.Rows.{Host, Lab}
use docker_interface.ControlPlane.Session.{
  HttpError, SecretError, key_error, other_error, Session, Outside, select, first,
}

abbrev problem : ℕ → List String → HttpError
problem status_code parts = record { status_code = status_code; detail = str (format parts) }

-- `host_repo.get_by_id(lab.host_id)`, and a 404 if there is no such row.
unfoldable pub host_or_404 : String → Option Host → Result HttpError Host
host_or_404 lab_name none = err (problem 404 ("Host not found for lab '" ∷ lab_name ∷ "'" ∷ []))
host_or_404 lab_name (some host) = ok host

abbrev no_reference : Host → HttpError
no_reference host =
    problem 400 ("Host '" ∷ host.hostname ∷ "' has no API key secret reference configured" ∷ [])

unfoldable pub path_or_400 : Host → Option String → Result HttpError String
path_or_400 host none = err (no_reference host)
path_or_400 host (some path) = if str_eq path "" then err (no_reference host) else ok path

unfoldable pub fetched : Result SecretError Value → Result HttpError Value
fetched (ok api_key) = ok api_key
fetched (err (key_error exc)) = err (problem 404 (exc ∷ []))
fetched (err (other_error exc)) =
    err (problem 502 ("Failed to fetch API key from secret store: " ∷ exc ∷ []))

unfoldable pub resolve_lab_host_connection :
    Outside → Lab → Session → Result HttpError (Host × Value)
resolve_lab_host_connection outside lab s = do
  host ← host_or_404 lab.name (first (select (λ h. eqb_ℤ h.id lab.host_id) s.hosts))
  path ← path_or_400 host host.api_key_secret_path
  api_key ← fetched (outside.get_secret path)
  ok (host, api_key)
