-- ===== src/ControlPlane/Session.antt =====
-- A request handler of the control plane: it reads and changes the database, calls lab hosts, and may
-- raise. Every change is committed at once, as each method of the repositories
-- (control_plane/db/repos/) does, so an exception undoes nothing.
use docker_interface.Prelude.{
  ℕ, String, Bool, not, List, [], ◌∷◌, Option, none, some, str_eq, if◌then◌else◌,
}
use docker_interface.Prelude.Int.{ℤ, eqb_ℤ}
use docker_interface.Py.Dict.{Dict}
use docker_interface.Py.Value.{Value, list_or_empty}
use docker_interface.Py.Result.{Result, ok, err}
use docker_interface.ControlPlane.Rows.{Container, Project, Network, Host, Lab, online}

-- `HTTPException`
pub record HttpError : Type 0 where
  pub status_code : ℕ
  pub detail : Value

pub data Method : Type 0 where
  get post delete : Method

-- One request to a lab host.
pub record Call : Type 0 where
  pub ip_address : String
  pub port : ℤ
  pub scheme : String
  pub api_key : String
  pub method : Method
  pub endpoint_path : String
  pub query : Dict String String
  pub json_body : Value

-- The rows of the tables, and the requests that were made.
pub record Session : Type 0 where
  pub hosts : List Host
  pub labs : List Lab
  pub containers : List Container
  pub projects : List Project
  pub networks : List Network
  pub calls : List Call

-- What the secret store raises: `KeyError`, or anything else, with its text.
pub data SecretError : Type 0 where
  key_error other_error : String → SecretError

-- What a request to a lab host raises: `httpx.HTTPError`, or another exception, such as the `ValueError` for
-- a scheme that is neither `http` nor `https`.
pub data CallError : Type 0 where
  http_error other_failure : String → CallError

-- What the code meets outside: a lab host's answer (or that the request failed) and the time, each
-- after the requests so far, and the secret store.
pub record Outside : Type 0 where
  pub answer : List Call → Call → Result CallError (Dict String Value)
  pub now : List Call → ℤ
  pub get_secret : String → Result SecretError Value

-- The rows that satisfy a test.
abbrev pub select {ℓ} : {A : Type ℓ} → (A → Bool) → List A → List A
select p [] = []
select p (x ∷ xs) = let rest = select p xs in if p x then x ∷ rest else rest

-- `scalar_one_or_none` on a unique column.
abbrev pub first {ℓ} : {A : Type ℓ} → List A → Option A
first [] = none
first (x ∷ xs) = some x

abbrev pub Step : Type 0 → Type 0
Step A = Session → Result HttpError A × Session

abbrev pub continue :
    {A B : Type 0} → (A → Step B) → Result HttpError A × Session → Result HttpError B × Session
continue f (ok a, s) = f a s
continue f (err e, s) = (err e, s)

infixl 5 ◌>>=◌ ◌>>◌
abbrev pub ◌>>=◌ : {A B : Type 0} → Step A → (A → Step B) → Step B
m >>= f = λ s. continue f (m s)

abbrev pub ◌>>◌ : {A B : Type 0} → Step A → Step B → Step B
m >> k = m >>= λ _. k

abbrev pub return : {A : Type 0} → A → Step A
return a = λ s. (ok a, s)

abbrev pub raise : {A : Type 0} → HttpError → Step A
raise e = λ s. (err e, s)

abbrev pub read : {A : Type 0} → (Session → A) → Step A
read f = λ s. (ok (f s), s)

-- A loop over a list.
abbrev pub for_each : {A : Type 0} → List A → (A → Step (Unit {0})) → Step (Unit {0})
for_each [] f = return tt
for_each (x ∷ xs) f = f x >> for_each xs f

-- `LabRepository.list_by_host_id` and the two `list_by_lab_id`.
abbrev pub labs_of : ℤ → Session → List Lab
labs_of host_id s = select (λ lab. eqb_ℤ lab.host_id host_id) s.labs

abbrev pub containers_of : ℤ → Session → List Container
containers_of lab_id s = select (λ c. eqb_ℤ c.lab_id lab_id) s.containers

abbrev pub projects_of : ℤ → Session → List Project
projects_of lab_id s = select (λ p. eqb_ℤ p.lab_id lab_id) s.projects

-- The two `delete_row`.
unfoldable pub delete_container_row : Container → Step (Unit {0})
delete_container_row row =
    λ s. (ok tt, record s { containers = select (λ c. not (eqb_ℤ c.id row.id)) s.containers })

unfoldable pub delete_project_row : Project → Step (Unit {0})
delete_project_row row =
    λ s. (ok tt, record s { projects = select (λ p. not (eqb_ℤ p.id row.id)) s.projects })

-- `HostRepository.mark_online`, whose update stands in the place of the row of that id.
abbrev pub put_host : Host → List Host → List Host
put_host host [] = []
put_host host (h ∷ hs) =
    let rest = put_host host hs in if eqb_ℤ h.id host.id then host ∷ rest else h ∷ rest

unfoldable pub mark_online : ℤ → Host → Step Host
mark_online now host = λ s.
    let host' : Host = record host { status = online; last_heartbeat_utc = now } in
    (ok host', record s { hosts = put_host host' s.hosts })

-- `ProjectRepository.exposed_service_names`
abbrev nonempty : List Value → List String
nonempty [] = []
nonempty (Value.str s ∷ vs) = let rest = nonempty vs in if str_eq s "" then rest else s ∷ rest
nonempty (_ ∷ vs) = nonempty vs

abbrev pub exposed_service_names : Project → List String
exposed_service_names row = nonempty (list_or_empty row.exposed_services)
