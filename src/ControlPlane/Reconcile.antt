-- ===== src/ControlPlane/Reconcile.antt =====
-- The reconciliation of control_plane/reconciliation/service.py.
mod Tests
pub mod Run
pub mod Heartbeat
pub mod Kept
pub mod Due
pub mod Invariant
pub mod OnlyDue
pub mod Settled
pub mod Removed
use docker_interface.Prelude.{
  ℕ, Char, code, String, ◌≡◌, Bool, true, false, not, ◌&&◌, ◌||◌, List, [], ◌∷◌, ◌++◌, Option, none,
  some, is_some, get_or, str_eq, if◌then◌else◌, any, ◌==◌, ◌*◌,
}
use docker_interface.Prelude.Int.{ℤ, pos, negsuc, ◌-ℤ◌, leb_ℤ, ltb_ℤ, eqb_ℤ}
use docker_interface.Py.Chars.{Chars, chars, to_text, lower, strip, is_alnum, filter}
use docker_interface.Py.Dict.{Dict, string_eq, elem, lookup, insert}
use docker_interface.Py.Value.{
  Value, str, int, list, dict, fields, items, as_dict, as_int, as_str, get, lower_text,
}
use docker_interface.Py.Result.{Result, ok, err, format}
use docker_interface.ControlPlane.Rows.{
  LifetimeType, persistent, ephemeral, single_use, session, ContainerStatus, created, started,
  stopped, paused, ProjectDesiredState, running, Container, Project, Host, Lab,
}
use docker_interface.ControlPlane.Session.{
  HttpError, Method, get as get_method, post, delete, Session, Outside, Step, ◌>>=◌, ◌>>◌, return,
  read, for_each, labs_of, containers_of, projects_of, select, first, delete_container_row,
  delete_project_row, mark_online, exposed_service_names,
}
use docker_interface.ControlPlane.Helpers.{
  Reply, extract_status_code, extract_body, extract_container_from_body, call_lab_host,
  container_path, remove_runtime_container,
}

abbrev is_mark : Char → Bool
is_mark c = code c == 45 || code c == 95

abbrev is_dot : Char → Bool
is_dot c = code c == 46

abbrev slug_or_lab : Chars → String
slug_or_lab [] = "lab"
slug_or_lab (c ∷ s) = to_text (c ∷ s)

unfoldable pub safe_slug : String → String
unfolding chars to_text lower strip filter
safe_slug value =
    slug_or_lab (strip is_mark (filter (λ ch. is_alnum ch || is_mark ch) (lower (chars value))))

unfoldable pub route_hostname : String → String → String → String
unfolding safe_slug chars to_text strip
route_hostname resource_name lab_name base_domain = format (
    safe_slug resource_name
    ∷ "-"
    ∷ safe_slug lab_name
    ∷ "."
    ∷ to_text (strip is_dot (chars base_domain))
    ∷ [])

-- The age is compared in microseconds.
unfoldable pub ttl_expired : ℤ → ℤ → Option ℤ → Bool
ttl_expired now created_at none = false
ttl_expired now created_at (some (negsuc n)) = false
ttl_expired now created_at (some (pos n)) =
    not (n == 0) && leb_ℤ (pos (n * 1000000)) (now -ℤ created_at)

abbrev pub Runtime : Type 0
Runtime = Option (Dict String Value)

unfoldable pub runtime_status : Runtime → Option String
unfolding get lower_text
runtime_status none = none
runtime_status (some payload) = elim (as_str (get "status" payload)) [
  | none ↦ none
  | some s ↦ some (lower_text s)
]

unfoldable pub runtime_exit_code : Runtime → Option ℤ
unfolding get
runtime_exit_code none = none
runtime_exit_code (some payload) = as_int (get "exit_code" payload)

-- `status in {…}`, which `None` is not.
abbrev pub status_in : Option String → List String → Bool
status_in none names = false
status_in (some s) names = elem s names

abbrev pub alive : List String
alive = "running" ∷ "restarting" ∷ []

abbrev pub gone : List String
gone = "exited" ∷ "dead" ∷ "stopped" ∷ []

abbrev pub is_zero : Option ℤ → Bool
is_zero none = false
is_zero (some n) = eqb_ℤ n (pos 0)

-- A single-use container that ended well.
unfoldable pub completed : Runtime → Bool
unfolding runtime_status runtime_exit_code
completed runtime = status_in (runtime_status runtime) gone && is_zero (runtime_exit_code runtime)

unfoldable pub compose_containers_from_ps : Reply → List (Dict String Value)
unfolding extract_body get
compose_containers_from_ps result = elim (as_dict (extract_body result)) [
  | none ↦ []
  | some body ↦ elim (as_dict (get "project" body)) [
    | none ↦ []
    | some project ↦ dicts_of (get "containers" project)
  ]
]
  where
    dicts : List Value → List (Dict String Value)
    dicts [] = []
    dicts (dict fs ∷ vs) = fields fs ∷ dicts vs
    dicts (_ ∷ vs) = dicts vs

    dicts_of : Value → List (Dict String Value)
    dicts_of (list vs) = dicts (items vs)
    dicts_of _ = []

unfoldable pub all_completed : List (Dict String Value) → Bool
unfolding completed
all_completed [] = true
all_completed (item ∷ rest) = completed (some item) && all_completed rest

unfoldable pub all_single_use_success : List (Dict String Value) → Bool
unfolding all_completed
all_single_use_success [] = false
all_single_use_success (item ∷ rest) = all_completed (item ∷ rest)

unfoldable pub any_alive : List (Dict String Value) → Bool
unfolding runtime_status
any_alive items = any (λ item. status_in (runtime_status (some item)) alive) items
