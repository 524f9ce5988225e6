-- ===== src/ControlPlane/Labs.antt =====
-- The labs of control_plane/controller.py: they are created with two networks on their host, and removed
-- with all they have. The database gives a new row the id `new_id` of the ids in its table.
pub mod Create
pub mod Delete
pub mod Steps
pub mod Triples
pub mod Undone
pub mod Created
pub mod Whole
pub mod Deleted
mod Tests
use docker_interface.Prelude.{
  ℕ, String, Bool, true, false, not, ◌&&◌, ◌||◌, List, [], ◌∷◌, ◌++◌, map, Option, none, some,
  str_eq, if◌then◌else◌,
}
use docker_interface.Prelude.Int.{ℤ, pos, leb_ℤ, eqb_ℤ}
use docker_interface.Py.Value.{Value, str, dict, fields, as_dict, as_str, get, lower_text}
use docker_interface.Py.Result.{Result, ok, err, ◌>>=◌, format}
use docker_interface.ControlPlane.Rows.{
  Container, Project, Network, NetworkDriver, bridge, overlay, Host, Lab,
}
use docker_interface.ControlPlane.Session.{HttpError, Session, Outside, Step, select, first, raise}
use docker_interface.ControlPlane.Helpers.{Reply, extract_body}
use docker_interface.ControlPlane.Connection.{path_or_400, fetched}
use docker_interface.ControlPlane.Scheduling.{refusal}

-- `LabRepository.get_by_name`
abbrev pub lab_by_name : String → Session → Option Lab
lab_by_name lab_name s = first (select (λ lab. str_eq lab.name lab_name) s.labs)

-- `NetworkRepository.list_by_lab_id`
abbrev pub networks_of : ℤ → Session → List Network
networks_of lab_id s = select (λ n. eqb_ℤ n.lab_id lab_id) s.networks

-- The four `delete_by_lab_id`; the rows that refer to a lab go with it (`ON DELETE CASCADE`).
abbrev pub delete_projects : ℤ → Session → Session
delete_projects lab_id s = record s {
  projects = select (λ p. not (eqb_ℤ p.lab_id lab_id)) s.projects;
}

abbrev pub delete_containers : ℤ → Session → Session
delete_containers lab_id s = record s {
  containers = select (λ c. not (eqb_ℤ c.lab_id lab_id)) s.containers;
}

abbrev pub delete_networks : ℤ → Session → Session
delete_networks lab_id s = record s {
  networks = select (λ n. not (eqb_ℤ n.lab_id lab_id)) s.networks;
}

abbrev pub delete_lab_row : ℤ → Session → Session
delete_lab_row lab_id s =
    record (delete_projects lab_id (delete_containers lab_id (delete_networks lab_id s))) {
      labs = select (λ lab. not (eqb_ℤ lab.id lab_id)) s.labs;
    }

-- A change of the database.
abbrev pub write : (Session → Session) → Step (Unit {0})
write f = λ s. (ok tt, f s)

-- A step of a handler that only checks.
abbrev pub check : {A : Type 0} → (Session → Result HttpError A) → Step A
check f = λ s. (f s, s)

-- What `_extract_network_from_result` returns.
pub record CreatedNetwork : Type 0 where
  pub network_id : String
  pub name : String
  pub driver : NetworkDriver

abbrev is_overlay : Value → Bool
is_overlay (str s) = str_eq (lower_text s) "overlay"
is_overlay _ = false

abbrev pub bad_network : {A : Type 0} → String → Result HttpError A
bad_network detail = err (refusal 502 detail)

abbrev named_network : Value → Option String → Option String → Result HttpError CreatedNetwork
named_network driver (some network_id) (some name) = ok (record {
  network_id = network_id;
  name = name;
  driver = if is_overlay driver then overlay else bridge;
})
named_network driver _ _ = bad_network "Lab host network payload is malformed"

abbrev network_of_payload : Value → Result HttpError CreatedNetwork
network_of_payload (dict fs) =
    let network = fields fs in
    named_network (get "driver" network) (as_str (get "id" network)) (as_str (get "name" network))
network_of_payload _ = bad_network "Lab host network response is missing 'network' payload"

abbrev network_of_body : Value → Result HttpError CreatedNetwork
network_of_body (dict fs) = network_of_payload (get "network" (fields fs))
network_of_body _ = bad_network "Invalid network response from lab host"

unfoldable pub extract_network_from_result : Reply → Result HttpError CreatedNetwork
extract_network_from_result result = network_of_body (extract_body result)

-- `SecretStore.get_secret` gives a text.
abbrev pub key_text : Value → String
key_text (str api_key) = api_key
key_text _ = ""

-- The key of a host, and what is raised where there is none.
abbrev pub api_key_of : Outside → Host → Result HttpError String
api_key_of outside host = do
  path ← path_or_400 host host.api_key_secret_path
  api_key ← fetched (outside.get_secret path)
  ok (key_text api_key)
