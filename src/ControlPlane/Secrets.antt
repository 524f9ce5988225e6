-- ===== src/ControlPlane/Secrets.antt =====
-- The secret store in memory, and the path of a host's key (control_plane/secret_store.py).
pub mod Paths
mod Tests
use docker_interface.Prelude.{
  String, Bool, ◌||◌, ◌==◌, List, [], ◌∷◌, Char, code, Option, none, some, str_eq,
}
use docker_interface.Py.Chars.{Chars, to_text, filter, is_alnum}
use docker_interface.Py.Dict.{Dict, string_eq, lookup, insert}
use docker_interface.Py.Result.{Result, ok, err, format}
use docker_interface.ControlPlane.Session.{SecretError, key_error}

-- `ch.isalnum() or ch in "-_"`
abbrev pub is_path_safe : Char → Bool
is_path_safe c = is_alnum c || code c == 45 || code c == 95

-- `ValueError`, with its text.
pub data PathError : Type 0 where
  value_error : String → PathError

abbrev pub path_of : Chars → Result PathError String
path_of [] = err (value_error "hostname must contain at least one alphanumeric character")
path_of (c ∷ name) = ok (format ("lab-hosts/" ∷ to_text (c ∷ name) ∷ "/api-key" ∷ []))

unfoldable pub build_host_api_key_secret_path : Chars → Result PathError String
build_host_api_key_secret_path hostname = path_of (filter is_path_safe hostname)

-- `InMemorySecretStore`
unfoldable pub put_secret : String → String → Dict String String → Dict String String
put_secret secret_path value storage = insert secret_path value storage

abbrev pub stored : String → Option String → Result SecretError String
stored secret_path none = err (key_error (format ("Secret not found at path: " ∷ secret_path ∷ [])))
stored secret_path (some value) = ok value

unfoldable pub get_secret : String → Dict String String → Result SecretError String
get_secret secret_path storage = stored secret_path (lookup secret_path storage)
