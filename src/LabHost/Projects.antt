-- ===== src/LabHost/Projects.antt =====
-- The directory of a compose project (`_project_dir` of lab_host/docker_interface.py).
mod Tests
pub mod Inside
use docker_interface.Prelude.{
  String, ◌≡◌, refl, Bool, true, false, not, ◌&&◌, ◌||◌, List, [], ◌∷◌, ◌++◌, Char, code, ◌==◌,
  if◌then◌else◌, str_eq,
}
use docker_interface.Py.Chars.{Chars, chars, to_text, filter, is_alnum}
use docker_interface.Py.Result.{Result, ok, err}
use docker_interface.LabHost.Errors.{Try, value_error}

-- `ch.isalnum() or ch in "-_"`
abbrev pub is_safe : Char → Bool
is_safe c = is_alnum c || code c == 45 || code c == 95

abbrev pub is_empty : Chars → Bool
is_empty [] = true
is_empty (c ∷ s) = false

unfoldable pub safe_name : Chars → Chars
safe_name project_name = filter is_safe project_name

-- The base directory, and the name behind a slash.
abbrev pub below : Chars → Chars → Chars
below base name = base ++ (chars "/" ++ name)

unfoldable pub project_dir : Chars → Chars → Try Chars
project_dir base project_name =
    if not (str_eq (to_text (safe_name project_name)) (to_text project_name))
      || is_empty (safe_name project_name)
    then err (value_error "Invalid project_name. Use only letters, numbers, '-' and '_'.")
    else ok (below base (safe_name project_name))
