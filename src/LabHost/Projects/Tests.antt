-- ===== src/LabHost/Projects/Tests.antt =====
-- Two project names.
use docker_interface.Prelude.{◌≡◌, ◌≢◌, refl, [], ◌++◌, All}
use docker_interface.Py.Chars.{Chars, chars, filter, to_text}
use docker_interface.Py.Result.{ok, err}
use docker_interface.LabHost.Errors.{value_error}
use docker_interface.LabHost.Projects.{safe_name, project_dir}
use docker_interface.LabHost.Projects.Inside.{IsNameChar, project_dir-below}
use docker_interface.Py.Chars.Split.{Lacks}

accepted_run : project_dir (chars "/srv") (chars "lab_1") ≡ ok (chars "/srv/lab_1")
unfolding project_dir safe_name filter chars to_text
accepted_run = refl

refused_run :
    project_dir (chars "/srv") (chars "../etc")
    ≡ err (value_error "Invalid project_name. Use only letters, numbers, '-' and '_'.")
unfolding project_dir safe_name filter chars to_text
refused_run = refl

project_dir-below_example :
    ((path : Chars)
      → project_dir (chars "/srv") (chars "lab_1") ≡ ok path
      → (path ≡ chars "/srv" ++ (chars "/" ++ chars "lab_1"))
        × (chars "lab_1" ≢ [])
        × All IsNameChar (chars "lab_1")
        × Lacks 47 (chars "lab_1")
        × Lacks 46 (chars "lab_1"))
    × (chars "lab_1" ≢ []
        → All IsNameChar (chars "lab_1")
        → project_dir (chars "/srv") (chars "lab_1")
          ≡ ok (chars "/srv" ++ (chars "/" ++ chars "lab_1")))
project_dir-below_example = project_dir-below (chars "/srv") (chars "lab_1")
