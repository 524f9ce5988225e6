-- ===== src/ControlPlane/Capacity.antt =====
-- Which resources a lab and a host have given out, and whether a request fits
-- (control_plane/controller_helpers.py).
pub mod Admitted
mod Tests
pub mod MemoryLimit
use docker_interface.Prelude.{
  ℕ, String, ◌≡◌, Bool, true, false, not, ◌&&◌, ◌||◌, List, [], ◌∷◌, ◌++◌, map, Option, none, some,
  get_or, if◌then◌else◌, ◌/◌,
}
use docker_interface.Prelude.Int.{ℤ, pos, negsuc, ◌+ℤ◌, ◌-ℤ◌, ltb_ℤ, leb_ℤ, eqb_ℤ}
use docker_interface.Py.Chars.{Chars, to_text}
use docker_interface.Py.Value.{Value, str, int, float, dict, of_fields}
use docker_interface.Py.Float.{Float}
use docker_interface.Py.Memory.{match_memory, multiplier}
use docker_interface.Py.Result.{Result, ok, err, ◌>>=◌, ◌>>◌, raise_if, format}
use docker_interface.ControlPlane.Rows.{Container, Project, Host, Lab}
use docker_interface.ControlPlane.Session.{HttpError, Session, labs_of, containers_of, projects_of}

unfoldable pub is_host_unbounded : Host → Bool
is_host_unbounded host = eqb_ℤ host.cpu_total (pos 0) && eqb_ℤ host.memory_total_mb (pos 0)

-- `sum(…)` of integers.
abbrev pub sum_ℤ : List ℤ → ℤ
sum_ℤ [] = pos 0
sum_ℤ (x ∷ xs) = x +ℤ sum_ℤ xs

-- `int(x or 0)`
abbrev pub or_zero : Option ℤ → ℤ
or_zero x = get_or x (pos 0)

unfoldable pub lab_memory : ℤ → Session → ℤ
lab_memory lab_id s =
    sum_ℤ (map (λ c. or_zero c.memory_limit_mb) (containers_of lab_id s))
    +ℤ sum_ℤ (map (λ p. or_zero p.memory_limit_mb) (projects_of lab_id s))

-- The loop over the host's labs.
abbrev pub add_memory : Session → List Lab → ℤ
add_memory s [] = pos 0
add_memory s (lab ∷ labs) = lab_memory lab.id s +ℤ add_memory s labs

unfoldable pub host_memory : ℤ → Session → ℤ
host_memory host_id s = add_memory s (labs_of host_id s)

-- What a caller asks for, and what the row that it replaces has.
pub record Requested (F : Type 0) : Type 0 where
  pub cpu : Option F
  pub memory_mb : Option ℤ
  pub existing_cpu : Option F
  pub existing_memory_mb : Option ℤ
  pub resource_kind : String

abbrev pub conflict : List (String × Value) → HttpError
conflict detail = record { status_code = 409; detail = dict (of_fields detail) }

unfoldable pub after : ℤ → Option ℤ → Option ℤ → ℤ
after used existing requested = (used -ℤ or_zero existing) +ℤ or_zero requested

-- `lab_memory_after > int(lab.memory_limit_mb)`, if there is a limit.
unfoldable pub above : Option ℤ → ℤ → Bool
above none n = false
above (some limit) n = ltb_ℤ limit n

module _ (fl : Float) where
  open fl use {F}

  abbrev float_or_zero : Option F → F
  float_or_zero x = get_or x (fl.of_int (pos 0))

  abbrev bits_or_zero : Option ℕ → F
  bits_or_zero none = fl.of_int (pos 0)
  bits_or_zero (some bits) = fl.of_bits bits

  unfoldable pub lab_cpu : ℤ → Session → F
  lab_cpu lab_id s =
      fl.add (fl.sum (map (λ c. fl.of_int (or_zero c.cpu_limit)) (containers_of lab_id s)))
        (fl.sum (map (λ p. bits_or_zero p.cpu_limit) (projects_of lab_id s)))

  abbrev add_cpu : Session → F → List Lab → F
  add_cpu s total [] = total
  add_cpu s total (lab ∷ labs) = add_cpu s (fl.add total (lab_cpu lab.id s)) labs

  unfoldable pub host_cpu : ℤ → Session → F
  host_cpu host_id s = add_cpu s (fl.of_int (pos 0)) (labs_of host_id s)

  unfoldable pub cpu_after : F → Option F → Option F → F
  cpu_after used existing requested =
      fl.add (fl.sub used (float_or_zero existing)) (float_or_zero requested)

  unfoldable pub cpu_above : Option ℤ → F → Bool
  cpu_above none x = false
  cpu_above (some limit) x = fl.lt (fl.of_int limit) x

  abbrev pub number : F → Value
  number x = float (fl.to_bits x)

  unfoldable pub lab_cpu_conflict : Lab → Requested F → F → HttpError
  lab_cpu_conflict lab r used = conflict (
      (
        "message",
        str (
            format
              ("Insufficient CPU capacity in lab '" ∷ lab.name ∷ "' for " ∷ r.resource_kind ∷ [])),
      )
      ∷ ("lab_cpu_limit", number (fl.of_int (or_zero lab.cpu_limit)))
      ∷ ("lab_cpu_used", number used)
      ∷ ("requested_cpu", number (float_or_zero r.cpu))
      ∷ ("resulting_cpu", number (cpu_after used r.existing_cpu r.cpu))
      ∷ [])

  unfoldable pub lab_memory_conflict : Lab → Requested F → ℤ → HttpError
  lab_memory_conflict lab r used = conflict (
      (
        "message",
        str (
            format (
              "Insufficient memory capacity in lab '" ∷ lab.name ∷ "' for " ∷ r.resource_kind
              ∷ [])),
      )
      ∷ ("lab_memory_limit_mb", int (or_zero lab.memory_limit_mb))
      ∷ ("lab_memory_used_mb", int used)
      ∷ ("requested_memory_mb", int (or_zero r.memory_mb))
      ∷ ("resulting_memory_mb", int (after used r.existing_memory_mb r.memory_mb))
      ∷ [])

  unfoldable pub host_cpu_conflict : Host → Requested F → F → HttpError
  host_cpu_conflict host r used = conflict (
      (
        "message",
        str (
            format (
              "Insufficient CPU capacity on host '" ∷ host.hostname ∷ "' for " ∷ r.resource_kind
              ∷ [])),
      )
      ∷ ("host_cpu_total", number (fl.of_int host.cpu_total))
      ∷ ("host_cpu_used", number used)
      ∷ ("requested_cpu", number (float_or_zero r.cpu))
      ∷ ("resulting_cpu", number (cpu_after used r.existing_cpu r.cpu))
      ∷ [])

  unfoldable pub host_memory_conflict : Host → Requested F → ℤ → HttpError
  host_memory_conflict host r used = conflict (
      (
        "message",
        str (
            format (
              "Insufficient memory capacity on host '" ∷ host.hostname ∷ "' for " ∷ r.resource_kind
              ∷ [])),
      )
      ∷ ("host_memory_total_mb", int host.memory_total_mb)
      ∷ ("host_memory_used_mb", int used)
      ∷ ("requested_memory_mb", int (or_zero r.memory_mb))
      ∷ ("resulting_memory_mb", int (after used r.existing_memory_mb r.memory_mb))
      ∷ [])

  -- The four checks, in the order of the source.
  unfoldable pub check_capacity : Lab → Host → Requested F → Session → Result HttpError (Unit {0})
  check_capacity lab host r s = do
    let cpu_used = lab_cpu lab.id s
    let memory_used = lab_memory lab.id s
    raise_if (cpu_above lab.cpu_limit (cpu_after cpu_used r.existing_cpu r.cpu))
        (lab_cpu_conflict lab r cpu_used)
    raise_if (above lab.memory_limit_mb (after memory_used r.existing_memory_mb r.memory_mb))
        (lab_memory_conflict lab r memory_used)
    let host_cpu_used = host_cpu host.id s
    let host_memory_used = host_memory host.id s
    raise_if (cpu_above (some host.cpu_total) (cpu_after host_cpu_used r.existing_cpu r.cpu))
        (host_cpu_conflict host r host_cpu_used)
    raise_if
        (above (some host.memory_total_mb)
          (after host_memory_used r.existing_memory_mb r.memory_mb))
        (host_memory_conflict host r host_memory_used)

  unfoldable pub enforce_resource_capacity :
      Lab → Host → Requested F → Session → Result HttpError (Unit {0})
  enforce_resource_capacity lab host r s =
      if is_host_unbounded host then ok tt else check_capacity lab host r s
