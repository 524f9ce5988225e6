-- ===== src/LabHost/Limits.antt =====
-- The resource limits of a compose project, spread over its containers
-- (`_parse_memory_limit_to_bytes` and `_apply_compose_project_limits` of lab_host/docker_interface.py).
mod Tests
pub mod Shares
pub mod Spread
use docker_interface.Prelude.{
  ℕ, zero, suc, ◌+◌, ◌-◌, ◌*◌, ◌/◌, ◌%◌, ◌<◌, ◌≤◌, Char, code, String, ◌≡◌, ◌≢◌, ◌⊎◌, ◌↔◌, inl, inr,
  refl, sym, ap, ◌∙◌, Bool, true, false, ◌&&◌, ◌||◌, not, List, [], ◌∷◌, ◌++◌, map, arith, ltb, leb,
  ◌==◌, if◌then◌else◌, all, any, All, sum, length, get_elem?, Option, none, some, is_some, get_or,
  Bool-cases, Option-cases, str_eq, eq_iff, eq_refl, length-append, length-map, All-append,
}
use docker_interface.Prelude.Int.{ℤ, pos, negsuc, ltb_ℤ, leb_ℤ}
use docker_interface.Py.Chars.{Chars, chars, to_text}
use docker_interface.Py.Float.{Float}
use docker_interface.Py.Memory.{match_memory, multiplier}
use docker_interface.Py.Result.{Result, ok, err, ◌>>=◌, ◌>>◌, raise_if, format}
use docker_interface.LabHost.Errors.{Error, value_error, overflow_error, Try}

-- `int(x)`
abbrev pub int_or_raise : Option ℤ → Try ℤ
int_or_raise none = err overflow_error
int_or_raise (some n) = ok n

-- A positive number of bytes.
abbrev pub positive : ℤ → Try ℕ
positive (pos zero) = err (value_error "memory_limit must resolve to a positive number of bytes")
positive (pos (suc n)) = ok (suc n)
positive (negsuc n) = err (value_error "memory_limit must resolve to a positive number of bytes")

module _ (fl : Float) where
  unfoldable pub bytes_with : Chars → Chars → Option ℕ → Try ℕ
  bytes_with number unit none = err (
      value_error (
        format (
          "Unsupported memory unit '"
          ∷ to_text unit
          ∷ "'. Use b/k/m/g/t or ki/mi/gi/ti variants."
          ∷ [])))
  bytes_with number unit (some m) =
      int_or_raise (fl.trunc (fl.times (fl.of_text number) m)) >>= positive

  unfoldable pub matched_bytes : Option (Chars × Chars) → Try ℕ
  matched_bytes none =
      err (value_error "Invalid memory_limit format. Use values like '512m', '1g', '1024mb'.")
  matched_bytes (some (number, unit)) = bytes_with number unit (multiplier unit)

  unfoldable pub parse_memory_limit_to_bytes : Chars → Try ℕ
  parse_memory_limit_to_bytes memory_limit = matched_bytes (match_memory memory_limit)

-- `[base + (1 if idx < remainder else 0) for idx in range(count)]`, from an index on.
unfoldable pub shares_from : ℕ → ℕ → ℕ → ℕ → List ℕ
shares_from base remainder idx zero = []
shares_from base remainder idx (suc count) =
    (base + (if ltb idx remainder then 1 else 0)) ∷ shares_from base remainder (idx + 1) count

unfoldable pub spread : ℕ → ℕ → List ℕ
unfolding shares_from
spread total count = shares_from (total / count) (total % count) 0 count

-- A total that is too low for the number of containers is refused.
unfoldable pub checked_spread : String → ℕ → ℤ → Try (List ℕ)
unfolding spread
checked_spread message count (negsuc n) = err (value_error message)
checked_spread message count (pos total) = do
  raise_if (ltb total count) (value_error message)
  ok (spread total count)

-- One call of `container.update(…)`.
pub record LimitUpdate : Type 0 where
  pub container : String
  pub cpu_quota : Option ℕ
  pub mem_limit : Option ℕ

-- `xs[idx] if xs is not None else None`
abbrev pub at : Option (List ℕ) → ℕ → Option ℕ
at none idx = none
at (some xs) idx = get_elem? xs idx

-- The loop over `enumerate(containers)`: a container with neither limit gets no call.
unfoldable pub limit_updates :
    Option (List ℕ) → Option (List ℕ) → ℕ → List String → List LimitUpdate
limit_updates quotas limits idx [] = []
limit_updates quotas limits idx (c ∷ cs) =
    let rest = limit_updates quotas limits (idx + 1) cs in
    let update : LimitUpdate = record {
      container = c;
      cpu_quota = at quotas idx;
      mem_limit = at limits idx;
    } in
    if is_some (at quotas idx) || is_some (at limits idx) then update ∷ rest else rest

module _ (fl : Float) where
  open fl use {F}

  unfoldable pub cpu_quotas : ℕ → Option F → Try (Option (List ℕ))
  unfolding checked_spread
  cpu_quotas count none = ok none
  cpu_quotas count (some cpu_limit) = do
    total ← int_or_raise (fl.trunc (fl.times cpu_limit 100000))
    quotas ← checked_spread "cpu_limit is too low for the number of project containers" count total
    ok (some quotas)

  unfoldable pub memory_limits : ℕ → Option Chars → Try (Option (List ℕ))
  unfolding checked_spread parse_memory_limit_to_bytes
  memory_limits count none = ok none
  memory_limits count (some memory_limit) = do
    total ← parse_memory_limit_to_bytes fl memory_limit
    limits ←
        checked_spread "memory_limit is too low for the number of project containers" count
          (pos total)
    ok (some limits)

  unfoldable pub limits_for : List String → Option F → Option Chars → Try (List LimitUpdate)
  unfolding cpu_quotas memory_limits limit_updates
  limits_for [] cpu_limit memory_limit = ok []
  limits_for (c ∷ cs) cpu_limit memory_limit = do
    quotas ← cpu_quotas (length (c ∷ cs)) cpu_limit
    limits ← memory_limits (length (c ∷ cs)) memory_limit
    ok (limit_updates quotas limits 0 (c ∷ cs))

  -- The calls of `container.update` that are made, in order; the first argument is the containers that
  -- carry the project's label.
  unfoldable pub apply_compose_project_limits :
      List String → Option F → Option Chars → Try (List LimitUpdate)
  unfolding limits_for
  apply_compose_project_limits containers none none = ok []
  apply_compose_project_limits containers (some cpu_limit) memory_limit =
      limits_for containers (some cpu_limit) memory_limit
  apply_compose_project_limits containers none (some memory_limit) =
      limits_for containers none (some memory_limit)
