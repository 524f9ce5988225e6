-- ===== src/LabHost/Limits/Tests.antt =====
-- The limits of a project of three containers, with whole numbers for floats.
use docker_interface.Prelude.{ℕ, ◌≡◌, refl, List, [], ◌∷◌, map, some, Option, String}
use docker_interface.Prelude.Int.{pos}
use docker_interface.Py.Chars.{chars}
use docker_interface.Py.Chars.Digits.{int_of}
use docker_interface.Py.Memory.{match_memory, multiplier}
use docker_interface.Py.Float.{whole}
use docker_interface.Py.Result.{ok}
use docker_interface.LabHost.Limits.{
  LimitUpdate, matched_bytes, bytes_with, parse_memory_limit_to_bytes, apply_compose_project_limits,
}
use docker_interface.LabHost.Limits.Spread.{
  IsSpread, containers_of, quotas_of, limits_of, cpu_quota-IsSpread, memory_limit-IsSpread,
}

abbrev update : String → Option ℕ → Option ℕ → LimitUpdate
update c quota limit = record { container = c; cpu_quota = quota; mem_limit = limit }

abbrev updates : List LimitUpdate
updates =
    update "web" (some 33334) (some 342)
    ∷ update "db" (some 33333) (some 341)
    ∷ update "mq" (some 33333) (some 341)
    ∷ []

apply_run :
    apply_compose_project_limits whole ("web" ∷ "db" ∷ "mq" ∷ []) (some (pos 1)) (some (chars "1k"))
    ≡ ok updates
unfolding apply_compose_project_limits chars int_of matched_bytes match_memory bytes_with multiplier
apply_run = refl

cpu_quota-IsSpread_example :
    (total : ℕ) × (quotas : List ℕ) × (some (pos 100000) ≡ some (pos total))
    × (containers_of updates ≡ "web" ∷ "db" ∷ "mq" ∷ [])
    × (quotas_of updates ≡ map some quotas)
    × IsSpread total 3 quotas
cpu_quota-IsSpread_example =
    cpu_quota-IsSpread whole "web" ("db" ∷ "mq" ∷ []) (pos 1) (some (chars "1k")) apply_run

memory_limit-IsSpread_example :
    (total : ℕ) × (limits : List ℕ) × (parse_memory_limit_to_bytes whole (chars "1k") ≡ ok total)
    × (containers_of updates ≡ "web" ∷ "db" ∷ "mq" ∷ [])
    × (limits_of updates ≡ map some limits)
    × IsSpread total 3 limits
memory_limit-IsSpread_example =
    memory_limit-IsSpread whole "web" ("db" ∷ "mq" ∷ []) (some (pos 1)) (chars "1k") apply_run
