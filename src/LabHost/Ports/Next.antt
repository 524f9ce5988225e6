-- ===== src/LabHost/Ports/Next.antt =====
-- `_next_available_host_port` finds the first free port from its start, or there is none.
use Prim.Native.Nat.{max}
use docker_interface.Prelude.{
  ℕ, zero, suc, ◌+◌, ◌-◌, ◌<◌, ◌≤◌, ◌≡◌, inl, inr, refl, true, false, ◌&&◌, arith, ltb, leb, ◌==◌,
  Bool-cases,
}
use docker_interface.Prelude.Int.{ℤ, pos, pos_part}
use docker_interface.Py.Dict.{int_eq, string_eq, elem}
use docker_interface.Py.Result.{ok, err}
use docker_interface.LabHost.Errors.{Try}
use docker_interface.LabHost.Ports.{PortSet, scan, no_port_available, next_available_host_port}

le-scan : (fuel port : ℕ) (used : PortSet) → port ≤ scan fuel port used
unfolding scan
le-scan zero port used = omega arith
le-scan (suc fuel) port used = ground (arith, le-scan fuel (port + 1) used)

scan_below :
    (fuel port : ℕ) (used : PortSet) (q : ℕ)
    → port ≤ q
    → q < scan fuel port used
    → elem (pos q) used ≡ true
unfolding scan
scan_below zero port used q h k = absurd (omega arith)
scan_below (suc fuel) port used q h k = elim (Bool-cases (q == port)) [
  | inl e ↦ let e' : q ≡ port = ground arith in rw e' (ground arith)
  | inr e ↦ scan_below fuel (port + 1) used q (ground arith) (ground arith)
]

-- The loop ends because its test fails, not because the fuel is used up.
scan_ends :
    (fuel port : ℕ) (used : PortSet)
    → 65536 ≤ port + fuel
    → let last = scan fuel port used in (elem (pos last) used && leb last 65535) ≡ false
unfolding scan
scan_ends zero port used h = ground arith
scan_ends (suc fuel) port used h = ground (arith, scan_ends fuel (port + 1) used)

-- No port from the start up to `last` is free.
abbrev pub AllUsed : ℤ → ℕ → PortSet → Type 0
AllUsed start last used = (q : ℕ) → max 1 (pos_part start) ≤ q → q < last → elem (pos q) used ≡ true

-- What the function promises, by how it ends.
abbrev pub Outcome : ℤ → PortSet → Try ℕ → Type 0
Outcome start used (ok p) =
    (1 ≤ p)
    × (pos_part start ≤ p)
    × (p ≤ 65535)
    × (elem (pos p) used ≡ false)
    × AllUsed start p used
Outcome start used (err e) = (e ≡ no_port_available) × AllUsed start 65536 used

module _ (start : ℤ) (used : PortSet) where
  abbrev first : ℕ
  first = max 1 (pos_part start)

  abbrev last : ℕ
  last = scan (65536 - first) first used

  below_last : AllUsed start last used
  below_last q h k = scan_below (65536 - first) first used q h k

  -- It returns the first free port from `max(1, start)` on, which lies in 1..65535, or it raises and
  -- every port from there up to 65535 is in use.
  pub next_available-first_free : Outcome start used (next_available_host_port start used)
  unfolding next_available_host_port
  next_available-first_free = elim (Bool-cases (ltb 65535 last)) [
    | inl e ↦ rw e (refl, λ q h k. below_last q h (ground arith))
    | inr e ↦ rw e (
      ground (arith, le-scan (65536 - first) first used),
      ground (arith, le-scan (65536 - first) first used),
      ground arith,
      ground (arith, scan_ends (65536 - first) first used),
      below_last,
    )
  ]
