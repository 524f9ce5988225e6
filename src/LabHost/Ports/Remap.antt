-- ===== src/LabHost/Ports/Remap.antt =====
-- What the loop of `_remap_requested_ports_if_needed` makes of each requested mapping.
pub mod Fresh
use docker_interface.Prelude.{
  ℕ, zero, suc, ◌+◌, ◌-◌, ◌*◌, ◌/◌, ◌%◌, ◌<◌, ◌≤◌, Char, code, String, ◌≡◌, ◌≢◌, ◌⊎◌, ◌↔◌, inl, inr,
  refl, sym, ap, ◌∙◌, Bool, true, false, ◌&&◌, ◌||◌, not, List, [], ◌∷◌, ◌++◌, map, arith, ltb, leb,
  ◌==◌, if◌then◌else◌, all, any, All, sum, length, get_elem?, Option, none, some, is_some, get_or,
  Bool-cases, Option-cases, str_eq, eq_iff, eq_refl, length-append, length-map, All-append,
}
use mathlib.Core.List.{append_assoc, append-nil}
use docker_interface.Prelude.Int.{ℤ, pos, negsuc, pos_part, neg_part, eqb_ℤ, eqb_ℤ_iff, ltb_ℤ, ◌≤ℤ◌}
use docker_interface.Py.Dict.{
  Dict, Eq, int_eq, string_eq, elem, insert, lookup, values, lookup-insert,
}
use docker_interface.Py.Value.{Value}
use docker_interface.Py.Result.{Result, ok, err, ◌>>=◌, Result-cases, is_ok}
use docker_interface.LabHost.Errors.{Error, Try}
use docker_interface.LabHost.Ports.{
  PortSet, PortMapping, next_available_host_port, assign, note_remap, remap_loop,
}
use docker_interface.LabHost.Ports.Next.{Outcome, next_available-first_free}

abbrev pub InRange : ℤ → Type 0
InRange p = (pos 1 ≤ℤ p) × (p ≤ℤ pos 65535)

-- The port that a desired port becomes: itself if it is free, else a greater free one in range.
abbrev pub Assigned : PortSet → ℤ → ℤ → Type 0
Assigned used desired assigned =
    (elem assigned used ≡ false)
    × (elem desired used ≡ false → assigned ≡ desired)
    × (elem desired used ≡ true → InRange assigned × (ltb_ℤ desired assigned ≡ true))

next-Assigned :
    (used : PortSet) (desired : ℤ) (r : Try ℕ) {a : ℤ}
    → elem desired used ≡ true
    → Outcome desired used r
    → (r >>= λ p. ok (pos p)) ≡ ok a
    → Assigned used desired a
next-Assigned used desired (err e) busy o h = cc
next-Assigned used desired (ok p) busy o h = ground arith

pub assign-Assigned :
    (used : PortSet) (desired : ℤ) {a : ℤ} → assign used desired ≡ ok a → Assigned used desired a
unfolding assign
assign-Assigned used desired {a} h = elim (Bool-cases (elem desired used)) [
  | inl busy ↦
      next-Assigned used desired (next_available_host_port desired used) busy
        (next_available-first_free desired used) (rw busy at h)
  | inr free ↦ ground arith
]

abbrev MappingAssigned : PortSet → PortMapping → PortMapping → Type 0
MappingAssigned used m n =
    Assigned used m.host n.host × (n.container ≡ m.container) × (n.protocol ≡ m.protocol)

-- Each port that is assigned counts as used for the mappings behind it.
abbrev pub Remapped : PortSet → List PortMapping → List PortMapping → Type 0
Remapped used [] [] = Unit
Remapped used (m ∷ ms) (n ∷ ns) = MappingAssigned used m n × Remapped (n.host ∷ used) ms ns
Remapped used _ _ = ⊥

-- The remap that is reported for requested and resulting mappings.
abbrev pub note_all : List PortMapping → List PortMapping → Dict ℤ ℤ → Dict ℤ ℤ
note_all (m ∷ ms) (n ∷ ns) remap = note_all ms ns (note_remap m.host n.host remap)
note_all _ _ remap = remap

abbrev pub LoopDone :
    PortSet → List PortMapping → Dict ℤ ℤ → List PortMapping → List PortMapping × Dict ℤ ℤ → Type 0
LoopDone used ms remap done (out, noted) =
    (tail : List PortMapping) × (out ≡ done ++ tail)
    × (noted ≡ note_all ms tail remap)
    × Remapped used ms tail

loop_step :
    (used : PortSet) (m : PortMapping) (ms : List PortMapping) (remap : Dict ℤ ℤ)
    (done : List PortMapping) (a : ℤ) (r : List PortMapping × Dict ℤ ℤ)
    → Assigned used m.host a
    → LoopDone (a ∷ used) ms (note_remap m.host a remap) (done ++ record m { host = a } ∷ []) r
    → LoopDone used (m ∷ ms) remap done r
loop_step used m ms remap done a r h (tail, out, noted, rest) = (
  record m { host = a } ∷ tail,
  out ∙ append_assoc done (record m { host = a } ∷ []) tail,
  noted,
  ((h, refl, refl), rest),
)

pub remap_loop_lem :
    (ms : List PortMapping) (used : PortSet) (remap : Dict ℤ ℤ) (done : List PortMapping)
    {r : List PortMapping × Dict ℤ ℤ}
    → remap_loop ms used remap done ≡ ok r
    → LoopDone used ms remap done r
unfolding remap_loop
remap_loop_lem [] used remap done {r} h = ([], ground (arith, append-nil done), ground arith, tt)
remap_loop_lem (m ∷ ms) used remap done {r} h = elim (Result-cases (assign used m.host)) [
  | inl (a, e) ↦ loop_step used m ms remap done a r (assign-Assigned used m.host e) (
      remap_loop_lem ms (a ∷ used) (note_remap m.host a remap) (done ++ record m { host = a } ∷ [])
        (rw e at h))
  | inr (e, q) ↦ absurd (let x : err e ≡ ok r = rw q at h in cc)
]
