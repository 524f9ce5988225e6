-- ===== src/LabHost/Ports/Raises.antt =====
-- What the remapping of requested ports raises.
use docker_interface.Prelude.{
  ◌≡◌, sym, ◌∙◌, List, [], ◌∷◌, Option, none, some, Bool-cases, inl, inr,
}
use docker_interface.Prelude.Int.{ℤ, pos}
use docker_interface.Py.Dict.{Dict, int_eq, elem}
use docker_interface.Py.Result.{ok, err, Result-cases}
use docker_interface.LabHost.Errors.{Error}
use docker_interface.LabHost.Ports.{
  DockerContainer, PortSet, PortMapping, used_host_ports, next_available_host_port, assign,
  note_remap, remap_loop, remap_requested_ports_if_needed, no_port_available,
}
use docker_interface.LabHost.Ports.Next.{Outcome, next_available-first_free}

-- Where no port is free, `ValueError` is raised, and nothing else.
assign-raises :
    (used : PortSet) (desired : ℤ) {e : Error} → assign used desired ≡ err e → e ≡ no_port_available
unfolding assign
assign-raises used desired {e} h =
    let o = next_available-first_free desired used in
    elim (Bool-cases (elem desired used)) [
      | inr free ↦ absurd (let x : ok desired ≡ err e = rw free at h in cc)
      | inl busy ↦ elim (Result-cases (next_available_host_port desired used)) [
        | inl (p, q) ↦ absurd (let x : ok (pos p) ≡ err e = rw (busy, q) at h in cc)
        | inr (e', q) ↦
            let same : err e' ≡ err e = rw (busy, q) at h in
            let o' : Outcome desired used (err e') = rw q at o in
            let x : e' ≡ e = cc in sym x ∙ o'.0
      ]
    ]

remap_loop-raises :
    (ms : List PortMapping) (used : PortSet) (remap : Dict ℤ ℤ) (done : List PortMapping)
    {e : Error}
    → remap_loop ms used remap done ≡ err e
    → e ≡ no_port_available
unfolding remap_loop
remap_loop-raises [] used remap done h = cc
remap_loop-raises (m ∷ ms) used remap done {e} h = elim (Result-cases (assign used m.host)) [
  | inl (a, q) ↦ remap_loop-raises ms (a ∷ used) (note_remap m.host a remap) _ (rw q at h)
  | inr (e', q) ↦
      let same : err e' ≡ err e = rw q at h in
      let x : e' ≡ e = cc in sym x ∙ assign-raises used m.host q
]

pub remap-raises :
    (containers : List DockerContainer) (ports : Option (List PortMapping)) {e : Error}
    → remap_requested_ports_if_needed containers ports ≡ err e
    → e ≡ no_port_available
unfolding remap_requested_ports_if_needed
remap-raises containers none h = cc
remap-raises containers (some []) h = cc
remap-raises containers (some (m ∷ ms)) {e} h =
    elim (Result-cases (remap_loop (m ∷ ms) (used_host_ports containers) [] [])) [
      | inl (r, q) ↦ absurd (let x : ok (some r.0, r.1) ≡ err e = rw q at h in cc)
      | inr (e', q) ↦
          let same : err e' ≡ err e = rw q at h in
          let x : e' ≡ e = cc in sym x ∙ remap_loop-raises (m ∷ ms) _ [] [] q
    ]
