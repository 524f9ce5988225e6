-- ===== src/LabHost/Ports/Remap/Fresh.antt =====
-- What `_remap_requested_ports_if_needed` promises its callers.
use docker_interface.Prelude.{
  ◌≡◌, inl, inr, refl, sym, ap, Bool, true, false, List, [], ◌∷◌, ◌++◌, map, arith, All, Option,
  some, Bool-cases,
}
use mathlib.Core.List.{append_assoc, append-nil}
use docker_interface.Prelude.Int.{ℤ, eqb_ℤ, eqb_ℤ_iff, ◌≤ℤ◌}
use docker_interface.Py.Dict.{Dict, int_eq, string_eq, elem, insert}
use docker_interface.Py.Result.{ok, err, Result-cases}
use docker_interface.LabHost.Errors.{Try}
use docker_interface.LabHost.Ports.{
  DockerContainer, PortSet, PortMapping, used_host_ports, assign, note_remap, remap_loop,
  remap_requested_ports_if_needed,
}
use docker_interface.LabHost.Ports.Remap.{
  InRange, Assigned, Remapped, note_all, LoopDone, remap_loop_lem,
}

abbrev pub hosts : List PortMapping → List ℤ
hosts ms = map (λ m. m.host) ms

-- The ports are in no list entry before them and not in use: they are free, and no two are the same.
abbrev pub Fresh : PortSet → List ℤ → Type 0
Fresh used [] = Unit
Fresh used (p ∷ ps) = (elem p used ≡ false) × Fresh (p ∷ used) ps

-- Only the host ports differ.
abbrev pub SameTargets : List PortMapping → List PortMapping → Type 0
SameTargets [] [] = Unit
SameTargets (m ∷ ms) (n ∷ ns) =
    (n.container ≡ m.container) × (n.protocol ≡ m.protocol) × (m.host ≤ℤ n.host) × SameTargets ms ns
SameTargets _ _ = ⊥

Remapped-Fresh :
    (used : PortSet) (ms ns : List PortMapping) → Remapped used ms ns → Fresh used (hosts ns)
Remapped-Fresh used [] [] h = tt
Remapped-Fresh used [] (n ∷ ns) h = absurd h
Remapped-Fresh used (m ∷ ms) [] h = absurd h
Remapped-Fresh used (m ∷ ms) (n ∷ ns) h = (h.0.0.0, Remapped-Fresh (n.host ∷ used) ms ns h.1)

Assigned-le : (used : PortSet) (d a : ℤ) → Assigned used d a → d ≤ℤ a
Assigned-le used d a h = ground arith

Remapped-SameTargets :
    (used : PortSet) (ms ns : List PortMapping) → Remapped used ms ns → SameTargets ms ns
Remapped-SameTargets used [] [] h = tt
Remapped-SameTargets used [] (n ∷ ns) h = absurd h
Remapped-SameTargets used (m ∷ ms) [] h = absurd h
Remapped-SameTargets used (m ∷ ms) (n ∷ ns) h = (
  h.0.1,
  h.0.2,
  Assigned-le used m.host n.host h.0.0,
  Remapped-SameTargets (n.host ∷ used) ms ns h.1,
)

Assigned-InRange : (used : PortSet) (d a : ℤ) → Assigned used d a → InRange d → InRange a
Assigned-InRange used d a h r = ground arith

Remapped-InRange :
    (used : PortSet) (ms ns : List PortMapping)
    → Remapped used ms ns
    → All InRange (hosts ms)
    → All InRange (hosts ns)
Remapped-InRange used [] [] h r = tt
Remapped-InRange used [] (n ∷ ns) h r = absurd h
Remapped-InRange used (m ∷ ms) [] h r = absurd h
Remapped-InRange used (m ∷ ms) (n ∷ ns) h r =
    (Assigned-InRange used m.host n.host h.0.0 r.0, Remapped-InRange (n.host ∷ used) ms ns h.1 r.1)

finish :
    (used : PortSet) (ms ns : List PortMapping) (noted : Dict ℤ ℤ) (r : List PortMapping × Dict ℤ ℤ)
    → LoopDone used ms [] [] r
    → (r' : Try (Option (List PortMapping) × Dict ℤ ℤ)) → r' ≡ ok (some r.0, r.1)
    → r' ≡ ok (some ns, noted)
    → Remapped used ms ns × (noted ≡ note_all ms ns [])
finish used ms ns noted (out, r) (tail, e, q, h) r' p p' =
    let same : ns ≡ tail = ground arith in rw same (h, ground arith)

loop_inverts :
    (containers : List DockerContainer) (ms ns : List PortMapping) {noted : Dict ℤ ℤ}
    → remap_requested_ports_if_needed containers (some ms) ≡ ok (some ns, noted)
    → Remapped (used_host_ports containers) ms ns × (noted ≡ note_all ms ns [])
unfolding remap_requested_ports_if_needed
loop_inverts containers [] [] h = (tt, ground arith)
loop_inverts containers [] (n ∷ ns) h = cc
loop_inverts containers (m ∷ ms) ns {noted} h =
    let used = used_host_ports containers in
    elim (Result-cases (remap_loop (m ∷ ms) used [] [])) [
      | inl (r, e) ↦
          finish used (m ∷ ms) ns noted r (remap_loop_lem (m ∷ ms) used [] [] e) _ (rw e) h
      | inr (e, q) ↦ absurd (let x : err e ≡ ok (some ns, noted) = rw q at h in cc)
    ]

-- After a remapping that succeeds the host ports are pairwise distinct and none of them is published
-- by a container; each mapping keeps its container port and protocol, no host port gets smaller, and
-- ports that were in 1..65535 still are.
pub remap-Fresh :
    (containers : List DockerContainer) (ms ns : List PortMapping) {noted : Dict ℤ ℤ}
    → remap_requested_ports_if_needed containers (some ms) ≡ ok (some ns, noted)
    → Fresh (used_host_ports containers) (hosts ns)
      × SameTargets ms ns
      × (All InRange (hosts ms) → All InRange (hosts ns))
remap-Fresh containers ms ns h =
    let used = used_host_ports containers in
    let r = (loop_inverts containers ms ns h).0 in
    (Remapped-Fresh used ms ns r, Remapped-SameTargets used ms ns r, Remapped-InRange used ms ns r)

-- What a free and distinct request becomes.
loop_unchanged :
    (ms : List PortMapping) (used : PortSet) (remap : Dict ℤ ℤ) (done : List PortMapping)
    → Fresh used (hosts ms)
    → remap_loop ms used remap done ≡ ok (done ++ ms, remap)
unfolding remap_loop assign note_remap
loop_unchanged [] used remap done h = rw append-nil
loop_unchanged (m ∷ ms) used remap done h = ground (
  arith,
  loop_unchanged ms (m.host ∷ used) remap (done ++ m ∷ []) h.1,
  eqb_ℤ_iff m.host m.host,
  append_assoc done (m ∷ []) ms,
)

-- A request for ports that are free and pairwise distinct succeeds, is not changed, and no remap is
-- reported.
pub remap_unchanged :
    (containers : List DockerContainer) (ms : List PortMapping)
    → Fresh (used_host_ports containers) (hosts ms)
    → remap_requested_ports_if_needed containers (some ms) ≡ ok (some ms, [])
unfolding remap_requested_ports_if_needed
remap_unchanged containers [] h = refl
remap_unchanged containers (m ∷ ms) h =
    rw (loop_unchanged (m ∷ ms) (used_host_ports containers) [] [] h)

abbrev is_nil : Dict ℤ ℤ → Bool
is_nil [] = true
is_nil (e ∷ d) = false

insert-ne-nil : (k v : ℤ) (d : Dict ℤ ℤ) → is_nil (insert k v d) ≡ false
unfolding insert
insert-ne-nil k v [] = refl
insert-ne-nil k v (e ∷ d) = ground arith

note_all-ne-nil :
    (ms ns : List PortMapping) (remap : Dict ℤ ℤ)
    → is_nil remap ≡ false
    → is_nil (note_all ms ns remap) ≡ false
unfolding note_remap
note_all-ne-nil [] ns remap h = h
note_all-ne-nil (m ∷ ms) [] remap h = h
note_all-ne-nil (m ∷ ms) (n ∷ ns) remap h =
    note_all-ne-nil ms ns (note_remap m.host n.host remap)
      (ground (arith, insert-ne-nil m.host n.host remap))

silent-same :
    (used : PortSet) (ms ns : List PortMapping)
    → Remapped used ms ns
    → is_nil (note_all ms ns []) ≡ true
    → ns ≡ ms
unfolding note_remap
silent-same used [] [] h e = refl
silent-same used [] (n ∷ ns) h e = absurd h
silent-same used (m ∷ ms) [] h e = absurd h
silent-same used (m ∷ ms) (n ∷ ns) h e = elim (Bool-cases (eqb_ℤ n.host m.host)) [
  | inl same ↦
      ground (arith, silent-same (n.host ∷ used) ms ns h.1 (rw same at e), eqb_ℤ_iff n.host m.host)
  | inr changed ↦ absurd (
      ground
        (arith, note_all-ne-nil ms ns (insert m.host n.host []) (insert-ne-nil m.host n.host [])))
]

-- If no remap is reported then nothing was changed.
pub remap_silent :
    (containers : List DockerContainer) (ms ns : List PortMapping)
    → remap_requested_ports_if_needed containers (some ms) ≡ ok (some ns, [])
    → ns ≡ ms
remap_silent containers ms ns h =
    let (r, e) = loop_inverts containers ms ns h in
    silent-same (used_host_ports containers) ms ns r (ap is_nil (sym e))
