-- ===== src/LabHost/ComposePorts/Fresh.antt =====
-- The ports that a compose file gets are free and pairwise distinct.
use docker_interface.Prelude.{String, ◌≡◌, refl, sym, ap, List, [], ◌∷◌, Option, none, some, arith}
use docker_interface.Prelude.Int.{ℤ}
use docker_interface.Py.Dict.{Dict, int_eq, string_eq, insert}
use docker_interface.Py.Value.{
  Value, Fields, items, fields, of_fields, list, dict, null, bool, int, float, str, get,
}
use docker_interface.Py.Result.{ok, bind-eq-ok}
use docker_interface.LabHost.Errors.{Try}
use docker_interface.LabHost.Ports.{DockerContainer, PortSet, used_host_ports, assign, note_remap}
use docker_interface.LabHost.Ports.Remap.{Assigned, assign-Assigned}
use docker_interface.LabHost.ComposePorts.{
  Ports, desired_port, set_port, patch_entry, patch_ports, with_ports, patch_service_ports,
  patch_service, patch_services, patch_payload, remap_compose_ports_in_payload,
}

-- The entries with a port get an assigned one, which counts as used for the entries behind; the others
-- stay. The last argument is the set of used ports in the end.
abbrev pub Rewritten : PortSet → List (Option ℤ) → List Value → List Value → PortSet → Type 0
Rewritten used [] [] [] end = end ≡ used
Rewritten used (none ∷ ds) (v ∷ vs) (w ∷ ws) end = (w ≡ v) × Rewritten used ds vs ws end
Rewritten used (some d ∷ ds) (v ∷ vs) (w ∷ ws) end =
    (a : ℤ) × Assigned used d a × (w ≡ set_port v a) × Rewritten (a ∷ used) ds vs ws end
Rewritten used _ _ _ end = ⊥

abbrev pub desired_ports : List Value → List (Option ℤ)
desired_ports [] = []
desired_ports (v ∷ vs) = desired_port v ∷ desired_ports vs

entry_lem :
    (d : Option ℤ) (v : Value) (st : Ports) (ds : List (Option ℤ)) (vs ws : List Value)
    (end : PortSet) {r : Value × Ports}
    → patch_entry d v st ≡ ok r
    → Rewritten r.1.used ds vs ws end
    → Rewritten st.used (d ∷ ds) (v ∷ vs) (r.0 ∷ ws) end
unfolding patch_entry
entry_lem none v st ds vs ws end {r} h k =
    let e : (v, st) ≡ r = ground arith in
    let u : r.1.used ≡ st.used = ap (λ q. q.1.used) (sym e) in (ap (λ q. q.0) (sym e), rw u at k)
entry_lem (some d) v st ds vs ws end {r} h k =
    let (a, ea, h1) = bind-eq-ok (assign st.used d) _ h in
    let e : (set_port v a, record { used = a ∷ st.used; remap = note_remap d a st.remap }) ≡ r =
      ground arith in
    let u : r.1.used ≡ a ∷ st.used = ap (λ q. q.1.used) (sym e) in
    (a, assign-Assigned st.used d ea, ap (λ q. q.0) (sym e), rw u at k)

-- In the ports of a service, every entry without a host port stays as it is, and every other entry gets
-- a port that is neither in use nor assigned before: the one that it asks for if that is free, and else
-- a greater one in 1..65535. All of them count as used for the services behind.
pub patch_ports-Rewritten :
    (vs : List Value) (st : Ports) (ws : List Value) (st' : Ports)
    → patch_ports vs st ≡ ok (ws, st')
    → Rewritten st.used (desired_ports vs) vs ws st'.used
unfolding patch_ports
patch_ports-Rewritten [] st ws st' h =
    let e : ◌≡◌ {A = List Value × Ports} ([], st) (ws, st') = ground arith in
    let n : ws ≡ [] = ap (λ q. q.0) (sym e) in rw n (ap (λ q. q.1.used) (sym e))
patch_ports-Rewritten (v ∷ vs) st ws st' h =
    let (x, ex, h1) = bind-eq-ok (patch_entry (desired_port v) v st) _ h in
    let (y, ey, h2) = bind-eq-ok (patch_ports vs x.1) _ h1 in
    let e : ◌≡◌ {A = List Value × Ports} (x.0 ∷ y.0, y.1) (ws, st') = ground arith in
    let n : ws ≡ x.0 ∷ y.0 = ap (λ q. q.0) (sym e) in
    let ih = patch_ports-Rewritten vs x.1 y.0 y.1 ey in
    let u : y.1.used ≡ st'.used = ap (λ q. q.1.used) e in
    rw n (entry_lem (desired_port v) v st (desired_ports vs) vs y.0 st'.used ex (rw u at ih))

abbrev pub PortsRewritten : PortSet → Dict String Value → Value → Value → PortSet → Type 0
PortsRewritten used service (list vs) w end =
    (ports : List Value) × (w ≡ with_ports service ports)
    × Rewritten used (desired_ports (items vs)) (items vs) ports end
PortsRewritten used service _ w end = (w ≡ dict (of_fields service)) × (end ≡ used)

-- A service whose ports are a list gets them rewritten; anything else stays as it is.
abbrev pub ServiceRewritten : PortSet → Value → Value → PortSet → Type 0
ServiceRewritten used (dict fs) w end =
    PortsRewritten used (fields fs) (get "ports" (fields fs)) w end
ServiceRewritten used v w end = (w ≡ v) × (end ≡ used)

-- The names and their order stay, and the used ports are passed on.
abbrev pub ServicesRewritten : PortSet → Dict String Value → Dict String Value → PortSet → Type 0
ServicesRewritten used [] [] end = end ≡ used
ServicesRewritten used ((n, v) ∷ vs) ((m, w) ∷ ws) end =
    (middle : PortSet) × (m ≡ n)
    × ServiceRewritten used v w middle
    × ServicesRewritten middle vs ws end
ServicesRewritten used _ _ end = ⊥

same_lem :
    (v : Value) (st : Ports) {r : Value × Ports}
    → ◌≡◌ {A = Try (Value × Ports)} (ok (v, st)) (ok r)
    → (r.0 ≡ v) × (r.1.used ≡ st.used)
same_lem v st {r} h =
    let e : ◌≡◌ {A = Value × Ports} (v, st) r = ground arith in
    (ap (λ q. q.0) (sym e), ap (λ q. q.1.used) (sym e))

service_ports_lem :
    (service : Dict String Value) (ports : Value) (st : Ports) {r : Value × Ports}
    → patch_service_ports service ports st ≡ ok r
    → PortsRewritten st.used service ports r.0 r.1.used
unfolding patch_service_ports
service_ports_lem service (list vs) st {r} h =
    let (x, ex, h1) = bind-eq-ok (patch_ports (items vs) st) _ h in
    let e : ◌≡◌ {A = Value × Ports} (with_ports service x.0, x.1) r = ground arith in
    (
      x.0,
      ap (λ q. q.0) (sym e),
      rw (sym (ap (λ q. q.1.used) e)) (patch_ports-Rewritten (items vs) st x.0 x.1 ex),
    )
service_ports_lem service null st h = same_lem (dict (of_fields service)) st h
service_ports_lem service (bool b) st h = same_lem (dict (of_fields service)) st h
service_ports_lem service (int n) st h = same_lem (dict (of_fields service)) st h
service_ports_lem service (float n) st h = same_lem (dict (of_fields service)) st h
service_ports_lem service (str t) st h = same_lem (dict (of_fields service)) st h
service_ports_lem service (dict fs) st h = same_lem (dict (of_fields service)) st h

service_lem :
    (v : Value) (st : Ports) {r : Value × Ports}
    → patch_service v st ≡ ok r
    → ServiceRewritten st.used v r.0 r.1.used
unfolding patch_service
service_lem (dict fs) st h = service_ports_lem (fields fs) (get "ports" (fields fs)) st h
service_lem null st h = same_lem null st h
service_lem (bool b) st h = same_lem (bool b) st h
service_lem (int n) st h = same_lem (int n) st h
service_lem (float n) st h = same_lem (float n) st h
service_lem (str t) st h = same_lem (str t) st h
service_lem (list vs) st h = same_lem (list vs) st h

services_lem :
    (vs : Dict String Value) (st : Ports) {r : Dict String Value × Ports}
    → patch_services vs st ≡ ok r
    → ServicesRewritten st.used vs r.0 r.1.used
unfolding patch_services
services_lem [] st {r} h =
    let e : ◌≡◌ {A = Dict String Value × Ports} ([], st) r = ground arith in rw (sym e) refl
services_lem ((n, v) ∷ vs) st {r} h =
    let (x, ex, h1) = bind-eq-ok (patch_service v st) _ h in
    let (y, ey, h2) = bind-eq-ok (patch_services vs x.1) _ h1 in
    let e : ◌≡◌ {A = Dict String Value × Ports} ((n, x.0) ∷ y.0, y.1) r = ground arith in
    rw (sym e) (x.1.used, refl, service_lem v st ex, services_lem vs x.1 ey)

-- If the remapping of a compose file with services succeeds, the file differs in its services alone, and
-- in them only in the lists of ports: there every entry without a host port stays as it is, and every other
-- entry gets a port that no container publishes and no entry before it has, in this service or an earlier
-- one: the port that it asks for if that is free, and else a greater one in 1..65535.
pub remap_compose_ports_in_payload-ServicesRewritten :
    (containers : List DockerContainer) (payload : Dict String Value) (fs : Fields)
    {remap : Dict ℤ ℤ} {out : Dict String Value}
    → get "services" payload ≡ dict fs
    → remap_compose_ports_in_payload containers payload ≡ ok (remap, out)
    → (services : Dict String Value) × (end : PortSet) × (out
        ≡ insert "services" (dict (of_fields services)) payload)
      × ServicesRewritten (used_host_ports containers) (fields fs) services end
unfolding remap_compose_ports_in_payload patch_payload
remap_compose_ports_in_payload-ServicesRewritten containers payload fs {remap} {out} is_dict h =
    let h0 : patch_payload containers payload (dict fs) ≡ ok (remap, out) = rw is_dict at h in
    let (x, ex, h1) =
      bind-eq-ok
        (patch_services (fields fs) (record { used = used_host_ports containers; remap = [] })) _
        h0 in
    let e : ◌≡◌ {A = Dict ℤ ℤ × Dict String Value}
        (x.1.remap, insert "services" (dict (of_fields x.0)) payload) (remap, out) =
      ground arith in
    (x.0, x.1.used, ap (λ q. q.1) (sym e), services_lem (fields fs) _ ex)
