-- ===== src/ControlPlane/Scheduling/Order.antt =====
-- The orders of the candidates, and what `enforce_resource_capacity` raises.
use docker_interface.Prelude.{
  String, ◌≡◌, refl, inl, inr, Bool, true, false, List, [], ◌∷◌, arith, Bool-cases, IsOrder,
}
use docker_interface.Prelude.Int.{ℤ, ltb_ℤ}
use docker_interface.Py.Float.{Float, IsOrdered}
use docker_interface.Py.Result.{Result, ok, err, ◌>>◌, raise_if}
use docker_interface.ControlPlane.Rows.{Host, Lab}
use docker_interface.ControlPlane.Session.{HttpError, Session}
use docker_interface.ControlPlane.Capacity.{
  is_host_unbounded, Requested, check_capacity, enforce_resource_capacity, lab_cpu_conflict,
  lab_memory_conflict, host_cpu_conflict, host_memory_conflict,
}
use docker_interface.ControlPlane.Scheduling.{
  SchedulingMethod, first_fit, least_allocated, key_below, lab_before, host_before, lab_key,
  host_key, chosen,
}

pub id_order : {A : Type 0} (id : A → ℤ) → IsOrder (λ a b. ltb_ℤ (id a) (id b))
id_order id = record { asym = λ x y h. ground arith; negatively = λ x y z h k. ground arith }

pub chosen-ok :
    {A : Type 0} (detail : String) (cs : List A) {c : A}
    → chosen detail cs ≡ ok c
    → (rest : List A) × (cs ≡ c ∷ rest)
chosen-ok detail [] h = cc
chosen-ok detail (x ∷ cs) {c} h = (cs, let e : x ≡ c = cc in rw e)

module _ (fl : Float) (order : IsOrdered fl) where
  key_below-asym : (a b : fl.F × ℤ) → key_below fl a b ≡ true → key_below fl b a ≡ false
  key_below-asym a b h =
      let p = order.asym a.0 b.0 in
      let q = order.equal a.0 b.0 in let r = order.equal b.0 a.0 in ground (arith, p, q, r)

  key_below-negatively :
      (a b c : fl.F × ℤ)
      → key_below fl a b ≡ false
      → key_below fl b c ≡ false
      → key_below fl a c ≡ false
  key_below-negatively a b c h k =
      let ab = order.equal a.0 b.0 in
      let bc = order.equal b.0 c.0 in
      let ac = order.equal a.0 c.0 in
      let abc = order.negatively a.0 b.0 c.0 in
      let cba = order.negatively c.0 b.0 a.0 in
      let cab = order.negatively c.0 a.0 b.0 in
      let bca = order.negatively b.0 c.0 a.0 in ground (arith, ab, bc, ac, abc, cba, cab, bca)

  key_order : {A : Type 0} (key : A → fl.F × ℤ) → IsOrder (λ a b. key_below fl (key a) (key b))
  key_order key = record {
    asym = λ x y h. key_below-asym (key x) (key y) h;
    negatively = λ x y z h k. key_below-negatively (key x) (key y) (key z) h k;
  }

  pub lab_before-IsOrder : (m : SchedulingMethod) → IsOrder (lab_before fl m)
  lab_before-IsOrder first_fit = id_order (λ c. c.target.id)
  lab_before-IsOrder least_allocated = key_order (lab_key fl)

  pub host_before-IsOrder : (m : SchedulingMethod) → IsOrder (host_before fl m)
  host_before-IsOrder first_fit = id_order (λ c. c.target.id)
  host_before-IsOrder least_allocated = key_order (host_key fl)

-- Whatever `enforce_resource_capacity` raises is a 409.
pub record Refused {A : Type 0} (r : Result HttpError A) : Type 0 where
  pub refused : (e : HttpError) → r ≡ err e → e.status_code ≡ 409

raise_if-Refused : (b : Bool) (e : HttpError) → e.status_code ≡ 409 → Refused (raise_if b e)
raise_if-Refused b e h = record { refused = λ e' q. ground arith }

guard-Refused :
    {A : Type 0} (b : Bool) (e : HttpError) (m : Result HttpError A)
    → e.status_code ≡ 409
    → Refused m
    → Refused (raise_if b e >> m)
guard-Refused true e m h k = record { refused = λ e' q. ground arith }
guard-Refused false e m h k = k

module _ (fl : Float) (lab : Lab) (host : Host) (r : Requested fl.F) (s : Session) where
  lab_cpu_status : (used : fl.F) → (lab_cpu_conflict fl lab r used).status_code ≡ 409
  unfolding lab_cpu_conflict
  lab_cpu_status used = refl

  lab_memory_status : (used : ℤ) → (lab_memory_conflict fl lab r used).status_code ≡ 409
  unfolding lab_memory_conflict
  lab_memory_status used = refl

  host_cpu_status : (used : fl.F) → (host_cpu_conflict fl host r used).status_code ≡ 409
  unfolding host_cpu_conflict
  host_cpu_status used = refl

  host_memory_status : (used : ℤ) → (host_memory_conflict fl host r used).status_code ≡ 409
  unfolding host_memory_conflict
  host_memory_status used = refl

  check_capacity-Refused : Refused (check_capacity fl lab host r s)
  unfolding check_capacity
  check_capacity-Refused = guard-Refused _ _ _ (lab_cpu_status _) (
      guard-Refused _ _ _ (lab_memory_status _)
        (guard-Refused _ _ _ (host_cpu_status _) (raise_if-Refused _ _ (host_memory_status _))))

  pub enforce-Refused : Refused (enforce_resource_capacity fl lab host r s)
  unfolding enforce_resource_capacity
  enforce-Refused = elim (Bool-cases (is_host_unbounded host)) [
    | inl e ↦ rw e (record { refused = λ x h. cc })
    | inr e ↦ rw e check_capacity-Refused
  ]
