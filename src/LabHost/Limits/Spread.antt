-- ===== src/LabHost/Limits/Spread.antt =====
-- The calls of `container.update` hand out the whole limit.
use docker_interface.Prelude.{
  ℕ, ◌+◌, ◌/◌, ◌<◌, ◌≤◌, String, ◌≡◌, refl, sym, ap, ◌∙◌, true, ◌||◌, List, [], ◌∷◌, map, arith,
  ltb, All, sum, length, Option, none, some, is_some,
}
use docker_interface.Prelude.{drop, get-drop}
use docker_interface.Prelude.Int.{ℤ, pos, negsuc}
use docker_interface.Py.Chars.{Chars}
use docker_interface.Py.Float.{Float}
use docker_interface.Py.Result.{ok, ◌>>=◌, bind-eq-ok, guard-eq-ok}
use docker_interface.LabHost.Limits.{
  int_or_raise, spread, checked_spread, LimitUpdate, at, limit_updates, cpu_quotas, memory_limits,
  limits_for, apply_compose_project_limits, parse_memory_limit_to_bytes,
}
use docker_interface.LabHost.Limits.Shares.{length-spread, sum-spread, spread_bounds}

abbrev pub containers_of : List LimitUpdate → List String
containers_of us = map (λ u. u.container) us

abbrev pub quotas_of : List LimitUpdate → List (Option ℕ)
quotas_of us = map (λ u. u.cpu_quota) us

abbrev pub limits_of : List LimitUpdate → List (Option ℕ)
limits_of us = map (λ u. u.mem_limit) us

-- With a quota for each container, each gets its own.
updates_with_quotas :
    (xs : List ℕ) (limits : Option (List ℕ)) (idx : ℕ) (cs : List String) (ys : List ℕ)
    → drop idx xs ≡ ys
    → length ys ≡ length cs
    → (containers_of (limit_updates (some xs) limits idx cs) ≡ cs)
      × (quotas_of (limit_updates (some xs) limits idx cs) ≡ map some ys)
unfolding limit_updates
updates_with_quotas xs limits idx [] [] d h = (refl, refl)
updates_with_quotas xs limits idx [] (y ∷ ys) d h = absurd (omega arith)
updates_with_quotas xs limits idx (c ∷ cs) [] d h = absurd (omega arith)
updates_with_quotas xs limits idx (c ∷ cs) (y ∷ ys) d h =
    let (here, there) = get-drop idx xs d in
    let (ih1, ih2) = updates_with_quotas xs limits (idx + 1) cs ys there (omega arith) in
    rw here (ap (◌∷◌ c) ih1, ap (◌∷◌ (some y)) ih2)

updates_with_limits :
    (quotas : Option (List ℕ)) (xs : List ℕ) (idx : ℕ) (cs : List String) (ys : List ℕ)
    → drop idx xs ≡ ys
    → length ys ≡ length cs
    → (containers_of (limit_updates quotas (some xs) idx cs) ≡ cs)
      × (limits_of (limit_updates quotas (some xs) idx cs) ≡ map some ys)
unfolding limit_updates
updates_with_limits quotas xs idx [] [] d h = (refl, refl)
updates_with_limits quotas xs idx [] (y ∷ ys) d h = absurd (omega arith)
updates_with_limits quotas xs idx (c ∷ cs) [] d h = absurd (omega arith)
updates_with_limits quotas xs idx (c ∷ cs) (y ∷ ys) d h =
    let (here, there) = get-drop idx xs d in
    let (ih1, ih2) = updates_with_limits quotas xs (idx + 1) cs ys there (omega arith) in
    let both : (is_some (at quotas idx) || true) ≡ true = ground arith in
    rw (here, both) (ap (◌∷◌ c) ih1, ap (◌∷◌ (some y)) ih2)

-- The shares of a total among a number of containers.
pub record IsSpread (total count : ℕ) (shares : List ℕ) : Type 0 where
  pub total_kept : sum shares ≡ total
  pub one_each : length shares ≡ count
  pub even : All (λ s. (1 ≤ s) × (total / count ≤ s) × (s ≤ total / count + 1)) shares

one_le_share : (total count : ℕ) → 0 < count → count ≤ total → 1 ≤ total / count
one_le_share total count h k = grind arith

raise_bound :
    (total count : ℕ) (xs : List ℕ)
    → 1 ≤ total / count
    → All (λ s. (total / count ≤ s) × (s ≤ total / count + 1)) xs
    → All (λ s. (1 ≤ s) × (total / count ≤ s) × (s ≤ total / count + 1)) xs
raise_bound total count [] h a = tt
raise_bound total count (x ∷ xs) h a =
    ((omega arith, a.0.0, a.0.1), raise_bound total count xs h a.1)

spread-IsSpread :
    (total count : ℕ) → 0 < count → count ≤ total → IsSpread total count (spread total count)
spread-IsSpread total count h k = record {
  total_kept = sum-spread total count h;
  one_each = length-spread total count;
  even =
      raise_bound total count (spread total count) (one_le_share total count h k)
        (spread_bounds total count);
}

checked-IsSpread :
    (message : String) (count : ℕ) (t : ℤ) {xs : List ℕ}
    → 0 < count
    → checked_spread message count t ≡ ok xs
    → (total : ℕ) × (t ≡ pos total) × IsSpread total count xs
unfolding checked_spread
checked-IsSpread message count (negsuc n) h e = cc
checked-IsSpread message count (pos total) {xs} h e =
    let (fits, same) = guard-eq-ok (ltb total count) _ _ e in
    let same' : spread total count ≡ xs = ground arith in
    (total, refl, rw same' at (spread-IsSpread total count h (ground arith)))

int_or_raise-eq-ok : (o : Option ℤ) (t : ℤ) → int_or_raise o ≡ ok t → o ≡ some t
int_or_raise-eq-ok none t e = cc
int_or_raise-eq-ok (some n) t e = cc

module _ (fl : Float) where
  open fl use {F}

  memory_limits_lem :
      (count : ℕ) (m : Chars)
      → memory_limits fl count (some m) ≡ (
          parse_memory_limit_to_bytes fl m >>= λ total.
          checked_spread "memory_limit is too low for the number of project containers" count
            (pos total)
          >>= λ limits. ok (some limits))
  unfolding memory_limits
  memory_limits_lem count m = refl

  cpu_quotas_inverts :
      (count : ℕ) (f : F) {r : Option (List ℕ)}
      → 0 < count
      → cpu_quotas fl count (some f) ≡ ok r
      → (total : ℕ) × (quotas : List ℕ) × (r ≡ some quotas)
        × (fl.trunc (fl.times f 100000) ≡ some (pos total))
        × IsSpread total count quotas
  unfolding cpu_quotas
  cpu_quotas_inverts count f h e =
      let (t, et, e1) = bind-eq-ok (int_or_raise (fl.trunc (fl.times f 100000))) _ e in
      let (quotas, eq, e2) = bind-eq-ok (checked_spread _ count t) _ e1 in
      let (total, same, good) = checked-IsSpread _ count t h eq in
      (total, quotas, ground arith, int_or_raise-eq-ok _ t et ∙ ap some same, good)

  memory_limits_inverts :
      (count : ℕ) (m : Chars) {r : Option (List ℕ)}
      → 0 < count
      → memory_limits fl count (some m) ≡ ok r
      → (total : ℕ) × (limits : List ℕ) × (r ≡ some limits)
        × (parse_memory_limit_to_bytes fl m ≡ ok total)
        × IsSpread total count limits
  memory_limits_inverts count m h e =
      let e0 = memory_limits_lem count m in
      let (t, et, e1) = bind-eq-ok (parse_memory_limit_to_bytes fl m) _ (sym e0 ∙ e) in
      let (limits, eq, e2) = bind-eq-ok (checked_spread _ count (pos t)) _ e1 in
      let (total, same, good) = checked-IsSpread _ count (pos t) h eq in
      let same' : t ≡ total = ground arith in (total, limits, ground arith, rw same' at et, good)

  module _ (c : String) (cs : List String) where
    abbrev count : ℕ
    count = length (c ∷ cs)

    Handed : Option F → Option Chars → List LimitUpdate → Type 0
    Handed cpu mem updates =
        (quotas : Option (List ℕ)) × (limits : Option (List ℕ)) × (cpu_quotas fl count cpu
          ≡ ok quotas)
        × (memory_limits fl count mem ≡ ok limits)
        × (limit_updates quotas limits 0 (c ∷ cs) ≡ updates)

    limits_for_lem :
        (cpu : Option F) (mem : Option Chars)
        → limits_for fl (c ∷ cs) cpu mem ≡ (
            cpu_quotas fl count cpu >>= λ quotas.
            memory_limits fl count mem >>= λ limits. ok (limit_updates quotas limits 0 (c ∷ cs)))
    unfolding limits_for
    limits_for_lem cpu mem = refl

    apply_cpu :
        (f : F) (mem : Option Chars)
        → apply_compose_project_limits fl (c ∷ cs) (some f) mem
          ≡ limits_for fl (c ∷ cs) (some f) mem
    unfolding apply_compose_project_limits
    apply_cpu f mem = refl

    apply_memory :
        (cpu : Option F) (mem : Chars)
        → apply_compose_project_limits fl (c ∷ cs) cpu (some mem)
          ≡ limits_for fl (c ∷ cs) cpu (some mem)
    unfolding apply_compose_project_limits
    apply_memory none mem = refl
    apply_memory (some f) mem = refl

    limits_for_inverts :
        (cpu : Option F) (mem : Option Chars) {updates : List LimitUpdate}
        → limits_for fl (c ∷ cs) cpu mem ≡ ok updates
        → Handed cpu mem updates
    unfolding Handed
    limits_for_inverts cpu mem {updates} h =
        let (quotas, e1, h1) =
          bind-eq-ok (cpu_quotas fl count cpu) _ (sym (limits_for_lem cpu mem) ∙ h) in
        let (limits, e2, h2) = bind-eq-ok (memory_limits fl count mem) _ h1 in
        (quotas, limits, e1, e2, ground arith)

    -- A project with a CPU limit: every container gets one update, in order; the quotas are positive, sum
    -- to `int(cpu_limit * 100000)`, and differ by one at most.
    pub cpu_quota-IsSpread :
        (cpu_limit : F) (memory_limit : Option Chars) {updates : List LimitUpdate}
        → apply_compose_project_limits fl (c ∷ cs) (some cpu_limit) memory_limit ≡ ok updates
        → (total : ℕ) × (quotas : List ℕ) × (fl.trunc (fl.times cpu_limit 100000)
            ≡ some (pos total))
          × (containers_of updates ≡ c ∷ cs)
          × (quotas_of updates ≡ map some quotas)
          × IsSpread total count quotas
    unfolding Handed
    cpu_quota-IsSpread cpu_limit memory_limit {updates} h =
        let (q, limits, e1, e2, same) =
          limits_for_inverts (some cpu_limit) memory_limit
            (sym (apply_cpu cpu_limit memory_limit) ∙ h) in
        let (total, quotas, eq, et, good) = cpu_quotas_inverts count cpu_limit (omega arith) e1 in
        let same' : limit_updates (some quotas) limits 0 (c ∷ cs) ≡ updates = rw eq at same in
        let (u1, u2) = updates_with_quotas quotas limits 0 (c ∷ cs) quotas refl good.one_each in
        (total, quotas, et, rw same' at u1, rw same' at u2, good)

    -- A project with a memory limit: every container gets one update, in order; the limits are positive,
    -- sum to the limit in bytes, and differ by one at most.
    pub memory_limit-IsSpread :
        (cpu_limit : Option F) (memory_limit : Chars) {updates : List LimitUpdate}
        → apply_compose_project_limits fl (c ∷ cs) cpu_limit (some memory_limit) ≡ ok updates
        → (total : ℕ) × (limits : List ℕ) × (parse_memory_limit_to_bytes fl memory_limit ≡ ok total)
          × (containers_of updates ≡ c ∷ cs)
          × (limits_of updates ≡ map some limits)
          × IsSpread total count limits
    unfolding Handed
    memory_limit-IsSpread cpu_limit memory_limit {updates} h =
        let (quotas, l, e1, e2, same) =
          limits_for_inverts cpu_limit (some memory_limit)
            (sym (apply_memory cpu_limit memory_limit) ∙ h) in
        let (total, limits, eq, et, good) =
          memory_limits_inverts count memory_limit (omega arith) e2 in
        let same' : limit_updates quotas (some limits) 0 (c ∷ cs) ≡ updates = rw eq at same in
        let (u1, u2) = updates_with_limits quotas limits 0 (c ∷ cs) limits refl good.one_each in
        (total, limits, et, rw same' at u1, rw same' at u2, good)
