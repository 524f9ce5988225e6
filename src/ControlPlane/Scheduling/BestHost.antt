-- ===== src/ControlPlane/Scheduling/BestHost.antt =====
-- The host that is selected for a lab may take it, and none that may stands before it.
use docker_interface.Prelude.{
  String, ◌≡◌, ◌⊎◌, ◌↔◌, refl, sym, ap, inl, inr, Bool, true, false, List, [], ◌∷◌, Option, none,
  some, get_or, str_eq, arith, Bool-cases, Elem, sort_by, sort_by-Elem, sort_by-least,
  sort_by-empty, List-cases,
}
use docker_interface.Prelude.Int.{ℤ, pos, ltb_ℤ, ◌+ℤ◌, eqb_ℤ_iff}
use docker_interface.Py.Float.{Float, IsOrdered}
use docker_interface.Py.Result.{ok, err, bind-eq-ok}
use docker_interface.ControlPlane.Rows.{Host, HostStatus, online}
use docker_interface.ControlPlane.Session.{HttpError, Session}
use docker_interface.ControlPlane.Capacity.{is_host_unbounded, host_cpu, host_memory, or_zero}
use docker_interface.ControlPlane.Scheduling.{
  is_online, has_text, SchedulingMethod, first_fit, least_allocated, host_load_score, key_below,
  Candidate, host_before, chosen, hosts_by_id, host_candidate, host_candidates, may_host,
  select_target_host_for_lab, refusal,
}
use docker_interface.ControlPlane.Scheduling.Order.{chosen-ok, host_before-IsOrder}

module _ (fl : Float) (cpu : Option fl.F) (memory : Option ℤ) (s : Session) where
  -- The host is online, has a path for its key, and has room for the request beside its labs; a host that
  -- declares no resources has always room.
  pub record MayHost (host : Host) : Type 0 where
    pub host_online : host.status ≡ online
    pub its_key :
        (path : String) × (host.api_key_secret_path ≡ some path) × (str_eq path "" ≡ false)
    pub room :
        ((host.cpu_total ≡ pos 0) × (host.memory_total_mb ≡ pos 0))
        ⊎ ((fl.lt
                (fl.of_int host.cpu_total)
                (fl.add (host_cpu fl host.id s) (get_or cpu (fl.of_int (pos 0))))
              ≡ false)
            × (ltb_ℤ host.memory_total_mb (host_memory host.id s +ℤ get_or memory (pos 0)) ≡ false))

  abbrev May : Host → Type 0
  May host = may_host fl cpu memory host s ≡ true

  online_iff : (status : HostStatus) → is_online status ≡ true ↔ (status ≡ online)
  online_iff online = (λ h. refl, λ h. refl)
  online_iff HostStatus.offline = (λ h. cc, λ h. ap is_online h)
  online_iff HostStatus.draining = (λ h. cc, λ h. ap is_online h)

  text_iff :
      (o : Option String)
      → has_text o ≡ true ↔ ((path : String) × (o ≡ some path) × (str_eq path "" ≡ false))
  text_iff none = (λ h. cc, λ h. let (path, e, _) = h in cc)
  text_iff (some path) = (
    λ h. (path, refl, ground arith),
    λ h. let (other, e, k) = h in let same : path ≡ other = cc in rw same (rw k refl),
  )

  unbounded_iff :
      (host : Host)
      → is_host_unbounded host ≡ true ↔ ((host.cpu_total ≡ pos 0) × (host.memory_total_mb ≡ pos 0))
  unfolding is_host_unbounded
  unbounded_iff host = (
    λ h.
        let a = eqb_ℤ_iff host.cpu_total (pos 0) in
        let b = eqb_ℤ_iff host.memory_total_mb (pos 0) in (a.0 (ground arith), b.0 (ground arith)),
    λ h. rw (h.0, h.1) refl,
  )

  or_zero-get_or : (o : Option ℤ) → or_zero o ≡ get_or o (pos 0)
  or_zero-get_or none = refl
  or_zero-get_or (some n) = refl

  -- The code's test is the condition.
  MayHost-iff : (host : Host) → May host ↔ MayHost host
  MayHost-iff host = (
    λ h. record {
      host_online = (online_iff host.status).0 (ground arith);
      its_key = (text_iff host.api_key_secret_path).0 (ground arith);
      room = elim (Bool-cases (is_host_unbounded host)) [
        | inl e ↦ inl ((unbounded_iff host).0 e)
        | inr e ↦ inr (ground arith, rw (sym (or_zero-get_or memory)) (ground arith))
      ];
    },
    λ h.
        let up = (online_iff host.status).1 h.host_online in
        let key = (text_iff host.api_key_secret_path).1 h.its_key in
        elim h.room [
          | inl none_declared ↦ let e = (unbounded_iff host).1 none_declared in rw (up, key, e) refl
          | inr (c, m) ↦
              let m' : ltb_ℤ host.memory_total_mb (host_memory host.id s +ℤ or_zero memory)
                  ≡ false =
                rw (or_zero-get_or memory) m in
              elim (Bool-cases (is_host_unbounded host)) [
                | inl e ↦ rw (up, key, e) refl
                | inr e ↦ rw (up, key, e, c, m') refl
              ]
        ],
  )

  -- Every candidate is a host that may take the lab, and every such host is a candidate.
  host_candidates_sound :
      (hosts : List Host) (c : Candidate fl Host)
      → Elem c (host_candidates fl cpu memory hosts s)
      → (host : Host) × Elem host hosts × May host × (c ≡ host_candidate fl cpu memory host s)
  host_candidates_sound [] c m = absurd m
  host_candidates_sound (host ∷ hosts) c m = elim (Bool-cases (may_host fl cpu memory host s)) [
    | inl may ↦
        let m' : Elem c
            (host_candidate fl cpu memory host s ∷ host_candidates fl cpu memory hosts s) =
          rw may at m in
        elim m' [
          | inl same ↦ (host, inl refl, may, same)
          | inr below ↦
              let (host', of_hosts, may', same) = host_candidates_sound hosts c below in
              (host', inr of_hosts, may', same)
        ]
    | inr not_here ↦
        let (host', of_hosts, may', same) = host_candidates_sound hosts c (rw not_here at m) in
        (host', inr of_hosts, may', same)
  ]

  host_candidates_complete :
      (hosts : List Host) (host : Host)
      → Elem host hosts
      → May host
      → Elem (host_candidate fl cpu memory host s) (host_candidates fl cpu memory hosts s)
  host_candidates_complete [] host m may = m
  host_candidates_complete (h ∷ hosts) host m may = elim m [
    | inl same ↦ let may' : May h = rw same at may in rw (same, may') (inl refl)
    | inr below ↦
        let ih = host_candidates_complete hosts host below may in
        elim (Bool-cases (may_host fl cpu memory h s)) [
          | inl here ↦ rw here (inr ih)
          | inr not_here ↦ rw not_here ih
        ]
  ]

  abbrev by_id : Host → Host → Bool
  by_id a b = ltb_ℤ a.id b.id

  abbrev sorted_hosts : SchedulingMethod → List (Candidate fl Host)
  sorted_hosts m = sort_by (host_before fl m) (host_candidates fl cpu memory (hosts_by_id s) s)

  abbrev pub score : Host → fl.F
  score host = host_load_score fl host (host_cpu fl host.id s) (host_memory host.id s)

  -- First fit goes by the id alone, least allocated by the load score and then by the id.
  abbrev pub NotBetter : SchedulingMethod → Host → Host → Type 0
  NotBetter first_fit other host = ltb_ℤ other.id host.id ≡ false
  NotBetter least_allocated other host =
      (fl.eq (score other) (score host) ≡ false → fl.lt (score other) (score host) ≡ false)
      × (fl.eq (score other) (score host) ≡ true → ltb_ℤ other.id host.id ≡ false)

  not_below :
      (a b : fl.F × ℤ)
      → key_below fl a b ≡ false
      → (fl.eq a.0 b.0 ≡ false → fl.lt a.0 b.0 ≡ false)
        × (fl.eq a.0 b.0 ≡ true → ltb_ℤ a.1 b.1 ≡ false)
  not_below a b h = ((λ k. rw k at h), λ k. rw k at h)

  not_before :
      (m : SchedulingMethod) (other host : Host)
      → host_before fl m
          (host_candidate fl cpu memory other s)
          (host_candidate fl cpu memory host s)
        ≡ false
      → NotBetter m other host
  not_before first_fit other host h = h
  not_before least_allocated other host h =
      not_below (score other, other.id) (score host, host.id) h

  -- When floats are ordered as all but NaN are: a host that was selected is online, has a key and
  -- room for the request, and no such host has a smaller id (first fit) or a smaller load score, or the same and a
  -- smaller id (least allocated). The selection fails only where there is no such host, with a 409.
  pub select_target_host_for_lab-least :
      IsOrdered fl
      → (m : SchedulingMethod)
      → ((host : Host)
          → select_target_host_for_lab fl cpu memory m s ≡ ok host
          → Elem host s.hosts
            × MayHost host
            × ((other : Host) → Elem other s.hosts → MayHost other → NotBetter m other host))
        × ((e : HttpError)
            → select_target_host_for_lab fl cpu memory m s ≡ err e
            → ((host : Host) → Elem host s.hosts → MayHost host → ⊥) × (e.status_code ≡ 409))
  unfolding select_target_host_for_lab
  select_target_host_for_lab-least order m = (
    λ host h.
        let (c, h1, h2) = bind-eq-ok (chosen _ (sorted_hosts m)) _ h in
        let (rest, sorted) = chosen-ok _ (sorted_hosts m) h1 in
        let candidates = host_candidates fl cpu memory (hosts_by_id s) s in
        let (found, least) =
          sort_by-least (host_before fl m) (host_before-IsOrder fl order m) candidates sorted in
        let (host', of_hosts, may, same) = host_candidates_sound (hosts_by_id s) c found in
        let here : host' ≡ host = cc in
        let e : c ≡ host_candidate fl cpu memory host s = rw here at same in
        (
          (sort_by-Elem by_id host s.hosts).0 (rw here at of_hosts),
          (MayHost-iff host).0 (rw here at may),
          λ other m' may'. not_before m other host (
              rw e at (
                least _ (
                  host_candidates_complete (hosts_by_id s) other
                    ((sort_by-Elem by_id other s.hosts).1 m') ((MayHost-iff other).1 may')))),
        ),
    λ e h. elim (List-cases (sorted_hosts m)) [
      | inl sorted ↦
          let empty =
            sort_by-empty (host_before fl m) (host_candidates fl cpu memory (hosts_by_id s) s)
              sorted in
          (
            λ host m' may. absurd (
                rw empty at (
                  host_candidates_complete (hosts_by_id s) host
                    ((sort_by-Elem by_id host s.hosts).1 m') ((MayHost-iff host).1 may))),
            let raised : err (refusal 409 _) ≡ err e = rw sorted at h in cc,
          )
      | inr (c, rest, sorted) ↦ absurd (let x : ok c.target ≡ err e = rw sorted at h in cc)
    ],
  )
