-- ===== src/ControlPlane/Reconcile/Removed.antt =====
-- A container that is due is removed, if every request is answered.
use docker_interface.Prelude.{
  String, ◌≡◌, Bool, true, false, List, [], ◌∷◌, ◌++◌, Option, none, some, str_eq, if◌then◌else◌,
}
use docker_interface.Py.Dict.{Dict, string_eq, lookup}
use docker_interface.Py.Value.{Value}
use docker_interface.Py.Result.{Result, ok, err}
use docker_interface.ControlPlane.Rows.{
  LifetimeType, persistent, ephemeral, single_use, session, Container, Host, Lab,
}
use docker_interface.ControlPlane.Session.{
  Method, Session, Outside, Step, ◌>>=◌, ◌>>◌, return, delete_container_row,
}
use docker_interface.ControlPlane.Helpers.{Reply, call_lab_host, remove_runtime_container}
use docker_interface.Prelude.{refl, ap, ◌∙◌}
use docker_interface.ControlPlane.Session.{CallError, continue, Call}
use docker_interface.Py.Result.{is_ok}
use docker_interface.ControlPlane.Helpers.{answered, note}
use docker_interface.ControlPlane.Reconcile.{ttl_expired, completed}
use docker_interface.ControlPlane.Reconcile.Run.{
  converge, delete_ingress_route_if_possible, call, delete_route, delete_route_below,
  remove_container_row_and_runtime, reconcile_ephemeral, reconcile_single_use,
  reconcile_by_lifetime, runtime_or_fetch, reconcile_container,
}
use docker_interface.ControlPlane.Reconcile.OnlyDue.{without}

-- The step returns, and only makes requests.
pub record Goes {A : Type 0} (m : Step A) : Type 0 where
  pub goes :
      (s : Session) → (a : A) × (calls : List Call) × (m s ≡ (ok a, record s { calls = calls }))

Goes-return : {A : Type 0} (a : A) → Goes (return a)
Goes-return a = record { goes = λ s. (a, s.calls, refl) }

Goes-bind :
    {A B : Type 0} (m : Step A) (f : A → Step B) → Goes m → ((a : A) → Goes (f a)) → Goes (m >>= f)
Goes-bind m f h k = record {
  goes = λ s.
      let (a, calls, e) = h.goes s in
      let (b, calls', e') = (k a).goes (record s { calls = calls }) in
      (b, calls', ap (continue f) e ∙ e');
}

Goes-if : {A : Type 0} (b : Bool) (m n : Step A) → Goes m → Goes n → Goes (if b then m else n)
Goes-if true m n h k = h
Goes-if false m n h k = k

module _ (outside : Outside)
    (answers : (log : List Call) (c : Call) → is_ok (outside.answer log c) ≡ true) where
  goes_answered :
      (answer : Result CallError Reply) (c : Call) (s : Session)
      → is_ok answer ≡ true
      → (a : Reply) × (calls : List Call) × (answered answer (note c s)
          ≡ (ok a, record s { calls = calls }))
  goes_answered (ok reply) c s h = (reply, s.calls ++ c ∷ [], refl)
  goes_answered (err exc) c s h = cc

  module _ (host : Host) (api_key : String) where
    Goes-call :
        (method : Method) (path : String) (query : Dict String String)
        → Goes (call outside host api_key method path query)
    unfolding call_lab_host
    Goes-call method path query = record { goes = λ s. goes_answered _ _ s (answers s.calls _) }

    Goes-delete_route :
        (domain : Option String) (lab_name resource_name : String)
        → Goes (delete_route_below outside host api_key domain lab_name resource_name)
    unfolding delete_route_below delete_route
    Goes-delete_route none lab_name resource_name = Goes-return tt
    Goes-delete_route (some domain) lab_name resource_name =
        Goes-if (str_eq domain "") _ _ (Goes-return tt)
          (Goes-bind _ _ (Goes-call _ _ _) (λ _. Goes-return tt))

    Goes-remove_runtime : (ref : String) → Goes (remove_runtime_container outside host api_key ref)
    unfolding remove_runtime_container
    Goes-remove_runtime ref = Goes-bind _ _ (Goes-call _ _ _) (λ stop.
        Goes-bind _ _ (Goes-call _ _ _) (λ deleted.
          Goes-if _ _ _ (Goes-bind _ _ (Goes-call _ _ _) (λ _. Goes-return _)) (Goes-return _)))

    -- The step returns, and what it changes is that the row is gone.
    abbrev pub Removes : Container → Step (Unit {0}) → Type 0
    Removes row m =
        (s : Session)
        → (calls : List Call) × (m s
            ≡ (ok tt, record s { containers = without row s.containers; calls = calls }))

    Removes-container :
        (lab : Lab) (row : Container)
        → Removes row (remove_container_row_and_runtime outside host api_key lab row)
    unfolding remove_container_row_and_runtime delete_container_row
    Removes-container lab row s =
        let (a, calls, e) = (Goes-remove_runtime row.container_id).goes s in
        let (b, calls', e') =
          (Goes-delete_route host.base_domain lab.name row.name).goes
            (record s { calls = calls }) in
        (
          calls',
          ap
                (continue (λ _.
                  delete_ingress_route_if_possible outside host api_key lab.name row.name
                  >> delete_container_row row))
                e
              ∙ ap (continue (λ _. delete_container_row row)) e',
        )

    module _ (lab : Lab) (row : Container) (payload : Dict String Value) where
      -- The time is over, or the single use is done, by the heartbeat's report of the container.
      abbrev pub Certain : LifetimeType → Type 0
      Certain ephemeral =
          (calls : List Call)
          → ttl_expired (outside.now calls) row.created_at_utc row.time_to_live_seconds ≡ true
      Certain single_use = completed (some payload) ≡ true
      Certain persistent = ⊥
      Certain session = ⊥

      Removes-by_lifetime :
          (lifetime : LifetimeType)
          → Certain lifetime
          → Removes row (reconcile_by_lifetime outside host api_key lifetime lab row (some payload))
      unfolding reconcile_by_lifetime reconcile_ephemeral reconcile_single_use
      Removes-by_lifetime ephemeral h s =
          let (calls, e) = Removes-container lab row s in
          (
            calls,
            ap
                  (λ b.
                    (if b
                        then remove_container_row_and_runtime outside host api_key lab row
                        else converge outside host api_key row (some payload))
                      s)
                  (h s.calls)
                ∙ e,
          )
      Removes-by_lifetime single_use h s =
          let (calls, e) = Removes-container lab row s in
          (
            calls,
            ap
                  (λ b.
                    (if b
                        then remove_container_row_and_runtime outside host api_key lab row
                        else converge outside host api_key row (some payload))
                      s)
                  h
                ∙ e,
          )
      Removes-by_lifetime persistent h s = absurd h
      Removes-by_lifetime session h s = absurd h

      -- If the lab host answers every request, with whatever status, a reported container whose time is over
      -- or whose single use is done is removed: the step returns, its row is gone, and no other row has
      -- changed.
      pub reconcile_container-removes :
          (known : Dict String (Dict String Value)) (s : Session)
          → lookup row.container_id known ≡ some payload
          → Certain row.lifetime_type
          → (calls : List Call) × (reconcile_container outside host api_key lab known row s
              ≡ (ok tt, record s { containers = without row s.containers; calls = calls }))
      unfolding reconcile_container runtime_or_fetch
      reconcile_container-removes known s e h =
          let (calls, q) = Removes-by_lifetime row.lifetime_type h s in
          (
            calls,
            ap
                  (λ o.
                    continue (reconcile_by_lifetime outside host api_key row.lifetime_type lab row)
                      (runtime_or_fetch outside host api_key o row.container_id s))
                  e
                ∙ q,
          )
