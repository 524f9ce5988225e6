-- ===== src/ControlPlane/Reconcile/Invariant.antt =====
-- An invariant of a session that no request changes, through the steps of a reconciliation.
pub mod Steps
use docker_interface.Prelude.{
  ℕ, Char, code, String, ◌≡◌, Bool, true, false, not, ◌&&◌, ◌||◌, List, [], ◌∷◌, ◌++◌, Option, none,
  some, is_some, get_or, str_eq, if◌then◌else◌, any, ◌==◌, ◌*◌,
}
use docker_interface.Prelude.Int.{ℤ, pos, negsuc, ◌-ℤ◌, leb_ℤ, ltb_ℤ, eqb_ℤ}
use docker_interface.Py.Chars.{Chars, chars, to_text, lower, strip, is_alnum, filter}
use docker_interface.Py.Dict.{Dict, string_eq, elem, lookup, insert}
use docker_interface.Py.Value.{
  Value, str, int, list, dict, fields, items, as_dict, as_int, as_str, get, lower_text,
}
use docker_interface.Py.Result.{Result, ok, err, format}
use docker_interface.ControlPlane.Rows.{
  LifetimeType, persistent, ephemeral, single_use, session, ContainerStatus, created, started,
  stopped, paused, ProjectDesiredState, running, Container, Project, Host, Lab,
}
use docker_interface.ControlPlane.Session.{
  HttpError, Method, get as get_method, post, delete, Session, Outside, Step, ◌>>=◌, ◌>>◌, return,
  read, for_each, labs_of, containers_of, projects_of, select, first, delete_container_row,
  delete_project_row, mark_online, exposed_service_names,
}
use docker_interface.ControlPlane.Helpers.{
  Reply, extract_status_code, extract_body, extract_container_from_body, call_lab_host,
  container_path, remove_runtime_container,
}
use docker_interface.Prelude.{refl, sym, ap, ◌∙◌, arith, All, Bool-cases, inl, inr}
use docker_interface.Prelude.Int.{eqb_ℤ_iff}
use docker_interface.ControlPlane.Session.{
  CallError, http_error, other_failure, continue, Call, put_host,
}
use docker_interface.ControlPlane.Helpers.{answered, note}
use docker_interface.ControlPlane.Reconcile.{
  Runtime, completed, compose_containers_from_ps, all_single_use_success, any_alive, status_in,
  alive,
}
use docker_interface.ControlPlane.Reconcile.Run.{
  call, delete_route, delete_route_below, fetch_container_summary, remove_container_row_and_runtime,
  set_state, converge_container, reconcile_ephemeral, reconcile_single_use, reconcile_by_lifetime,
  runtime_or_fetch, reconcile_container, remove_project_row_and_runtime, compose_command,
  converge_project, project_by_lifetime, reconcile_project, reconcile_lab, reconcile_with_key,
  reconcile_for_host, resolve_host_api_key,
}
use docker_interface.ControlPlane.Reconcile.Heartbeat.{
  reconcile_resolved, reconcile_heartbeat_payload,
}

module _ (H : Session → Type 0) where
  -- The step keeps the invariant, also if it raises.
  pub record Keeps {A : Type 0} (m : Step A) : Type 0 where
    pub keeps : (s : Session) → H s → H (m s).1

  pub Keeps-return : {A : Type 0} (a : A) → Keeps (return a)
  Keeps-return a = record { keeps = λ s h. h }

  pub keeps_continue :
      {A B : Type 0} (f : A → Step B) (r : Result HttpError A × Session)
      → ((a : A) → Keeps (f a))
      → H r.1
      → H (continue f r).1
  keeps_continue f (ok a, s) h k = (h a).keeps s k
  keeps_continue f (err e, s) h k = k

  pub Keeps-bind :
      {A B : Type 0} (m : Step A) (f : A → Step B)
      → Keeps m
      → ((a : A) → Keeps (f a))
      → Keeps (m >>= f)
  Keeps-bind m f h k = record { keeps = λ s g. keeps_continue f (m s) k (h.keeps s g) }

  pub Keeps-if :
      {A : Type 0} (b : Bool) (m n : Step A) → Keeps m → Keeps n → Keeps (if b then m else n)
  Keeps-if true m n h k = h
  Keeps-if false m n h k = k

  -- A branch whose condition matters.
  pub Keeps-cond :
      {A : Type 0} (b : Bool) (m n : Step A)
      → (b ≡ true → Keeps m)
      → Keeps n
      → Keeps (if b then m else n)
  Keeps-cond true m n h k = h refl
  Keeps-cond false m n h k = k

  pub Keeps-read :
      {A B : Type 0} (g : Session → A) (f : A → Step B)
      → ((s : Session) → H s → Keeps (f (g s)))
      → Keeps (read g >>= f)
  Keeps-read g f h = record { keeps = λ s k. (h s k).keeps s k }

  -- A branch on what is read.
  pub Keeps-when :
      {A : Type 0} (g : Session → Bool) (m n : Step A)
      → ((s : Session) → g s ≡ true → Keeps m)
      → Keeps n
      → Keeps (read g >>= λ b. if b then m else n)
  Keeps-when g m n h k =
      Keeps-read g (λ b. if b then m else n) (λ s _. Keeps-cond (g s) m n (h s) k)

  pub Keeps-for_each :
      {A : Type 0} (P : A → Type 0) (xs : List A) (f : A → Step (Unit {0}))
      → All P xs
      → ((x : A) → P x → Keeps (f x))
      → Keeps (for_each xs f)
  Keeps-for_each P [] f h k = Keeps-return tt
  Keeps-for_each P (x ∷ xs) f h k =
      Keeps-bind (f x) (λ _. for_each xs f) (k x h.0) (λ _. Keeps-for_each P xs f h.1 k)

  -- A loop whose body always keeps the rows.
  pub Keeps-each :
      {A : Type 0} (xs : List A) (f : A → Step (Unit {0}))
      → ((x : A) → Keeps (f x))
      → Keeps (for_each xs f)
  Keeps-each [] f k = Keeps-return tt
  Keeps-each (x ∷ xs) f k = Keeps-bind (f x) (λ _. for_each xs f) (k x) (λ _. Keeps-each xs f k)

  module _ (noted : (c : Call) (s : Session) → H s → H (note c s)) where
    pub keeps_calls :
        (answer : Result CallError Reply) (c : Call) (s : Session)
        → H s
        → H (answered answer (note c s)).1
    keeps_calls (ok reply) c s h = noted c s h
    keeps_calls (err (http_error exc)) c s h = noted c s h
    keeps_calls (err (other_failure exc)) c s h = noted c s h

    module _ (outside : Outside) where
      module _ (host : Host) (api_key : String) where
        pub Keeps-call :
            (method : Method) (path : String) (query : Dict String String)
            → Keeps (call outside host api_key method path query)
        unfolding call_lab_host
        Keeps-call method path query = record { keeps = λ s h. keeps_calls _ _ s h }

        pub Keeps-post :
            {A : Type 0} (method : Method) (path : String) (query : Dict String String) (a : A)
            → Keeps (call outside host api_key method path query >>= λ _. return a)
        Keeps-post method path query a =
            Keeps-bind _ _ (Keeps-call method path query) (λ _. Keeps-return _)

        pub Keeps-delete_route :
            (domain : Option String) (lab_name resource_name : String)
            → Keeps (delete_route_below outside host api_key domain lab_name resource_name)
        unfolding delete_route_below delete_route
        Keeps-delete_route none lab_name resource_name = Keeps-return tt
        Keeps-delete_route (some domain) lab_name resource_name =
            Keeps-if (str_eq domain "") _ _ (Keeps-return _) (Keeps-post _ _ _ _)

        pub Keeps-remove_runtime :
            (ref : String) → Keeps (remove_runtime_container outside host api_key ref)
        unfolding remove_runtime_container
        Keeps-remove_runtime ref = Keeps-bind _ _ (Keeps-call _ _ _) (λ stop.
            Keeps-bind _ _ (Keeps-call _ _ _) (λ deleted.
              Keeps-if _ _ _ (Keeps-bind _ _ (Keeps-call _ _ _) (λ _. Keeps-return _))
                (Keeps-return _)))

        pub Keeps-remove_container :
            (lab : Lab) (row : Container)
            → Keeps (delete_container_row row)
            → Keeps (remove_container_row_and_runtime outside host api_key lab row)
        unfolding remove_container_row_and_runtime
        Keeps-remove_container lab row h =
            Keeps-bind _ _ (Keeps-remove_runtime row.container_id)
              (λ _. Keeps-bind _ _ (Keeps-delete_route _ _ _) (λ _. h))

        pub Keeps-converge :
            (row : Container) (status : ContainerStatus) (now : Option String)
            → Keeps (converge_container outside host api_key row status now)
        unfolding converge_container set_state
        Keeps-converge row started now = Keeps-if _ _ _ (Keeps-return _) (Keeps-post _ _ _ _)
        Keeps-converge row stopped now = Keeps-if _ _ _ (Keeps-post _ _ _ _) (Keeps-return _)
        Keeps-converge row paused now = Keeps-if _ _ _ (Keeps-post _ _ _ _) (Keeps-return _)
        Keeps-converge row created now = Keeps-return tt
