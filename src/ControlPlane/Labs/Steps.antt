-- ===== src/ControlPlane/Labs/Steps.antt =====
-- The steps of the lab handlers that only make requests.
use docker_interface.Prelude.{String, ◌≡◌, ap, List, [], ◌∷◌, ◌++◌, Option, none, some, str_eq}
use docker_interface.Prelude.Int.{pos, ltb_ℤ}
use docker_interface.Py.Dict.{Dict}
use docker_interface.Py.Value.{Value}
use docker_interface.Py.Result.{Result}
use docker_interface.ControlPlane.Rows.{Container, Project, Network, Host, Lab}
use docker_interface.ControlPlane.Session.{
  HttpError, Method, Call, Session, Outside, Step, return, raise, exposed_service_names,
}
use docker_interface.ControlPlane.Helpers.{
  Reply, extract_status_code, note, call_lab_host, call_lab_host_with, raise_for_lab_host_error,
  failure_of,
}
use docker_interface.ControlPlane.Reconcile.{route_hostname}
use docker_interface.ControlPlane.Reconcile.Invariant.{
  Keeps, Keeps-return, Keeps-bind, Keeps-if, Keeps-each, keeps_calls, Keeps-call,
  Keeps-remove_runtime,
}
use docker_interface.ControlPlane.Labs.{check}
use docker_interface.ControlPlane.Labs.Delete.{
  removed, failure_for, collect, is_refused, is_expected, delete_route_of,
  delete_route_below_domain, remove_project, remove_container, remove_network,
}

-- The rows are those of `base`: only requests were made since.
abbrev pub SameRows : Session → Session → Type 0
SameRows base s = s ≡ record base { calls = s.calls }

SameRows-note :
    (base : Session) (c : Call) (s : Session) → SameRows base s → SameRows base (note c s)
SameRows-note base c s h = ap (λ (x : Session). record x { calls = s.calls ++ c ∷ [] }) h

pub raise_for-Keeps :
    (H : Session → Type 0) (result : Reply) (operation : String) (detail : Option String)
    → Keeps H (raise_for_lab_host_error result operation detail)
unfolding raise_for_lab_host_error
raise_for-Keeps H result operation detail =
    Keeps-if H (ltb_ℤ (extract_status_code result) (pos 400)) (return tt)
      (raise (failure_of detail operation result)) (Keeps-return H tt) (record { keeps = λ s h. h })

pub check-Keeps :
    {A : Type 0} (H : Session → Type 0) (f : Session → Result HttpError A) → Keeps H (check f)
check-Keeps H f = record { keeps = λ s h. h }

module _ (base : Session) where
  abbrev pub H : Session → Type 0
  H s = SameRows base s

  pub collect-Keeps :
      {A B : Type 0} (xs : List A) (f : A → Step B)
      → ((x : A) → Keeps H (f x))
      → Keeps H (collect xs f)
  collect-Keeps [] f h = Keeps-return H []
  collect-Keeps (x ∷ xs) f h =
      Keeps-bind H (f x) _ (h x)
        λ b. Keeps-bind H (collect xs f) _ (collect-Keeps xs f h) λ bs. Keeps-return H (b ∷ bs)

  module _ (outside : Outside) (host : Host) (api_key : String) where
    pub call-Keeps :
        (method : Method) (path : String) (query : Dict String String)
        → Keeps H (call_lab_host outside host api_key method path query)
    call-Keeps method path query =
        Keeps-call H (SameRows-note base) outside host api_key method path query

    pub call_with-Keeps :
        (method : Method) (path : String) (body : Value)
        → Keeps H (call_lab_host_with outside host api_key method path body)
    unfolding call_lab_host_with
    call_with-Keeps method path body = record {
      keeps = λ s h. keeps_calls H (SameRows-note base) _ _ s h;
    }

    module _ (lab : Lab) where
      delete_route_of-Keeps :
          (fqdn : String) → Keeps H (delete_route_of outside host api_key lab fqdn)
      delete_route_of-Keeps fqdn = Keeps-bind H _ _ (call-Keeps _ _ _) λ result.
          Keeps-if H (is_expected outside host api_key lab result) _ _ (Keeps-return H tt)
            (raise_for-Keeps H result _ none)

      delete_route-Keeps :
          (domain : Option String) (name : String)
          → Keeps H (delete_route_below_domain outside host api_key lab domain name)
      delete_route-Keeps none name = Keeps-return H tt
      delete_route-Keeps (some domain) name =
          Keeps-if H (str_eq domain "") _ _ (Keeps-return H tt)
            (delete_route_of-Keeps (route_hostname name lab.name domain))

      pub remove_project-Keeps :
          (row : Project) → Keeps H (remove_project outside host api_key lab row)
      remove_project-Keeps row = Keeps-bind H _ _ (call-Keeps _ _ _) λ result.
          Keeps-if H (is_refused result) _ _
            (Keeps-return H (failure_for row.project_name row.project_name result))
            (Keeps-bind H _ _
              (Keeps-each H (exposed_service_names row) _
                λ name. delete_route-Keeps host.base_domain name)
              λ _. Keeps-return H (removed row.project_name))

      pub remove_container-Keeps :
          (row : Container) → Keeps H (remove_container outside host api_key lab row)
      remove_container-Keeps row =
          Keeps-bind H _ _
            (Keeps-remove_runtime H (SameRows-note base) outside host api_key row.container_id)
            λ r.
              Keeps-if H (is_refused r.1) _ _
                (Keeps-return H (failure_for row.name row.container_id r.1))
                (Keeps-bind H _ _ (delete_route-Keeps host.base_domain row.name)
                  λ _. Keeps-return H (removed row.name))

      pub remove_network-Keeps :
          (row : Network) → Keeps H (remove_network outside host api_key lab row)
      remove_network-Keeps row = Keeps-bind H _ _ (call-Keeps _ _ _) λ result.
          Keeps-if H (is_refused result) _ _
            (Keeps-return H (failure_for row.name row.network_id result))
            (Keeps-return H (removed row.name))
