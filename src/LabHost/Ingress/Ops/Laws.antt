-- ===== src/LabHost/Ingress/Ops/Laws.antt =====
-- What the operations on routes promise.
use docker_interface.Prelude.{
  String, ◌≡◌, inl, inr, refl, sym, ap, ◌∙◌, true, false, [], ◌∷◌, arith, if◌then◌else◌, length,
  none, some, is_some, Bool-cases, Option-cases, str_eq, eq_iff,
}
use docker_interface.Py.Dict.{
  Dict, string_eq, lookup, insert, erase, contains, lookup-insert, lookup-erase,
}
use docker_interface.Py.Value.{Value, int, str, dict, fields, get, null, bool, float, list}
use docker_interface.LabHost.Ingress.{
  Route, Routes, StateFile, absent, broken, document, is_scheme, scheme_or_http, normalize_route,
  normalize_entry, add_normalized, normalize_from, load_routes, write_routes,
}
use docker_interface.LabHost.Ingress.Stored.{IsRoute, IsRoutes, load-write_routes}
use docker_interface.LabHost.Ingress.Render.{render_ingress_dynamic_config}
use docker_interface.LabHost.Ingress.Ops.{
  Files, ensure_state, ensure_ingress_layout, load_ingress_routes_state, write_ingress_routes_state,
  write_ingress_dynamic_config, Scheme, scheme_value, http, https, IngressRouteUpsertArgs,
  route_payload, write_both, upsert_ingress_route, remove_ingress_route,
}

insert-IsRoutes :
    (k : String) (r : Route) (d : Routes) → IsRoute r → IsRoutes d → IsRoutes (insert k r d)
unfolding insert lookup
insert-IsRoutes k r [] hr h = (hr, refl, tt)
insert-IsRoutes k r ((j, s) ∷ d) hr h =
    ground (arith, insert-IsRoutes k r d hr h.2, lookup-insert k j r d, eq_iff j k, eq_iff k j)

erase-IsRoutes : (k : String) (d : Routes) → IsRoutes d → IsRoutes (erase k d)
unfolding erase lookup
erase-IsRoutes k [] h = tt
erase-IsRoutes k ((j, s) ∷ d) h = ground (arith, erase-IsRoutes k d h.2, lookup-erase k j d)

scheme-known : (v : Value) → is_scheme (scheme_or_http v) ≡ true
scheme-known (str s) = elim (Bool-cases (is_scheme s)) [ inl e ↦ rw e e | inr e ↦ rw e refl ]
scheme-known _ = refl

normalize_route-IsRoute :
    (d : Dict String Value) {r : Route} → normalize_route d ≡ some r → IsRoute r
unfolding normalize_route
normalize_route-IsRoute d h = ground (arith, scheme-known (get "service_scheme" d))

normalize_entry-IsRoute : (v : Value) {r : Route} → normalize_entry v ≡ some r → IsRoute r
unfolding normalize_entry
normalize_entry-IsRoute (dict fs) h = normalize_route-IsRoute (fields fs) h
normalize_entry-IsRoute _ h = cc

add_normalized-IsRoutes :
    (k : String) (v : Value) (routes : Routes)
    → IsRoutes routes
    → IsRoutes (add_normalized k (normalize_entry v) routes)
unfolding add_normalized
add_normalized-IsRoutes k v routes h = elim (Option-cases (normalize_entry v)) [
  | inl e ↦ rw e h
  | inr (r, e) ↦ rw e (insert-IsRoutes k r routes (normalize_entry-IsRoute v e) h)
]

normalize_from-IsRoutes :
    (routes : Routes) (d : Dict String Value) → IsRoutes routes → IsRoutes (normalize_from routes d)
unfolding normalize_from
normalize_from-IsRoutes routes [] h = h
normalize_from-IsRoutes routes ((k, v) ∷ d) h =
    normalize_from-IsRoutes (add_normalized k (normalize_entry v) routes) d
      (add_normalized-IsRoutes k v routes h)

-- Whatever the state file holds, the loaded routes have integer ports and known schemes, and no hostname
-- twice.
pub load_routes-IsRoutes : (f : StateFile) → IsRoutes (load_routes f)
unfolding load_routes
load_routes-IsRoutes (document (dict fs)) = normalize_from-IsRoutes [] (fields fs) tt
load_routes-IsRoutes (document null) = tt
load_routes-IsRoutes (document (bool b)) = tt
load_routes-IsRoutes (document (int n)) = tt
load_routes-IsRoutes (document (float n)) = tt
load_routes-IsRoutes (document (str s)) = tt
load_routes-IsRoutes (document (list vs)) = tt
load_routes-IsRoutes absent = tt
load_routes-IsRoutes broken = tt

-- The routes that the files hold.
abbrev pub routes_of : Files → Routes
routes_of files = load_routes (ensure_ingress_layout files).state

-- The proxy is configured for the routes of the state file.
pub record InSync (digest : String → String) (files : Files) : Type 0 where
  pub config_is_rendered :
      files.dynamic_config ≡ some (render_ingress_dynamic_config digest (routes_of files))

state_after :
    (digest : String → String) (routes : Routes) (files : Files)
    → IsRoutes routes
    → routes_of (write_both digest routes files) ≡ routes
unfolding write_both write_ingress_dynamic_config write_ingress_routes_state ensure_ingress_layout
    ensure_state write_routes
state_after digest routes files h = load-write_routes routes h

config_after :
    (digest : String → String) (routes : Routes) (files : Files)
    → (write_both digest routes files).dynamic_config
      ≡ some (render_ingress_dynamic_config digest routes)
unfolding write_both write_ingress_dynamic_config
config_after digest routes files = refl

static_after :
    (digest : String → String) (routes : Routes) (files : Files)
    → (write_both digest routes files).static_config ≡ files.static_config
unfolding write_both write_ingress_dynamic_config write_ingress_routes_state ensure_ingress_layout
static_after digest routes files = refl

sync_after :
    (digest : String → String) (routes : Routes) (files : Files)
    → IsRoutes routes
    → InSync digest (write_both digest routes files)
sync_after digest routes files h = record {
  config_is_rendered =
      config_after digest routes files
      ∙ sym (
          ap (λ rs. some (render_ingress_dynamic_config digest rs))
            (state_after digest routes files h));
}

route_payload-IsRoute : (args : IngressRouteUpsertArgs) → IsRoute (route_payload args)
unfolding route_payload
route_payload-IsRoute args = record {
  port_is_int = refl;
  scheme_is_known = scheme_known args.service_scheme;
}
  where
    scheme_known : (s : Scheme) → is_scheme (scheme_value s) ≡ true
    scheme_known http = refl
    scheme_known https = refl

-- After an upsert the route of the hostname is the one that was given and every other hostname has the
-- route that it had; the response counts the stored routes; and the proxy is configured for what is
-- stored.
pub upsert_ingress_route_lem :
    (digest : String → String) (hostname : String) (args : IngressRouteUpsertArgs) (files : Files)
    → let (response, files') = upsert_ingress_route digest hostname args files in
      ((h : String)
        → lookup h (routes_of files')
          ≡ (if str_eq hostname h then some (route_payload args) else lookup h (routes_of files)))
      × (response.routes_count ≡ length (routes_of files'))
      × InSync digest files'
unfolding upsert_ingress_route load_ingress_routes_state
upsert_ingress_route_lem digest hostname args files =
    let old = routes_of files in
    let routes = insert hostname (route_payload args) old in
    let good : IsRoutes routes =
      insert-IsRoutes hostname (route_payload args) old (route_payload-IsRoute args)
        (load_routes-IsRoutes _) in
    let after = state_after digest routes (ensure_ingress_layout files) good in
    (
      λ h. rw after (lookup-insert hostname h (route_payload args) old),
      rw after,
      sync_after digest routes (ensure_ingress_layout files) good,
    )

-- `del routes[hostname]` if it is there.
abbrev remaining : String → Routes → Routes
remaining hostname old = if contains hostname old then erase hostname old else old

remaining-IsRoutes : (k : String) (d : Routes) → IsRoutes d → IsRoutes (remaining k d)
remaining-IsRoutes k d h = elim (Bool-cases (contains k d)) [
  | inl e ↦ rw e (erase-IsRoutes k d h)
  | inr e ↦ rw e h
]

lookup_absent :
    (k h : String) (d : Routes)
    → contains k d ≡ false
    → lookup h d ≡ (if str_eq k h then none else lookup h d)
lookup_absent k h d e = elim (Bool-cases (str_eq k h)) [
  | inl same ↦ let eq = (eq_iff k h).0 same in rw same (rw (← eq) (ground arith))
  | inr other ↦ rw other
]

lookup-remaining :
    (k h : String) (d : Routes)
    → lookup h (remaining k d) ≡ (if str_eq k h then none else lookup h d)
lookup-remaining k h d = elim (Bool-cases (contains k d)) [
  | inl e ↦ rw e (lookup-erase k h d)
  | inr e ↦ rw e (lookup_absent k h d e)
]

-- After a removal the hostname has no route and every other hostname has the route that it had; the
-- response says whether there was one and counts the stored routes; and the proxy is configured for what
-- is stored.
pub remove_ingress_route_lem :
    (digest : String → String) (hostname : String) (files : Files)
    → let (response, files') = remove_ingress_route digest hostname files in
      ((h : String)
        → lookup h (routes_of files')
          ≡ (if str_eq hostname h then none else lookup h (routes_of files)))
      × (response.removed ≡ is_some (lookup hostname (routes_of files)))
      × (response.routes_count ≡ length (routes_of files'))
      × InSync digest files'
unfolding remove_ingress_route load_ingress_routes_state
remove_ingress_route_lem digest hostname files =
    let old = routes_of files in
    let routes = remaining hostname old in
    let good : IsRoutes routes = remaining-IsRoutes hostname old (load_routes-IsRoutes _) in
    let after = state_after digest routes (ensure_ingress_layout files) good in
    (
      λ h. rw after (lookup-remaining hostname h old),
      refl,
      rw after,
      sync_after digest routes (ensure_ingress_layout files) good,
    )
