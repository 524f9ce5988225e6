-- ===== src/LabHost/Ingress/Stored.antt =====
-- What is written to the state file is read back.
use docker_interface.Prelude.{
  String, ◌≡◌, inl, inr, refl, sym, ap, ◌∙◌, true, false, [], ◌∷◌, ◌++◌, arith, none, some, is_some,
  Option-cases, str_eq, eq_iff,
}
use mathlib.Core.List.{append_assoc, append-nil}
use docker_interface.Py.Dict.{Dict, string_eq, lookup, insert}
use docker_interface.Py.Value.{Value, dict, of_fields, as_int, fields-of_fields}
use docker_interface.LabHost.Ingress.{
  Route, Routes, is_scheme, normalize_route, normalize_entry, add_normalized, normalize_from,
  load_routes, encode_route, encode_routes, write_routes, document,
}

-- A route as `load_routes` makes them.
pub record IsRoute (r : Route) : Type 0 where
  pub port_is_int : is_some (as_int r.upstream_port) ≡ true
  pub scheme_is_known : is_scheme r.service_scheme ≡ true

-- Every route is one, and no hostname stands twice.
abbrev pub IsRoutes : Routes → Type 0
IsRoutes [] = Unit
IsRoutes ((hostname, r) ∷ routes) = IsRoute r × (lookup hostname routes ≡ none) × IsRoutes routes

pub normalize-encode_route : (r : Route) → IsRoute r → normalize_entry (encode_route r) ≡ some r
unfolding normalize_entry normalize_route encode_route lookup
normalize-encode_route r h = elim (Option-cases (as_int r.upstream_port)) [
  | inl e ↦ absurd (let x : is_some (as_int r.upstream_port) ≡ false = rw e in cc)
  | inr (n, e) ↦ rw e (ground (arith, fields-of_fields r.metadata))
]

insert_new :
    (k : String) (r : Route) (d : Routes) → lookup k d ≡ none → insert k r d ≡ d ++ (k, r) ∷ []
unfolding insert lookup
insert_new k r [] h = refl
insert_new k r ((j, s) ∷ d) h = ground (arith, insert_new k r d)

lookup_middle :
    (j k : String) (r : Route) (acc rest : Routes)
    → lookup j (acc ++ (k, r) ∷ rest) ≡ none
    → str_eq k j ≡ false
unfolding lookup
lookup_middle j k r [] rest h = ground arith
lookup_middle j k r ((i, s) ∷ acc) rest h = ground (arith, lookup_middle j k r acc rest)

IsRoutes-middle :
    (acc : Routes) (k : String) (r : Route) (rest : Routes)
    → IsRoutes (acc ++ (k, r) ∷ rest)
    → (lookup k acc ≡ none) × IsRoute r
unfolding lookup
IsRoutes-middle [] k r rest h = (refl, h.0)
IsRoutes-middle ((j, s) ∷ acc) k r rest h =
    let (absent, good) = IsRoutes-middle acc k r rest h.2 in
    (ground (arith, lookup_middle j k r acc rest h.1, eq_iff j k, eq_iff k j), good)

add_some : (k : String) (r : Route) (acc : Routes) → add_normalized k (some r) acc ≡ insert k r acc
unfolding add_normalized
add_some k r acc = refl

normalize-encode_routes :
    (acc routes : Routes)
    → IsRoutes (acc ++ routes)
    → normalize_from acc (encode_routes routes) ≡ acc ++ routes
unfolding normalize_from encode_routes
normalize-encode_routes acc [] h = sym (append-nil acc)
normalize-encode_routes acc ((k, r) ∷ routes) h =
    let (absent, good) = IsRoutes-middle acc k r routes h in
    let assoc = append_assoc acc ((k, r) ∷ []) routes in
    let step : add_normalized k (normalize_entry (encode_route r)) acc ≡ acc ++ (k, r) ∷ [] =
      rw (normalize-encode_route r good, add_some k r acc) (insert_new k r acc absent) in
    ap (λ d. normalize_from d (encode_routes routes)) step
    ∙ (normalize-encode_routes (acc ++ (k, r) ∷ []) routes (rw assoc h) ∙ assoc)

load_document :
    (d : Dict String Value) → load_routes (document (dict (of_fields d))) ≡ normalize_from [] d
unfolding load_routes
load_document d = rw fields-of_fields

-- Routes that the code can hold are read back as they were written.
pub load-write_routes :
    (routes : Routes) → IsRoutes routes → load_routes (write_routes routes) ≡ routes
unfolding write_routes
load-write_routes routes h =
    load_document (encode_routes routes) ∙ normalize-encode_routes [] routes h
