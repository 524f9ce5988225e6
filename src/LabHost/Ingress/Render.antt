-- ===== src/LabHost/Ingress/Render.antt =====
-- The configuration texts of the ingress proxy: `_ingress_route_id`, `_render_ingress_dynamic_config`
-- and `_render_traefik_static_config`. The first eight hexadecimal digits of the SHA-1 of a hostname are
-- the parameter `digest`.
use Prim.Native.String.{compare}
use text.Mathlib.Text.{is_le}
use docker_interface.Prelude.{
  code, String, ◌≡◌, refl, ◌||◌, List, [], ◌∷◌, ◌++◌, map, ◌==◌, if◌then◌else◌, Option, none, some,
  str_eq,
}
use docker_interface.Prelude.Int.{ℤ}
use docker_interface.Py.Chars.{Chars, chars, to_text, is_alnum, lower, strip}
use docker_interface.Py.Chars.Digits.{str_ℤ}
use docker_interface.Py.Dict.{string_eq, lookup, keys}
use docker_interface.Py.Value.{Value, as_int}
use docker_interface.Py.Result.{format}
use docker_interface.LabHost.Ingress.{Route, Routes}

-- `re.sub(r"[^a-zA-Z0-9-]", "-", hostname)`
dashed : Chars → Chars
dashed s = map (λ c. if is_alnum c || code c == 45 then c else "-") s

abbrev or_route : Chars → Chars
unfolding chars
or_route [] = chars "route"
or_route (c ∷ s) = c ∷ s

unfoldable pub ingress_route_id : (String → String) → String → String
unfolding dashed or_route lower strip to_text chars
ingress_route_id digest hostname = format (
    to_text (or_route (lower (strip (λ c. code c == 45) (dashed (chars hostname)))))
    ∷ "-"
    ∷ digest hostname
    ∷ [])

-- `sorted(…)` of texts: by code points.
unfoldable pub insert_sorted : String → List String → List String
insert_sorted s [] = s ∷ []
insert_sorted s (t ∷ ts) = if is_le (compare s t) then s ∷ t ∷ ts else t ∷ insert_sorted s ts

unfoldable pub sorted : List String → List String
unfolding insert_sorted
sorted [] = []
sorted (s ∷ ss) = insert_sorted s (sorted ss)

-- `"\n".join(lines) + "\n"`
abbrev pub join_lines : List String → String
join_lines [] = "\n"
join_lines (l ∷ []) = format (l ∷ "\n" ∷ [])
join_lines (l ∷ m ∷ ls) = format (l ∷ "\n" ∷ join_lines (m ∷ ls) ∷ [])

-- `str(n)` of an `int` value.
unfoldable pub int_text : Value → String
unfolding to_text str_ℤ
int_text v = elim (as_int v) [ none ↦ "" | some n ↦ to_text (str_ℤ n) ]

module _ (digest : String → String) where
  unfoldable pub router_lines : String → List String
  unfolding ingress_route_id
  router_lines hostname =
      let route_id = ingress_route_id digest hostname in
      format ("    " ∷ route_id ∷ ":" ∷ [])
      ∷ format ("      rule: \"Host(`" ∷ hostname ∷ "`)\"" ∷ [])
      ∷ format ("      service: " ∷ route_id ∷ [])
      ∷ "      entryPoints:"
      ∷ "        - web"
      ∷ "        - websecure"
      ∷ []

  -- `routes[hostname]` of a hostname that is there.
  unfoldable pub service_lines : String → Option Route → List String
  unfolding ingress_route_id int_text
  service_lines hostname none = []
  service_lines hostname (some route) =
      let scheme = if str_eq route.service_scheme "" then "http" else route.service_scheme in
      format ("    " ∷ ingress_route_id digest hostname ∷ ":" ∷ [])
      ∷ "      loadBalancer:"
      ∷ "        servers:"
      ∷ format (
          "          - url: \""
          ∷ scheme
          ∷ "://"
          ∷ route.upstream_host
          ∷ ":"
          ∷ int_text route.upstream_port
          ∷ "\""
          ∷ [])
      ∷ []

  unfoldable pub all_router_lines : List String → List String
  unfolding router_lines
  all_router_lines [] = []
  all_router_lines (h ∷ hs) = router_lines h ++ all_router_lines hs

  unfoldable pub all_service_lines : Routes → List String → List String
  unfolding service_lines lookup
  all_service_lines routes [] = []
  all_service_lines routes (h ∷ hs) =
      service_lines h (lookup h routes) ++ all_service_lines routes hs

  unfoldable pub dynamic_lines : Routes → List String
  unfolding all_router_lines all_service_lines sorted
  dynamic_lines routes =
      let hostnames = sorted (keys routes) in
      "http:"
      ∷ "  routers:"
      ∷ (all_router_lines hostnames ++ ("  services:" ∷ all_service_lines routes hostnames))

  unfoldable pub render_ingress_dynamic_config : Routes → String
  unfolding dynamic_lines
  render_ingress_dynamic_config [] = ""
  render_ingress_dynamic_config (e ∷ routes) = join_lines (dynamic_lines (e ∷ routes))

unfoldable pub render_traefik_static_config : ℤ → ℤ → String
unfolding to_text str_ℤ
render_traefik_static_config http_port https_port = join_lines (
    "entryPoints:"
    ∷ "  web:"
    ∷ format ("    address: \":" ∷ to_text (str_ℤ http_port) ∷ "\"" ∷ [])
    ∷ "  websecure:"
    ∷ format ("    address: \":" ∷ to_text (str_ℤ https_port) ∷ "\"" ∷ [])
    ∷ "providers:"
    ∷ "  file:"
    ∷ "    directory: /etc/traefik/dynamic"
    ∷ "    watch: true"
    ∷ [])

route_id : ingress_route_id (λ h. "0a1b2c3d") "_Web.Lab_1.example." ≡ "web-lab-1-example-0a1b2c3d"
unfolding ingress_route_id
route_id = refl
