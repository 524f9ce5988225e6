-- ===== src/LabHost/ShortPort.antt =====
-- The short port syntax of a compose file, `[IP:]HOST:CONTAINER[/PROTOCOL]`
-- (`_parse_short_port_mapping` and `_render_short_port_mapping` of lab_host/docker_interface.py).
mod Tests
pub mod RoundTrip
use docker_interface.Prelude.{
  ℕ, zero, suc, ◌+◌, ◌-◌, ◌*◌, ◌/◌, ◌%◌, ◌<◌, ◌≤◌, Char, code, String, ◌≡◌, ◌≢◌, ◌⊎◌, ◌↔◌, inl, inr,
  refl, sym, ap, ◌∙◌, Bool, true, false, ◌&&◌, ◌||◌, not, List, [], ◌∷◌, ◌++◌, map, arith, ltb, leb,
  ◌==◌, if◌then◌else◌, all, any, All, sum, length, get_elem?, Option, none, some, is_some, get_or,
  Bool-cases, Option-cases, str_eq, eq_iff, eq_refl, length-append, length-map, All-append,
}
use docker_interface.Prelude.Int.{ℤ, pos}
use docker_interface.Py.Chars.{Chars, chars, to_text, strip, is_blank}
use docker_interface.Py.Chars.Digits.{isdigit, int_of, str_ℤ}
use docker_interface.Py.Chars.Split.{split, rsplit_once}

pub record ShortPort : Type 0 where
  pub host_ip : Option Chars
  pub host : ℤ
  pub container : ℤ
  pub protocol : Chars

-- `host_part.isdigit() and container_part.isdigit()`, and the integers.
unfoldable pub read_ports : Option Chars → Chars → Chars → Chars → Option ShortPort
unfolding isdigit int_of
read_ports host_ip host_part container_part protocol =
    if isdigit host_part && isdigit container_part
    then some (record {
      host_ip = host_ip;
      host = pos (int_of host_part);
      container = pos (int_of container_part);
      protocol = protocol;
    })
    else none

unfoldable pub read_parts : List Chars → Chars → Option ShortPort
unfolding read_ports
read_parts (host_part ∷ container_part ∷ []) protocol =
    read_ports none host_part container_part protocol
read_parts (host_ip ∷ host_part ∷ container_part ∷ []) protocol =
    read_ports (some host_ip) host_part container_part protocol
read_parts _ protocol = none

-- The text in front of the protocol, and the protocol: `tcp` if there is none behind a slash.
unfoldable pub split_protocol : Chars → Chars × Chars
unfolding chars
split_protocol s = elim (rsplit_once 47 s) [
  | some (left, c ∷ proto) ↦ (left, c ∷ proto)
  | some (left, []) ↦ (s, chars "tcp")
  | none ↦ (s, chars "tcp")
]

unfoldable pub parse_stripped : Chars → Option ShortPort
unfolding split_protocol rsplit_once read_parts split
parse_stripped [] = none
parse_stripped (c ∷ s) =
    let (left, protocol) = split_protocol (c ∷ s) in read_parts (split 58 left) protocol

unfoldable pub parse_short_port_mapping : Chars → Option ShortPort
unfolding parse_stripped strip
parse_short_port_mapping value = parse_stripped (strip is_blank value)

-- `if protocol and protocol != "tcp"`
unfoldable pub with_protocol : Chars → Chars → Chars
unfolding chars to_text
with_protocol base [] = base
with_protocol base (c ∷ protocol) =
    if str_eq (to_text (c ∷ protocol)) "tcp" then base else base ++ (chars "/" ++ c ∷ protocol)

-- `if host_ip`
unfoldable pub with_ip : Option Chars → Chars → Chars
unfolding chars
with_ip none base = base
with_ip (some []) base = base
with_ip (some (c ∷ ip)) base = (c ∷ ip) ++ (chars ":" ++ base)

unfoldable pub render_short_port_mapping : ShortPort → Chars
unfolding with_protocol with_ip str_ℤ
render_short_port_mapping m =
    with_protocol (with_ip m.host_ip (str_ℤ m.host ++ (chars ":" ++ str_ℤ m.container))) m.protocol

shown : Option ShortPort → Option String
unfolding render_short_port_mapping to_text
shown none = none
shown (some m) = some (to_text (render_short_port_mapping m))

keeps_ip_and_udp :
    shown (parse_short_port_mapping (chars " 127.0.0.1:8080:80/udp")) ≡ some "127.0.0.1:8080:80/udp"
unfolding shown parse_short_port_mapping chars
keeps_ip_and_udp = refl

drops_tcp : shown (parse_short_port_mapping (chars "8080:80/tcp")) ≡ some "8080:80"
unfolding shown parse_short_port_mapping chars
drops_tcp = refl

not_short : shown (parse_short_port_mapping (chars "80")) ≡ none
unfolding shown parse_short_port_mapping chars
not_short = refl
