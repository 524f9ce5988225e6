-- ===== src/LabHost/ShortPort/RoundTrip.antt =====
-- A rendered mapping is read back.
use docker_interface.Prelude.{
  ℕ, Char, code, ◌≡◌, ◌≢◌, ◌⊎◌, inl, inr, refl, sym, ap, ◌∙◌, true, false, ◌&&◌, [], ◌∷◌, ◌++◌,
  arith, if◌then◌else◌, Option, none, some, Bool-cases, str_eq, eq_iff, All-append,
}
use docker_interface.Prelude.Int.{pos}
use docker_interface.Py.Chars.{Chars, chars, to_text, is_blank, Free, strip-Free, chars-to_text}
use docker_interface.Py.Chars.Digits.{
  isdigit, int_of, str_ℕ, IsDigits, str_ℕ-IsDigits, isdigit-str_ℕ, int_of-str_ℕ,
}
use docker_interface.Py.Chars.Split.{
  split, rsplit_once, Lacks, split-Lacks, split-append, rsplit-Lacks, rsplit-append,
}
use docker_interface.LabHost.ShortPort.{
  ShortPort, read_ports, read_parts, split_protocol, parse_stripped, parse_short_port_mapping,
  with_protocol, with_ip, render_short_port_mapping,
}

-- A part of the syntax: not empty, and no blank in it.
abbrev pub IsPart : Chars → Type 0
IsPart s = (s ≢ []) × Free is_blank s

abbrev pub IpIsPlain : Option Chars → Type 0
IpIsPlain none = Unit
IpIsPlain (some ip) = IsPart ip × Lacks 58 ip × Lacks 47 ip

pub digits_lack : (sep : ℕ) (s : Chars) → sep ≡ 58 ⊎ (sep ≡ 47) → IsDigits s → Lacks sep s
digits_lack sep [] h d = tt
digits_lack sep (c ∷ s) h d = (ground arith, digits_lack sep s h (ground arith))

digits_Free : (s : Chars) → IsDigits s → Free is_blank s
digits_Free [] d = tt
digits_Free (c ∷ s) d = (ground arith, digits_Free s (ground arith))

read_ports_lem :
    (host_ip : Option Chars) (h c protocol : Chars)
    → read_ports host_ip h c protocol ≡ (
        if isdigit h && isdigit c
        then some (record {
          host_ip = host_ip;
          host = pos (int_of h);
          container = pos (int_of c);
          protocol = protocol;
        })
        else none)
unfolding read_ports
read_ports_lem host_ip h c protocol = refl

read_two : (h c protocol : Chars) → read_parts (h ∷ c ∷ []) protocol ≡ read_ports none h c protocol
unfolding read_parts
read_two h c protocol = refl

read_three :
    (ip h c protocol : Chars)
    → read_parts (ip ∷ h ∷ c ∷ []) protocol ≡ read_ports (some ip) h c protocol
unfolding read_parts
read_three ip h c protocol = refl

numbers : ℕ → ℕ → Chars
unfolding chars
numbers a b = str_ℕ a ++ (chars ":" ++ str_ℕ b)

module _ (a b : ℕ) where
  numbers_lack : Lacks 47 (numbers a b)
  unfolding numbers
  numbers_lack =
      All-append (λ c. code c ≢ 47) (str_ℕ a) (chars ":" ++ str_ℕ b)
        (digits_lack 47 (str_ℕ a) (inr refl) (str_ℕ-IsDigits a))
        (omega arith, digits_lack 47 (str_ℕ b) (inr refl) (str_ℕ-IsDigits b))

  numbers-Free : Free is_blank (numbers a b)
  unfolding numbers
  numbers-Free =
      All-append (λ c. is_blank c ≡ false) (str_ℕ a) (chars ":" ++ str_ℕ b)
        (digits_Free (str_ℕ a) (str_ℕ-IsDigits a)) (refl, digits_Free (str_ℕ b) (str_ℕ-IsDigits b))

  split-numbers : split 58 (numbers a b) ≡ str_ℕ a ∷ str_ℕ b ∷ []
  unfolding numbers
  split-numbers =
      split-append 58 (str_ℕ a) (str_ℕ b) _ (digits_lack 58 (str_ℕ a) (inl refl) (str_ℕ-IsDigits a))
        refl
      ∙ ap (◌∷◌ (str_ℕ a))
          (split-Lacks 58 (str_ℕ b) (digits_lack 58 (str_ℕ b) (inl refl) (str_ℕ-IsDigits b)))

  read_numbers :
      (host_ip : Option Chars) (protocol : Chars)
      → read_ports host_ip (str_ℕ a) (str_ℕ b) protocol
        ≡ some (record { host_ip = host_ip; host = pos a; container = pos b; protocol = protocol })
  read_numbers host_ip protocol =
      rw (read_ports_lem, isdigit-str_ℕ a, isdigit-str_ℕ b, int_of-str_ℕ a, int_of-str_ℕ b)

  with_ip-none : with_ip none (numbers a b) ≡ numbers a b
  unfolding with_ip
  with_ip-none = refl

  with_ip-some :
      (c : Char) (ip : Chars)
      → with_ip (some (c ∷ ip)) (numbers a b) ≡ (c ∷ ip) ++ ":" ∷ numbers a b
  unfolding with_ip
  with_ip-some c ip = refl

  -- the text in front of the protocol
  front : Option Chars → Chars
  front host_ip = with_ip host_ip (numbers a b)

  read_front :
      (host_ip : Option Chars) (protocol : Chars)
      → IpIsPlain host_ip
      → read_parts (split 58 (front host_ip)) protocol
        ≡ some (record { host_ip = host_ip; host = pos a; container = pos b; protocol = protocol })
  unfolding front
  read_front none protocol h = rw (with_ip-none, split-numbers, read_two, read_numbers)
  read_front (some []) protocol h = absurd (h.0.0 refl)
  read_front (some (c ∷ ip)) protocol h = rw (
    with_ip-some,
    split-append 58 (c ∷ ip) (numbers a b) _ h.1 refl,
    split-numbers,
    read_three,
    read_numbers,
  )

  front-Lacks : (host_ip : Option Chars) → IpIsPlain host_ip → Lacks 47 (front host_ip)
  unfolding front with_ip
  front-Lacks none h = numbers_lack
  front-Lacks (some []) h = numbers_lack
  front-Lacks (some (c ∷ ip)) h =
      All-append (λ c. code c ≢ 47) (c ∷ ip) _ h.2 (omega arith, numbers_lack)

  front-Free : (host_ip : Option Chars) → IpIsPlain host_ip → Free is_blank (front host_ip)
  unfolding front with_ip
  front-Free none h = numbers-Free
  front-Free (some []) h = numbers-Free
  front-Free (some (c ∷ ip)) h =
      All-append (λ c. is_blank c ≡ false) (c ∷ ip) _ h.0.1 (refl, numbers-Free)

split_protocol-none : (s : Chars) → rsplit_once 47 s ≡ none → split_protocol s ≡ (s, chars "tcp")
unfolding split_protocol
split_protocol-none s e = rw (e, split_protocol)

split_protocol-some :
    (s left : Chars) (c : Char) (proto : Chars)
    → rsplit_once 47 s ≡ some (left, c ∷ proto)
    → split_protocol s ≡ (left, c ∷ proto)
unfolding split_protocol
split_protocol-some s left c proto e = rw (e, split_protocol)

tcp_chars : (s : Chars) → str_eq (to_text s) "tcp" ≡ true → chars "tcp" ≡ s
tcp_chars s e = ap chars (sym ((eq_iff (to_text s) "tcp").0 e)) ∙ chars-to_text s

protocol_back :
    (base protocol : Chars)
    → Lacks 47 base
    → protocol ≢ []
    → Lacks 47 protocol
    → split_protocol (with_protocol base protocol) ≡ (base, protocol)
unfolding with_protocol
protocol_back base [] hb h hp = absurd (h refl)
protocol_back base (c ∷ p) hb h hp = elim (Bool-cases (str_eq (to_text (c ∷ p)) "tcp")) [
  | inl e ↦ rw (e, split_protocol-none base (rsplit-Lacks 47 base hb), tcp_chars (c ∷ p) e)
  | inr e ↦ rw e (split_protocol-some _ base c p (rsplit-append 47 base (c ∷ p) _ hp refl))
]

with_protocol-Free :
    (base protocol : Chars)
    → Free is_blank base
    → Free is_blank protocol
    → Free is_blank (with_protocol base protocol)
unfolding with_protocol
with_protocol-Free base [] hb hp = hb
with_protocol-Free base (c ∷ p) hb hp = elim (Bool-cases (str_eq (to_text (c ∷ p)) "tcp")) [
  | inl e ↦ rw e hb
  | inr e ↦ rw e (All-append (λ d. is_blank d ≡ false) base ("/" ∷ c ∷ p) hb (refl, hp))
]

parse_by_parts :
    (s : Chars)
    → s ≢ []
    → parse_stripped s
      ≡ (let (left, protocol) = split_protocol s in read_parts (split 58 left) protocol)
unfolding parse_stripped
parse_by_parts [] h = absurd (h refl)
parse_by_parts (c ∷ s) h = refl

parse_Free : (s : Chars) → Free is_blank s → parse_short_port_mapping s ≡ parse_stripped s
unfolding parse_short_port_mapping
parse_Free s h = ap parse_stripped (strip-Free is_blank s h)

render_lem :
    (host_ip : Option Chars) (a b : ℕ) (protocol : Chars)
    → render_short_port_mapping
        (record { host_ip = host_ip; host = pos a; container = pos b; protocol = protocol })
      ≡ with_protocol (front a b host_ip) protocol
unfolding render_short_port_mapping front numbers
render_lem host_ip a b protocol = refl

append-cons-ne-nil : (s t : Chars) (c : Char) → s ++ c ∷ t ≢ []
append-cons-ne-nil [] t c = λ e. cc
append-cons-ne-nil (d ∷ s) t c = λ e. cc

front-ne-nil : (a b : ℕ) (host_ip : Option Chars) → front a b host_ip ≢ []
unfolding front numbers with_ip
front-ne-nil a b none = append-cons-ne-nil (str_ℕ a) (str_ℕ b) _
front-ne-nil a b (some []) = append-cons-ne-nil (str_ℕ a) (str_ℕ b) _
front-ne-nil a b (some (c ∷ ip)) = λ e. cc

nil_split : split_protocol [] ≡ ([], chars "tcp")
unfolding split_protocol rsplit_once
nil_split = refl

split-ne-nil : (s base protocol : Chars) → split_protocol s ≡ (base, protocol) → base ≢ [] → s ≢ []
split-ne-nil s base protocol e h =
    λ z. h (sym (ap (λ (q : Chars × Chars). q.0) (sym nil_split ∙ ap split_protocol (sym z) ∙ e)))

-- A mapping is read back from its short form: with or without an address that has no colon, slash or
-- blank, and with a protocol that has no slash or blank.
pub parse-render_short_port_mapping :
    (host_ip : Option Chars) (a b : ℕ) (protocol : Chars)
    → IpIsPlain host_ip
    → IsPart protocol
    → Lacks 47 protocol
    → let m : ShortPort = record {
      host_ip = host_ip;
      host = pos a;
      container = pos b;
      protocol = protocol;
    } in
      parse_short_port_mapping (render_short_port_mapping m) ≡ some m
parse-render_short_port_mapping host_ip a b protocol hi hp hl =
    let base = front a b host_ip in
    let s = with_protocol base protocol in
    let back = protocol_back base protocol (front-Lacks a b host_ip hi) hp.0 hl in
    rw
      (
        render_lem,
        parse_Free s (with_protocol-Free base protocol (front-Free a b host_ip hi) hp.1),
        parse_by_parts s (split-ne-nil s base protocol back (front-ne-nil a b host_ip)),
        back,
      )
      (read_front a b host_ip protocol hi)
