-- ===== src/LabHost/Containers/Published.antt =====
-- Which host port Docker is asked to publish for a port of a container.
use docker_interface.Prelude.{
  ℕ, suc, Char, code, ◌++◌, eq_refl, Bool, true, false, ◌&&◌, eq_iff, arith, String, ◌≡◌, refl, sym,
  ap, ◌∙◌, List, [], ◌∷◌, Option, none, some, get_or, str_eq, if◌then◌else◌, Bool-cases, inl, inr,
}
use docker_interface.Prelude.Int.{ℤ, pos, negsuc, eqb_ℤ, eqb_ℤ_iff}
use docker_interface.Py.Chars.{Chars, chr, code-chr, to_text-chars, chars, to_text, chars-to_text}
use docker_interface.Py.Chars.Digits.{
  isdigit, int_of, str_ℕ, str_ℤ, str_ℕ-IsDigits, isdigit-str_ℕ, int_of-str_ℕ,
}
use docker_interface.Py.Chars.Split.{Lacks}
use docker_interface.Py.Result.{format}
use text.Mathlib.TextLemmas.{nil-append, cons-append}
use mathlib.Core.List.{append-nil}
use Prim.Native.String.{◌++◌ as append}
use docker_interface.LabHost.ShortPort.RoundTrip.{digits_lack}
use docker_interface.Py.Dict.{Dict, string_eq, lookup, insert, lookup-insert}
use docker_interface.LabHost.Ports.{PortMapping}
use docker_interface.LabHost.Containers.{port_key, add_ports, build_ports}

abbrev otherwise : Option ℤ → Option ℤ → Option ℤ
otherwise none rest = rest
otherwise (some host) rest = some host

-- Docker's name of a container port: `80/tcp`.
abbrev pub docker_port : ℤ → String → String
docker_port container protocol = format (to_text (str_ℤ container) ∷ "/" ∷ protocol ∷ [])

-- The host port of the last mapping for a container port and protocol.
abbrev pub last_host : ℤ → String → List PortMapping → Option ℤ
last_host container protocol [] = none
last_host container protocol (p ∷ ps) =
    otherwise (last_host container protocol ps)
      (if eqb_ℤ p.container container && str_eq p.protocol protocol then some p.host else none)

not_digits : (n : ℕ) → isdigit (str_ℤ (negsuc n)) ≡ false
unfolding str_ℤ chars isdigit
not_digits n = refl

str_ℤ_injective : (a b : ℤ) → str_ℤ a ≡ str_ℤ b → a ≡ b
unfolding str_ℤ chars
str_ℤ_injective (pos m) (pos n) h = ap pos (sym (int_of-str_ℕ m) ∙ ap int_of h ∙ int_of-str_ℕ n)
str_ℤ_injective (negsuc m) (negsuc n) h =
    let e : str_ℕ (suc m) ≡ str_ℕ (suc n) = cc in
    let k = sym (int_of-str_ℕ (suc m)) ∙ ap int_of e ∙ int_of-str_ℕ (suc n) in
    ap negsuc (omega arith)
str_ℤ_injective (pos m) (negsuc n) h =
    absurd (let x : true ≡ false = sym (isdigit-str_ℕ m) ∙ ap isdigit h ∙ not_digits n in cc)
str_ℤ_injective (negsuc m) (pos n) h =
    absurd (let x : true ≡ false = sym (isdigit-str_ℕ n) ∙ ap isdigit (sym h) ∙ not_digits m in cc)

chars-append : (s t : String) → chars (append s t) ≡ chars s ++ chars t
unfolding chars
chars-append String.[] t = ap chars (nil-append t)
chars-append (String.◌∷◌ c s) t = ap chars (cons-append c s t) ∙ ap (◌∷◌ c) (chars-append s t)

slash : Char
slash = chr 47 (omega arith)

slash_text : chars "/" ≡ slash ∷ []
unfolding chars slash chr
slash_text = refl

empty_text : chars "" ≡ []
unfolding chars
empty_text = refl

chars-docker_port :
    (container : ℤ) (protocol : String)
    → chars (docker_port container protocol) ≡ str_ℤ container ++ slash ∷ chars protocol
chars-docker_port container protocol =
    rw
      (
        chars-append (to_text (str_ℤ container)) (append "/" (append protocol "")),
        chars-to_text (str_ℤ container),
        chars-append "/" (append protocol ""),
        chars-append protocol "",
        slash_text,
        empty_text,
        append-nil (chars protocol),
      )
      refl

code-slash : code slash ≡ 47
unfolding slash
code-slash = code-chr 47 (omega arith)

str_ℤ-Lacks : (n : ℤ) → Lacks 47 (str_ℤ n)
unfolding str_ℤ chars
str_ℤ-Lacks (pos n) = digits_lack 47 (str_ℕ n) (inr refl) (str_ℕ-IsDigits n)
str_ℤ-Lacks (negsuc n) =
    (omega arith, digits_lack 47 (str_ℕ (suc n)) (inr refl) (str_ℕ-IsDigits (suc n)))

-- What stands before the first slash, and behind it.
cut :
    (s t u v : Chars)
    → Lacks 47 s
    → Lacks 47 t
    → s ++ slash ∷ u ≡ t ++ slash ∷ v
    → (s ≡ t) × (u ≡ v)
cut [] [] u v h k e = (refl, cc)
cut (x ∷ s) [] u v h k e = absurd (h.0 (let same : x ≡ slash = cc in ap code same ∙ code-slash))
cut [] (y ∷ t) u v h k e =
    absurd (k.0 (let same : slash ≡ y = cc in ap code (sym same) ∙ code-slash))
cut (x ∷ s) (y ∷ t) u v h k e =
    let head : x ≡ y = cc in
    let tail : s ++ slash ∷ u ≡ t ++ slash ∷ v = cc in
    let (first, second) = cut s t u v h.1 k.1 tail in
    (ap (λ w. x ∷ w) first ∙ ap (λ c. c ∷ t) head, second)

docker_port_injective :
    (a b : ℤ) (p q : String) → docker_port a p ≡ docker_port b q → (a ≡ b) × (p ≡ q)
docker_port_injective a b p q h =
    let x = sym (chars-docker_port a p) ∙ ap chars h ∙ chars-docker_port b q in
    let (first, second) =
      cut (str_ℤ a) (str_ℤ b) (chars p) (chars q) (str_ℤ-Lacks a) (str_ℤ-Lacks b) x in
    (str_ℤ_injective a b first, sym (to_text-chars p) ∙ ap to_text second ∙ to_text-chars q)

same_key :
    (p : PortMapping) (container : ℤ) (protocol : String)
    → str_eq (port_key p) (docker_port container protocol)
      ≡ (eqb_ℤ p.container container && str_eq p.protocol protocol)
unfolding port_key
same_key p container protocol =
    elim (Bool-cases
      (str_eq (docker_port p.container p.protocol) (docker_port container protocol))) [
        | inl e ↦
            let (a, b) =
              docker_port_injective p.container container p.protocol protocol ((eq_iff _ _).0 e) in
            rw e (rw (a, b) (sym (rw ((eqb_ℤ_iff container container).1 refl, eq_refl) refl)))
        | inr e ↦ elim (Bool-cases (eqb_ℤ p.container container && str_eq p.protocol protocol)) [
          | inr f ↦ e ∙ sym f
          | inl f ↦
              let a = (eqb_ℤ_iff p.container container).0 (ground arith) in
              let b = (eq_iff p.protocol protocol).0 (ground arith) in
              absurd (
                let x : str_eq (docker_port container protocol) (docker_port container protocol)
                    ≡ false =
                  rw (a, b) at e in
                let y =
                  (eq_iff (docker_port container protocol) (docker_port container protocol)).1
                    refl in
                cc)
        ]
      ]

otherwise_assoc : (a b c : Option ℤ) → otherwise (otherwise a b) c ≡ otherwise a (otherwise b c)
otherwise_assoc none b c = refl
otherwise_assoc (some x) b c = refl

lookup-add_ports :
    (container : ℤ) (protocol : String) (ps : List PortMapping) (d : Dict String ℤ)
    → lookup (docker_port container protocol) (add_ports d ps)
      ≡ otherwise (last_host container protocol ps) (lookup (docker_port container protocol) d)
lookup-add_ports container protocol [] d = refl
lookup-add_ports container protocol (p ∷ ps) d =
    let key = docker_port container protocol in
    let rest = last_host container protocol ps in
    let mine : Option ℤ =
      if eqb_ℤ p.container container && str_eq p.protocol protocol then some p.host else none in
    let here : lookup key (insert (port_key p) p.host d) ≡ otherwise mine (lookup key d) =
      lookup-insert (port_key p) key p.host d
      ∙ ap (λ (b : Bool). if b then some p.host else lookup key d) (same_key p container protocol)
      ∙ elim (Bool-cases (eqb_ℤ p.container container && str_eq p.protocol protocol)) [
        | inl e ↦ rw e refl
        | inr e ↦ rw e refl
      ] in
    lookup-add_ports container protocol ps (insert (port_key p) p.host d)
    ∙ ap (otherwise rest) here
    ∙ sym (otherwise_assoc rest mine (lookup key d))

otherwise-none : (a : Option ℤ) → otherwise a none ≡ a
otherwise-none none = refl
otherwise-none (some x) = refl

-- For every container port and protocol, Docker is asked, under its own name of that port, for the host port
-- of the last mapping that has this number and this protocol, and for none where no mapping has.
pub build_ports-last :
    (ports : Option (List PortMapping)) (container : ℤ) (protocol : String)
    → lookup (docker_port container protocol) (get_or (build_ports ports) [])
      ≡ last_host container protocol (get_or ports [])
unfolding build_ports lookup
build_ports-last none container protocol = refl
build_ports-last (some []) container protocol = refl
build_ports-last (some (p ∷ ps)) container protocol =
    lookup-add_ports container protocol (p ∷ ps) []
    ∙ otherwise-none (last_host container protocol (p ∷ ps))
