-- ===== src/Py/Chars.antt =====
-- Python's `str` methods that the source uses, over the code points of a text. The methods are
-- modelled on ASCII: a code point above 127 is no letter, no digit and no blank.
pub mod Digits
pub mod Split
use Prim.Native.Char.{char, IsScalar}
use mathlib.Core.Logic.{dite}
use native.Mathlib.Decide.{dec_lt}
use docker_interface.Prelude.{
  ℕ, zero, suc, ◌+◌, ◌-◌, ◌*◌, ◌/◌, ◌%◌, ◌<◌, ◌≤◌, Char, code, String, ◌≡◌, ◌≢◌, ◌⊎◌, ◌↔◌, inl, inr,
  refl, sym, ap, ◌∙◌, Bool, true, false, ◌&&◌, ◌||◌, not, List, [], ◌∷◌, ◌++◌, map, arith, ltb, leb,
  ◌==◌, if◌then◌else◌, all, any, All, sum, length, get_elem?, Option, none, some, is_some, get_or,
  Bool-cases, Option-cases, str_eq, eq_iff, eq_refl, length-append, length-map, All-append,
}

abbrev pub Chars : Type 0
Chars = List Char

unfoldable pub chars : String → Chars
chars String.[] = []
chars (String.◌∷◌ c s) = c ∷ chars s

unfoldable pub to_text : Chars → String
to_text [] = String.[]
to_text (c ∷ s) = String.◌∷◌ c (to_text s)

pub chars-to_text : (s : Chars) → chars (to_text s) ≡ s
unfolding chars to_text
chars-to_text [] = refl
chars-to_text (c ∷ s) = ap (◌∷◌ c) (chars-to_text s)

pub to_text-chars : (s : String) → to_text (chars s) ≡ s
unfolding chars to_text
to_text-chars String.[] = refl
to_text-chars (String.◌∷◌ c s) = ap (String.◌∷◌ c) (to_text-chars s)

IsScalar_of_lt : (n : ℕ) → n < 55296 → IsScalar n
IsScalar_of_lt n h = ground arith

-- The character of a small code point.
unfoldable pub chr : (n : ℕ) → n < 55296 → Char
unfolding IsScalar_of_lt
chr n h = char n (IsScalar_of_lt n h)

pub code-chr : (n : ℕ) (h : n < 55296) → code (chr n h) ≡ n
unfolding chr
code-chr n h = refl

abbrev pub is_digit : Char → Bool
is_digit c = leb 48 (code c) && leb (code c) 57

abbrev pub is_lower : Char → Bool
is_lower c = leb 97 (code c) && leb (code c) 122

abbrev pub is_upper : Char → Bool
is_upper c = leb 65 (code c) && leb (code c) 90

abbrev pub is_alnum : Char → Bool
is_alnum c = is_digit c || is_lower c || is_upper c

abbrev pub is_blank : Char → Bool
is_blank c =
    code c == 32 || (leb 9 (code c) && leb (code c) 13) || (leb 28 (code c) && leb (code c) 31)

unfoldable pub lower_char : Char → Char
unfolding chr dec_lt
lower_char c =
    dite (dec_lt (code c) 91) (λ h. if leb 65 (code c) then chr (code c + 32) (omega arith) else c)
      (λ _. c)

-- `s.lower()`
unfoldable pub lower : Chars → Chars
unfolding lower_char
lower = map lower_char

-- `s.lstrip(…)`, `s.rstrip(…)` and `s.strip(…)` for a set of characters.
module _ (p : Char → Bool) where
  unfoldable pub lstrip : Chars → Chars
  lstrip [] = []
  lstrip (c ∷ s) = if p c then lstrip s else c ∷ s

  unfoldable pub rstrip : Chars → Chars
  rstrip [] = []
  rstrip (c ∷ s) =
      let rest = rstrip s in elim rest [ [] ↦ if p c then [] else c ∷ [] | d ∷ r ↦ c ∷ d ∷ r ]

  unfoldable pub strip : Chars → Chars
  unfolding lstrip rstrip
  strip s = rstrip (lstrip s)

-- A text in which no character satisfies the test keeps its ends.
abbrev pub Free : (Char → Bool) → Chars → Type 0
Free p = All (λ c. p c ≡ false)

rstrip-Free : (p : Char → Bool) (s : Chars) → Free p s → rstrip p s ≡ s
unfolding rstrip
rstrip-Free p [] h = refl
rstrip-Free p (c ∷ []) h = ground arith
rstrip-Free p (c ∷ d ∷ s) h = ground (arith, rstrip-Free p (d ∷ s) h.1)

pub strip-Free : (p : Char → Bool) (s : Chars) → Free p s → strip p s ≡ s
unfolding strip lstrip
strip-Free p [] h = rstrip-Free p [] h
strip-Free p (c ∷ s) h = ground (arith, rstrip-Free p (c ∷ s) h)

unfoldable pub filter : (Char → Bool) → Chars → Chars
filter p [] = []
filter p (c ∷ s) = let rest = filter p s in if p c then c ∷ rest else rest

shouted : to_text (lower (chars "Exited (0)")) ≡ "exited (0)"
unfolding to_text chars lower
shouted = refl

stripped : to_text (strip is_blank (chars "  a b ")) ≡ "a b"
unfolding to_text chars strip
stripped = refl
