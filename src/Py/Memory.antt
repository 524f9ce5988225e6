-- ===== src/Py/Memory.antt =====
-- The memory limit syntax that both services share: `_MEMORY_PATTERN` and `_MEMORY_MULTIPLIERS` of
-- lab_host/docker_interface.py and control_plane/controller_helpers.py. Each class of characters of the
-- pattern excludes the one behind it, so the match needs no backtracking.
use docker_interface.Prelude.{
  ℕ, Char, code, String, ◌≡◌, refl, Bool, ◌||◌, [], ◌∷◌, ◌++◌, ◌==◌, if◌then◌else◌, Option, none,
  some,
}
use docker_interface.Prelude.{◌^◌}
use docker_interface.Py.Chars.{
  Chars, chars, to_text, lstrip, lower, is_digit, is_lower, is_upper, is_blank,
}
use docker_interface.Py.Dict.{Dict, string_eq, lookup}

-- The longest prefix whose characters satisfy the test, and the rest.
unfoldable pub span : (Char → Bool) → Chars → Chars × Chars
span p [] = ([], [])
span p (c ∷ s) = let (l, r) = span p s in if p c then (c ∷ l, r) else ([], c ∷ s)

abbrev is_letter : Char → Bool
is_letter c = is_lower c || is_upper c

-- `(?:\.\d+)?` in front of a rest
unfoldable pub fraction : Chars → Chars × Chars
unfolding span
fraction [] = ([], [])
fraction (c ∷ s) =
    let (ds, rest) = span is_digit s in
    if code c == 46 then elim ds [ [] ↦ ([], c ∷ s) | d ∷ r ↦ (c ∷ d ∷ r, rest) ] else ([], c ∷ s)

-- `\s*([a-zA-Z]*)\s*$`
unfoldable pub unit_part : Chars → Option Chars
unfolding span lstrip
unit_part s =
    let (letters, rest) = span is_letter (lstrip is_blank s) in
    elim (lstrip is_blank rest) [ [] ↦ some letters | c ∷ r ↦ none ]

-- `_MEMORY_PATTERN.match(s)`: the number and the unit.
unfoldable pub match_memory : Chars → Option (Chars × Chars)
unfolding fraction unit_part
match_memory s =
    let (whole, rest) = span is_digit (lstrip is_blank s) in
    elim whole [
      | [] ↦ none
      | d ∷ ds ↦
          let (frac, tail) = fraction rest in
          elim (unit_part tail) [ none ↦ none | some u ↦ some ((d ∷ ds) ++ frac, u) ]
    ]

abbrev kib : ℕ
kib = 1024

abbrev pub mib : ℕ
mib = 1024 ^ 2

abbrev gib : ℕ
gib = 1024 ^ 3

abbrev tib : ℕ
tib = 1024 ^ 4

abbrev memory_multipliers : Dict String ℕ
memory_multipliers =
    ("", 1)
    ∷ ("b", 1)
    ∷ ("k", kib)
    ∷ ("kb", kib)
    ∷ ("ki", kib)
    ∷ ("kib", kib)
    ∷ ("m", mib)
    ∷ ("mb", mib)
    ∷ ("mi", mib)
    ∷ ("mib", mib)
    ∷ ("g", gib)
    ∷ ("gb", gib)
    ∷ ("gi", gib)
    ∷ ("gib", gib)
    ∷ ("t", tib)
    ∷ ("tb", tib)
    ∷ ("ti", tib)
    ∷ ("tib", tib)
    ∷ []

-- `_MEMORY_MULTIPLIERS.get(unit_raw.lower())`
unfoldable pub multiplier : Chars → Option ℕ
unfolding lookup lower to_text
multiplier unit = lookup (to_text (lower unit)) memory_multipliers

matched : Option (Chars × Chars) → Option (String × String × Option ℕ)
unfolding to_text multiplier
matched none = none
matched (some (n, u)) = some (to_text n, to_text u, multiplier u)

half_a_gib : matched (match_memory (chars " 0.5 GiB ")) ≡ some ("0.5", "GiB", some (1024 ^ 3))
unfolding matched match_memory chars
half_a_gib = refl

no_fraction : matched (match_memory (chars "1.m")) ≡ none
unfolding matched match_memory chars
no_fraction = refl

no_unit : matched (match_memory (chars "1 xb")) ≡ some ("1", "xb", none)
unfolding matched match_memory chars
no_unit = refl
