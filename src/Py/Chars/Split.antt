-- ===== src/Py/Chars/Split.antt =====
-- `str.split` on one character, and `str.rsplit(…, 1)`.
use docker_interface.Prelude.{
  ℕ, Char, code, ◌≡◌, ◌≢◌, refl, List, [], ◌∷◌, ◌++◌, map, arith, ◌==◌, if◌then◌else◌, All, Option,
  none, some,
}
use docker_interface.Py.Chars.{Chars, chars, to_text}

-- No character of the text has the code `sep`.
abbrev pub Lacks : ℕ → Chars → Type 0
Lacks sep = All (λ c. code c ≢ sep)

module _ (sep : ℕ) where
  on_head : Char → List Chars → List Chars
  on_head c [] = (c ∷ []) ∷ []
  on_head c (p ∷ ps) = (c ∷ p) ∷ ps

  -- `s.split(sep)`
  unfoldable pub split : Chars → List Chars
  unfolding on_head
  split [] = [] ∷ []
  split (c ∷ s) = let rest = split s in if code c == sep then [] ∷ rest else on_head c rest

  pub split-Lacks : (s : Chars) → Lacks sep s → split s ≡ s ∷ []
  unfolding split
  split-Lacks [] h = refl
  split-Lacks (c ∷ s) h = ground (arith, split-Lacks s h.1)

  pub split-append :
      (p s : Chars) (c : Char) → Lacks sep p → code c ≡ sep → split (p ++ c ∷ s) ≡ p ∷ split s
  unfolding split
  split-append [] s c h e = ground arith
  split-append (d ∷ p) s c h e = ground (arith, split-append p s c h.1)

  -- `s.rsplit(sep, 1)`: the parts around the last separator, if there is one.
  unfoldable pub rsplit_once : Chars → Option (Chars × Chars)
  rsplit_once [] = none
  rsplit_once (c ∷ s) =
      let rest = rsplit_once s in
      elim rest [
        | some (l, r) ↦ some (c ∷ l, r)
        | none ↦ if code c == sep then some ([], s) else none
      ]

  pub rsplit-Lacks : (s : Chars) → Lacks sep s → rsplit_once s ≡ none
  unfolding rsplit_once
  rsplit-Lacks [] h = refl
  rsplit-Lacks (c ∷ s) h = ground (arith, rsplit-Lacks s h.1)

  pub rsplit-append :
      (p s : Chars) (c : Char) → Lacks sep s → code c ≡ sep → rsplit_once (p ++ c ∷ s) ≡ some (p, s)
  unfolding rsplit_once
  rsplit-append [] s c h e = ground (arith, rsplit-Lacks s h)
  rsplit-append (d ∷ p) s c h e = ground (arith, rsplit-append p s c h e)

parts : map to_text (split 58 (chars "127.0.0.1:80:8080")) ≡ "127.0.0.1" ∷ "80" ∷ "8080" ∷ []
unfolding to_text chars split
parts = refl
