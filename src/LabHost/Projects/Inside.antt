-- ===== src/LabHost/Projects/Inside.antt =====
-- A project's directory lies directly in the base directory.
use docker_interface.Prelude.{
  ◌≡◌, ◌≢◌, ◌↔◌, ◌⊎◌, refl, sym, ap, ◌∙◌, suc, ◌≤◌, Bool, true, false, not, ◌||◌, [], ◌∷◌, ◌++◌,
  Char, code, arith, str_eq, eq_iff, eq_refl, Bool-cases, inl, inr, All, length,
}
use docker_interface.Py.Chars.{Chars, chars, to_text, chars-to_text, filter}
use docker_interface.Py.Chars.Split.{Lacks}
use docker_interface.Py.Result.{ok, err}
use docker_interface.LabHost.Errors.{Try, value_error}
use docker_interface.LabHost.Projects.{is_safe, is_empty, safe_name, below, project_dir}

length-filter : (p : Char → Bool) (s : Chars) → length (filter p s) ≤ length s
unfolding filter
length-filter p [] = omega arith
length-filter p (c ∷ s) = ground (arith, length-filter p s)

-- Nothing was dropped, so every character passes the test.
filter-All :
    (p : Char → Bool) (s : Chars) → length s ≤ length (filter p s) → All (λ c. p c ≡ true) s
unfolding filter
filter-All p [] h = tt
filter-All p (c ∷ s) h = elim (Bool-cases (p c)) [
  | inl e ↦ (
    e,
    filter-All p s (let k : suc (length s) ≤ suc (length (filter p s)) = rw e at h in omega arith),
  )
  | inr e ↦ absurd (
      let k : suc (length s) ≤ length (filter p s) = rw e at h in
      let m = length-filter p s in omega arith)
]

text-eq : (s t : Chars) → str_eq (to_text s) (to_text t) ≡ true → s ≡ t
text-eq s t e =
    sym (chars-to_text s) ∙ ap chars ((eq_iff (to_text s) (to_text t)).0 e) ∙ chars-to_text t

-- What is refused, and that nothing was dropped otherwise.
abbrev refused : Chars → Bool
refused name = not (str_eq (to_text (safe_name name)) (to_text name)) || is_empty (safe_name name)

accepted :
    (name : Chars)
    → refused name ≡ false
    → (safe_name name ≡ name) × (is_empty (safe_name name) ≡ false)
accepted name h = (text-eq (safe_name name) name (ground arith), ground arith)

-- A letter or a digit of ASCII, a hyphen or an underscore; by their codes.
abbrev pub IsNameChar : Char → Type 0
IsNameChar c =
    ((48 ≤ code c) × (code c ≤ 57))
    ⊎ ((65 ≤ code c) × (code c ≤ 90))
    ⊎ ((97 ≤ code c) × (code c ≤ 122))
    ⊎ (code c ≡ 45)
    ⊎ (code c ≡ 95)

IsNameChar-is_safe : (c : Char) → is_safe c ≡ true ↔ IsNameChar c
IsNameChar-is_safe c = ground arith

All-IsNameChar : (s : Chars) → All (λ c. is_safe c ≡ true) s → All IsNameChar s
All-IsNameChar [] h = tt
All-IsNameChar (c ∷ s) h = ((IsNameChar-is_safe c).0 h.0, All-IsNameChar s h.1)

filter-IsNameChar : (s : Chars) → All IsNameChar s → filter is_safe s ≡ s
unfolding filter
filter-IsNameChar [] h = refl
filter-IsNameChar (c ∷ s) h =
    rw ((IsNameChar-is_safe c).1 h.0) (ap (λ r. c ∷ r) (filter-IsNameChar s h.1))

-- No such character is a slash or a dot.
plain : (s : Chars) → All IsNameChar s → Lacks 47 s × Lacks 46 s
plain [] h = (tt, tt)
plain (c ∷ s) h = let (a, b) = plain s h.1 in let k = h.0 in ((ground arith, a), (ground arith, b))

accepted_dir :
    (base name : Chars) {path : Chars}
    → project_dir base name ≡ ok path
    → (path ≡ below base name) × (is_empty name ≡ false) × All (λ c. is_safe c ≡ true) name
unfolding project_dir safe_name
accepted_dir base name {path} h = elim (Bool-cases (refused name)) [
  | inl e ↦ absurd (
      let x : err (value_error "Invalid project_name. Use only letters, numbers, '-' and '_'.")
          ≡ ok path =
        rw e at h in
      cc)
  | inr e ↦
      let (same, full) = accepted name e in
      let x : ◌≡◌ {A = Try Chars} (ok (below base (safe_name name))) (ok path) = rw e at h in
      let y : below base (safe_name name) ≡ path = ground arith in
      (
        sym y ∙ ap (below base) same,
        sym (ap is_empty same) ∙ full,
        filter-All is_safe name
            (let n : length (filter is_safe name) ≡ length name = ap length same in omega arith),
      )
]

plain_name_accepted :
    (base name : Chars)
    → name ≢ []
    → All IsNameChar name
    → project_dir base name ≡ ok (base ++ (chars "/" ++ name))
unfolding project_dir safe_name
plain_name_accepted base [] full h = absurd (full refl)
plain_name_accepted base (c ∷ name) full h = rw (filter-IsNameChar (c ∷ name) h, eq_refl) refl

full_name : (name : Chars) → is_empty name ≡ false → name ≢ []
full_name name e = λ n. let x : true ≡ false = ap is_empty (sym n) ∙ e in cc

-- A project name that is accepted is not empty and has letters, digits, hyphens and underscores alone, thus
-- no slash and no dot, and its directory is that name directly below the base directory. Every such name is
-- accepted.
pub project_dir-below :
    (base name : Chars)
    → ((path : Chars)
        → project_dir base name ≡ ok path
        → (path ≡ base ++ (chars "/" ++ name))
          × (name ≢ [])
          × All IsNameChar name
          × Lacks 47 name
          × Lacks 46 name)
      × (name ≢ [] → All IsNameChar name → project_dir base name ≡ ok (base ++ (chars "/" ++ name)))
project_dir-below base name = (
  λ path h.
      let (e, full, safe) = accepted_dir base name h in
      let chars_ok = All-IsNameChar name safe in
      let (a, b) = plain name chars_ok in (e, full_name name full, chars_ok, a, b),
  plain_name_accepted base name,
)
