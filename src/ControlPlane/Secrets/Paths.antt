-- ===== src/ControlPlane/Secrets/Paths.antt =====
-- The keys of hosts with different names do not get in each other's way.
use docker_interface.Prelude.{
  String, ◌≡◌, ◌≢◌, refl, sym, ap, ◌∙◌, Bool, true, [], ◌∷◌, Char, All, str_eq, eq_iff, Bool-cases,
  inl, inr,
}
use text.Mathlib.TextLemmas.{append_cancel_left, append_cancel_right}
use docker_interface.Py.Chars.{Chars, chars, to_text, chars-to_text, filter}
use docker_interface.Py.Dict.{Dict, string_eq, lookup-insert, lookup-insert_self}
use docker_interface.Py.Result.{ok, ok_injective}
use docker_interface.ControlPlane.Secrets.{
  is_path_safe, path_of, build_host_api_key_secret_path, put_secret, stored, get_secret,
}

filter-safe : (p : Char → Bool) (s : Chars) → All (λ c. p c ≡ true) s → filter p s ≡ s
unfolding filter
filter-safe p [] h = refl
filter-safe p (c ∷ s) h = rw h.0 (ap (◌∷◌ c) (filter-safe p s h.1))

path_of-injective :
    (a b : Chars) {path : String} → path_of a ≡ ok path → path_of b ≡ ok path → a ≡ b
path_of-injective [] b h k = cc
path_of-injective (c ∷ a) [] h k = cc
path_of-injective (c ∷ a) (d ∷ b) h k =
    let same = ok_injective (h ∙ sym k) in
    let inner = append_cancel_left "lab-hosts/" _ _ same in
    let texts = append_cancel_right (to_text (c ∷ a)) (to_text (d ∷ b)) _ inner in
    sym (chars-to_text (c ∷ a)) ∙ ap chars texts ∙ chars-to_text (d ∷ b)

-- Two hosts with different names that consist of letters, digits, hyphens and underscores: what is put at
-- the path of the one is got back there, and what the other has at its path stays.
pub put_secret-hosts :
    (a b : Chars) (path_a path_b value : String) (storage : Dict String String)
    → All (λ c. is_path_safe c ≡ true) a
    → All (λ c. is_path_safe c ≡ true) b
    → a ≢ b
    → build_host_api_key_secret_path a ≡ ok path_a
    → build_host_api_key_secret_path b ≡ ok path_b
    → (get_secret path_a (put_secret path_a value storage) ≡ ok value)
      × (get_secret path_b (put_secret path_a value storage) ≡ get_secret path_b storage)
unfolding build_host_api_key_secret_path put_secret get_secret
put_secret-hosts a b path_a path_b value storage safe_a safe_b different pa pb =
    let ea : path_of a ≡ ok path_a = ap path_of (sym (filter-safe is_path_safe a safe_a)) ∙ pa in
    let eb : path_of b ≡ ok path_b = ap path_of (sym (filter-safe is_path_safe b safe_b)) ∙ pb in
    (
      ap (stored path_a) (lookup-insert_self path_a value storage),
      elim (Bool-cases (str_eq path_a path_b)) [
        | inl same ↦
            let paths : path_a ≡ path_b = (eq_iff path_a path_b).0 same in
            absurd (different (path_of-injective a b ea (eb ∙ ap ok (sym paths))))
        | inr other ↦ ap (stored path_b) (lookup-insert path_a path_b value storage ∙ rw other refl)
      ],
    )
