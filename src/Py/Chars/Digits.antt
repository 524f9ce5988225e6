-- ===== src/Py/Chars/Digits.antt =====
-- `str.isdigit`, `int` of a text of digits, and `str` of a natural number.
use docker_interface.Prelude.{
  ℕ, zero, suc, ◌+◌, ◌-◌, ◌*◌, ◌/◌, ◌%◌, ◌<◌, Char, code, ◌≡◌, ◌≢◌, inl, inr, refl, ap, ◌∙◌, Bool,
  true, false, [], ◌∷◌, arith, ltb, if◌then◌else◌, all, Bool-cases,
}
use docker_interface.Prelude.{◌++◌}
use docker_interface.Prelude.Int.{ℤ, pos, negsuc}
use docker_interface.Py.Chars.{chars, Chars, to_text, chr, code-chr, is_digit}

-- `s.isdigit()`
unfoldable pub isdigit : Chars → Bool
isdigit [] = false
isdigit (c ∷ s) = all is_digit (c ∷ s)

unfoldable pub int_from : ℕ → Chars → ℕ
int_from n [] = n
int_from n (c ∷ s) = int_from (n * 10 + (code c - 48)) s

-- `int(s)` of a text of digits.
unfoldable pub int_of : Chars → ℕ
unfolding int_from
int_of = int_from 0

digit_lt : (d : ℕ) → 48 + d % 10 < 55296
digit_lt d = omega arith

digit : ℕ → Char
unfolding chr digit_lt
digit d = chr (48 + d % 10) (digit_lt d)

code-digit : (d : ℕ) → code (digit d) ≡ 48 + d % 10
unfolding digit
code-digit d = code-chr (48 + d % 10) (digit_lt d)

digits_loop : ℕ → ℕ → Chars → Chars
unfolding digit
digits_loop zero n acc = acc
digits_loop (suc f) n acc =
    let rest = digits_loop f (n / 10) (digit n ∷ acc) in if ltb n 10 then digit n ∷ acc else rest

-- `str(n)`
unfoldable pub str_ℕ : ℕ → Chars
unfolding digits_loop
str_ℕ n = digits_loop (suc n) n []

-- `str(n)` of an integer.
unfoldable pub str_ℤ : ℤ → Chars
unfolding str_ℕ chars
str_ℤ (pos n) = str_ℕ n
str_ℤ (negsuc n) = chars "-" ++ str_ℕ (suc n)

pub str_ℤ-pos : (n : ℕ) → str_ℤ (pos n) ≡ str_ℕ n
unfolding str_ℤ
str_ℤ-pos n = refl

digit_value : (m n : ℕ) (s : Chars) → int_from m (digit n ∷ s) ≡ int_from (m * 10 + n % 10) s
unfolding int_from
digit_value m n s = rw (code-digit n) (ap (λ k. int_from k s) (omega arith))

int-digits : (f n : ℕ) (acc : Chars) → n < f → int_from 0 (digits_loop f n acc) ≡ int_from n acc
unfolding digits_loop
int-digits zero n acc h = elim h [ ]
int-digits (suc f) n acc h = elim (Bool-cases (ltb n 10)) [
  | inl e ↦ rw e (digit_value 0 n acc ∙ ap (λ k. int_from k acc) (ground arith))
  | inr e ↦ rw e (
      int-digits f (n / 10) (digit n ∷ acc) (ground arith)
      ∙ digit_value (n / 10) n acc
      ∙ ap (λ k. int_from k acc) (omega arith))
]

-- A printed number is read back.
pub int_of-str_ℕ : (n : ℕ) → int_of (str_ℕ n) ≡ n
unfolding int_of str_ℕ
int_of-str_ℕ n = int-digits (suc n) n [] (omega arith)

abbrev pub IsDigits : Chars → Type 0
IsDigits s = all is_digit s ≡ true

is_digit-digit : (n : ℕ) → is_digit (digit n) ≡ true
is_digit-digit n = ground (arith, code-digit n)

digits_loop-IsDigits : (f n : ℕ) (acc : Chars) → IsDigits acc → IsDigits (digits_loop f n acc)
unfolding digits_loop
digits_loop-IsDigits zero n acc h = h
digits_loop-IsDigits (suc f) n acc h =
    ground (arith, is_digit-digit n, digits_loop-IsDigits f (n / 10) (digit n ∷ acc))

digits-ne-nil : (f n : ℕ) (c : Char) (acc : Chars) → digits_loop f n (c ∷ acc) ≢ []
unfolding digits_loop
digits-ne-nil zero n c acc = λ e. cc
digits-ne-nil (suc f) n c acc = ground (arith, digits-ne-nil f (n / 10) (digit n) (c ∷ acc))

isdigit_of : (s : Chars) → s ≢ [] → IsDigits s → isdigit s ≡ true
unfolding isdigit
isdigit_of [] h d = absurd (h refl)
isdigit_of (c ∷ s) h d = d

str_ℕ-ne-nil : (n : ℕ) → str_ℕ n ≢ []
unfolding str_ℕ digits_loop
str_ℕ-ne-nil n = ground (arith, digits-ne-nil n (n / 10) (digit n) [])

pub str_ℕ-IsDigits : (n : ℕ) → IsDigits (str_ℕ n)
unfolding str_ℕ
str_ℕ-IsDigits n = digits_loop-IsDigits (suc n) n [] refl

pub isdigit-str_ℕ : (n : ℕ) → isdigit (str_ℕ n) ≡ true
isdigit-str_ℕ n = isdigit_of (str_ℕ n) (str_ℕ-ne-nil n) (str_ℕ-IsDigits n)

printed : to_text (str_ℕ 65535) ≡ "65535"
unfolding to_text str_ℕ
printed = refl
