-- ===== src/Py/Float.antt =====
-- Python's `float`, as far as the source uses it: a parameter of what computes with it.
use docker_interface.Prelude.{
  ℕ, Bool, List, [], ◌∷◌, Option, some, ◌*◌, ◌+◌, ◌/◌, ◌≡◌, true, false, not, ◌&&◌, arith,
}
use docker_interface.Prelude.Int.{ℤ, pos, negsuc, pos_part, ◌+ℤ◌, ◌-ℤ◌, ltb_ℤ, leb_ℤ, eqb_ℤ}
use docker_interface.Py.Chars.{Chars}
use docker_interface.Py.Chars.Digits.{int_of}

pub record Float : Type 1 where
  pub F : Type 0
  -- `float(text)` of a decimal number, `float(n)`
  pub of_text : Chars → F
  pub of_int : ℤ → F
  -- between a float and its 64 bits
  pub of_bits : ℕ → F
  pub to_bits : F → ℕ
  pub add : F → F → F
  -- `sum(xs)`
  pub sum : List F → F
  pub sub : F → F → F
  -- `x / y`, for `y` other than 0
  pub div : F → F → F
  -- `x * n` for an integer `n`
  pub times : F → ℕ → F
  pub lt : F → F → Bool
  pub le : F → F → Bool
  pub eq : F → F → Bool
  -- `int(x)`: `none` where it raises, at an infinity or NaN
  pub trunc : F → Option ℤ

-- Whole numbers, for tests: `float` of a text keeps the digits in front of the point.
abbrev scale : ℤ → ℕ → ℤ
scale (pos a) n = pos (a * n)
scale (negsuc a) n = pos 0 -ℤ pos ((a + 1) * n)

abbrev quotient : ℤ → ℤ → ℤ
quotient (pos a) (pos b) = pos (a / b)
quotient _ _ = pos 0

abbrev sum_ℤ : List ℤ → ℤ
sum_ℤ [] = pos 0
sum_ℤ (x ∷ xs) = x +ℤ sum_ℤ xs

abbrev pub whole : Float
whole = record {
  F = ℤ;
  of_text = λ s. pos (int_of s);
  of_int = λ n. n;
  of_bits = λ n. pos n;
  to_bits = pos_part;
  add = ◌+ℤ◌;
  sum = sum_ℤ;
  sub = ◌-ℤ◌;
  div = λ x y. quotient x y;
  times = λ x n. scale x n;
  lt = ltb_ℤ;
  le = leb_ℤ;
  eq = eqb_ℤ;
  trunc = some;
}

-- The order of the floats that are not NaN.
pub record IsOrdered (fl : Float) : Type 0 where
  pub asym : (x y : fl.F) → fl.lt x y ≡ true → fl.lt y x ≡ false
  pub negatively : (x y z : fl.F) → fl.lt x y ≡ false → fl.lt y z ≡ false → fl.lt x z ≡ false
  pub equal : (x y : fl.F) → fl.eq x y ≡ (not (fl.lt x y) && not (fl.lt y x))

pub whole-IsOrdered : IsOrdered whole
whole-IsOrdered = record {
  asym = λ x y h. ground arith;
  negatively = λ x y z h k. ground arith;
  equal = λ x y. ground arith;
}
