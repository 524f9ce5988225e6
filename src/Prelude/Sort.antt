-- ===== src/Prelude/Sort.antt =====
-- Python's `list.sort` with a key, which is stable, and its least element.
use docker_interface.Prelude.Tests.{if◌then◌else◌, Bool-cases}
use docker_interface.Prelude.Lists.{Elem}
use mathlib.Core.Path.{◌≡◌, refl}
use mathlib.Core.Logic.{◌↔◌, ◌⊎◌, inl, inr}
use mathlib.Core.Bool.{Bool, true, false}
use mathlib.Core.List.{List, [], ◌∷◌}
use native.Mathlib.Omega.{arith}

module _ {A : Type 0} (lt : A → A → Bool) where
  abbrev pub insert_by : A → List A → List A
  insert_by x [] = x ∷ []
  insert_by x (y ∷ ys) = let rest = insert_by x ys in if lt y x then y ∷ rest else x ∷ y ∷ ys

  -- `lt` compares the keys.
  abbrev pub sort_by : List A → List A
  sort_by [] = []
  sort_by (x ∷ xs) = insert_by x (sort_by xs)

  insert_by-Elem : (x z : A) (ys : List A) → Elem z (insert_by x ys) ↔ ((z ≡ x) ⊎ Elem z ys)
  insert_by-Elem x z [] = ground arith
  insert_by-Elem x z (y ∷ ys) = elim (Bool-cases (lt y x)) [
    | inl e ↦ rw e (let ih = insert_by-Elem x z ys in ground (arith, ih))
    | inr e ↦ rw e (ground arith)
  ]

  pub sort_by-Elem : (z : A) (xs : List A) → Elem z (sort_by xs) ↔ Elem z xs
  sort_by-Elem z [] = ground arith
  sort_by-Elem z (x ∷ xs) =
      let ih = sort_by-Elem z xs in
      let here = insert_by-Elem x z (sort_by xs) in ground (arith, ih, here)

  -- A strict order in which what is not below is transitive.
  pub record IsOrder : Type 0 where
    pub asym : (x y : A) → lt x y ≡ true → lt y x ≡ false
    pub negatively : (x y z : A) → lt x y ≡ false → lt y z ≡ false → lt x z ≡ false

  -- Nothing in the list is below its head.
  abbrev LeastHead : List A → Type 0
  LeastHead [] = Unit {0}
  LeastHead (x ∷ xs) = (y : A) → Elem y xs → lt y x ≡ false

  insert_by-LeastHead : IsOrder → (x : A) (ys : List A) → LeastHead ys → LeastHead (insert_by x ys)
  insert_by-LeastHead order x [] h = λ y m. absurd m
  insert_by-LeastHead order x (y ∷ ys) h = elim (Bool-cases (lt y x)) [
    | inl e ↦ rw e (λ z m. elim ((insert_by-Elem x z ys).0 m) [
      | inl same ↦ rw same (order.asym y x e)
      | inr below ↦ h z below
    ])
    | inr e ↦
        rw e (λ z m. elim m [
          | inl same ↦ rw same e
          | inr below ↦ order.negatively z y x (h z below) e
        ])
  ]

  sort_by-LeastHead : IsOrder → (xs : List A) → LeastHead (sort_by xs)
  sort_by-LeastHead order [] = tt
  sort_by-LeastHead order (x ∷ xs) =
      insert_by-LeastHead order x (sort_by xs) (sort_by-LeastHead order xs)

  irreflexive : IsOrder → (x : A) → lt x x ≡ false
  irreflexive order x = elim (Bool-cases (lt x x)) [ inl e ↦ order.asym x x e | inr e ↦ e ]

  -- The head of a sorted list is an element that none is below.
  pub sort_by-least :
      IsOrder
      → (xs : List A) {x : A} {rest : List A} → sort_by xs ≡ x ∷ rest
      → Elem x xs × ((y : A) → Elem y xs → lt y x ≡ false)
  sort_by-least order xs {x} {rest} h =
      let least : LeastHead (x ∷ rest) = rw h at (sort_by-LeastHead order xs) in
      let in_sorted : Elem x (sort_by xs) = rw h (inl refl) in
      (
        (sort_by-Elem x xs).0 in_sorted,
        λ y m.
            let m' : Elem y (x ∷ rest) = rw h at ((sort_by-Elem y xs).1 m) in
            elim m' [ inl same ↦ rw same (irreflexive order x) | inr below ↦ least y below ],
      )

  pub sort_by-empty : (xs : List A) → sort_by xs ≡ [] → xs ≡ []
  sort_by-empty [] h = refl
  sort_by-empty (x ∷ xs) h =
      let m : Elem x [] = rw h at ((sort_by-Elem x (x ∷ xs)).1 (inl refl)) in absurd m

pub List-cases :
    {A : Type 0} (xs : List A) → (xs ≡ []) ⊎ ((x : A) × (rest : List A) × (xs ≡ x ∷ rest))
List-cases [] = inl refl
List-cases (x ∷ xs) = inr (x, xs, refl)
