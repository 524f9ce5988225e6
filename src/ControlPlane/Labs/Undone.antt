-- ===== src/ControlPlane/Labs/Undone.antt =====
-- What removing the row of a new lab leaves.
use docker_interface.Prelude.{
  ◌≡◌, refl, sym, ap, Bool, true, false, not, List, [], ◌∷◌, ◌++◌, all, arith,
}
use docker_interface.Prelude.Int.{ℤ, eqb_ℤ, eqb_ℤ_iff}
use docker_interface.Py.Float.{Float}
use docker_interface.ControlPlane.Rows.{Network, Lab}
use docker_interface.ControlPlane.Session.{Session, Outside, select}
use docker_interface.ControlPlane.Labs.{delete_lab_row}
use docker_interface.ControlPlane.Labs.Create.{insert_lab, insert_network, put_lab}

-- No row is of the lab id, or refers to it.
pub record IsUnused (id : ℤ) (s : Session) : Type 0 where
  pub labs : all (λ l. not (eqb_ℤ l.id id)) s.labs ≡ true
  pub containers : all (λ c. not (eqb_ℤ c.lab_id id)) s.containers ≡ true
  pub projects : all (λ p. not (eqb_ℤ p.lab_id id)) s.projects ≡ true
  pub networks : all (λ n. not (eqb_ℤ n.lab_id id)) s.networks ≡ true

select-all : {A : Type 0} (p : A → Bool) (xs : List A) → all p xs ≡ true → select p xs ≡ xs
select-all p [] h = refl
select-all p (x ∷ xs) h =
    let here : p x ≡ true = ground arith in
    let rest : all p xs ≡ true = ground arith in rw here (ap (◌∷◌ x) (select-all p xs rest))

select-last :
    {A : Type 0} (p : A → Bool) (xs : List A) (x : A)
    → all p xs ≡ true
    → p x ≡ false
    → select p (xs ++ x ∷ []) ≡ xs
select-last p [] x h k = rw k refl
select-last p (y ∷ ys) x h k =
    let here : p y ≡ true = ground arith in
    let rest : all p ys ≡ true = ground arith in rw here (ap (◌∷◌ y) (select-last p ys x rest k))

not_self : (id : ℤ) → not (eqb_ℤ id id) ≡ false
not_self id = let e : eqb_ℤ id id ≡ true = (eqb_ℤ_iff id id).1 refl in rw e refl

module _ (fl : Float) (new_id : List ℤ → ℤ) (outside : Outside) (base : Session) (lab : Lab)
    (unused : IsUnused lab.id base) where
  abbrev pub started : Session
  started = insert_lab fl new_id outside lab base

  -- Without the row of the lab the start is left.
  pub undone_lab : delete_lab_row lab.id started ≡ base
  undone_lab =
      rw
        (
          select-last (λ l. not (eqb_ℤ l.id lab.id)) base.labs lab unused.labs (not_self lab.id),
          select-all (λ c. not (eqb_ℤ c.lab_id lab.id)) base.containers unused.containers,
          select-all (λ p. not (eqb_ℤ p.lab_id lab.id)) base.projects unused.projects,
          select-all (λ n. not (eqb_ℤ n.lab_id lab.id)) base.networks unused.networks,
        )
        refl

  pub undone_network :
      (n : Network)
      → n.lab_id ≡ lab.id
      → delete_lab_row lab.id (insert_network fl new_id outside n started) ≡ base
  undone_network n of_lab =
      let gone : not (eqb_ℤ n.lab_id lab.id) ≡ false = rw of_lab (not_self lab.id) in
      rw
        (
          select-last (λ l. not (eqb_ℤ l.id lab.id)) base.labs lab unused.labs (not_self lab.id),
          select-all (λ c. not (eqb_ℤ c.lab_id lab.id)) base.containers unused.containers,
          select-all (λ p. not (eqb_ℤ p.lab_id lab.id)) base.projects unused.projects,
          select-last (λ n. not (eqb_ℤ n.lab_id lab.id)) base.networks n unused.networks gone,
        )
        refl

  pub put_lab-last :
      (updated : Lab) (labs : List Lab)
      → updated.id ≡ lab.id
      → all (λ l. not (eqb_ℤ l.id lab.id)) labs ≡ true
      → put_lab fl new_id outside updated (labs ++ lab ∷ []) ≡ labs ++ updated ∷ []
  put_lab-last updated [] same h =
      let e : eqb_ℤ lab.id updated.id ≡ true = (eqb_ℤ_iff lab.id updated.id).1 (sym same) in
      rw e refl
  put_lab-last updated (l ∷ ls) same h =
      let other : eqb_ℤ l.id lab.id ≡ false = ground arith in
      let other' : eqb_ℤ l.id updated.id ≡ false = rw same other in
      let rest : all (λ x. not (eqb_ℤ x.id lab.id)) ls ≡ true = ground arith in
      rw other' (ap (◌∷◌ l) (put_lab-last updated ls same rest))
