-- ===== src/ControlPlane/Labs/Triples.antt =====
-- What holds after a step that returns, and after one that raises.
use docker_interface.Prelude.{◌≡◌, refl}
use docker_interface.Py.Result.{Result, ok, err, ok_injective}
use docker_interface.ControlPlane.Session.{HttpError, Session, Step, continue, ◌>>=◌, return, read}
use docker_interface.ControlPlane.Reconcile.Invariant.{Keeps}
use docker_interface.ControlPlane.Labs.{write, check}
use docker_interface.ControlPlane.Labs.Steps.{SameRows}

abbrev pub After :
    {A : Type 0}
    → (A → Session → Type 0)
    → (HttpError → Session → Type 0)
    → Result HttpError A × Session
    → Type 0
After Q E (ok a, s) = Q a s
After Q E (err e, s) = E e s

pub After-ok :
    {A : Type 0} (Q : A → Session → Type 0) (E : HttpError → Session → Type 0)
    (r : Result HttpError A × Session) {a : A}
    → After Q E r
    → r.0 ≡ ok a
    → Q a r.1
After-ok Q E (ok a', s) h q = let e : ok a' ≡ ok _ = q in rw (ok_injective e) at h
After-ok Q E (err e, s) h q = cc

pub After-err :
    {A : Type 0} (Q : A → Session → Type 0) (E : HttpError → Session → Type 0)
    (r : Result HttpError A × Session) {e : HttpError}
    → After Q E r
    → r.0 ≡ err e
    → E e r.1
After-err Q E (ok a, s) h q = cc
After-err Q E (err e', s) {e} h q = let x : err e' ≡ err e = q in let y : e' ≡ e = cc in rw y at h

module _ (E : HttpError → Session → Type 0) where
  pub record Triple {A : Type 0} (P : Session → Type 0) (m : Step A) (Q : A → Session → Type 0)
      : Type 0 where
    pub holds : (s : Session) → P s → After Q E (m s)

  After-continue :
      {A B : Type 0} (f : A → Step B) (r : Result HttpError A × Session) (Q : A → Session → Type 0)
      (R : B → Session → Type 0)
      → ((a : A) → Triple (Q a) (f a) R)
      → After Q E r
      → After R E (continue f r)
  After-continue f (ok a, s) Q R h k = (h a).holds s k
  After-continue f (err e, s) Q R h k = k

  pub Triple-bind :
      {A B : Type 0} {P : Session → Type 0} (m : Step A) (f : A → Step B) (Q : A → Session → Type 0)
      (R : B → Session → Type 0)
      → Triple P m Q
      → ((a : A) → Triple (Q a) (f a) R)
      → Triple P (m >>= f) R
  Triple-bind m f Q R h k = record { holds = λ s p. After-continue f (m s) Q R k (h.holds s p) }

  pub Triple-return :
      {A : Type 0} {P : Session → Type 0} (a : A) (Q : A → Session → Type 0)
      → ((s : Session) → P s → Q a s)
      → Triple P (return a) Q
  Triple-return a Q h = record { holds = h }

  After-keeps :
      {A : Type 0} (P : Session → Type 0) (r : Result HttpError A × Session)
      → ((e : HttpError) (s : Session) → P s → E e s)
      → P r.1
      → After (λ a. P) E r
  After-keeps P (ok a, s) h p = p
  After-keeps P (err e, s) h p = h e s p

  -- A step that keeps what holds, where that is enough after an exception.
  pub Triple-keeps :
      {A : Type 0} (P : Session → Type 0) (m : Step A)
      → Keeps P m
      → ((e : HttpError) (s : Session) → P s → E e s)
      → Triple P m (λ a. P)
  Triple-keeps P m k h = record { holds = λ s p. After-keeps P (m s) h (k.keeps s p) }

  -- A check that passes tells what it has read.
  After-check :
      {A : Type 0} (P : Session → Type 0) (f : Session → Result HttpError A) (s : Session)
      (r : Result HttpError A)
      → f s ≡ r
      → P s
      → ((e : HttpError) (t : Session) → P t → E e t)
      → After (λ a t. P t × (f t ≡ ok a)) E (r, s)
  After-check P f s (ok a) q p h = (p, q)
  After-check P f s (err e) q p h = h e s p

  pub Triple-check :
      {A : Type 0} (P : Session → Type 0) (f : Session → Result HttpError A)
      → ((e : HttpError) (s : Session) → P s → E e s)
      → Triple P (check f) (λ a s. P s × (f s ≡ ok a))
  Triple-check P f h = record { holds = λ s p. After-check P f s (f s) refl p h }

  -- A change of the database that does not look at the requests.
  pub Triple-write :
      (base : Session) (f : Session → Session)
      → ((s : Session) → SameRows base s → SameRows (f base) (f s))
      → Triple (SameRows base) (write f) (λ _. SameRows (f base))
  Triple-write base f h = record { holds = h }

  After-map :
      {A : Type 0} (Q R : A → Session → Type 0) (r : Result HttpError A × Session)
      → ((a : A) (s : Session) → Q a s → R a s)
      → After Q E r
      → After R E r
  After-map Q R (ok a, s) h q = h a s q
  After-map Q R (err e, s) h q = q

  -- A fact that holds before the step is kept for what holds after it.
  pub Triple-fact :
      {A : Type 0} (P' P : Session → Type 0) (F : Type 0) (m : Step A) (Q R : A → Session → Type 0)
      → ((s : Session) → P' s → P s × F)
      → Triple P m Q
      → (F → (a : A) (s : Session) → Q a s → R a s)
      → Triple P' m R
  Triple-fact P' P F m Q R before t h = record {
    holds = λ s p. let (q, f) = before s p in After-map Q R (m s) (h f) (t.holds s q);
  }

  pub Triple-read :
      {A B : Type 0} (P : Session → Type 0) (g : Session → A) (f : A → Step B)
      (R : B → Session → Type 0)
      → ((s : Session) → P s → Triple P (f (g s)) R)
      → Triple P (read g >>= f) R
  Triple-read P g f R h = record { holds = λ s p. (h s p).holds s p }

  checked_continue :
      {A B : Type 0} (P : Session → Type 0) (F : A → Type 0) (k : A → Step B)
      (R : B → Session → Type 0) (s : Session) (r : Result HttpError A)
      → P s
      → ((e : HttpError) → E e s)
      → ((a : A) → r ≡ ok a → F a)
      → ((a : A) → F a → Triple P (k a) R)
      → After R E (continue k (r, s))
  checked_continue P F k R s (ok a) p h f t = (t a (f a refl)).holds s p
  checked_continue P F k R s (err e) p h f t = h e

  -- A check whose outcome tells a fact about the start.
  pub Triple-checked :
      {A B : Type 0} (P : Session → Type 0) (F : A → Type 0) (f : Session → Result HttpError A)
      (k : A → Step B) (R : B → Session → Type 0)
      → ((e : HttpError) (s : Session) → P s → E e s)
      → ((s : Session) (a : A) → P s → f s ≡ ok a → F a)
      → ((a : A) → F a → Triple P (k a) R)
      → Triple P (check f >>= k) R
  Triple-checked P F f k R h fact t = record {
    holds = λ s p. checked_continue P F k R s (f s) p (λ e. h e s p) (λ a. fact s a p) t;
  }
