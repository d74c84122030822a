-- ===== src/Exec.antt =====
-- Methods that change the state of the service and may raise. What was written before a raise stays
-- written, so the state comes back beside the error too.
pub mod Moves
pub mod Ensures
pub mod Avoids
use lotus_archive.Prelude.{◌≡◌, refl, ap, Bool, true, false}
use lotus_archive.Errors.{Error, Result, ok, err}

abbrev pub Exec {ℓ} : Type ℓ → Type ℓ → Type ℓ
Exec S A = S → Result A × S

module _ {ℓ} {S A : Type ℓ} where
  -- reads the state
  unfoldable pub gets : (S → A) → Exec S A
  gets read now = (ok (read now), now)

  -- a result that was computed without the state
  unfoldable pub lift : Result A → Exec S A
  lift result now = (result, now)

  unfoldable pub raise : Error → Exec S A
  raise error now = (err error, now)

  unfoldable pub pure : A → Exec S A
  pure answer now = (ok answer, now)

  -- a method of a component: its answer and the new state
  unfoldable pub state : (S → Result A × S) → Exec S A
  state f s = f s

  abbrev pub recovered : Result A → (Error → Exec S A) → Exec S A
  recovered (ok a) handler s = (ok a, s)
  recovered (err e) handler s = handler e s

  -- `try: m except Exception as e: handler(e)`
  unfoldable pub try_except : Exec S A → (Error → Exec S A) → Exec S A
  try_except m handler s = let (r, s') = m s in recovered r handler s'

module _ {ℓ} {S A B : Type ℓ} where
  -- what follows an action, unless that raised
  abbrev pub continue : Result A → (A → Exec S B) → Exec S B
  continue (err error) rest now = (err error, now)
  continue (ok answer) rest now = rest answer now

  unfoldable pub ◌>>=◌ : Exec S A → (A → Exec S B) → Exec S B
  unfolding gets lift raise pure state
  ◌>>=◌ first rest now = let (result, after) = first now in continue result rest after

  infixl 10 ◌>>=◌ ◌>>◌
  abbrev pub ◌>>◌ : Exec S A → Exec S B → Exec S B
  first >> second = first >>= λ ignored. second

  -- What a block that returned did: its first action returned too.
  pub bind-eq-ok :
      (m : Exec S A) (f : A → Exec S B) (s : S) {b : B}
      → ((m >>= f) s).0 ≡ ok b
      → (a : A) × ((m s).0 ≡ ok a) × ((f a (m s).1).0 ≡ ok b) × ((m >>= f) s ≡ f a (m s).1)
  unfolding ◌>>=◌
  bind-eq-ok m f s h = continued (m s).0 (m s).1 refl h
    where
      continued :
          (r : Result A) (s' : S) {b : B}
          → r ≡ (m s).0
          → (continue r f s').0 ≡ ok b
          → (a : A) × (r ≡ ok a) × ((f a s').0 ≡ ok b) × (continue r f s' ≡ f a s')
      continued (ok a) s' p h = (a, refl, h, refl)
      continued (err e) s' p h = cc

  -- A block whose first action raises ends there.
  pub bind-eq-err :
      (m : Exec S A) (f : A → Exec S B) {s s' : S} {e : Error}
      → m s ≡ (err e, s')
      → (m >>= f) s ≡ (err e, s')
  unfolding ◌>>=◌
  bind-eq-err m f h = ap (λ r. continue r.0 f r.1) h

  -- A block whose first action returns goes on with what it returned.
  pub bind-ok :
      (m : Exec S A) (f : A → Exec S B) {s : S} {a : A} → (m s).0 ≡ ok a → (m >>= f) s ≡ f a (m s).1
  unfolding ◌>>=◌
  bind-ok m f {s} h = ap (λ r. continue r f (m s).1) h
