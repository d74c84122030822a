-- ===== src/Exec/Moves.antt =====
-- How an action moves the state, whether it returns or raises: one rule for each way to build one.
use lotus_archive.Prelude.{◌≡◌, refl, Bool, true, false, if◌then◌else◌}
use lotus_archive.Errors.{Error, Result, ok, err}
use lotus_archive.Exec.{Exec, pure, raise, lift, gets, try_except, recovered, continue, ◌>>=◌}

pub record IsPreorder {ℓ} {S : Type ℓ} (R : S → S → Type ℓ) : Type ℓ where
  pub stays : (s : S) → R s s
  pub follows : (s t u : S) → R s t → R t u → R s u

pub record Moves {ℓ} {S A : Type ℓ} (R : S → S → Type ℓ) (m : Exec S A) : Type ℓ where
  pub at : (s : S) → R s (m s).1

module _ {ℓ} {S : Type ℓ} {R : S → S → Type ℓ} (P : IsPreorder R) where
  pub Moves-pure : {A : Type ℓ} (a : A) → Moves R (pure a)
  unfolding pure
  Moves-pure a = record { at = λ s. P.stays s }

  pub Moves-raise : {A : Type ℓ} (e : Error) → Moves R (raise {A = A} e)
  unfolding raise
  Moves-raise e = record { at = λ s. P.stays s }

  pub Moves-lift : {A : Type ℓ} (r : Result A) → Moves R (lift r)
  unfolding lift
  Moves-lift r = record { at = λ s. P.stays s }

  pub Moves-gets : {A : Type ℓ} (f : S → A) → Moves R (gets f)
  unfolding gets
  Moves-gets f = record { at = λ s. P.stays s }

  pub Moves-if :
      {A : Type ℓ} (b : Bool) (m n : Exec S A)
      → Moves R m
      → Moves R n
      → Moves R (if b then m else n)
  Moves-if true m n km kn = km
  Moves-if false m n km kn = kn

  pub Moves-bind :
      {A B : Type ℓ} (m : Exec S A) (f : A → Exec S B)
      → Moves R m
      → ((a : A) → Moves R (f a))
      → Moves R (m >>= f)
  unfolding ◌>>=◌
  Moves-bind {A} {B} m f km kf = record {
    at = λ s. P.follows s (m s).1 ((m >>= f) s).1 (km.at s) (rest (m s).0 (m s).1);
  }
    where
      rest : (r : Result A) (s : S) → R s (continue r f s).1
      rest (ok a) s = (kf a).at s
      rest (err e) s = P.stays s

  -- what follows a computed result may use that it is the result
  pub Moves-lift_then :
      {A B : Type ℓ} (r : Result A) (f : A → Exec S B)
      → ((a : A) → r ≡ ok a → Moves R (f a))
      → Moves R (lift r >>= f)
  unfolding lift ◌>>=◌
  Moves-lift_then (ok a) f k = record { at = λ s. (k a refl).at s }
  Moves-lift_then (err e) f k = record { at = λ s. P.stays s }

  pub Moves-try_except :
      {A : Type ℓ} (m : Exec S A) (handler : Error → Exec S A)
      → Moves R m
      → ((e : Error) → Moves R (handler e))
      → Moves R (try_except m handler)
  unfolding try_except
  Moves-try_except {A} m handler km kh = record {
    at = λ s. P.follows s (m s).1 (try_except m handler s).1 (km.at s) (rest (m s).0 (m s).1);
  }
    where
      rest : (r : Result A) (s : S) → R s (recovered r handler s).1
      rest (ok a) s = P.stays s
      rest (err e) s = (kh e).at s
