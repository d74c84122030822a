-- ===== src/Exec/Ensures.antt =====
-- What holds when an action returns, from what held before it: one rule for each way to build one.
-- An action that raises ensures anything.
use lotus_archive.Prelude.{◌≡◌, refl, sym, subst, Bool, true, false, if◌then◌else◌}
use lotus_archive.Errors.{Error, Result, ok, err, ok-injective}
use lotus_archive.Exec.{
  Exec, pure, raise, lift, gets, try_except, recovered, bind-eq-ok, ◌>>=◌, ◌>>◌,
}

pub record Ensures {ℓ} {S A : Type ℓ} (P : S → Type ℓ) (m : Exec S A) (Q : A → S → Type ℓ)
    : Type ℓ where
  pub holds : (s : S) → P s → (a : A) → (m s).0 ≡ ok a → Q a (m s).1

module _ {ℓ} {S : Type ℓ} where
  pub Ensures-pure :
      {A : Type ℓ} {P : S → Type ℓ} {Q : A → S → Type ℓ} (a : A)
      → ((s : S) → P s → Q a s)
      → Ensures P (pure a) Q
  unfolding pure
  Ensures-pure {Q} a h = record { holds = λ s p b e. subst (λ x. Q x s) (ok-injective e) (h s p) }

  pub Ensures-raise :
      {A : Type ℓ} {P : S → Type ℓ} {Q : A → S → Type ℓ} (e : Error) → Ensures P (raise e) Q
  unfolding raise
  Ensures-raise e = record { holds = λ s p a h. cc }

  pub Ensures-lift :
      {A : Type ℓ} {P : S → Type ℓ} {Q : A → S → Type ℓ} (r : Result A)
      → ((a : A) (s : S) → r ≡ ok a → P s → Q a s)
      → Ensures P (lift r) Q
  unfolding lift
  Ensures-lift r h = record { holds = λ s p a e. h a s e p }

  pub Ensures-gets :
      {A : Type ℓ} {P : S → Type ℓ} {Q : A → S → Type ℓ} (f : S → A)
      → ((s : S) → P s → Q (f s) s)
      → Ensures P (gets f) Q
  unfolding gets
  Ensures-gets {Q} f h = record { holds = λ s p b e. subst (λ x. Q x s) (ok-injective e) (h s p) }

  pub Ensures-if :
      {A : Type ℓ} {P : S → Type ℓ} {Q : A → S → Type ℓ} (b : Bool) (m n : Exec S A)
      → (b ≡ true → Ensures P m Q)
      → (b ≡ false → Ensures P n Q)
      → Ensures P (if b then m else n) Q
  Ensures-if true m n km kn = km refl
  Ensures-if false m n km kn = kn refl

  pub Ensures-bind :
      {A B : Type ℓ} {P : S → Type ℓ} (M : A → S → Type ℓ) {Q : B → S → Type ℓ} (m : Exec S A)
      (f : A → Exec S B)
      → Ensures P m M
      → ((a : A) → Ensures (M a) (f a) Q)
      → Ensures P (m >>= f) Q
  Ensures-bind M {Q} m f km kf = record {
    holds = λ s p b e.
        let (a, ea, eb, same) = bind-eq-ok m f s e in
        subst (λ r. Q b r.1) (sym same) ((kf a).holds (m s).1 (km.holds s p a ea) b eb);
  }

  pub Ensures-weaken :
      {A : Type ℓ} {P P' : S → Type ℓ} {Q : A → S → Type ℓ} {m : Exec S A}
      → ((s : S) → P' s → P s)
      → Ensures P m Q
      → Ensures P' m Q
  Ensures-weaken h k = record { holds = λ s p. k.holds s (h s p) }

  pub Ensures-then :
      {A : Type ℓ} {P : S → Type ℓ} {Q Q' : A → S → Type ℓ} {m : Exec S A}
      → Ensures P m Q
      → ((a : A) (s : S) → Q a s → Q' a s)
      → Ensures P m Q'
  Ensures-then k h = record { holds = λ s p a e. h a _ (k.holds s p a e) }

  -- a fact that is not about the state stays beside
  pub Ensures-beside :
      {A : Type ℓ} {Q : A → S → Type ℓ} {m : Exec S A} (F : Type ℓ)
      → Ensures (λ s. Unit) m Q
      → Ensures (λ s. F) m (λ a s. F × Q a s)
  Ensures-beside F k = record { holds = λ s f a e. (f, k.holds s tt a e) }

  -- an action that ends in a raise
  pub Ensures-then_raise :
      {A B : Type ℓ} {P : S → Type ℓ} {Q : B → S → Type ℓ} (m : Exec S A) (e : Error)
      → Ensures P (m >> raise e) Q
  Ensures-then_raise {P} m e =
      Ensures-bind (λ a s. Unit) m (λ _. raise e) (record { holds = λ s p a h. tt })
        (λ _. Ensures-raise e)

  pub Ensures-try_except :
      {A : Type ℓ} {P : S → Type ℓ} {Q : A → S → Type ℓ} (m : Exec S A) (handler : Error → Exec S A)
      → Ensures P m Q
      → ((e : Error) → Ensures (λ s. Unit) (handler e) Q)
      → Ensures P (try_except m handler) Q
  unfolding try_except
  Ensures-try_except {A} {P} {Q} m handler km kh = record {
    holds = λ s p a e. rest (m s).0 (m s).1 (km.holds s p) a e;
  }
    where
      rest :
          (r : Result A) (s : S)
          → ((a : A) → r ≡ ok a → Q a s)
          → (a : A) → (recovered r handler s).0 ≡ ok a
          → Q a (recovered r handler s).1
      rest (ok b) s h a e = h a e
      rest (err c) s h a e = (kh c).holds s tt a e
