-- ===== src/Exec/Avoids.antt =====
-- The errors that an action does not end in: one rule for each way to build one.
use lotus_archive.Prelude.{
  ◌≡◌, ◌≢◌, refl, sym, ap, ◌∙◌, Bool, true, false, ◌⊎◌, inl, inr, if◌then◌else◌,
}
use lotus_archive.Errors.{Error, Result, ok, err}
use lotus_archive.Exec.{Exec, pure, raise, gets, bind-ok, bind-eq-err, ◌>>=◌}
use lotus_archive.Exec.Ensures.{Ensures}

-- From a state of `P` the action does not end in `bad`.
pub record Avoids {ℓ} {S A : Type ℓ} (bad : Error) (P : S → Type ℓ) (m : Exec S A) : Type ℓ where
  pub at : (s : S) → P s → (m s).0 ≢ err bad

Result-split {ℓ} :
    {A : Type ℓ} (r : Result A) → ((a : A) × (r ≡ ok a)) ⊎ ((e : Error) × (r ≡ err e))
Result-split (ok a) = inl (a, refl)
Result-split (err e) = inr (e, refl)

err-injective {ℓ} : {A : Type ℓ} {e f : Error} → ◌≡◌ {A = Result A} (err e) (err f) → e ≡ f
err-injective h = cc

module _ {ℓ} {S : Type ℓ} {bad : Error} where
  pub Avoids-pure : {A : Type ℓ} {P : S → Type ℓ} (a : A) → Avoids bad P (pure a)
  unfolding pure
  Avoids-pure a = record { at = λ s p h. cc }

  pub Avoids-raise :
      {A : Type ℓ} {P : S → Type ℓ} (e : Error) → e ≢ bad → Avoids bad P (raise {A = A} e)
  unfolding raise
  Avoids-raise e ne = record { at = λ s p h. ne (err-injective h) }

  pub Avoids-gets : {A : Type ℓ} {P : S → Type ℓ} (f : S → A) → Avoids bad P (gets f)
  unfolding gets
  Avoids-gets f = record { at = λ s p h. cc }

  pub Avoids-if :
      {A : Type ℓ} {P : S → Type ℓ} (b : Bool) (m n : Exec S A)
      → (b ≡ true → Avoids bad P m)
      → (b ≡ false → Avoids bad P n)
      → Avoids bad P (if b then m else n)
  Avoids-if true m n km kn = km refl
  Avoids-if false m n km kn = kn refl

  pub Avoids-bind :
      {A B : Type ℓ} {P : S → Type ℓ} {Q : A → S → Type ℓ} (m : Exec S A) (f : A → Exec S B)
      → Avoids bad P m
      → Ensures P m Q
      → ((a : A) → Avoids bad (Q a) (f a))
      → Avoids bad P (m >>= f)
  Avoids-bind m f km em kf = record {
    at = λ s p h. elim (Result-split (m s).0) [
      | inl (a, returned) ↦
          (kf a).at (m s).1 (em.holds s p a returned)
            (sym (ap (λ r. r.0) (bind-ok m f returned)) ∙ h)
      | inr (e, raised) ↦ km.at s p (
          raised
          ∙ ap err (
              err-injective
                (sym (ap (λ r. r.0) (bind-eq-err m f (ap (λ x. (x, (m s).1)) raised))) ∙ h)))
    ];
  }

  -- what is known of the state is known
  pub Avoids-given :
      {A : Type ℓ} {P : S → Type ℓ} {m : Exec S A} (C : Type ℓ)
      → ((s : S) → P s → C)
      → (C → Avoids bad P m)
      → Avoids bad P m
  Avoids-given C known k = record { at = λ s p. (k (known s p)).at s p }

  pub Avoids-weaken :
      {A : Type ℓ} {P P' : S → Type ℓ} {m : Exec S A}
      → ((s : S) → P' s → P s)
      → Avoids bad P m
      → Avoids bad P' m
  Avoids-weaken h k = record { at = λ s p. k.at s (h s p) }
