-- ===== src/Models/Revalidation.antt =====
-- Validating a validated document again.
use lotus_archive.Prelude.{
  String, ◌≡◌, refl, sym, ap, subst, ◌∙◌, ◌⊎◌, inl, inr, true, not, Option, none, some, arith,
  string_eq, string_discrete,
}
use lotus_archive.Prelude.Texts.{removeprefix, has_char, is_hex_digest, all_hex}
use lotus_archive.Errors.{ok, raise_if, raise_if-eq-ok, model_validation, ◌>>=◌}
use lotus_archive.Models.Input.{ArchiveDocumentInput}
use lotus_archive.Models.Validation.{
  bounded_publication, declared_digest, published_as, checked, normalized, validated,
}
use lotus_archive.Models.Valid.{
  IsWellFormed, validated-IsWellFormed, bind-eq-ok, finished, not-false,
}

-- a digest has no prefix to remove
removeprefix-digest : (h : String) → is_hex_digest h ≡ true → removeprefix "sha256:" h ≡ none
unfolding removeprefix is_hex_digest all_hex
removeprefix-digest String.[] h = refl
removeprefix-digest (String.◌∷◌ c s) h = ground arith

-- What `strip` and `lower` do to texts that are in the normal form.
pub record LeavesNormal (strip lower : String → String) : Type 0 where
  pub digest : (h : String) → is_hex_digest h ≡ true → lower (strip h) ≡ h
  pub published : lower (strip "published") ≡ "published"
  pub development : lower (strip "development") ≡ "development"

module _ (strip lower : String → String) (normal : LeavesNormal strip lower) where
  declared_digest-stays :
      (o : Option String)
      → ((h : String) → o ≡ some h → is_hex_digest h ≡ true)
      → declared_digest strip lower o ≡ ok o
  unfolding declared_digest
  declared_digest-stays none hex = refl
  declared_digest-stays (some h) hex =
      rw (normal.digest h (hex h refl), removeprefix-digest h (hex h refl), hex h refl) refl

  of_published : bounded_publication strip lower (some "published") ≡ ok (some "published")
  unfolding bounded_publication string_discrete
  of_published = rw normal.published refl

  of_development : bounded_publication strip lower (some "development") ≡ ok (some "development")
  unfolding bounded_publication string_discrete
  of_development = rw normal.development refl

  bounded_publication-stays :
      (o : Option String)
      → ((p : String) → o ≡ some p → (p ≡ "published") ⊎ (p ≡ "development"))
      → bounded_publication strip lower o ≡ ok o
  unfolding bounded_publication
  bounded_publication-stays none bounded = refl
  bounded_publication-stays (some p) bounded = elim (bounded p refl) [
    | inl e ↦
        subst (λ q. bounded_publication strip lower (some q) ≡ ok (some q)) (sym e) of_published
    | inr e ↦
        subst (λ q. bounded_publication strip lower (some q) ≡ ok (some q)) (sym e) of_development
  ]

  stays :
      (n : ArchiveDocumentInput)
      → has_char b'/' n.mime_type ≡ true
      → IsWellFormed n
      → checked n ≡ ok n
      → validated strip lower n ≡ ok n
  unfolding validated
  stays n specific formed sound =
      rw
        (
          specific,
          declared_digest-stays n.declared_artifact_sha256 formed.digest,
          bounded_publication-stays n.template_publication formed.publication,
        )
        sound

  -- Where stripping and lower case leave a digest and the two postures as they are, a validated document passes the validators
  -- again and comes out as it is, so that building the kept document from it, which validates it again, keeps its fields.
  pub validated_documents_stay :
      (given d : ArchiveDocumentInput)
      → validated strip lower given ≡ ok d
      → validated strip lower d ≡ ok d
  unfolding validated
  validated_documents_stay given d h =
      let (_, specific, h₀) =
        bind-eq-ok (raise_if (not (has_char b'/' given.mime_type)) model_validation)
          (λ _.
            declared_digest strip lower given.declared_artifact_sha256
            >>= published_as strip lower given)
          h in
      let (declared, digest, h₁) =
        bind-eq-ok (declared_digest strip lower given.declared_artifact_sha256)
          (published_as strip lower given) h₀ in
      let (publication, posture, h₂) =
        bind-eq-ok (bounded_publication strip lower given.template_publication)
          (λ publication. checked (normalized given declared publication)) h₁ in
      let (same_document, _, _) = finished (normalized given declared publication) d h₂ in
      subst (λ n. validated strip lower n ≡ ok n) same_document
        (stays (normalized given declared publication)
          (not-false _ (raise_if-eq-ok _ model_validation specific))
          (subst IsWellFormed (sym same_document) (validated-IsWellFormed strip lower given d h))
          (h₂ ∙ ap ok (sym same_document)))
