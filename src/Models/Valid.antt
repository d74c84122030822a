-- ===== src/Models/Valid.antt =====
-- What the validators of `ArchiveDocumentInput` in `archive/models.py` make sure of.
use lotus_archive.Prelude.{
  String, ◌≡◌, ◌≢◌, refl, sym, subst, ◌∙◌, ◌⊎◌, inl, inr, Bool, true, false, not, ◌&&◌, ◌||◌,
  Option, none, some, is_some, arith, ◌==◌, string_eq, option_eq, if◌then◌else◌, Bool-cases,
}
use mathlib.Core.Option.{none-ne-some, some-injective}
use lotus_archive.Prelude.Texts.{has_char, is_hex_digest}
use lotus_archive.Calendar.{Date, before, date_eq}
use lotus_archive.Errors.{
  Error, Result, ok, err, raise_if, raise_if-eq-ok, ok-injective, model_validation, ◌>>=◌, ◌>>◌,
}
use lotus_archive.Models.Input.{ArchiveDocumentInput, GeneratedReportType, report_type_eq}
use lotus_archive.Models.Family.{
  IsComposite, IsPortfolio, both, same, not-true, report_scope_agrees-family,
}
use lotus_archive.Models.Validation.{
  report_scope_agrees, dates_are_ordered, retention_is_ordered, is_portfolio_summary,
  is_proof_summary, bounded_publication, declared_digest, published_as, checked, normalized,
  validated,
}

-- the family and the template of a report that a portfolio summary belongs to
abbrev pub IsPortfolioReview : ArchiveDocumentInput → Type 0
IsPortfolioReview d =
    (d.report_type ≡ GeneratedReportType.portfolio_review) × (d.template_id ≡ "portfolio-review")

-- the family, the template and the contract of a report that an evidence pack belongs to
abbrev pub IsProofPack : ArchiveDocumentInput → Type 0
IsProofPack d =
    (d.report_type ≡ GeneratedReportType.proof_pack)
    × (d.template_id ≡ "proof-pack")
    × (d.report_data_contract_version ≡ "dpm_proof_pack_report_input.v1")

pub record IsWellFormed (d : ArchiveDocumentInput) : Type 0 where
  pub family :
      ((d.report_type ≡ GeneratedReportType.composite_review) × IsComposite d)
      ⊎ ((d.report_type ≢ GeneratedReportType.composite_review) × IsPortfolio d)
  pub period : before d.reporting_period_end d.reporting_period_start ≡ false
  pub retention :
      (start until : Date)
      → d.retention_start_date ≡ some start
      → d.retain_until_date ≡ some until
      → before until start ≡ false
  pub narrative : is_some d.reviewed_advisory_narrative ≡ true → IsPortfolioReview d
  pub memo : is_some d.advisor_proposal_memo ≡ true → IsPortfolioReview d
  pub commentary : is_some d.advisor_commentary ≡ true → IsPortfolioReview d
  pub evidence : is_some d.idea_evidence_pack ≡ true → IsProofPack d
  pub mime : has_char b'/' d.mime_type ≡ true
  pub digest : (h : String) → d.declared_artifact_sha256 ≡ some h → is_hex_digest h ≡ true
  pub publication :
      (p : String) → d.template_publication ≡ some p → (p ≡ "published") ⊎ (p ≡ "development")

err-ne-ok : {A : Type 0} {e : Error} {a : A} → ◌≡◌ {A = Result A} (err e) (ok a) → ⊥
err-ne-ok h = cc

bounded :
    (n : String) (p : Option String)
    → (if n == "published" || n == "development" then ok (some n) else err model_validation) ≡ ok p
    → (s : String) → p ≡ some s
    → (s ≡ "published") ⊎ (s ≡ "development")
bounded n p e s q = elim (Bool-cases (n == "published")) [
  | inl published ↦ inl (
      sym (some-injective _ _ (ok-injective (rw published at e) ∙ q))
      ∙ same n "published" published)
  | inr unpublished ↦ elim (Bool-cases (n == "development")) [
    | inl development ↦ inr (
        sym (some-injective _ _ (ok-injective (rw (unpublished, development) at e) ∙ q))
        ∙ same n "development" development)
    | inr neither ↦ absurd (err-ne-ok (rw (unpublished, neither) at e))
  ]
]

module _ (strip lower : String → String) where
  declared_digest-eq-ok :
      (o p : Option String)
      → declared_digest strip lower o ≡ ok p
      → (h : String) → p ≡ some h
      → is_hex_digest h ≡ true
  unfolding declared_digest
  declared_digest-eq-ok none p e h q = cc
  declared_digest-eq-ok (some v) p e h q = ground arith

  bounded_publication-eq-ok :
      (o p : Option String)
      → bounded_publication strip lower o ≡ ok p
      → (s : String) → p ≡ some s
      → (s ≡ "published") ⊎ (s ≡ "development")
  unfolding bounded_publication
  bounded_publication-eq-ok none p e s q = absurd (none-ne-some s (ok-injective e ∙ q))
  bounded_publication-eq-ok (some v) p e s q = bounded (lower (strip v)) p e s q

-- what an answer of a chain came from
pub bind-eq-ok :
    {A B : Type 0} (r : Result A) (f : A → Result B) {b : B}
    → (r >>= f) ≡ ok b
    → (a : A) × (r ≡ ok a) × (f a ≡ ok b)
bind-eq-ok (ok a) f h = (a, refl, h)
bind-eq-ok (err e) f h = absurd (err-ne-ok h)

record IsDated (d : ArchiveDocumentInput) : Type 0 where
  period : before d.reporting_period_end d.reporting_period_start ≡ false
  retention : retention_is_ordered d.retention_start_date d.retain_until_date ≡ true
  narrative : is_some d.reviewed_advisory_narrative ≡ true → IsPortfolioReview d
  memo : is_some d.advisor_proposal_memo ≡ true → IsPortfolioReview d
  commentary : is_some d.advisor_commentary ≡ true → IsPortfolioReview d
  evidence : is_some d.idea_evidence_pack ≡ true → IsProofPack d

summary_review :
    (d : ArchiveDocumentInput) (there : Bool)
    → is_portfolio_summary d there ≡ true
    → there ≡ true
    → IsPortfolioReview d
summary_review d true h e =
    let (kind, template) =
      both (d.report_type == GeneratedReportType.portfolio_review)
        (d.template_id == "portfolio-review") h in
    (
      same d.report_type GeneratedReportType.portfolio_review kind,
      same d.template_id "portfolio-review" template,
    )
summary_review d false h e = cc

summary_proof :
    (d : ArchiveDocumentInput) (there : Bool)
    → is_proof_summary d there ≡ true
    → there ≡ true
    → IsProofPack d
summary_proof d true h e =
    let (kind, h₁) =
      both (d.report_type == GeneratedReportType.proof_pack)
        (d.template_id == "proof-pack"
          && d.report_data_contract_version == "dpm_proof_pack_report_input.v1")
        h in
    let (template, contract) =
      both (d.template_id == "proof-pack")
        (d.report_data_contract_version == "dpm_proof_pack_report_input.v1") h₁ in
    (
      same d.report_type GeneratedReportType.proof_pack kind,
      same d.template_id "proof-pack" template,
      same d.report_data_contract_version "dpm_proof_pack_report_input.v1" contract,
    )
summary_proof d false h e = cc

dates_are_ordered-IsDated : (d : ArchiveDocumentInput) → dates_are_ordered d ≡ true → IsDated d
unfolding dates_are_ordered
dates_are_ordered-IsDated d h =
    let (period, h₁) = both _ _ h in
    let (retention, h₂) = both _ _ h₁ in
    let (narrative, h₃) = both _ _ h₂ in
    let (memo, h₄) = both (is_portfolio_summary d (is_some d.advisor_proposal_memo)) _ h₃ in
    let (commentary, pack) =
      both (is_portfolio_summary d (is_some d.advisor_commentary))
        (is_proof_summary d (is_some d.idea_evidence_pack)) h₄ in
    record {
      period = not-true _ period;
      retention = retention;
      narrative = summary_review d _ narrative;
      memo = summary_review d _ memo;
      commentary = summary_review d _ commentary;
      evidence = summary_proof d _ pack;
    }

pub not-false : (b : Bool) → not b ≡ false → b ≡ true
not-false true h = refl
not-false false h = cc

ordered :
    (o p : Option Date) (start until : Date)
    → o ≡ some start
    → p ≡ some until
    → retention_is_ordered o p ≡ true
    → before until start ≡ false
ordered o p start until e f h = not-true _ (
    subst (λ q. retention_is_ordered (some start) q ≡ true) f
      (subst (λ q. retention_is_ordered q p ≡ true) e h))

pub finished :
    (n d : ArchiveDocumentInput)
    → checked n ≡ ok d
    → (n ≡ d) × (report_scope_agrees n ≡ true) × (dates_are_ordered n ≡ true)
unfolding checked
finished n d h =
    let (_, tests, last) =
      bind-eq-ok
        (raise_if (not (report_scope_agrees n)) model_validation
          >> raise_if (not (dates_are_ordered n)) model_validation)
        (λ _. ok n) h in
    let (_, scope, dates) =
      bind-eq-ok (raise_if (not (report_scope_agrees n)) model_validation)
        (λ _. raise_if (not (dates_are_ordered n)) model_validation) tests in
    (
      ok-injective last,
      not-false _ (raise_if-eq-ok _ model_validation scope),
      not-false _ (raise_if-eq-ok _ model_validation dates),
    )

pub well_formed :
    (strip lower : String → String) (n : ArchiveDocumentInput) (o p : Option String)
    → has_char b'/' n.mime_type ≡ true
    → report_scope_agrees n ≡ true
    → dates_are_ordered n ≡ true
    → declared_digest strip lower o ≡ ok n.declared_artifact_sha256
    → bounded_publication strip lower p ≡ ok n.template_publication
    → IsWellFormed n
well_formed strip lower n o p mime scope dates digest posture =
    let dated : IsDated n = dates_are_ordered-IsDated n dates in
    record {
      family = report_scope_agrees-family n scope;
      period = dated.period;
      retention = λ start until s u. ordered _ _ start until s u dated.retention;
      evidence = dated.evidence;
      narrative = dated.narrative;
      memo = dated.memo;
      commentary = dated.commentary;
      mime = mime;
      digest = declared_digest-eq-ok strip lower o n.declared_artifact_sha256 digest;
      publication = bounded_publication-eq-ok strip lower p n.template_publication posture;
    }

-- A document that passes the validators is a composite report without a portfolio, whose identity has its tenant,
-- composite and period and whose XLSX contract and texts are filled in, or a report of another family with a
-- portfolio and nothing of a composite; its period and its retention dates are in order, a narrative, a memo or a
-- commentary is of a portfolio review and an evidence pack of a proof pack, each with its template, its MIME
-- type has a "/", its declared digest is 64 lower-case hexadecimal digits, and its template posture is one of the two.
pub validated-IsWellFormed :
    (strip lower : String → String) (given d : ArchiveDocumentInput)
    → validated strip lower given ≡ ok d
    → IsWellFormed d
unfolding validated
validated-IsWellFormed strip lower given d h =
    let (_, slash, h₀) =
      bind-eq-ok (raise_if (not (has_char b'/' given.mime_type)) model_validation)
        (λ _.
          declared_digest strip lower given.declared_artifact_sha256
          >>= published_as strip lower given)
        h in
    let (declared, digest, h₁) =
      bind-eq-ok (declared_digest strip lower given.declared_artifact_sha256)
        (published_as strip lower given) h₀ in
    let (publication, posture, h₂) =
      bind-eq-ok (bounded_publication strip lower given.template_publication)
        (λ publication. checked (normalized given declared publication)) h₁ in
    let (same_document, scope, dates) = finished (normalized given declared publication) d h₂ in
    subst IsWellFormed same_document (
      well_formed strip lower (normalized given declared publication) given.declared_artifact_sha256
        given.template_publication (not-false _ (raise_if-eq-ok _ model_validation slash)) scope
        dates digest posture)
