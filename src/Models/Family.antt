-- ===== src/Models/Family.antt =====
-- The family of a validated document: `_report_scope_must_agree` of `archive/models.py`.
use lotus_archive.Prelude.{
  ◌≡◌, ◌≢◌, refl, ◌∙◌, ◌⊎◌, inl, inr, Bool, true, false, not, ◌&&◌, Option, none, some, is_some, Eq,
  ◌==◌, string_eq, option_eq, Bool-cases,
}
use mathlib.Core.Logic.{ite}
use lotus_archive.Calendar.{date_eq}
use lotus_archive.Composite.Identity.{CompositeCustodyIdentity}
use lotus_archive.Models.Input.{ArchiveDocumentInput, GeneratedReportType, report_type_eq}
use lotus_archive.Models.Validation.{
  PinnedScope, pinned_scope, contract_version, matches_scope, has_xlsx_contract, is_filled,
  contract_suffix, composite_agrees, report_scope_agrees,
}

-- a composite report: a composite scope without a portfolio, an identity whose pin has the tenant, the composite and the period, the
-- XLSX contract of that identity, and the texts that a composite report needs, none of them empty
pub record IsComposite (d : ArchiveDocumentInput) : Type 0 where
  pub no_portfolio : d.portfolio_id ≡ none
  pub scope : d.portfolio_scope ≡ "composite"
  pub identity : CompositeCustodyIdentity
  pub identified : d.composite_report_identity ≡ some identity
  pub tenant : (pinned_scope identity).tenant_id ≡ d.tenant_id
  pub composite : some (pinned_scope identity).composite_id ≡ d.composite_id
  pub period :
      ((pinned_scope identity).period_start ≡ d.reporting_period_start)
      × ((pinned_scope identity).period_end ≡ d.reporting_period_end)
      × (d.as_of_date ≡ d.reporting_period_end)
  pub contract :
      (d.template_id ≡ "composite-review")
      × (d.template_version ≡ contract_suffix identity)
      × (d.report_data_contract_version ≡ contract_version identity)
      × (d.output_format ≡ "xlsx")
      × (d.mime_type ≡ "application/vnd.openxmlformats-officedocument.spreadsheetml.sheet")
  pub filled :
      (is_filled d.composite_id ≡ true)
      × (is_filled d.report_revision_id ≡ true)
      × (is_filled d.document_reference ≡ true)
      × (is_filled d.declared_artifact_sha256 ≡ true)

-- a report of another family: a portfolio, and nothing of a composite
pub record IsPortfolio (d : ArchiveDocumentInput) : Type 0 where
  pub portfolio : is_some d.portfolio_id ≡ true
  pub scope : d.portfolio_scope ≢ "composite"
  pub no_composite : (d.composite_id ≡ none) × (d.composite_report_identity ≡ none)

none_of : {A : Type 0} (o : Option A) → is_some o ≡ false → o ≡ none
none_of none h = refl
none_of (some a) h = cc

pub both : (a b : Bool) → (a && b) ≡ true → (a ≡ true) × (b ≡ true)
both true b h = (refl, h)
both false b h = cc

pub not-true : (b : Bool) → not b ≡ true → b ≡ false
not-true true h = cc
not-true false h = refl

ite-true : {P : Type 0} (d : Dec P) → ite d true false ≡ true → P
ite-true (yes p) h = p
ite-true (no n) h = cc

pub same : {A : Type 0} ⦃e : Eq A⦄ (a b : A) → (a == b) ≡ true → a ≡ b
same ⦃e⦄ a b h = ite-true (e.dec a b) h

ite-false : {P : Type 0} (d : Dec P) → ite d true false ≡ false → ¬ P
ite-false (yes p) h = cc
ite-false (no n) h = n

differ : {A : Type 0} ⦃e : Eq A⦄ (a b : A) → (a == b) ≡ false → a ≢ b
differ ⦃e⦄ a b h = ite-false (e.dec a b) h

matches_scope-eq-true :
    (d : ArchiveDocumentInput) (s : PinnedScope)
    → matches_scope d s ≡ true
    → (s.tenant_id ≡ d.tenant_id)
      × (some s.composite_id ≡ d.composite_id)
      × (s.period_start ≡ d.reporting_period_start)
      × (s.period_end ≡ d.reporting_period_end)
      × (d.as_of_date ≡ s.period_end)
unfolding matches_scope
matches_scope-eq-true d s h =
    let (tenant, h₁) = both _ _ h in
    let (composite, h₂) = both _ _ h₁ in
    let (start, h₃) = both _ _ h₂ in
    let (end, as_of) = both _ _ h₃ in
    (
      same s.tenant_id d.tenant_id tenant,
      same (some s.composite_id) d.composite_id composite,
      same s.period_start d.reporting_period_start start,
      same s.period_end d.reporting_period_end end,
      same d.as_of_date s.period_end as_of,
    )

has_xlsx_contract-eq-true :
    (d : ArchiveDocumentInput) (identity : CompositeCustodyIdentity)
    → has_xlsx_contract d identity ≡ true
    → (d.template_id ≡ "composite-review")
      × (d.template_version ≡ contract_suffix identity)
      × (d.report_data_contract_version ≡ contract_version identity)
      × (d.output_format ≡ "xlsx")
      × (d.mime_type ≡ "application/vnd.openxmlformats-officedocument.spreadsheetml.sheet")
unfolding has_xlsx_contract
has_xlsx_contract-eq-true d identity h =
    let (template, h₁) = both _ _ h in
    let (version, h₂) = both _ _ h₁ in
    let (contract, h₃) = both _ _ h₂ in
    let (format, mime) = both _ _ h₃ in
    (
      same d.template_id "composite-review" template,
      same d.template_version (contract_suffix identity) version,
      same d.report_data_contract_version (contract_version identity) contract,
      same d.output_format "xlsx" format,
      same d.mime_type "application/vnd.openxmlformats-officedocument.spreadsheetml.sheet" mime,
    )

composite_agrees-IsComposite :
    (d : ArchiveDocumentInput) (o : Option CompositeCustodyIdentity)
    → d.composite_report_identity ≡ o
    → (d.portfolio_scope == "composite") ≡ true
    → is_some d.portfolio_id ≡ false
    → composite_agrees d o ≡ true
    → IsComposite d
unfolding composite_agrees
composite_agrees-IsComposite d none at composite_scope alone h = cc
composite_agrees-IsComposite d (some identity) at composite_scope alone h =
    let (filled, h₁) = both _ _ h in
    let (scope, h₂) = both _ _ h₁ in
    let (contract, h₃) = both _ _ h₂ in
    let (revision, h₄) = both _ _ h₃ in
    let (reference, digest) = both _ _ h₄ in
    let (tenant, composite, start, end, as_of) =
      matches_scope-eq-true d (pinned_scope identity) scope in
    record {
      scope = same d.portfolio_scope "composite" composite_scope;
      no_portfolio = none_of d.portfolio_id alone;
      identity = identity;
      identified = at;
      tenant = tenant;
      composite = composite;
      period = (start, end, as_of ∙ end);
      contract = has_xlsx_contract-eq-true d identity contract;
      filled = (filled, revision, reference, digest);
    }

pub report_scope_agrees-family :
    (d : ArchiveDocumentInput)
    → report_scope_agrees d ≡ true
    → ((d.report_type ≡ GeneratedReportType.composite_review) × IsComposite d)
      ⊎ ((d.report_type ≢ GeneratedReportType.composite_review) × IsPortfolio d)
unfolding report_scope_agrees
report_scope_agrees-family d h =
    elim (Bool-cases (d.report_type == GeneratedReportType.composite_review)) [
      | inl composite ↦
          let (scope, h₁) = both _ _ (rw composite at h) in
          let (alone, agrees) = both _ _ h₁ in
          inl (
            same d.report_type GeneratedReportType.composite_review composite,
            composite_agrees-IsComposite d d.composite_report_identity refl scope (not-true _ alone)
                agrees,
          )
      | inr other ↦
          let (portfolio, h₁) = both _ _ (rw other at h) in
          let (scope, h₂) = both (not (d.portfolio_scope == "composite")) _ h₁ in
          let (no_composite, no_identity) = both _ _ h₂ in
          inr (
            differ d.report_type GeneratedReportType.composite_review other,
            record {
              portfolio = portfolio;
              scope = differ d.portfolio_scope "composite" (not-true _ scope);
              no_composite = (
                none_of d.composite_id (not-true _ no_composite),
                none_of d.composite_report_identity (not-true _ no_identity),
              );
            },
          )
    ]
