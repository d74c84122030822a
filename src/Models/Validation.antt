-- ===== src/Models/Validation.antt =====
-- The validators of `ArchiveDocumentInput` in `archive/models.py`. Every refusal is one pydantic
-- `ValidationError`, `model_validation` here. The lengths that `Field` bounds are left out.
use lotus_archive.Prelude.{
  String, Bool, true, false, not, ◌&&◌, ◌||◌, Option, none, some, is_some, get_or, ◌==◌, string_eq,
  option_eq, if◌then◌else◌,
}
use lotus_archive.Prelude.Texts.{removeprefix, has_char, is_hex_digest}
use lotus_archive.Calendar.{Date, before, date_eq}
use lotus_archive.Errors.{Result, ok, err, raise_if, model_validation, ◌>>=◌, ◌>>◌}
use lotus_archive.Composite.Identity.{CompositeCustodyIdentity}
use lotus_archive.Composite.Identity
use lotus_archive.Models.Input.{ArchiveDocumentInput, GeneratedReportType, report_type_eq}

-- `pin.tenant_id`, and the scope of the pin or of its source request
pub record PinnedScope : Type 0 where
  pub tenant_id : String
  pub composite_id : String
  pub period_start : Date
  pub period_end : Date

unfoldable pub pinned_scope : CompositeCustodyIdentity → PinnedScope
pinned_scope (Identity.v1 s _) = record {
  tenant_id = s.tenant_id;
  composite_id = s.composite_id;
  period_start = s.period_start;
  period_end = s.period_end;
}
pinned_scope (Identity.v2 s _ _) = record {
  tenant_id = s.tenant_id;
  composite_id = s.composite_id;
  period_start = s.period_start;
  period_end = s.period_end;
}
pinned_scope (Identity.v3 s _) = record {
  tenant_id = s.tenant_id;
  composite_id = s.source_request.composite_id;
  period_start = s.source_request.period_start;
  period_end = s.source_request.period_end;
}
pinned_scope (Identity.v4 s _) = record {
  tenant_id = s.tenant_id;
  composite_id = s.composite_id;
  period_start = s.period_start;
  period_end = s.period_end;
}
pinned_scope (Identity.v5 s _) = record {
  tenant_id = s.tenant_id;
  composite_id = s.composite_id;
  period_start = s.period_start;
  period_end = s.period_end;
}
pinned_scope (Identity.v6 s _) = record {
  tenant_id = s.tenant_id;
  composite_id = s.composite_id;
  period_start = s.period_start;
  period_end = s.period_end;
}
pinned_scope (Identity.v7 s _) = record {
  tenant_id = s.tenant_id;
  composite_id = s.composite_id;
  period_start = s.period_start;
  period_end = s.period_end;
}
pinned_scope (Identity.v8 s _ _ _ _) = record {
  tenant_id = s.tenant_id;
  composite_id = s.composite_id;
  period_start = s.period_start;
  period_end = s.period_end;
}

-- `identity.contract_version`, and its part after the last dot
unfoldable pub contract_version : CompositeCustodyIdentity → String
contract_version (Identity.v1 _ _) = "composite_review.v1"
contract_version (Identity.v2 _ _ _) = "composite_review.v2"
contract_version (Identity.v3 _ _) = "composite_review.v3"
contract_version (Identity.v4 _ _) = "composite_review.v4"
contract_version (Identity.v5 _ _) = "composite_review.v5"
contract_version (Identity.v6 _ _) = "composite_review.v6"
contract_version (Identity.v7 _ _) = "composite_review.v7"
contract_version (Identity.v8 _ _ _ _ _) = "composite_review.v8"

unfoldable pub contract_suffix : CompositeCustodyIdentity → String
contract_suffix (Identity.v1 _ _) = "v1"
contract_suffix (Identity.v2 _ _ _) = "v2"
contract_suffix (Identity.v3 _ _) = "v3"
contract_suffix (Identity.v4 _ _) = "v4"
contract_suffix (Identity.v5 _ _) = "v5"
contract_suffix (Identity.v6 _ _) = "v6"
contract_suffix (Identity.v7 _ _) = "v7"
contract_suffix (Identity.v8 _ _ _ _ _) = "v8"

-- `bool(text)`
abbrev pub is_filled : Option String → Bool
is_filled none = false
is_filled (some s) = not (s == "")

-- `_report_scope_must_agree`, for a composite report with an identity
unfoldable pub matches_scope : ArchiveDocumentInput → PinnedScope → Bool
matches_scope d scope =
    scope.tenant_id == d.tenant_id
    && (some scope.composite_id == d.composite_id
        && (scope.period_start == d.reporting_period_start
            && (scope.period_end == d.reporting_period_end && d.as_of_date == scope.period_end)))

unfoldable pub has_xlsx_contract : ArchiveDocumentInput → CompositeCustodyIdentity → Bool
unfolding contract_version contract_suffix
has_xlsx_contract d identity =
    d.template_id == "composite-review"
    && (d.template_version == contract_suffix identity
        && (d.report_data_contract_version == contract_version identity
            && (d.output_format == "xlsx"
                && d.mime_type
                  == "application/vnd.openxmlformats-officedocument.spreadsheetml.sheet")))

unfoldable pub composite_agrees : ArchiveDocumentInput → Option CompositeCustodyIdentity → Bool
unfolding matches_scope has_xlsx_contract pinned_scope
composite_agrees d none = false
composite_agrees d (some identity) =
    is_filled d.composite_id
    && (matches_scope d (pinned_scope identity)
        && (has_xlsx_contract d identity
            && (is_filled d.report_revision_id
                && (is_filled d.document_reference && is_filled d.declared_artifact_sha256))))

-- `_report_scope_must_agree`
unfoldable pub report_scope_agrees : ArchiveDocumentInput → Bool
unfolding composite_agrees
report_scope_agrees d =
    if d.report_type == GeneratedReportType.composite_review
    then d.portfolio_scope == "composite"
      && (not (is_some d.portfolio_id) && composite_agrees d d.composite_report_identity)
    else is_some d.portfolio_id
      && (not (d.portfolio_scope == "composite")
          && (not (is_some d.composite_id) && not (is_some d.composite_report_identity)))

-- a summary that is there is of a portfolio review
abbrev pub is_portfolio_summary : ArchiveDocumentInput → Bool → Bool
is_portfolio_summary d there =
    not there
    || (d.report_type == GeneratedReportType.portfolio_review
        && d.template_id == "portfolio-review")

abbrev pub is_proof_summary : ArchiveDocumentInput → Bool → Bool
is_proof_summary d there =
    not there
    || (d.report_type == GeneratedReportType.proof_pack
        && (d.template_id == "proof-pack"
            && d.report_data_contract_version == "dpm_proof_pack_report_input.v1"))

abbrev pub retention_is_ordered : Option Date → Option Date → Bool
retention_is_ordered (some start) (some until) = not (before until start)
retention_is_ordered _ _ = true

-- `_dates_must_be_ordered`
unfoldable pub dates_are_ordered : ArchiveDocumentInput → Bool
dates_are_ordered d =
    not (before d.reporting_period_end d.reporting_period_start)
    && (retention_is_ordered d.retention_start_date d.retain_until_date
        && (is_portfolio_summary d (is_some d.reviewed_advisory_narrative)
            && (is_portfolio_summary d (is_some d.advisor_proposal_memo)
                && (is_portfolio_summary d (is_some d.advisor_commentary)
                    && is_proof_summary d (is_some d.idea_evidence_pack)))))

-- the validators of the model
unfoldable pub checked : ArchiveDocumentInput → Result ArchiveDocumentInput
unfolding report_scope_agrees dates_are_ordered
checked d =
    raise_if (not (report_scope_agrees d)) model_validation
    >> raise_if (not (dates_are_ordered d)) model_validation
    >> ok d

-- the document with the two fields that their validators answer
abbrev pub normalized :
    ArchiveDocumentInput → (declared publication : Option String) → ArchiveDocumentInput
normalized d declared publication = record d {
  declared_artifact_sha256 = declared;
  template_publication = publication;
}

module _ (strip lower : String → String) where
  -- `_template_publication_must_be_bounded`
  unfoldable pub bounded_publication : Option String → Result (Option String)
  bounded_publication none = ok none
  bounded_publication (some value) =
      let normalized = lower (strip value) in
      if normalized == "published" || normalized == "development"
      then ok (some normalized)
      else err model_validation

  -- `_declared_sha256_must_be_hex_digest`
  unfoldable pub declared_digest : Option String → Result (Option String)
  declared_digest none = ok none
  declared_digest (some value) =
      let lowered = lower (strip value) in
      let normalized = get_or (removeprefix "sha256:" lowered) lowered in
      if is_hex_digest normalized then ok (some normalized) else err model_validation

  abbrev pub published_as :
      ArchiveDocumentInput → (declared : Option String) → Result ArchiveDocumentInput
  published_as d declared = bounded_publication d.template_publication >>= λ publication.
      checked (normalized d declared publication)

  -- the validators of a field, and then those of the model
  unfoldable pub validated : ArchiveDocumentInput → Result ArchiveDocumentInput
  unfolding bounded_publication declared_digest checked
  validated d =
      raise_if (not (has_char b'/' d.mime_type)) model_validation
      >> (declared_digest d.declared_artifact_sha256 >>= published_as d)
