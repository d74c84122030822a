-- ===== src/Models/Input.antt =====
-- `ArchiveDocumentInput` of `archive/models.py`: what a caller submits with a document.
use lotus_archive.Prelude.{String, Option, Eq, string_discrete}
use lotus_archive.Calendar.{Date}
use lotus_archive.Composite.{CompositeCustodyIdentity}
use native.Mathlib.Decide.{ℕ_discrete}
use lotus_archive.Models.Summaries.{
  ReviewedAdvisoryNarrativeArchiveSummary, AdvisorProposalMemoArchiveSummary,
  AdvisorCommentaryArchiveSummary, IdeaEvidencePackArchiveSummary,
}

pub data GeneratedReportType : Type 0 where
  composite_review portfolio_review outcome_review proof_pack rebalance_wave : GeneratedReportType

pub data DocumentClassification : Type 0 where
  internal confidential restricted : DocumentClassification

unfoldable pub GeneratedReportType-discrete : Discrete GeneratedReportType
GeneratedReportType-discrete = hlevel

instance abbrev pub report_type_eq : Eq GeneratedReportType
report_type_eq = record { dec = GeneratedReportType-discrete }

pub record ArchiveDocumentInput : Type 0 where
  pub archive_request_id : String
  pub report_job_id : String
  pub report_request_id : String
  pub snapshot_id : String
  pub render_job_id : String
  pub render_attempt_id : String
  pub report_type : GeneratedReportType
  pub portfolio_scope : String
  pub portfolio_id : Option String
  pub composite_id : Option String
  pub composite_report_identity : Option CompositeCustodyIdentity
  pub client_reference : Option String
  pub as_of_date : Date
  pub reporting_period_start : Date
  pub reporting_period_end : Date
  pub frequency : String
  pub template_id : String
  pub template_version : String
  pub render_service_version : String
  pub report_data_contract_version : String
  pub mime_type : String
  pub output_format : String
  pub classification : DocumentClassification
  pub region : String
  pub tenant_id : String
  pub retention_policy_id : Option String
  pub retention_start_date : Option Date
  pub retain_until_date : Option Date
  pub reviewed_advisory_narrative : Option ReviewedAdvisoryNarrativeArchiveSummary
  pub advisor_proposal_memo : Option AdvisorProposalMemoArchiveSummary
  pub advisor_commentary : Option AdvisorCommentaryArchiveSummary
  pub idea_evidence_pack : Option IdeaEvidencePackArchiveSummary
  pub created_by_service : String
  pub created_by_actor : String
  pub document_reference : Option String
  pub declared_artifact_sha256 : Option String
  pub render_runtime_engine : Option String
  pub render_runtime_engine_version : Option String
  pub template_digest : Option String
  pub template_publication : Option String
  pub report_revision_id : Option String

unfoldable pub ArchiveDocumentInput-discrete : Discrete ArchiveDocumentInput
ArchiveDocumentInput-discrete = hlevel (ℕ_discrete, string_discrete)

-- equality of `model_dump()`: every field agrees
instance abbrev pub input_eq : Eq ArchiveDocumentInput
input_eq = record { dec = ArchiveDocumentInput-discrete }
