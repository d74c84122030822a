-- ===== src/Samples.antt =====
-- Small inputs for the tests and the examples.
use lotus_archive.Prelude.{ℕ, String, none, some}
use lotus_archive.Calendar.{Date}
use lotus_archive.Models.{
  ArchiveDocumentInput, ArchiveDocumentMetadata, LegalHoldRecord, LegalHoldStatus,
  GeneratedReportType, DocumentClassification,
}
use lotus_archive.Models.Metadata.{PurgeStatus}

abbrev pub date : ℕ → ℕ → ℕ → Date
date y m d = record { year = y; month = m; day = d }

abbrev pub input : String → ArchiveDocumentInput
input request_id = record {
  archive_request_id = request_id;
  report_job_id = "job";
  report_request_id = "request";
  snapshot_id = "snapshot";
  render_job_id = "render";
  render_attempt_id = "attempt";
  report_type = GeneratedReportType.proof_pack;
  portfolio_scope = "portfolio";
  portfolio_id = some "p1";
  composite_id = none;
  composite_report_identity = none;
  client_reference = none;
  as_of_date = date 2024 3 31;
  reporting_period_start = date 2024 1 1;
  reporting_period_end = date 2024 3 31;
  frequency = "quarterly";
  template_id = "proof-pack";
  template_version = "1";
  render_service_version = "1";
  report_data_contract_version = "v1";
  mime_type = "application/pdf";
  output_format = "pdf";
  classification = DocumentClassification.internal;
  region = "SG";
  tenant_id = "bank";
  retention_policy_id = some "seven_years";
  retention_start_date = none;
  retain_until_date = some (date 2031 3 31);
  reviewed_advisory_narrative = none;
  advisor_proposal_memo = none;
  advisor_commentary = none;
  idea_evidence_pack = none;
  created_by_service = "lotus-render";
  created_by_actor = "system";
  document_reference = none;
  declared_artifact_sha256 = none;
  render_runtime_engine = none;
  render_runtime_engine_version = none;
  template_digest = none;
  template_publication = none;
  report_revision_id = none;
}

abbrev pub document : (request_id document_id : String) → ArchiveDocumentMetadata
document request_id document_id = record {
  input = input request_id;
  document_id = document_id;
  storage_provider = "filesystem";
  storage_namespace = "local-development";
  storage_key = document_id;
  checksum_algorithm = "sha256";
  checksum = "00";
  size_bytes = 2;
  purge_eligible_at = none;
  purge_started_at = none;
  purged_at = none;
  purge_status = PurgeStatus.not_eligible;
  legal_hold_status = LegalHoldStatus.clear;
  legal_hold_count = 0;
  supersedes_document_id = none;
  superseded_by_document_id = none;
  correction_of_document_id = none;
  reissue_of_document_id = none;
  created_at = 1;
  updated_at = 1;
}

abbrev pub hold : (legal_hold_id document_id : String) → LegalHoldRecord
hold legal_hold_id document_id = record {
  legal_hold_id = legal_hold_id;
  document_id = document_id;
  hold_status = LegalHoldStatus.active;
  hold_reason = "litigation";
  authority_reference = "case 7";
  requested_by = "officer";
  requested_at = 2;
  released_by = none;
  released_at = none;
  release_reason = none;
}
