-- ===== src/Models.antt =====
-- The documents of the archive and their posture: `archive/models.py`.
-- `Summaries` has the four evidence summaries, `Input` what a caller submits, `Metadata` what is kept.
pub mod Summaries
pub mod Input
pub mod Metadata
pub mod Validation
pub mod Family
pub mod Valid
pub mod Revalidation
mod Tests
pub use Summaries.{
  ReviewedAdvisoryNarrativeArchiveSummary, AdvisorProposalMemoArchiveSummary,
  AdvisorCommentaryArchiveSummary, IdeaEvidencePackArchiveSummary,
}
pub use Input.{
  GeneratedReportType, DocumentClassification, ArchiveDocumentInput, report_type_eq, input_eq,
}
pub use Metadata.{
  PurgeStatus, LegalHoldStatus, LifecycleTransitionType, purge_status_eq, hold_status_eq,
  transition_eq, metadata_eq, ArchiveDocumentMetadata, LegalHoldRecord, LifecycleRelationshipRecord,
}
unfoldable pub use Metadata.{transition_reason_code, target_origin, set_target_origin}
