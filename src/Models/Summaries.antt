-- ===== src/Models/Summaries.antt =====
-- The evidence summaries of `archive/models.py`. Fields that can hold one literal only (the review
-- state, the audience, the schema names and versions) are left out.
use lotus_archive.Prelude.{ℕ, String, Bool, List}

pub record ReviewedAdvisoryNarrativeArchiveSummary : Type 0 where
  pub package_id : String
  pub review_id : String
  pub client_ready_status : String
  pub policy_version : String
  pub source_narrative_hash : String
  pub report_data_narrative_hash : String
  pub guardrail_status : String
  pub section_count : ℕ
  pub disclosure_ref_count : ℕ
  pub limitation_count : ℕ
  pub included_in_render : Bool

pub record AdvisorProposalMemoArchiveSummary : Type 0 where
  pub memo_id : String
  pub proposal_id : String
  pub proposal_version_no : ℕ
  pub review_event_id : String
  pub review_action : String
  pub client_ready_status : String
  pub memo_hash : String
  pub source_input_hash : String
  pub section_count : ℕ
  pub blocked_section_count : ℕ
  pub included_in_render : Bool

pub record AdvisorCommentaryArchiveSummary : Type 0 where
  pub run_id : String
  pub request_id : String
  pub reviewed_by : String
  pub reviewed_at : String
  pub content_hash : String
  pub included_in_render : Bool

pub record IdeaEvidencePackArchiveSummary : Type 0 where
  pub report_evidence_pack_id : String
  pub conversion_intent_id : String
  pub candidate_id : String
  pub evidence_packet_id : String
  pub evidence_content_fingerprint : String
  pub source_summary_count : ℕ
  pub reason_codes : List String
  pub retention_policy_ref : String
  pub included_in_render : Bool
