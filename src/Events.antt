-- ===== src/Events.antt =====
-- `archive/source_events.py`: a document and its lifecycle relationships as events. The values that are
-- the same in every event (the source system, the policies, the delivery mode) are constants.
pub mod Replay
mod Tests
use lotus_archive.Prelude.{
  ℕ, String, ◌<>◌, Bool, true, false, Option, none, some, List, [], ◌∷◌, ◌++◌, map, get_or, ltb,
  ◌==◌, string_eq, if◌then◌else◌,
}
use lotus_archive.Prelude.Sorting.{sorted}
use lotus_archive.Prelude.TextOrder.{text_le}
use lotus_archive.Composite.{CompositeCustodyIdentity}
use lotus_archive.Models.{
  ArchiveDocumentMetadata, LifecycleRelationshipRecord, LifecycleTransitionType,
  GeneratedReportType,
}
use lotus_archive.Models.Summaries.{
  ReviewedAdvisoryNarrativeArchiveSummary, AdvisorProposalMemoArchiveSummary,
  AdvisorCommentaryArchiveSummary, IdeaEvidencePackArchiveSummary,
}

pub record ArtifactRef : Type 0 where
  pub artifact_type : String
  pub artifact_id : String
  pub content_hash : Option String

-- the items of `_base_event` that depend on the document
pub record BaseEvent : Type 0 where
  pub portfolio_id : Option String
  pub composite_id : Option String
  pub composite_report_identity : Option CompositeCustodyIdentity
  pub report_type : GeneratedReportType
  pub report_job_id : String
  pub snapshot_id : String
  pub report_revision_id : Option String
  pub document_reference : Option String
  pub mime_type : String
  pub output_format : String
  pub render_job_id : String
  pub render_attempt_id : String
  pub report_data_contract_version : String
  pub template_id : String
  pub template_version : String
  pub document_id : String
  pub current_document_id : String
  pub content_hash : String
  pub retention_policy : String
  pub artifact_refs : List ArtifactRef

-- an event; one of a relationship has `transition_reason_code` besides
pub record SourceEvent : Type 0 where
  pub base : BaseEvent
  pub event_id : String
  pub event_type : String
  pub occurred_at : ℕ
  pub source_type : String
  pub source_id : String
  pub related_document_id : Option String
  pub transition_reason_code : Option String
  pub reason_codes : List String

abbrev reference : String → String → String → ArtifactRef
reference artifact_type artifact_id hash = record {
  artifact_type = artifact_type;
  artifact_id = artifact_id;
  content_hash = some hash;
}

abbrev unhashed : String → String → ArtifactRef
unhashed artifact_type artifact_id = record {
  artifact_type = artifact_type;
  artifact_id = artifact_id;
  content_hash = none;
}

abbrev pub content_hash_of : ArchiveDocumentMetadata → String
content_hash_of m = m.checksum_algorithm <> (":" <> m.checksum)

-- `if summary is not None`
abbrev for_present : {A B : Type 0} → Option A → (A → List B) → List B
for_present none f = []
for_present (some a) f = f a

-- `_artifact_refs`
unfoldable pub artifact_refs : ArchiveDocumentMetadata → List ArtifactRef
artifact_refs m =
    (reference "archive_document_metadata" m.document_id (content_hash_of m)
      ∷ unhashed "report_job" m.report_job_id
      ∷ unhashed "render_attempt" m.render_attempt_id
      ∷ [])
    ++ (for_present m.reviewed_advisory_narrative (λ s.
          reference "reviewed_advisory_narrative_package" s.package_id s.source_narrative_hash ∷ [])
        ++ (for_present m.advisor_proposal_memo
              (λ s. reference "advisor_proposal_memo_package" s.memo_id s.memo_hash ∷ [])
            ++ (for_present m.advisor_commentary
                  (λ s. reference "advisor_brief_accepted_output" s.run_id s.content_hash ∷ [])
                ++ for_present m.idea_evidence_pack (λ s.
                  reference "idea_evidence_pack" s.evidence_packet_id s.evidence_content_fingerprint
                  ∷ reference "report_evidence_pack" s.report_evidence_pack_id
                      s.evidence_content_fingerprint
                  ∷ []))))

-- `metadata.retention_policy_id or RETENTION_POLICY`
abbrev policy_or_default : Option String → String
policy_or_default none = "archive_document_retention_policy"
policy_or_default (some policy) =
    if policy == "" then "archive_document_retention_policy" else policy

-- `_base_event`
unfoldable pub base_event : ArchiveDocumentMetadata → (current_document_id : String) → BaseEvent
unfolding artifact_refs
base_event m current_document_id = record {
  portfolio_id = m.portfolio_id;
  composite_id = m.composite_id;
  composite_report_identity = m.composite_report_identity;
  report_type = m.report_type;
  report_job_id = m.report_job_id;
  snapshot_id = m.snapshot_id;
  report_revision_id = m.report_revision_id;
  document_reference = m.document_reference;
  mime_type = m.mime_type;
  output_format = m.output_format;
  render_job_id = m.render_job_id;
  render_attempt_id = m.render_attempt_id;
  report_data_contract_version = m.report_data_contract_version;
  template_id = m.template_id;
  template_version = m.template_version;
  document_id = m.document_id;
  current_document_id = current_document_id;
  content_hash = content_hash_of m;
  retention_policy = policy_or_default m.retention_policy_id;
  artifact_refs = artifact_refs m;
}

-- `_archive_created_event`
unfoldable pub archive_created_event : ArchiveDocumentMetadata → String → SourceEvent
unfolding base_event
archive_created_event m current_document_id = record {
  base = base_event m current_document_id;
  event_id = "archive:" <> (m.document_id <> ":created");
  event_type = "generated_document_archived";
  occurred_at = m.created_at;
  source_type = "archive_document";
  source_id = m.document_id;
  related_document_id = none;
  transition_reason_code = none;
  reason_codes =
      ("archive_metadata_persisted" ∷ "generated_document_checksum_preserved" ∷ [])
      ++ (for_present m.reviewed_advisory_narrative
            (λ _. "reviewed_advisory_narrative_archive_summary_preserved" ∷ [])
          ++ (for_present m.advisor_proposal_memo
                (λ _. "advisor_proposal_memo_archive_summary_preserved" ∷ [])
              ++ (for_present m.advisor_commentary
                    (λ _. "advisor_commentary_archive_summary_preserved" ∷ [])
                  ++ for_present m.idea_evidence_pack
                      (λ _. "idea_evidence_pack_archive_summary_preserved" ∷ []))));
}

-- `_event_type_for_lifecycle`
unfoldable pub event_type_for_lifecycle : LifecycleTransitionType → String
event_type_for_lifecycle LifecycleTransitionType.supersede = "generated_document_superseded"
event_type_for_lifecycle LifecycleTransitionType.correct = "generated_document_corrected"
event_type_for_lifecycle LifecycleTransitionType.reissue = "client_delivery_document_reissued"

-- the values of the enum, and the last reason code
abbrev transition_value : LifecycleTransitionType → String
transition_value LifecycleTransitionType.supersede = "supersede"
transition_value LifecycleTransitionType.correct = "correct"
transition_value LifecycleTransitionType.reissue = "reissue"

abbrev evidence_code : LifecycleTransitionType → String
evidence_code LifecycleTransitionType.reissue = "client_delivery_reissue_evidence"
evidence_code _ = "archive_document_lifecycle_evidence"

-- `_lifecycle_event`
unfoldable pub lifecycle_event :
    ArchiveDocumentMetadata → String → LifecycleRelationshipRecord → SourceEvent
unfolding base_event event_type_for_lifecycle
lifecycle_event m current_document_id r = record {
  base = base_event m current_document_id;
  event_id = "archive:" <> r.lifecycle_relationship_id;
  event_type = event_type_for_lifecycle r.transition_type;
  occurred_at = r.requested_at;
  source_type = "archive_lifecycle_relationship";
  source_id = r.lifecycle_relationship_id;
  related_document_id = some (
      if r.source_document_id == m.document_id then r.target_document_id else r.source_document_id);
  transition_reason_code = some r.transition_reason_code;
  reason_codes =
      ("archive_lifecycle_" <> transition_value r.transition_type)
      ∷ r.transition_reason_code
      ∷ evidence_code r.transition_type
      ∷ [];
}

-- `<=` of the keys `(requested_at, lifecycle_relationship_id)`
unfoldable pub relationship_le : LifecycleRelationshipRecord → LifecycleRelationshipRecord → Bool
relationship_le a b =
    if ltb a.requested_at b.requested_at
    then true
    else if ltb b.requested_at a.requested_at
    then false
    else text_le a.lifecycle_relationship_id b.lifecycle_relationship_id

unfoldable pub build_archive_document_source_events :
    ArchiveDocumentMetadata
    → (current_document_id : String) → List LifecycleRelationshipRecord
    → List SourceEvent
unfolding archive_created_event lifecycle_event relationship_le
build_archive_document_source_events m current_document_id relationships =
    archive_created_event m current_document_id
    ∷ map (lifecycle_event m current_document_id) (sorted relationship_le relationships)

-- `latest_event_time`
unfoldable pub latest_event_time : List SourceEvent → Option ℕ
latest_event_time [] = none
latest_event_time (event ∷ events) = elim (latest_event_time events) [
  | none ↦ some event.occurred_at
  | some latest ↦ some (if ltb latest event.occurred_at then event.occurred_at else latest)
]
