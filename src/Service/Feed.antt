-- ===== src/Service/Feed.antt =====
-- The events of a document, for other services: `list_document_source_events`.
use lotus_archive.Prelude.{String, none, List}
use lotus_archive.Exec.{pure, gets, ◌>>=◌, ◌>>◌}
use lotus_archive.Environment.{Environment}
use lotus_archive.Models.{ArchiveDocumentMetadata}
use lotus_archive.Audit.{CallerContext, AccessEventType}
use lotus_archive.Authorization.Policy.{ArchivePermission}
use lotus_archive.Repository.State.{list_lifecycle_relationships}
use lotus_archive.Events.{SourceEvent, build_archive_document_source_events}
use lotus_archive.Service.World.{Archive}
use lotus_archive.Service.Access.{get_tenant_authorized_document_metadata, record_allowed}
use lotus_archive.Service.Lifecycle.{resolve_current_document}

abbrev pub Feed : Type 0
Feed = ArchiveDocumentMetadata × ArchiveDocumentMetadata × List SourceEvent

module _ (env : Environment) where
  unfoldable pub list_document_source_events : String → CallerContext → String → Archive env Feed
  list_document_source_events document_id caller trace_id = do
    m ←
        get_tenant_authorized_document_metadata env document_id ArchivePermission.read_metadata
          caller trace_id
    current ← resolve_current_document env m caller trace_id
    relationships ← gets (λ w. list_lifecycle_relationships document_id w.repository)
    let events = build_archive_document_source_events m current.document_id relationships
    record_allowed env AccessEventType.source_events_read caller trace_id document_id none
    pure (m, current, events)
