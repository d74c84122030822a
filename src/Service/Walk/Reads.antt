-- ===== src/Service/Walk/Reads.antt =====
-- The methods that read keep what their steps keep.
use lotus_archive.Prelude.{ℕ, String, Option, none, some, List, [], ◌∷◌}
use lotus_archive.Errors
use lotus_archive.Errors.{Error, Result, ok, err}
use lotus_archive.Exec.Moves.{Moves, Moves-try_except}
use lotus_archive.Environment.{Environment, Bytes}
use lotus_archive.Models.{ArchiveDocumentMetadata}
use lotus_archive.Audit.{CallerContext}
use lotus_archive.Service.World.{World}
use lotus_archive.Service.Walk.{IsKept, walk_rules, Moves-record_event}
use lotus_archive.Service.Walk.Access.{
  Moves-record_allowed, Moves-authorize, Moves-get_authorized_document_metadata,
  Moves-get_tenant_authorized_document_metadata,
}
use lotus_archive.Prelude.Dict.{Dict}
use lotus_archive.Service.Walk.Lifecycle.{Moves-resolve_current_document}
use lotus_archive.Service.Feed.{list_document_source_events}
use lotus_archive.Service.Reads.{
  BatchLookup, Evaluated, get_document_metadata, metadata_of_record,
  get_document_metadata_by_request_id, read_failed, verify_download, get_document_binary,
  list_access_events, record_preflight_audit, answer_preflight, preflight_document_access,
}

module _ (env : Environment) {R : World env → World env → Type 0} (K : IsKept env R) where
  pub Moves-get_document_metadata :
      (i : String) (caller : CallerContext) (trace : String)
      → Moves R (get_document_metadata env i caller trace)
  unfolding get_document_metadata
  Moves-get_document_metadata i caller trace =
      search (walk_rules, Moves-get_authorized_document_metadata, Moves-record_allowed)

  Moves-metadata_of_record :
      (o : Option ArchiveDocumentMetadata) (caller : CallerContext) (trace : String)
      → Moves R (metadata_of_record env o caller trace)
  unfolding metadata_of_record
  Moves-metadata_of_record none caller trace = search walk_rules
  Moves-metadata_of_record (some m) caller trace =
      Moves-get_document_metadata m.document_id caller trace

  pub Moves-get_document_metadata_by_request_id :
      (q : String) (caller : CallerContext) (trace : String)
      → Moves R (get_document_metadata_by_request_id env q caller trace)
  unfolding get_document_metadata_by_request_id
  Moves-get_document_metadata_by_request_id q caller trace =
      search (walk_rules, Moves-metadata_of_record)

  Moves-read_failed :
      (caller : CallerContext) (trace i : String) (e : Error)
      → Moves R (read_failed env caller trace i e)
  unfolding read_failed
  Moves-read_failed caller trace i Errors.storage_read_failed =
      search (walk_rules, Moves-record_allowed)
  Moves-read_failed caller trace i _ = search walk_rules

  Moves-verify_download :
      (m : ArchiveDocumentMetadata) (content : Bytes) (checksum : String) (caller : CallerContext)
      (trace i : String)
      → Moves R (verify_download env m content checksum caller trace i)
  unfolding verify_download
  Moves-verify_download m content checksum caller trace i =
      search (walk_rules, Moves-record_allowed)

  pub Moves-get_document_binary :
      (i : String) (caller : CallerContext) (trace : String)
      → Moves R (get_document_binary env i caller trace)
  unfolding get_document_binary
  Moves-get_document_binary i caller trace =
      search
        (
          walk_rules, Moves-get_authorized_document_metadata, Moves-try_except, Moves-read_failed,
          Moves-verify_download,
        )
        depth 9

  pub Moves-list_access_events :
      (i : String) (caller : CallerContext) (trace : String) (limit : Option ℕ) (offset : ℕ)
      → Moves R (list_access_events env i caller trace limit offset)
  unfolding list_access_events
  Moves-list_access_events i caller trace limit offset =
      search (walk_rules, Moves-get_tenant_authorized_document_metadata, Moves-record_allowed) depth
        9

  pub Moves-list_document_source_events :
      (i : String) (caller : CallerContext) (trace : String)
      → Moves R (list_document_source_events env i caller trace)
  unfolding list_document_source_events
  Moves-list_document_source_events i caller trace =
      search
        (
          walk_rules, Moves-get_tenant_authorized_document_metadata, Moves-resolve_current_document,
          Moves-record_allowed,
        )
        depth 9

  Moves-record_preflight_audit :
      (evaluated : List Evaluated) (caller : CallerContext) (trace : String) (b : BatchLookup)
      → Moves R (record_preflight_audit env b evaluated caller trace)
  unfolding record_preflight_audit
  Moves-record_preflight_audit [] caller trace b = search walk_rules
  Moves-record_preflight_audit ((item, reason) ∷ evaluated) caller trace b =
      search (walk_rules, Moves-record_event, Moves-record_preflight_audit evaluated)

  Moves-answer_preflight :
      (b : BatchLookup) (ids : List String) (caller : CallerContext) (trace : String)
      (r : Result (Dict ArchiveDocumentMetadata × List String))
      → Moves R (answer_preflight env b ids caller trace r)
  unfolding answer_preflight
  Moves-answer_preflight b ids caller trace (err Errors.lookup_unavailable) =
      search (walk_rules, Moves-record_preflight_audit)
  Moves-answer_preflight b ids caller trace (err _) = search walk_rules
  Moves-answer_preflight b ids caller trace (ok (documents, unavailable)) =
      search (walk_rules, Moves-record_preflight_audit)

  pub Moves-preflight_document_access :
      (b : BatchLookup) (ids : List String) (caller : CallerContext) (trace : String)
      → Moves R (preflight_document_access env b ids caller trace)
  unfolding preflight_document_access
  Moves-preflight_document_access b ids caller trace =
      search (walk_rules, Moves-authorize, Moves-answer_preflight) depth 9
