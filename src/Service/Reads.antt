-- ===== src/Service/Reads.antt =====
-- The methods that read: metadata, bytes, the audit trail, source events and the access preflight.
use lotus_archive.Prelude.{
  ℕ, String, Option, none, some, List, [], ◌∷◌, map, length, contains, ltb, ◌==◌, string_eq, nat_eq,
  if◌then◌else◌,
}
use lotus_archive.Prelude.Dict
use lotus_archive.Prelude.Dict.{Dict}
use lotus_archive.Errors.{
  Error, Result, ok, err, metadata_validation, document_not_found, document_checksum_mismatch,
  storage_read_failed, lookup_unavailable,
}
use lotus_archive.Exec.{pure, raise, lift, gets, try_except, ◌>>=◌, ◌>>◌}
use lotus_archive.Environment.{Environment, Bytes}
use lotus_archive.Models.{ArchiveDocumentMetadata}
use lotus_archive.Audit.{
  AccessAuditEvent, CallerContext, AccessEventType, AuthorizationDecision, list_by_document_id,
  count_by_document_id,
}
use lotus_archive.Authorization.Policy.{ArchivePermission}
use lotus_archive.Authorization.Scope.{
  ArchiveAccessState, ArchiveAccessReasonCode, state_eq, reason_value, require_caller_scope,
}
use lotus_archive.Preflight.{
  ArchiveAccessPreflightItem, ArchiveAccessResultState, max_preflight_document_ids, preflight_item,
  result_state_for_items,
}
use lotus_archive.Repository.State.{Repository, get_by_archive_request_id}
use lotus_archive.Service.World.{Archive, record_event, storage_get}
use lotus_archive.Service.Access.{
  record_allowed, authorize, get_authorized_document_metadata,
  get_tenant_authorized_document_metadata,
}
use lotus_archive.Checksum.{calculate_checksum}

module _ (env : Environment) where
  unfoldable pub get_document_metadata :
      String → CallerContext → String → Archive env ArchiveDocumentMetadata
  get_document_metadata document_id caller trace_id = do
    m ←
        get_authorized_document_metadata env document_id ArchivePermission.read_metadata caller
          trace_id
    record_allowed env AccessEventType.metadata_read caller trace_id document_id none
    pure m

  unfoldable pub metadata_of_record :
      Option ArchiveDocumentMetadata → CallerContext → String → Archive env ArchiveDocumentMetadata
  metadata_of_record none caller trace_id = raise (document_not_found "document_not_found")
  metadata_of_record (some m) caller trace_id = get_document_metadata m.document_id caller trace_id

  unfoldable pub get_document_metadata_by_request_id :
      String → CallerContext → String → Archive env ArchiveDocumentMetadata
  unfolding metadata_of_record
  get_document_metadata_by_request_id archive_request_id caller trace_id = do
    lookup ← gets (λ w. get_by_archive_request_id archive_request_id w.repository)
    found ← lift lookup
    metadata_of_record found caller trace_id

  abbrev pub record_download : CallerContext → String → String → String → Archive env (Unit {0})
  record_download caller trace_id document_id reason =
      record_allowed env AccessEventType.binary_download caller trace_id document_id (some reason)

  -- `except StorageReadFailedError`
  unfoldable pub read_failed : CallerContext → String → String → Error → Archive env Bytes
  read_failed caller trace_id document_id storage_read_failed = do
    record_download caller trace_id document_id "document_binary_missing"
    raise storage_read_failed
  read_failed caller trace_id document_id e = raise e

  unfoldable pub verify_download :
      ArchiveDocumentMetadata
      → Bytes
      → String
      → CallerContext
      → String
      → String
      → Archive env (ArchiveDocumentMetadata × Bytes)
  verify_download m content checksum caller trace_id document_id =
      if checksum == m.checksum
      then (do record_download caller trace_id document_id "download_succeeded"; pure (m, content))
      else do
        record_download caller trace_id document_id "document_checksum_mismatch"
        raise document_checksum_mismatch

  unfoldable pub get_document_binary :
      String → CallerContext → String → Archive env (ArchiveDocumentMetadata × Bytes)
  unfolding read_failed verify_download
  get_document_binary document_id caller trace_id = do
    m ←
        get_authorized_document_metadata env document_id ArchivePermission.download_binary caller
          trace_id
    content ← try_except (storage_get env m.storage_key) (read_failed caller trace_id document_id)
    checksum ← lift (calculate_checksum env.lower env.sha256 content m.checksum_algorithm)
    verify_download m content checksum caller trace_id document_id

  unfoldable pub list_access_events :
      String
      → CallerContext
      → String
      → (limit : Option ℕ) (offset : ℕ) → Archive env (List AccessAuditEvent × ℕ)
  list_access_events document_id caller trace_id limit offset = do
    get_tenant_authorized_document_metadata env document_id ArchivePermission.read_access_events
        caller trace_id
    record_allowed env AccessEventType.access_events_read caller trace_id document_id none
    events ← gets (λ w. list_by_document_id (some document_id) limit offset w.events)
    total ← gets (λ w. count_by_document_id (some document_id) w.events)
    pure (events, total)

-- What a repository's batch look-up answers: the documents found, and the identifiers that it could
-- not look up.
abbrev pub BatchLookup : Type 0
BatchLookup = List String → Repository → Result (Dict ArchiveDocumentMetadata × List String)

abbrev pub Evaluated : Type 0
Evaluated = ArchiveAccessPreflightItem × ArchiveAccessReasonCode

module _ (env : Environment) (batch_lookup : BatchLookup) where
  unfoldable pub unavailable_item : String → Evaluated
  unavailable_item document_id = (
    record {
      document_id = document_id;
      state = ArchiveAccessState.unavailable;
      reason_code = ArchiveAccessReasonCode.lookup_unavailable;
    },
    ArchiveAccessReasonCode.lookup_unavailable,
  )

  unfoldable pub evaluate_items :
      List String → Dict ArchiveDocumentMetadata → List String → CallerContext → List Evaluated
  evaluate_items [] documents unavailable caller = []
  evaluate_items (i ∷ ids) documents unavailable caller =
      preflight_item env.casefold i (Dict.lookup i documents) (contains unavailable i) caller
      ∷ evaluate_items ids documents unavailable caller

  abbrev pub audit_decision : ArchiveAccessPreflightItem → AuthorizationDecision
  audit_decision item =
      if item.state == ArchiveAccessState.allowed
      then AuthorizationDecision.allowed
      else AuthorizationDecision.denied

  -- `_record_preflight_audit`
  unfoldable pub record_preflight_audit :
      List Evaluated → CallerContext → String → Archive env (Unit {0})
  record_preflight_audit [] caller trace_id = pure tt
  record_preflight_audit ((item, reason) ∷ evaluated) caller trace_id = do
    record_event env AccessEventType.batch_access_preflight caller trace_id (audit_decision item)
        (reason_value reason) (some item.document_id) (some (reason_value reason))
    record_preflight_audit evaluated caller trace_id

  abbrev pub items_of : List Evaluated → List ArchiveAccessPreflightItem
  items_of = map (λ e. e.0)

  abbrev pub PreflightResult : Type 0
  PreflightResult = List ArchiveAccessPreflightItem × ArchiveAccessResultState

  unfoldable pub answer_preflight :
      List String
      → CallerContext
      → String
      → Result (Dict ArchiveDocumentMetadata × List String)
      → Archive env PreflightResult
  unfolding unavailable_item record_preflight_audit
  answer_preflight ids caller trace_id (err lookup_unavailable) = do
    let evaluated = map unavailable_item ids
    record_preflight_audit evaluated caller trace_id
    pure (items_of evaluated, ArchiveAccessResultState.unavailable)
  answer_preflight ids caller trace_id (err e) = raise e
  answer_preflight ids caller trace_id (ok (documents, unavailable)) = do
    let evaluated = evaluate_items ids documents unavailable caller
    record_preflight_audit evaluated caller trace_id
    pure (items_of evaluated, result_state_for_items (items_of evaluated))

  unfoldable pub preflight_document_access :
      List String → CallerContext → String → Archive env PreflightResult
  unfolding answer_preflight
  preflight_document_access document_ids caller trace_id =
      if length document_ids == 0
      then raise (metadata_validation "access preflight requires at least one document id")
      else if ltb max_preflight_document_ids (length document_ids)
      then raise
          (metadata_validation "access preflight accepts at most 100 document ids per request")
      else do
        authorize env ArchivePermission.read_batch_access_preflight caller trace_id none
        lift (require_caller_scope caller)
        answer ← gets (λ w. batch_lookup document_ids w.repository)
        answer_preflight document_ids caller trace_id answer
