-- ===== src/Service/Denial.antt =====
-- Callers outside the policy: what the methods whose first check is a permission answer them, and the look-up by request.
use lotus_archive.Prelude.{
  suc, String, ◌<>◌, ◌≡◌, refl, false, Option, none, some, [], ◌∷◌, ◌++◌, contains, string_eq,
}
use lotus_archive.Errors.{ok, err, authorization_failed, document_not_found}
use lotus_archive.Exec.{raise, gets, lift, ◌>>=◌, bind-eq-err}
use lotus_archive.Environment.{Environment}
use lotus_archive.Models.{ArchiveDocumentMetadata}
use lotus_archive.Audit.{
  AccessAuditEvent, AccessEventType, AuthorizationDecision, CallerContext, access_audit_event,
}
use lotus_archive.Authorization.Policy.{ArchivePermission, allowed_callers_for, caller_not_allowed}
use lotus_archive.Repository.State.{get_by_archive_request_id}
use lotus_archive.Service.World.{World, new_id, utc_now, record_event, append_event}
use lotus_archive.Service.Access.{
  authorize, get_authorized_document_metadata, get_tenant_authorized_document_metadata,
}
use lotus_archive.Service.Purge.{get_retention, evaluate_purge, purge_document}
use lotus_archive.Service.Holds.{set_legal_hold, release_legal_hold}
use lotus_archive.Service.Lifecycle.{get_current_document_metadata, transition_document}
use lotus_archive.Service.Writer.{create_document}
use lotus_archive.Service.Reads.{
  BatchLookup, get_document_metadata, get_document_metadata_by_request_id, metadata_of_record,
  get_document_binary, list_access_events,
}
use lotus_archive.Service.Feed.{list_document_source_events}
use lotus_archive.Service.Requests.{
  Operation, create, metadata, binary, retention, current, source_events, access_events,
  purge_evaluation, purge, set_hold, release_hold, transition, perform,
}

-- The permission and the document that the first check of an operation is about. The look-up by request
-- and the preflight check other things first, and the posture is not for callers.
pub data Requires : Operation → ArchivePermission → Option String → Type 0 where
  of_create :
      {d : _} {content : _} → Requires (create d content) ArchivePermission.create_document none
  of_metadata : {i : _} → Requires (metadata i) ArchivePermission.read_metadata (some i)
  of_binary : {i : _} → Requires (binary i) ArchivePermission.download_binary (some i)
  of_retention : {i : _} → Requires (retention i) ArchivePermission.read_retention (some i)
  of_current : {i : _} → Requires (current i) ArchivePermission.read_metadata (some i)
  of_source_events : {i : _} → Requires (source_events i) ArchivePermission.read_metadata (some i)
  of_access_events :
      {i : _} {limit : _} {offset : _}
      → Requires (access_events i limit offset) ArchivePermission.read_access_events (some i)
  of_purge_evaluation :
      {i : _} {date : _}
      → Requires (purge_evaluation i date) ArchivePermission.evaluate_purge (some i)
  of_purge : {i : _} {date : _} → Requires (purge i date) ArchivePermission.execute_purge (some i)
  of_set_hold :
      {i : _} {command : _}
      → Requires (set_hold i command) ArchivePermission.manage_legal_hold (some i)
  of_release_hold :
      {i : _} {hold : _} {why : _}
      → Requires (release_hold i hold why) ArchivePermission.manage_legal_hold (some i)
  of_transition :
      {t : _} {i : _} {command : _}
      → Requires (transition t i command) ArchivePermission.manage_lifecycle (some i)

module _ (env : Environment) where
  abbrev pub denied_event :
      CallerContext → String → String → Option String → World env → AccessAuditEvent
  denied_event caller trace reason document_id w =
      access_audit_event ("audit_" <> env.uuid4_hex w.draws) (env.utc_now (suc w.draws))
        AccessEventType.authorization_denied caller trace AuthorizationDecision.denied reason
        document_id none

  -- the state after a refusal: one more event, and two readings
  abbrev pub after_denial : AccessAuditEvent → World env → World env
  after_denial event w = record w { events = w.events ++ event ∷ []; draws = suc (suc w.draws) }

  module _ (p : ArchivePermission) (caller : CallerContext) (trace : String)
      (outside : contains (allowed_callers_for env.authorization_policy p) caller.caller_service
        ≡ false)
      (w : World env) where
    abbrev refused : Option String → World env
    refused i = after_denial (denied_event caller trace (caller_not_allowed p) i w) w

    pub authorize-denied :
        (i : Option String)
        → authorize env p caller trace i w
          ≡ (err (authorization_failed (caller_not_allowed p)), refused i)
    unfolding authorize ◌>>=◌ raise record_event new_id utc_now append_event
    authorize-denied i = rw outside refl

    tenant-denied :
        (i : String)
        → get_tenant_authorized_document_metadata env i p caller trace w
          ≡ (err (authorization_failed (caller_not_allowed p)), refused (some i))
    unfolding get_tenant_authorized_document_metadata
    tenant-denied i = bind-eq-err _ _ (authorize-denied (some i))

    document-denied :
        (i : String)
        → get_authorized_document_metadata env i p caller trace w
          ≡ (err (authorization_failed (caller_not_allowed p)), refused (some i))
    unfolding get_authorized_document_metadata
    document-denied i = bind-eq-err _ _ (authorize-denied (some i))

  -- A caller that the policy does not allow the permission of an operation is refused with the code of
  -- that permission; the refusal adds one audit event, that of the denial, and neither the repository
  -- nor the stored objects change.
  pub outsiders_change_nothing :
      (batch_lookup : BatchLookup) (operation : Operation) (p : ArchivePermission)
      (i : Option String) (caller : CallerContext) (trace : String)
      → Requires operation p i
      → contains (allowed_callers_for env.authorization_policy p) caller.caller_service ≡ false
      → (w : World env)
      → perform env batch_lookup operation caller trace w ≡ (
        err (authorization_failed (caller_not_allowed p)),
        after_denial (denied_event caller trace (caller_not_allowed p) i w) w,
      )
  unfolding perform create_document get_document_metadata get_document_binary get_retention
      get_current_document_metadata list_document_source_events list_access_events evaluate_purge
      purge_document set_legal_hold release_legal_hold transition_document
  outsiders_change_nothing b operation p i caller trace of_create out w =
      bind-eq-err _ _ (bind-eq-err _ _ (authorize-denied p caller trace out w _))
  outsiders_change_nothing b operation p i caller trace of_metadata out w =
      bind-eq-err _ _ (bind-eq-err _ _ (document-denied p caller trace out w _))
  outsiders_change_nothing b operation p i caller trace of_binary out w =
      bind-eq-err _ _ (bind-eq-err _ _ (document-denied p caller trace out w _))
  outsiders_change_nothing b operation p i caller trace of_retention out w =
      bind-eq-err _ _ (bind-eq-err _ _ (tenant-denied p caller trace out w _))
  outsiders_change_nothing b operation p i caller trace of_current out w =
      bind-eq-err _ _ (bind-eq-err _ _ (document-denied p caller trace out w _))
  outsiders_change_nothing b operation p i caller trace of_source_events out w =
      bind-eq-err _ _ (bind-eq-err _ _ (tenant-denied p caller trace out w _))
  outsiders_change_nothing b operation p i caller trace of_access_events out w =
      bind-eq-err _ _ (bind-eq-err _ _ (tenant-denied p caller trace out w _))
  outsiders_change_nothing b operation p i caller trace of_purge_evaluation out w =
      bind-eq-err _ _ (bind-eq-err _ _ (tenant-denied p caller trace out w _))
  outsiders_change_nothing b operation p i caller trace of_purge out w =
      bind-eq-err _ _ (bind-eq-err _ _ (tenant-denied p caller trace out w _))
  outsiders_change_nothing b operation p i caller trace of_set_hold out w =
      bind-eq-err _ _ (bind-eq-err _ _ (tenant-denied p caller trace out w _))
  outsiders_change_nothing b operation p i caller trace of_release_hold out w =
      bind-eq-err _ _ (bind-eq-err _ _ (tenant-denied p caller trace out w _))
  outsiders_change_nothing b operation p i caller trace of_transition out w =
      bind-eq-err _ _ (bind-eq-err _ _ (authorize-denied p caller trace out w _))

  metadata-denied :
      (i : String) (caller : CallerContext) (trace : String) (w : World env)
      → contains
          (allowed_callers_for env.authorization_policy ArchivePermission.read_metadata)
          caller.caller_service
        ≡ false
      → get_document_metadata env i caller trace w ≡ (
        err (authorization_failed (caller_not_allowed ArchivePermission.read_metadata)),
        after_denial
            (denied_event caller trace
              (caller_not_allowed ArchivePermission.read_metadata)
              (some i)
              w)
            w,
      )
  unfolding get_document_metadata
  metadata-denied i caller trace w outside =
      bind-eq-err _ _ (document-denied ArchivePermission.read_metadata caller trace outside w i)

  -- The look-up by archive request tells every caller which requests are known. For a caller that the
  -- policy does not allow to read, a request that is not indexed is answered "document_not_found" and
  -- leaves the state as it was, and one that is indexed is refused like the read of its document, with a denial on
  -- the audit trail.
  pub request_lookup_tells_outsiders :
      (q : String) (caller : CallerContext) (trace : String) (w : World env)
      → contains
          (allowed_callers_for env.authorization_policy ArchivePermission.read_metadata)
          caller.caller_service
        ≡ false
      → (get_by_archive_request_id q w.repository ≡ ok none
          → get_document_metadata_by_request_id env q caller trace w
            ≡ (err (document_not_found "document_not_found"), w))
        × ((m : ArchiveDocumentMetadata)
            → get_by_archive_request_id q w.repository ≡ ok (some m)
            → get_document_metadata_by_request_id env q caller trace w ≡ (
              err (authorization_failed "read_metadata_caller_not_allowed"),
              after_denial
                  (denied_event caller trace "read_metadata_caller_not_allowed"
                    (some m.document_id)
                    w)
                  w,
            ))
  unfolding get_document_metadata_by_request_id metadata_of_record caller_not_allowed gets lift
      raise ◌>>=◌
  request_lookup_tells_outsiders q caller trace w outside =
      (λ h. rw h refl, λ m h. rw h (metadata-denied m.document_id caller trace w outside))
