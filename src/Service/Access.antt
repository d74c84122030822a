-- ===== src/Service/Access.antt =====
-- Authorization with its audit trail, and the look-ups that every method begins with.
use lotus_archive.Prelude.{String, Option, none, some, contains, ◌==◌, string_eq, if◌then◌else◌}
use lotus_archive.Errors.{Result, ok, err, authorization_failed, document_not_found}
use lotus_archive.Exec.{pure, raise, gets, ◌>>=◌, ◌>>◌}
use lotus_archive.Environment.{Environment}
use lotus_archive.Models.{ArchiveDocumentInput, ArchiveDocumentMetadata}
use lotus_archive.Audit.{CallerContext, AccessEventType, AuthorizationDecision}
use lotus_archive.Repository.State.{get_by_document_id}
use lotus_archive.Authorization.Policy.{ArchivePermission, allowed_callers_for, caller_not_allowed}
use lotus_archive.Authorization.Scope.{
  ArchiveAccessDecision, ArchiveAccessState, state_eq, reason_value, require_caller_scope,
  document_tenant_scope_decision, document_scope_decision,
}
use lotus_archive.Service.World.{Archive, record_event}

module _ (env : Environment) where
  abbrev pub record_denied :
      CallerContext → String → String → Option String → Archive env (Unit {0})
  record_denied caller trace_id reason document_id =
      record_event env AccessEventType.authorization_denied caller trace_id
        AuthorizationDecision.denied reason document_id none

  -- `_record_allowed`
  abbrev pub record_allowed :
      AccessEventType
      → CallerContext
      → (trace_id document_id : String) → Option String
      → Archive env (Unit {0})
  record_allowed event_type caller trace_id document_id operation =
      record_event env event_type caller trace_id AuthorizationDecision.allowed "allowed"
        (some document_id) operation

  -- `ArchiveAuthorizationPolicy.authorize`
  unfoldable pub authorize :
      ArchivePermission → CallerContext → String → Option String → Archive env (Unit {0})
  authorize permission caller trace_id document_id =
      if contains (allowed_callers_for env.authorization_policy permission) caller.caller_service
      then pure tt
      else do
        record_denied caller trace_id (caller_not_allowed permission) document_id
        raise (authorization_failed (caller_not_allowed permission))

  -- `_require_audited_caller_scope`
  unfoldable pub audited_caller_scope :
      Result (Unit {0}) → CallerContext → String → Option String → Archive env (Unit {0})
  audited_caller_scope (ok _) caller trace_id document_id = pure tt
  audited_caller_scope (err e) caller trace_id document_id = do
    record_denied caller trace_id "caller_scope_missing" document_id
    raise e

  -- `_enforce_document_scope_decision`
  unfoldable pub enforce_decision :
      ArchiveAccessDecision → CallerContext → String → Option String → Archive env (Unit {0})
  enforce_decision decision caller trace_id document_id =
      if decision.state == ArchiveAccessState.allowed then pure tt else do
        record_denied caller trace_id (reason_value decision.reason_code) document_id
        raise (authorization_failed (reason_value decision.reason_code))

  -- `authorize_document_scope`
  unfoldable pub authorize_document_scope :
      ArchiveDocumentMetadata → CallerContext → String → Archive env (Unit {0})
  unfolding audited_caller_scope enforce_decision
  authorize_document_scope m caller trace_id = do
    audited_caller_scope (require_caller_scope caller) caller trace_id (some m.document_id)
    enforce_decision (document_scope_decision env.casefold m caller) caller trace_id
        (some m.document_id)

  -- `authorize_document_tenant_scope`. Only a document that is kept already has an identifier.
  unfoldable pub authorize_document_tenant_scope :
      ArchiveDocumentInput → Option String → CallerContext → String → Archive env (Unit {0})
  unfolding audited_caller_scope enforce_decision
  authorize_document_tenant_scope document document_id caller trace_id = do
    audited_caller_scope (require_caller_scope caller) caller trace_id document_id
    enforce_decision (document_tenant_scope_decision env.casefold document caller) caller trace_id
        document_id

  unfoldable pub found : Option ArchiveDocumentMetadata → Archive env ArchiveDocumentMetadata
  found none = raise (document_not_found "archive document was not found")
  found (some m) = pure m

  -- `_get_existing_metadata`
  unfoldable pub get_existing_metadata : String → Archive env ArchiveDocumentMetadata
  unfolding found
  get_existing_metadata document_id = do
    stored ← gets (λ w. get_by_document_id document_id w.repository)
    found stored

  -- `_get_authorized_document_metadata`
  unfoldable pub get_authorized_document_metadata :
      String → ArchivePermission → CallerContext → String → Archive env ArchiveDocumentMetadata
  get_authorized_document_metadata document_id permission caller trace_id = do
    authorize permission caller trace_id (some document_id)
    m ← get_existing_metadata document_id
    authorize_document_scope m caller trace_id
    pure m

  -- `_get_tenant_authorized_document_metadata`
  unfoldable pub get_tenant_authorized_document_metadata :
      String → ArchivePermission → CallerContext → String → Archive env ArchiveDocumentMetadata
  get_tenant_authorized_document_metadata document_id permission caller trace_id = do
    authorize permission caller trace_id (some document_id)
    m ← get_existing_metadata document_id
    authorize_document_tenant_scope m.input (some m.document_id) caller trace_id
    pure m
