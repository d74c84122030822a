-- ===== src/Service/Walk/Access.antt =====
-- Authorization and the look-ups keep what their steps keep: at most an audit event is recorded.
use lotus_archive.Prelude.{String, Option, none, some}
use lotus_archive.Errors.{Result, ok, err}
use lotus_archive.Exec.Moves.{Moves}
use lotus_archive.Environment.{Environment}
use lotus_archive.Models.{ArchiveDocumentInput, ArchiveDocumentMetadata}
use lotus_archive.Audit.{AccessEventType, AuthorizationDecision, CallerContext}
use lotus_archive.Authorization.Policy.{ArchivePermission}
use lotus_archive.Authorization.Scope.{ArchiveAccessDecision}
use lotus_archive.Service.World.{World}
use lotus_archive.Service.Access.{
  record_allowed, authorize, audited_caller_scope, enforce_decision, authorize_document_scope,
  authorize_document_tenant_scope, found, get_existing_metadata, get_authorized_document_metadata,
  get_tenant_authorized_document_metadata,
}
use lotus_archive.Service.Walk.{IsKept, walk_rules, Moves-record_event}

module _ (env : Environment) {R : World env → World env → Type 0} (K : IsKept env R) where
  pub Moves-record_allowed :
      (event_type : AccessEventType) (caller : CallerContext) (trace_id document_id : String)
      (operation : Option String)
      → Moves R (record_allowed env event_type caller trace_id document_id operation)
  Moves-record_allowed event_type caller trace_id document_id operation =
      Moves-record_event env K event_type caller trace_id AuthorizationDecision.allowed "allowed"
        (some document_id) operation

  pub Moves-authorize :
      (permission : ArchivePermission) (caller : CallerContext) (trace_id : String)
      (document_id : Option String)
      → Moves R (authorize env permission caller trace_id document_id)
  unfolding authorize
  Moves-authorize permission caller trace_id document_id = search (walk_rules, Moves-record_event)

  Moves-audited_caller_scope :
      (r : Result (Unit {0})) (caller : CallerContext) (trace_id : String)
      (document_id : Option String)
      → Moves R (audited_caller_scope env r caller trace_id document_id)
  unfolding audited_caller_scope
  Moves-audited_caller_scope (ok _) caller trace_id document_id = search walk_rules
  Moves-audited_caller_scope (err e) caller trace_id document_id =
      search (walk_rules, Moves-record_event)

  Moves-enforce_decision :
      (d : ArchiveAccessDecision) (caller : CallerContext) (trace_id : String)
      (document_id : Option String)
      → Moves R (enforce_decision env d caller trace_id document_id)
  unfolding enforce_decision
  Moves-enforce_decision d caller trace_id document_id = search (walk_rules, Moves-record_event)

  Moves-authorize_document_scope :
      (m : ArchiveDocumentMetadata) (caller : CallerContext) (trace_id : String)
      → Moves R (authorize_document_scope env m caller trace_id)
  unfolding authorize_document_scope
  Moves-authorize_document_scope m caller trace_id =
      search (walk_rules, Moves-audited_caller_scope, Moves-enforce_decision)

  pub Moves-authorize_document_tenant_scope :
      (d : ArchiveDocumentInput) (document_id : Option String) (caller : CallerContext)
      (trace_id : String)
      → Moves R (authorize_document_tenant_scope env d document_id caller trace_id)
  unfolding authorize_document_tenant_scope
  Moves-authorize_document_tenant_scope d document_id caller trace_id =
      search (walk_rules, Moves-audited_caller_scope, Moves-enforce_decision)

  Moves-found : (o : Option ArchiveDocumentMetadata) → Moves R (found env o)
  unfolding found
  Moves-found none = search walk_rules
  Moves-found (some m) = search walk_rules

  pub Moves-get_existing_metadata :
      (document_id : String) → Moves R (get_existing_metadata env document_id)
  unfolding get_existing_metadata
  Moves-get_existing_metadata document_id = search (walk_rules, Moves-found)

  pub Moves-get_authorized_document_metadata :
      (document_id : String) (permission : ArchivePermission) (caller : CallerContext)
      (trace_id : String)
      → Moves R (get_authorized_document_metadata env document_id permission caller trace_id)
  unfolding get_authorized_document_metadata
  Moves-get_authorized_document_metadata document_id permission caller trace_id =
      search
        (walk_rules, Moves-authorize, Moves-get_existing_metadata, Moves-authorize_document_scope)

  pub Moves-get_tenant_authorized_document_metadata :
      (document_id : String) (permission : ArchivePermission) (caller : CallerContext)
      (trace_id : String)
      → Moves R (get_tenant_authorized_document_metadata env document_id permission caller trace_id)
  unfolding get_tenant_authorized_document_metadata
  Moves-get_tenant_authorized_document_metadata document_id permission caller trace_id = search (
    walk_rules, Moves-authorize, Moves-get_existing_metadata, Moves-authorize_document_tenant_scope,
  )
