-- ===== src/Audit.antt =====
-- `archive/audit.py` and `CallerContext` of `security/caller_context.py`: the access audit trail.
use lotus_archive.Prelude.{
  ℕ, suc, String, Option, none, some, List, [], ◌∷◌, take, drop, ◌==◌, string_eq, option_eq,
  if◌then◌else◌,
}

pub record CallerContext : Type 0 where
  pub caller_service : String
  pub actor_type : String
  pub actor_id : String
  pub correlation_id : String
  pub tenant_id : Option String
  pub region : Option String

pub data AccessEventType : Type 0 where
  archive_create metadata_read binary_download access_events_read retention_read : AccessEventType
  purge_evaluation purge_execution legal_hold_set legal_hold_release : AccessEventType
  lifecycle_supersede lifecycle_correct lifecycle_reissue current_document_read : AccessEventType
  source_events_read batch_access_preflight : AccessEventType
  idea_lifecycle_decision_read authorization_denied : AccessEventType

pub data AuthorizationDecision : Type 0 where
  allowed denied : AuthorizationDecision

pub record AccessAuditEvent : Type 0 where
  pub audit_event_id : String
  pub document_id : Option String
  pub event_type : AccessEventType
  pub actor_type : String
  pub actor_id : String
  pub caller_service : String
  pub authorization_decision : AuthorizationDecision
  pub authorization_reason_code : String
  pub operation_reason_code : Option String
  pub correlation_id : String
  pub trace_id : String
  pub created_at : ℕ

-- The event, with the identifier `f"audit_{uuid4().hex}"` and the time that are drawn for it.
abbrev pub access_audit_event :
    (audit_event_id : String) (created_at : ℕ)
    → AccessEventType
    → CallerContext
    → (trace_id : String) → AuthorizationDecision
    → (authorization_reason_code : String) (document_id operation_reason_code : Option String)
    → AccessAuditEvent
access_audit_event id now event_type caller trace_id decision reason document_id operation =
    record {
      audit_event_id = id;
      document_id = document_id;
      event_type = event_type;
      actor_type = caller.actor_type;
      actor_id = caller.actor_id;
      caller_service = caller.caller_service;
      authorization_decision = decision;
      authorization_reason_code = reason;
      operation_reason_code = operation;
      correlation_id = caller.correlation_id;
      trace_id = trace_id;
      created_at = now;
    }

-- `[event for event in self._events if event.document_id == document_id]`
unfoldable pub matching : Option String → List AccessAuditEvent → List AccessAuditEvent
matching document_id [] = []
matching document_id (event ∷ events) =
    let rest = matching document_id events in
    if event.document_id == document_id then event ∷ rest else rest

-- `InMemoryAccessAuditRepository.list_by_document_id`
unfoldable pub list_by_document_id :
    Option String → (limit : Option ℕ) (offset : ℕ) → List AccessAuditEvent → List AccessAuditEvent
unfolding matching
list_by_document_id document_id none offset events = drop offset (matching document_id events)
list_by_document_id document_id (some limit) offset events =
    take limit (drop offset (matching document_id events))

-- `count_by_document_id`
unfoldable pub count_by_document_id : Option String → List AccessAuditEvent → ℕ
count_by_document_id document_id [] = 0
count_by_document_id document_id (event ∷ events) =
    let rest = count_by_document_id document_id events in
    if event.document_id == document_id then suc rest else rest
