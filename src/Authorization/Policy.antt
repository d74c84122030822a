-- ===== src/Authorization/Policy.antt =====
-- `ArchivePermission` and the callers that `ArchiveAuthorizationPolicy` allows for each.
use lotus_archive.Prelude.{String, List, [], ◌∷◌}

pub data ArchivePermission : Type 0 where
  create_document read_metadata download_binary read_access_events read_retention :
      ArchivePermission
  evaluate_purge execute_purge manage_legal_hold manage_lifecycle : ArchivePermission
  read_idea_lifecycle_decision read_batch_access_preflight : ArchivePermission

pub record ArchiveAuthorizationPolicy : Type 0 where
  pub create_callers : List String
  pub read_callers : List String
  pub audit_callers : List String
  pub retention_callers : List String
  pub purge_callers : List String
  pub legal_hold_callers : List String
  pub lifecycle_callers : List String
  pub idea_lifecycle_decision_callers : List String
  pub batch_access_preflight_callers : List String

abbrev pub default_policy : ArchiveAuthorizationPolicy
default_policy = record {
  create_callers = "lotus-render" ∷ [];
  read_callers = "lotus-report" ∷ "lotus-gateway" ∷ [];
  audit_callers = "lotus-report" ∷ [];
  retention_callers = "lotus-report" ∷ [];
  purge_callers = "lotus-report" ∷ [];
  legal_hold_callers = "lotus-report" ∷ [];
  lifecycle_callers = "lotus-report" ∷ [];
  idea_lifecycle_decision_callers = "lotus-idea" ∷ "lotus-report" ∷ [];
  batch_access_preflight_callers = "lotus-gateway" ∷ [];
}

-- `_allowed_callers_for`
unfoldable pub allowed_callers_for : ArchiveAuthorizationPolicy → ArchivePermission → List String
allowed_callers_for p create_document = p.create_callers
allowed_callers_for p read_metadata = p.read_callers
allowed_callers_for p download_binary = p.read_callers
allowed_callers_for p read_retention = p.retention_callers
allowed_callers_for p evaluate_purge = p.purge_callers
allowed_callers_for p execute_purge = p.purge_callers
allowed_callers_for p manage_legal_hold = p.legal_hold_callers
allowed_callers_for p manage_lifecycle = p.lifecycle_callers
allowed_callers_for p read_idea_lifecycle_decision = p.idea_lifecycle_decision_callers
allowed_callers_for p read_batch_access_preflight = p.batch_access_preflight_callers
allowed_callers_for p read_access_events = p.audit_callers

-- `f"{permission.value}_caller_not_allowed"`
unfoldable pub caller_not_allowed : ArchivePermission → String
caller_not_allowed create_document = "create_document_caller_not_allowed"
caller_not_allowed read_metadata = "read_metadata_caller_not_allowed"
caller_not_allowed download_binary = "download_binary_caller_not_allowed"
caller_not_allowed read_access_events = "read_access_events_caller_not_allowed"
caller_not_allowed read_retention = "read_retention_caller_not_allowed"
caller_not_allowed evaluate_purge = "evaluate_purge_caller_not_allowed"
caller_not_allowed execute_purge = "execute_purge_caller_not_allowed"
caller_not_allowed manage_legal_hold = "manage_legal_hold_caller_not_allowed"
caller_not_allowed manage_lifecycle = "manage_lifecycle_caller_not_allowed"
caller_not_allowed read_idea_lifecycle_decision = "read_idea_lifecycle_decision_caller_not_allowed"
caller_not_allowed read_batch_access_preflight = "read_batch_access_preflight_caller_not_allowed"
