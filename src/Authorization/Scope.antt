-- ===== src/Authorization/Scope.antt =====
-- Whose documents a caller may see: the tenant and region of the caller against those of the document.
-- The decisions and codes are those of `archive/access_preflight.py`.
use lotus_archive.Prelude.{
  String, Bool, true, false, ◌&&◌, ◌||◌, Option, none, some, [], ◌∷◌, ◌==◌, string_eq, option_eq,
  Eq, if◌then◌else◌,
}
use lotus_archive.Errors.{Result, ok, err, caller_scope_missing}
use lotus_archive.Models.{
  ArchiveDocumentInput, ArchiveDocumentMetadata, PurgeStatus, purge_status_eq,
}
use lotus_archive.Audit.{CallerContext}

pub data ArchiveAccessState : Type 0 where
  allowed denied unavailable : ArchiveAccessState

pub data ArchiveAccessReasonCode : Type 0 where
  access_allowed caller_scope_mismatch document_not_found document_purged : ArchiveAccessReasonCode
  document_scope_unavailable lookup_unavailable not_accessible : ArchiveAccessReasonCode

unfoldable pub ArchiveAccessState-discrete : Discrete ArchiveAccessState
ArchiveAccessState-discrete = hlevel

instance abbrev pub state_eq : Eq ArchiveAccessState
state_eq = record { dec = ArchiveAccessState-discrete }

-- `.value`
unfoldable pub reason_value : ArchiveAccessReasonCode → String
reason_value access_allowed = "access_allowed"
reason_value caller_scope_mismatch = "caller_scope_mismatch"
reason_value document_not_found = "document_not_found"
reason_value document_purged = "document_purged"
reason_value document_scope_unavailable = "document_scope_unavailable"
reason_value lookup_unavailable = "lookup_unavailable"
reason_value not_accessible = "not_accessible"

pub record ArchiveAccessDecision : Type 0 where
  pub state : ArchiveAccessState
  pub reason_code : ArchiveAccessReasonCode

abbrev decision : ArchiveAccessState → ArchiveAccessReasonCode → ArchiveAccessDecision
decision s c = record { state = s; reason_code = c }

-- `not value`: a missing header or an empty one
abbrev pub blank : Option String → Bool
blank none = true
blank (some s) = s == ""

-- `require_caller_scope`
unfoldable pub require_caller_scope : CallerContext → Result (Unit {0})
require_caller_scope caller =
    if blank caller.tenant_id
    then err (
        caller_scope_missing
          ("x-tenant-id" ∷ (if blank caller.region then "x-region" ∷ [] else [])))
    else if blank caller.region
    then err (caller_scope_missing ("x-region" ∷ []))
    else ok tt

module _ (casefold : String → String) where
  abbrev pub same_scope : ArchiveDocumentInput → CallerContext → Bool
  same_scope document caller = some document.tenant_id == caller.tenant_id && (elim caller.region [
    | none ↦ false
    | some region ↦ casefold document.region == casefold region
  ])

  unfoldable pub document_tenant_scope_decision :
      ArchiveDocumentInput → CallerContext → ArchiveAccessDecision
  document_tenant_scope_decision document caller =
      if blank caller.tenant_id || blank caller.region
      then decision denied caller_scope_mismatch
      else if document.tenant_id == "" || document.region == ""
      then decision unavailable document_scope_unavailable
      else if same_scope document caller
      then decision allowed access_allowed
      else decision denied caller_scope_mismatch

  unfoldable pub document_scope_decision :
      ArchiveDocumentMetadata → CallerContext → ArchiveAccessDecision
  unfolding document_tenant_scope_decision
  document_scope_decision m caller =
      let tenant_scope = document_tenant_scope_decision m.input caller in
      if tenant_scope.state == ArchiveAccessState.allowed
      then (if m.purge_status == PurgeStatus.purged
          then decision unavailable document_purged
          else decision allowed access_allowed)
      else tenant_scope
