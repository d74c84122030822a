-- ===== src/Preflight.antt =====
-- `archive/access_preflight.py`: what a batch of document identifiers answers a caller, and what the
-- audit trail keeps of it.
pub mod Disclosure
use lotus_archive.Prelude.{
  ℕ, zero, suc, String, Bool, true, false, Option, none, some, List, [], ◌∷◌, length, ◌==◌,
  string_eq, nat_eq, ltb, if◌then◌else◌,
}
use lotus_archive.Models.{ArchiveDocumentMetadata}
use lotus_archive.Audit.{CallerContext}
use lotus_archive.Authorization.Scope.{
  ArchiveAccessState, ArchiveAccessReasonCode, state_eq, document_scope_decision,
}

abbrev pub max_preflight_document_ids : ℕ
max_preflight_document_ids = 100

pub data ArchiveAccessResultState : Type 0 where
  complete partial unavailable : ArchiveAccessResultState

pub record ArchiveAccessPreflightItem : Type 0 where
  pub document_id : String
  pub state : ArchiveAccessState
  pub reason_code : ArchiveAccessReasonCode

-- EXISTENCE_REVEALING_REASON_CODES
unfoldable pub reveals_existence : ArchiveAccessReasonCode → Bool
reveals_existence ArchiveAccessReasonCode.document_not_found = true
reveals_existence ArchiveAccessReasonCode.caller_scope_mismatch = true
reveals_existence ArchiveAccessReasonCode.document_scope_unavailable = true
reveals_existence _ = false

-- RESPONSE_REASON_CODES
unfoldable pub is_response_reason : ArchiveAccessReasonCode → Bool
is_response_reason ArchiveAccessReasonCode.access_allowed = true
is_response_reason ArchiveAccessReasonCode.not_accessible = true
is_response_reason ArchiveAccessReasonCode.lookup_unavailable = true
is_response_reason ArchiveAccessReasonCode.document_purged = true
is_response_reason _ = false

-- `sum(item.state is ArchiveAccessState.UNAVAILABLE for item in items)`
unfoldable pub unavailable_count : List ArchiveAccessPreflightItem → ℕ
unavailable_count [] = 0
unavailable_count (item ∷ items) =
    let rest = unavailable_count items in
    if item.state == ArchiveAccessState.unavailable then suc rest else rest

unfoldable pub result_state_for_items : List ArchiveAccessPreflightItem → ArchiveAccessResultState
unfolding unavailable_count
result_state_for_items items =
    if unavailable_count items == length items
    then ArchiveAccessResultState.unavailable
    else if ltb 0 (unavailable_count items)
    then ArchiveAccessResultState.partial
    else ArchiveAccessResultState.complete

abbrev item_of : String → ArchiveAccessState → ArchiveAccessReasonCode → ArchiveAccessPreflightItem
item_of i s c = record { document_id = i; state = s; reason_code = c }

-- The item of the response, and the reason of the audit record.
unfoldable pub preflight_item :
    (casefold : String → String) (document_id : String)
    → Option ArchiveDocumentMetadata
    → (is_unavailable : Bool) → CallerContext
    → ArchiveAccessPreflightItem × ArchiveAccessReasonCode
preflight_item casefold i m true caller = (
  item_of i ArchiveAccessState.unavailable ArchiveAccessReasonCode.lookup_unavailable,
  ArchiveAccessReasonCode.lookup_unavailable,
)
preflight_item casefold i none false caller = (
  item_of i ArchiveAccessState.denied ArchiveAccessReasonCode.not_accessible,
  ArchiveAccessReasonCode.document_not_found,
)
preflight_item casefold i (some m) false caller =
    let decision = document_scope_decision casefold m caller in
    if reveals_existence decision.reason_code
    then (
      item_of i ArchiveAccessState.denied ArchiveAccessReasonCode.not_accessible,
      decision.reason_code,
    )
    else (item_of i decision.state decision.reason_code, decision.reason_code)
