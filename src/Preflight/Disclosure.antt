-- ===== src/Preflight/Disclosure.antt =====
-- What a preflight answer can tell a caller about documents of other tenants and regions.
use lotus_archive.Prelude.{
  String, ◌≡◌, refl, Bool, true, false, Option, none, some, arith, string_eq, option_eq,
  if◌then◌else◌,
}
use lotus_archive.Models.{ArchiveDocumentMetadata, purge_status_eq}
use lotus_archive.Audit.{CallerContext}
use lotus_archive.Authorization.Scope.{
  state_eq, same_scope, document_tenant_scope_decision, document_scope_decision,
}
use lotus_archive.Preflight.{preflight_item, is_response_reason, reveals_existence}

module _ (casefold : String → String) (caller : CallerContext) where
  -- the document, if it is of the caller's tenant and region
  abbrev pub visible : Option ArchiveDocumentMetadata → Option ArchiveDocumentMetadata
  visible none = none
  visible (some m) = if same_scope casefold m.input caller then some m else none

  -- The item answered for a document of another scope is the one for an identifier that is not stored.
  pub preflight_item-visible :
      (i : String) (o : Option ArchiveDocumentMetadata) (u : Bool)
      → (preflight_item casefold i o u caller).0
        ≡ (preflight_item casefold i (visible o) u caller).0
  unfolding preflight_item document_scope_decision document_tenant_scope_decision reveals_existence
  preflight_item-visible i none u = refl
  preflight_item-visible i (some m) true = ground arith
  preflight_item-visible i (some m) false = ground arith

  -- Each reason that is answered for an item is one of the documented response codes.
  pub preflight_item-is_response_reason :
      (i : String) (o : Option ArchiveDocumentMetadata) (u : Bool)
      → is_response_reason (preflight_item casefold i o u caller).0.reason_code ≡ true
  unfolding preflight_item is_response_reason document_scope_decision document_tenant_scope_decision
      reveals_existence
  preflight_item-is_response_reason i none true = refl
  preflight_item-is_response_reason i none false = refl
  preflight_item-is_response_reason i (some m) true = refl
  preflight_item-is_response_reason i (some m) false = ground arith
