-- ===== src/Service/Holds.antt =====
-- Setting and releasing a legal hold.
use lotus_archive.Prelude.{
  ℕ, String, Bool, ◌&&◌, Option, none, some, List, [], ◌∷◌, ◌==◌, string_eq, if◌then◌else◌,
}
use lotus_archive.Errors.{purge_already_started, legal_hold_not_found}
use lotus_archive.Exec.{pure, raise, gets, ◌>>=◌, ◌>>◌}
use lotus_archive.Environment.{Environment}
use lotus_archive.Models.{ArchiveDocumentMetadata, LegalHoldRecord, LegalHoldStatus, hold_status_eq}
use lotus_archive.Audit.{CallerContext, AccessEventType}
use lotus_archive.Authorization.Policy.{ArchivePermission}
use lotus_archive.Repository.State.{list_legal_holds}
use lotus_archive.Repository.Holds.{admit_and_record_legal_hold, release_and_record_legal_hold}
use lotus_archive.Service.World.{Archive, new_id, utc_now, repository_call}
use lotus_archive.Service.Access.{record_allowed, get_tenant_authorized_document_metadata}

-- commands.py
pub record LegalHoldCreateCommand : Type 0 where
  pub hold_reason : String
  pub authority_reference : String

abbrev is_same_hold : LegalHoldCreateCommand → LegalHoldRecord → Bool
is_same_hold command existing =
    existing.hold_status == LegalHoldStatus.active
    && existing.authority_reference == command.authority_reference
    && existing.hold_reason == command.hold_reason

-- the first active hold that an identical request has created
unfoldable pub find_same_hold :
    LegalHoldCreateCommand → List LegalHoldRecord → Option LegalHoldRecord
find_same_hold command [] = none
find_same_hold command (existing ∷ holds) =
    let rest = find_same_hold command holds in
    if is_same_hold command existing then some existing else rest

abbrev pub new_hold :
    (legal_hold_id document_id : String)
    → LegalHoldCreateCommand
    → CallerContext
    → ℕ
    → LegalHoldRecord
new_hold legal_hold_id document_id command caller now = record {
  legal_hold_id = legal_hold_id;
  document_id = document_id;
  hold_status = LegalHoldStatus.active;
  hold_reason = command.hold_reason;
  authority_reference = command.authority_reference;
  requested_by = caller.actor_id;
  requested_at = now;
  released_by = none;
  released_at = none;
  release_reason = none;
}

module _ (env : Environment) where
  unfoldable pub admitted_hold :
      LegalHoldRecord
      → String
      → CallerContext
      → String
      → Option ArchiveDocumentMetadata
      → Archive env LegalHoldRecord
  admitted_hold hold document_id caller trace_id none = do
    record_allowed env AccessEventType.legal_hold_set caller trace_id document_id
        (some "purge_already_started")
    raise purge_already_started
  admitted_hold hold document_id caller trace_id (some _) = do
    record_allowed env AccessEventType.legal_hold_set caller trace_id document_id none
    pure hold

  -- the admission of a new hold
  unfoldable pub mint_hold :
      String
      → LegalHoldCreateCommand
      → CallerContext
      → Archive env (LegalHoldRecord × Option ArchiveDocumentMetadata)
  mint_hold document_id command caller = do
    legal_hold_id ← new_id env "hold_"
    requested_at ← utc_now env
    let hold = new_hold legal_hold_id document_id command caller requested_at
    now ← utc_now env
    admitted ← repository_call env (admit_and_record_legal_hold document_id hold now)
    pure (hold, admitted)

  -- a retry answers the hold that is there; any other request mints one
  unfoldable pub place_hold :
      Option LegalHoldRecord
      → String
      → LegalHoldCreateCommand
      → CallerContext
      → String
      → Archive env LegalHoldRecord
  unfolding admitted_hold
  place_hold (some existing) document_id command caller trace_id = do
    record_allowed env AccessEventType.legal_hold_set caller trace_id document_id
        (some "legal_hold_already_active")
    pure existing
  place_hold none document_id command caller trace_id = do
    minted ← mint_hold document_id command caller
    admitted_hold minted.0 document_id caller trace_id minted.1

  unfoldable pub set_legal_hold :
      String → LegalHoldCreateCommand → CallerContext → String → Archive env LegalHoldRecord
  unfolding place_hold
  set_legal_hold document_id command caller trace_id = do
    get_tenant_authorized_document_metadata env document_id ArchivePermission.manage_legal_hold
        caller trace_id
    holds ← gets (λ w. list_legal_holds document_id w.repository)
    place_hold (find_same_hold command holds) document_id command caller trace_id

  unfoldable pub released_hold :
      String
      → CallerContext
      → String
      → Option (LegalHoldRecord × ArchiveDocumentMetadata)
      → Archive env LegalHoldRecord
  released_hold document_id caller trace_id none = raise legal_hold_not_found
  released_hold document_id caller trace_id (some (hold, _)) = do
    record_allowed env AccessEventType.legal_hold_release caller trace_id document_id none
    pure hold

  unfoldable pub release_legal_hold :
      (document_id legal_hold_id release_reason : String)
      → CallerContext
      → String
      → Archive env LegalHoldRecord
  unfolding released_hold
  release_legal_hold document_id legal_hold_id release_reason caller trace_id = do
    get_tenant_authorized_document_metadata env document_id ArchivePermission.manage_legal_hold
        caller trace_id
    released_at ← utc_now env
    now ← utc_now env
    released ← repository_call env (
        release_and_record_legal_hold document_id legal_hold_id caller.actor_id released_at
          release_reason now)
    released_hold document_id caller trace_id released
