-- ===== src/Service/Purge.antt =====
-- `archive/purge_transitions.py` and the purge and retention methods of the service.
use lotus_archive.Prelude.{
  String, Bool, true, false, ◌||◌, Option, none, some, List, [], ◌∷◌, is_some, get_or, ◌==◌,
  string_eq, if◌then◌else◌,
}
use lotus_archive.Calendar.{Date, before}
use lotus_archive.Errors.{document_not_found, legal_hold_active, purge_not_eligible}
use lotus_archive.Exec.{pure, raise, gets, ◌>>=◌, ◌>>◌}
use lotus_archive.Environment.{Environment}
use lotus_archive.Models.{
  ArchiveDocumentMetadata, LegalHoldRecord, LegalHoldStatus, PurgeStatus, hold_status_eq,
  purge_status_eq,
}
use lotus_archive.Audit.{CallerContext, AccessEventType}
use lotus_archive.Authorization.Policy.{ArchivePermission}
use lotus_archive.Repository.State.{get_by_document_id, list_legal_holds}
use lotus_archive.Repository.Purge.{
  begin_purge, mark_purge_eligible, mark_purge_not_eligible, complete_purge,
}
use lotus_archive.Repository.Holds.{refresh_legal_hold_summary}
use lotus_archive.Service.World.{Archive, utc_now, today, repository_call, storage_try}
use lotus_archive.Service.Access.{
  record_allowed, get_existing_metadata, get_tenant_authorized_document_metadata,
}

abbrev pub PurgeEvaluation : Type 0
PurgeEvaluation = ArchiveDocumentMetadata × Bool × String

-- `any(hold.hold_status is LegalHoldStatus.ACTIVE for hold in holds)`
unfoldable pub any_active : List LegalHoldRecord → Bool
any_active [] = false
any_active (hold ∷ holds) = hold.hold_status == LegalHoldStatus.active || any_active holds

-- What the stored row says when a guarded transition refused.
unfoldable pub reclassify : ArchiveDocumentMetadata → List LegalHoldRecord → PurgeEvaluation
reclassify current holds =
    if current.purge_status == PurgeStatus.purged
    then (current, true, "already_purged")
    else if is_some current.purge_started_at
    then (current, true, "purge_in_progress")
    else if current.legal_hold_status == LegalHoldStatus.active
    then (current, false, "legal_hold_active")
    else if any_active holds
    then (current, false, "legal_hold_active")
    else (current, false, "purge_state_changed")

module _ (env : Environment) where
  unfoldable pub reclassify_stored :
      String → Option ArchiveDocumentMetadata → Archive env PurgeEvaluation
  reclassify_stored document_id none = raise (document_not_found "archive document was not found")
  reclassify_stored document_id (some current) = do
    holds ← gets (λ w. list_legal_holds document_id w.repository)
    pure (reclassify current holds)

  unfoldable pub reclassify_refused_transition : String → Archive env PurgeEvaluation
  unfolding reclassify_stored
  reclassify_refused_transition document_id = do
    current ← gets (λ w. get_by_document_id document_id w.repository)
    reclassify_stored document_id current

  unfoldable pub answer :
      Bool → String → String → Option ArchiveDocumentMetadata → Archive env PurgeEvaluation
  answer eligible reason document_id none = reclassify_refused_transition document_id
  answer eligible reason document_id (some updated) = pure (updated, eligible, reason)

  unfoldable pub withdraw_eligibility :
      ArchiveDocumentMetadata → String → Archive env PurgeEvaluation
  unfolding answer
  withdraw_eligibility m reason_code = do
    now ← utc_now env
    withdrawn ← repository_call env (mark_purge_not_eligible m.document_id now)
    answer false reason_code m.document_id withdrawn

  -- the transition to `eligible`, once the retention period is over
  unfoldable pub grant_eligibility : ArchiveDocumentMetadata → Archive env PurgeEvaluation
  unfolding answer
  grant_eligibility m = do
    eligible_at ← utc_now env
    now ← utc_now env
    granted ← repository_call env (mark_purge_eligible m.document_id eligible_at now)
    answer true "retention_elapsed" m.document_id granted

  -- `evaluation_date or date.today()`
  unfoldable pub effective_date : Option Date → Archive env Date
  effective_date none = today env
  effective_date (some d) = pure d

  -- the branches below the hold test
  unfoldable pub evaluate_retention :
      ArchiveDocumentMetadata → Option Date → Option Date → Archive env PurgeEvaluation
  unfolding grant_eligibility effective_date
  evaluate_retention m evaluation_date none = withdraw_eligibility m "retain_until_date_missing"
  evaluate_retention m evaluation_date (some retain_until) = do
    date ← effective_date evaluation_date
    if before date retain_until
        then withdraw_eligibility m "retention_period_active"
        else if m.purge_status == PurgeStatus.eligible
        then pure (m, true, "retention_elapsed")
        else grant_eligibility m

  -- `purge_transitions.evaluate_purge`
  unfoldable pub evaluate : ArchiveDocumentMetadata → Option Date → Archive env PurgeEvaluation
  unfolding evaluate_retention
  evaluate m evaluation_date =
      if m.purge_status == PurgeStatus.purged
      then pure (m, true, "already_purged")
      else if is_some m.purge_started_at
      then pure (m, true, "purge_in_progress")
      else if m.legal_hold_status == LegalHoldStatus.active
      then withdraw_eligibility m "legal_hold_active"
      else evaluate_retention m evaluation_date m.retain_until_date

  -- `_refresh_legal_hold_summary`
  unfoldable pub refresh : ArchiveDocumentMetadata → Archive env ArchiveDocumentMetadata
  refresh m = do
    now ← utc_now env
    refreshed ← repository_call env (refresh_legal_hold_summary m.document_id now)
    pure (get_or refreshed m)

  unfoldable pub get_lifecycle_posture : String → Archive env ArchiveDocumentMetadata
  get_lifecycle_posture document_id = do
    stored ← get_existing_metadata env document_id
    m ← refresh stored
    date ← today env
    evaluation ← evaluate m (some date)
    pure evaluation.0

  unfoldable pub get_retention :
      String → CallerContext → String → Archive env ArchiveDocumentMetadata
  get_retention document_id caller trace_id = do
    stored ←
        get_tenant_authorized_document_metadata env document_id ArchivePermission.read_retention
          caller trace_id
    m ← refresh stored
    record_allowed env AccessEventType.retention_read caller trace_id document_id none
    pure m

  unfoldable pub evaluate_purge :
      String → CallerContext → String → Option Date → Archive env PurgeEvaluation
  evaluate_purge document_id caller trace_id evaluation_date = do
    stored ←
        get_tenant_authorized_document_metadata env document_id ArchivePermission.evaluate_purge
          caller trace_id
    m ← refresh stored
    evaluation ← evaluate m evaluation_date
    record_allowed env AccessEventType.purge_evaluation caller trace_id document_id none
    pure evaluation

  abbrev pub record_purge : CallerContext → String → String → String → Archive env (Unit {0})
  record_purge caller trace_id document_id reason =
      record_allowed env AccessEventType.purge_execution caller trace_id document_id (some reason)

  unfoldable pub refuse_purge :
      CallerContext → String → String → String → Archive env (ArchiveDocumentMetadata × String)
  refuse_purge caller trace_id document_id reason_code = do
    record_purge caller trace_id document_id reason_code
    if reason_code == "legal_hold_active" then raise legal_hold_active else raise purge_not_eligible

  -- from the claimed intent on: the bytes are deleted, and the record completed
  unfoldable pub destroy :
      CallerContext
      → String
      → String
      → Option ArchiveDocumentMetadata
      → Archive env (ArchiveDocumentMetadata × String)
  destroy caller trace_id document_id none = do
    record_purge caller trace_id document_id "legal_hold_active"
    raise legal_hold_active
  destroy caller trace_id document_id (some claimed) = do
    storage_try env (env.storage.delete claimed.storage_key)
    purged_at ← utc_now env
    now ← utc_now env
    completed ← repository_call env (complete_purge document_id purged_at now)
    record_purge caller trace_id document_id "purged"
    pure (get_or completed claimed, "purged")

  unfoldable pub execute_purge :
      CallerContext
      → String
      → String
      → PurgeEvaluation
      → Archive env (ArchiveDocumentMetadata × String)
  unfolding refuse_purge destroy
  execute_purge caller trace_id document_id (m, true, reason_code) = do
    started_at ← utc_now env
    claimed ← repository_call env (begin_purge document_id started_at)
    destroy caller trace_id document_id claimed
  execute_purge caller trace_id document_id (m, false, reason_code) =
      refuse_purge caller trace_id document_id reason_code

  unfoldable pub purge_document :
      String → CallerContext → String → Option Date → Archive env (ArchiveDocumentMetadata × String)
  unfolding execute_purge
  purge_document document_id caller trace_id evaluation_date = do
    stored ←
        get_tenant_authorized_document_metadata env document_id ArchivePermission.execute_purge
          caller trace_id
    m ← refresh stored
    if m.purge_status == PurgeStatus.purged
        then (do
          record_purge caller trace_id document_id "already_purged"
          pure (m, "already_purged"))
        else do
          evaluation ← evaluate m evaluation_date
          execute_purge caller trace_id document_id evaluation
