-- ===== src/Service/Walk/Purge.antt =====
-- The purge and retention methods keep what their steps keep.
use lotus_archive.Prelude.{String, Bool, true, false, Option, none, some}
use lotus_archive.Calendar.{Date}
use lotus_archive.Exec.Moves.{Moves}
use lotus_archive.Environment.{Environment}
use lotus_archive.Models.{ArchiveDocumentMetadata}
use lotus_archive.Audit.{CallerContext}
use lotus_archive.Service.World.{World}
use lotus_archive.Service.Purge.{
  PurgeEvaluation, reclassify_stored, reclassify_refused_transition, answer, withdraw_eligibility,
  grant_eligibility, effective_date, evaluate_retention, evaluate, refresh, get_lifecycle_posture,
  get_retention, evaluate_purge, refuse_purge, destroy, execute_purge, purge_document,
}
use lotus_archive.Service.Walk.{
  IsKept, walk_rules, Moves-begin_purge, Moves-mark_purge_eligible, Moves-mark_purge_not_eligible,
  Moves-complete_purge, Moves-refresh_legal_hold_summary,
}
use lotus_archive.Service.Walk.Access.{
  Moves-record_allowed, Moves-get_existing_metadata, Moves-get_tenant_authorized_document_metadata,
}

module _ (env : Environment) {R : World env → World env → Type 0} (K : IsKept env R) where
  Moves-reclassify_stored :
      (i : String) (o : Option ArchiveDocumentMetadata) → Moves R (reclassify_stored env i o)
  unfolding reclassify_stored
  Moves-reclassify_stored i none = search walk_rules
  Moves-reclassify_stored i (some m) = search walk_rules

  Moves-answer :
      (b : Bool) (reason i : String) (o : Option ArchiveDocumentMetadata)
      → Moves R (answer env b reason i o)
  unfolding answer reclassify_refused_transition
  Moves-answer b reason i none = search (walk_rules, Moves-reclassify_stored)
  Moves-answer b reason i (some m) = search walk_rules

  Moves-withdraw_eligibility :
      (m : ArchiveDocumentMetadata) (reason : String) → Moves R (withdraw_eligibility env m reason)
  unfolding withdraw_eligibility
  Moves-withdraw_eligibility m reason =
      search (walk_rules, Moves-mark_purge_not_eligible, Moves-answer)

  Moves-grant_eligibility : (m : ArchiveDocumentMetadata) → Moves R (grant_eligibility env m)
  unfolding grant_eligibility
  Moves-grant_eligibility m = search (walk_rules, Moves-mark_purge_eligible, Moves-answer)

  Moves-effective_date : (d : Option Date) → Moves R (effective_date env d)
  unfolding effective_date
  Moves-effective_date none = search walk_rules
  Moves-effective_date (some d) = search walk_rules

  Moves-evaluate_retention :
      (m : ArchiveDocumentMetadata) (d o : Option Date) → Moves R (evaluate_retention env m d o)
  unfolding evaluate_retention
  Moves-evaluate_retention m d none = search (walk_rules, Moves-withdraw_eligibility)
  Moves-evaluate_retention m d (some until) =
      search (walk_rules, Moves-effective_date, Moves-withdraw_eligibility, Moves-grant_eligibility)

  Moves-evaluate : (m : ArchiveDocumentMetadata) (d : Option Date) → Moves R (evaluate env m d)
  unfolding evaluate
  Moves-evaluate m d = search (walk_rules, Moves-withdraw_eligibility, Moves-evaluate_retention)

  Moves-refresh : (m : ArchiveDocumentMetadata) → Moves R (refresh env m)
  unfolding refresh
  Moves-refresh m = search (walk_rules, Moves-refresh_legal_hold_summary)

  pub Moves-get_lifecycle_posture : (i : String) → Moves R (get_lifecycle_posture env i)
  unfolding get_lifecycle_posture
  Moves-get_lifecycle_posture i =
      search (walk_rules, Moves-get_existing_metadata, Moves-refresh, Moves-evaluate)

  pub Moves-get_retention :
      (i : String) (caller : CallerContext) (trace : String)
      → Moves R (get_retention env i caller trace)
  unfolding get_retention
  Moves-get_retention i caller trace = search (
    walk_rules, Moves-get_tenant_authorized_document_metadata, Moves-refresh, Moves-record_allowed,
  )

  pub Moves-evaluate_purge :
      (i : String) (caller : CallerContext) (trace : String) (d : Option Date)
      → Moves R (evaluate_purge env i caller trace d)
  unfolding evaluate_purge
  Moves-evaluate_purge i caller trace d = search (
    walk_rules, Moves-get_tenant_authorized_document_metadata, Moves-refresh, Moves-evaluate,
    Moves-record_allowed,
  )

  Moves-destroy :
      (caller : CallerContext) (trace i : String) (o : Option ArchiveDocumentMetadata)
      → Moves R (destroy env caller trace i o)
  unfolding destroy
  Moves-destroy caller trace i none = search (walk_rules, Moves-record_allowed)
  Moves-destroy caller trace i (some m) =
      search (walk_rules, Moves-complete_purge, Moves-record_allowed) depth 9

  Moves-execute_purge :
      (caller : CallerContext) (trace i : String) (e : PurgeEvaluation)
      → Moves R (execute_purge env caller trace i e)
  unfolding execute_purge refuse_purge
  Moves-execute_purge caller trace i (m, true, reason) =
      search (walk_rules, Moves-begin_purge, Moves-destroy)
  Moves-execute_purge caller trace i (m, false, reason) = search (walk_rules, Moves-record_allowed)

  pub Moves-purge_document :
      (i : String) (caller : CallerContext) (trace : String) (d : Option Date)
      → Moves R (purge_document env i caller trace d)
  unfolding purge_document
  Moves-purge_document i caller trace d = search (
    walk_rules, Moves-get_tenant_authorized_document_metadata, Moves-refresh, Moves-evaluate,
    Moves-execute_purge, Moves-record_allowed,
  )
