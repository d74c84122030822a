-- ===== src/Service/Walk.antt =====
-- What each primitive step of the service keeps, every request keeps: one walk through the methods of
-- the service, for any relation between the state before and the state after.
pub mod Access
pub mod Purge
pub mod Holds
pub mod Lifecycle
pub mod Writer
pub mod Reads
pub mod Requests
use lotus_archive.Prelude.{
  ℕ, zero, suc, String, ◌<>◌, ◌≡◌, ◌≢◌, refl, Bool, true, false, Option, none, some, List, [], ◌∷◌,
  ◌++◌,
}
use lotus_archive.Errors.{Error, Result, ok, err}
use lotus_archive.Exec.{Exec, pure, raise, lift, gets, try_except, ◌>>=◌, ◌>>◌}
use lotus_archive.Exec.Moves.{
  IsPreorder, Moves, Moves-pure, Moves-raise, Moves-lift, Moves-gets, Moves-if, Moves-bind,
  Moves-try_except,
}
use lotus_archive.Environment.{Environment, StoredObject, Bytes}
use lotus_archive.Models.{
  ArchiveDocumentInput, ArchiveDocumentMetadata, LegalHoldRecord, LifecycleTransitionType,
  LifecycleRelationshipRecord,
}
use lotus_archive.Audit.{AccessAuditEvent, AccessEventType, AuthorizationDecision, CallerContext}
use lotus_archive.Repository.State.{Repository, save}
use lotus_archive.Repository.Purge.{
  begin_purge, mark_purge_eligible, mark_purge_not_eligible, complete_purge,
}
use lotus_archive.Repository.Holds.{refresh_legal_hold_summary, release_and_record_legal_hold}
use lotus_archive.Repository.Transitions.{apply_lifecycle_transition}
use lotus_archive.Repository.Invariant.{RowIsSound}
use lotus_archive.Service.World.{
  World, Archive, new_id, utc_now, today, repository_call, repository_try, storage_try, storage_get,
  record_event, append_event,
}
use lotus_archive.Service.Holds.{LegalHoldCreateCommand, mint_hold}

-- The writes that the service makes to the repository, but for the admission of a new hold.
pub data Step : Repository → Repository → Type 0 where
  saved :
      {r : Repository} (m : ArchiveDocumentMetadata)
      → RowIsSound 0 m
      → m.document_id ≢ ""
      → Step r (save m r).1
  begun : {r : Repository} (i : String) (t : ℕ) → Step r (begin_purge i t r).1
  eligible : {r : Repository} (i : String) (at now : ℕ) → Step r (mark_purge_eligible i at now r).1
  not_eligible :
      {r : Repository} (i : String) (now : ℕ) → Step r (mark_purge_not_eligible i now r).1
  completed : {r : Repository} (i : String) (at now : ℕ) → Step r (complete_purge i at now r).1
  refreshed :
      {r : Repository} (i : String) (now : ℕ) → Step r (refresh_legal_hold_summary i now r).1
  released :
      {r : Repository} (i h by why : String) (at now : ℕ)
      → Step r (release_and_record_legal_hold i h by at why now r).1
  linked :
      {r : Repository} (i j : String) (t : LifecycleTransitionType)
      (rel : LifecycleRelationshipRecord) (now : ℕ)
      → Step r (apply_lifecycle_transition i j t rel now r).1

pub record IsKept (env : Environment) (R : World env → World env → Type 0) : Type 0 where
  pub preorder : IsPreorder R
  pub drawn : (w : World env) → R w (record w { draws = suc w.draws })
  pub audited :
      (w : World env) (event : AccessAuditEvent)
      → R w (record w { events = w.events ++ event ∷ [] })
  pub stored : (w : World env) (o : env.storage.State) → R w (record w { objects = o })
  pub stepped :
      (w : World env) (r : Repository) → Step w.repository r → R w (record w { repository = r })
  pub held :
      (i : String) (command : LegalHoldCreateCommand) (caller : CallerContext)
      → Moves R (mint_hold env i command caller)

module _ (env : Environment) {R : World env → World env → Type 0} (K : IsKept env R) where
  pub IsKept-IsPreorder : IsPreorder R
  IsKept-IsPreorder = K.preorder

  pub Moves-new_id : (prefix : String) → Moves R (new_id env prefix)
  unfolding new_id
  Moves-new_id prefix = record { at = λ w. K.drawn w }

  pub Moves-utc_now : Moves R (utc_now env)
  unfolding utc_now
  Moves-utc_now = record { at = λ w. K.drawn w }

  pub Moves-today : Moves R (today env)
  unfolding today
  Moves-today = record { at = λ w. K.drawn w }

  pub Moves-append_event : (event : AccessAuditEvent) → Moves R (append_event env event)
  unfolding append_event
  Moves-append_event event = record { at = λ w. K.audited w event }

  pub Moves-storage_get : (key : String) → Moves R (storage_get env key)
  unfolding storage_get
  Moves-storage_get key = record { at = λ w. K.preorder.stays w }

  pub Moves-storage_try :
      {A : Type 0} (f : env.storage.State → Result A × env.storage.State)
      → Moves R (storage_try env f)
  unfolding storage_try
  Moves-storage_try f = record { at = λ w. K.stored w (f w.objects).1 }

  pub Moves-repository_call :
      {A : Type 0} (f : Repository → A × Repository)
      → ((r : Repository) → Step r (f r).1)
      → Moves R (repository_call env f)
  unfolding repository_call
  Moves-repository_call f h = record { at = λ w. K.stepped w (f w.repository).1 (h w.repository) }

  pub Moves-repository_try :
      {A : Type 0} (f : Repository → Result A × Repository)
      → ((r : Repository) → Step r (f r).1)
      → Moves R (repository_try env f)
  unfolding repository_try
  Moves-repository_try f h = record { at = λ w. K.stepped w (f w.repository).1 (h w.repository) }

  pub Moves-record_event :
      (event_type : AccessEventType) (caller : CallerContext) (trace_id : String)
      (decision : AuthorizationDecision) (reason : String) (document_id operation : Option String)
      → Moves R (record_event env event_type caller trace_id decision reason document_id operation)
  unfolding record_event
  Moves-record_event event_type caller trace_id decision reason document_id operation =
      search (Moves-bind K.preorder, Moves-new_id, Moves-utc_now, Moves-append_event)

  pub Moves-begin_purge : (i : String) (at : ℕ) → Moves R (repository_call env (begin_purge i at))
  Moves-begin_purge i at = Moves-repository_call (begin_purge i at) λ r. begun i at

  pub Moves-mark_purge_eligible :
      (i : String) (at now : ℕ) → Moves R (repository_call env (mark_purge_eligible i at now))
  Moves-mark_purge_eligible i at now =
      Moves-repository_call (mark_purge_eligible i at now) λ r. eligible i at now

  pub Moves-mark_purge_not_eligible :
      (i : String) (now : ℕ) → Moves R (repository_call env (mark_purge_not_eligible i now))
  Moves-mark_purge_not_eligible i now =
      Moves-repository_call (mark_purge_not_eligible i now) λ r. not_eligible i now

  pub Moves-complete_purge :
      (i : String) (at now : ℕ) → Moves R (repository_call env (complete_purge i at now))
  Moves-complete_purge i at now =
      Moves-repository_call (complete_purge i at now) λ r. completed i at now

  pub Moves-refresh_legal_hold_summary :
      (i : String) (now : ℕ) → Moves R (repository_call env (refresh_legal_hold_summary i now))
  Moves-refresh_legal_hold_summary i now =
      Moves-repository_call (refresh_legal_hold_summary i now) λ r. refreshed i now

  pub Moves-release_and_record_legal_hold :
      (i h by why : String) (at now : ℕ)
      → Moves R (repository_call env (release_and_record_legal_hold i h by at why now))
  Moves-release_and_record_legal_hold i h by why at now =
      Moves-repository_call (release_and_record_legal_hold i h by at why now)
        λ r. released i h by why at now

  pub Moves-apply_lifecycle_transition :
      (i j : String) (t : LifecycleTransitionType) (rel : LifecycleRelationshipRecord) (now : ℕ)
      → Moves R (repository_try env (apply_lifecycle_transition i j t rel now))
  Moves-apply_lifecycle_transition i j t rel now =
      Moves-repository_try (apply_lifecycle_transition i j t rel now) λ r. linked i j t rel now

  pub Moves-save :
      (m : ArchiveDocumentMetadata)
      → RowIsSound 0 m
      → m.document_id ≢ ""
      → Moves R (repository_try env (save m))
  Moves-save m h e = Moves-repository_try (save m) λ r. saved m h e

pub ruleset walk_rules = (
  IsKept-IsPreorder, Moves-pure, Moves-raise, Moves-lift, Moves-gets, Moves-if, Moves-bind,
  Moves-utc_now, Moves-today, Moves-new_id, Moves-storage_get, Moves-storage_try,
)
