-- ===== src/Service/World.antt =====
-- The state behind the service: the repository, the stored objects, the audit trail, and how many
-- readings of the clock and of `uuid4` have been taken.
use lotus_archive.Prelude.{ℕ, suc, String, ◌<>◌, Option, List, [], ◌∷◌, ◌++◌}
use lotus_archive.Calendar.{Date}
use lotus_archive.Errors.{Result, ok}
use lotus_archive.Exec.{Exec, ◌>>=◌}
use lotus_archive.Environment.{Environment, Bytes}
use lotus_archive.Repository.State.{Repository}
use lotus_archive.Audit.{
  AccessAuditEvent, AccessEventType, AuthorizationDecision, CallerContext, access_audit_event,
}

pub record World (env : Environment) : Type 0 where
  pub repository : Repository
  pub objects : env.storage.State
  pub events : List AccessAuditEvent
  pub draws : ℕ

abbrev pub Archive : Environment → Type 0 → Type 0
Archive env A = Exec (World env) A

module _ (env : Environment) where
  -- `f"{prefix}{uuid4().hex}"`
  unfoldable pub new_id : String → Archive env String
  new_id prefix w = (ok (prefix <> env.uuid4_hex w.draws), record w { draws = suc w.draws })

  -- `datetime.now(timezone.utc)`
  unfoldable pub utc_now : Archive env ℕ
  utc_now w = (ok (env.utc_now w.draws), record w { draws = suc w.draws })

  -- `date.today()`
  unfoldable pub today : Archive env Date
  today w = (ok (env.today w.draws), record w { draws = suc w.draws })

  -- a method of the repository that does not raise, and one that may
  unfoldable pub repository_call : {A : Type 0} → (Repository → A × Repository) → Archive env A
  repository_call f w = let (a, r) = f w.repository in (ok a, record w { repository = r })

  unfoldable pub repository_try :
      {A : Type 0} → (Repository → Result A × Repository) → Archive env A
  repository_try f w = let (a, r) = f w.repository in (a, record w { repository = r })

  -- a method of the object storage
  unfoldable pub storage_try :
      {A : Type 0} → (env.storage.State → Result A × env.storage.State) → Archive env A
  storage_try f w = let (a, o) = f w.objects in (a, record w { objects = o })

  unfoldable pub storage_get : String → Archive env Bytes
  storage_get key w = (env.storage.get key w.objects, w)

  -- `self._events.append(event)`
  unfoldable pub append_event : AccessAuditEvent → Archive env (Unit {0})
  append_event event w = (ok tt, record w { events = w.events ++ event ∷ [] })

  -- `audit_repository.record(access_audit_event(...))`
  unfoldable pub record_event :
      AccessEventType
      → CallerContext
      → (trace_id : String) → AuthorizationDecision
      → (authorization_reason_code : String) (document_id operation_reason_code : Option String)
      → Archive env (Unit {0})
  unfolding new_id utc_now append_event
  record_event event_type caller trace_id decision reason document_id operation = do
    id ← new_id "audit_"
    now ← utc_now
    append_event
        (access_audit_event id now event_type caller trace_id decision reason document_id operation)
