-- ===== src/Service/Destruction.antt =====
-- `purge_document`: what has happened when a purge is answered.
use lotus_archive.Prelude.{
  ℕ, String, ◌≡◌, ◌≢◌, refl, sym, ap, subst, ◌∙◌, true, false, Option, none, some, List, is_some,
  get_or, arith, ◌==◌, string_eq, nat_eq, Option-cases, Bool-cases, inl, inr,
}
use lotus_archive.Prelude.Dict
use lotus_archive.Calendar.{Date}
use lotus_archive.Errors.{
  ok, err, ok-injective, storage_read_failed, legal_hold_active, purge_not_eligible,
}
use lotus_archive.Exec.{pure, raise, ◌>>=◌}
use lotus_archive.Exec.Ensures.{
  Ensures, Ensures-pure, Ensures-raise, Ensures-if, Ensures-bind, Ensures-then_raise,
  Ensures-weaken, Ensures-then,
}
use lotus_archive.Environment.{Environment}
use lotus_archive.Models.{ArchiveDocumentMetadata, PurgeStatus, purge_status_eq, hold_status_eq}
use lotus_archive.Audit.{AccessAuditEvent, CallerContext}
use lotus_archive.Authorization.Policy.{ArchivePermission}
use lotus_archive.Repository.State.{Repository, active_hold_count}
use lotus_archive.Repository.Invariant.{IsConsistent}
use lotus_archive.Repository.Purge.{begin_purge, complete_purge}
use lotus_archive.Repository.Holds.{refresh_legal_hold_summary, summary_status}
use lotus_archive.Service.World.{World, utc_now, repository_call, storage_try}
use lotus_archive.Service.Purge.{
  PurgeEvaluation, refresh, refuse_purge, destroy, execute_purge, purge_document,
}
use lotus_archive.Service.Scope.{tenant_access-Ensures}
use lotus_archive.Service.Custody.{record_allowed-Ensures}
use lotus_archive.Service.Safety.{IsSafe, AreDistinct, KeepsSafe-IsKept}
use lotus_archive.Service.Walk.Purge.{Moves-purge_document}

-- the stored document, with its destruction begun
abbrev HasBegun : String → ArchiveDocumentMetadata → Repository → Type 0
HasBegun i m r = (Dict.lookup i r.by_document_id ≡ some m) × (is_some m.purge_started_at ≡ true)

begin_purge-HasBegun :
    (i : String) (t : ℕ) (r : Repository) (m : ArchiveDocumentMetadata)
    → (begin_purge i t r).0 ≡ some m
    → HasBegun i m (begin_purge i t r).1
unfolding begin_purge
begin_purge-HasBegun i t r m h = elim (Option-cases (Dict.lookup i r.by_document_id)) [
  | inl e ↦ ground (arith, e)
  | inr (old, e) ↦ ground (
    arith,
    Dict.lookup-insert i i (record old { purge_started_at = some t; updated_at = t })
        r.by_document_id,
  )
]

-- A completed purge answers the stored document, purged, in the place of storage that it had.
complete_purge-answers :
    (i : String) (at now : ℕ) (r : Repository) (m : ArchiveDocumentMetadata)
    → HasBegun i m r
    → (done : ArchiveDocumentMetadata) × ((complete_purge i at now r).0 ≡ some done)
      × (Dict.lookup i (complete_purge i at now r).1.by_document_id ≡ some done)
      × (done.purge_status ≡ PurgeStatus.purged)
      × (done.storage_key ≡ m.storage_key)
unfolding complete_purge
complete_purge-answers i at now r m (e, started) =
    let purged : ArchiveDocumentMetadata = record m {
      purge_status = PurgeStatus.purged;
      purged_at = some at;
      updated_at = now;
    } in
    elim (Bool-cases (m.purge_status == PurgeStatus.purged)) [
      | inl done ↦ (m, ground arith, ground arith, ground arith, refl)
      | inr todo ↦ (
        purged,
        ground arith,
        ground (arith, Dict.lookup-insert i i purged r.by_document_id),
        refl,
        refl,
      )
    ]

-- A refreshed document is the stored one.
pub refresh_legal_hold_summary-answers :
    (i : String) (now : ℕ) (r : Repository) (m : ArchiveDocumentMetadata)
    → Dict.lookup i r.by_document_id ≡ some m
    → Dict.lookup i (refresh_legal_hold_summary i now r).1.by_document_id
      ≡ some (get_or (refresh_legal_hold_summary i now r).0 m)
unfolding refresh_legal_hold_summary
refresh_legal_hold_summary-answers i now r m e =
    rw (e, refresh_legal_hold_summary)
      (ground (
        arith,
        Dict.lookup-insert i i
            (record m {
              legal_hold_status = summary_status (active_hold_count i r);
              legal_hold_count = active_hold_count i r;
              updated_at = now;
            })
            r.by_document_id,
      ))

other_reason : (reason : String) → reason ≡ "already_purged" → reason ≢ "purged"
other_reason reason p e = cc

module _ (env : Environment) where
  pub utc_now-Ensures :
      {P : World env → Type 0}
      → ((w : World env) (draws : ℕ) → P w → P (record w { draws = draws }))
      → Ensures P (utc_now env) (λ _. P)
  unfolding utc_now
  utc_now-Ensures keeps = record { holds = λ w p a e. keeps w _ p }

  -- Bytes that were deleted cannot be read.
  abbrev pub Deletes : Type 0
  Deletes =
      (key : String) (s : env.storage.State)
      → (env.storage.delete key s).0 ≡ ok tt
      → env.storage.get key (env.storage.delete key s).1 ≡ err storage_read_failed

  -- The answer is the stored document, purged; where this call destroyed it, its bytes are gone.
  pub record IsDestroyed (i : String) (answer : ArchiveDocumentMetadata × String) (w : World env)
      : Type 0 where
    pub stored : Dict.lookup i w.repository.by_document_id ≡ some answer.0
    pub purged : answer.0.purge_status ≡ PurgeStatus.purged
    pub gone :
        answer.1 ≡ "purged"
        → env.storage.get answer.0.storage_key w.objects ≡ err storage_read_failed

  IsDestroyed-unread :
      (i : String) (answer : ArchiveDocumentMetadata × String) (w : World env)
      (events : List AccessAuditEvent) (draws : ℕ)
      → IsDestroyed i answer w
      → IsDestroyed i answer (record w { events = events; draws = draws })
  IsDestroyed-unread i answer w events draws h = record {
    stored = h.stored;
    purged = h.purged;
    gone = h.gone;
  }

  module _ (deletes : Deletes) (caller : CallerContext) (trace i : String) where
    abbrev IsErased : ArchiveDocumentMetadata → World env → Type 0
    IsErased m w =
        HasBegun i m w.repository
        × (env.storage.get m.storage_key w.objects ≡ err storage_read_failed)

    delete-Ensures :
        (m : ArchiveDocumentMetadata)
        → Ensures
            (λ w. HasBegun i m w.repository)
            (storage_try env (env.storage.delete m.storage_key))
            (λ _. IsErased m)
    unfolding storage_try
    delete-Ensures m = record { holds = λ w h a e. (h, deletes m.storage_key w.objects e) }

    complete-Ensures :
        (m : ArchiveDocumentMetadata) (at now : ℕ)
        → Ensures
            (IsErased m)
            (repository_call env (complete_purge i at now))
            (λ done. IsDestroyed i (get_or done m, "purged"))
    unfolding repository_call
    complete-Ensures m at now = record {
      holds = λ w h a e.
          let (done, answered, stored, purged, key) =
            complete_purge-answers i at now w.repository m h.0 in
          let same = ok-injective e in
          record { stored = ground arith; purged = ground arith; gone = λ _. ground (arith, h.1) };
    }

    destroy-Ensures :
        (claimed : Option ArchiveDocumentMetadata)
        → Ensures
            (λ w. (m : ArchiveDocumentMetadata) → claimed ≡ some m → HasBegun i m w.repository)
            (destroy env caller trace i claimed)
            (IsDestroyed i)
    unfolding destroy
    destroy-Ensures none = Ensures-then_raise _ _
    destroy-Ensures (some m) =
        Ensures-weaken (λ w h. h m refl)
          (Ensures-bind (λ _. IsErased m) _ _ (delete-Ensures m)
            λ _.
              Ensures-bind (λ _. IsErased m) _ _ (utc_now-Ensures (λ w draws h. h))
                λ at.
                  Ensures-bind (λ _. IsErased m) _ _ (utc_now-Ensures (λ w draws h. h))
                    λ now.
                      Ensures-bind (λ done. IsDestroyed i (get_or done m, "purged")) _ _
                        (complete-Ensures m at now)
                        λ done.
                          Ensures-bind (λ _. IsDestroyed i (get_or done m, "purged")) _ _
                            (record_allowed-Ensures env _ _ _ _ _ (IsDestroyed-unread i _))
                            λ _. Ensures-pure _ (λ w h. h))

    begin-Ensures :
        (at : ℕ)
        → Ensures
            (λ w. Unit {0})
            (repository_call env (begin_purge i at))
            (λ claimed w.
              (m : ArchiveDocumentMetadata) → claimed ≡ some m → HasBegun i m w.repository)
    unfolding repository_call
    begin-Ensures at = record {
      holds = λ w h a e m f. begin_purge-HasBegun i at w.repository m (ok-injective e ∙ f);
    }

    execute_purge-Ensures :
        (evaluation : PurgeEvaluation)
        → Ensures (λ w. Unit {0}) (execute_purge env caller trace i evaluation) (IsDestroyed i)
    unfolding execute_purge refuse_purge
    execute_purge-Ensures (m, true, reason) =
        Ensures-bind _ _ _ (utc_now-Ensures {P = λ w. Unit {0}} (λ w draws h. tt))
          λ at. Ensures-bind _ _ _ (begin-Ensures at) destroy-Ensures
    execute_purge-Ensures (m, false, reason) =
        Ensures-bind (λ _ w. Unit {0}) _ _ (record { holds = λ w h a e. tt })
          λ _.
            Ensures-if (reason == "legal_hold_active") (raise legal_hold_active)
              (raise purge_not_eligible) (λ _. Ensures-raise legal_hold_active)
              (λ _. Ensures-raise purge_not_eligible)

    refresh-Ensures :
        (m : ArchiveDocumentMetadata)
        → Ensures
            (λ w. (Dict.lookup i w.repository.by_document_id ≡ some m) × (m.document_id ≡ i))
            (refresh env m)
            (λ fresh w. Dict.lookup i w.repository.by_document_id ≡ some fresh)
    unfolding refresh utc_now repository_call ◌>>=◌ pure
    refresh-Ensures m = record {
      holds = λ w h a e.
          let now = env.utc_now w.draws in
          let answers = refresh_legal_hold_summary-answers i now w.repository m h.0 in
          subst
            (λ k.
              Dict.lookup i (refresh_legal_hold_summary k now w.repository).1.by_document_id
              ≡ some a)
            (sym h.1)
            (answers
              ∙ ap some (
                  ok-injective (
                    subst
                      (λ k. ok (get_or (refresh_legal_hold_summary k now w.repository).0 m) ≡ ok a)
                      h.1 e)));
    }

    purge_document-Ensures :
        (date : Option Date)
        → Ensures
            (λ w. IsConsistent w.repository)
            (purge_document env i caller trace date)
            (IsDestroyed i)
    unfolding purge_document
    purge_document-Ensures date =
        Ensures-bind
          (λ m w. (Dict.lookup i w.repository.by_document_id ≡ some m) × (m.document_id ≡ i)) _ _
          (Ensures-then
            (tenant_access-Ensures env caller trace {P = λ w. IsConsistent w.repository} i
              ArchivePermission.execute_purge)
            λ m w h. (h.1.stored, h.0.named i m h.1.stored))
          λ stored. Ensures-bind _ _ _ (refresh-Ensures stored) λ m.
            Ensures-if _ _ _
              (λ (done : (m.purge_status == PurgeStatus.purged) ≡ true).
                Ensures-bind (λ _ w. Dict.lookup i w.repository.by_document_id ≡ some m) _ _
                  (record_allowed-Ensures env _ _ _ _ _ (λ w events draws h. h))
                  λ _. Ensures-pure _ λ w h. record {
                    stored = h;
                    purged = ground arith;
                    gone = λ e. absurd (other_reason _ refl e);
                  })
              (λ _.
                Ensures-bind (λ _ w. Unit {0}) _ _ (record { holds = λ w h a e. tt })
                  execute_purge-Ensures)

  -- A purge that is answered has destroyed the document or found it destroyed: the answer is the document as
  -- it now stands under the identifier, marked as purged, and it has no active hold row; where this
  -- call destroyed it, its bytes can no longer be read. The state before is a safe one, identifiers do
  -- not repeat, and the storage cannot read what it deleted.
  pub answered_purges_destroy :
      AreDistinct env
      → Deletes
      → (i : String) (caller : CallerContext) (trace : String) (date : Option Date) (w : World env)
      → IsSafe env w
      → (answer : ArchiveDocumentMetadata × String)
      → (purge_document env i caller trace date w).0 ≡ ok answer
      → IsDestroyed i answer (purge_document env i caller trace date w).1
        × (active_hold_count i (purge_document env i caller trace date w).1.repository ≡ 0)
  answered_purges_destroy distinct deletes i caller trace date w safe answer e =
      let done =
        (purge_document-Ensures deletes caller trace i date).holds w safe.consistent answer e in
      let after =
        (Moves-purge_document env (KeepsSafe-IsKept env distinct) i caller trace date).at w safe in
      let row = after.consistent.sound i answer.0 done.stored in
      (done, row.unheld (row.begun done.purged))
