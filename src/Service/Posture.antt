-- ===== src/Service/Posture.antt =====
-- The purge evaluation answers the document as it is stored: what callers see of a posture is the
-- repository's row, after the transitions that the evaluation makes.
use lotus_archive.Prelude.{
  ℕ, String, ◌≡◌, refl, sym, ap, subst, ◌∙◌, Bool, true, false, Option, none, some, List, is_some,
  get_or, arith, ◌==◌, Option-cases, inl, inr,
}
use lotus_archive.Prelude.Dict
use lotus_archive.Calendar.{Date, before}
use lotus_archive.Errors.{ok-injective}
use lotus_archive.Exec.{pure, ◌>>=◌}
use lotus_archive.Exec.Ensures.{
  Ensures, Ensures-pure, Ensures-raise, Ensures-gets, Ensures-if, Ensures-bind, Ensures-weaken,
}
use lotus_archive.Environment.{Environment}
use lotus_archive.Models.{
  ArchiveDocumentMetadata, LegalHoldStatus, LegalHoldRecord, PurgeStatus, purge_status_eq,
  hold_status_eq,
}
use lotus_archive.Repository.State.{Repository}
use lotus_archive.Repository.Invariant.{IsConsistent}
use lotus_archive.Repository.Purge.{mark_purge_eligible, mark_purge_not_eligible}
use lotus_archive.Repository.Holds.{refresh_legal_hold_summary}
use lotus_archive.Repository.Preservation.{
  mark_purge_eligible-IsConsistent, mark_purge_not_eligible-IsConsistent,
  refresh_legal_hold_summary-IsConsistent,
}
use lotus_archive.Service.World.{World, Archive, utc_now, today, repository_call}
use lotus_archive.Service.Purge.{
  reclassify, reclassify_stored, reclassify_refused_transition, answer, withdraw_eligibility,
  grant_eligibility, effective_date, evaluate_retention, evaluate, refresh, get_lifecycle_posture,
}
use lotus_archive.Service.Scope.{get_existing_metadata-Ensures}
use lotus_archive.Service.Destruction.{refresh_legal_hold_summary-answers, utc_now-Ensures}

mark_purge_not_eligible-answers :
    (i : String) (now : ℕ) (r : Repository) (m : ArchiveDocumentMetadata)
    → (mark_purge_not_eligible i now r).0 ≡ some m
    → Dict.lookup i (mark_purge_not_eligible i now r).1.by_document_id ≡ some m
unfolding mark_purge_not_eligible
mark_purge_not_eligible-answers i now r m h = elim (Option-cases (Dict.lookup i r.by_document_id)) [
  | inl e ↦ ground (arith, e)
  | inr (old, e) ↦ ground (
    arith,
    Dict.lookup-insert i i
        (record old { purge_status = PurgeStatus.not_eligible; updated_at = now }) r.by_document_id,
  )
]

mark_purge_eligible-answers :
    (i : String) (at now : ℕ) (r : Repository) (m : ArchiveDocumentMetadata)
    → (mark_purge_eligible i at now r).0 ≡ some m
    → Dict.lookup i (mark_purge_eligible i at now r).1.by_document_id ≡ some m
unfolding mark_purge_eligible
mark_purge_eligible-answers i at now r m h = elim (Option-cases (Dict.lookup i r.by_document_id)) [
  | inl e ↦ ground (arith, e)
  | inr (old, e) ↦ ground (
    arith,
    Dict.lookup-insert i i
        (record old {
          purge_status = PurgeStatus.eligible;
          purge_eligible_at = some (get_or old.purge_eligible_at at);
          updated_at = now;
        })
        r.by_document_id,
  )
]

reclassify-document :
    (m : ArchiveDocumentMetadata) (holds : List LegalHoldRecord) → (reclassify m holds).0 ≡ m
unfolding reclassify
reclassify-document m holds = ground arith

module _ (env : Environment) (i : String) where
  -- a consistent repository, in which the document stands under the identifier
  abbrev pub IsStored : ArchiveDocumentMetadata → World env → Type 0
  IsStored m w = IsConsistent w.repository × (Dict.lookup i w.repository.by_document_id ≡ some m)

  abbrev IsAnswer : Option ArchiveDocumentMetadata → World env → Type 0
  IsAnswer o w =
      IsConsistent w.repository
      × ((m : ArchiveDocumentMetadata)
          → o ≡ some m
          → Dict.lookup i w.repository.by_document_id ≡ some m)

  reclassify_stored-Ensures :
      (o : Option ArchiveDocumentMetadata)
      → Ensures (IsAnswer o) (reclassify_stored env i o) (λ e. IsStored e.0)
  unfolding reclassify_stored
  reclassify_stored-Ensures none = Ensures-raise _
  reclassify_stored-Ensures (some m) =
      Ensures-bind (λ holds. IsStored m) _ _ (Ensures-gets _ (λ w h. (h.0, h.1 m refl)))
        (λ holds. Ensures-pure _ (λ w h. (h.0, h.1 ∙ ap some (sym (reclassify-document m holds)))))

  answer-Ensures :
      (b : Bool) (reason : String) (o : Option ArchiveDocumentMetadata)
      → Ensures (IsAnswer o) (answer env b reason i o) (λ e. IsStored e.0)
  unfolding answer reclassify_refused_transition
  answer-Ensures b reason none =
      Ensures-bind IsAnswer _ _ (Ensures-gets _ (λ w h. (h.0, λ m e. e))) reclassify_stored-Ensures
  answer-Ensures b reason (some m) = Ensures-pure _ (λ w h. (h.0, h.1 m refl))

  not_eligible-Ensures :
      (now : ℕ)
      → Ensures
          (λ w. IsConsistent w.repository)
          (repository_call env (mark_purge_not_eligible i now))
          IsAnswer
  unfolding repository_call
  not_eligible-Ensures now = record {
    holds = λ w h a e. (
      mark_purge_not_eligible-IsConsistent w.repository h i now,
      λ m f. mark_purge_not_eligible-answers i now w.repository m (ok-injective e ∙ f),
    );
  }

  eligible-Ensures :
      (at now : ℕ)
      → Ensures
          (λ w. IsConsistent w.repository)
          (repository_call env (mark_purge_eligible i at now))
          IsAnswer
  unfolding repository_call
  eligible-Ensures at now = record {
    holds = λ w h a e. (
      mark_purge_eligible-IsConsistent w.repository h i at now,
      λ m f. mark_purge_eligible-answers i at now w.repository m (ok-injective e ∙ f),
    );
  }

  IsConsistent-now :
      Ensures (λ w. IsConsistent w.repository) (utc_now env) (λ _ w. IsConsistent w.repository)
  IsConsistent-now = utc_now-Ensures env (λ w draws h. h)

  withdraw_eligibility-Ensures :
      (m : ArchiveDocumentMetadata) (reason : String)
      → m.document_id ≡ i
      → Ensures
          (λ w. IsConsistent w.repository)
          (withdraw_eligibility env m reason)
          (λ e. IsStored e.0)
  unfolding withdraw_eligibility
  withdraw_eligibility-Ensures m reason same = rw same (
      Ensures-bind _ _ _ IsConsistent-now
        λ now. Ensures-bind _ _ _ (not_eligible-Ensures now) (answer-Ensures false reason))

  grant_eligibility-Ensures :
      (m : ArchiveDocumentMetadata)
      → m.document_id ≡ i
      → Ensures (λ w. IsConsistent w.repository) (grant_eligibility env m) (λ e. IsStored e.0)
  unfolding grant_eligibility
  grant_eligibility-Ensures m same = rw same (
      Ensures-bind _ _ _ IsConsistent-now λ at. Ensures-bind _ _ _ IsConsistent-now λ now.
        Ensures-bind _ _ _ (eligible-Ensures at now) (answer-Ensures true "retention_elapsed"))

  effective_date-Ensures :
      {P : World env → Type 0} (date : Option Date)
      → ((w : World env) (draws : ℕ) → P w → P (record w { draws = draws }))
      → Ensures P (effective_date env date) (λ _. P)
  unfolding effective_date today
  effective_date-Ensures none keeps = record { holds = λ w p a e. keeps w _ p }
  effective_date-Ensures (some d) keeps = Ensures-pure d (λ w h. h)

  -- a stored document, with the identifier that it is stored under
  abbrev IsNamed : ArchiveDocumentMetadata → World env → Type 0
  IsNamed m w = IsStored m w × (m.document_id ≡ i)

  -- the identifier does not depend on the state
  with_name :
      {A : Type 0} {m : ArchiveDocumentMetadata} {f : Archive env A} {Q : A → World env → Type 0}
      → (m.document_id ≡ i → Ensures (IsStored m) f Q)
      → Ensures (IsStored m) f Q
  with_name {m} k = record { holds = λ w h. (k (h.0.named i m h.1)).holds w h }

  evaluate_retention-Ensures :
      (m : ArchiveDocumentMetadata) (date retain_until : Option Date)
      → m.document_id ≡ i
      → Ensures (IsStored m) (evaluate_retention env m date retain_until) (λ e. IsStored e.0)
  unfolding evaluate_retention
  evaluate_retention-Ensures m date none same =
      Ensures-weaken (λ w h. h.0) (withdraw_eligibility-Ensures m _ same)
  evaluate_retention-Ensures m date (some until) same =
      Ensures-bind (λ _. IsStored m) _ _ (effective_date-Ensures date (λ w draws h. h))
        λ now.
          Ensures-if (before now until) _ _
            (λ _. Ensures-weaken (λ w h. h.0) (withdraw_eligibility-Ensures m _ same))
            (λ _.
              Ensures-if (m.purge_status == PurgeStatus.eligible) _ _
                (λ _. Ensures-pure _ (λ w h. h))
                (λ _. Ensures-weaken (λ w h. h.0) (grant_eligibility-Ensures m same)))

  pub evaluate-Ensures :
      (m : ArchiveDocumentMetadata) (date : Option Date)
      → Ensures (IsStored m) (evaluate env m date) (λ e. IsStored e.0)
  unfolding evaluate
  evaluate-Ensures m date = with_name λ same.
      Ensures-if (m.purge_status == PurgeStatus.purged) _ _ (λ _. Ensures-pure _ (λ w h. h))
        λ _.
          Ensures-if (is_some m.purge_started_at) _ _ (λ _. Ensures-pure _ (λ w h. h))
            λ _.
              Ensures-if (m.legal_hold_status == LegalHoldStatus.active) _ _
                (λ _. Ensures-weaken (λ w h. h.0) (withdraw_eligibility-Ensures m _ same))
                (λ _. evaluate_retention-Ensures m date m.retain_until_date same)

  refresh-IsStored : (m : ArchiveDocumentMetadata) → Ensures (IsStored m) (refresh env m) IsStored
  unfolding refresh utc_now repository_call ◌>>=◌ pure
  refresh-IsStored m = with_name λ same. record {
    holds = λ w h a e.
        let now = env.utc_now w.draws in
        (
          refresh_legal_hold_summary-IsConsistent w.repository h.0 m.document_id now,
          subst
              (λ k.
                Dict.lookup k
                  (refresh_legal_hold_summary m.document_id now w.repository).1.by_document_id
                ≡ some a)
              same
              (refresh_legal_hold_summary-answers m.document_id now w.repository m
                  (subst (λ k. Dict.lookup k w.repository.by_document_id ≡ some m) (sym same) h.1)
                ∙ ap some (ok-injective e)),
        );
  }

  -- `get_lifecycle_posture` answers the stored document, and keeps the repository consistent.
  pub get_lifecycle_posture-Ensures :
      Ensures (λ w. IsConsistent w.repository) (get_lifecycle_posture env i) IsStored
  unfolding get_lifecycle_posture today
  get_lifecycle_posture-Ensures = Ensures-bind _ _ _ (get_existing_metadata-Ensures env i) λ stored.
      Ensures-bind _ _ _ (refresh-IsStored stored) λ m.
        Ensures-bind (λ _. IsStored m) _ _ (record { holds = λ w h a e. h })
          λ date.
            Ensures-bind _ _ _ (evaluate-Ensures m (some date))
              λ evaluation. Ensures-pure _ (λ w h. h)
