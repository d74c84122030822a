-- ===== src/Decisions/Truth.antt =====
-- A decision that is signed anew, against the document that the archive holds.
use lotus_archive.Prelude.{
  ℕ, ◌<◌, String, ◌≡◌, ◌≢◌, refl, sym, ap, subst, ◌∙◌, true, false, not, Option, none, some,
  contains, is_some, arith, ◌==◌, string_eq, ◌⊎◌, inl, inr,
}
use lotus_archive.Prelude.Dict
use lotus_archive.Errors.{ok}
use lotus_archive.Exec.{◌>>=◌}
use lotus_archive.Exec.Ensures.{
  Ensures, Ensures-pure, Ensures-raise, Ensures-lift, Ensures-gets, Ensures-if, Ensures-bind,
  Ensures-weaken, Ensures-then,
}
use lotus_archive.Environment.{Environment}
use lotus_archive.Models.{
  ArchiveDocumentMetadata, GeneratedReportType, PurgeStatus, report_type_eq, purge_status_eq,
  hold_status_eq,
}
use lotus_archive.Audit.{CallerContext}
use lotus_archive.Authorization.Policy.{ArchivePermission}
use lotus_archive.Repository.State.{active_hold_count}
use lotus_archive.Repository.Invariant.{RowIsSound, IsConsistent}
use lotus_archive.Service.World.{utc_now, record_event, new_id, append_event}
use lotus_archive.Service.Posture.{IsStored, get_lifecycle_posture-Ensures}
use lotus_archive.Service.Scope.{authorize-Ensures}
use lotus_archive.Decisions.Model.{
  IdeaLifecycleAction, IdeaLifecycleDecisionRequest, IdeaLifecyclePayload, IdeaLifecycleDecision,
  retain, legal_hold, disposal_eligible, disposal_executed,
}
use lotus_archive.Decisions.Ledger.{Ledger}
use lotus_archive.Decisions.Ledger
use lotus_archive.Decisions.Desk.{
  IdeaLifecycleDecisionService, Desk, decision_action, request_fingerprint, unsigned, seal, archive,
  save_decision, issue_time, decide, decide_anew, replay_or_decide, issue_for_tenant, issue,
  record_read,
}
use lotus_archive.Decisions.Issue.{archive-Ensures}

-- What the action of a decision says about a document and its hold rows.
pub record IsTrue (action : IdeaLifecycleAction) (m : ArchiveDocumentMetadata) (active_count : ℕ)
    : Type 0 where
  pub executed : action ≡ disposal_executed → is_some m.purge_started_at ≡ true
  pub preserved :
      action ≢ disposal_executed
      → (is_some m.purge_started_at ≡ false) × (m.purge_status ≢ PurgeStatus.purged)
  pub held : action ≡ legal_hold → 0 < active_count
  pub free : (action ≡ retain) ⊎ (action ≡ disposal_eligible) → active_count ≡ 0
  pub eligible : action ≡ disposal_eligible → m.purge_status ≡ PurgeStatus.eligible

decision_action-IsTrue :
    (m : ArchiveDocumentMetadata) (active_count : ℕ)
    → RowIsSound active_count m
    → IsTrue (decision_action m).0 m active_count
unfolding decision_action
decision_action-IsTrue m active_count sound = record {
  executed = λ h. ground (arith, sound.begun);
  preserved = λ h. ground arith;
  held = λ h. ground (arith, sound.flagged);
  free =
      λ h. elim h [ inl e ↦ ground (arith, sound.flagged) | inr e ↦ ground (arith, sound.flagged) ];
  eligible = λ h. ground arith;
}

module _ (env : Environment) (service : IdeaLifecycleDecisionService) where
  -- The decision is about a proof pack of its tenant that is stored under its identifier, carries that
  -- document's posture, and its action is true of it.
  pub record IsTruthful (decision : IdeaLifecycleDecision) (d : Desk env) : Type 0 where
    pub row : ArchiveDocumentMetadata
    pub stored : Dict.lookup decision.document_id d.world.repository.by_document_id ≡ some row
    pub own : row.tenant_id ≡ decision.tenant_id
    pub pack : row.report_type ≡ GeneratedReportType.proof_pack
    pub posture :
        (decision.purge_status ≡ row.purge_status)
        × (decision.legal_hold_count ≡ active_hold_count decision.document_id d.world.repository)
    pub action :
        IsTrue decision.lifecycle_action row
          (active_hold_count decision.document_id d.world.repository)

  seal-payload :
      (payload : IdeaLifecyclePayload) (decision : IdeaLifecycleDecision)
      → seal service payload ≡ ok decision
      → decision.payload ≡ payload
  unfolding seal
  seal-payload payload decision h = ground arith

  module _ (i : String) (request : IdeaLifecycleDecisionRequest) (key fingerprint tenant : String)
      (caller : CallerContext) (trace : String) (at : Option ℕ) where
    -- the decision seals the posture of the stored document
    record IsSealed (m : ArchiveDocumentMetadata) (decision : IdeaLifecycleDecision) (d : Desk env)
        : Type 0 where
      policy : String
      now : ℕ
      sealed :
          seal service (unsigned service i request key fingerprint tenant policy caller trace m now)
          ≡ ok decision
      stored : IsStored env i m d.world

    IsSealed-IsTruthful :
        (m : ArchiveDocumentMetadata) (decision : IdeaLifecycleDecision) (d : Desk env)
        → m.tenant_id ≡ tenant
        → m.report_type ≡ GeneratedReportType.proof_pack
        → IsSealed m decision d
        → IsTruthful decision d
    unfolding unsigned
    IsSealed-IsTruthful m decision d own pack h =
        let payload : IdeaLifecyclePayload =
          unsigned service i request key fingerprint tenant h.policy caller trace m h.now in
        let same : payload ≡ decision.payload = sym (seal-payload payload decision h.sealed) in
        let sound = h.stored.0.sound i m h.stored.1 in
        record {
          row = m;
          stored =
              subst (λ p. Dict.lookup p.document_id d.world.repository.by_document_id ≡ some m) same
                h.stored.1;
          own = subst (λ p. m.tenant_id ≡ p.tenant_id) same own;
          pack = pack;
          posture =
              subst
                (λ p.
                  (p.purge_status ≡ m.purge_status)
                  × (p.legal_hold_count ≡ active_hold_count p.document_id d.world.repository))
                same (refl, sound.counted);
          action =
              subst
                (λ p.
                  IsTrue p.lifecycle_action m (active_hold_count p.document_id d.world.repository))
                same (decision_action-IsTrue m (active_hold_count i d.world.repository) sound);
        }

    -- the state in which a new decision is made
    abbrev IsOpen : ArchiveDocumentMetadata → Desk env → Type 0
    IsOpen m d = IsStored env i m d.world × (Dict.lookup key d.ledger ≡ none)

    save_decision-Ensures :
        (m : ArchiveDocumentMetadata) (decision : IdeaLifecycleDecision)
        → Ensures
            (IsOpen m)
            (save_decision env service key fingerprint decision)
            (λ stored d. (stored ≡ decision) × IsStored env i m d.world)
    unfolding save_decision Ledger.save
    save_decision-Ensures m decision = record { holds = λ d h a e. (ground (arith, h.1), h.0) }

    issue_time-keeps :
        (m : ArchiveDocumentMetadata)
        → Ensures (IsOpen m) (issue_time env service at) (λ _. IsOpen m)
    unfolding issue_time archive utc_now
    issue_time-keeps m = keeps_open at
      where
        keeps_open : (t : Option ℕ) → Ensures (IsOpen m) (issue_time env service t) (λ _. IsOpen m)
        keeps_open none = record { holds = λ d h a e. h }
        keeps_open (some t) = Ensures-pure t (λ d h. h)

    record_read-keeps :
        (decision : IdeaLifecycleDecision) (m : ArchiveDocumentMetadata) (d : Desk env)
        → IsStored env i m d.world
        → IsStored env i m (record_read env service caller trace i decision d).1.world
    unfolding archive record_event ◌>>=◌ new_id utc_now append_event
    record_read-keeps decision m d h = h

    decide-IsSealed :
        (m : ArchiveDocumentMetadata) (policy : Option String)
        → Ensures
            (IsOpen m)
            (decide env service i request key fingerprint tenant caller trace at m policy)
            (IsSealed m)
    unfolding decide archive
    decide-IsSealed m none = Ensures-raise _
    decide-IsSealed m (some policy) =
        Ensures-bind (λ now. IsOpen m) _ _ (issue_time-keeps m)
          λ now.
            Ensures-bind
              (λ decision d.
                IsOpen m d
                × (seal service
                      (unsigned service i request key fingerprint tenant policy caller trace m now)
                    ≡ ok decision))
              _ _ (Ensures-lift _ (λ decision d e h. (h, e)))
              λ decision.
                Ensures-bind (λ stored. IsSealed m stored) _ _
                  (record {
                    holds = λ d h a e.
                        let saved = (save_decision-Ensures m decision).holds d h.0 a e in
                        record {
                          policy = policy;
                          now = now;
                          sealed = h.1 ∙ ap ok (sym saved.0);
                          stored = saved.1;
                        };
                  })
                  λ stored.
                    Ensures-bind (λ _. IsSealed m stored) _ _
                      (record {
                        holds = λ d h a e. record {
                          policy = h.policy;
                          now = h.now;
                          sealed = h.sealed;
                          stored = record_read-keeps stored m d h.stored;
                        };
                      })
                      λ _. Ensures-pure _ (λ d h. h)

    decide_anew-IsTruthful :
        Ensures
          (λ d. IsConsistent d.world.repository × (Dict.lookup key d.ledger ≡ none))
          (decide_anew env service i request key fingerprint tenant caller trace at)
          IsTruthful
    unfolding decide_anew
    decide_anew-IsTruthful =
        Ensures-bind IsOpen _ _
          (archive-Ensures env service (λ ledger. Dict.lookup key ledger ≡ none)
            (get_lifecycle_posture-Ensures env i))
          λ m.
            Ensures-if (not (m.tenant_id == tenant)) _ _ (λ _. Ensures-raise _)
              λ (own : not (m.tenant_id == tenant) ≡ false).
                Ensures-if (not (m.report_type == GeneratedReportType.proof_pack)) _ _
                  (λ _. Ensures-raise _)
                  λ (pack : not (m.report_type == GeneratedReportType.proof_pack) ≡ false).
                    Ensures-then (decide-IsSealed m m.retention_policy_id) (λ decision d h.
                      IsSealed-IsTruthful m decision d (ground arith) (ground arith) h)

  module _ (i : String) (request : IdeaLifecycleDecisionRequest) (key : String)
      (caller : CallerContext) (trace : String) (at : Option ℕ) where
    new_row :
        (tenant : String) (o : Option (String × IdeaLifecycleDecision))
        → Ensures
            (λ d.
              (IsConsistent d.world.repository × (Dict.lookup key d.ledger ≡ none)) × (o ≡ none))
            (replay_or_decide env service o i request key
              (request_fingerprint service i request tenant)
              tenant
              caller
              trace
              at)
            IsTruthful
    unfolding replay_or_decide
    new_row tenant none =
        Ensures-weaken (λ d h. h.0)
          (decide_anew-IsTruthful i request key (request_fingerprint service i request tenant)
            tenant caller trace at)
    new_row tenant (some row) = record { holds = λ d h. cc }

    issue_for_tenant-IsTruthful :
        (o : Option String)
        → Ensures
            (λ d. IsConsistent d.world.repository × (Dict.lookup key d.ledger ≡ none))
            (issue_for_tenant env service o i request key caller trace at)
            IsTruthful
    unfolding issue_for_tenant
    issue_for_tenant-IsTruthful none = Ensures-raise _
    issue_for_tenant-IsTruthful (some tenant) =
        Ensures-bind
          (λ o d.
            (IsConsistent d.world.repository × (Dict.lookup key d.ledger ≡ none)) × (o ≡ none))
          _ _ (Ensures-gets _ (λ d h. (h, h.1))) (new_row tenant)

    -- A decision under a new key, issued from a consistent repository, is about a proof pack of its tenant that
    -- is stored under its identifier, carries that document's purge status and number of active holds, and its action is
    -- true of it: destruction is claimed only where it has begun, preservation only where it has not, a legal hold only
    -- where an active hold row is, and none where there is none.
    pub new_decisions_are_true :
        (d : Desk env) (decision : IdeaLifecycleDecision)
        → IsConsistent d.world.repository
        → Dict.lookup key d.ledger ≡ none
        → (issue env service i request key caller trace at d).0 ≡ ok decision
        → IsTruthful decision (issue env service i request key caller trace at d).1
    unfolding issue
    new_decisions_are_true d decision c new h =
        let truthful : Ensures
            (λ d. IsConsistent d.world.repository × (Dict.lookup key d.ledger ≡ none))
            (issue env service i request key caller trace at) IsTruthful =
          Ensures-if (contains service.revoked_key_ids service.signer.key_id) _ _
            (λ _. Ensures-raise _)
            (λ _.
              Ensures-bind
                (λ _ d. IsConsistent d.world.repository × (Dict.lookup key d.ledger ≡ none)) _ _
                (Ensures-then
                  (archive-Ensures env service (λ ledger. Dict.lookup key ledger ≡ none)
                    (authorize-Ensures env caller trace {P = λ w. IsConsistent w.repository}
                      ArchivePermission.read_idea_lifecycle_decision (some i)))
                  (λ _ d h. (h.0.0, h.1)))
                (λ _. issue_for_tenant-IsTruthful caller.tenant_id)) in
        truthful.holds d (c, new) decision h
