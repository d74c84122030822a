-- ===== src/Decisions/Issue.antt =====
-- Issuing decisions again under an idempotency key, with the same content and with another.
use lotus_archive.Prelude.{
  ℕ, String, ◌<>◌, ◌≡◌, ◌≢◌, refl, sym, ap, ◌∙◌, true, false, not, Option, none, some, contains,
  arith, ◌==◌, string_eq, if◌then◌else◌,
}
use mathlib.Core.Option.{some-injective}
use lotus_archive.Prelude.Dict
use lotus_archive.Prelude.Texts.{removeprefix}
use lotus_archive.Decisions.Verification.{removeprefix-append}
use lotus_archive.Errors.{ok, err, lifecycle_decision_conflict}
use lotus_archive.Exec.{pure, raise, gets, ◌>>=◌}
use lotus_archive.Exec.Ensures.{
  Ensures, Ensures-pure, Ensures-raise, Ensures-gets, Ensures-if, Ensures-bind, Ensures-weaken,
  Ensures-then,
}
use lotus_archive.Environment.{Environment}
use lotus_archive.Models.{
  ArchiveDocumentMetadata, GeneratedReportType, report_type_eq, purge_status_eq, hold_status_eq,
}
use lotus_archive.Audit.{CallerContext}
use lotus_archive.Authorization.Policy.{ArchivePermission, allowed_callers_for}
use lotus_archive.Service.World.{World, Archive}
use lotus_archive.Service.Access.{authorize}
use lotus_archive.Decisions.Model.{IdeaLifecycleDecisionRequest, IdeaLifecycleDecision}
use lotus_archive.Decisions.Ledger.{Ledger, save-answers}
use lotus_archive.Decisions.Desk.{
  IdeaLifecycleDecisionService, Desk, request_fingerprint, archive, save_decision, decide,
  decide_anew, replay_or_decide, issue_for_tenant, issue,
}

module _ (env : Environment) (service : IdeaLifecycleDecisionService) where
  pub archive-Ensures :
      {A : Type 0} {P : World env → Type 0} {Q : A → World env → Type 0} {m : Archive env A}
      (L : Ledger → Type 0)
      → Ensures P m Q
      → Ensures
          (λ d. P d.world × L d.ledger)
          (archive env service m)
          (λ a d. Q a d.world × L d.ledger)
  unfolding archive
  archive-Ensures L k = record { holds = λ d h a e. (k.holds d.world h.0 a e, h.1) }

  module _ (i : String) (request : IdeaLifecycleDecisionRequest) (key : String) where
    -- the table answers the key of this request, for this tenant, by the decision
    abbrev pub IsRecorded : String → IdeaLifecycleDecision → Desk env → Type 0
    IsRecorded tenant decision d =
        Dict.lookup key d.ledger ≡ some (request_fingerprint service i request tenant, decision)

    module _ (caller : CallerContext) (trace : String) (at : Option ℕ) where
      decide-IsRecorded :
          (tenant : String) (m : ArchiveDocumentMetadata) (policy : Option String)
          → Ensures
              (λ d. Unit {0})
              (decide env service i request key
                (request_fingerprint service i request tenant)
                tenant
                caller
                trace
                at
                m
                policy)
              (IsRecorded tenant)
      unfolding decide save_decision archive
      decide-IsRecorded tenant m none = Ensures-raise _
      decide-IsRecorded tenant m (some policy) =
          Ensures-bind (λ _ d. Unit {0}) _ _ (record { holds = λ d h a e. tt })
            λ now.
              Ensures-bind (λ _ d. Unit {0}) _ _ (record { holds = λ d h a e. tt })
                λ decision.
                  Ensures-bind (IsRecorded tenant) _ _
                    (record {
                      holds = λ d h a e.
                          save-answers key (request_fingerprint service i request tenant) decision a
                            d.ledger e;
                    })
                    λ stored.
                      Ensures-bind (λ _. IsRecorded tenant stored) _ _
                        (record { holds = λ d h a e. h }) λ _. Ensures-pure _ (λ d h. h)

      decide_anew-IsRecorded :
          (tenant : String)
          → Ensures
              (λ d. Unit {0})
              (decide_anew env service i request key
                (request_fingerprint service i request tenant)
                tenant
                caller
                trace
                at)
              (IsRecorded tenant)
      unfolding decide_anew
      decide_anew-IsRecorded tenant =
          Ensures-bind (λ _ d. Unit {0}) _ _ (record { holds = λ d h a e. tt })
            λ m.
              Ensures-if (not (m.tenant_id == tenant)) _ _ (λ _. Ensures-raise _)
                λ _.
                  Ensures-if (not (m.report_type == GeneratedReportType.proof_pack)) _ _
                    (λ _. Ensures-raise _) λ _. decide-IsRecorded tenant m m.retention_policy_id

      replay_or_decide-IsRecorded :
          (tenant : String) (o : Option (String × IdeaLifecycleDecision))
          → Ensures
              (λ d. Dict.lookup key d.ledger ≡ o)
              (replay_or_decide env service o i request key
                (request_fingerprint service i request tenant)
                tenant
                caller
                trace
                at)
              (IsRecorded tenant)
      unfolding replay_or_decide
      replay_or_decide-IsRecorded tenant none =
          Ensures-weaken (λ d h. tt) (decide_anew-IsRecorded tenant)
      replay_or_decide-IsRecorded tenant (some (stored_fingerprint, stored)) =
          Ensures-if (stored_fingerprint == request_fingerprint service i request tenant) _ _
            (λ (same : (stored_fingerprint == request_fingerprint service i request tenant) ≡ true).
              Ensures-pure _ (λ d h. h ∙ ap (λ f. some (f, stored)) (ground arith)))
            (λ _. Ensures-raise _)

      issue_for_tenant-IsRecorded :
          (o : Option String)
          → Ensures
              (λ d. Unit {0})
              (issue_for_tenant env service o i request key caller trace at)
              (λ decision d. (tenant : String) × (o ≡ some tenant) × IsRecorded tenant decision d)
      unfolding issue_for_tenant
      issue_for_tenant-IsRecorded none = Ensures-raise _
      issue_for_tenant-IsRecorded (some tenant) =
          Ensures-bind (λ o d. Dict.lookup key d.ledger ≡ o) _ _ (Ensures-gets _ (λ d h. refl))
            λ o.
              Ensures-then (replay_or_decide-IsRecorded tenant o)
                (λ decision d h. (tenant, refl, h))

      issue-IsRecorded :
          Ensures
            (λ d. Unit {0})
            (issue env service i request key caller trace at)
            (λ decision d.
              (contains service.revoked_key_ids service.signer.key_id ≡ false)
              × ((tenant : String) × (caller.tenant_id ≡ some tenant)
                  × IsRecorded tenant decision d))
      unfolding issue
      issue-IsRecorded =
          Ensures-if (contains service.revoked_key_ids service.signer.key_id) _ _
            (λ _. Ensures-raise _)
            (λ unrevoked.
              Ensures-bind (λ _ d. Unit {0}) _ _ (record { holds = λ d h a e. tt })
                λ _.
                  Ensures-then (issue_for_tenant-IsRecorded caller.tenant_id)
                    (λ decision d h. (unrevoked, h)))

      abbrev Permits : Type 0
      Permits =
          contains
            (allowed_callers_for env.authorization_policy
              ArchivePermission.read_idea_lifecycle_decision)
            caller.caller_service
          ≡ true

      -- what a caller of the tenant is answered where the key is in the table
      replay :
          (d : Desk env) (tenant stored_fingerprint : String) (stored : IdeaLifecycleDecision)
          → contains service.revoked_key_ids service.signer.key_id ≡ false
          → Permits
          → caller.tenant_id ≡ some tenant
          → Dict.lookup key d.ledger ≡ some (stored_fingerprint, stored)
          → issue env service i request key caller trace at d ≡ (
              if stored_fingerprint == request_fingerprint service i request tenant
              then (ok stored, d)
              else (err lifecycle_decision_conflict, d))
      unfolding issue issue_for_tenant replay_or_decide archive authorize ◌>>=◌ pure gets raise
      replay d tenant stored_fingerprint stored unrevoked allowed own known =
          rw (unrevoked, allowed, own, known) (ground arith)

    -- An issued decision is the answer to every later request of the same content under the same key, by
    -- any permitted caller of the tenant, whenever it comes and as long as the table keeps the row; the later request
    -- changes nothing.
    pub issued_decisions_are_replayed :
        (caller : CallerContext) (trace : String) (at : Option ℕ) (d : Desk env)
        (decision : IdeaLifecycleDecision)
        → (issue env service i request key caller trace at d).0 ≡ ok decision
        → (caller' : CallerContext) (trace' : String) (at' : Option ℕ) (later : Desk env)
        → caller'.tenant_id ≡ caller.tenant_id
        → Permits caller' trace' at'
        → Dict.lookup key later.ledger
          ≡ Dict.lookup key (issue env service i request key caller trace at d).1.ledger
        → issue env service i request key caller' trace' at' later ≡ (ok decision, later)
    issued_decisions_are_replayed caller trace at d decision h caller' trace' at' later same_tenant
          allowed kept =
        let (unrevoked, row) = (issue-IsRecorded caller trace at).holds d tt decision h in
        let (tenant, own, recorded) = row in
        replay caller' trace' at' later tenant (request_fingerprint service i request tenant)
          decision unrevoked allowed (same_tenant ∙ own) (kept ∙ recorded)
        ∙ ground arith

  prefixed-injective : (a b : String) → ("sha256:" <> a) ≡ ("sha256:" <> b) → a ≡ b
  prefixed-injective a b h = some-injective _ _ (
      sym (removeprefix-append "sha256:" a)
      ∙ ap (removeprefix "sha256:") h
      ∙ removeprefix-append "sha256:" b)

  -- After a decision was issued, the same key with another content (another document, another field of the request or
  -- another tenant) is refused as a conflict, by any permitted caller, whenever it comes and as long as the
  -- table keeps the row; nothing changes. This is given that equal JSON texts of the two contents come from
  -- equal contents, and that equal SHA-256 digests of the two texts come from equal texts.
  pub reused_keys_conflict :
      (i i' : String) (request request' : IdeaLifecycleDecisionRequest)
      (key tenant tenant' : String)
      → (service.codec.request_json i request tenant
            ≡ service.codec.request_json i' request' tenant'
          → (i ≡ i') × (request ≡ request') × (tenant ≡ tenant'))
      → (service.codec.sha256 (service.codec.request_json i request tenant)
            ≡ service.codec.sha256 (service.codec.request_json i' request' tenant')
          → service.codec.request_json i request tenant
            ≡ service.codec.request_json i' request' tenant')
      → (caller : CallerContext) (trace : String) (at : Option ℕ) (d : Desk env)
        (decision : IdeaLifecycleDecision)
      → caller.tenant_id ≡ some tenant
      → (issue env service i request key caller trace at d).0 ≡ ok decision
      → (caller' : CallerContext) (trace' : String) (at' : Option ℕ) (later : Desk env)
      → caller'.tenant_id ≡ some tenant'
      → contains
          (allowed_callers_for env.authorization_policy
            ArchivePermission.read_idea_lifecycle_decision)
          caller'.caller_service
        ≡ true
      → Dict.lookup key later.ledger
        ≡ Dict.lookup key (issue env service i request key caller trace at d).1.ledger
      → ¬ ((i ≡ i') × (request ≡ request') × (tenant ≡ tenant'))
      → issue env service i' request' key caller' trace' at' later
        ≡ (err lifecycle_decision_conflict, later)
  unfolding request_fingerprint
  reused_keys_conflict i i' request request' key tenant tenant' told digested caller trace at d
        decision own h caller' trace' at' later own' allowed kept differs =
      let (unrevoked, row) =
        (issue-IsRecorded i request key caller trace at).holds d tt decision h in
      let (issuer, known, recorded) = row in
      let same_tenant : issuer ≡ tenant = some-injective _ _ (sym known ∙ own) in
      let other : request_fingerprint service i request issuer
          ≢ request_fingerprint service i' request' tenant' =
        λ e. differs (
          told (
            digested (
              prefixed-injective _ _
                (ap (request_fingerprint service i request) (sym same_tenant) ∙ e)))) in
      replay i' request' key caller' trace' at' later tenant'
        (request_fingerprint service i request issuer) decision unrevoked allowed own'
        (kept ∙ recorded)
      ∙ ground (arith, other)
