-- ===== src/Decisions/Desk.antt =====
-- `IdeaLifecycleDecisionService` of `idea_lifecycle_decisions/service.py`, beside the archive that it reads.
use lotus_archive.Prelude.{
  ℕ, ◌+◌, String, ◌<>◌, false, not, Option, none, some, List, ◌∷◌, map, contains, is_some, get_or,
  ◌==◌, string_eq, if◌then◌else◌,
}
use text.Mathlib.Text.{starts_with}
use lotus_archive.Prelude.Dict
use lotus_archive.Errors.{
  Result, ok, err, lifecycle_decision_conflict, signing_key_revoked, model_validation,
  lifecycle_decision_tenant, lifecycle_decision_document,
}
use lotus_archive.Exec.{Exec, pure, raise, lift, gets, ◌>>=◌, ◌>>◌}
use lotus_archive.Environment.{Environment}
use lotus_archive.Models.{
  ArchiveDocumentMetadata, GeneratedReportType, LegalHoldStatus, PurgeStatus, report_type_eq,
  purge_status_eq, hold_status_eq,
}
use lotus_archive.Audit.{CallerContext, AccessEventType, AuthorizationDecision}
use lotus_archive.Authorization.Policy.{ArchivePermission}
use lotus_archive.Service.World.{World, Archive, utc_now, record_event}
use lotus_archive.Service.Access.{authorize}
use lotus_archive.Service.Purge.{get_lifecycle_posture}
use lotus_archive.Decisions.Model.{
  IdeaLifecycleAction, IdeaLifecycleDecisionRequest, IdeaLifecyclePayload, IdeaLifecycleDecision,
  LifecycleKeyStatus, LifecycleVerificationKey, LifecycleVerificationKeys, is_region, retain,
  legal_hold, disposal_eligible, disposal_executed,
}
use lotus_archive.Decisions.Signing.{
  Codec, LifecycleDecisionSigner, RetainedVerificationKey, sign, public_key_base64,
}
use lotus_archive.Decisions.Ledger.{Ledger}
use lotus_archive.Decisions.Ledger

-- The destruction of a document outranks every claim that it is preserved.
unfoldable pub decision_action : ArchiveDocumentMetadata → IdeaLifecycleAction × String
decision_action m =
    if m.purge_status == PurgeStatus.purged
    then (disposal_executed, "purge_executed")
    else if is_some m.purge_started_at
    then (disposal_executed, "purge_in_progress")
    else if m.legal_hold_status == LegalHoldStatus.active
    then (legal_hold, "legal_hold_active")
    else if m.purge_status == PurgeStatus.eligible
    then (disposal_eligible, "retention_elapsed")
    else (retain, "retention_period_active")

-- What the service is built with.
pub record IdeaLifecycleDecisionService : Type 0 where
  pub codec : Codec
  pub signer : LifecycleDecisionSigner
  pub decision_ttl : ℕ
  pub signing_key_not_before_utc : Option ℕ
  pub retained_verification_keys : List RetainedVerificationKey
  pub revoked_key_ids : List String
  -- `digest[:24]` of the text's SHA-256
  pub short_digest : String → String

-- the archive, and the table of decisions
pub record Desk (env : Environment) : Type 0 where
  pub world : World env
  pub ledger : Ledger

module _ (service : IdeaLifecycleDecisionService) where
  -- `_status_for`
  unfoldable pub status_for : (key_id : String) → LifecycleKeyStatus → LifecycleKeyStatus
  status_for key_id unrevoked =
      if contains service.revoked_key_ids key_id then LifecycleKeyStatus.revoked else unrevoked

  unfoldable pub signing_key : LifecycleVerificationKey
  unfolding status_for
  signing_key = record {
    key_id = service.signer.key_id;
    algorithm = "ed25519";
    public_key_base64 = public_key_base64 service.codec service.signer;
    status = status_for service.signer.key_id LifecycleKeyStatus.active;
    not_before_utc = get_or service.signing_key_not_before_utc 0;
    not_after_utc = none;
    provenance =
        if starts_with service.signer.key_id "ephemeral-local"
        then "ephemeral_development"
        else "managed";
  }

  unfoldable pub retained_key : RetainedVerificationKey → LifecycleVerificationKey
  unfolding status_for
  retained_key key = record {
    key_id = key.key_id;
    algorithm = "ed25519";
    public_key_base64 = key.public_key_base64;
    status = status_for key.key_id LifecycleKeyStatus.rotated;
    not_before_utc = key.not_before_utc;
    not_after_utc = some key.not_after_utc;
    provenance = "managed";
  }

  -- `verification_keys`
  unfoldable pub verification_keys : LifecycleVerificationKeys
  unfolding signing_key retained_key
  verification_keys = signing_key ∷ map retained_key service.retained_verification_keys

  -- `_request_fingerprint`
  unfoldable pub request_fingerprint : String → IdeaLifecycleDecisionRequest → String → String
  request_fingerprint document_id request tenant_id =
      "sha256:" <> service.codec.sha256 (service.codec.request_json document_id request tenant_id)

  -- `_decision_id`
  unfoldable pub decision_id : String → String → String
  decision_id idempotency_key fingerprint =
      "archive_lifecycle_decision_"
      <> service.short_digest (idempotency_key <> (":" <> fingerprint))

  -- the unsigned decision
  unfoldable pub unsigned :
      (document_id : String)
      → IdeaLifecycleDecisionRequest
      → (idempotency_key fingerprint tenant_id retention_policy_id : String) → CallerContext
      → (trace_id : String) → ArchiveDocumentMetadata
      → (issued_at : ℕ) → IdeaLifecyclePayload
  unsigned document_id request idempotency_key fingerprint tenant_id policy caller trace_id m
        issued_at =
      let decided = decision_action m in
      record {
        contract_version = "lotus-archive:IdeaEvidenceLifecycleDecision:v1";
        decision_id = decision_id idempotency_key fingerprint;
        document_id = document_id;
        idea_evidence_pack_id = request.idea_evidence_pack_id;
        idea_candidate_id = request.idea_candidate_id;
        source_correlation_ref = request.source_correlation_ref;
        tenant_id = tenant_id;
        residency_region = m.region;
        retention_policy_id = policy;
        legal_hold_status = m.legal_hold_status;
        legal_hold_count = m.legal_hold_count;
        purge_status = m.purge_status;
        lifecycle_action = decided.0;
        disposal_authorized = false;
        decision_reason_code = decided.1;
        authority = "lotus-archive";
        issued_at_utc = issued_at;
        expires_at_utc = issued_at + service.decision_ttl;
        correlation_id = caller.correlation_id;
        trace_id = trace_id;
        signing_algorithm = "Ed25519";
        signing_key_id = service.signer.key_id;
      }

  -- `IdeaLifecycleDecision.model_validate`, then the digest and the signature
  unfoldable pub seal : IdeaLifecyclePayload → Result IdeaLifecycleDecision
  seal payload =
      if is_region payload.residency_region
      then (let signed = sign service.codec service.signer payload in
          ok (record { payload = payload; payload_digest = signed.0; signature = signed.1 }))
      else err model_validation

module _ (env : Environment) (service : IdeaLifecycleDecisionService) where
  -- an action of the archive, beside the table
  unfoldable pub archive : {A : Type 0} → Archive env A → Exec (Desk env) A
  archive m d = let (r, w) = m d.world in (r, record d { world = w })

  unfoldable pub save_decision :
      (idempotency_key fingerprint : String)
      → IdeaLifecycleDecision
      → Exec (Desk env) IdeaLifecycleDecision
  save_decision key fingerprint decision d =
      let (r, ledger) = Ledger.save key fingerprint decision d.ledger in
      (r, record d { ledger = ledger })

  -- `issued_at_utc or datetime.now(UTC)`
  unfoldable pub issue_time : Option ℕ → Exec (Desk env) ℕ
  unfolding archive
  issue_time none = archive (utc_now env)
  issue_time (some t) = pure t

  abbrev pub record_read :
      CallerContext → String → String → IdeaLifecycleDecision → Exec (Desk env) (Unit {0})
  record_read caller trace_id document_id stored = archive (
      record_event env AccessEventType.idea_lifecycle_decision_read caller trace_id
        AuthorizationDecision.allowed "idea_lifecycle_decision_read_allowed" (some document_id)
        (some stored.decision_reason_code))

  -- from the document that the archive holds on: sign, keep, and record
  unfoldable pub decide :
      (document_id : String)
      → IdeaLifecycleDecisionRequest
      → (idempotency_key fingerprint tenant_id : String) → CallerContext
      → String
      → Option ℕ
      → ArchiveDocumentMetadata
      → Option String
      → Exec (Desk env) IdeaLifecycleDecision
  unfolding issue_time
  decide document_id request key fingerprint tenant caller trace_id issued_at m none =
      raise (lifecycle_decision_document "document has no retention policy")
  decide document_id request key fingerprint tenant caller trace_id issued_at m (some policy) = do
    now ← issue_time issued_at
    decision ← lift (
        seal service (
          unsigned service document_id request key fingerprint tenant policy caller trace_id m now))
    stored ← save_decision key fingerprint decision
    record_read caller trace_id document_id stored
    pure stored

  -- a decision that is not in the table yet
  unfoldable pub decide_anew :
      (document_id : String)
      → IdeaLifecycleDecisionRequest
      → (idempotency_key fingerprint tenant_id : String) → CallerContext
      → String
      → Option ℕ
      → Exec (Desk env) IdeaLifecycleDecision
  decide_anew document_id request key fingerprint tenant caller trace_id issued_at = do
    m ← archive (get_lifecycle_posture env document_id)
    if not (m.tenant_id == tenant)
        then raise (lifecycle_decision_tenant "document tenant does not match caller tenant")
        else if not (m.report_type == GeneratedReportType.proof_pack)
        then raise (
            lifecycle_decision_document
              "Idea lifecycle decisions require an archived proof-pack document")
        else decide document_id request key fingerprint tenant caller trace_id issued_at m
            m.retention_policy_id

  -- the decision that the table holds, if it answers the same request
  unfoldable pub replay_or_decide :
      Option (String × IdeaLifecycleDecision)
      → (document_id : String) → IdeaLifecycleDecisionRequest
      → (idempotency_key fingerprint tenant_id : String) → CallerContext
      → String
      → Option ℕ
      → Exec (Desk env) IdeaLifecycleDecision
  replay_or_decide (some (stored_fingerprint, stored)) document_id request key fingerprint tenant
        caller trace_id issued_at =
      if stored_fingerprint == fingerprint then pure stored else raise lifecycle_decision_conflict
  replay_or_decide none document_id request key fingerprint tenant caller trace_id issued_at =
      decide_anew document_id request key fingerprint tenant caller trace_id issued_at

  unfoldable pub issue_for_tenant :
      Option String
      → (document_id : String) → IdeaLifecycleDecisionRequest
      → (idempotency_key : String) → CallerContext
      → String
      → Option ℕ
      → Exec (Desk env) IdeaLifecycleDecision
  unfolding replay_or_decide
  issue_for_tenant none document_id request key caller trace_id issued_at =
      raise (lifecycle_decision_tenant "tenant context is required")
  issue_for_tenant (some tenant) document_id request key caller trace_id issued_at = do
    let fingerprint = request_fingerprint service document_id request tenant
    existing ← gets (λ d. Dict.lookup key d.ledger)
    replay_or_decide existing document_id request key fingerprint tenant caller trace_id issued_at

  -- `IdeaLifecycleDecisionService.issue`
  unfoldable pub issue :
      (document_id : String)
      → IdeaLifecycleDecisionRequest
      → (idempotency_key : String) → CallerContext
      → (trace_id : String) → (issued_at_utc : Option ℕ) → Exec (Desk env) IdeaLifecycleDecision
  unfolding issue_for_tenant archive
  issue document_id request key caller trace_id issued_at =
      if contains service.revoked_key_ids service.signer.key_id
      then raise signing_key_revoked
      else do
        archive (
            authorize env ArchivePermission.read_idea_lifecycle_decision caller trace_id
              (some document_id))
        issue_for_tenant caller.tenant_id document_id request key caller trace_id issued_at
