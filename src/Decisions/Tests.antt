-- ===== src/Decisions/Tests.antt =====
-- The theorems on decisions at concrete data.
use lotus_archive.Prelude.{
  ◌≡◌, ◌≢◌, refl, ap, none, some, [], ◌∷◌, string_eq, string_discrete, option_discrete, arith,
}
use Prim.Native.String.{count}
use lotus_archive.Prelude.Dict
use native.Mathlib.Decide.{ℕ_discrete}
use lotus_archive.Calendar.{before}
use lotus_archive.Errors.{ok, err, lifecycle_decision_conflict}
use lotus_archive.Exec.{◌>>=◌, pure, raise, lift, gets, try_except}
use lotus_archive.Models.{ArchiveDocumentMetadata, PurgeStatus}
use lotus_archive.Models.Metadata.{LegalHoldStatus-discrete, PurgeStatus-discrete}
use lotus_archive.Authorization.Policy.{allowed_callers_for}
use lotus_archive.Repository.State.{active_hold_count}
use lotus_archive.Repository.Purge.{mark_purge_eligible}
use lotus_archive.Repository.Holds.{refresh_legal_hold_summary}
use lotus_archive.Service.World.{
  new_id, utc_now, today, repository_call, record_event, append_event,
}
use lotus_archive.Service.Access.{authorize, found, get_existing_metadata}
use lotus_archive.Models.Input.{GeneratedReportType-discrete}
use lotus_archive.Service.Purge.{
  get_lifecycle_posture, answer, grant_eligibility, effective_date, evaluate_retention, evaluate,
  refresh,
}
use lotus_archive.Service.Sample.{env, caller, outsider, doc, world, world-IsSafe}
use lotus_archive.Decisions.Model.{
  IdeaLifecycleDecisionRequest, IdeaLifecyclePayload, IdeaLifecycleDecision,
  LifecycleVerificationKey, is_region,
}
use lotus_archive.Decisions.Signing.{matching_keys, sign, refuse_lifecycle_decision_against_bundle}
use lotus_archive.Decisions.Ledger
use lotus_archive.Decisions.Desk.{
  Desk, unsigned, seal, issue, issue_for_tenant, replay_or_decide, decide_anew, decide, archive,
  issue_time, save_decision, verification_keys, request_fingerprint, decision_action,
}
use lotus_archive.Decisions.Verification.{sealed_decisions_are_accepted}
use lotus_archive.Decisions.Acceptance.{
  IsAcceptable, accepted_decisions_are_signed, revoked_keys_are_refused,
}
use lotus_archive.Decisions.Issue.{issued_decisions_are_replayed, reused_keys_conflict}
use lotus_archive.Decisions.Truth.{IsTruthful, new_decisions_are_true}
use lotus_archive.Decisions.Sample.{service, request, codec-IsSound, json, encode-injective}

abbrev payload : IdeaLifecyclePayload
payload = unsigned service "doc_1" request "k" "sha256:aab" "bank" "seven_years" caller "t" doc 5

abbrev signed : IdeaLifecycleDecision
signed = record {
  payload = payload;
  payload_digest = (sign service.codec service.signer payload).0;
  signature = (sign service.codec service.signer payload).1;
}

sealed : seal service payload ≡ ok signed
unfolding seal unsigned is_region
sealed = refl

sealed_decisions_are_accepted_example :
    refuse_lifecycle_decision_against_bundle service.codec signed (verification_keys service) 100
    ≡ ok none
unfolding unsigned string_discrete
sealed_decisions_are_accepted_example =
    sealed_decisions_are_accepted service codec-IsSound (λ e. omega (arith, ap count e), tt) refl
      refl payload signed 100 sealed refl (ground arith) (ground arith)

accepted_decisions_are_signed_example :
    (key : LifecycleVerificationKey) × (matching_keys service.codec "key_2024"
        (verification_keys service)
      ≡ key ∷ [])
    × IsAcceptable service.codec signed 100 key
unfolding unsigned
accepted_decisions_are_signed_example =
    accepted_decisions_are_signed service.codec signed 100 (verification_keys service)
      sealed_decisions_are_accepted_example

-- a decision that claims a revoked key
abbrev forged : IdeaLifecycleDecision
forged = record signed { payload = record payload { signing_key_id = "lost_2022" } }

revoked_keys_are_refused_example :
    refuse_lifecycle_decision_against_bundle service.codec forged (verification_keys service) 100
    ≢ ok none
unfolding string_discrete
revoked_keys_are_refused_example = revoked_keys_are_refused service forged 100 refl

abbrev desk : Desk env
desk = record { world = world; ledger = [] }

-- the decision of a first request, of which the evaluation makes the document eligible
abbrev eligible_doc : ArchiveDocumentMetadata
eligible_doc = record doc {
  purge_status = PurgeStatus.eligible;
  purge_eligible_at = some 2;
  updated_at = 3;
}

abbrev issued_payload : IdeaLifecyclePayload
issued_payload =
    unsigned service "doc_1" request "k" (request_fingerprint service "doc_1" request "bank") "bank"
      "seven_years" caller "t" eligible_doc 4

abbrev issued : IdeaLifecycleDecision
issued = record {
  payload = issued_payload;
  payload_digest = (sign service.codec service.signer issued_payload).0;
  signature = (sign service.codec service.signer issued_payload).1;
}

issue_run : (issue env service "doc_1" request "k" caller "t" none desk).0 ≡ ok issued
unfolding issue issue_for_tenant replay_or_decide decide_anew decide seal unsigned archive
    issue_time save_decision Ledger.save is_region decision_action get_lifecycle_posture answer
    grant_eligibility effective_date evaluate_retention evaluate refresh mark_purge_eligible
    refresh_legal_hold_summary ◌>>=◌ pure raise lift gets try_except new_id utc_now today
    repository_call record_event append_event authorize found allowed_callers_for string_discrete
    PurgeStatus-discrete LegalHoldStatus-discrete Dict.lookup Dict.insert Dict.count_where
    active_hold_count option_discrete ℕ_discrete before get_existing_metadata
    GeneratedReportType-discrete
issue_run = refl

abbrev after : Desk env
after = (issue env service "doc_1" request "k" caller "t" none desk).1

-- the same request from another service of the tenant
issued_decisions_are_replayed_example :
    issue env service "doc_1" request "k" outsider "t2" (some 90) after ≡ (ok issued, after)
unfolding allowed_callers_for string_discrete
issued_decisions_are_replayed_example =
    issued_decisions_are_replayed env service "doc_1" request "k" caller "t" none desk issued
      issue_run outsider "t2" (some 90) after refl refl refl

new_decisions_are_true_example :
    IsTruthful env service issued (issue env service "doc_1" request "k" caller "t" none desk).1
unfolding Dict.lookup
new_decisions_are_true_example =
    new_decisions_are_true env service "doc_1" request "k" caller "t" none desk issued
      world-IsSafe.consistent refl issue_run

-- another request under the key, with another candidate
abbrev other_request : IdeaLifecycleDecisionRequest
other_request = record request { idea_candidate_id = "another" }

reused_keys_conflict_example :
    issue env service "doc_1" other_request "k" outsider "t2" (some 90) after
    ≡ (err lifecycle_decision_conflict, after)
unfolding allowed_callers_for string_discrete json
reused_keys_conflict_example =
    reused_keys_conflict env service "doc_1" "doc_1" request other_request "k" "bank" "bank"
      (λ e. cc) (λ e. encode-injective _ _ e) caller "t" none desk issued refl issue_run outsider
      "t2" (some 90) after refl refl refl
      (λ e.
        omega (arith, ap (λ (r : IdeaLifecycleDecisionRequest). count r.idea_candidate_id) (e.1)))
