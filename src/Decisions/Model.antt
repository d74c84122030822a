-- ===== src/Decisions/Model.antt =====
-- `idea_lifecycle_decisions/models.py`. The payload is a decision without its digest and signature.
use Prim.Native.Char.{code}
use Prim.Native.String.{count}
use lotus_archive.Prelude.{ℕ, String, Bool, true, ◌&&◌, Option, List, leb}
use lotus_archive.Models.{LegalHoldStatus, PurgeStatus}

pub data IdeaLifecycleAction : Type 0 where
  retain legal_hold disposal_eligible disposal_executed : IdeaLifecycleAction

pub record IdeaLifecycleDecisionRequest : Type 0 where
  pub idea_evidence_pack_id : String
  pub idea_candidate_id : String
  pub source_correlation_ref : String

pub record IdeaLifecyclePayload : Type 0 where
  pub contract_version : String
  pub decision_id : String
  pub document_id : String
  pub idea_evidence_pack_id : String
  pub idea_candidate_id : String
  pub source_correlation_ref : String
  pub tenant_id : String
  pub residency_region : String
  pub retention_policy_id : String
  pub legal_hold_status : LegalHoldStatus
  pub legal_hold_count : ℕ
  pub purge_status : PurgeStatus
  pub lifecycle_action : IdeaLifecycleAction
  pub disposal_authorized : Bool
  pub decision_reason_code : String
  pub authority : String
  pub issued_at_utc : ℕ
  pub expires_at_utc : ℕ
  pub correlation_id : String
  pub trace_id : String
  pub signing_algorithm : String
  pub signing_key_id : String

pub record IdeaLifecycleDecision : Type 0 where
  pub payload : IdeaLifecyclePayload
  pub open payload use *
  pub payload_digest : String
  pub signature : String

pub data LifecycleKeyStatus : Type 0 where
  active rotated revoked : LifecycleKeyStatus

pub record LifecycleVerificationKey : Type 0 where
  pub key_id : String
  pub algorithm : String
  pub public_key_base64 : String
  pub status : LifecycleKeyStatus
  pub not_before_utc : ℕ
  pub not_after_utc : Option ℕ
  pub provenance : String

-- `LifecycleVerificationKeys`
abbrev pub LifecycleVerificationKeys : Type 0
LifecycleVerificationKeys = List LifecycleVerificationKey

all_upper : String → Bool
all_upper String.[] = true
all_upper (String.◌∷◌ c s) = leb 65 (code c) && leb (code c) 90 && all_upper s

-- the pattern `^[A-Z]{2,16}$`
unfoldable pub is_region : String → Bool
unfolding all_upper
is_region s = leb 2 (count s) && leb (count s) 16 && all_upper s
