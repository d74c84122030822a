-- ===== src/Decisions/Signing.antt =====
-- `idea_lifecycle_decisions/signing.py`: signing a payload, and checking a decision against the keys that
-- the service publishes. JSON, base64 and Ed25519 are the fields of `Codec`.
use lotus_archive.Prelude.{
  ℕ, String, ◌<>◌, Bool, false, not, Option, none, some, [], ◌∷◌, leb, ltb, ◌==◌, string_eq, nat_eq,
  if◌then◌else◌,
}
use lotus_archive.Prelude.Texts.{removeprefix}
use lotus_archive.Errors.{Result, ok, err, invalid_public_key}
use lotus_archive.Environment.{Bytes}
use lotus_archive.Decisions.Model.{
  IdeaLifecyclePayload, IdeaLifecycleDecision, IdeaLifecycleDecisionRequest, LifecycleKeyStatus,
  LifecycleVerificationKey, LifecycleVerificationKeys,
}

pub record Codec : Type 0 where
  -- `_canonical_payload` of the dumped payload, and the JSON of a request
  pub canonical_payload : IdeaLifecyclePayload → Bytes
  pub request_json :
      (document_id : String) → IdeaLifecycleDecisionRequest → (tenant_id : String) → Bytes
  pub encode : String → Bytes
  pub sha256 : Bytes → String
  pub urlsafe_b64encode : Bytes → String
  pub urlsafe_b64decode : String → Option Bytes
  pub is_public_key : Bytes → Bool
  pub ed25519_verify : (public_key signature message : Bytes) → Bool

-- `Ed25519LifecycleDecisionSigner`
pub record LifecycleDecisionSigner : Type 0 where
  pub key_id : String
  pub public_bytes : Bytes
  pub sign_bytes : Bytes → Bytes

pub record RetainedVerificationKey : Type 0 where
  pub key_id : String
  pub public_key_base64 : String
  pub not_before_utc : ℕ
  pub not_after_utc : ℕ

pub data LifecycleDecisionVerificationRefusal : Type 0 where
  key_not_published key_id_not_unique key_revoked key_not_yet_valid key_already_rotated :
      LifecycleDecisionVerificationRefusal
  key_is_ephemeral signature_invalid : LifecycleDecisionVerificationRefusal

module _ (codec : Codec) where
  -- the digest and the signature of `Ed25519LifecycleDecisionSigner.sign`
  unfoldable pub sign : LifecycleDecisionSigner → IdeaLifecyclePayload → String × String
  sign signer payload =
      let canonical = codec.canonical_payload payload in
      (
        "sha256:" <> codec.sha256 canonical,
        "ed25519:" <> codec.urlsafe_b64encode (signer.sign_bytes canonical),
      )

  unfoldable pub public_key_base64 : LifecycleDecisionSigner → String
  public_key_base64 signer = codec.urlsafe_b64encode signer.public_bytes

  unfoldable pub verify_signature : Bytes → Bytes → Option Bytes → Bool
  verify_signature public_key canonical none = false
  verify_signature public_key canonical (some signature) =
      codec.ed25519_verify public_key signature canonical

  -- `trusted_keys.get(decision.signing_key_id)`, for the one trusted key that the caller gives
  abbrev pub trusted : (key_id : String) (public_key : Bytes) → String → Option Bytes
  trusted key_id public_key wanted = if wanted == key_id then some public_key else none

  unfoldable pub verify_under : IdeaLifecycleDecision → Option Bytes → Option String → Bool
  unfolding verify_signature
  verify_under decision none encoded = false
  verify_under decision (some public_key) none = false
  verify_under decision (some public_key) (some encoded) =
      let canonical = codec.canonical_payload decision.payload in
      if "sha256:" <> codec.sha256 canonical == decision.payload_digest
      then verify_signature public_key canonical (codec.urlsafe_b64decode encoded)
      else false

  unfoldable pub verify_lifecycle_decision :
      IdeaLifecycleDecision → (key_id : String) (public_key : Bytes) → (at_utc : ℕ) → Bool
  unfolding verify_under
  verify_lifecycle_decision decision key_id public_key at_utc =
      if leb decision.expires_at_utc at_utc
      then false
      else verify_under decision (trusted key_id public_key decision.signing_key_id)
          (removeprefix "ed25519:" decision.signature)

  -- `[key for key in bundle.keys if key.key_id == decision.signing_key_id]`
  unfoldable pub matching_keys : String → LifecycleVerificationKeys → LifecycleVerificationKeys
  matching_keys key_id [] = []
  matching_keys key_id (key ∷ keys) =
      let rest = matching_keys key_id keys in if key.key_id == key_id then key ∷ rest else rest

  abbrev pub Verdict : Type 0
  Verdict = Result (Option LifecycleDecisionVerificationRefusal)

  unfoldable pub refuse_signature :
      IdeaLifecycleDecision → LifecycleVerificationKey → ℕ → Option Bytes → Verdict
  refuse_signature decision key at_utc none = err invalid_public_key
  refuse_signature decision key at_utc (some public_key) =
      if not (codec.is_public_key public_key)
      then err invalid_public_key
      else if verify_lifecycle_decision decision key.key_id public_key at_utc
      then ok none
      else ok (some signature_invalid)

  -- the end of the window is the first instant past it
  unfoldable pub is_past : Option ℕ → ℕ → Bool
  is_past none issued_at = false
  is_past (some not_after) issued_at = leb not_after issued_at

  -- the checks on the one key that matches
  unfoldable pub refuse_under :
      IdeaLifecycleDecision → ℕ → LifecycleKeyStatus → LifecycleVerificationKey → Verdict
  unfolding refuse_signature is_past
  refuse_under decision at_utc LifecycleKeyStatus.revoked key = ok (some key_revoked)
  refuse_under decision at_utc _ key =
      if not (key.provenance == "managed")
      then ok (some key_is_ephemeral)
      else if ltb decision.issued_at_utc key.not_before_utc
      then ok (some key_not_yet_valid)
      else if is_past key.not_after_utc decision.issued_at_utc
      then ok (some key_already_rotated)
      else refuse_signature decision key at_utc (codec.urlsafe_b64decode key.public_key_base64)

  unfoldable pub refuse_matching : IdeaLifecycleDecision → ℕ → LifecycleVerificationKeys → Verdict
  refuse_matching decision at_utc [] = ok (some key_not_published)
  refuse_matching decision at_utc (key ∷ []) = refuse_under decision at_utc key.status key
  refuse_matching decision at_utc (_ ∷ _ ∷ _) = ok (some key_id_not_unique)

  unfoldable pub refuse_lifecycle_decision_against_bundle :
      IdeaLifecycleDecision → LifecycleVerificationKeys → (at_utc : ℕ) → Verdict
  unfolding refuse_matching
  refuse_lifecycle_decision_against_bundle decision bundle at_utc =
      refuse_matching decision at_utc (matching_keys decision.signing_key_id bundle)
