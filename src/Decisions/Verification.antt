-- ===== src/Decisions/Verification.antt =====
-- Checking decisions against the keys that the service publishes.
use Prim.Native.String.append
use text.Mathlib.Text.{starts_with}
use lotus_archive.Prelude.{
  ℕ, ◌≤◌, ◌<◌, String, ◌<>◌, ◌≡◌, ◌≢◌, refl, ap, true, false, none, some, List, [], ◌∷◌, map,
  contains, get_or, arith, All, string_eq, nat_eq,
}
use lotus_archive.Prelude.Texts.{removeprefix}
use lotus_archive.Errors.{ok}
use lotus_archive.Environment.{Bytes}
use lotus_archive.Decisions.Model.{IdeaLifecyclePayload, IdeaLifecycleDecision}
use lotus_archive.Decisions.Signing.{
  Codec, LifecycleDecisionSigner, RetainedVerificationKey, sign, public_key_base64,
  verify_lifecycle_decision, matching_keys, refuse_under, refuse_lifecycle_decision_against_bundle,
}
use lotus_archive.Decisions.Desk.{
  IdeaLifecycleDecisionService, verification_keys, status_for, signing_key, retained_key, seal,
}

pub removeprefix-append : (p s : String) → removeprefix p (p <> s) ≡ some s
unfolding removeprefix
removeprefix-append String.[] s = ap (removeprefix String.[]) (append.nil s)
removeprefix-append (String.◌∷◌ c p) s =
    rw (append.cons c p s) (ground (arith, removeprefix-append p s))

-- What Ed25519 and base64 are relied on for.
pub record IsSound (codec : Codec) (signer : LifecycleDecisionSigner) : Type 0 where
  pub decodes : (b : Bytes) → codec.urlsafe_b64decode (codec.urlsafe_b64encode b) ≡ some b
  pub is_key : codec.is_public_key signer.public_bytes ≡ true
  pub verifies :
      (message : Bytes)
      → codec.ed25519_verify signer.public_bytes (signer.sign_bytes message) message ≡ true

module _ (service : IdeaLifecycleDecisionService)
    (sound : IsSound service.codec service.signer) where
  -- the signature of a sealed payload is good under the signer's key, until the decision expires
  seal-verifies :
      (payload : IdeaLifecyclePayload) (decision : IdeaLifecycleDecision) (at_utc : ℕ)
      → payload.signing_key_id ≡ service.signer.key_id
      → seal service payload ≡ ok decision
      → at_utc < payload.expires_at_utc
      → verify_lifecycle_decision service.codec decision service.signer.key_id
          service.signer.public_bytes at_utc
        ≡ true
  unfolding seal sign verify_lifecycle_decision
  seal-verifies payload decision at_utc signed sealed early = ground (
    arith,
    removeprefix-append "ed25519:" (
        service.codec.urlsafe_b64encode
          (service.signer.sign_bytes (service.codec.canonical_payload payload))),
    sound.decodes (service.signer.sign_bytes (service.codec.canonical_payload payload)),
    sound.verifies (service.codec.canonical_payload payload),
  )

-- no retained key has this identifier
abbrev pub IsUnretained : String → List RetainedVerificationKey → Type 0
IsUnretained id keys = All (λ key. key.key_id ≢ id) keys

module _ (service : IdeaLifecycleDecisionService) where
  matching_keys-unretained :
      (id : String) (keys : List RetainedVerificationKey)
      → IsUnretained id keys
      → matching_keys service.codec id (map (retained_key service) keys) ≡ []
  unfolding matching_keys retained_key
  matching_keys-unretained id [] h = refl
  matching_keys-unretained id (key ∷ keys) (ne, h) =
      ground (arith, matching_keys-unretained id keys h)

  matching_keys-signer :
      IsUnretained service.signer.key_id service.retained_verification_keys
      → matching_keys service.codec service.signer.key_id (verification_keys service)
        ≡ signing_key service ∷ []
  unfolding verification_keys matching_keys signing_key
  matching_keys-signer h =
      ground
        (arith, matching_keys-unretained service.signer.key_id service.retained_verification_keys h)

  -- A decision that the service seals is accepted by a consumer of the keys that it publishes, from its issue until it
  -- expires: the signer is a managed key that is not revoked and that no retained key shares its identifier
  -- with, the decision is issued from the key's start on, and base64 and Ed25519 undo what they made.
  pub sealed_decisions_are_accepted :
      IsSound service.codec service.signer
      → IsUnretained service.signer.key_id service.retained_verification_keys
      → contains service.revoked_key_ids service.signer.key_id ≡ false
      → starts_with service.signer.key_id "ephemeral-local" ≡ false
      → (payload : IdeaLifecyclePayload) (decision : IdeaLifecycleDecision) (at_utc : ℕ)
      → seal service payload ≡ ok decision
      → payload.signing_key_id ≡ service.signer.key_id
      → get_or service.signing_key_not_before_utc 0 ≤ payload.issued_at_utc
      → at_utc < payload.expires_at_utc
      → refuse_lifecycle_decision_against_bundle service.codec decision
          (verification_keys service)
          at_utc
        ≡ ok none
  unfolding refuse_lifecycle_decision_against_bundle refuse_under signing_key public_key_base64
      status_for seal
  sealed_decisions_are_accepted sound alone unrevoked managed payload decision at_utc sealed signed
        started early =
      ground (
        arith,
        matching_keys-signer alone,
        seal-verifies service sound payload decision at_utc signed sealed early,
        sound.decodes service.signer.public_bytes,
        sound.is_key,
      )
