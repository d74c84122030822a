-- ===== src/Decisions/Acceptance.antt =====
-- What it takes for a decision to be accepted, and what revocation does.
use lotus_archive.Prelude.{
  ℕ, ◌≤◌, ◌<◌, String, ◌<>◌, ◌≡◌, ◌≢◌, refl, sym, subst, Bool, true, false, not, Option, none, some,
  List, [], ◌∷◌, inl, inr, map, contains, ltb, arith, All, ◌==◌, string_eq, nat_eq, if◌then◌else◌,
  Bool-cases,
}
use lotus_archive.Prelude.Texts.{removeprefix}
use lotus_archive.Errors.{ok}
use lotus_archive.Environment.{Bytes}
use lotus_archive.Decisions.Model.{
  IdeaLifecycleDecision, LifecycleKeyStatus, LifecycleVerificationKey, LifecycleVerificationKeys,
  active, rotated, revoked,
}
use lotus_archive.Decisions.Signing.{
  Codec, RetainedVerificationKey, key_not_yet_valid, key_already_rotated, key_is_ephemeral,
  verify_signature, verify_under, is_past, refuse_signature, verify_lifecycle_decision, Verdict,
  matching_keys, refuse_under, refuse_matching, refuse_lifecycle_decision_against_bundle,
}
use lotus_archive.Decisions.Desk.{
  IdeaLifecycleDecisionService, verification_keys, status_for, signing_key, retained_key,
}

same_text : (a b : String) → (a == b) ≡ true → a ≡ b
same_text a b h = ground arith

not_ltb : (a b : ℕ) → ltb a b ≡ false → b ≤ a
not_ltb a b h = ground arith

module _ (codec : Codec) (d : IdeaLifecycleDecision) (at_utc : ℕ) where
  -- The bytes of the key and of the signature are well formed, and Ed25519 accepts them for the payload.
  pub record IsSigned (public_key : Bytes) : Type 0 where
    pub encoded : String
    pub signature : Bytes
    pub prefixed : removeprefix "ed25519:" d.signature ≡ some encoded
    pub decoded : codec.urlsafe_b64decode encoded ≡ some signature
    pub verified :
        codec.ed25519_verify public_key signature (codec.canonical_payload d.payload) ≡ true

  -- A managed key that is not revoked signed the payload within its window, the digest is the payload's, and the
  -- decision has not expired.
  pub record IsAcceptable (key : LifecycleVerificationKey) : Type 0 where
    pub unrevoked : key.status ≢ revoked
    pub managed : key.provenance ≡ "managed"
    pub started : key.not_before_utc ≤ d.issued_at_utc
    pub unended : (end : ℕ) → key.not_after_utc ≡ some end → d.issued_at_utc < end
    pub unexpired : at_utc < d.expires_at_utc
    pub digest : "sha256:" <> codec.sha256 (codec.canonical_payload d.payload) ≡ d.payload_digest
    pub public_key : Bytes
    pub decoded_key : codec.urlsafe_b64decode key.public_key_base64 ≡ some public_key
    pub signed : IsSigned public_key

  verify_signature-true :
      (public_key : Bytes) (o : Option Bytes)
      → verify_signature codec public_key (codec.canonical_payload d.payload) o ≡ true
      → (signature : Bytes) × (o ≡ some signature)
        × (codec.ed25519_verify public_key signature (codec.canonical_payload d.payload) ≡ true)
  unfolding verify_signature
  verify_signature-true public_key none h = cc
  verify_signature-true public_key (some signature) h = (signature, refl, h)

  verify_under-true :
      (public_key : Bytes) (o : Option String)
      → removeprefix "ed25519:" d.signature ≡ o
      → verify_under codec d (some public_key) o ≡ true
      → ("sha256:" <> codec.sha256 (codec.canonical_payload d.payload) ≡ d.payload_digest)
        × IsSigned public_key
  unfolding verify_under
  verify_under-true public_key none e h = cc
  verify_under-true public_key (some encoded) e h =
      let digest : "sha256:" <> codec.sha256 (codec.canonical_payload d.payload)
          ≡ d.payload_digest =
        ground arith in
      let (signature, decoded, verified) =
        verify_signature-true public_key (codec.urlsafe_b64decode encoded) (ground arith) in
      (
        digest,
        record {
          encoded = encoded;
          signature = signature;
          prefixed = e;
          decoded = decoded;
          verified = verified;
        },
      )

  verify-true :
      (key_id : String) (public_key : Bytes)
      → verify_lifecycle_decision codec d key_id public_key at_utc ≡ true
      → (at_utc < d.expires_at_utc)
        × ("sha256:" <> codec.sha256 (codec.canonical_payload d.payload) ≡ d.payload_digest)
        × IsSigned public_key
  unfolding verify_lifecycle_decision verify_under
  verify-true key_id public_key h =
      let early : at_utc < d.expires_at_utc = ground arith in
      let (digest, signed) =
        verify_under-true public_key (removeprefix "ed25519:" d.signature) refl (ground arith) in
      (early, digest, signed)

  refuse_signature-none :
      (key : LifecycleVerificationKey) (o : Option Bytes)
      → refuse_signature codec d key at_utc o ≡ ok none
      → (public_key : Bytes) × (o ≡ some public_key)
        × (verify_lifecycle_decision codec d key.key_id public_key at_utc ≡ true)
  unfolding refuse_signature
  refuse_signature-none key none h = cc
  refuse_signature-none key (some public_key) h = (public_key, refl, ground arith)

  is_past-false :
      (not_after : Option ℕ) (end : ℕ)
      → is_past codec not_after d.issued_at_utc ≡ false
      → not_after ≡ some end
      → d.issued_at_utc < end
  unfolding is_past
  is_past-false none end h e = cc
  is_past-false (some t) end h e = ground arith

  -- four checks in a row that refuse nothing
  passed :
      (managed early late : Bool) (rest : Verdict codec)
      → (if not managed
          then ok (some key_is_ephemeral)
          else if early
          then ok (some key_not_yet_valid)
          else if late
          then ok (some key_already_rotated)
          else rest)
        ≡ ok none
      → (managed ≡ true) × (early ≡ false) × (late ≡ false) × (rest ≡ ok none)
  passed true true late rest h = cc
  passed true false true rest h = cc
  passed true false false rest h = (refl, refl, refl, h)
  passed false early late rest h = cc

  -- the checks below the one for revocation
  unrefused :
      (key : LifecycleVerificationKey)
      → key.status ≢ revoked
      → refuse_under codec d at_utc active key ≡ ok none
      → IsAcceptable key
  unfolding refuse_under
  unrefused key unrevoked h =
      let (is_managed, not_early, not_late, checked) =
        passed (key.provenance == "managed") (ltb d.issued_at_utc key.not_before_utc)
          (is_past codec key.not_after_utc d.issued_at_utc)
          (refuse_signature codec d key at_utc (codec.urlsafe_b64decode key.public_key_base64)) h in
      let (public_key, decoded, verified) =
        refuse_signature-none key (codec.urlsafe_b64decode key.public_key_base64) checked in
      let (early, digest, signed) = verify-true key.key_id public_key verified in
      record {
        unrevoked = unrevoked;
        managed = same_text key.provenance "managed" is_managed;
        started = not_ltb d.issued_at_utc key.not_before_utc not_early;
        unended = λ end e. is_past-false key.not_after_utc end not_late e;
        unexpired = early;
        digest = digest;
        public_key = public_key;
        decoded_key = decoded;
        signed = signed;
      }

  refuse_under-none :
      (status : LifecycleKeyStatus) (key : LifecycleVerificationKey)
      → status ≡ key.status
      → refuse_under codec d at_utc status key ≡ ok none
      → IsAcceptable key
  unfolding refuse_under
  refuse_under-none revoked key e h = cc
  refuse_under-none active key e h = unrefused key (λ r. cc) h
  refuse_under-none rotated key e h = unrefused key (λ r. cc) h

  refuse_matching-none :
      (keys : LifecycleVerificationKeys)
      → refuse_matching codec d at_utc keys ≡ ok none
      → (key : LifecycleVerificationKey) × (keys ≡ key ∷ []) × IsAcceptable key
  unfolding refuse_matching
  refuse_matching-none [] h = cc
  refuse_matching-none (key ∷ []) h = (key, refl, refuse_under-none key.status key refl h)
  refuse_matching-none (_ ∷ _ ∷ _) h = cc

  -- A decision that is accepted against a published list of keys was signed for its payload by the one
  -- key there of that identifier, a managed key that is not revoked, at a time within the key's window, and the
  -- decision has not expired.
  pub accepted_decisions_are_signed :
      (bundle : LifecycleVerificationKeys)
      → refuse_lifecycle_decision_against_bundle codec d bundle at_utc ≡ ok none
      → (key : LifecycleVerificationKey) × (matching_keys codec d.signing_key_id bundle ≡ key ∷ [])
        × IsAcceptable key
  unfolding refuse_lifecycle_decision_against_bundle
  accepted_decisions_are_signed bundle h =
      refuse_matching-none (matching_keys codec d.signing_key_id bundle) h

module _ (service : IdeaLifecycleDecisionService) where
  abbrev IsRevoked : LifecycleVerificationKey → Type 0
  IsRevoked key = contains service.revoked_key_ids key.key_id ≡ true → key.status ≡ revoked

  status_for-revoked :
      (id : String) (status : LifecycleKeyStatus)
      → contains service.revoked_key_ids id ≡ true
      → status_for service id status ≡ revoked
  unfolding status_for
  status_for-revoked id status h = rw h

  retained-IsRevoked :
      (keys : List RetainedVerificationKey) → All IsRevoked (map (retained_key service) keys)
  unfolding retained_key
  retained-IsRevoked [] = tt
  retained-IsRevoked (key ∷ keys) =
      (λ h. status_for-revoked key.key_id rotated h, retained-IsRevoked keys)

  published-IsRevoked : All IsRevoked (verification_keys service)
  unfolding verification_keys signing_key
  published-IsRevoked = (
    λ h. status_for-revoked service.signer.key_id active h,
    retained-IsRevoked service.retained_verification_keys,
  )

  matching-revoked :
      (id : String) (keys : LifecycleVerificationKeys)
      → contains service.revoked_key_ids id ≡ true
      → All IsRevoked keys
      → All (λ key. key.status ≡ revoked) (matching_keys service.codec id keys)
  unfolding matching_keys
  matching-revoked id [] h all = tt
  matching-revoked id (key ∷ keys) h (is_revoked, all) = elim (Bool-cases (key.key_id == id)) [
    | inl same ↦ rw same (
      is_revoked (
          subst (λ k. contains service.revoked_key_ids k ≡ true)
            (sym (same_text key.key_id id same)) h),
      matching-revoked id keys h all,
    )
    | inr other ↦ rw other (matching-revoked id keys h all)
  ]

  -- A decision under an identifier that is revoked is never accepted by a consumer of the published keys, whatever it says and
  -- whoever signed it.
  pub revoked_keys_are_refused :
      (d : IdeaLifecycleDecision) (at_utc : ℕ)
      → contains service.revoked_key_ids d.signing_key_id ≡ true
      → refuse_lifecycle_decision_against_bundle service.codec d (verification_keys service) at_utc
        ≢ ok none
  revoked_keys_are_refused d at_utc h accepted =
      let (key, one, acceptable) =
        accepted_decisions_are_signed service.codec d at_utc (verification_keys service) accepted in
      let all =
        matching-revoked d.signing_key_id (verification_keys service) h published-IsRevoked in
      acceptable.unrevoked (subst (λ keys. All (λ k. k.status ≡ revoked) keys) one all).0
