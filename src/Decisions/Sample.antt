-- ===== src/Decisions/Sample.antt =====
-- A small signing service for the tests: bytes are written in unary, and a signature is the message.
use Prim.Native.Char.{code}
use Prim.Native.String.{count}
use lotus_archive.Prelude.{
  ℕ, zero, suc, String, ◌≡◌, refl, Bool, true, false, ◌&&◌, Option, none, some, [], ◌∷◌, nat_eq,
  ◌==◌, arith, List, sym, ap, ◌∙◌,
}
use native.Mathlib.Decide.{ℕ_discrete}
use mathlib.Core.Option.{some-injective}
use lotus_archive.Environment.{Bytes}
use lotus_archive.Decisions.Model.{IdeaLifecycleDecisionRequest}
use lotus_archive.Decisions.Signing.{Codec, LifecycleDecisionSigner}
use lotus_archive.Decisions.Desk.{IdeaLifecycleDecisionService}
use lotus_archive.Decisions.Verification.{IsSound}

mark : ℕ → String → String
mark zero s = String.◌∷◌ "b" s
mark (suc n) s = String.◌∷◌ "a" (mark n s)

unfoldable pub encode : Bytes → String
unfolding mark
encode [] = ""
encode (n ∷ ns) = mark n (encode ns)

raised : Bytes → Option Bytes
raised [] = none
raised (n ∷ ns) = some (suc n ∷ ns)

read_mark : Bool → Option Bytes → Option Bytes
read_mark ended none = none
read_mark true (some ns) = some (0 ∷ ns)
read_mark false (some ns) = raised ns

unfoldable pub decode : String → Option Bytes
unfolding read_mark raised
decode String.[] = some []
decode (String.◌∷◌ c s) = read_mark (code c == 98) (decode s)

decode-mark :
    (n : ℕ) (s : String) (ns : Bytes) → decode s ≡ some ns → decode (mark n s) ≡ some (n ∷ ns)
unfolding decode mark ℕ_discrete
decode-mark zero s ns h = rw h refl
decode-mark (suc n) s ns h = rw (decode-mark n s ns h) refl

decode-encode : (b : Bytes) → decode (encode b) ≡ some b
unfolding decode encode
decode-encode [] = refl
decode-encode (n ∷ ns) = decode-mark n (encode ns) ns (decode-encode ns)

pub encode-injective : (a b : Bytes) → encode a ≡ encode b → a ≡ b
encode-injective a b h = some-injective _ _ (sym (decode-encode a) ∙ ap decode h ∙ decode-encode b)

unfoldable pub same_bytes : Bytes → Bytes → Bool
same_bytes [] [] = true
same_bytes [] (_ ∷ _) = false
same_bytes (_ ∷ _) [] = false
same_bytes (m ∷ ms) (n ∷ ns) = m == n && same_bytes ms ns

same_bytes_refl : (b : Bytes) → same_bytes b b ≡ true
unfolding same_bytes
same_bytes_refl [] = refl
same_bytes_refl (n ∷ ns) = ground (arith, same_bytes_refl ns)

-- the lengths of the fields, which tell the contents of the tests apart
unfoldable pub json : List String → Bytes
json [] = []
json (field ∷ fields) = count field ∷ json fields

abbrev pub codec : Codec
codec = record {
  canonical_payload = λ payload. payload.issued_at_utc ∷ [];
  request_json = λ document_id request tenant_id. json (
      document_id ∷ request.idea_evidence_pack_id ∷ request.idea_candidate_id
      ∷ request.source_correlation_ref ∷ tenant_id ∷ []);
  encode = λ s. [];
  sha256 = encode;
  urlsafe_b64encode = encode;
  urlsafe_b64decode = decode;
  is_public_key = λ b. true;
  ed25519_verify = λ key signature message. same_bytes signature message;
}

abbrev pub signer : LifecycleDecisionSigner
signer = record { key_id = "key_2024"; public_bytes = 3 ∷ []; sign_bytes = λ message. message }

abbrev pub service : IdeaLifecycleDecisionService
service = record {
  codec = codec;
  signer = signer;
  decision_ttl = 300;
  signing_key_not_before_utc = none;
  retained_verification_keys =
      record { key_id = "old_key"; public_key_base64 = "bb"; not_before_utc = 0; not_after_utc = 1 }
      ∷ [];
  revoked_key_ids = "lost_2022" ∷ [];
  short_digest = λ s. s;
}

abbrev pub request : IdeaLifecycleDecisionRequest
request = record {
  idea_evidence_pack_id = "pack_1";
  idea_candidate_id = "idea_1";
  source_correlation_ref = "c1";
}

pub codec-IsSound : IsSound codec signer
codec-IsSound = record {
  decodes = decode-encode;
  is_key = refl;
  verifies = λ message. same_bytes_refl message;
}
