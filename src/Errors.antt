-- ===== src/Errors.antt =====
-- The exceptions of `archive/exceptions.py`, `archive/authorization.py`, `archive/checksum.py` and
-- `security/caller_context.py`, one constructor each, with the message or the reason code that the
-- code raises them with. `key_error` is a failed look-up in a Python dict, and
-- `out_of_fuel` ends a loop of the model whose bound on rounds is too small.
-- The message of `historical_integrity` (the names of the changed fields) is left out.
use lotus_archive.Prelude.{String, ◌≡◌, refl, Bool, true, false, Option, none, some, List}

pub data Error : Type 0 where
  metadata_validation duplicate_archive_request document_not_found : (message : String) → Error
  document_checksum_mismatch legal_hold_active legal_hold_not_found : Error
  purge_already_started purge_not_eligible : Error
  supersession_conflict unsupported_lifecycle_transition : (message : String) → Error
  declared_checksum_mismatch : (declared computed : String) → Error
  artifact_identity_collision : (checksum existing_reference offered_reference : String) → Error
  historical_integrity storage_read_failed lookup_unavailable key_error out_of_fuel os_error : Error
  authorization_failed : (reason_code : String) → Error
  caller_scope_missing caller_context_missing : (headers : List String) → Error
  unsupported_checksum_algorithm : (algorithm : String) → Error
  lifecycle_decision_conflict signing_key_revoked model_validation invalid_public_key : Error
  lifecycle_decision_tenant lifecycle_decision_document : (message : String) → Error
  runtime_configuration : (message : String) → Error

pub data Result {ℓ} (A : Type ℓ) : Type ℓ where
  ok : A → Result A
  err : Error → Result A

-- what follows a result, unless that is an error
abbrev pub ◌>>=◌ {ℓ κ} : {A : Type ℓ} {B : Type κ} → Result A → (A → Result B) → Result B
err error >>= rest = err error
ok answer >>= rest = rest answer

infixl 5 ◌>>=◌ ◌>>◌
abbrev pub ◌>>◌ {ℓ} : {B : Type ℓ} → Result (Unit {0}) → Result B → Result B
first >> second = first >>= λ ignored. second

-- `if test: raise e`
abbrev pub raise_if : Bool → Error → Result (Unit {0})
raise_if true e = err e
raise_if false e = ok tt

pub raise_if-eq-ok : (b : Bool) (e : Error) → raise_if b e ≡ ok tt → b ≡ false
raise_if-eq-ok true e h = cc
raise_if-eq-ok false e h = refl

-- `if o is None: raise e`
abbrev pub or_raise {ℓ} : {A : Type ℓ} → Option A → Error → Result A
or_raise none e = err e
or_raise (some a) e = ok a

pub ok-injective {ℓ} : {A : Type ℓ} {a b : A} → ok a ≡ ok b → a ≡ b
ok-injective h = cc
