-- ===== src/Environment.antt =====
-- What `ArchiveDocumentService` is built from and uses: its policy and size limit, the object storage
-- behind its protocol, Python's text folding, SHA-256, base64 and XLSX reader, fresh identifiers and
-- the clock.
use lotus_archive.Prelude.{ℕ, String, Bool, Option, List, string_eq}
use lotus_archive.Calendar.{Date}
use lotus_archive.Errors.{Result}
use lotus_archive.Authorization.Policy.{ArchiveAuthorizationPolicy}

-- a byte is a number below 256
abbrev pub Bytes : Type 0
Bytes = List ℕ

-- storage.py
pub record StoredObject : Type 0 where
  pub provider : String
  pub namespace : String
  pub key : String
  pub checksum_algorithm : String
  pub checksum : String
  pub size_bytes : ℕ

-- The `ObjectStorage` protocol, over a state of its own.
pub record ObjectStorage : Type 1 where
  pub State : Type 0
  pub put :
      (key : String) (content : Bytes) (expected_checksum checksum_algorithm : String)
      → State
      → Result StoredObject × State
  pub get : (key : String) → State → Result Bytes
  pub delete : (key : String) → State → Result (Unit {0}) × State

-- `uuid4_hex n`, `utc_now n` and `today n` are what the n-th reading answers.
pub record Environment : Type 1 where
  pub authorization_policy : ArchiveAuthorizationPolicy
  pub max_decoded_document_bytes : ℕ
  pub storage : ObjectStorage
  pub casefold : String → String
  pub lower : String → String
  pub sha256 : Bytes → String
  pub b64decode : String → Option Bytes
  pub is_bounded_xlsx : Bytes → Bool
  pub uuid4_hex : ℕ → String
  pub utc_now : ℕ → ℕ
  pub today : ℕ → Date
