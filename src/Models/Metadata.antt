-- ===== src/Models/Metadata.antt =====
-- `ArchiveDocumentMetadata`, legal holds and lifecycle relationships of `archive/models.py`.
-- `checksum_algorithm` is kept as the text that the storage reported.
use lotus_archive.Prelude.{ℕ, String, Option, some, Eq, string_discrete}
use native.Mathlib.Decide.{ℕ_discrete}
use lotus_archive.Models.Input.{ArchiveDocumentInput}

pub data PurgeStatus : Type 0 where
  not_eligible eligible purged : PurgeStatus

pub data LegalHoldStatus : Type 0 where
  clear active : LegalHoldStatus

pub data LifecycleTransitionType : Type 0 where
  supersede correct reissue : LifecycleTransitionType

unfoldable pub PurgeStatus-discrete : Discrete PurgeStatus
PurgeStatus-discrete = hlevel

unfoldable pub LegalHoldStatus-discrete : Discrete LegalHoldStatus
LegalHoldStatus-discrete = hlevel

unfoldable pub LifecycleTransitionType-discrete : Discrete LifecycleTransitionType
LifecycleTransitionType-discrete = hlevel

instance abbrev pub purge_status_eq : Eq PurgeStatus
purge_status_eq = record { dec = PurgeStatus-discrete }

instance abbrev pub hold_status_eq : Eq LegalHoldStatus
hold_status_eq = record { dec = LegalHoldStatus-discrete }

instance abbrev pub transition_eq : Eq LifecycleTransitionType
transition_eq = record { dec = LifecycleTransitionType-discrete }

-- An instant is a number of microseconds.
pub record ArchiveDocumentMetadata : Type 0 where
  pub input : ArchiveDocumentInput
  pub open input use *
  pub document_id : String
  pub storage_provider : String
  pub storage_namespace : String
  pub storage_key : String
  pub checksum_algorithm : String
  pub checksum : String
  pub size_bytes : ℕ
  pub purge_eligible_at : Option ℕ
  pub purge_started_at : Option ℕ
  pub purged_at : Option ℕ
  pub purge_status : PurgeStatus
  pub legal_hold_status : LegalHoldStatus
  pub legal_hold_count : ℕ
  pub supersedes_document_id : Option String
  pub superseded_by_document_id : Option String
  pub correction_of_document_id : Option String
  pub reissue_of_document_id : Option String
  pub created_at : ℕ
  pub updated_at : ℕ

unfoldable pub ArchiveDocumentMetadata-discrete : Discrete ArchiveDocumentMetadata
ArchiveDocumentMetadata-discrete = hlevel (ℕ_discrete, string_discrete)

instance abbrev pub metadata_eq : Eq ArchiveDocumentMetadata
metadata_eq = record { dec = ArchiveDocumentMetadata-discrete }

pub record LegalHoldRecord : Type 0 where
  pub legal_hold_id : String
  pub document_id : String
  pub hold_status : LegalHoldStatus
  pub hold_reason : String
  pub authority_reference : String
  pub requested_by : String
  pub requested_at : ℕ
  pub released_by : Option String
  pub released_at : Option ℕ
  pub release_reason : Option String

pub record LifecycleRelationshipRecord : Type 0 where
  pub lifecycle_relationship_id : String
  pub source_document_id : String
  pub target_document_id : String
  pub transition_type : LifecycleTransitionType
  pub transition_reason : String
  pub transition_reason_code : String
  pub requested_by : String
  pub requested_at : ℕ

-- LIFECYCLE_TRANSITION_REASON_CODES
unfoldable pub transition_reason_code : LifecycleTransitionType → String
transition_reason_code supersede = "archive_document_supersession_requested"
transition_reason_code correct = "archive_document_correction_requested"
transition_reason_code reissue = "client_delivery_reissue_requested"

-- `getattr(target, LIFECYCLE_TARGET_ORIGIN_FIELD[transition_type])`
unfoldable pub target_origin : LifecycleTransitionType → ArchiveDocumentMetadata → Option String
target_origin supersede m = m.supersedes_document_id
target_origin correct m = m.correction_of_document_id
target_origin reissue m = m.reissue_of_document_id

-- `model_copy(update={origin_field: source_document_id, "updated_at": now})`
unfoldable pub set_target_origin :
    LifecycleTransitionType → String → ℕ → ArchiveDocumentMetadata → ArchiveDocumentMetadata
set_target_origin supersede source now m = record m {
  supersedes_document_id = some source;
  updated_at = now;
}
set_target_origin correct source now m = record m {
  correction_of_document_id = some source;
  updated_at = now;
}
set_target_origin reissue source now m = record m {
  reissue_of_document_id = some source;
  updated_at = now;
}
