-- ===== src/Service/Writer.antt =====
-- `archive/archive_writer.py`, `archive/checksum.py`, the admission part of
-- `archive/artifact_format.py`, and `create_document` of the service.
use Prim.Native.String.{count}
use lotus_archive.Prelude.{
  ℕ, String, ◌<>◌, Bool, not, ◌&&◌, ◌||◌, Option, none, some, List, [], ◌∷◌, is_some, length, ltb,
  ◌==◌, string_eq, option_eq, nat_eq, if◌then◌else◌,
}
use lotus_archive.Errors.{
  Result, ok, err, metadata_validation, duplicate_archive_request, declared_checksum_mismatch,
  artifact_identity_collision,
}
use lotus_archive.Exec.{pure, raise, lift, gets, try_except, ◌>>=◌, ◌>>◌}
use lotus_archive.Checksum.{calculate_checksum, sha256_name}
use lotus_archive.Environment.{Environment, StoredObject, Bytes}
use lotus_archive.Models.{
  ArchiveDocumentInput, ArchiveDocumentMetadata, GeneratedReportType, LegalHoldStatus, PurgeStatus,
  input_eq,
}
use lotus_archive.Audit.{CallerContext, AccessEventType}
use lotus_archive.Authorization.Policy.{ArchivePermission}
use lotus_archive.Repository.State.{save, get_by_checksum, get_by_archive_request_id}
use lotus_archive.Service.World.{Archive, new_id, utc_now, repository_try, storage_try}
use lotus_archive.Service.Access.{record_allowed, authorize, authorize_document_tenant_scope}

abbrev pub xlsx_mime : String
xlsx_mime = "application/vnd.openxmlformats-officedocument.spreadsheetml.sheet"

-- `.value`
report_type_value : GeneratedReportType → String
report_type_value GeneratedReportType.composite_review = "composite_review"
report_type_value GeneratedReportType.portfolio_review = "portfolio_review"
report_type_value GeneratedReportType.outcome_review = "outcome_review"
report_type_value GeneratedReportType.proof_pack = "proof_pack"
report_type_value GeneratedReportType.rebalance_wave = "rebalance_wave"

-- `s.replace("/", "-")`
replace_slashes : String → String
replace_slashes String.[] = String.[]
replace_slashes (String.◌∷◌ c s) =
    let rest = replace_slashes s in
    if String.◌∷◌ c String.[] == "/" then "-" <> rest else String.◌∷◌ c rest

-- The first document under another reference that holds the same bytes.
unfoldable pub other_reference : String → List ArchiveDocumentMetadata → Option String
other_reference offered [] = none
other_reference offered (held ∷ documents) =
    let rest = other_reference offered documents in
    elim held.document_reference [
      | none ↦ rest
      | some reference ↦ if reference == offered then rest else some reference
    ]

abbrev pub new_document : ArchiveDocumentInput → String → StoredObject → ℕ → ArchiveDocumentMetadata
new_document document document_id stored now = record {
  input = document;
  document_id = document_id;
  storage_provider = stored.provider;
  storage_namespace = stored.namespace;
  storage_key = stored.key;
  checksum_algorithm = stored.checksum_algorithm;
  checksum = stored.checksum;
  size_bytes = stored.size_bytes;
  purge_eligible_at = none;
  purge_started_at = none;
  purged_at = none;
  purge_status = PurgeStatus.not_eligible;
  legal_hold_status = LegalHoldStatus.clear;
  legal_hold_count = 0;
  supersedes_document_id = none;
  superseded_by_document_id = none;
  correction_of_document_id = none;
  reissue_of_document_id = none;
  created_at = now;
  updated_at = now;
}

module _ (env : Environment) where
  unfoldable pub decode_document_content : String → Result Bytes
  decode_document_content content_base64 = elim (env.b64decode content_base64) [
    | none ↦ err (metadata_validation "document content must be valid base64")
    | some content ↦
        if ltb env.max_decoded_document_bytes (length content)
        then err (metadata_validation "document content exceeds configured archive size limit")
        else ok content
  ]

  unfoldable pub validate_artifact_format :
      (output_format mime_type : String) → Bytes → Result (Unit {0})
  validate_artifact_format output_format mime_type content =
      if not (output_format == "xlsx") && not (mime_type == xlsx_mime)
      then ok tt
      else if not (output_format == "xlsx") || not (mime_type == xlsx_mime)
      then err (metadata_validation "XLSX format and media type must agree")
      else if env.is_bounded_xlsx content
      then ok tt
      else err (metadata_validation "document content is not a bounded XLSX workbook")

  -- `declared is not None and declared != checksum`
  unfoldable pub check_declared : Option String → String → Result (Unit {0})
  check_declared none checksum = ok tt
  check_declared (some declared) checksum =
      if declared == checksum then ok tt else err (declared_checksum_mismatch declared checksum)

  unfoldable pub check_collision :
      Option String → String → List ArchiveDocumentMetadata → Result (Unit {0})
  check_collision none checksum held = ok tt
  check_collision (some offered) checksum held = elim (other_reference offered held) [
    | none ↦ ok tt
    | some existing ↦ err (artifact_identity_collision checksum existing offered)
  ]

  -- `_ensure_duplicate_request_is_idempotent`
  unfoldable pub ensure_duplicate_request_is_idempotent :
      ArchiveDocumentMetadata
      → ArchiveDocumentInput
      → (checksum : String) → Bytes
      → Result (Unit {0})
  ensure_duplicate_request_is_idempotent existing document checksum content =
      if not (existing.checksum == checksum) || not (existing.size_bytes == length content)
      then err (
          duplicate_archive_request "archive_request_id was reused with different document content")
      else if existing.input == document
      then ok tt
      else err (duplicate_archive_request "archive_request_id was reused with different metadata")

  -- `_storage_key_for`
  unfoldable pub storage_key_for : ArchiveDocumentInput → String → String
  unfolding report_type_value replace_slashes
  storage_key_for document document_id =
      env.lower document.region
      <> ("/"
          <> (document.tenant_id
              <> ("/"
                  <> (report_type_value document.report_type
                      <> ("/"
                          <> (document_id
                              <> ("." <> replace_slashes (env.lower document.output_format))))))))

  -- What pydantic checks of the fields that the storage reported.
  unfoldable pub is_valid_object : StoredObject → Bool
  is_valid_object stored =
      not (stored.provider == "")
      && not (stored.namespace == "")
      && not (stored.key == "")
      && env.lower stored.checksum_algorithm == sha256_name
      && count stored.checksum == 64

  unfoldable pub save_document :
      ArchiveDocumentInput → String → StoredObject → ℕ → Archive env ArchiveDocumentMetadata
  unfolding is_valid_object
  save_document document document_id stored now =
      if is_valid_object stored
      then repository_try env (
          save (record (new_document document document_id stored now) {
            checksum_algorithm = sha256_name;
          }))
      else raise (metadata_validation "archive metadata could not be validated")

  -- a document that is not kept leaves no bytes behind
  unfoldable pub store_document :
      ArchiveDocumentInput → String → Bytes → Archive env ArchiveDocumentMetadata
  unfolding save_document
  store_document document checksum content = do
    document_id ← new_id env "doc_"
    stored ←
        storage_try env
          (env.storage.put (storage_key_for document document_id) content checksum sha256_name)
    now ← utc_now env
    try_except (save_document document document_id stored now)
        λ e. do storage_try env (env.storage.delete stored.key); raise e

  unfoldable pub replay_or_store :
      Option ArchiveDocumentMetadata
      → ArchiveDocumentInput
      → String
      → Bytes
      → Archive env ArchiveDocumentMetadata
  unfolding store_document
  replay_or_store (some existing) document checksum content = do
    lift (ensure_duplicate_request_is_idempotent existing document checksum content)
    pure existing
  replay_or_store none document checksum content = store_document document checksum content

  -- `ArchiveWriter.archive_document`
  unfoldable pub archive_document :
      ArchiveDocumentInput → Bytes → Archive env ArchiveDocumentMetadata
  unfolding replay_or_store check_declared check_collision
  archive_document document content = do
    lift (validate_artifact_format document.output_format document.mime_type content)
    checksum ← lift (calculate_checksum env.lower env.sha256 content sha256_name)
    lift (check_declared document.declared_artifact_sha256 checksum)
    held ← gets (λ w. get_by_checksum checksum w.repository)
    lift (check_collision document.document_reference checksum held)
    lookup ← gets (λ w. get_by_archive_request_id document.archive_request_id w.repository)
    existing ← lift lookup
    replay_or_store existing document checksum content

  -- A composite report is authorized against the scope that it declares before it is stored.
  unfoldable pub authorize_submission :
      ArchiveDocumentInput → CallerContext → String → Archive env (Unit {0})
  authorize_submission document caller trace_id =
      if is_some document.composite_id
      then authorize_document_tenant_scope env document none caller trace_id
      else pure tt

  unfoldable pub create_document :
      ArchiveDocumentInput
      → (content_base64 : String) → CallerContext
      → String
      → Archive env ArchiveDocumentMetadata
  unfolding authorize_submission
  create_document document content_base64 caller trace_id = do
    authorize env ArchivePermission.create_document caller trace_id none
    authorize_submission document caller trace_id
    content ← lift (decode_document_content content_base64)
    m ← archive_document document content
    record_allowed env AccessEventType.archive_create caller trace_id m.document_id none
    pure m
