-- ===== src/Service/ArchivalTests.antt =====
-- An admission into the file storage.
use lotus_archive.Prelude.{String, ◌≡◌, refl, none, [], ◌∷◌, string_discrete, option_discrete}
use lotus_archive.Prelude.Dict
use native.Mathlib.Decide.{ℕ_discrete}
use lotus_archive.Prelude.Texts.{split_on}
use lotus_archive.Errors.{ok}
use lotus_archive.Exec.{◌>>=◌, pure, raise, lift, gets, state, try_except}
use lotus_archive.Checksum.{calculate_checksum}
use lotus_archive.Environment.{Environment, Bytes}
use lotus_archive.Models.{ArchiveDocumentMetadata}
use lotus_archive.Samples.{input, document}
use lotus_archive.Repository.State.{save, empty, get_by_checksum, get_by_archive_request_id}
use lotus_archive.Storage.{
  filesystem_object_storage, put, path_for_key, kept, is_absolute, write_object, parent,
  temporary_path,
}
use lotus_archive.Storage.Sample.{
  file_system, file_system-IsLawful, same_path, content_of, holding, move,
}
use lotus_archive.Service.World.{World, new_id, utc_now, repository_try, storage_try}
use lotus_archive.Service.Writer.{
  archive_document, validate_artifact_format, check_declared, check_collision, replay_or_store,
  store_document, storage_key_for, save_document, is_valid_object, other_reference,
}
use lotus_archive.Service.Archival.{
  IsInCustody, admitted_documents_match, filesystem_object_storage-Reports,
}
use lotus_archive.Service.Sample.{env, letters, content}

abbrev sha : Bytes → String
sha b = "0123456789abcdef0123456789abcdef0123456789abcdef0123456789abcdef"

abbrev filing : Environment
filing = record env {
  storage = filesystem_object_storage file_system (λ s. s) sha ("srv" ∷ []) "local";
  sha256 = sha;
}

abbrev world : World filing
world = record { repository = empty; objects = λ path. none; events = []; draws = 0 }

abbrev kept_document : ArchiveDocumentMetadata
kept_document = record (document "req_1" "doc_") {
  storage_namespace = "local";
  storage_key = "SG/bank/proof_pack/doc_.pdf";
  checksum = sha content;
}

admission : (archive_document filing (input "req_1") content world).0 ≡ ok kept_document
unfolding archive_document validate_artifact_format calculate_checksum check_declared
    check_collision other_reference replay_or_store store_document storage_key_for save_document
    is_valid_object save get_by_checksum get_by_archive_request_id letters put path_for_key split_on
    kept is_absolute write_object parent temporary_path same_path content_of holding move ◌>>=◌ pure
    raise lift gets state try_except new_id utc_now repository_try storage_try Dict.lookup
    Dict.insert string_discrete option_discrete ℕ_discrete
admission = refl

admitted_documents_match_example : IsInCustody filing (input "req_1") content kept_document
admitted_documents_match_example =
    admitted_documents_match filing
      (filesystem_object_storage-Reports file_system (λ s. s) sha ("srv" ∷ []) "local"
        file_system-IsLawful)
      (input "req_1") content world kept_document admission
