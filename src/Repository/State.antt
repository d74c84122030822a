-- ===== src/Repository/State.antt =====
-- The four dicts of the repository, its look-ups and `save`.
use lotus_archive.Prelude.{
  ℕ, String, Bool, false, not, ◌&&◌, ◌||◌, Option, none, some, List, [], ◌∷◌, ◌==◌, string_eq,
  if◌then◌else◌,
}
use lotus_archive.Prelude.Dict
use lotus_archive.Prelude.Dict.{Dict}
use lotus_archive.Errors.{
  Result, ok, err, key_error, duplicate_archive_request, historical_integrity,
}
use lotus_archive.Models.{
  ArchiveDocumentMetadata, LegalHoldRecord, LegalHoldStatus, LifecycleRelationshipRecord,
  hold_status_eq, metadata_eq,
}

pub record Repository : Type 0 where
  pub by_document_id : Dict ArchiveDocumentMetadata
  pub by_archive_request_id : Dict String
  pub legal_holds : Dict LegalHoldRecord
  pub lifecycle_relationships : Dict LifecycleRelationshipRecord

abbrev pub empty : Repository
empty = record {
  by_document_id = [];
  by_archive_request_id = [];
  legal_holds = [];
  lifecycle_relationships = [];
}

abbrev pub get_by_document_id : String → Repository → Option ArchiveDocumentMetadata
get_by_document_id document_id r = Dict.lookup document_id r.by_document_id

-- the dict comprehension: a repeated identifier keeps its first place
unfoldable pub found_onto :
    Dict ArchiveDocumentMetadata → List String → Repository → Dict ArchiveDocumentMetadata
found_onto done [] r = done
found_onto done (i ∷ ids) r = elim (Dict.lookup i r.by_document_id) [
  | none ↦ found_onto done ids r
  | some m ↦ found_onto (Dict.insert i m done) ids r
]

-- The documents that were found. The in-memory repository never reports one as unavailable.
unfoldable pub get_by_document_ids : List String → Repository → Dict ArchiveDocumentMetadata
unfolding found_onto
get_by_document_ids ids r = found_onto [] ids r

-- An index entry that points nowhere is a `KeyError`.
unfoldable pub get_by_archive_request_id :
    String → Repository → Result (Option ArchiveDocumentMetadata)
get_by_archive_request_id request_id r = elim (Dict.lookup request_id r.by_archive_request_id) [
  | none ↦ ok none
  | some document_id ↦ elim (Dict.lookup document_id r.by_document_id) [
    | none ↦ err key_error
    | some m ↦ ok (some m)
  ]
]

unfoldable pub get_by_checksum : String → Repository → List ArchiveDocumentMetadata
get_by_checksum checksum r = Dict.values_where (λ m. m.checksum == checksum) r.by_document_id

abbrev pub holds_document : String → LegalHoldRecord → Bool
holds_document document_id hold =
    hold.document_id == document_id && hold.hold_status == LegalHoldStatus.active

-- `_active_hold_count`
unfoldable pub active_hold_count : String → Repository → ℕ
active_hold_count document_id r = Dict.count_where (holds_document document_id) r.legal_holds

unfoldable pub list_legal_holds : String → Repository → List LegalHoldRecord
list_legal_holds document_id r =
    Dict.values_where (λ hold. hold.document_id == document_id) r.legal_holds

unfoldable pub list_lifecycle_relationships : String → Repository → List LifecycleRelationshipRecord
list_lifecycle_relationships document_id r =
    Dict.values_where
      (λ rel. rel.source_document_id == document_id || rel.target_document_id == document_id)
      r.lifecycle_relationships

-- `self._by_document_id[metadata.document_id] = metadata`
abbrev pub store : ArchiveDocumentMetadata → Repository → Repository
store m r = record r { by_document_id = Dict.insert m.document_id m r.by_document_id }

-- `existing_document_id and existing_document_id != document_id`
abbrev claimed_elsewhere : Option String → String → Bool
claimed_elsewhere none document_id = false
claimed_elsewhere (some other) document_id = not (other == "") && not (other == document_id)

-- An existing document is touched only if the given one differs from it in `updated_at` at most.
abbrev touch : ArchiveDocumentMetadata → ArchiveDocumentMetadata → ArchiveDocumentMetadata
touch existing m = record existing { updated_at = m.updated_at }

unfoldable pub save :
    ArchiveDocumentMetadata → Repository → Result ArchiveDocumentMetadata × Repository
save m r =
    if claimed_elsewhere (Dict.lookup m.archive_request_id r.by_archive_request_id) m.document_id
    then (
      err (duplicate_archive_request "archive_request_id already belongs to another document"),
      r,
    )
    else elim (Dict.lookup m.document_id r.by_document_id) [
      | none ↦ (
        ok m,
        record r {
          by_document_id = Dict.insert m.document_id m r.by_document_id;
          by_archive_request_id =
              Dict.insert m.archive_request_id m.document_id r.by_archive_request_id;
        },
      )
      | some existing ↦
          if touch existing m == m
          then (
            ok (touch existing m),
            record r {
              by_document_id = Dict.insert m.document_id (touch existing m) r.by_document_id;
            },
          )
          else (err historical_integrity, r)
    ]
