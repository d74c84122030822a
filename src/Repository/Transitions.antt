-- ===== src/Repository/Transitions.antt =====
-- `apply_lifecycle_transition`: preconditions and writes against the stored rows.
use lotus_archive.Prelude.{
  ℕ, String, Bool, true, ◌&&◌, Option, none, some, List, [], ◌∷◌, ◌==◌, string_eq, if◌then◌else◌,
}
use lotus_archive.Prelude.Dict
use lotus_archive.Prelude.Dict.{Dict}
use lotus_archive.Errors.{Result, ok, err, document_not_found}
use lotus_archive.Models.{
  ArchiveDocumentMetadata, LifecycleRelationshipRecord, LifecycleTransitionType, transition_eq,
  set_target_origin,
}
use lotus_archive.Lifecycle.{validate_lifecycle_preconditions, transition_pointers_agree}
use lotus_archive.Repository.State.{Repository}

abbrev pub records_transition :
    String → String → LifecycleTransitionType → LifecycleRelationshipRecord → Bool
records_transition source target transition rel =
    rel.source_document_id == source
    && rel.target_document_id == target
    && rel.transition_type == transition

-- the first relationship of the list that records this transition
unfoldable pub find_recorded :
    (source target : String)
    → LifecycleTransitionType
    → List LifecycleRelationshipRecord
    → Option LifecycleRelationshipRecord
find_recorded source target transition [] = none
find_recorded source target transition (rel ∷ rels) =
    let rest = find_recorded source target transition rels in
    if records_transition source target transition rel then some rel else rest

abbrev pub Transitioned : Type 0
Transitioned = LifecycleRelationshipRecord × ArchiveDocumentMetadata × ArchiveDocumentMetadata

abbrev pub supersede_by : String → ℕ → ArchiveDocumentMetadata → ArchiveDocumentMetadata
supersede_by target now m = record m { superseded_by_document_id = some target; updated_at = now }

-- The writes, in the code's order: the source's row, the target's row, the relationship.
unfoldable pub write_transition :
    (source_id target_id : String)
    → LifecycleTransitionType
    → LifecycleRelationshipRecord
    → ℕ
    → ArchiveDocumentMetadata
    → ArchiveDocumentMetadata
    → Repository
    → Result Transitioned × Repository
write_transition source_id target_id transition rel now source target r =
    let source' = supersede_by target_id now source in
    let target' = set_target_origin transition source_id now target in
    (
      ok (rel, source', target'),
      record r {
        by_document_id =
            Dict.insert target_id target' (Dict.insert source_id source' r.by_document_id);
        lifecycle_relationships =
            Dict.insert rel.lifecycle_relationship_id rel r.lifecycle_relationships;
      },
    )

abbrev pub replayed :
    (source_id target_id : String)
    → LifecycleTransitionType
    → ArchiveDocumentMetadata
    → ArchiveDocumentMetadata
    → Repository
    → Option LifecycleRelationshipRecord
replayed source_id target_id transition source target r =
    if transition_pointers_agree source target transition
    then find_recorded source_id target_id transition
        (Dict.values_where (λ _. true) r.lifecycle_relationships)
    else none

unfoldable pub transition_rows :
    (source_id target_id : String)
    → LifecycleTransitionType
    → LifecycleRelationshipRecord
    → ℕ
    → ArchiveDocumentMetadata
    → ArchiveDocumentMetadata
    → Repository
    → Result Transitioned × Repository
unfolding write_transition
transition_rows source_id target_id transition rel now source target r =
    elim (replayed source_id target_id transition source target r) [
      | some existing ↦ (ok (existing, source, target), r)
      | none ↦ elim (validate_lifecycle_preconditions source target) [
        | err e ↦ (err e, r)
        | ok _ ↦ write_transition source_id target_id transition rel now source target r
      ]
    ]

unfoldable pub apply_lifecycle_transition :
    (source_id target_id : String)
    → LifecycleTransitionType
    → LifecycleRelationshipRecord
    → ℕ
    → Repository
    → Result Transitioned × Repository
unfolding transition_rows
apply_lifecycle_transition source_id target_id transition rel now r =
    elim (Dict.lookup source_id r.by_document_id) [
      | none ↦ (err (document_not_found "archive document was not found"), r)
      | some source ↦ elim (Dict.lookup target_id r.by_document_id) [
        | none ↦ (err (document_not_found "archive document was not found"), r)
        | some target ↦ transition_rows source_id target_id transition rel now source target r
      ]
    ]
