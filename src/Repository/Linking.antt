-- ===== src/Repository/Linking.antt =====
-- A lifecycle transition and the invariant of the repository.
use lotus_archive.Prelude.{
  ℕ, String, ◌≡◌, ◌≢◌, refl, some, arith, string_eq, Option-cases, inl, inr,
}
use lotus_archive.Prelude.Dict
use lotus_archive.Errors.{ok}
use lotus_archive.Models.{
  ArchiveDocumentMetadata, LifecycleTransitionType, LifecycleRelationshipRecord, set_target_origin,
}
use lotus_archive.Lifecycle.{validate_lifecycle_preconditions}
use lotus_archive.Repository.State.{Repository, active_hold_count}
use lotus_archive.Repository.Invariant.{RowIsSound, IsConsistent}
use lotus_archive.Repository.Preservation.{keep_holds}
use lotus_archive.Repository.Transitions.{
  apply_lifecycle_transition, write_transition, supersede_by,
}

module _ (t : LifecycleTransitionType) (s : String) (now : ℕ) (m : ArchiveDocumentMetadata) where
  RowIsSound-set_target_origin :
      (n : ℕ) → RowIsSound n m → RowIsSound n (set_target_origin t s now m)
  unfolding set_target_origin
  RowIsSound-set_target_origin n h = ground arith

  names-set_target_origin :
      ((set_target_origin t s now m).document_id ≡ m.document_id)
      × ((set_target_origin t s now m).archive_request_id ≡ m.archive_request_id)
  unfolding set_target_origin
  names-set_target_origin = ground arith

-- Two documents with the preconditions have different names.
pub valid_are_distinct :
    (source target : ArchiveDocumentMetadata)
    → validate_lifecycle_preconditions source target ≡ ok tt
    → source.document_id ≢ target.document_id
unfolding validate_lifecycle_preconditions
valid_are_distinct source target h = ground arith

module _ (r : Repository) (c : IsConsistent r) (i j : String) (t : LifecycleTransitionType)
    (rel : LifecycleRelationshipRecord) (now : ℕ) where
  write_transition-IsConsistent :
      (source target : ArchiveDocumentMetadata)
      → Dict.lookup i r.by_document_id ≡ some source
      → Dict.lookup j r.by_document_id ≡ some target
      → i ≢ j
      → IsConsistent (write_transition i j t rel now source target r).1
  unfolding write_transition active_hold_count
  write_transition-IsConsistent source target at_i at_j differ =
      let r' : Repository = record r {
        by_document_id = Dict.insert i (supersede_by j now source) r.by_document_id;
      } in
      let c' : IsConsistent r' =
        keep_holds r c i source (supersede_by j now source) at_i refl refl
          (ground (arith, c.sound i source at_i)) in
      let at_j' : Dict.lookup j r'.by_document_id ≡ some target =
        ground (arith, Dict.lookup-insert j i (supersede_by j now source) r.by_document_id) in
      let names = names-set_target_origin t i now target in
      let c'' =
        keep_holds r' c' j target (set_target_origin t i now target) at_j' names.0 names.1
          (RowIsSound-set_target_origin t i now target _ (c'.sound j target at_j')) in
      record {
        sound = c''.sound;
        named = c''.named;
        indexed = c''.indexed;
        points = c''.points;
        unknown = c''.unknown;
      }

  pub apply_lifecycle_transition-IsConsistent :
      IsConsistent (apply_lifecycle_transition i j t rel now r).1
  unfolding apply_lifecycle_transition
  apply_lifecycle_transition-IsConsistent = elim (Option-cases (Dict.lookup i r.by_document_id)) [
    | inl e ↦ rw (e, apply_lifecycle_transition) c
    | inr (source, e) ↦ elim (Option-cases (Dict.lookup j r.by_document_id)) [
      | inl f ↦ rw (e, f, apply_lifecycle_transition) c
      | inr (target, f) ↦ ground (
        arith,
        write_transition-IsConsistent source target e f,
        valid_are_distinct source target,
        c.named i source e,
        c.named j target f,
      )
    ]
  ]
