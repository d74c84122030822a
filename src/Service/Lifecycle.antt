-- ===== src/Service/Lifecycle.antt =====
-- Following and recording the lifecycle of a document: its current version, and the three transitions.
use lotus_archive.Prelude.{
  ℕ, zero, suc, String, Option, none, some, List, [], ◌∷◌, contains, length, ◌==◌, string_eq,
  if◌then◌else◌,
}
use lotus_archive.Errors.{supersession_conflict, out_of_fuel}
use lotus_archive.Exec.{pure, raise, lift, gets, ◌>>=◌, ◌>>◌}
use lotus_archive.Environment.{Environment}
use lotus_archive.Models.{
  ArchiveDocumentMetadata, LifecycleRelationshipRecord, LifecycleTransitionType,
  transition_reason_code,
}
use lotus_archive.Lifecycle.{validate_lifecycle_preconditions, transition_pointers_agree}
use lotus_archive.Audit.{CallerContext, AccessEventType}
use lotus_archive.Authorization.Policy.{ArchivePermission}
use lotus_archive.Repository.State.{list_lifecycle_relationships}
use lotus_archive.Repository.Transitions.{find_recorded, apply_lifecycle_transition}
use lotus_archive.Service.World.{Archive, new_id, utc_now, repository_try}
use lotus_archive.Service.Access.{
  record_allowed, authorize, authorize_document_tenant_scope, get_existing_metadata,
  get_authorized_document_metadata,
}

-- commands.py
pub record LifecycleTransitionCommand : Type 0 where
  pub target_document_id : String
  pub transition_reason : String

unfoldable pub transition_event : LifecycleTransitionType → AccessEventType
transition_event LifecycleTransitionType.supersede = AccessEventType.lifecycle_supersede
transition_event LifecycleTransitionType.correct = AccessEventType.lifecycle_correct
transition_event LifecycleTransitionType.reissue = AccessEventType.lifecycle_reissue

module _ (env : Environment) where
  -- The `while` of `_resolve_current_document`, on fuel. It looks at the successor of `current`.
  unfoldable pub follow :
      ℕ
      → (visited : List String) → CallerContext
      → String
      → (current : ArchiveDocumentMetadata) → (successor : Option String)
      → Archive env ArchiveDocumentMetadata
  follow fuel visited caller trace_id current none = pure current
  follow zero visited caller trace_id current (some next_id) = raise out_of_fuel
  follow (suc fuel) visited caller trace_id current (some next_id) =
      let go : Archive env ArchiveDocumentMetadata = do
        next ← get_existing_metadata env next_id
        authorize_document_tenant_scope env next.input (some next.document_id) caller trace_id
        follow fuel (next_id ∷ visited) caller trace_id next next.superseded_by_document_id
      in if contains visited next_id
        then raise (supersession_conflict "document lifecycle relationship cycle detected")
        else go

  -- `_resolve_current_document`. Each round visits another stored document.
  unfoldable pub resolve_current_document :
      ArchiveDocumentMetadata → CallerContext → String → Archive env ArchiveDocumentMetadata
  resolve_current_document m caller trace_id = do
    rounds ← gets (λ w. suc (length w.repository.by_document_id))
    follow rounds (m.document_id ∷ []) caller trace_id m m.superseded_by_document_id

  unfoldable pub get_current_document_metadata :
      String → CallerContext → String → Archive env ArchiveDocumentMetadata
  get_current_document_metadata document_id caller trace_id = do
    m ←
        get_authorized_document_metadata env document_id ArchivePermission.read_metadata caller
          trace_id
    current ← resolve_current_document m caller trace_id
    record_allowed env AccessEventType.current_document_read caller trace_id document_id none
    pure current

  -- `_find_applied_transition`
  unfoldable pub find_applied_transition :
      ArchiveDocumentMetadata
      → ArchiveDocumentMetadata
      → LifecycleTransitionType
      → Archive env (Option LifecycleRelationshipRecord)
  find_applied_transition source target transition =
      if transition_pointers_agree source target transition
      then gets (λ w.
        find_recorded source.document_id target.document_id transition
          (list_lifecycle_relationships source.document_id w.repository))
      else pure none

  abbrev pub record_transition :
      LifecycleTransitionType → CallerContext → String → String → String → Archive env (Unit {0})
  record_transition transition caller trace_id document_id reason =
      record_allowed env (transition_event transition) caller trace_id document_id (some reason)

  abbrev pub outcome : LifecycleRelationshipRecord → LifecycleRelationshipRecord → String
  outcome saved submitted =
      if saved.lifecycle_relationship_id == submitted.lifecycle_relationship_id
      then "lifecycle_transition_recorded"
      else "lifecycle_transition_already_recorded"

  abbrev Answer : Type 0
  Answer = LifecycleRelationshipRecord × ArchiveDocumentMetadata

  unfoldable pub record_new :
      ArchiveDocumentMetadata
      → ArchiveDocumentMetadata
      → LifecycleTransitionType
      → (transition_reason : String) → CallerContext
      → String
      → Archive env Answer
  record_new source target transition reason caller trace_id = do
    lift (validate_lifecycle_preconditions source target)
    id ← new_id env "life_"
    requested_at ← utc_now env
    let relationship : LifecycleRelationshipRecord = record {
      lifecycle_relationship_id = id;
      source_document_id = source.document_id;
      target_document_id = target.document_id;
      transition_type = transition;
      transition_reason = reason;
      transition_reason_code = transition_reason_code transition;
      requested_by = caller.actor_id;
      requested_at = requested_at;
    }
    now ← utc_now env
    applied ← repository_try env (
        apply_lifecycle_transition source.document_id target.document_id transition relationship
          now)
    record_transition transition caller trace_id source.document_id (outcome applied.0 relationship)
    current ← resolve_current_document applied.2 caller trace_id
    pure (applied.0, current)

  unfoldable pub apply_or_replay :
      Option LifecycleRelationshipRecord
      → ArchiveDocumentMetadata
      → ArchiveDocumentMetadata
      → ArchiveDocumentMetadata
      → LifecycleTransitionType
      → (transition_reason : String) → CallerContext
      → String
      → Archive env Answer
  unfolding record_new
  apply_or_replay (some applied) source target resolved transition reason caller trace_id = do
    record_transition transition caller trace_id source.document_id
        "lifecycle_transition_already_recorded"
    pure (applied, resolved)
  apply_or_replay none source target resolved transition reason caller trace_id =
      record_new source target transition reason caller trace_id

  -- `supersede_document`, `correct_document` and `reissue_document`: `_apply_lifecycle_transition`
  -- at each transition.
  unfoldable pub transition_document :
      LifecycleTransitionType
      → String
      → LifecycleTransitionCommand
      → CallerContext
      → String
      → Archive env Answer
  unfolding apply_or_replay find_applied_transition
  transition_document transition source_id command caller trace_id = do
    authorize env ArchivePermission.manage_lifecycle caller trace_id (some source_id)
    source ← get_existing_metadata env source_id
    target ← get_existing_metadata env command.target_document_id
    authorize_document_tenant_scope env source.input (some source.document_id) caller trace_id
    authorize_document_tenant_scope env target.input (some target.document_id) caller trace_id
    resolved ← resolve_current_document target caller trace_id
    applied ← find_applied_transition source target transition
    apply_or_replay applied source target resolved transition command.transition_reason caller
        trace_id
