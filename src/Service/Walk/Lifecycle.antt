-- ===== src/Service/Walk/Lifecycle.antt =====
-- Following and recording the lifecycle of a document keep what their steps keep.
use lotus_archive.Prelude.{ℕ, zero, suc, String, Option, none, some, List}
use lotus_archive.Exec.Moves.{Moves}
use lotus_archive.Environment.{Environment}
use lotus_archive.Models.{
  ArchiveDocumentMetadata, LifecycleRelationshipRecord, LifecycleTransitionType,
}
use lotus_archive.Audit.{CallerContext}
use lotus_archive.Service.World.{World}
use lotus_archive.Service.Walk.{IsKept, walk_rules, Moves-apply_lifecycle_transition}
use lotus_archive.Service.Walk.Access.{
  Moves-record_allowed, Moves-authorize, Moves-authorize_document_tenant_scope,
  Moves-get_existing_metadata, Moves-get_authorized_document_metadata,
}
use lotus_archive.Service.Lifecycle.{
  LifecycleTransitionCommand, follow, resolve_current_document, get_current_document_metadata,
  find_applied_transition, record_new, apply_or_replay, transition_document,
}

module _ (env : Environment) {R : World env → World env → Type 0} (K : IsKept env R) where
  Moves-follow :
      (fuel : ℕ) (visited : List String) (caller : CallerContext) (trace : String)
      (m : ArchiveDocumentMetadata) (next : Option String)
      → Moves R (follow env fuel visited caller trace m next)
  unfolding follow
  Moves-follow fuel visited caller trace m none = search walk_rules
  Moves-follow zero visited caller trace m (some next) = search walk_rules
  Moves-follow (suc fuel) visited caller trace m (some next) =
      search
        (
          walk_rules,
          Moves-get_existing_metadata,
          Moves-authorize_document_tenant_scope,
          Moves-follow fuel,
        )
        depth 9

  pub Moves-resolve_current_document :
      (m : ArchiveDocumentMetadata) (caller : CallerContext) (trace : String)
      → Moves R (resolve_current_document env m caller trace)
  unfolding resolve_current_document
  Moves-resolve_current_document m caller trace = search (walk_rules, Moves-follow)

  pub Moves-get_current_document_metadata :
      (i : String) (caller : CallerContext) (trace : String)
      → Moves R (get_current_document_metadata env i caller trace)
  unfolding get_current_document_metadata
  Moves-get_current_document_metadata i caller trace = search (
    walk_rules, Moves-get_authorized_document_metadata, Moves-resolve_current_document,
    Moves-record_allowed,
  )

  Moves-find_applied_transition :
      (source target : ArchiveDocumentMetadata) (t : LifecycleTransitionType)
      → Moves R (find_applied_transition env source target t)
  unfolding find_applied_transition
  Moves-find_applied_transition source target t = search walk_rules

  Moves-record_new :
      (source target : ArchiveDocumentMetadata) (t : LifecycleTransitionType) (why : String)
      (caller : CallerContext) (trace : String)
      → Moves R (record_new env source target t why caller trace)
  unfolding record_new
  Moves-record_new source target t why caller trace =
      search
        (
          walk_rules, Moves-apply_lifecycle_transition, Moves-record_allowed,
          Moves-resolve_current_document,
        )
        depth 12

  Moves-apply_or_replay :
      (o : Option LifecycleRelationshipRecord) (source target resolved : ArchiveDocumentMetadata)
      (t : LifecycleTransitionType) (why : String) (caller : CallerContext) (trace : String)
      → Moves R (apply_or_replay env o source target resolved t why caller trace)
  unfolding apply_or_replay
  Moves-apply_or_replay (some applied) source target resolved t why caller trace =
      search (walk_rules, Moves-record_allowed)
  Moves-apply_or_replay none source target resolved t why caller trace =
      Moves-record_new source target t why caller trace

  pub Moves-transition_document :
      (t : LifecycleTransitionType) (i : String) (command : LifecycleTransitionCommand)
      (caller : CallerContext) (trace : String)
      → Moves R (transition_document env t i command caller trace)
  unfolding transition_document
  Moves-transition_document t i command caller trace =
      search
        (
          walk_rules, Moves-authorize, Moves-get_existing_metadata,
          Moves-authorize_document_tenant_scope, Moves-resolve_current_document,
          Moves-find_applied_transition, Moves-apply_or_replay,
        )
        depth 12
