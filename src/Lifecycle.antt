-- ===== src/Lifecycle.antt =====
-- `archive/lifecycle_transitions.py`: when one document may supersede another.
-- `LIFECYCLE_TARGET_ORIGIN_FIELD` has a field for each transition, so its two tests for a missing
-- transition never fail and are left out.
use lotus_archive.Prelude.{
  String, Bool, true, false, ◌&&◌, ◌||◌, Option, none, some, is_some, ◌==◌, string_eq, option_eq,
  if◌then◌else◌,
}
use lotus_archive.Errors.{
  Result, ◌>>◌, raise_if, supersession_conflict, unsupported_lifecycle_transition,
}
use lotus_archive.Models.{
  ArchiveDocumentMetadata, LifecycleTransitionType, PurgeStatus, purge_status_eq, target_origin,
}

-- `o is not None and o != ""`: a Python `or` passes over an empty text
abbrev pub truthy : Option String → Bool
truthy none = false
truthy (some s) = if s == "" then false else true

-- `a or b or c`: the last one, if none of them counts as true
abbrev pub existing_origin : ArchiveDocumentMetadata → Option String
existing_origin target =
    if truthy target.supersedes_document_id
    then target.supersedes_document_id
    else if truthy target.correction_of_document_id
    then target.correction_of_document_id
    else target.reissue_of_document_id

unfoldable pub validate_lifecycle_preconditions :
    ArchiveDocumentMetadata → ArchiveDocumentMetadata → Result (Unit {0})
validate_lifecycle_preconditions source target = do
  raise_if (source.document_id == target.document_id)
      (unsupported_lifecycle_transition "document cannot transition to itself")
  raise_if (source.purge_status == PurgeStatus.purged || target.purge_status == PurgeStatus.purged)
      (unsupported_lifecycle_transition "purged documents cannot transition")
  raise_if (is_some source.superseded_by_document_id)
      (supersession_conflict "source document is already historical")
  raise_if (is_some target.superseded_by_document_id)
      (supersession_conflict "target document is already historical")
  raise_if (is_some (existing_origin target))
      (supersession_conflict "target document already has a lifecycle origin")

unfoldable pub transition_pointers_agree :
    ArchiveDocumentMetadata → ArchiveDocumentMetadata → LifecycleTransitionType → Bool
unfolding target_origin
transition_pointers_agree source target transition =
    source.superseded_by_document_id == some target.document_id
    && target_origin transition target == some source.document_id
