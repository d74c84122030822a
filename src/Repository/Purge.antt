-- ===== src/Repository/Purge.antt =====
-- The guarded transitions of a purge: eligible, not eligible, begun, completed.
use lotus_archive.Prelude.{
  ℕ, String, Bool, ◌||◌, Option, none, some, is_some, get_or, ltb, ◌==◌, if◌then◌else◌,
}
use lotus_archive.Prelude.Dict
use lotus_archive.Models.{
  ArchiveDocumentMetadata, LegalHoldStatus, PurgeStatus, hold_status_eq, purge_status_eq,
}
use lotus_archive.Repository.State.{Repository, active_hold_count}

-- `self._by_document_id[document_id] = updated`, and the new document as the answer
abbrev pub put_document :
    String → ArchiveDocumentMetadata → Repository → Option ArchiveDocumentMetadata × Repository
put_document document_id m r =
    (some m, record r { by_document_id = Dict.insert document_id m r.by_document_id })

-- Both the summary column and the hold rows can veto.
abbrev pub is_held : String → ArchiveDocumentMetadata → Repository → Bool
is_held document_id m r =
    m.legal_hold_status == LegalHoldStatus.active || ltb 0 (active_hold_count document_id r)

abbrev pub purge_has_begun : ArchiveDocumentMetadata → Bool
purge_has_begun m = is_some m.purge_started_at || m.purge_status == PurgeStatus.purged

unfoldable pub begin_purge : String → ℕ → Repository → Option ArchiveDocumentMetadata × Repository
begin_purge document_id started_at r = elim (Dict.lookup document_id r.by_document_id) [
  | none ↦ (none, r)
  | some existing ↦
      if is_some existing.purge_started_at
      then (some existing, r)
      else if is_held document_id existing r
      then (none, r)
      else put_document document_id
          (record existing { purge_started_at = some started_at; updated_at = started_at }) r
]

unfoldable pub mark_purge_eligible :
    String → ℕ → ℕ → Repository → Option ArchiveDocumentMetadata × Repository
mark_purge_eligible document_id eligible_at now r =
    elim (Dict.lookup document_id r.by_document_id) [
      | none ↦ (none, r)
      | some existing ↦
          if purge_has_begun existing
          then (none, r)
          else if is_held document_id existing r
          then (none, r)
          else put_document document_id
              (record existing {
                purge_status = PurgeStatus.eligible;
                purge_eligible_at = some (get_or existing.purge_eligible_at eligible_at);
                updated_at = now;
              })
              r
    ]

unfoldable pub mark_purge_not_eligible :
    String → ℕ → Repository → Option ArchiveDocumentMetadata × Repository
mark_purge_not_eligible document_id now r = elim (Dict.lookup document_id r.by_document_id) [
  | none ↦ (none, r)
  | some existing ↦
      if purge_has_begun existing
      then (none, r)
      else if existing.purge_status == PurgeStatus.not_eligible
      then (some existing, r)
      else put_document document_id
          (record existing { purge_status = PurgeStatus.not_eligible; updated_at = now }) r
]

unfoldable pub complete_purge :
    String → ℕ → ℕ → Repository → Option ArchiveDocumentMetadata × Repository
complete_purge document_id purged_at now r = elim (Dict.lookup document_id r.by_document_id) [
  | none ↦ (none, r)
  | some existing ↦
      if is_some existing.purge_started_at
      then (if existing.purge_status == PurgeStatus.purged
          then (some existing, r)
          else put_document document_id
              (record existing {
                purge_status = PurgeStatus.purged;
                purged_at = some purged_at;
                updated_at = now;
              })
              r)
      else (none, r)
]
