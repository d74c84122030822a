-- ===== src/Repository/Holds.antt =====
-- Legal holds: the hold row and the summary columns of its document move in one step.
use lotus_archive.Prelude.{
  ℕ, String, ◌&&◌, Option, none, some, is_some, ltb, ◌==◌, string_eq, nat_eq, if◌then◌else◌,
}
use lotus_archive.Prelude.Dict
use lotus_archive.Models.{ArchiveDocumentMetadata, LegalHoldRecord, LegalHoldStatus, hold_status_eq}
use lotus_archive.Repository.State.{Repository, active_hold_count}
use lotus_archive.Repository.Purge.{put_document}

abbrev pub put_hold : String → LegalHoldRecord → Repository → Repository
put_hold legal_hold_id hold r = record r {
  legal_holds = Dict.insert legal_hold_id hold r.legal_holds;
}

unfoldable pub admit_and_record_legal_hold :
    String → LegalHoldRecord → ℕ → Repository → Option ArchiveDocumentMetadata × Repository
admit_and_record_legal_hold document_id hold now r =
    elim (Dict.lookup document_id r.by_document_id) [
      | none ↦ (none, r)
      | some existing ↦
          if is_some existing.purge_started_at
          then (none, r)
          else let held = put_hold hold.legal_hold_id hold r in
            put_document document_id
              (record existing {
                legal_hold_status = LegalHoldStatus.active;
                legal_hold_count = active_hold_count document_id held;
                updated_at = now;
              })
              held
    ]

abbrev pub summary_status : ℕ → LegalHoldStatus
summary_status active_count =
    if ltb 0 active_count then LegalHoldStatus.active else LegalHoldStatus.clear

unfoldable pub refresh_legal_hold_summary :
    String → ℕ → Repository → Option ArchiveDocumentMetadata × Repository
refresh_legal_hold_summary document_id now r = elim (Dict.lookup document_id r.by_document_id) [
  | none ↦ (none, r)
  | some existing ↦
      let active_count = active_hold_count document_id r in
      if existing.legal_hold_status == summary_status active_count
        && existing.legal_hold_count == active_count
      then (some existing, r)
      else put_document document_id
          (record existing {
            legal_hold_status = summary_status active_count;
            legal_hold_count = active_count;
            updated_at = now;
          })
          r
]

abbrev pub release : String → ℕ → String → LegalHoldRecord → LegalHoldRecord
release released_by released_at release_reason hold =
    if hold.hold_status == LegalHoldStatus.active
    then record hold {
      hold_status = LegalHoldStatus.clear;
      released_by = some released_by;
      released_at = some released_at;
      release_reason = some release_reason;
    }
    else hold

-- the row is written only if it was active
abbrev pub put_released : String → LegalHoldRecord → LegalHoldRecord → Repository → Repository
put_released legal_hold_id before after r =
    if before.hold_status == LegalHoldStatus.active then put_hold legal_hold_id after r else r

abbrev with_summary :
    LegalHoldRecord
    → Option ArchiveDocumentMetadata × Repository
    → Option (LegalHoldRecord × ArchiveDocumentMetadata) × Repository
with_summary hold (none, r) = (none, r)
with_summary hold (some m, r) = (some (hold, m), r)

unfoldable pub release_and_record_legal_hold :
    (document_id legal_hold_id released_by : String) (released_at : ℕ) (release_reason : String)
    → ℕ
    → Repository
    → Option (LegalHoldRecord × ArchiveDocumentMetadata) × Repository
unfolding refresh_legal_hold_summary
release_and_record_legal_hold document_id legal_hold_id released_by released_at reason now r =
    elim (Dict.lookup document_id r.by_document_id) [
      | none ↦ (none, r)
      | some _ ↦ elim (Dict.lookup legal_hold_id r.legal_holds) [
        | none ↦ (none, r)
        | some hold ↦
            if hold.document_id == document_id
            then (let released = release released_by released_at reason hold in
                with_summary released (
                  refresh_legal_hold_summary document_id now
                    (put_released legal_hold_id hold released r)))
            else (none, r)
      ]
    ]
