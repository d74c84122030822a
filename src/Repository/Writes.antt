-- ===== src/Repository/Writes.antt =====
-- Every write that callers of the repository can make, in any interleaving: each method is one atomic
-- step, as it is under the lock or the transaction of an implementation.
use lotus_archive.Prelude.{
  ℕ, String, ◌≡◌, ◌≢◌, refl, true, Option, none, some, is_some, arith, subst,
}
use lotus_archive.Prelude.Dict
use lotus_archive.Models.{
  ArchiveDocumentMetadata, LegalHoldRecord, LegalHoldStatus, LifecycleTransitionType,
  LifecycleRelationshipRecord,
}
use lotus_archive.Repository.State.{Repository, empty, save, active_hold_count}
use lotus_archive.Repository.Purge.{
  begin_purge, mark_purge_eligible, mark_purge_not_eligible, complete_purge,
}
use lotus_archive.Repository.Holds.{
  admit_and_record_legal_hold, refresh_legal_hold_summary, release_and_record_legal_hold,
}
use lotus_archive.Repository.Transitions.{apply_lifecycle_transition}
use lotus_archive.Repository.Invariant.{RowIsSound, IsConsistent}
use lotus_archive.Repository.Preservation.{
  IsConsistent-empty, begin_purge-IsConsistent, mark_purge_eligible-IsConsistent,
  mark_purge_not_eligible-IsConsistent, complete_purge-IsConsistent,
  refresh_legal_hold_summary-IsConsistent, admit_and_record_legal_hold-IsConsistent,
  release_and_record_legal_hold-IsConsistent, save-IsConsistent,
}
use lotus_archive.Repository.Linking.{apply_lifecycle_transition-IsConsistent}
use lotus_archive.Repository.History.{
  Continues, Tracks, Keeps, Tracks-refl, Tracks-trans, begin_purge-Keeps, mark_purge_eligible-Keeps,
  mark_purge_not_eligible-Keeps, complete_purge-Keeps, refresh_legal_hold_summary-Keeps,
  admit_and_record_legal_hold-Keeps, release_and_record_legal_hold-Keeps, save-Keeps,
  apply_lifecycle_transition-Keeps,
}

-- What the writer submits: no hold rows, no purge; and no stored document has an empty identifier.
pub record IsAdmissible (m : ArchiveDocumentMetadata) (r : Repository) : Type 0 where
  pub fresh : RowIsSound 0 m
  pub nonempty : Dict.lookup m.archive_request_id r.by_archive_request_id ≢ some ""

-- What the service submits: an active hold of that document under an identifier not yet in use.
pub record IsNewHold (i : String) (hold : LegalHoldRecord) (r : Repository) : Type 0 where
  pub of_document : hold.document_id ≡ i
  pub is_active : hold.hold_status ≡ LegalHoldStatus.active
  pub unused : Dict.lookup hold.legal_hold_id r.legal_holds ≡ none

pub data Write : Repository → Repository → Type 0 where
  saved : {r : Repository} (m : ArchiveDocumentMetadata) → IsAdmissible m r → Write r (save m r).1
  begun : {r : Repository} (i : String) (t : ℕ) → Write r (begin_purge i t r).1
  eligible : {r : Repository} (i : String) (at now : ℕ) → Write r (mark_purge_eligible i at now r).1
  not_eligible :
      {r : Repository} (i : String) (now : ℕ) → Write r (mark_purge_not_eligible i now r).1
  completed : {r : Repository} (i : String) (at now : ℕ) → Write r (complete_purge i at now r).1
  refreshed :
      {r : Repository} (i : String) (now : ℕ) → Write r (refresh_legal_hold_summary i now r).1
  admitted :
      {r : Repository} (i : String) (hold : LegalHoldRecord) (now : ℕ)
      → IsNewHold i hold r
      → Write r (admit_and_record_legal_hold i hold now r).1
  released :
      {r : Repository} (i h by why : String) (at now : ℕ)
      → Write r (release_and_record_legal_hold i h by at why now r).1
  linked :
      {r : Repository} (i j : String) (t : LifecycleTransitionType)
      (rel : LifecycleRelationshipRecord) (now : ℕ)
      → Write r (apply_lifecycle_transition i j t rel now r).1

pub data Writes (r : Repository) : Repository → Type 0 where
  here : Writes r r
  next : {s t : Repository} → Writes r s → Write s t → Writes r t

pub Write-IsConsistent : {r s : Repository} → Write r s → IsConsistent r → IsConsistent s
Write-IsConsistent (saved {r} m h) c = save-IsConsistent m r c h.fresh h.nonempty
Write-IsConsistent (begun {r} i t) c = begin_purge-IsConsistent r c i t
Write-IsConsistent (eligible {r} i at now) c = mark_purge_eligible-IsConsistent r c i at now
Write-IsConsistent (not_eligible {r} i now) c = mark_purge_not_eligible-IsConsistent r c i now
Write-IsConsistent (completed {r} i at now) c = complete_purge-IsConsistent r c i at now
Write-IsConsistent (refreshed {r} i now) c = refresh_legal_hold_summary-IsConsistent r c i now
Write-IsConsistent (admitted {r} i hold now h) c =
    admit_and_record_legal_hold-IsConsistent r c i hold now h.of_document h.is_active h.unused
Write-IsConsistent (released {r} i h by why at now) c =
    release_and_record_legal_hold-IsConsistent r c i h by why at now
Write-IsConsistent (linked {r} i j t rel now) c =
    apply_lifecycle_transition-IsConsistent r c i j t rel now

Write-Keeps : {r s : Repository} → Write r s → IsConsistent r → Keeps r s
Write-Keeps (saved {r} m h) c = save-Keeps m r
Write-Keeps (begun {r} i t) c = begin_purge-Keeps r i t
Write-Keeps (eligible {r} i at now) c = mark_purge_eligible-Keeps r i at now
Write-Keeps (not_eligible {r} i now) c = mark_purge_not_eligible-Keeps r i now
Write-Keeps (completed {r} i at now) c = complete_purge-Keeps r i at now
Write-Keeps (refreshed {r} i now) c = refresh_legal_hold_summary-Keeps r i now
Write-Keeps (admitted {r} i hold now h) c = admit_and_record_legal_hold-Keeps r i hold now
Write-Keeps (released {r} i h by why at now) c =
    release_and_record_legal_hold-Keeps r i h by why at now
Write-Keeps (linked {r} i j t rel now) c = apply_lifecycle_transition-Keeps r i j t rel now c

pub Writes-IsConsistent : {r s : Repository} → Writes r s → IsConsistent r → IsConsistent s
Writes-IsConsistent here c = c
Writes-IsConsistent (next w v) c = Write-IsConsistent v (Writes-IsConsistent w c)

-- Whatever the callers do and in whatever order, from the empty repository on: hold summaries count
-- the active hold rows, a document whose destruction has begun has no active hold row, a completed
-- purge was begun and dated, documents stand under their identifiers, and the index of archive
-- requests has every document and points at none that is missing.
pub reachable-IsConsistent : {s : Repository} → Writes empty s → IsConsistent s
reachable-IsConsistent w = Writes-IsConsistent w IsConsistent-empty

Writes-Keeps : {r s : Repository} → Writes r s → IsConsistent r → Keeps r s
Writes-Keeps here c = λ j. Tracks-refl _
Writes-Keeps {r} (next w v) c = λ j.
    Tracks-trans (Dict.lookup j r.by_document_id) _ _ (Writes-Keeps w c j)
      (Write-Keeps v (Writes-IsConsistent w c) j)

continued :
    (m : ArchiveDocumentMetadata) (o : Option ArchiveDocumentMetadata)
    → Tracks (some m) o
    → (m' : ArchiveDocumentMetadata) × (o ≡ some m') × Continues m m'
continued m none h = absurd h
continued m (some m') h = (m', refl, h)

-- Over any sequence of writes a stored document stays stored, with the identity, provenance,
-- content checksum and storage place that it was archived with; a begun destruction keeps its time
-- and a completed purge stays completed at the time it was.
pub history_is_kept :
    {r s : Repository} (i : String) (m : ArchiveDocumentMetadata)
    → IsConsistent r
    → Writes r s
    → Dict.lookup i r.by_document_id ≡ some m
    → (m' : ArchiveDocumentMetadata) × (Dict.lookup i s.by_document_id ≡ some m') × Continues m m'
history_is_kept {r} {s} i m c w e =
    continued m (Dict.lookup i s.by_document_id)
      (subst (λ o. Tracks o (Dict.lookup i s.by_document_id)) e (Writes-Keeps w c i))

-- Once destruction has begun, no later write admits a legal hold for the document: in every later
-- state it has no active hold row.
pub begun_is_never_held :
    {r s : Repository} (i : String) (m : ArchiveDocumentMetadata)
    → IsConsistent r
    → Writes r s
    → Dict.lookup i r.by_document_id ≡ some m
    → is_some m.purge_started_at ≡ true
    → active_hold_count i s ≡ 0
begun_is_never_held i m c w e started =
    let (m', f, k) = history_is_kept i m c w e in
    ((Writes-IsConsistent w c).sound i m' f).unheld (ground (arith, k.started started))
