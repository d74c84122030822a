-- ===== src/Repository/Tests.antt =====
-- Runs of the repository, and its theorems at concrete data.
use lotus_archive.Prelude.{◌≡◌, refl, none, some, arith, string_discrete}
use lotus_archive.Prelude.Dict
use lotus_archive.Samples.{document, hold}
use lotus_archive.Models.{ArchiveDocumentMetadata}
use lotus_archive.Models.Metadata.{LegalHoldStatus-discrete, PurgeStatus-discrete}
use lotus_archive.Repository.State.{Repository, empty, save, active_hold_count}
use lotus_archive.Repository.Purge.{begin_purge, complete_purge}
use lotus_archive.Repository.Holds.{admit_and_record_legal_hold, release_and_record_legal_hold}
use lotus_archive.Repository.Invariant.{IsConsistent}
use lotus_archive.Repository.History.{Continues}
use lotus_archive.Repository.Writes.{
  Write, Writes, here, next, saved, begun, completed, admitted, released, reachable-IsConsistent,
  history_is_kept, begun_is_never_held,
}

doc : ArchiveDocumentMetadata
doc = document "req_1" "doc_1"

r1 : Repository
unfolding doc save Dict.insert Dict.lookup string_discrete
r1 = (save doc empty).1

r2 : Repository
unfolding r1 admit_and_record_legal_hold active_hold_count Dict.count_where LegalHoldStatus-discrete
r2 = (admit_and_record_legal_hold "doc_1" (hold "hold_1" "doc_1") 3 r1).1

r3 : Repository
unfolding r2 release_and_record_legal_hold
r3 = (release_and_record_legal_hold "doc_1" "hold_1" "officer" 4 "settled" 4 r2).1

r4 : Repository
unfolding r3 begin_purge PurgeStatus-discrete
r4 = (begin_purge "doc_1" 5 r3).1

r5 : Repository
unfolding r4 complete_purge
r5 = (complete_purge "doc_1" 6 6 r4).1

held : begin_purge "doc_1" 5 r2 ≡ (none, r2)
unfolding r5
held = refl

too_late : admit_and_record_legal_hold "doc_1" (hold "hold_2" "doc_1") 7 r5 ≡ (none, r5)
unfolding r5
too_late = refl

abbrev started : ArchiveDocumentMetadata
started = record (document "req_1" "doc_1") { purge_started_at = some 5; updated_at = 5 }

at_r4 : Dict.lookup "doc_1" r4.by_document_id ≡ some started
unfolding r5
at_r4 = refl

Write-r1 : Write empty r1
unfolding r5
Write-r1 = saved doc (record { fresh = ground arith; nonempty = λ e. cc })

Writes-r5 : Writes r4 r5
unfolding r5
Writes-r5 = next here (completed "doc_1" 6 6)

Writes-r4 : Writes empty r4
unfolding r5
Writes-r4 =
    next
      (next
        (next (next here Write-r1) (
          admitted "doc_1" (hold "hold_1" "doc_1") 3
            (record { of_document = refl; is_active = refl; unused = refl })))
        (released "doc_1" "hold_1" "officer" "settled" 4 4))
      (begun "doc_1" 5)

reachable-IsConsistent_example : IsConsistent r4
reachable-IsConsistent_example = reachable-IsConsistent Writes-r4

history_is_kept_example :
    (m : ArchiveDocumentMetadata) × (Dict.lookup "doc_1" r5.by_document_id ≡ some m)
    × Continues started m
history_is_kept_example =
    history_is_kept "doc_1" started (reachable-IsConsistent Writes-r4) Writes-r5 at_r4

begun_is_never_held_example : active_hold_count "doc_1" r5 ≡ 0
begun_is_never_held_example =
    begun_is_never_held "doc_1" started (reachable-IsConsistent Writes-r4) Writes-r5 at_r4 refl
