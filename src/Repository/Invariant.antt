-- ===== src/Repository/Invariant.antt =====
-- The invariant of the repository, and the one lemma by which every write keeps it.
use lotus_archive.Prelude.{ℕ, String, ◌≡◌, ◌≢◌, true, none, some, is_some, arith, string_eq}
use lotus_archive.Prelude.Dict
use lotus_archive.Prelude.Dict.{Dict}
use lotus_archive.Models.{ArchiveDocumentMetadata, LegalHoldRecord, PurgeStatus}
use lotus_archive.Repository.State.{Repository, holds_document, active_hold_count}
use lotus_archive.Repository.Holds.{summary_status}

-- What a stored document says of itself, beside the number of active hold rows for it: the summary
-- is derived from the rows, destruction and an active hold exclude one another, and a completed
-- purge was begun and dated.
pub record RowIsSound (active_count : ℕ) (m : ArchiveDocumentMetadata) : Type 0 where
  pub counted : m.legal_hold_count ≡ active_count
  pub flagged : m.legal_hold_status ≡ summary_status active_count
  pub unheld : is_some m.purge_started_at ≡ true → active_count ≡ 0
  pub begun : m.purge_status ≡ PurgeStatus.purged → is_some m.purge_started_at ≡ true
  pub dated : m.purge_status ≡ PurgeStatus.purged → is_some m.purged_at ≡ true

pub record IsConsistent (r : Repository) : Type 0 where
  pub sound :
      (i : String) (m : ArchiveDocumentMetadata)
      → Dict.lookup i r.by_document_id ≡ some m
      → RowIsSound (active_hold_count i r) m
  pub named :
      (i : String) (m : ArchiveDocumentMetadata)
      → Dict.lookup i r.by_document_id ≡ some m
      → m.document_id ≡ i
  pub indexed :
      (i : String) (m : ArchiveDocumentMetadata)
      → Dict.lookup i r.by_document_id ≡ some m
      → Dict.lookup m.archive_request_id r.by_archive_request_id ≡ some i
  pub points :
      (q i : String)
      → Dict.lookup q r.by_archive_request_id ≡ some i
      → is_some (Dict.lookup i r.by_document_id) ≡ true
  pub unknown : (i : String) → Dict.lookup i r.by_document_id ≡ none → active_hold_count i r ≡ 0

-- A write to one stored document, and perhaps to its hold rows, keeps the invariant if the new
-- document is sound and keeps its names, and no other document's holds are counted differently.
pub put-IsConsistent :
    (r : Repository) (i : String) (m m' : ArchiveDocumentMetadata) (holds : Dict LegalHoldRecord)
    → IsConsistent r
    → Dict.lookup i r.by_document_id ≡ some m
    → m'.document_id ≡ m.document_id
    → m'.archive_request_id ≡ m.archive_request_id
    → ((j : String) → j ≢ i → Dict.count_where (holds_document j) holds ≡ active_hold_count j r)
    → RowIsSound (Dict.count_where (holds_document i) holds) m'
    → IsConsistent
        (record r { by_document_id = Dict.insert i m' r.by_document_id; legal_holds = holds })
unfolding active_hold_count
put-IsConsistent r i m m' holds c at_i same_id same_request others sound = record {
  sound = λ j n e.
      grind (arith, Dict.lookup-insert j i m' r.by_document_id, c.sound j n, others j, sound);
  named = λ j n e.
      ground (arith, Dict.lookup-insert j i m' r.by_document_id, c.named j n, c.named i m at_i);
  indexed = λ j n e.
      ground (arith, Dict.lookup-insert j i m' r.by_document_id, c.indexed j n, c.indexed i m at_i);
  points = λ q j e. ground (arith, Dict.lookup-insert j i m' r.by_document_id, c.points q j e);
  unknown =
      λ j e. ground (arith, Dict.lookup-insert j i m' r.by_document_id, c.unknown j, others j);
}
