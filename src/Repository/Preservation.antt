-- ===== src/Repository/Preservation.antt =====
-- The writes of the repository and its invariant.
use lotus_archive.Prelude.{
  ℕ, String, ◌≡◌, ◌≢◌, refl, true, none, some, is_some, get_or, arith, ◌==◌, string_eq,
  Option-cases, Bool-cases, inl, inr, ◌&&◌, nat_eq, string_discrete,
}
use lotus_archive.Prelude.Dict
use lotus_archive.Prelude.Dict.{Dict}
use lotus_archive.Models.{
  ArchiveDocumentMetadata, LegalHoldRecord, LegalHoldStatus, hold_status_eq, PurgeStatus,
}
use lotus_archive.Repository.State.{Repository, holds_document, active_hold_count, empty, save}
use lotus_archive.Repository.Purge.{
  begin_purge, mark_purge_eligible, mark_purge_not_eligible, complete_purge,
}
use lotus_archive.Repository.Holds.{
  summary_status, admit_and_record_legal_hold, refresh_legal_hold_summary,
  release_and_record_legal_hold, release, put_released,
}
use lotus_archive.Repository.Invariant.{RowIsSound, IsConsistent, put-IsConsistent}

pub IsConsistent-empty : IsConsistent empty
unfolding active_hold_count Dict.lookup Dict.count_where
IsConsistent-empty = record {
  sound = λ i m e. cc;
  named = λ i m e. cc;
  indexed = λ i m e. cc;
  points = λ q i e. cc;
  unknown = λ i e. refl;
}

module _ (r : Repository) (c : IsConsistent r) (i : String) where
  -- a write that leaves the hold rows alone
  pub keep_holds :
      (m m' : ArchiveDocumentMetadata)
      → Dict.lookup i r.by_document_id ≡ some m
      → m'.document_id ≡ m.document_id
      → m'.archive_request_id ≡ m.archive_request_id
      → RowIsSound (active_hold_count i r) m'
      → IsConsistent (record r { by_document_id = Dict.insert i m' r.by_document_id })
  unfolding active_hold_count
  keep_holds m m' e same_id same_request sound =
      put-IsConsistent r i m m' r.legal_holds c e same_id same_request (λ j ne. refl) sound

  pub begin_purge-IsConsistent : (t : ℕ) → IsConsistent (begin_purge i t r).1
  unfolding begin_purge
  begin_purge-IsConsistent t = elim (Option-cases (Dict.lookup i r.by_document_id)) [
    | inl e ↦ rw (e, begin_purge) c
    | inr (m, e) ↦
        rw (e, begin_purge)
          (ground (
            arith,
            c.sound i m e,
            keep_holds m (record m { purge_started_at = some t; updated_at = t }),
          ))
  ]

  pub mark_purge_eligible-IsConsistent :
      (at now : ℕ) → IsConsistent (mark_purge_eligible i at now r).1
  unfolding mark_purge_eligible
  mark_purge_eligible-IsConsistent at now = elim (Option-cases (Dict.lookup i r.by_document_id)) [
    | inl e ↦ rw (e, mark_purge_eligible) c
    | inr (m, e) ↦
        rw (e, mark_purge_eligible)
          (ground (
            arith,
            c.sound i m e,
            keep_holds m (record m {
              purge_status = PurgeStatus.eligible;
              purge_eligible_at = some (get_or m.purge_eligible_at at);
              updated_at = now;
            }),
          ))
  ]

  pub mark_purge_not_eligible-IsConsistent :
      (now : ℕ) → IsConsistent (mark_purge_not_eligible i now r).1
  unfolding mark_purge_not_eligible
  mark_purge_not_eligible-IsConsistent now = elim (Option-cases (Dict.lookup i r.by_document_id)) [
    | inl e ↦ rw (e, mark_purge_not_eligible) c
    | inr (m, e) ↦
        rw (e, mark_purge_not_eligible)
          (ground (
            arith,
            c.sound i m e,
            keep_holds m (record m { purge_status = PurgeStatus.not_eligible; updated_at = now }),
          ))
  ]

  pub complete_purge-IsConsistent : (at now : ℕ) → IsConsistent (complete_purge i at now r).1
  unfolding complete_purge
  complete_purge-IsConsistent at now = elim (Option-cases (Dict.lookup i r.by_document_id)) [
    | inl e ↦ rw (e, complete_purge) c
    | inr (m, e) ↦
        rw (e, complete_purge)
          (ground (
            arith,
            c.sound i m e,
            keep_holds m (record m {
              purge_status = PurgeStatus.purged;
              purged_at = some at;
              updated_at = now;
            }),
          ))
  ]

  pub refresh_legal_hold_summary-IsConsistent :
      (now : ℕ) → IsConsistent (refresh_legal_hold_summary i now r).1
  unfolding refresh_legal_hold_summary
  refresh_legal_hold_summary-IsConsistent now =
      elim (Option-cases (Dict.lookup i r.by_document_id)) [
        | inl e ↦ rw (e, refresh_legal_hold_summary) c
        | inr (m, e) ↦
            rw (e, refresh_legal_hold_summary)
              (ground (
                arith,
                c.sound i m e,
                keep_holds m (record m {
                  legal_hold_status = summary_status (active_hold_count i r);
                  legal_hold_count = active_hold_count i r;
                  updated_at = now;
                }),
              ))
      ]

  -- The new row is fresh, active and of this document: it adds one to this document's count.
  pub admit_and_record_legal_hold-IsConsistent :
      (hold : LegalHoldRecord) (now : ℕ)
      → hold.document_id ≡ i
      → hold.hold_status ≡ LegalHoldStatus.active
      → Dict.lookup hold.legal_hold_id r.legal_holds ≡ none
      → IsConsistent (admit_and_record_legal_hold i hold now r).1
  unfolding admit_and_record_legal_hold active_hold_count
  admit_and_record_legal_hold-IsConsistent hold now of_i is_active fresh =
      elim (Option-cases (Dict.lookup i r.by_document_id)) [
        | inl e ↦ rw (e, admit_and_record_legal_hold) c
        | inr (m, e) ↦
            rw (e, admit_and_record_legal_hold)
              (ground (
                arith,
                c.sound i m e,
                Dict.count_where-insert (holds_document i) hold.legal_hold_id hold r.legal_holds,
                put-IsConsistent r i m
                    (record m {
                      legal_hold_status = LegalHoldStatus.active;
                      legal_hold_count =
                          Dict.count_where (holds_document i)
                            (Dict.insert hold.legal_hold_id hold r.legal_holds);
                      updated_at = now;
                    })
                    (Dict.insert hold.legal_hold_id hold r.legal_holds) c e refl refl
                    (λ j ne. ground (
                      arith,
                      Dict.count_where-insert (holds_document j) hold.legal_hold_id hold
                          r.legal_holds,
                    )),
              ))
      ]

  -- hold rows that are counted alike, for every document
  same_counts-IsConsistent :
      (holds : Dict LegalHoldRecord)
      → ((j : String) → Dict.count_where (holds_document j) holds ≡ active_hold_count j r)
      → IsConsistent (record r { legal_holds = holds })
  unfolding active_hold_count
  same_counts-IsConsistent holds same = record {
    sound = λ j m e. rw (same j) (c.sound j m e);
    named = c.named;
    indexed = c.indexed;
    points = c.points;
    unknown = λ j e. rw (same j) (c.unknown j e);
  }

  -- The summary is derived anew from rows that differ for this document only.
  refresh_rows-IsConsistent :
      (holds : Dict LegalHoldRecord) (now : ℕ) (m : ArchiveDocumentMetadata)
      → Dict.lookup i r.by_document_id ≡ some m
      → ((j : String) → j ≢ i → Dict.count_where (holds_document j) holds ≡ active_hold_count j r)
      → (is_some m.purge_started_at ≡ true → Dict.count_where (holds_document i) holds ≡ 0)
      → IsConsistent (refresh_legal_hold_summary i now (record r { legal_holds = holds })).1
  unfolding refresh_legal_hold_summary active_hold_count
  refresh_rows-IsConsistent holds now m e others unheld =
      let n : ℕ = Dict.count_where (holds_document i) holds in
      let m' : ArchiveDocumentMetadata = record m {
        legal_hold_status = summary_status n;
        legal_hold_count = n;
        updated_at = now;
      } in
      elim (Bool-cases (m.legal_hold_status == summary_status n && m.legal_hold_count == n)) [
        | inl same ↦
            rw (e, refresh_legal_hold_summary)
              (rw same (
                same_counts-IsConsistent holds (λ j. elim (string_discrete j i) [
                  | yes p ↦ ground (arith, c.sound i m e)
                  | no ne ↦ others j ne
                ])))
        | inr differ ↦
            rw (e, refresh_legal_hold_summary)
              (rw differ (
                put-IsConsistent r i m m' holds c e refl refl others
                  (ground (arith, c.sound i m e))))
      ]

  put_released-IsConsistent :
      (h : String) (hold released : LegalHoldRecord) (now : ℕ) (m : ArchiveDocumentMetadata)
      → Dict.lookup h r.legal_holds ≡ some hold
      → hold.document_id ≡ i
      → released.document_id ≡ i
      → Dict.lookup i r.by_document_id ≡ some m
      → IsConsistent (refresh_legal_hold_summary i now (put_released h hold released r)).1
  unfolding active_hold_count
  put_released-IsConsistent h hold released now m at_h of_i still_of_i e =
      elim (Bool-cases (hold.hold_status == LegalHoldStatus.active)) [
        | inl is_active ↦ rw is_active (
            refresh_rows-IsConsistent (Dict.insert h released r.legal_holds) now m e
              (λ j ne.
                ground (arith, Dict.count_where-insert (holds_document j) h released r.legal_holds))
              (λ started. ground (
                arith,
                c.sound i m e,
                Dict.count_where-insert (holds_document i) h released r.legal_holds,
              )))
        | inr is_clear ↦ rw is_clear (refresh_legal_hold_summary-IsConsistent now)
      ]

  pub release_and_record_legal_hold-IsConsistent :
      (h by why : String) (at now : ℕ)
      → IsConsistent (release_and_record_legal_hold i h by at why now r).1
  unfolding release_and_record_legal_hold
  release_and_record_legal_hold-IsConsistent h by why at now =
      elim (Option-cases (Dict.lookup i r.by_document_id)) [
        | inl e ↦ rw (e, release_and_record_legal_hold) c
        | inr (m, e) ↦ elim (Option-cases (Dict.lookup h r.legal_holds)) [
          | inl f ↦ rw (e, f, release_and_record_legal_hold) c
          | inr (hold, f) ↦
              ground (arith, put_released-IsConsistent h hold (release by at why hold) now m f)
        ]
      ]

-- a document and an index entry under names that are not in use
add-IsConsistent :
    (m : ArchiveDocumentMetadata) (r : Repository)
    → IsConsistent r
    → RowIsSound 0 m
    → Dict.lookup m.document_id r.by_document_id ≡ none
    → Dict.lookup m.archive_request_id r.by_archive_request_id ≡ none
    → IsConsistent (record r {
      by_document_id = Dict.insert m.document_id m r.by_document_id;
      by_archive_request_id =
          Dict.insert m.archive_request_id m.document_id r.by_archive_request_id;
    })
unfolding active_hold_count
add-IsConsistent m r c fresh new_id new_request = record {
  sound = λ j n e. ground (
    arith,
    Dict.lookup-insert j m.document_id m r.by_document_id,
    c.sound j n,
    c.unknown m.document_id new_id,
  );
  named =
      λ j n e. ground (arith, Dict.lookup-insert j m.document_id m r.by_document_id, c.named j n);
  indexed = λ j n e. ground (
    arith,
    Dict.lookup-insert j m.document_id m r.by_document_id,
    c.indexed j n,
    Dict.lookup-insert n.archive_request_id m.archive_request_id m.document_id
        r.by_archive_request_id,
  );
  points = λ q j e. ground (
    arith,
    Dict.lookup-insert j m.document_id m r.by_document_id,
    c.points q j,
    Dict.lookup-insert q m.archive_request_id m.document_id r.by_archive_request_id,
  );
  unknown =
      λ j e. ground (arith, Dict.lookup-insert j m.document_id m r.by_document_id, c.unknown j);
}

-- A new document comes in with the posture of one that has no hold rows. No document has an empty
-- identifier.
pub save-IsConsistent :
    (m : ArchiveDocumentMetadata) (r : Repository)
    → IsConsistent r
    → RowIsSound 0 m
    → Dict.lookup m.archive_request_id r.by_archive_request_id ≢ some ""
    → IsConsistent (save m r).1
unfolding save
save-IsConsistent m r c fresh nonempty =
    elim (Option-cases (Dict.lookup m.document_id r.by_document_id)) [
      | inl e ↦
          ground
            (arith, add-IsConsistent m r c fresh e, c.points m.archive_request_id m.document_id)
      | inr (old, e) ↦ ground (
        arith,
        c.sound m.document_id old e,
        c.named m.document_id old e,
        keep_holds r c m.document_id old (record old { updated_at = m.updated_at }) e,
      )
    ]
