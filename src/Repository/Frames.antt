-- ===== src/Repository/Frames.antt =====
-- What the writes leave alone: the index of archive requests, and the keys of the hold rows.
use lotus_archive.Prelude.{
  ℕ, String, ◌≡◌, ◌≢◌, refl, none, some, arith, string_eq, nat_eq, Option-cases, inl, inr,
}
use lotus_archive.Prelude.Dict
use lotus_archive.Prelude.Dict.{Dict}
use lotus_archive.Models.{
  ArchiveDocumentMetadata, LegalHoldRecord, LifecycleTransitionType, LifecycleRelationshipRecord,
  hold_status_eq, purge_status_eq,
}
use lotus_archive.Repository.State.{Repository, save}
use lotus_archive.Repository.Purge.{
  begin_purge, mark_purge_eligible, mark_purge_not_eligible, complete_purge,
}
use lotus_archive.Repository.Holds.{
  admit_and_record_legal_hold, refresh_legal_hold_summary, release_and_record_legal_hold, release,
}
use lotus_archive.Repository.Transitions.{
  apply_lifecycle_transition, transition_rows, write_transition,
}

-- Nothing is indexed anew, and hold rows change or appear only under a given key.
pub record KeepsNames (r s : Repository) : Type 0 where
  pub index : s.by_archive_request_id ≡ r.by_archive_request_id
  pub holds : (h : String) → Dict.lookup h r.legal_holds ≡ none → Dict.lookup h s.legal_holds ≡ none

pub KeepsNames-refl : (r : Repository) → KeepsNames r r
KeepsNames-refl r = record { index = refl; holds = λ h e. e }

module _ (r : Repository) (i : String) where
  pub begin_purge-KeepsNames : (t : ℕ) → KeepsNames r (begin_purge i t r).1
  unfolding begin_purge
  begin_purge-KeepsNames t = elim (Option-cases (Dict.lookup i r.by_document_id)) [
    | inl e ↦ rw (e, begin_purge) (KeepsNames-refl r)
    | inr (m, e) ↦ rw (e, begin_purge) (ground (arith, KeepsNames-refl r))
  ]

  pub mark_purge_eligible-KeepsNames :
      (at now : ℕ) → KeepsNames r (mark_purge_eligible i at now r).1
  unfolding mark_purge_eligible
  mark_purge_eligible-KeepsNames at now = elim (Option-cases (Dict.lookup i r.by_document_id)) [
    | inl e ↦ rw (e, mark_purge_eligible) (KeepsNames-refl r)
    | inr (m, e) ↦ rw (e, mark_purge_eligible) (ground (arith, KeepsNames-refl r))
  ]

  pub mark_purge_not_eligible-KeepsNames :
      (now : ℕ) → KeepsNames r (mark_purge_not_eligible i now r).1
  unfolding mark_purge_not_eligible
  mark_purge_not_eligible-KeepsNames now = elim (Option-cases (Dict.lookup i r.by_document_id)) [
    | inl e ↦ rw (e, mark_purge_not_eligible) (KeepsNames-refl r)
    | inr (m, e) ↦ rw (e, mark_purge_not_eligible) (ground (arith, KeepsNames-refl r))
  ]

  pub complete_purge-KeepsNames : (at now : ℕ) → KeepsNames r (complete_purge i at now r).1
  unfolding complete_purge
  complete_purge-KeepsNames at now = elim (Option-cases (Dict.lookup i r.by_document_id)) [
    | inl e ↦ rw (e, complete_purge) (KeepsNames-refl r)
    | inr (m, e) ↦ rw (e, complete_purge) (ground (arith, KeepsNames-refl r))
  ]

  pub refresh_legal_hold_summary-KeepsNames :
      (now : ℕ) → KeepsNames r (refresh_legal_hold_summary i now r).1
  unfolding refresh_legal_hold_summary
  refresh_legal_hold_summary-KeepsNames now = elim (Option-cases (Dict.lookup i r.by_document_id)) [
    | inl e ↦ rw (e, refresh_legal_hold_summary) (KeepsNames-refl r)
    | inr (m, e) ↦ rw (e, refresh_legal_hold_summary) (ground (arith, KeepsNames-refl r))
  ]

  pub release_and_record_legal_hold-KeepsNames :
      (h by why : String) (at now : ℕ)
      → KeepsNames r (release_and_record_legal_hold i h by at why now r).1
  unfolding release_and_record_legal_hold refresh_legal_hold_summary
  release_and_record_legal_hold-KeepsNames h by why at now =
      elim (Option-cases (Dict.lookup i r.by_document_id)) [
        | inl e ↦ rw (e, release_and_record_legal_hold) (KeepsNames-refl r)
        | inr (m, e) ↦ elim (Option-cases (Dict.lookup h r.legal_holds)) [
          | inl f ↦ rw (e, f, release_and_record_legal_hold) (KeepsNames-refl r)
          | inr (hold, f) ↦ record {
            index = ground arith;
            holds = λ k g.
                ground (arith, Dict.lookup-insert k h (release by at why hold) r.legal_holds);
          }
        ]
      ]

  pub apply_lifecycle_transition-KeepsNames :
      (j : String) (t : LifecycleTransitionType) (rel : LifecycleRelationshipRecord) (now : ℕ)
      → KeepsNames r (apply_lifecycle_transition i j t rel now r).1
  unfolding apply_lifecycle_transition transition_rows write_transition
  apply_lifecycle_transition-KeepsNames j t rel now =
      elim (Option-cases (Dict.lookup i r.by_document_id)) [
        | inl e ↦ rw (e, apply_lifecycle_transition) (KeepsNames-refl r)
        | inr (m, e) ↦ ground (arith, KeepsNames-refl r)
      ]

-- `save` leaves the hold rows alone, and indexes under the request the document's identifier.
pub save-holds :
    (m : ArchiveDocumentMetadata) (r : Repository) → (save m r).1.legal_holds ≡ r.legal_holds
unfolding save
save-holds m r = ground arith

pub save-index :
    (m : ArchiveDocumentMetadata) (r : Repository) (q : String)
    → m.document_id ≢ ""
    → Dict.lookup q r.by_archive_request_id ≢ some ""
    → Dict.lookup q (save m r).1.by_archive_request_id ≢ some ""
unfolding save
save-index m r q h e =
    ground (arith, Dict.lookup-insert q m.archive_request_id m.document_id r.by_archive_request_id)

-- The admission of a hold adds at most the row of its own identifier.
pub admit_and_record_legal_hold-holds :
    (r : Repository) (i : String) (hold : LegalHoldRecord) (now : ℕ) (h : String)
    → h ≢ hold.legal_hold_id
    → Dict.lookup h r.legal_holds ≡ none
    → Dict.lookup h (admit_and_record_legal_hold i hold now r).1.legal_holds ≡ none
unfolding admit_and_record_legal_hold
admit_and_record_legal_hold-holds r i hold now h ne e =
    ground (arith, Dict.lookup-insert h hold.legal_hold_id hold r.legal_holds)

pub admit_and_record_legal_hold-index :
    (r : Repository) (i : String) (hold : LegalHoldRecord) (now : ℕ)
    → (admit_and_record_legal_hold i hold now r).1.by_archive_request_id ≡ r.by_archive_request_id
unfolding admit_and_record_legal_hold
admit_and_record_legal_hold-index r i hold now = ground arith
