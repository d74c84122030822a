-- ===== src/Repository/History.antt =====
-- How a stored document continues over the writes of the repository: its identity and provenance, a begun
-- destruction and a completed purge.
use lotus_archive.Prelude.{
  ℕ, String, ◌≡◌, ◌≢◌, true, Option, none, some, is_some, get_or, arith, string_eq, string_discrete,
  Option-cases, inl, inr,
}
use lotus_archive.Prelude.Dict
use lotus_archive.Prelude.Dict.{Dict}
use lotus_archive.Models.{
  ArchiveDocumentMetadata, LegalHoldRecord, LegalHoldStatus, LifecycleTransitionType,
  LifecycleRelationshipRecord, PurgeStatus, set_target_origin, metadata_eq,
}
use lotus_archive.Repository.State.{Repository, save, active_hold_count}
use lotus_archive.Repository.Purge.{
  begin_purge, mark_purge_eligible, mark_purge_not_eligible, complete_purge,
}
use lotus_archive.Repository.Holds.{
  summary_status, admit_and_record_legal_hold, refresh_legal_hold_summary,
  release_and_record_legal_hold, put_hold, put_released, release,
}
use lotus_archive.Repository.Transitions.{
  apply_lifecycle_transition, write_transition, supersede_by,
}
use lotus_archive.Repository.Invariant.{IsConsistent}
use lotus_archive.Repository.Linking.{valid_are_distinct}

-- the fields outside `MUTABLE_DOCUMENT_FIELDS` are equal, and the irreversible ones do not go back
pub record Continues (m m' : ArchiveDocumentMetadata) : Type 0 where
  pub input : m'.input ≡ m.input
  pub document_id : m'.document_id ≡ m.document_id
  pub storage_provider : m'.storage_provider ≡ m.storage_provider
  pub storage_namespace : m'.storage_namespace ≡ m.storage_namespace
  pub storage_key : m'.storage_key ≡ m.storage_key
  pub checksum_algorithm : m'.checksum_algorithm ≡ m.checksum_algorithm
  pub checksum : m'.checksum ≡ m.checksum
  pub size_bytes : m'.size_bytes ≡ m.size_bytes
  pub created_at : m'.created_at ≡ m.created_at
  pub started : is_some m.purge_started_at ≡ true → m'.purge_started_at ≡ m.purge_started_at
  pub purged :
      m.purge_status ≡ PurgeStatus.purged
      → (m'.purge_status ≡ PurgeStatus.purged) × (m'.purged_at ≡ m.purged_at)

-- what becomes of one key: a document that is there stays and continues
abbrev pub Tracks : Option ArchiveDocumentMetadata → Option ArchiveDocumentMetadata → Type 0
Tracks none o = Unit
Tracks (some m) none = ⊥
Tracks (some m) (some m') = Continues m m'

abbrev pub Keeps : Repository → Repository → Type 0
Keeps r r' =
    (j : String) → Tracks (Dict.lookup j r.by_document_id) (Dict.lookup j r'.by_document_id)

pub Continues-refl : (m : ArchiveDocumentMetadata) → Continues m m
Continues-refl m = ground arith

pub Tracks-refl : (o : Option ArchiveDocumentMetadata) → Tracks o o
Tracks-refl none = tt
Tracks-refl (some m) = Continues-refl m

pub Tracks-trans : (a b c : Option ArchiveDocumentMetadata) → Tracks a b → Tracks b c → Tracks a c
Tracks-trans none b c h k = tt
Tracks-trans (some a) none c h k = absurd h
Tracks-trans (some a) (some b) none h k = absurd k
Tracks-trans (some a) (some b) (some c) h k = ground arith

module _ (r : Repository) (i : String) where
  pub put-Keeps :
      (j : String) (m m' : ArchiveDocumentMetadata)
      → Dict.lookup i r.by_document_id ≡ some m
      → Continues m m'
      → Tracks (Dict.lookup j r.by_document_id) (Dict.lookup j (Dict.insert i m' r.by_document_id))
  put-Keeps j m m' e h = elim (string_discrete j i) [
    | yes p ↦ ground (arith, Dict.lookup-insert j i m' r.by_document_id)
    | no ne ↦ ground (
      arith,
      Dict.lookup-insert j i m' r.by_document_id,
      Tracks-refl (Dict.lookup j r.by_document_id),
    )
  ]

  pub begin_purge-Keeps : (t : ℕ) → Keeps r (begin_purge i t r).1
  unfolding begin_purge
  begin_purge-Keeps t j = elim (Option-cases (Dict.lookup i r.by_document_id)) [
    | inl e ↦ rw (e, begin_purge) (Tracks-refl (Dict.lookup j r.by_document_id))
    | inr (m, e) ↦
        rw (e, begin_purge)
          (ground (
            arith,
            Tracks-refl (Dict.lookup j r.by_document_id),
            put-Keeps j m (record m { purge_started_at = some t; updated_at = t }) e,
          ))
  ]

  pub mark_purge_eligible-Keeps : (at now : ℕ) → Keeps r (mark_purge_eligible i at now r).1
  unfolding mark_purge_eligible
  mark_purge_eligible-Keeps at now j = elim (Option-cases (Dict.lookup i r.by_document_id)) [
    | inl e ↦ rw (e, mark_purge_eligible) (Tracks-refl (Dict.lookup j r.by_document_id))
    | inr (m, e) ↦
        rw (e, mark_purge_eligible)
          (ground (
            arith,
            Tracks-refl (Dict.lookup j r.by_document_id),
            put-Keeps j m
                (record m {
                  purge_status = PurgeStatus.eligible;
                  purge_eligible_at = some (get_or m.purge_eligible_at at);
                  updated_at = now;
                })
                e,
          ))
  ]

  pub mark_purge_not_eligible-Keeps : (now : ℕ) → Keeps r (mark_purge_not_eligible i now r).1
  unfolding mark_purge_not_eligible
  mark_purge_not_eligible-Keeps now j = elim (Option-cases (Dict.lookup i r.by_document_id)) [
    | inl e ↦ rw (e, mark_purge_not_eligible) (Tracks-refl (Dict.lookup j r.by_document_id))
    | inr (m, e) ↦
        rw (e, mark_purge_not_eligible)
          (ground (
            arith,
            Tracks-refl (Dict.lookup j r.by_document_id),
            put-Keeps j m (record m { purge_status = PurgeStatus.not_eligible; updated_at = now })
                e,
          ))
  ]

  pub complete_purge-Keeps : (at now : ℕ) → Keeps r (complete_purge i at now r).1
  unfolding complete_purge
  complete_purge-Keeps at now j = elim (Option-cases (Dict.lookup i r.by_document_id)) [
    | inl e ↦ rw (e, complete_purge) (Tracks-refl (Dict.lookup j r.by_document_id))
    | inr (m, e) ↦
        rw (e, complete_purge)
          (ground (
            arith,
            Tracks-refl (Dict.lookup j r.by_document_id),
            put-Keeps j m
                (record m {
                  purge_status = PurgeStatus.purged;
                  purged_at = some at;
                  updated_at = now;
                })
                e,
          ))
  ]

  pub refresh_legal_hold_summary-Keeps : (now : ℕ) → Keeps r (refresh_legal_hold_summary i now r).1
  unfolding refresh_legal_hold_summary
  refresh_legal_hold_summary-Keeps now j = elim (Option-cases (Dict.lookup i r.by_document_id)) [
    | inl e ↦ rw (e, refresh_legal_hold_summary) (Tracks-refl (Dict.lookup j r.by_document_id))
    | inr (m, e) ↦
        rw (e, refresh_legal_hold_summary)
          (ground (
            arith,
            Tracks-refl (Dict.lookup j r.by_document_id),
            put-Keeps j m
                (record m {
                  legal_hold_status = summary_status (active_hold_count i r);
                  legal_hold_count = active_hold_count i r;
                  updated_at = now;
                })
                e,
          ))
  ]

  pub admit_and_record_legal_hold-Keeps :
      (hold : LegalHoldRecord) (now : ℕ) → Keeps r (admit_and_record_legal_hold i hold now r).1
  unfolding admit_and_record_legal_hold
  admit_and_record_legal_hold-Keeps hold now j =
      elim (Option-cases (Dict.lookup i r.by_document_id)) [
        | inl e ↦ rw (e, admit_and_record_legal_hold) (Tracks-refl (Dict.lookup j r.by_document_id))
        | inr (m, e) ↦
            rw (e, admit_and_record_legal_hold)
              (ground (
                arith,
                Tracks-refl (Dict.lookup j r.by_document_id),
                put-Keeps j m
                    (record m {
                      legal_hold_status = LegalHoldStatus.active;
                      legal_hold_count = active_hold_count i (put_hold hold.legal_hold_id hold r);
                      updated_at = now;
                    })
                    e,
              ))
      ]

module _ (r : Repository) (i : String) where
  pub release_and_record_legal_hold-Keeps :
      (h by why : String) (at now : ℕ)
      → Keeps r (release_and_record_legal_hold i h by at why now r).1
  unfolding release_and_record_legal_hold
  release_and_record_legal_hold-Keeps h by why at now j =
      elim (Option-cases (Dict.lookup i r.by_document_id)) [
        | inl e ↦
            rw (e, release_and_record_legal_hold) (Tracks-refl (Dict.lookup j r.by_document_id))
        | inr (m, e) ↦ elim (Option-cases (Dict.lookup h r.legal_holds)) [
          | inl f ↦
              rw (e, f, release_and_record_legal_hold)
                (Tracks-refl (Dict.lookup j r.by_document_id))
          | inr (hold, f) ↦ ground (
            arith,
            Tracks-refl (Dict.lookup j r.by_document_id),
            refresh_legal_hold_summary-Keeps (put_released h hold (release by at why hold) r) i now
                j,
          )
        ]
      ]

pub save-Keeps : (m : ArchiveDocumentMetadata) (r : Repository) → Keeps r (save m r).1
unfolding save
save-Keeps m r j = elim (Option-cases (Dict.lookup m.document_id r.by_document_id)) [
  | inl e ↦ ground (
    arith,
    Tracks-refl (Dict.lookup j r.by_document_id),
    Dict.lookup-insert j m.document_id m r.by_document_id,
  )
  | inr (old, e) ↦ ground (
    arith,
    Tracks-refl (Dict.lookup j r.by_document_id),
    put-Keeps r m.document_id j old (record old { updated_at = m.updated_at }) e,
  )
]

set_target_origin-Continues :
    (t : LifecycleTransitionType) (s : String) (now : ℕ) (m : ArchiveDocumentMetadata)
    → Continues m (set_target_origin t s now m)
unfolding set_target_origin
set_target_origin-Continues t s now m = ground arith

module _ (r : Repository) (i k : String) (t : LifecycleTransitionType)
    (rel : LifecycleRelationshipRecord) (now : ℕ) where
  write_transition-Keeps :
      (source target : ArchiveDocumentMetadata)
      → Dict.lookup i r.by_document_id ≡ some source
      → Dict.lookup k r.by_document_id ≡ some target
      → i ≢ k
      → Keeps r (write_transition i k t rel now source target r).1
  unfolding write_transition
  write_transition-Keeps source target at_i at_k differ j =
      let s' : ArchiveDocumentMetadata = supersede_by k now source in
      let r' : Repository = record r { by_document_id = Dict.insert i s' r.by_document_id } in
      Tracks-trans (Dict.lookup j r.by_document_id) (Dict.lookup j r'.by_document_id) _
        (put-Keeps r i j source s' at_i (ground arith))
        (put-Keeps r' k j target (set_target_origin t i now target)
          (ground (arith, Dict.lookup-insert k i s' r.by_document_id))
          (set_target_origin-Continues t i now target))

  pub apply_lifecycle_transition-Keeps :
      IsConsistent r → Keeps r (apply_lifecycle_transition i k t rel now r).1
  unfolding apply_lifecycle_transition
  apply_lifecycle_transition-Keeps c j = elim (Option-cases (Dict.lookup i r.by_document_id)) [
    | inl e ↦ rw (e, apply_lifecycle_transition) (Tracks-refl (Dict.lookup j r.by_document_id))
    | inr (source, e) ↦ elim (Option-cases (Dict.lookup k r.by_document_id)) [
      | inl f ↦ rw (e, f, apply_lifecycle_transition) (Tracks-refl (Dict.lookup j r.by_document_id))
      | inr (target, f) ↦
          let at_j : (i ≢ k)
              → Tracks (Dict.lookup j r.by_document_id) (
                  Dict.lookup j (write_transition i k t rel now source target r).1.by_document_id) =
            λ d. write_transition-Keeps source target e f d j in
          ground (
            arith,
            Tracks-refl (Dict.lookup j r.by_document_id),
            at_j,
            valid_are_distinct source target,
            c.named i source e,
            c.named k target f,
          )
    ]
  ]
