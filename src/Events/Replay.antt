-- ===== src/Events/Replay.antt =====
-- The order of the events of a document, and what it does not depend on.
use lotus_archive.Prelude.{
  ℕ, ◌≤◌, String, ◌≡◌, refl, sym, ap, subst, ◌⊎◌, none, some, List, [], ◌∷◌, map, arith, All, ltb,
  Bool-cases, inl, inr,
}
use mathlib.Core.HLevel.{hedberg}
use mathlib.Core.List.{Perm, Mem, mem-cons_self, mem-cons_of_mem}
use native.Mathlib.Decide.{ℕ_discrete}
use lotus_archive.Prelude.{string_discrete}
use lotus_archive.Prelude.Sorting.{
  sorted, IsOrder, IsAscending, IsDecisive, sorted-perm, sorted-IsAscending, sorted-eq,
}
use lotus_archive.Prelude.TextOrder.{text_le_total, text_le_trans, text_le_antisym}
use lotus_archive.Models.{ArchiveDocumentMetadata, LifecycleRelationshipRecord}
use lotus_archive.Events.{
  SourceEvent, archive_created_event, lifecycle_event, relationship_le,
  build_archive_document_source_events, latest_event_time,
}

relationship-IsOrder : IsOrder relationship_le
unfolding relationship_le
relationship-IsOrder = record {
  total = λ a b h.
      ground (arith, text_le_total a.lifecycle_relationship_id b.lifecycle_relationship_id);
  trans = λ a b c h k. ground (
    arith,
    text_le_trans a.lifecycle_relationship_id b.lifecycle_relationship_id
        c.lifecycle_relationship_id,
  );
}

pub relationship-IsSet : IsSet LifecycleRelationshipRecord
relationship-IsSet = hedberg (hlevel (ℕ_discrete, string_discrete))

-- an identifier has one row
abbrev pub IsKeyed : List LifecycleRelationshipRecord → Type 0
IsKeyed rows =
    (a b : LifecycleRelationshipRecord)
    → Mem a rows
    → Mem b rows
    → a.lifecycle_relationship_id ≡ b.lifecycle_relationship_id
    → a ≡ b

IsKeyed-IsDecisive :
    (rows : List LifecycleRelationshipRecord) → IsKeyed rows → IsDecisive relationship_le rows
unfolding relationship_le
IsKeyed-IsDecisive rows keyed a b m n h k = keyed a b m n (
    text_le_antisym a.lifecycle_relationship_id b.lifecycle_relationship_id (ground arith)
      (ground arith))

-- The events of a document are the same in whatever order the store lists its relationships, which
-- have different identifiers: a consumer that reads them again by offset finds them where they were.
pub replays_do_not_depend_on_the_store :
    (m : ArchiveDocumentMetadata) (current_document_id : String)
    (rows listed_again : List LifecycleRelationshipRecord)
    → IsKeyed rows
    → Perm rows listed_again
    → build_archive_document_source_events m current_document_id rows
      ≡ build_archive_document_source_events m current_document_id listed_again
unfolding build_archive_document_source_events
replays_do_not_depend_on_the_store m current_document_id rows listed_again keyed p =
    ap
      (λ l.
        archive_created_event m current_document_id ∷ map (lifecycle_event m current_document_id) l)
      (sorted-eq relationship_le relationship-IsOrder relationship-IsSet p
        (IsKeyed-IsDecisive rows keyed))

-- The creation comes first, and then one event for each relationship, by the time of its request and then
-- by its identifier.
pub events_are_in_order :
    (m : ArchiveDocumentMetadata) (current_document_id : String)
    (rows : List LifecycleRelationshipRecord)
    → (ordered : List LifecycleRelationshipRecord) × (build_archive_document_source_events m
          current_document_id rows
        ≡ archive_created_event m current_document_id
          ∷ map (lifecycle_event m current_document_id) ordered)
      × Perm ordered rows
      × IsAscending relationship_le ordered
unfolding build_archive_document_source_events
events_are_in_order m current_document_id rows = (
  sorted relationship_le rows,
  refl,
  sorted-perm relationship_le rows,
  sorted-IsAscending relationship_le relationship-IsOrder rows,
)

All-weaken :
    (t u : ℕ) (events : List SourceEvent)
    → t ≤ u
    → All (λ event. event.occurred_at ≤ t) events
    → All (λ event. event.occurred_at ≤ u) events
All-weaken t u [] le h = tt
All-weaken t u (event ∷ events) le (first, rest) = (omega arith, All-weaken t u events le rest)

-- The latest time of some events is the time of one of them and no less than that of any; without events there is none.
pub latest_event_time_lem :
    (events : List SourceEvent)
    → ((t : ℕ) × (latest_event_time events ≡ some t)
        × All (λ event. event.occurred_at ≤ t) events
        × ((event : SourceEvent) × Mem event events × (event.occurred_at ≡ t)))
      ⊎ ((events ≡ []) × (latest_event_time events ≡ none))
unfolding latest_event_time
latest_event_time_lem [] = inr (refl, refl)
latest_event_time_lem (event ∷ events) = elim (latest_event_time_lem events) [
  | inl (t, latest, below, (last, member, at)) ↦ elim (Bool-cases (ltb t event.occurred_at)) [
    | inl later ↦ inl (
      event.occurred_at,
      rw (latest, later) refl,
      (omega arith, All-weaken t event.occurred_at events (ground arith) below),
      (event, mem-cons_self, refl),
    )
    | inr earlier ↦ inl (
      t,
      rw (latest, earlier) refl,
      (ground arith, below),
      (last, mem-cons_of_mem event member, at),
    )
  ]
  | inr (empty, none_yet) ↦ inl (
    event.occurred_at,
    rw none_yet refl,
    (omega arith, subst (λ l. All (λ e. e.occurred_at ≤ event.occurred_at) l) (sym empty) tt),
    (event, mem-cons_self, refl),
  )
]
