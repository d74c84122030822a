-- ===== src/Events/Tests.antt =====
-- The theorems on events at concrete data.
use lotus_archive.Prelude.{
  ℕ, ◌≤◌, String, ◌≡◌, ◌≢◌, sym, ap, some, none, List, [], ◌∷◌, map, All, ◌∙◌, ◌⊎◌, arith,
}
use Prim.Native.String.{count}
use mathlib.Core.List.{Perm, Mem, eq-or-mem_of_mem-cons, not-mem-nil}
use mathlib.Core.Logic.Or
use mathlib.Core.List.Perm
use lotus_archive.Models.{
  LifecycleRelationshipRecord, LifecycleTransitionType, transition_reason_code,
}
use lotus_archive.Samples.{document}
use lotus_archive.Prelude.Sorting.{IsAscending}
use lotus_archive.Events.{
  SourceEvent, archive_created_event, lifecycle_event, relationship_le,
  build_archive_document_source_events, latest_event_time,
}
use lotus_archive.Events.Replay.{
  IsKeyed, relationship-IsSet, replays_do_not_depend_on_the_store, latest_event_time_lem,
  events_are_in_order,
}

abbrev relationship : String → String → LifecycleTransitionType → ℕ → LifecycleRelationshipRecord
relationship id target transition at = record {
  lifecycle_relationship_id = id;
  source_document_id = "doc_1";
  target_document_id = target;
  transition_type = transition;
  transition_reason = "revision";
  transition_reason_code = transition_reason_code transition;
  requested_by = "u1";
  requested_at = at;
}

abbrev early : LifecycleRelationshipRecord
early = relationship "life_1" "doc_2" LifecycleTransitionType.correct 3

abbrev late : LifecycleRelationshipRecord
late = relationship "life_20" "doc_3" LifecycleTransitionType.reissue 3

abbrev rows : List LifecycleRelationshipRecord
rows = late ∷ early ∷ []

apart : early.lifecycle_relationship_id ≢ late.lifecycle_relationship_id
apart e = omega (arith, ap count e)

-- membership in the two rows, towards an equation of rows
among :
    {r a b : LifecycleRelationshipRecord}
    → Mem r rows
    → (r ≡ late → a ≡ b)
    → (r ≡ early → a ≡ b)
    → a ≡ b
among {a = a} {b = b} m f g = Or.elim (relationship-IsSet a b) (eq-or-mem_of_mem-cons m) f (λ n.
    Or.elim (relationship-IsSet a b) (eq-or-mem_of_mem-cons n) g (λ o. absurd (not-mem-nil o)))

rows-IsKeyed : IsKeyed rows
rows-IsKeyed a b m n e =
    among m
      (λ p.
        among n (λ q. p ∙ sym q)
          (λ q. absurd (
            apart (
              sym (ap (λ r. r.lifecycle_relationship_id) q)
              ∙ sym e
              ∙ ap (λ r. r.lifecycle_relationship_id) p))))
      (λ p.
        among n
          (λ q. absurd (
            apart (
              sym (ap (λ r. r.lifecycle_relationship_id) p)
              ∙ e
              ∙ ap (λ r. r.lifecycle_relationship_id) q)))
          (λ q. p ∙ sym q))

replays_do_not_depend_on_the_store_example :
    build_archive_document_source_events (document "r" "doc_1") "doc_3" rows
    ≡ build_archive_document_source_events (document "r" "doc_1") "doc_3" (early ∷ late ∷ [])
replays_do_not_depend_on_the_store_example =
    replays_do_not_depend_on_the_store (document "r" "doc_1") "doc_3" rows (early ∷ late ∷ [])
      rows-IsKeyed (Perm.swap early late [])

abbrev created_only : List SourceEvent
created_only = build_archive_document_source_events (document "r" "doc_1") "doc_1" []

latest_event_time_lem_example :
    ((t : ℕ) × (latest_event_time created_only ≡ some t)
      × All (λ event. event.occurred_at ≤ t) created_only
      × ((event : SourceEvent) × Mem event created_only × (event.occurred_at ≡ t)))
    ⊎ ((created_only ≡ []) × (latest_event_time created_only ≡ none))
latest_event_time_lem_example = latest_event_time_lem created_only

events_are_in_order_example :
    (ordered : List LifecycleRelationshipRecord) × (build_archive_document_source_events
        (document "r" "doc_1")
        "doc_3"
        rows
      ≡ archive_created_event (document "r" "doc_1") "doc_3"
        ∷ map (lifecycle_event (document "r" "doc_1") "doc_3") ordered)
    × Perm ordered rows
    × IsAscending relationship_le ordered
events_are_in_order_example = events_are_in_order (document "r" "doc_1") "doc_3" rows
