-- ===== src/Service/Walk/Requests.antt =====
-- Every request, and every sequence of them, keeps what the steps keep.
use lotus_archive.Prelude.{String, List, [], ◌∷◌}
use lotus_archive.Exec.Moves.{Moves}
use lotus_archive.Environment.{Environment}
use lotus_archive.Audit.{CallerContext}
use lotus_archive.Service.World.{World}
use lotus_archive.Service.Reads.{BatchLookup}
use lotus_archive.Service.Requests.{
  Operation, Request, create, metadata, metadata_by_request, binary, retention, current, posture,
  source_events, access_events, purge_evaluation, purge, set_hold, release_hold, transition,
  preflight, perform, serve,
}
use lotus_archive.Service.Walk.{IsKept, walk_rules}
use lotus_archive.Service.Walk.Purge.{
  Moves-get_lifecycle_posture, Moves-get_retention, Moves-evaluate_purge, Moves-purge_document,
}
use lotus_archive.Service.Walk.Holds.{Moves-set_legal_hold, Moves-release_legal_hold}
use lotus_archive.Service.Walk.Lifecycle.{
  Moves-get_current_document_metadata, Moves-transition_document,
}
use lotus_archive.Service.Walk.Writer.{Moves-create_document}
use lotus_archive.Service.Walk.Reads.{
  Moves-get_document_metadata, Moves-get_document_metadata_by_request_id, Moves-get_document_binary,
  Moves-list_access_events, Moves-list_document_source_events, Moves-preflight_document_access,
}

ruleset method_rules = (
  walk_rules, Moves-create_document, Moves-get_document_metadata,
  Moves-get_document_metadata_by_request_id, Moves-get_document_binary, Moves-get_retention,
  Moves-get_current_document_metadata, Moves-get_lifecycle_posture, Moves-list_access_events,
  Moves-evaluate_purge, Moves-purge_document, Moves-set_legal_hold, Moves-release_legal_hold,
  Moves-transition_document, Moves-list_document_source_events, Moves-preflight_document_access,
)

module _ (env : Environment) (batch_lookup : BatchLookup) {R : World env → World env → Type 0}
    (K : IsKept env R) where
  pub Moves-perform :
      (operation : Operation) (caller : CallerContext) (trace : String)
      → Moves R (perform env batch_lookup operation caller trace)
  unfolding perform
  Moves-perform (create d content) caller trace = search method_rules
  Moves-perform (metadata i) caller trace = search method_rules
  Moves-perform (metadata_by_request q) caller trace = search method_rules
  Moves-perform (binary i) caller trace = search method_rules
  Moves-perform (retention i) caller trace = search method_rules
  Moves-perform (current i) caller trace = search method_rules
  Moves-perform (posture i) caller trace = search method_rules
  Moves-perform (source_events i) caller trace = search method_rules
  Moves-perform (access_events i limit offset) caller trace = search method_rules
  Moves-perform (purge_evaluation i date) caller trace = search method_rules
  Moves-perform (purge i date) caller trace = search method_rules
  Moves-perform (set_hold i command) caller trace = search method_rules
  Moves-perform (release_hold i hold reason) caller trace = search method_rules
  Moves-perform (transition t i command) caller trace = search method_rules
  Moves-perform (preflight ids) caller trace = search method_rules

  pub serve-kept :
      (requests : List Request) (w : World env) → R w (serve env batch_lookup requests w)
  unfolding serve
  serve-kept [] w = K.preorder.stays w
  serve-kept (q ∷ requests) w =
      let after = (perform env batch_lookup q.operation q.caller q.trace_id w).1 in
      K.preorder.follows w after (serve env batch_lookup requests after)
        ((Moves-perform q.operation q.caller q.trace_id).at w) (serve-kept requests after)
