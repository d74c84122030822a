-- ===== src/Service/Requests.antt =====
-- The requests that the HTTP API hands to the service, and serving a sequence of them: a request that
-- raises ends by itself, and the next one finds the state that it left.
use lotus_archive.Prelude.{ℕ, String, Option, List, [], ◌∷◌}
use lotus_archive.Calendar.{Date}
use lotus_archive.Exec.{pure, ◌>>◌}
use lotus_archive.Environment.{Environment}
use lotus_archive.Models.{ArchiveDocumentInput, LifecycleTransitionType}
use lotus_archive.Audit.{CallerContext}
use lotus_archive.Service.World.{World, Archive}
use lotus_archive.Service.Purge.{
  get_lifecycle_posture, get_retention, evaluate_purge, purge_document,
}
use lotus_archive.Service.Holds.{LegalHoldCreateCommand, set_legal_hold, release_legal_hold}
use lotus_archive.Service.Lifecycle.{
  LifecycleTransitionCommand, get_current_document_metadata, transition_document,
}
use lotus_archive.Service.Feed.{list_document_source_events}
use lotus_archive.Service.Writer.{create_document}
use lotus_archive.Service.Reads.{
  BatchLookup, get_document_metadata, get_document_metadata_by_request_id, get_document_binary,
  list_access_events, preflight_document_access,
}

pub data Operation : Type 0 where
  create : (document : ArchiveDocumentInput) (content_base64 : String) → Operation
  metadata metadata_by_request binary retention current posture source_events : String → Operation
  access_events : String → (limit : Option ℕ) (offset : ℕ) → Operation
  purge_evaluation purge : String → Option Date → Operation
  set_hold : String → LegalHoldCreateCommand → Operation
  release_hold : (document_id legal_hold_id release_reason : String) → Operation
  transition : LifecycleTransitionType → String → LifecycleTransitionCommand → Operation
  preflight : List String → Operation

pub record Request : Type 0 where
  pub operation : Operation
  pub caller : CallerContext
  pub trace_id : String

module _ (env : Environment) (batch_lookup : BatchLookup) where
  unfoldable pub perform : Operation → CallerContext → String → Archive env (Unit {0})
  perform (create d content) caller trace = create_document env d content caller trace >> pure tt
  perform (metadata i) caller trace = get_document_metadata env i caller trace >> pure tt
  perform (metadata_by_request q) caller trace =
      get_document_metadata_by_request_id env q caller trace >> pure tt
  perform (binary i) caller trace = get_document_binary env i caller trace >> pure tt
  perform (retention i) caller trace = get_retention env i caller trace >> pure tt
  perform (current i) caller trace = get_current_document_metadata env i caller trace >> pure tt
  perform (posture i) caller trace = get_lifecycle_posture env i >> pure tt
  perform (source_events i) caller trace = list_document_source_events env i caller trace >> pure tt
  perform (access_events i limit offset) caller trace =
      list_access_events env i caller trace limit offset >> pure tt
  perform (purge_evaluation i date) caller trace = evaluate_purge env i caller trace date >> pure tt
  perform (purge i date) caller trace = purge_document env i caller trace date >> pure tt
  perform (set_hold i command) caller trace = set_legal_hold env i command caller trace >> pure tt
  perform (release_hold i hold reason) caller trace =
      release_legal_hold env i hold reason caller trace >> pure tt
  perform (transition t i command) caller trace =
      transition_document env t i command caller trace >> pure tt
  perform (preflight ids) caller trace =
      preflight_document_access env batch_lookup ids caller trace >> pure tt

  abbrev pub handle : Request → Archive env (Unit {0})
  handle q = perform q.operation q.caller q.trace_id

  unfoldable pub serve : List Request → World env → World env
  serve [] w = w
  serve (q ∷ requests) w = serve requests (handle q w).1
