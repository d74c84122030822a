-- ===== src/Service/ResolutionTests.antt =====
-- The theorems on superseding documents at concrete data.
use lotus_archive.Prelude.{◌≡◌, ◌≢◌, refl, none, some, [], ◌∷◌, string_discrete, option_discrete}
use lotus_archive.Prelude.Dict
use native.Mathlib.Decide.{ℕ_discrete}
use lotus_archive.Errors.{ok, err, out_of_fuel}
use lotus_archive.Exec.{◌>>=◌, pure, raise, lift, gets}
use lotus_archive.Models.{ArchiveDocumentMetadata}
use lotus_archive.Models.Metadata.{PurgeStatus-discrete}
use lotus_archive.Samples.{document}
use lotus_archive.Authorization.Policy.{allowed_callers_for}
use lotus_archive.Authorization.Scope.{
  ArchiveAccessState-discrete, document_scope_decision, document_tenant_scope_decision,
  require_caller_scope,
}
use lotus_archive.Repository.State.{get_by_document_id}
use lotus_archive.Service.World.{World, new_id, utc_now, record_event, append_event}
use lotus_archive.Service.Access.{
  authorize, audited_caller_scope, enforce_decision, authorize_document_scope,
  authorize_document_tenant_scope, found, get_existing_metadata, get_authorized_document_metadata,
}
use lotus_archive.Service.Lifecycle.{
  follow, resolve_current_document, get_current_document_metadata,
}
use lotus_archive.Service.Resolution.{Follows, resolution_ends, current_versions_have_no_successor}
use lotus_archive.Service.Sample.{env, caller, world}

abbrev first : ArchiveDocumentMetadata
first = record (document "req_1" "doc_1") { superseded_by_document_id = some "doc_2" }

abbrev second : ArchiveDocumentMetadata
second = record (document "req_2" "doc_2") { supersedes_document_id = some "doc_1" }

abbrev chained : World env
chained = record world {
  repository = record world.repository {
    by_document_id = ("doc_1", first) ∷ ("doc_2", second) ∷ [];
  };
}

-- two documents that point to one another
abbrev circular : World env
circular = record world {
  repository = record world.repository {
    by_document_id =
        ("doc_1", first)
        ∷ ("doc_2", record second { superseded_by_document_id = some "doc_1" })
        ∷ [];
  };
}

resolution_ends_example :
    (resolve_current_document env first caller "t" circular).0 ≢ err out_of_fuel
resolution_ends_example = resolution_ends env first caller "t" circular

current_run : (get_current_document_metadata env "doc_1" caller "t" chained).0 ≡ ok second
unfolding get_current_document_metadata resolve_current_document follow ◌>>=◌ pure raise lift gets
    new_id utc_now record_event append_event authorize audited_caller_scope enforce_decision
    authorize_document_scope authorize_document_tenant_scope found get_existing_metadata
    get_authorized_document_metadata allowed_callers_for document_scope_decision
    document_tenant_scope_decision require_caller_scope string_discrete option_discrete
    ArchiveAccessState-discrete PurgeStatus-discrete Dict.lookup ℕ_discrete
current_run = refl

current_versions_have_no_successor_example :
    ((m : ArchiveDocumentMetadata) × (get_by_document_id "doc_1" chained.repository ≡ some m)
      × Follows env.casefold caller chained.repository m second)
    × (second.superseded_by_document_id ≡ none)
current_versions_have_no_successor_example =
    current_versions_have_no_successor env "doc_1" caller "t" chained second current_run
