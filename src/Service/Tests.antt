-- ===== src/Service/Tests.antt =====
-- Runs of the service, and its theorems at concrete data.
use lotus_archive.Prelude.{
  String, ◌≡◌, refl, Bool, true, false, none, some, List, [], ◌∷◌, ◌++◌, ◌==◌, string_eq,
  if◌then◌else◌, string_discrete, option_discrete,
}
use lotus_archive.Prelude.Dict
use native.Mathlib.Decide.{ℕ_discrete}
use lotus_archive.Calendar.{before}
use lotus_archive.Exec.{◌>>=◌, pure, raise, lift, gets, try_except}
use lotus_archive.Errors.{ok, err, authorization_failed, document_not_found}
use lotus_archive.Models.{ArchiveDocumentMetadata, PurgeStatus}
use lotus_archive.Models.Metadata.{LegalHoldStatus-discrete, PurgeStatus-discrete}
use lotus_archive.Audit.{AccessAuditEvent}
use lotus_archive.Authorization.Policy.{ArchivePermission, allowed_callers_for, caller_not_allowed}
use lotus_archive.Authorization.Scope.{
  ArchiveAccessState-discrete, document_scope_decision, document_tenant_scope_decision,
  require_caller_scope,
}
use lotus_archive.Repository.State.{
  get_by_document_ids, found_onto, active_hold_count, get_by_archive_request_id,
}
use lotus_archive.Repository.Purge.{begin_purge, complete_purge, mark_purge_eligible}
use lotus_archive.Repository.Holds.{refresh_legal_hold_summary}
use lotus_archive.Preflight.Disclosure.{visible}
use lotus_archive.Service.World.{
  World, new_id, utc_now, today, repository_call, storage_try, storage_get, record_event,
  append_event,
}
use lotus_archive.Service.Access.{
  authorize, audited_caller_scope, enforce_decision, authorize_document_scope,
  authorize_document_tenant_scope, found, get_existing_metadata, get_authorized_document_metadata,
  get_tenant_authorized_document_metadata,
}
use lotus_archive.Service.Purge.{
  answer, grant_eligibility, effective_date, evaluate_retention, evaluate, refresh, destroy,
  execute_purge, purge_document,
}
use lotus_archive.Service.Reads.{
  get_document_metadata_by_request_id, verify_download, get_document_binary,
  preflight_document_access,
}
use lotus_archive.Checksum.{calculate_checksum}
use lotus_archive.Service.Requests.{Request, perform, serve, set_hold, purge, binary}
use lotus_archive.Service.Trail.{trail_is_append_only}
use lotus_archive.Service.Safety.{IsSafe, serve-IsSafe}
use lotus_archive.Service.Denial.{
  of_purge, after_denial, denied_event, outsiders_change_nothing, request_lookup_tells_outsiders,
}
use lotus_archive.Service.Custody.{IsVerified, download-IsVerified}
use lotus_archive.Service.Destruction.{IsDestroyed, answered_purges_destroy}
use lotus_archive.Service.Blind.{preflight_reveals_nothing}
use lotus_archive.Service.Sample.{
  env, env-AreDistinct, env-Deletes, caller, outsider, gateway, batch_lookup, doc, world,
  world-IsSafe, content,
}

-- a hold, a purge that it forbids, and a download
abbrev requests : List Request
requests =
    record {
      operation =
          set_hold "doc_1" (record { hold_reason = "litigation"; authority_reference = "case" });
      caller = caller;
      trace_id = "t1";
    }
    ∷ record { operation = purge "doc_1" none; caller = caller; trace_id = "t2" }
    ∷ record { operation = binary "doc_1"; caller = caller; trace_id = "t3" }
    ∷ []

trail_is_append_only_example :
    (more : List AccessAuditEvent) × ((serve env batch_lookup requests world).events ≡ [] ++ more)
trail_is_append_only_example = trail_is_append_only env batch_lookup requests world

serve-IsSafe_example : IsSafe env (serve env batch_lookup requests world)
serve-IsSafe_example = serve-IsSafe env env-AreDistinct batch_lookup requests world world-IsSafe

outsiders_change_nothing_example :
    perform env batch_lookup (purge "doc_1" none) outsider "t" world ≡ (
      err (authorization_failed "execute_purge_caller_not_allowed"),
      after_denial env
          (denied_event env outsider "t" "execute_purge_caller_not_allowed" (some "doc_1") world)
          world,
    )
unfolding caller_not_allowed allowed_callers_for string_discrete
outsiders_change_nothing_example =
    outsiders_change_nothing env batch_lookup (purge "doc_1" none) ArchivePermission.execute_purge
      (some "doc_1") outsider "t" of_purge refl world

-- the read by request of a known and of an unknown request, for a caller outside the policy
request_lookup_tells_outsiders_example :
    (get_by_archive_request_id "req_9" world.repository ≡ ok none
      → get_document_metadata_by_request_id env "req_9" outsider "t" world
        ≡ (err (document_not_found "document_not_found"), world))
    × ((m : ArchiveDocumentMetadata)
        → get_by_archive_request_id "req_9" world.repository ≡ ok (some m)
        → get_document_metadata_by_request_id env "req_9" outsider "t" world ≡ (
          err (authorization_failed "read_metadata_caller_not_allowed"),
          after_denial env
              (denied_event env outsider "t" "read_metadata_caller_not_allowed"
                (some m.document_id)
                world)
              world,
        ))
unfolding allowed_callers_for string_discrete
request_lookup_tells_outsiders_example =
    request_lookup_tells_outsiders env "req_9" outsider "t" world refl

download : (get_document_binary env "doc_1" caller "t" world).0 ≡ ok (doc, content)
unfolding get_document_binary verify_download calculate_checksum ◌>>=◌ pure raise lift gets
    try_except new_id utc_now today repository_call storage_try storage_get record_event
    append_event authorize audited_caller_scope enforce_decision authorize_document_scope
    authorize_document_tenant_scope found get_existing_metadata get_authorized_document_metadata
    get_tenant_authorized_document_metadata allowed_callers_for document_scope_decision
    document_tenant_scope_decision require_caller_scope string_discrete ArchiveAccessState-discrete
    PurgeStatus-discrete LegalHoldStatus-discrete Dict.lookup Dict.insert Dict.count_where
    active_hold_count option_discrete
download = refl

download-IsVerified_example :
    IsVerified env "doc_1" caller
      (doc, content)
      (get_document_binary env "doc_1" caller "t" world).1
download-IsVerified_example =
    download-IsVerified env "doc_1" caller "t" world (doc, content) download

abbrev purged_doc : ArchiveDocumentMetadata
purged_doc = record doc {
  purge_status = PurgeStatus.purged;
  purge_eligible_at = some 2;
  purge_started_at = some 4;
  purged_at = some 5;
  updated_at = 6;
}

purge_run : (purge_document env "doc_1" caller "t" none world).0 ≡ ok (purged_doc, "purged")
unfolding purge_document answer grant_eligibility effective_date evaluate_retention evaluate refresh
    destroy execute_purge begin_purge complete_purge mark_purge_eligible refresh_legal_hold_summary
    ◌>>=◌ pure raise lift gets try_except new_id utc_now today repository_call storage_try
    storage_get record_event append_event authorize audited_caller_scope enforce_decision
    authorize_document_scope authorize_document_tenant_scope found get_existing_metadata
    get_authorized_document_metadata get_tenant_authorized_document_metadata allowed_callers_for
    document_scope_decision document_tenant_scope_decision require_caller_scope string_discrete
    ArchiveAccessState-discrete PurgeStatus-discrete LegalHoldStatus-discrete Dict.lookup
    Dict.insert Dict.count_where active_hold_count option_discrete ℕ_discrete before
purge_run = refl

answered_purges_destroy_example :
    IsDestroyed env "doc_1"
      (purged_doc, "purged")
      (purge_document env "doc_1" caller "t" none world).1
    × (active_hold_count "doc_1" (purge_document env "doc_1" caller "t" none world).1.repository
        ≡ 0)
answered_purges_destroy_example =
    answered_purges_destroy env env-AreDistinct env-Deletes "doc_1" caller "t" none world
      world-IsSafe (purged_doc, "purged") purge_run

-- an archive that holds, besides, a document of another bank
abbrev foreign : ArchiveDocumentMetadata
foreign = record doc { input = record doc.input { tenant_id = "other" }; document_id = "doc_2" }

abbrev larger : World env
larger = record world {
  repository = record world.repository {
    by_document_id = ("doc_2", foreign) ∷ ("doc_1", doc) ∷ [];
  };
}

abbrev asked : List String
asked = "doc_1" ∷ "doc_2" ∷ []

-- whichever comparisons hold
chosen_alike :
    (b c : Bool)
    → visible env.casefold gateway (if b then some doc else none)
      ≡ visible env.casefold gateway (if b then some doc else if c then some foreign else none)
unfolding string_discrete option_discrete
chosen_alike true c = refl
chosen_alike false true = refl
chosen_alike false false = refl

same_seen :
    (i : String)
    → visible env.casefold gateway (Dict.lookup i (("doc_1", doc) ∷ []))
      ≡ visible env.casefold gateway (Dict.lookup i (("doc_1", doc) ∷ ("doc_2", foreign) ∷ []))
unfolding Dict.lookup string_discrete option_discrete
same_seen i = chosen_alike (i == "doc_1") (i == "doc_2")

preflight_reveals_nothing_example :
    (preflight_document_access env batch_lookup asked gateway "t" world).0
    ≡ (preflight_document_access env batch_lookup asked gateway "t" larger).0
unfolding get_by_document_ids found_onto Dict.lookup Dict.insert string_discrete option_discrete
preflight_reveals_nothing_example =
    preflight_reveals_nothing env batch_lookup asked gateway "t" "t" world larger
      (("doc_1", doc) ∷ []) (("doc_1", doc) ∷ ("doc_2", foreign) ∷ []) [] refl refl same_seen
