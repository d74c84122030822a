-- ===== src/Http/Responses.antt =====
-- The responses against the table of error codes in `wiki/API-Surface.md`.
use lotus_archive.Prelude.{
  ℕ, String, ◌≡◌, Bool, true, false, some, [], ◌∷◌, ◌++◌, ◌==◌, ◌⊎◌, string_eq, if◌then◌else◌,
}
use lotus_archive.Prelude.Dict
use lotus_archive.Prelude.Dict.{Dict}
use lotus_archive.Errors.{Error}
use lotus_archive.Errors
use lotus_archive.Http.Errors.{ErrorResponse, safe_message}

-- the column "when" of the table, and the four occasions that it does not list
pub data Occasion : Type 0 where
  archive_request_invalid caller_header_absent scope_header_absent caller_not_permitted
        binary_purged outside_tenant :
      Occasion
  unknown_document object_absent unknown_hold request_reused stored_bytes_differ held : Occasion
  destruction_begun retention_not_elapsed chain_conflict transition_unsupported decision_key_reused
        document_undecidable configuration_unusable :
      Occasion
  declared_digest_differs artifact_in_custody history_changed unhandled : Occasion

-- the rows of the table for exceptions: the code, its status and when it is answered
abbrev pub documented_codes : Dict (ℕ × Occasion)
documented_codes =
    ("metadata_validation_failed", (400, Occasion.archive_request_invalid))
    ∷ ("caller_context_missing", (401, Occasion.caller_header_absent))
    ∷ ("caller_scope_missing", (401, Occasion.scope_header_absent))
    ∷ ("authorization_failed", (403, Occasion.caller_not_permitted))
    ∷ ("document_purged", (403, Occasion.binary_purged))
    ∷ ("lifecycle_decision_tenant_forbidden", (403, Occasion.outside_tenant))
    ∷ ("document_not_found", (404, Occasion.unknown_document))
    ∷ ("document_binary_missing", (404, Occasion.object_absent))
    ∷ ("legal_hold_not_found", (404, Occasion.unknown_hold))
    ∷ ("duplicate_archive_request", (409, Occasion.request_reused))
    ∷ ("document_checksum_mismatch", (409, Occasion.stored_bytes_differ))
    ∷ ("legal_hold_active", (409, Occasion.held))
    ∷ ("purge_already_started", (409, Occasion.destruction_begun))
    ∷ ("purge_not_eligible", (409, Occasion.retention_not_elapsed))
    ∷ ("supersession_conflict", (409, Occasion.chain_conflict))
    ∷ ("unsupported_lifecycle_transition", (409, Occasion.transition_unsupported))
    ∷ ("lifecycle_decision_idempotency_conflict", (409, Occasion.decision_key_reused))
    ∷ ("lifecycle_decision_document_invalid", (422, Occasion.document_undecidable))
    ∷ ("archive_runtime_unavailable", (503, Occasion.configuration_unusable))
    ∷ []

-- the codes that the table leaves out
abbrev pub other_codes : Dict (ℕ × Occasion)
other_codes =
    ("declared_checksum_mismatch", (422, Occasion.declared_digest_differs))
    ∷ ("artifact_identity_collision", (409, Occasion.artifact_in_custody))
    ∷ ("historical_integrity_violation", (409, Occasion.history_changed))
    ∷ ("internal_error", (500, Occasion.unhandled))
    ∷ []

-- the occasion that an exception is raised on
unfoldable pub occasion : Error → Occasion
occasion (Errors.authorization_failed reason_code) =
    if reason_code == "document_purged"
    then Occasion.binary_purged
    else Occasion.caller_not_permitted
occasion (Errors.metadata_validation _) = Occasion.archive_request_invalid
occasion (Errors.caller_context_missing _) = Occasion.caller_header_absent
occasion (Errors.caller_scope_missing _) = Occasion.scope_header_absent
occasion (Errors.lifecycle_decision_tenant _) = Occasion.outside_tenant
occasion (Errors.document_not_found _) = Occasion.unknown_document
occasion Errors.storage_read_failed = Occasion.object_absent
occasion Errors.legal_hold_not_found = Occasion.unknown_hold
occasion (Errors.duplicate_archive_request _) = Occasion.request_reused
occasion Errors.document_checksum_mismatch = Occasion.stored_bytes_differ
occasion Errors.legal_hold_active = Occasion.held
occasion Errors.purge_already_started = Occasion.destruction_begun
occasion Errors.purge_not_eligible = Occasion.retention_not_elapsed
occasion (Errors.supersession_conflict _) = Occasion.chain_conflict
occasion (Errors.unsupported_lifecycle_transition _) = Occasion.transition_unsupported
occasion Errors.lifecycle_decision_conflict = Occasion.decision_key_reused
occasion (Errors.lifecycle_decision_document _) = Occasion.document_undecidable
occasion (Errors.runtime_configuration _) = Occasion.configuration_unusable
occasion (Errors.declared_checksum_mismatch _ _) = Occasion.declared_digest_differs
occasion (Errors.artifact_identity_collision _ _ _) = Occasion.artifact_in_custody
occasion Errors.historical_integrity = Occasion.history_changed
occasion _ = Occasion.unhandled

-- the two refusals that name what the caller sent and what the archive has
abbrev pub names_artifacts : Error → Bool
names_artifacts (Errors.declared_checksum_mismatch _ _) = true
names_artifacts (Errors.artifact_identity_collision _ _ _) = true
names_artifacts _ = false

module _ (service correlation_id : String) where
  -- The table has the code with the status of the response and the occasion of the exception, and the message is
  -- the fixed one of the code unless the exception names artifacts.
  pub record IsSupportSafe (e : Error) (r : ErrorResponse) : Type 0 where
    pub row :
        Dict.lookup r.error.code (documented_codes ++ other_codes) ≡ some (r.status, occasion e)
    pub message : (names_artifacts e ≡ true) ⊎ (r.error.message ≡ safe_message r.error.code)
    pub named : (r.error.service ≡ service) × (r.error.correlation_id ≡ correlation_id)
