-- ===== src/Http/Errors.antt =====
-- The response to each exception: `archive/error_handlers.py` with `contracts/errors.py`. An exception without
-- a handler of its own is answered by `unhandled_exception_handler` of `main.py`.
use lotus_archive.Prelude.{
  ℕ, String, ◌<>◌, Option, none, some, get_or, ◌==◌, string_eq, if◌then◌else◌,
}
use lotus_archive.Prelude.Dict
use lotus_archive.Prelude.Dict.{Dict}
use lotus_archive.Prelude.{[], ◌∷◌}
use lotus_archive.Errors.{Error}
use lotus_archive.Errors

pub record ErrorDetail : Type 0 where
  pub code : String
  pub message : String
  pub correlation_id : String
  pub service : String

-- a JSON response: its status, and the `error` of its envelope
pub record ErrorResponse : Type 0 where
  pub status : ℕ
  pub error : ErrorDetail

-- SAFE_ERROR_MESSAGES
abbrev pub safe_error_messages : Dict String
safe_error_messages =
    ("not_found", "The requested resource was not found.")
    ∷ ("validation_failed", "The request could not be validated.")
    ∷ ("internal_error", "The request could not be completed.")
    ∷ ("caller_context_missing", "Required caller context is missing.")
    ∷ ("authorization_failed", "The caller is not authorized for this archive action.")
    ∷ ("document_not_found", "The requested archived document was not found.")
    ∷ ("document_binary_missing", "The archived document binary could not be found.")
    ∷ ("document_purged", "The archived document binary was purged under its retention lifecycle.")
    ∷ ("document_checksum_mismatch", "The archived document failed integrity verification.")
    ∷ (
      "declared_checksum_mismatch",
      "The declared artifact checksum does not match the received bytes; custody refused.",
    )
    ∷ (
      "artifact_identity_collision",
      "The exact artifact is already in custody under a different document reference.",
    )
    ∷ (
      "historical_integrity_violation",
      "The write attempted to change immutable archived-document history.",
    )
    ∷ ("duplicate_archive_request", "The archive request conflicts with an existing document.")
    ∷ ("metadata_validation_failed", "The archive metadata could not be validated.")
    ∷ ("storage_read_failed", "The archived document could not be read.")
    ∷ ("legal_hold_active", "A legal hold blocks this archive action.")
    ∷ ("legal_hold_not_found", "The requested legal hold was not found.")
    ∷ ("purge_not_eligible", "The archived document is not eligible for purge.")
    ∷ (
      "supersession_conflict",
      "The requested lifecycle relationship conflicts with document history.",
    )
    ∷ ("unsupported_lifecycle_transition", "The requested lifecycle transition is not supported.")
    ∷ []

-- `message or default`
unfoldable pub or_default : Option String → String → String
or_default none default = default
or_default (some message) default = if message == "" then default else message

abbrev pub safe_message : String → String
safe_message code =
    get_or (Dict.lookup code safe_error_messages) "The request could not be completed."

module _ (service correlation_id : String) where
  unfoldable pub error_response :
      (code : String) (http_status : ℕ) (message : Option String) → ErrorResponse
  unfolding or_default
  error_response code http_status message = record {
    status = http_status;
    error = record {
      code = code;
      message = or_default message (safe_message code);
      correlation_id = correlation_id;
      service = service;
    };
  }

  abbrev authorization_code : String → String
  authorization_code reason_code =
      if reason_code == "document_purged" then "document_purged" else "authorization_failed"

  -- the handlers of `register_archive_exception_handlers`, and of every other exception
  unfoldable pub respond : Error → ErrorResponse
  unfolding error_response
  respond (Errors.caller_context_missing _) = error_response "caller_context_missing" 401 none
  respond (Errors.caller_scope_missing _) = error_response "caller_scope_missing" 401 none
  respond (Errors.authorization_failed reason_code) =
      error_response (authorization_code reason_code) 403 none
  respond (Errors.lifecycle_decision_tenant _) =
      error_response "lifecycle_decision_tenant_forbidden" 403 none
  respond Errors.lifecycle_decision_conflict =
      error_response "lifecycle_decision_idempotency_conflict" 409 none
  respond (Errors.lifecycle_decision_document _) =
      error_response "lifecycle_decision_document_invalid" 422 none
  respond (Errors.document_not_found _) = error_response "document_not_found" 404 none
  respond Errors.storage_read_failed = error_response "document_binary_missing" 404 none
  respond Errors.historical_integrity = error_response "historical_integrity_violation" 409 none
  respond (Errors.declared_checksum_mismatch declared computed) =
      error_response "declared_checksum_mismatch" 422 (
        some
          ("declared artifact sha256 " <> (declared <> (" does not match computed " <> computed))))
  respond (Errors.artifact_identity_collision checksum existing offered) =
      error_response "artifact_identity_collision" 409 (
        some (
          "artifact "
          <> (checksum
              <> (" is already in custody under document reference "
                  <> (existing <> ("; refusing re-custody under " <> offered))))))
  respond Errors.document_checksum_mismatch = error_response "document_checksum_mismatch" 409 none
  respond (Errors.duplicate_archive_request _) = error_response "duplicate_archive_request" 409 none
  respond (Errors.metadata_validation _) = error_response "metadata_validation_failed" 400 none
  respond (Errors.runtime_configuration _) = error_response "archive_runtime_unavailable" 503 none
  respond Errors.legal_hold_active = error_response "legal_hold_active" 409 none
  respond Errors.legal_hold_not_found = error_response "legal_hold_not_found" 404 none
  respond Errors.purge_already_started = error_response "purge_already_started" 409 none
  respond Errors.purge_not_eligible = error_response "purge_not_eligible" 409 none
  respond (Errors.supersession_conflict _) = error_response "supersession_conflict" 409 none
  respond (Errors.unsupported_lifecycle_transition _) =
      error_response "unsupported_lifecycle_transition" 409 none
  respond _ = error_response "internal_error" 500 none
