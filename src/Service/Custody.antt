-- ===== src/Service/Custody.antt =====
-- `get_document_binary`: what a download that is answered has been checked for.
use lotus_archive.Prelude.{ℕ, String, ◌≡◌, ◌≢◌, true, Option, List, arith, ◌==◌, string_eq}
use lotus_archive.Errors
use lotus_archive.Errors.{Error, Result, ok, err}
use lotus_archive.Exec.{◌>>=◌}
use lotus_archive.Exec.Ensures.{
  Ensures, Ensures-pure, Ensures-raise, Ensures-lift, Ensures-if, Ensures-bind, Ensures-then_raise,
  Ensures-try_except,
}
use lotus_archive.Environment.{Environment, Bytes}
use lotus_archive.Models.{ArchiveDocumentMetadata, PurgeStatus}
use lotus_archive.Audit.{AccessAuditEvent, AccessEventType, CallerContext}
use lotus_archive.Authorization.Policy.{ArchivePermission}
use lotus_archive.Service.World.{World, storage_get, record_event, new_id, utc_now, append_event}
use lotus_archive.Service.Access.{record_allowed}
use lotus_archive.Checksum.{calculate_checksum}
use lotus_archive.Service.Reads.{read_failed, verify_download, get_document_binary}
use lotus_archive.Service.Scope.{IsAuthorized, document_access-Ensures}

module _ (env : Environment) where
  -- An audit record leaves the repository and the objects alone.
  pub record_allowed-Ensures :
      {P : World env → Type 0} (event_type : AccessEventType) (caller : CallerContext)
      (trace i : String) (operation : Option String)
      → ((w : World env) (events : List AccessAuditEvent) (draws : ℕ)
          → P w
          → P (record w { events = events; draws = draws }))
      → Ensures P (record_allowed env event_type caller trace i operation) (λ _. P)
  unfolding record_event ◌>>=◌ new_id utc_now append_event
  record_allowed-Ensures event_type caller trace i operation keeps = record {
    holds = λ w p a e. keeps w _ _ p;
  }

  storage_get-Ensures :
      {P : World env → Type 0} (key : String)
      → Ensures P (storage_get env key) (λ c w. P w × (env.storage.get key w.objects ≡ ok c))
  unfolding storage_get
  storage_get-Ensures key = record { holds = λ w p a e. (p, e) }

  module _ (caller : CallerContext) (trace i : String) where
    read_failed-Ensures :
        {P : World env → Type 0} {Q : Bytes → World env → Type 0} (e : Error)
        → Ensures P (read_failed env caller trace i e) Q
    unfolding read_failed
    read_failed-Ensures Errors.storage_read_failed = Ensures-then_raise _ _
    read_failed-Ensures _ = Ensures-raise _

  pub calculated :
      (c : Bytes) (algorithm a : String)
      → calculate_checksum env.lower env.sha256 c algorithm ≡ ok a
      → env.sha256 c ≡ a
  unfolding calculate_checksum
  calculated c algorithm a h = ground arith

  -- What was answered: the stored document, authorized and not purged, and the stored bytes, whose
  -- SHA-256 is the checksum that was recorded at the archive's admission.
  pub record IsVerified (i : String) (caller : CallerContext)
      (answer : ArchiveDocumentMetadata × Bytes) (w : World env) : Type 0 where
    pub authorized : IsAuthorized env caller ArchivePermission.download_binary i answer.0 w
    pub unpurged : answer.0.purge_status ≢ PurgeStatus.purged
    pub read : env.storage.get answer.0.storage_key w.objects ≡ ok answer.1
    pub matches : env.sha256 answer.1 ≡ answer.0.checksum

  verify_download-Ensures :
      (m : ArchiveDocumentMetadata) (c : Bytes) (checksum : String) (caller : CallerContext)
      (trace i : String)
      → Ensures
          (λ w.
            IsAuthorized env caller ArchivePermission.download_binary i m w
            × (m.purge_status ≢ PurgeStatus.purged)
            × (env.storage.get m.storage_key w.objects ≡ ok c)
            × (env.sha256 c ≡ checksum))
          (verify_download env m c checksum caller trace i)
          (IsVerified i caller)
  unfolding verify_download
  verify_download-Ensures m c checksum caller trace i =
      Ensures-if _ _ _
        (λ (same : (checksum == m.checksum) ≡ true).
          Ensures-bind _ _ _
            (record_allowed-Ensures _ _ _ _ _ λ w events draws h. (
              record { permitted = h.0.permitted; stored = h.0.stored; in_scope = h.0.in_scope },
              h.1,
              h.2,
              h.3,
            ))
            (λ _. Ensures-pure _ λ w h. record {
              authorized = h.0;
              unpurged = h.1;
              read = h.2;
              matches = ground (arith, h.3);
            }))
        (λ _. Ensures-then_raise _ _)

  get_document_binary-Ensures :
      (i : String) (caller : CallerContext) (trace : String)
      → Ensures (λ w. Unit {0}) (get_document_binary env i caller trace) (IsVerified i caller)
  unfolding get_document_binary
  get_document_binary-Ensures i caller trace =
      Ensures-bind _ _ _
        (document_access-Ensures env caller trace {P = λ w. Unit {0}} i
          ArchivePermission.download_binary)
        λ m.
          Ensures-bind _ _ _
            (Ensures-try_except _ _ (storage_get-Ensures m.storage_key)
              (λ e. read_failed-Ensures caller trace i e))
            λ c.
              Ensures-bind
                (λ checksum w.
                  IsAuthorized env caller ArchivePermission.download_binary i m w
                  × (m.purge_status ≢ PurgeStatus.purged)
                  × (env.storage.get m.storage_key w.objects ≡ ok c)
                  × (env.sha256 c ≡ checksum))
                _ _
                (Ensures-lift _
                  λ a w e h. (h.0.1, h.0.2, h.1, calculated c m.checksum_algorithm a e))
                λ checksum. verify_download-Ensures m c checksum caller trace i

  -- A download that is answered gives the bytes that stand in the storage under the document's key; the
  -- document is stored under the requested identifier, is not purged, has the caller's tenant and region, the
  -- policy allows the caller to read, and the SHA-256 of the bytes is the document's checksum.
  pub download-IsVerified :
      (i : String) (caller : CallerContext) (trace : String) (w : World env)
      (answer : ArchiveDocumentMetadata × Bytes)
      → (get_document_binary env i caller trace w).0 ≡ ok answer
      → IsVerified i caller answer (get_document_binary env i caller trace w).1
  download-IsVerified i caller trace w answer e =
      (get_document_binary-Ensures i caller trace).holds w tt answer e
