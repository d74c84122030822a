-- ===== src/Service/Walk/Writer.antt =====
-- Archiving a document keeps what its steps keep.
use Prim.Native.String.{count}
use text.Mathlib.TextLemmas.{length-append}
use lotus_archive.Prelude.{ap, ℕ, suc, String, ◌<>◌, ◌≢◌, Option, none, some, arith}
use lotus_archive.Errors.{Error}
use lotus_archive.Exec.{raise, ◌>>=◌, ◌>>◌}
use lotus_archive.Exec.Moves.{Moves, Moves-try_except}
use lotus_archive.Environment.{Environment, Bytes, StoredObject}
use lotus_archive.Models.{ArchiveDocumentInput, ArchiveDocumentMetadata}
use lotus_archive.Audit.{CallerContext}
use lotus_archive.Service.World.{World, Archive, new_id, storage_try}
use lotus_archive.Service.Walk.{IsKept, walk_rules, Moves-save}
use lotus_archive.Service.Walk.Access.{
  Moves-record_allowed, Moves-authorize, Moves-authorize_document_tenant_scope,
}
use lotus_archive.Checksum.{sha256_name}
use lotus_archive.Repository.Invariant.{RowIsSound}
use lotus_archive.Service.Writer.{
  new_document, save_document, store_document, replay_or_store, archive_document,
  authorize_submission, create_document,
}

minted-nonempty : (hex : String) → "doc_" <> hex ≢ ""
minted-nonempty hex e = omega (arith, length-append "doc_" hex, ap count e)

new_document-RowIsSound :
    (d : ArchiveDocumentInput) (i : String) (o : StoredObject) (now : ℕ)
    → RowIsSound 0 (record (new_document d i o now) { checksum_algorithm = sha256_name })
new_document-RowIsSound d i o now = ground arith

module _ (env : Environment) {R : World env → World env → Type 0} (K : IsKept env R) where
  Moves-save_document :
      (d : ArchiveDocumentInput) (i : String) (o : StoredObject) (now : ℕ)
      → i ≢ ""
      → Moves R (save_document env d i o now)
  unfolding save_document
  Moves-save_document d i o now h = search (walk_rules, Moves-save, new_document-RowIsSound)

  -- what is stored under a minted identifier
  Moves-new_id_then :
      {A : Type 0} (prefix : String) (f : String → Archive env A)
      → ((hex : String) → Moves R (f (prefix <> hex)))
      → Moves R (new_id env prefix >>= f)
  unfolding new_id ◌>>=◌
  Moves-new_id_then prefix f h = record {
    at = λ w.
        K.preorder.follows w (record w { draws = suc w.draws })
          (f (prefix <> env.uuid4_hex w.draws) (record w { draws = suc w.draws })).1 (K.drawn w)
          ((h (env.uuid4_hex w.draws)).at (record w { draws = suc w.draws }));
  }

  Moves-delete :
      (key : String) (e : Error)
      → Moves R (storage_try env (env.storage.delete key) >> raise {A = ArchiveDocumentMetadata} e)
  Moves-delete key e = search walk_rules

  Moves-store_document :
      (d : ArchiveDocumentInput) (checksum : String) (content : Bytes)
      → Moves R (store_document env d checksum content)
  unfolding store_document
  Moves-store_document d checksum content = Moves-new_id_then "doc_" _ λ hex.
      search (walk_rules, Moves-try_except, Moves-save_document, minted-nonempty, Moves-delete)
        depth 9

  Moves-replay_or_store :
      (o : Option ArchiveDocumentMetadata) (d : ArchiveDocumentInput) (checksum : String)
      (content : Bytes)
      → Moves R (replay_or_store env o d checksum content)
  unfolding replay_or_store
  Moves-replay_or_store (some existing) d checksum content = search walk_rules
  Moves-replay_or_store none d checksum content = Moves-store_document d checksum content

  Moves-archive_document :
      (d : ArchiveDocumentInput) (content : Bytes) → Moves R (archive_document env d content)
  unfolding archive_document
  Moves-archive_document d content = search (walk_rules, Moves-replay_or_store) depth 10

  Moves-authorize_submission :
      (d : ArchiveDocumentInput) (caller : CallerContext) (trace : String)
      → Moves R (authorize_submission env d caller trace)
  unfolding authorize_submission
  Moves-authorize_submission d caller trace =
      search (walk_rules, Moves-authorize_document_tenant_scope)

  pub Moves-create_document :
      (d : ArchiveDocumentInput) (content_base64 : String) (caller : CallerContext) (trace : String)
      → Moves R (create_document env d content_base64 caller trace)
  unfolding create_document
  Moves-create_document d content_base64 caller trace =
      search
        (
          walk_rules, Moves-authorize, Moves-authorize_submission, Moves-archive_document,
          Moves-record_allowed,
        )
        depth 9
