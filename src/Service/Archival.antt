-- ===== src/Service/Archival.antt =====
-- What an answered admission guarantees, from what a storage reports.
use lotus_archive.Prelude.{
  ℕ, String, ◌≡◌, refl, sym, subst, ◌∙◌, Option, none, some, length, arith, string_eq, nat_eq,
}
use lotus_archive.Errors.{ok, metadata_validation}
use lotus_archive.Exec.{raise}
use lotus_archive.Exec.Ensures.{
  Ensures, Ensures-pure, Ensures-raise, Ensures-lift, Ensures-gets, Ensures-if, Ensures-bind,
  Ensures-then_raise, Ensures-try_except,
}
use lotus_archive.Environment.{Environment, ObjectStorage, StoredObject, Bytes}
use lotus_archive.Checksum.{sha256_name}
use lotus_archive.Storage.{FilePath, FileSystem, filesystem_object_storage}
use lotus_archive.Storage.Laws.{IsLawful, put_objects_are_got_back}
use lotus_archive.Models.{ArchiveDocumentInput, ArchiveDocumentMetadata, input_eq, metadata_eq}
use lotus_archive.Repository.State.{Repository, save}
use lotus_archive.Service.World.{World, repository_try, storage_try}
use lotus_archive.Service.Custody.{calculated}
use lotus_archive.Service.Writer.{
  new_document, check_declared, ensure_duplicate_request_is_idempotent, is_valid_object,
  save_document, store_document, replay_or_store, archive_document,
}

-- A storage reports the checksum that it was given to expect, and the size of what it stored.
abbrev pub Reports : ObjectStorage → Type 0
Reports storage =
    (key : String) (content : Bytes) (expected algorithm : String) (s : storage.State)
    (stored : StoredObject)
    → (storage.put key content expected algorithm s).0 ≡ ok stored
    → (stored.checksum ≡ expected) × (stored.size_bytes ≡ length content)

save-answers : (m a : ArchiveDocumentMetadata) (r : Repository) → (save m r).0 ≡ ok a → a ≡ m
unfolding save
save-answers m a r h = ground arith

module _ (env : Environment) where
  -- The document that is kept for a submission: its fields are the submitted ones, its checksum and size are
  -- those of the submitted bytes, and a digest that was declared is their SHA-256.
  pub record IsInCustody (document : ArchiveDocumentInput) (content : Bytes)
      (m : ArchiveDocumentMetadata) : Type 0 where
    pub input : m.input ≡ document
    pub checksum : m.checksum ≡ env.sha256 content
    pub size : m.size_bytes ≡ length content
    pub declared :
        (h : String) → document.declared_artifact_sha256 ≡ some h → h ≡ env.sha256 content

  check_declared-eq-ok :
      (declared : Option String) (checksum : String) (u : Unit {0})
      → check_declared env declared checksum ≡ ok u
      → (h : String) → declared ≡ some h
      → h ≡ checksum
  unfolding check_declared
  check_declared-eq-ok none checksum u e h q = cc
  check_declared-eq-ok (some d) checksum u e h q = ground arith

  -- what the kept document has of the submission
  abbrev Keeps : ArchiveDocumentInput → String → Bytes → ArchiveDocumentMetadata → Type 0
  Keeps document checksum content m =
      (m.input ≡ document) × (m.checksum ≡ checksum) × (m.size_bytes ≡ length content)

  replayed :
      (existing : ArchiveDocumentMetadata) (document : ArchiveDocumentInput) (checksum : String)
      (content : Bytes) (u : Unit {0})
      → ensure_duplicate_request_is_idempotent env existing document checksum content ≡ ok u
      → Keeps document checksum content existing
  unfolding ensure_duplicate_request_is_idempotent
  replayed existing document checksum content u h = (ground arith, ground arith, ground arith)

  saved-Keeps :
      (document : ArchiveDocumentInput) (checksum : String) (content : Bytes)
      (n : ArchiveDocumentMetadata)
      → Keeps document checksum content n
      → Ensures
          (λ w. Unit {0})
          (repository_try env (save n))
          (λ m _. Keeps document checksum content m)
  unfolding repository_try
  saved-Keeps document checksum content n kept = record {
    holds = λ w p m e.
        subst (Keeps document checksum content) (sym (save-answers n m w.repository e)) kept;
  }

  save_document-Keeps :
      (document : ArchiveDocumentInput) (id checksum : String) (content : Bytes)
      (stored : StoredObject) (now : ℕ)
      → (stored.checksum ≡ checksum) × (stored.size_bytes ≡ length content)
      → Ensures
          (λ w. Unit {0})
          (save_document env document id stored now)
          (λ m _. Keeps document checksum content m)
  unfolding save_document
  save_document-Keeps document id checksum content stored now (same, size) =
      let n : ArchiveDocumentMetadata = record (new_document document id stored now) {
        checksum_algorithm = sha256_name;
      } in
      Ensures-if (is_valid_object env stored) (repository_try env (save n))
        (raise (metadata_validation "archive metadata could not be validated"))
        (λ _. saved-Keeps document checksum content n (refl, same, size)) (λ _. Ensures-raise _)

  module _ (reports : Reports env.storage) where
    put-Ensures :
        (key checksum : String) (content : Bytes)
        → Ensures
            (λ w. Unit {0})
            (storage_try env (env.storage.put key content checksum sha256_name))
            (λ stored _. (stored.checksum ≡ checksum) × (stored.size_bytes ≡ length content))
    unfolding storage_try
    put-Ensures key checksum content = record {
      holds = λ w p stored e. reports key content checksum sha256_name w.objects stored e;
    }

    store_document-Keeps :
        (document : ArchiveDocumentInput) (checksum : String) (content : Bytes)
        → Ensures
            (λ w. Unit {0})
            (store_document env document checksum content)
            (λ m _. Keeps document checksum content m)
    unfolding store_document
    store_document-Keeps document checksum content =
        Ensures-bind (λ _ w. Unit {0}) _ _ (record { holds = λ w p a e. tt })
          λ id. Ensures-bind _ _ _ (put-Ensures _ checksum content) λ stored.
            Ensures-bind
              (λ _ _. (stored.checksum ≡ checksum) × (stored.size_bytes ≡ length content)) _ _
              (record { holds = λ w p a e. p })
              λ now. record {
                holds = λ w p m e.
                    (Ensures-try_except (save_document env document id stored now) _
                        (save_document-Keeps document id checksum content stored now p)
                        (λ e. Ensures-then_raise _ _)).holds
                      w tt m e;
              }

    replay_or_store-Keeps :
        (o : Option ArchiveDocumentMetadata) (document : ArchiveDocumentInput) (checksum : String)
        (content : Bytes)
        → Ensures
            (λ w. Unit {0})
            (replay_or_store env o document checksum content)
            (λ m _. Keeps document checksum content m)
    unfolding replay_or_store
    replay_or_store-Keeps none document checksum content =
        store_document-Keeps document checksum content
    replay_or_store-Keeps (some existing) document checksum content =
        Ensures-bind (λ _ _. Keeps document checksum content existing) _ _
          (Ensures-lift _ (λ u w e p. replayed existing document checksum content u e))
          (λ _. Ensures-pure existing (λ w p. p))

    -- the checksum of the bytes, which a declared digest is
    abbrev IsMeasured : ArchiveDocumentInput → Bytes → String → World env → Type 0
    IsMeasured document content checksum w =
        (env.sha256 content ≡ checksum)
        × ((h : String) → document.declared_artifact_sha256 ≡ some h → h ≡ checksum)

    -- every step of an admission that only reads or checks
    archive_document-IsInCustody :
        (document : ArchiveDocumentInput) (content : Bytes)
        → Ensures
            (λ w. Unit {0})
            (archive_document env document content)
            (λ m _. IsInCustody document content m)
    unfolding archive_document
    archive_document-IsInCustody document content =
        Ensures-bind (λ _ _. Unit {0}) _ _ (Ensures-lift _ (λ u w e p. tt))
          λ _.
            Ensures-bind (λ checksum _. env.sha256 content ≡ checksum) _ _
              (Ensures-lift _ (λ checksum w e p. calculated env content sha256_name checksum e))
              λ checksum.
                Ensures-bind (λ _. IsMeasured document content checksum) _ _
                  (Ensures-lift _ (λ u w e p.
                    (p, check_declared-eq-ok document.declared_artifact_sha256 checksum u e)))
                  λ _.
                    Ensures-bind (λ _. IsMeasured document content checksum) _ _
                      (Ensures-gets _ (λ w p. p))
                      λ held.
                        Ensures-bind (λ _. IsMeasured document content checksum) _ _
                          (Ensures-lift _ (λ u w e p. p))
                          λ _.
                            Ensures-bind (λ _. IsMeasured document content checksum) _ _
                              (Ensures-gets _ (λ w p. p))
                              λ lookup.
                                Ensures-bind (λ _. IsMeasured document content checksum) _ _
                                  (Ensures-lift _ (λ u w e p. p))
                                  λ existing. record {
                                    holds = λ w p m e.
                                        let (input, sum, size) =
                                          (replay_or_store-Keeps existing document checksum
                                              content).holds
                                            w tt m e in
                                        record {
                                          input = input;
                                          checksum = sum ∙ sym p.0;
                                          size = size;
                                          declared = λ h q. p.1 h q ∙ sym p.0;
                                        };
                                  }

    -- With a storage that reports the checksum it was given and the size of what it stored, a submission that is answered, whether it was stored now or is the replay of an earlier one, has a document
    -- with exactly the submitted fields, the SHA-256 and the size of the submitted bytes; a digest that the caller declared is
    -- their SHA-256.
    pub admitted_documents_match :
        (document : ArchiveDocumentInput) (content : Bytes) (w : World env)
        (m : ArchiveDocumentMetadata)
        → (archive_document env document content w).0 ≡ ok m
        → IsInCustody document content m
    admitted_documents_match document content w m e =
        (archive_document-IsInCustody document content).holds w tt m e

-- The file storage reports so.
pub filesystem_object_storage-Reports :
    (fs : FileSystem) (lower : String → String) (sha256 : Bytes → String) (root : FilePath)
    (namespace : String)
    → IsLawful fs
    → Reports (filesystem_object_storage fs lower sha256 root namespace)
filesystem_object_storage-Reports fs lower sha256 root namespace lawful key content expected
      algorithm s stored e =
    let done =
      put_objects_are_got_back fs lower sha256 root namespace lawful key content expected algorithm
        s stored e in
    (done.answered.1 ∙ done.checked, done.answered.2)
