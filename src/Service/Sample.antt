-- ===== src/Service/Sample.antt =====
-- A small archive for the tests and the examples: an object storage that is a function, and texts that
-- stand for the primitives of Python.
use Prim.Native.String.{count}
use text.Mathlib.TextLemmas.{length-append}
use lotus_archive.Prelude.{
  ℕ, zero, suc, String, ◌<>◌, ◌≡◌, ◌≢◌, refl, sym, ap, ◌∙◌, Bool, true, false, Option, none, some,
  [], ◌∷◌, arith, ◌==◌, string_eq, string_discrete, if◌then◌else◌,
}
use lotus_archive.Prelude.Dict
use lotus_archive.Samples.{date, document}
use lotus_archive.Errors.{Result, ok, err, storage_read_failed}
use lotus_archive.Environment.{Environment, ObjectStorage, Bytes}
use lotus_archive.Models.{ArchiveDocumentMetadata}
use lotus_archive.Audit.{CallerContext}
use lotus_archive.Authorization.Policy.{default_policy}
use lotus_archive.Repository.State.{Repository, empty, save, get_by_document_ids}
use lotus_archive.Repository.Invariant.{IsConsistent}
use lotus_archive.Repository.Preservation.{IsConsistent-empty, save-IsConsistent}
use lotus_archive.Service.World.{World}
use lotus_archive.Service.Reads.{BatchLookup}
use lotus_archive.Service.Safety.{IsSafe, AreDistinct}
use lotus_archive.Service.Destruction.{Deletes}

abbrev read : Option Bytes → Result Bytes
read none = err storage_read_failed
read (some c) = ok c

abbrev pub storage : ObjectStorage
storage = record {
  State = String → Option Bytes;
  put = λ key content checksum algorithm s. (
    ok (record {
      provider = "memory";
      namespace = "test";
      key = key;
      checksum_algorithm = algorithm;
      checksum = checksum;
      size_bytes = 2;
    }),
    λ k. if k == key then some content else s k,
  );
  get = λ key s. read (s key);
  delete = λ key s. (ok tt, λ k. if k == key then none else s k);
}

unfoldable pub letters : ℕ → String
letters zero = ""
letters (suc n) = "a" <> letters n

abbrev pub env : Environment
env = record {
  authorization_policy = default_policy;
  max_decoded_document_bytes = 1000;
  storage = storage;
  casefold = λ s. s;
  lower = λ s. s;
  sha256 = λ content. "00";
  b64decode = λ s. some (1 ∷ 2 ∷ []);
  is_bounded_xlsx = λ content. true;
  uuid4_hex = letters;
  utc_now = λ n. n;
  today = λ n. date 2032 1 1;
}

count-letters : (n : ℕ) → count (letters n) ≡ n
unfolding letters
count-letters zero = refl
count-letters (suc n) = omega (arith, length-append "a" (letters n), count-letters n)

pub env-AreDistinct : AreDistinct env
env-AreDistinct m n e = sym (count-letters m) ∙ ap count e ∙ count-letters n

pub env-Deletes : Deletes env
env-Deletes key s h = ground arith

abbrev pub caller : CallerContext
caller = record {
  caller_service = "lotus-report";
  actor_type = "user";
  actor_id = "u1";
  correlation_id = "c1";
  tenant_id = some "bank";
  region = some "SG";
}

abbrev pub outsider : CallerContext
outsider = record caller { caller_service = "lotus-idea" }

abbrev pub gateway : CallerContext
gateway = record caller { caller_service = "lotus-gateway" }

abbrev pub batch_lookup : BatchLookup
batch_lookup = λ ids r. ok (get_by_document_ids ids r, [])

abbrev pub doc : ArchiveDocumentMetadata
doc = document "req_1" "doc_1"

-- the repository with one document, and the storage with its bytes
abbrev pub repository : Repository
repository = record {
  by_document_id = ("doc_1", doc) ∷ [];
  by_archive_request_id = ("req_1", "doc_1") ∷ [];
  legal_holds = [];
  lifecycle_relationships = [];
}

abbrev pub content : Bytes
content = 1 ∷ 2 ∷ []

abbrev pub objects : String → Option Bytes
objects key = if key == "doc_1" then some content else none

abbrev pub world : World env
world = record { repository = repository; objects = objects; events = []; draws = 0 }

repository-IsConsistent : IsConsistent repository
unfolding save Dict.insert Dict.lookup string_discrete
repository-IsConsistent = save-IsConsistent doc empty IsConsistent-empty (ground arith) (λ e. cc)

chosen-nonempty : (b : Bool) (v : String) → v ≡ "doc_1" → (if b then some v else none) ≢ some ""
chosen-nonempty true v p e = cc
chosen-nonempty false v p e = cc

index-nonempty : (q : String) → Dict.lookup q repository.by_archive_request_id ≢ some ""
unfolding Dict.lookup
index-nonempty q e = chosen-nonempty (q == "req_1") "doc_1" refl e

pub world-IsSafe : IsSafe env world
unfolding Dict.lookup string_discrete
world-IsSafe = record {
  consistent = repository-IsConsistent;
  nonempty = index-nonempty;
  unused = λ n le. refl;
}
