-- ===== src/Storage.antt =====
-- `FilesystemObjectStorage` of `archive/storage.py`, over the operations of a file system. A path is the
-- list of its components from the root of the file system on.
pub mod Laws
pub mod Apart
pub mod Sample
mod Tests
use Prim.Native.Char.{Char, code}
use lotus_archive.Prelude.{
  ℕ, String, ◌<>◌, Bool, true, false, not, ◌&&◌, ◌||◌, Option, none, some, List, [], ◌∷◌, ◌++◌,
  length, contains, ◌==◌, string_eq, nat_eq, if◌then◌else◌,
}
use lotus_archive.Prelude.Texts.{split_on}
use lotus_archive.Errors.{
  Error, Result, ok, err, document_checksum_mismatch, storage_read_failed, os_error, or_raise,
}
use lotus_archive.Exec.{Exec, pure, raise, lift, gets, state, ◌>>=◌, ◌>>◌}
use lotus_archive.Checksum.{calculate_checksum}
use lotus_archive.Environment.{Bytes, StoredObject, ObjectStorage}

abbrev pub FilePath : Type 0
FilePath = List String

-- the calls of `pathlib` that reach the operating system; any of them may fail
pub record FileSystem : Type 1 where
  pub State : Type 0
  pub exists : FilePath → State → Bool
  pub read_bytes : FilePath → State → Result Bytes
  pub make_directories : FilePath → State → Result (Unit {0}) × State
  pub write_bytes : FilePath → Bytes → State → Result (Unit {0}) × State
  pub replace : (from to : FilePath) → State → Result (Unit {0}) × State
  pub unlink : FilePath → State → Result (Unit {0}) × State

-- `s.split("/")`
abbrev pub split_slash : String → List String
split_slash = split_on b'/'

-- `pathlib` drops empty components and `.`
unfoldable pub kept : List String → List String
kept [] = []
kept (part ∷ parts) =
    let rest = kept parts in if part == "" || part == "." then rest else part ∷ rest

unfoldable pub is_absolute : String → Bool
is_absolute String.[] = false
is_absolute (String.◌∷◌ c s) = code c == b'/'

-- `_path_for_key`
unfoldable pub path_for_key : (root : FilePath) (key : String) → Result FilePath
unfolding kept is_absolute
path_for_key root key =
    let parts = kept (split_slash key) in
    if contains parts ".." || is_absolute key then err storage_read_failed else ok (root ++ parts)

-- `path.parent`
unfoldable pub parent : FilePath → FilePath
parent [] = []
parent (part ∷ []) = []
parent (part ∷ next ∷ parts) = part ∷ parent (next ∷ parts)

-- `path.with_suffix(path.suffix + ".tmp")`, which needs a name
unfoldable pub temporary_path : FilePath → Option FilePath
temporary_path [] = none
temporary_path (part ∷ []) = some ((part <> ".tmp") ∷ [])
temporary_path (part ∷ next ∷ parts) = elim (temporary_path (next ∷ parts)) [
  | none ↦ none
  | some path ↦ some (part ∷ path)
]

module _ (fs : FileSystem) (lower : String → String) (sha256 : Bytes → String) (root : FilePath)
    (namespace : String) where
  -- `temporary_path.write_bytes(content)`, then `temporary_path.replace(object_path)`
  unfoldable pub write_object : FilePath → Bytes → Exec fs.State (Unit {0})
  write_object path content = do
    state (fs.make_directories (parent path))
    temporary ← lift (or_raise (temporary_path path) os_error)
    state (fs.write_bytes temporary content)
    state (fs.replace temporary path)

  unfoldable pub put :
      (key : String) (content : Bytes) (expected_checksum checksum_algorithm : String)
      → Exec fs.State StoredObject
  put key content expected_checksum checksum_algorithm = do
    checksum ← lift (calculate_checksum lower sha256 content checksum_algorithm)
    lift (if checksum == expected_checksum then ok tt else err document_checksum_mismatch)
    path ← lift (path_for_key root key)
    write_object path content
    pure (record {
      provider = "filesystem";
      namespace = namespace;
      key = key;
      checksum_algorithm = checksum_algorithm;
      checksum = checksum;
      size_bytes = length content;
    })

  unfoldable pub get : (key : String) → fs.State → Result Bytes
  get key s = elim (path_for_key root key) [
    | err e ↦ err e
    | ok path ↦ if fs.exists path s then fs.read_bytes path s else err storage_read_failed
  ]

  unfoldable pub delete : (key : String) → Exec fs.State (Unit {0})
  delete key s = elim (path_for_key root key) [
    | err e ↦ (err e, s)
    | ok path ↦ if fs.exists path s then fs.unlink path s else (ok tt, s)
  ]

  -- the storage that the service is given
  abbrev pub filesystem_object_storage : ObjectStorage
  filesystem_object_storage = record { State = fs.State; put = put; get = get; delete = delete }
