-- ===== src/Storage/Apart.antt =====
-- The objects of other keys, beside a put or a delete.
use lotus_archive.Prelude.{String, ◌≡◌, ◌≢◌, ap, ◌∙◌, some, arith, string_eq, nat_eq, inl, inr}
use lotus_archive.Errors.{ok, os_error, or_raise}
use lotus_archive.Exec.{state, ◌>>=◌}
use lotus_archive.Exec.Moves.{IsPreorder, Moves, Moves-pure, Moves-bind, Moves-lift_then}
use lotus_archive.Environment.{Bytes}
use lotus_archive.Storage.{
  FilePath, FileSystem, path_for_key, parent, temporary_path, write_object, put, get, delete,
}
use lotus_archive.Storage.Laws.{IsLawful, Result-cases, or_raise-some, get-Holds}

module _ (fs : FileSystem) (lower : String → String) (sha256 : Bytes → String) (root : FilePath)
    (namespace : String) (lawful : IsLawful fs) (other : FilePath) (old : Bytes) where
  -- a file of another path still holds what it held
  abbrev Spares : fs.State → fs.State → Type 0
  Spares s t = fs.read_bytes other s ≡ ok old → fs.read_bytes other t ≡ ok old

  Spares-preorder : IsPreorder Spares
  Spares-preorder = record { stays = λ s h. h; follows = λ s t u a b h. b (a h) }

  directories-Spares : (directory : FilePath) → Moves Spares (state (fs.make_directories directory))
  unfolding state
  directories-Spares directory = record { at = λ s h. lawful.made directory other old s h }

  -- the temporary file is written, so that what replaces the target is a file
  write_replace-Spares :
      (temporary path : FilePath) (content : Bytes)
      → temporary ≢ other
      → path ≢ other
      → Moves Spares
          (state (fs.write_bytes temporary content) >>= λ _. state (fs.replace temporary path))
  unfolding state ◌>>=◌
  write_replace-Spares temporary path content tne ne = record {
    at = λ s h.
        let after = (fs.write_bytes temporary content s).1 in
        let kept = lawful.written_elsewhere temporary other content old s tne h in
        elim (Result-cases (fs.write_bytes temporary content s).0) [
          | inl (_, wrote) ↦ rw wrote (
              lawful.replaced_elsewhere temporary path other content old after
                (lawful.written temporary content s wrote) tne ne kept)
          | inr (e, failed) ↦ rw failed kept
        ];
  }

  temporary-ne :
      (path temporary : FilePath)
      → temporary_path path ≢ some other
      → or_raise (temporary_path path) os_error ≡ ok temporary
      → temporary ≢ other
  temporary-ne path temporary ne h e =
      ne (or_raise-some (temporary_path path) os_error h ∙ ap some e)

  write_object-Spares :
      (path : FilePath) (content : Bytes)
      → path ≢ other
      → temporary_path path ≢ some other
      → Moves Spares (write_object fs lower sha256 root namespace path content)
  unfolding write_object
  write_object-Spares path content ne tne =
      Moves-bind Spares-preorder _ _ (directories-Spares (parent path)) λ _.
        Moves-lift_then Spares-preorder _ _ λ temporary made.
          write_replace-Spares temporary path content (temporary-ne path temporary tne made) ne

  -- the paths of this key are other paths
  abbrev pub IsApart : String → Type 0
  IsApart key =
      (path : FilePath)
      → path_for_key root key ≡ ok path
      → (path ≢ other) × (temporary_path path ≢ some other)

  put-Spares :
      (key : String) (content : Bytes) (expected algorithm : String)
      → IsApart key
      → Moves Spares (put fs lower sha256 root namespace key content expected algorithm)
  unfolding put
  put-Spares key content expected algorithm apart =
      Moves-lift_then Spares-preorder _ _ λ checksum _. Moves-lift_then Spares-preorder _ _ λ _ _.
        Moves-lift_then Spares-preorder _ _ λ path at.
          Moves-bind Spares-preorder _ _
            (write_object-Spares path content (apart path at).0 (apart path at).1)
            λ _. Moves-pure Spares-preorder _

  delete-Spares :
      (key : String) → IsApart key → Moves Spares (delete fs lower sha256 root namespace key)
  unfolding delete
  delete-Spares key apart = record {
    at = λ s h. elim (Result-cases (path_for_key root key)) [
      | inl (path, at) ↦
          ground (arith, at, lawful.unlinked_elsewhere path other old s (apart path at).0 h)
      | inr (e, at) ↦ ground (arith, at)
    ];
  }

module _ (fs : FileSystem) (lower : String → String) (sha256 : Bytes → String) (root : FilePath)
    (namespace : String) (lawful : IsLawful fs) where
  get-Holds_iff :
      (key : String) (path : FilePath) (content : Bytes) (s : fs.State)
      → path_for_key root key ≡ ok path
      → get fs lower sha256 root namespace key s ≡ ok content
      → fs.read_bytes path s ≡ ok content
  unfolding get
  get-Holds_iff key path content s at h = ground (arith, at)

  -- Putting or deleting one object, whether that returns or raises, leaves every object as it was that can be
  -- got under a path other than that of the put or deleted key and other than its temporary path.
  pub other_objects_are_spared :
      (key other : String) (path : FilePath) (old content : Bytes) (expected algorithm : String)
      (s : fs.State)
      → path_for_key root other ≡ ok path
      → IsApart fs lower sha256 root namespace lawful path old key
      → get fs lower sha256 root namespace other s ≡ ok old
      → (get fs lower sha256 root namespace other
            (put fs lower sha256 root namespace key content expected algorithm s).1
          ≡ ok old)
        × (get fs lower sha256 root namespace other (delete fs lower sha256 root namespace key s).1
            ≡ ok old)
  other_objects_are_spared key other path old content expected algorithm s at apart h =
      let before = get-Holds_iff other path old s at h in
      (
        get-Holds fs lower sha256 root namespace lawful other path old _ at (
            (put-Spares fs lower sha256 root namespace lawful path old key content expected
                algorithm apart).at
              s before),
        get-Holds fs lower sha256 root namespace lawful other path old _ at
            ((delete-Spares fs lower sha256 root namespace lawful path old key apart).at s before),
      )
