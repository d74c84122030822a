-- ===== src/Storage/Laws.antt =====
-- What an object storage on files keeps, from what a file system is relied on for.
use lotus_archive.Prelude.{
  String, ◌≡◌, ◌≢◌, refl, sym, ap, ◌∙◌, Bool, true, false, Option, none, some, length, arith, ◌==◌,
  string_eq, nat_eq, if◌then◌else◌, ◌⊎◌, inl, inr,
}
use lotus_archive.Errors.{
  Error, Result, ok, err, ok-injective, storage_read_failed, document_checksum_mismatch, or_raise,
}
use lotus_archive.Exec.{state}
use lotus_archive.Exec.Ensures.{Ensures, Ensures-pure, Ensures-lift, Ensures-bind, Ensures-beside}
use lotus_archive.Checksum.{calculate_checksum}
use lotus_archive.Environment.{Bytes, StoredObject}
use lotus_archive.Storage.{FilePath, FileSystem, kept, path_for_key, write_object, put, get, delete}

-- What the documentation of `pathlib` says of the calls that return: a written file can be read, a
-- replaced one has what its source had, an unlinked one is gone, and files of other paths keep what they had. Of
-- `replace` the last is asked where the source is a file, since a directory takes the files below it along. Two
-- paths name two files: the root has no links and tells upper from lower case.
pub record IsLawful (fs : FileSystem) : Type 0 where
  pub made :
      (directory path : FilePath) (content : Bytes) (s : fs.State)
      → fs.read_bytes path s ≡ ok content
      → fs.read_bytes path (fs.make_directories directory s).1 ≡ ok content
  pub written :
      (path : FilePath) (content : Bytes) (s : fs.State)
      → (fs.write_bytes path content s).0 ≡ ok tt
      → fs.read_bytes path (fs.write_bytes path content s).1 ≡ ok content
  pub replaced :
      (from to : FilePath) (content : Bytes) (s : fs.State)
      → fs.read_bytes from s ≡ ok content
      → (fs.replace from to s).0 ≡ ok tt
      → fs.read_bytes to (fs.replace from to s).1 ≡ ok content
  pub written_elsewhere :
      (path other : FilePath) (content kept : Bytes) (s : fs.State)
      → path ≢ other
      → fs.read_bytes other s ≡ ok kept
      → fs.read_bytes other (fs.write_bytes path content s).1 ≡ ok kept
  pub replaced_elsewhere :
      (from to other : FilePath) (content kept : Bytes) (s : fs.State)
      → fs.read_bytes from s ≡ ok content
      → from ≢ other
      → to ≢ other
      → fs.read_bytes other s ≡ ok kept
      → fs.read_bytes other (fs.replace from to s).1 ≡ ok kept
  pub unlinked :
      (path : FilePath) (s : fs.State)
      → (fs.unlink path s).0 ≡ ok tt
      → fs.exists path (fs.unlink path s).1 ≡ false
  pub unlinked_elsewhere :
      (path other : FilePath) (kept : Bytes) (s : fs.State)
      → path ≢ other
      → fs.read_bytes other s ≡ ok kept
      → fs.read_bytes other (fs.unlink path s).1 ≡ ok kept
  pub readable :
      (path : FilePath) (content : Bytes) (s : fs.State)
      → fs.read_bytes path s ≡ ok content
      → fs.exists path s ≡ true

pub Result-cases :
    {A : Type 0} (r : Result A) → ((a : A) × (r ≡ ok a)) ⊎ ((e : Error) × (r ≡ err e))
Result-cases (ok a) = inl (a, refl)
Result-cases (err e) = inr (e, refl)

pub or_raise-some :
    {A : Type 0} (o : Option A) (e : Error) {a : A} → or_raise o e ≡ ok a → o ≡ some a
or_raise-some none e h = cc
or_raise-some (some b) e h = ap some (ok-injective h)

same_text : (a b : String) → (a == b) ≡ true → a ≡ b
same_text a b h = ground arith

module _ (fs : FileSystem) (lower : String → String) (sha256 : Bytes → String) (root : FilePath)
    (namespace : String) (lawful : IsLawful fs) where
  abbrev pub Holds : FilePath → Bytes → fs.State → Type 0
  Holds path content s = fs.read_bytes path s ≡ ok content

  write-Ensures :
      (path : FilePath) (content : Bytes)
      → Ensures (λ s. Unit {0}) (state (fs.write_bytes path content)) (λ _. Holds path content)
  unfolding state
  write-Ensures path content = record { holds = λ s h a e. lawful.written path content s e }

  replace-Ensures :
      (from to : FilePath) (content : Bytes)
      → Ensures (Holds from content) (state (fs.replace from to)) (λ _. Holds to content)
  unfolding state
  replace-Ensures from to content = record {
    holds = λ s h a e. lawful.replaced from to content s h e;
  }

  write_object-Ensures :
      (path : FilePath) (content : Bytes)
      → Ensures
          (λ s. Unit {0})
          (write_object fs lower sha256 root namespace path content)
          (λ _. Holds path content)
  unfolding write_object
  write_object-Ensures path content =
      Ensures-bind (λ _ s. Unit {0}) _ _ (record { holds = λ s h a e. tt })
        λ _.
          Ensures-bind (λ _ s. Unit {0}) _ _ (record { holds = λ s h a e. tt })
            λ temporary.
              Ensures-bind _ _ _ (write-Ensures temporary content)
                λ _. replace-Ensures temporary path content

  -- What a put that returned has done and answered.
  pub record IsPut (key : String) (content : Bytes) (expected : String) (stored : StoredObject)
      (s : fs.State) : Type 0 where
    pub gets_back : get fs lower sha256 root namespace key s ≡ ok content
    pub checked : sha256 content ≡ expected
    pub answered :
        (stored.key ≡ key)
        × (stored.checksum ≡ sha256 content)
        × (stored.size_bytes ≡ length content)

  pub get-Holds :
      (key : String) (path : FilePath) (content : Bytes) (s : fs.State)
      → path_for_key root key ≡ ok path
      → Holds path content s
      → get fs lower sha256 root namespace key s ≡ ok content
  unfolding get
  get-Holds key path content s at h = ground (arith, at, lawful.readable path content s h)

  calculated :
      (content : Bytes) (algorithm checksum : String)
      → calculate_checksum lower sha256 content algorithm ≡ ok checksum
      → sha256 content ≡ checksum
  unfolding calculate_checksum
  calculated content algorithm checksum h = ground arith

  accepted :
      (b : Bool) (u : Unit {0})
      → (if b then ok tt else err document_checksum_mismatch) ≡ ok u
      → b ≡ true
  accepted true u h = refl
  accepted false u h = cc

  put-Ensures :
      (key : String) (content : Bytes) (expected algorithm : String)
      → Ensures
          (λ s. Unit {0})
          (put fs lower sha256 root namespace key content expected algorithm)
          (IsPut key content expected)
  unfolding put
  put-Ensures key content expected algorithm =
      Ensures-bind (λ checksum s. sha256 content ≡ checksum) _ _
        (Ensures-lift _ (λ checksum s e h. calculated content algorithm checksum e))
        λ checksum.
          Ensures-bind (λ _ s. (sha256 content ≡ checksum) × (checksum ≡ expected)) _ _
            (Ensures-lift _
              (λ u s e h. (h, same_text checksum expected (accepted (checksum == expected) u e))))
            λ _.
              Ensures-bind
                (λ path s.
                  ((sha256 content ≡ checksum) × (checksum ≡ expected))
                  × (path_for_key root key ≡ ok path))
                _ _ (Ensures-lift _ (λ path s e h. (h, e)))
                λ path.
                  Ensures-bind
                    (λ _ s.
                      (((sha256 content ≡ checksum) × (checksum ≡ expected))
                        × (path_for_key root key ≡ ok path))
                      × Holds path content s)
                    _ _ (Ensures-beside _ (write_object-Ensures path content))
                    λ _. Ensures-pure _ (λ s h. record {
                      gets_back = get-Holds key path content s h.0.1 h.1;
                      checked = h.0.0.0 ∙ h.0.0.1;
                      answered = (refl, sym h.0.0.0, refl);
                    })

  -- An object that was put is got back as it was, from the state that the put left; the checksum that the
  -- caller expected is the SHA-256 of the bytes, and the answer names key, checksum and size.
  pub put_objects_are_got_back :
      (key : String) (content : Bytes) (expected algorithm : String) (s : fs.State)
      (stored : StoredObject)
      → (put fs lower sha256 root namespace key content expected algorithm s).0 ≡ ok stored
      → IsPut key content expected stored
          (put fs lower sha256 root namespace key content expected algorithm s).1
  put_objects_are_got_back key content expected algorithm s stored h =
      (put-Ensures key content expected algorithm).holds s tt stored h

  -- What was deleted is not read again.
  pub delete-get :
      (key : String) (s : fs.State)
      → (delete fs lower sha256 root namespace key s).0 ≡ ok tt
      → get fs lower sha256 root namespace key (delete fs lower sha256 root namespace key s).1
        ≡ err storage_read_failed
  unfolding delete get
  delete-get key s h = elim (Result-cases (path_for_key root key)) [
    | inl (path, at) ↦ ground (arith, at, lawful.unlinked path s)
    | inr (e, at) ↦ ground (arith, at)
  ]
