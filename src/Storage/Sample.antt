-- ===== src/Storage/Sample.antt =====
-- A file system in memory, for the tests: a function from paths to contents.
use lotus_archive.Prelude.{
  ◌≡◌, ◌≢◌, refl, ap, ◌∙◌, Bool, true, false, ◌&&◌, Option, none, some, [], ◌∷◌, is_some, ◌==◌,
  string_eq, if◌then◌else◌, arith,
}
use lotus_archive.Errors.{Result, ok, err, os_error}
use lotus_archive.Environment.{Bytes}
use lotus_archive.Storage.{FilePath, FileSystem}
use lotus_archive.Storage.Laws.{IsLawful}

unfoldable pub same_path : FilePath → FilePath → Bool
same_path [] [] = true
same_path [] (_ ∷ _) = false
same_path (_ ∷ _) [] = false
same_path (a ∷ p) (b ∷ q) = a == b && same_path p q

same_path_refl : (p : FilePath) → same_path p p ≡ true
unfolding same_path
same_path_refl [] = refl
same_path_refl (a ∷ p) = ground (arith, same_path_refl p)

same_path_sound : (p q : FilePath) → same_path p q ≡ true → p ≡ q
unfolding same_path
same_path_sound [] [] h = refl
same_path_sound [] (_ ∷ _) h = cc
same_path_sound (_ ∷ _) [] h = cc
same_path_sound (a ∷ p) (b ∷ q) h = ground (arith, same_path_sound p q)

abbrev pub Files : Type 0
Files = FilePath → Option Bytes

unfoldable pub content_of : Option Bytes → Result Bytes
content_of none = err os_error
content_of (some content) = ok content

unfoldable pub holding : FilePath → Option Bytes → Files → Files
holding path content files p = if same_path p path then content else files p

unfoldable pub move : (from to : FilePath) → Option Bytes → Files → Result (Unit {0}) × Files
unfolding holding
move from to none files = (err os_error, files)
move from to (some content) files = (ok tt, holding to (some content) (holding from none files))

abbrev pub file_system : FileSystem
file_system = record {
  State = Files;
  exists = λ path files. is_some (files path);
  read_bytes = λ path files. content_of (files path);
  make_directories = λ path files. (ok tt, files);
  write_bytes = λ path content files. (ok tt, holding path (some content) files);
  replace = λ from to files. move from to (files from) files;
  unlink = λ path files. (ok tt, holding path none files);
}

holding-same :
    (path : FilePath) (content : Option Bytes) (files : Files)
    → holding path content files path ≡ content
unfolding holding
holding-same path content files = rw (same_path_refl path) refl

holding-other :
    (path other : FilePath) (content : Option Bytes) (files : Files)
    → path ≢ other
    → holding path content files other ≡ files other
unfolding holding
holding-other path other content files ne = ground (arith, same_path_sound other path)

move-there :
    (from to : FilePath) (o : Option Bytes) (content : Bytes) (files : Files)
    → content_of o ≡ ok content
    → content_of ((move from to o files).1 to) ≡ ok content
unfolding move content_of
move-there from to none content files h = cc
move-there from to (some c) content files h =
    ap content_of (holding-same to (some c) (holding from none files)) ∙ h

move-elsewhere :
    (from to other : FilePath) (o : Option Bytes) (files : Files)
    → from ≢ other
    → to ≢ other
    → (move from to o files).1 other ≡ files other
unfolding move
move-elsewhere from to other none files ne ne' = refl
move-elsewhere from to other (some c) files ne ne' =
    holding-other to other (some c) (holding from none files) ne'
    ∙ holding-other from other none files ne

readable : (o : Option Bytes) (content : Bytes) → content_of o ≡ ok content → is_some o ≡ true
unfolding content_of
readable none content h = cc
readable (some c) content h = refl

pub file_system-IsLawful : IsLawful file_system
unfolding content_of
file_system-IsLawful = record {
  made = λ directory path content s h. h;
  written = λ path content s h. ap content_of (holding-same path (some content) s);
  replaced = λ from to content s h e. move-there from to (s from) content s h;
  written_elsewhere = λ path other content kept s ne h.
      ap content_of (holding-other path other (some content) s ne) ∙ h;
  replaced_elsewhere = λ from to other content kept s there ne ne' h.
      ap content_of (move-elsewhere from to other (s from) s ne ne') ∙ h;
  unlinked = λ path s h. ap is_some (holding-same path none s);
  unlinked_elsewhere =
      λ path other kept s ne h. ap content_of (holding-other path other none s ne) ∙ h;
  readable = λ path content s h. readable (s path) content h;
}
