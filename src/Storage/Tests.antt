-- ===== src/Storage/Tests.antt =====
-- The theorems on the file storage at concrete data.
use lotus_archive.Prelude.{
  String, ◌≡◌, ◌≢◌, refl, sym, ap, subst, ◌∙◌, length, none, some, [], ◌∷◌, arith, string_discrete,
}
use mathlib.Core.Option.{some-injective}
use native.Mathlib.Decide.{ℕ_discrete}
use lotus_archive.Prelude.Texts.{split_on}
use lotus_archive.Errors.{ok, err, ok-injective, storage_read_failed}
use lotus_archive.Exec.{◌>>=◌, pure, lift, state}
use lotus_archive.Checksum.{calculate_checksum}
use lotus_archive.Environment.{Bytes, StoredObject}
use lotus_archive.Storage.{
  FilePath, put, get, delete, path_for_key, kept, is_absolute, write_object, parent, temporary_path,
}
use lotus_archive.Storage.Apart.{IsApart, other_objects_are_spared}
use lotus_archive.Storage.Laws.{IsPut, put_objects_are_got_back, delete-get}
use lotus_archive.Storage.Sample.{
  Files, file_system, file_system-IsLawful, same_path, content_of, holding, move,
}

abbrev root : FilePath
root = "srv" ∷ []

abbrev content : Bytes
content = 1 ∷ 2 ∷ []

abbrev sha : Bytes → String
sha b = "00"

-- one object, `b`, is there
abbrev files : Files
files = holding ("srv" ∷ "b" ∷ []) (some (9 ∷ [])) (λ path. none)

abbrev stored : StoredObject
stored = record {
  provider = "filesystem";
  namespace = "local";
  key = "k/a.pdf";
  checksum_algorithm = "sha256";
  checksum = "00";
  size_bytes = 2;
}

put_run :
    (put file_system (λ s. s) sha root "local" "k/a.pdf" content "00" "sha256" files).0 ≡ ok stored
unfolding put calculate_checksum path_for_key split_on kept is_absolute write_object parent
    temporary_path ◌>>=◌ pure lift state same_path holding move string_discrete ℕ_discrete
put_run = refl

put_objects_are_got_back_example :
    IsPut file_system
      (λ s. s)
      sha
      root
      "local"
      file_system-IsLawful
      "k/a.pdf"
      content
      "00"
      stored
      (put file_system (λ s. s) sha root "local" "k/a.pdf" content "00" "sha256" files).1
put_objects_are_got_back_example =
    put_objects_are_got_back file_system (λ s. s) sha root "local" file_system-IsLawful "k/a.pdf"
      content "00" "sha256" files stored put_run

delete_run : (delete file_system (λ s. s) sha root "local" "b" files).0 ≡ ok tt
unfolding delete path_for_key split_on kept is_absolute same_path holding move string_discrete
    ℕ_discrete
delete_run = refl

delete-get_example :
    get file_system
      (λ s. s)
      sha
      root
      "local"
      "b"
      (delete file_system (λ s. s) sha root "local" "b" files).1
    ≡ err storage_read_failed
delete-get_example =
    delete-get file_system (λ s. s) sha root "local" file_system-IsLawful "b" files delete_run

abbrev nested : FilePath
nested = "srv" ∷ "k" ∷ "a.pdf" ∷ []

nested_run : path_for_key root "k/a.pdf" ≡ ok nested
unfolding path_for_key split_on kept is_absolute string_discrete ℕ_discrete
nested_run = refl

is_nested : (path : FilePath) → path_for_key root "k/a.pdf" ≡ ok path → nested ≡ path
is_nested path at = ok-injective (sym nested_run ∙ at)

temporary_run : temporary_path nested ≡ some ("srv" ∷ "k" ∷ "a.pdf.tmp" ∷ [])
unfolding temporary_path
temporary_run = refl

apart : (p q : FilePath) → length p ≢ length q → p ≢ q
apart p q ne e = ne (ap length e)

nested-IsApart :
    IsApart file_system
      (λ s. s)
      sha
      root
      "local"
      file_system-IsLawful
      ("srv" ∷ "b" ∷ [])
      (9 ∷ [])
      "k/a.pdf"
nested-IsApart path at =
    subst (λ p. (p ≢ ("srv" ∷ "b" ∷ [])) × (temporary_path p ≢ some ("srv" ∷ "b" ∷ [])))
      (is_nested path at)
      (
        apart nested ("srv" ∷ "b" ∷ []) (λ e. omega (arith, e)),
        λ e.
            apart ("srv" ∷ "k" ∷ "a.pdf.tmp" ∷ []) ("srv" ∷ "b" ∷ []) (λ l. omega (arith, l))
              (some-injective _ _ (sym temporary_run ∙ e)),
      )

other_objects_are_spared_example :
    (get file_system
        (λ s. s)
        sha
        root
        "local"
        "b"
        (put file_system (λ s. s) sha root "local" "k/a.pdf" content "00" "sha256" files).1
      ≡ ok (9 ∷ []))
    × (get file_system
          (λ s. s)
          sha
          root
          "local"
          "b"
          (delete file_system (λ s. s) sha root "local" "k/a.pdf" files).1
        ≡ ok (9 ∷ []))
unfolding get path_for_key split_on kept is_absolute same_path holding content_of string_discrete
    ℕ_discrete
other_objects_are_spared_example =
    other_objects_are_spared file_system (λ s. s) sha root "local" file_system-IsLawful "k/a.pdf"
      "b" ("srv" ∷ "b" ∷ []) (9 ∷ []) content "00" "sha256" files refl nested-IsApart refl
