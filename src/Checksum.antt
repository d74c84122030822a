-- ===== src/Checksum.antt =====
-- `archive/checksum.py`. `calculate_stream_checksum` is given its chunks as a list.
use lotus_archive.Prelude.{ℕ, String, List, [], ◌∷◌, ◌++◌, ◌==◌, string_eq, if◌then◌else◌}
use lotus_archive.Errors.{Result, ok, err, unsupported_checksum_algorithm}

abbrev pub sha256_name : String
sha256_name = "sha256"

module _ (lower : String → String) (sha256 : List ℕ → String) where
  unfoldable pub calculate_checksum : List ℕ → (algorithm : String) → Result String
  calculate_checksum content algorithm =
      if lower algorithm == sha256_name
      then ok (sha256 content)
      else err (unsupported_checksum_algorithm algorithm)

  -- `digest.update(chunk)` for each chunk
  unfoldable pub updated : List ℕ → List (List ℕ) → List ℕ
  updated seen [] = seen
  updated seen (chunk ∷ chunks) = updated (seen ++ chunk) chunks

  unfoldable pub calculate_stream_checksum :
      (chunks : List (List ℕ)) (algorithm : String) → Result String
  unfolding updated
  calculate_stream_checksum chunks algorithm =
      if lower algorithm == sha256_name
      then ok (sha256 (updated [] chunks))
      else err (unsupported_checksum_algorithm algorithm)
