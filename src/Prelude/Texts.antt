-- ===== src/Prelude/Texts.antt =====
-- Methods of `str` that the archive uses.
use Prim.Native.Nat.{ℕ}
use Prim.Native.Char.{Char, code}
use Prim.Native.String.{String, count}
use mathlib.Core.Bool.{Bool, true, false, ◌&&◌, ◌||◌}
use mathlib.Core.Option.{Option, none, some}
use mathlib.Core.List.{List, [], ◌∷◌}
use lotus_archive.Prelude.Tests.{if◌then◌else◌, leb}
use lotus_archive.Prelude.Equality.{◌==◌, nat_eq}

-- `s.removeprefix(p)`, where `s.startswith(p)`
unfoldable pub removeprefix : (prefix s : String) → Option String
removeprefix String.[] s = some s
removeprefix (String.◌∷◌ c prefix) String.[] = none
removeprefix (String.◌∷◌ c prefix) (String.◌∷◌ d s) =
    let rest = removeprefix prefix s in if code c == code d then rest else none

-- `c in s`, for one character
unfoldable pub has_char : (number : ℕ) → String → Bool
has_char number String.[] = false
has_char number (String.◌∷◌ c s) = code c == number || has_char number s

-- the characters `0123456789abcdef`
abbrev is_hex : ℕ → Bool
is_hex n = (leb 48 n && leb n 57) || (leb 97 n && leb n 102)

unfoldable pub all_hex : String → Bool
all_hex String.[] = true
all_hex (String.◌∷◌ c s) = is_hex (code c) && all_hex s

-- 64 lower-case hexadecimal digits
unfoldable pub is_hex_digest : String → Bool
unfolding all_hex
is_hex_digest s = count s == 64 && all_hex s

unfoldable pub prepend : Char → List String → List String
prepend c [] = (String.◌∷◌ c String.[]) ∷ []
prepend c (part ∷ parts) = (String.◌∷◌ c part) ∷ parts

-- `s.split(separator)`, for one character
unfoldable pub split_on : (separator : ℕ) → String → List String
unfolding prepend
split_on separator String.[] = "" ∷ []
split_on separator (String.◌∷◌ c s) =
    let rest = split_on separator s in if code c == separator then "" ∷ rest else prepend c rest
