-- ===== src/Prelude/Dict.antt =====
-- Python's `dict` with text keys, in the order of insertion. Clients have the laws below.
use Prim.Native.Nat.{ℕ, suc, ◌+◌}
use Prim.Native.String.{String}
use mathlib.Core.Path.{◌≡◌, refl}
use mathlib.Core.Bool.{Bool}
use mathlib.Core.Option.{Option, none, some}
use mathlib.Core.List.{List, [], ◌∷◌}
use native.Mathlib.Omega.{arith}
use lotus_archive.Prelude.Tests.{if◌then◌else◌}
use lotus_archive.Prelude.Equality.{◌==◌, string_eq}

abbrev pub Dict {ℓ} : Type ℓ → Type ℓ
Dict V = List (String × V)

module _ {ℓ} {V : Type ℓ} where
  -- `d.get(k)`
  unfoldable pub lookup : String → Dict V → Option V
  lookup k [] = none
  lookup k ((j, v) ∷ d) = if k == j then some v else lookup k d

  -- `d[k] = v`: a key that is there keeps its place
  unfoldable pub insert : String → V → Dict V → Dict V
  insert k v [] = (k, v) ∷ []
  insert k v ((j, w) ∷ d) = if k == j then (k, v) ∷ d else (j, w) ∷ insert k v d

  -- `[v for v in d.values() if p(v)]`
  unfoldable pub values_where : (V → Bool) → Dict V → List V
  values_where p [] = []
  values_where p ((k, v) ∷ d) = let rest = values_where p d in if p v then v ∷ rest else rest

  -- `sum(1 for v in d.values() if p(v))`
  unfoldable pub count_where : (V → Bool) → Dict V → ℕ
  count_where p [] = 0
  count_where p ((k, v) ∷ d) = let rest = count_where p d in if p v then suc rest else rest

  abbrev pub counted : (V → Bool) → Option V → ℕ
  counted p none = 0
  counted p (some v) = if p v then 1 else 0

  pub lookup-nil : (k : String) → lookup k [] ≡ none
  unfolding lookup
  lookup-nil k = refl

  pub lookup-insert :
      (j k : String) (v : V) (d : Dict V)
      → lookup j (insert k v d) ≡ (if j == k then some v else lookup j d)
  unfolding insert lookup
  lookup-insert j k v [] = refl
  lookup-insert j k v (_ ∷ d) = ground (arith, lookup-insert j k v d)

  -- Writing at a key replaces what the key added to a count.
  pub count_where-insert :
      (p : V → Bool) (k : String) (v : V) (d : Dict V)
      → count_where p (insert k v d) + counted p (lookup k d) ≡ count_where p d + counted p (some v)
  unfolding insert lookup count_where
  count_where-insert p k v [] = ground arith
  count_where-insert p k v (_ ∷ d) = ground (arith, count_where-insert p k v d)
