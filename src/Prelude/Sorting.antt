-- ===== src/Prelude/Sorting.antt =====
-- Python's `sorted(items, key=...)`, a stable sort, as insertion from the right.
use mathlib.Core.Path.{◌≡◌, refl, ap, ◌∙◌}
use mathlib.Core.Bool.{Bool, true, false}
use mathlib.Core.List.{List, [], ◌∷◌, Perm, Permᴰ, Mem, mem-cons_of_mem, mem-cons_self}
use mathlib.Core.List.Perm
use native.Mathlib.Omega.{arith}
use mathlib.Core.Logic.{inl, inr, ∥∥₁_elim}
use lotus_archive.Prelude.Tests.{if◌then◌else◌, Bool-cases}

module _ {A : Type 0} (le : A → A → Bool) where
  unfoldable pub insert : A → List A → List A
  insert x [] = x ∷ []
  insert x (y ∷ ys) = let rest = insert x ys in if le x y then x ∷ y ∷ ys else y ∷ rest

  unfoldable pub sorted : List A → List A
  unfolding insert
  sorted [] = []
  sorted (x ∷ xs) = insert x (sorted xs)

  -- the test is total and transitive
  pub record IsOrder : Type 0 where
    pub total : (a b : A) → le a b ≡ false → le b a ≡ true
    pub trans : (a b c : A) → le a b ≡ true → le b c ≡ true → le a c ≡ true

  -- each item is at most the next
  abbrev pub IsAscending : List A → Type 0
  IsAscending [] = Unit
  IsAscending (x ∷ []) = Unit
  IsAscending (x ∷ y ∷ ys) = (le x y ≡ true) × IsAscending (y ∷ ys)

  -- items of the list that the test takes for equal are equal
  abbrev pub IsDecisive : List A → Type 0
  IsDecisive xs = (a b : A) → Mem a xs → Mem b xs → le a b ≡ true → le b a ≡ true → a ≡ b

  insert-perm : (x : A) (l : List A) → Perm (insert x l) (x ∷ l)
  unfolding insert
  insert-perm x [] = Perm.rfl
  insert-perm x (y ∷ ys) = elim (Bool-cases (le x y)) [
    | inl first ↦ rw first Perm.rfl
    | inr later ↦ rw later (Perm.trans (Perm.cons y (insert-perm x ys)) (Perm.swap x y ys))
  ]

  -- a sorted list has the items of the given one
  pub sorted-perm : (l : List A) → Perm (sorted l) l
  unfolding sorted
  sorted-perm [] = Perm.rfl
  sorted-perm (x ∷ xs) = Perm.trans (insert-perm x (sorted xs)) (Perm.cons x (sorted-perm xs))

  module _ (order : IsOrder) where
    insert-IsAscending : (x : A) (l : List A) → IsAscending l → IsAscending (insert x l)
    unfolding insert
    insert-IsAscending x [] h = tt
    insert-IsAscending x (y ∷ []) h = ground (arith, order.total x y)
    insert-IsAscending x (y ∷ z ∷ zs) (first, rest) =
        ground (arith, order.total x y, insert-IsAscending x (z ∷ zs) rest)

    pub sorted-IsAscending : (l : List A) → IsAscending (sorted l)
    unfolding sorted
    sorted-IsAscending [] = tt
    sorted-IsAscending (x ∷ xs) = insert-IsAscending x (sorted xs) (sorted-IsAscending xs)

    insert_comm :
        (a b : A) (l : List A)
        → (le a b ≡ true → le b a ≡ true → a ≡ b)
        → insert a (insert b l) ≡ insert b (insert a l)
    unfolding insert
    insert_comm a b [] same = ground (arith, order.total a b, order.total b a, same)
    insert_comm a b (y ∷ ys) same = ground (
      arith,
      order.total a b,
      order.trans a b y,
      order.trans b a y,
      same,
      insert_comm a b ys same,
    )

    -- Two lists with the same items are sorted into the same list.
    module _ (is_set : IsSet A) where
      sorted-eqᴰ : {l m : List A} → Permᴰ l m → IsDecisive l → sorted l ≡ sorted m
      unfolding sorted
      sorted-eqᴰ Permᴰ.nil d = refl
      sorted-eqᴰ (Permᴰ.cons {a = a} {l₁ = l} e p) d =
          ap (λ c. insert c (sorted l)) e
          ∙ ap (insert _)
              (sorted-eqᴰ p (λ x y m n. d x y (mem-cons_of_mem a m) (mem-cons_of_mem a n)))
      sorted-eqᴰ (Permᴰ.swap {a = a} {b = b} {a' = a'} {l = l} e f) d =
          insert_comm a b (sorted l) (d a b mem-cons_self (mem-cons_of_mem a mem-cons_self))
          ∙ ap (λ c. insert c (insert a (sorted l))) f
          ∙ ap (λ c. insert a' (insert c (sorted l))) e
      sorted-eqᴰ (Permᴰ.trans p q) d =
          sorted-eqᴰ p d
          ∙ sorted-eqᴰ q (λ x y m n.
            d x y (Perm.subset (Perm.symm ∣ p ∣₁) x m) (Perm.subset (Perm.symm ∣ p ∣₁) y n))

      pub sorted-eq : {l m : List A} → Perm l m → IsDecisive l → sorted l ≡ sorted m
      sorted-eq {l} {m} p d =
          let lists : IsSet (List A) = hlevel is_set in
          ∥∥₁_elim p (lists (sorted l) (sorted m)) (λ q. sorted-eqᴰ q d)
