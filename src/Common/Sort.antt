-- ===== src/Common/Sort.antt =====
-- `Array.prototype.sort` by a numeric key: a stable insertion sort.
use Prim.Native.Nat.{ℕ, ◌≤◌}
use mathlib.Core.Path.{◌≡◌}
use mathlib.Core.Logic.{◌⊎◌}
use mathlib.Core.List.{List, [], ◌∷◌}
use native.Mathlib.Omega.{arith}
use oculus_business.Common.Tests.{leb, if◌then◌else◌}
use oculus_business.Common.Lists.{All, Has}

module _ {A : Type 0} (key : A → ℕ) where
  -- Before the first item with a key that is not smaller.
  unfoldable pub insert_by : A → List A → List A
  insert_by a [] = a ∷ []
  insert_by a (x ∷ xs) =
      let rest = insert_by a xs in if leb (key a) (key x) then a ∷ x ∷ xs else x ∷ rest

  unfoldable pub sort_by : List A → List A
  unfolding insert_by
  sort_by [] = []
  sort_by (x ∷ xs) = insert_by x (sort_by xs)

  abbrev pub IsSortedBy : List A → Type 0
  IsSortedBy [] = Unit
  IsSortedBy (x ∷ xs) = All (λ y. key x ≤ key y) xs × IsSortedBy xs

  All-weaken :
      (a b : A) (xs : List A)
      → key a ≤ key b
      → All (λ y. key b ≤ key y) xs
      → All (λ y. key a ≤ key y) xs
  All-weaken a b [] h all = tt
  All-weaken a b (x ∷ xs) h all = (omega arith, All-weaken a b xs h all.1)

  pub All-insert_by :
      (P : A → Type 0) (a : A) (xs : List A) → P a → All P xs → All P (insert_by a xs)
  unfolding insert_by
  All-insert_by P a [] pa all = (pa, tt)
  All-insert_by P a (x ∷ xs) pa all = ground (arith, All-insert_by P a xs pa all.1)

  insert_by-IsSortedBy : (a : A) (xs : List A) → IsSortedBy xs → IsSortedBy (insert_by a xs)
  unfolding insert_by
  insert_by-IsSortedBy a [] h = (tt, tt)
  insert_by-IsSortedBy a (x ∷ xs) h = ground (
    arith,
    All-weaken a x xs,
    All-insert_by (λ y. key x ≤ key y) a xs,
    insert_by-IsSortedBy a xs h.1,
  )

  pub sort_by-IsSortedBy : (xs : List A) → IsSortedBy (sort_by xs)
  unfolding sort_by
  sort_by-IsSortedBy [] = tt
  sort_by-IsSortedBy (x ∷ xs) = insert_by-IsSortedBy x (sort_by xs) (sort_by-IsSortedBy xs)

  pub All-sort_by : (P : A → Type 0) (xs : List A) → All P xs → All P (sort_by xs)
  unfolding sort_by
  All-sort_by P [] all = tt
  All-sort_by P (x ∷ xs) all = All-insert_by P x (sort_by xs) all.0 (All-sort_by P xs all.1)

  Has-insert_by : (a b : A) (xs : List A) → Has b (insert_by a xs) → (a ≡ b) ⊎ Has b xs
  unfolding insert_by
  Has-insert_by a b [] h = h
  Has-insert_by a b (x ∷ xs) h = ground (arith, Has-insert_by a b xs)

  pub Has-sort_by : (b : A) (xs : List A) → Has b (sort_by xs) → Has b xs
  unfolding sort_by
  Has-sort_by b [] h = h
  Has-sort_by b (x ∷ xs) h = ground (arith, Has-insert_by x b (sort_by xs) h, Has-sort_by b xs)

  insert_by-Has : (a b : A) (xs : List A) → (a ≡ b) ⊎ Has b xs → Has b (insert_by a xs)
  unfolding insert_by
  insert_by-Has a b [] h = h
  insert_by-Has a b (x ∷ xs) h = ground (arith, insert_by-Has a b xs)

  pub sort_by-Has : (b : A) (xs : List A) → Has b xs → Has b (sort_by xs)
  unfolding sort_by
  sort_by-Has b [] h = h
  sort_by-Has b (x ∷ xs) h = insert_by-Has x b (sort_by xs) (ground (arith, sort_by-Has b xs))
