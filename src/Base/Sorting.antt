-- ===== src/Base/Sorting.antt =====
-- [T]::sort_by_key, a stable sort, by a key in the native numbers.
use Prim.Native.Nat.{ℕ, ◌≤◌}
use mathlib.Core.Path.{◌≡◌, refl, ◌∙◌}
use mathlib.Core.Logic.{inl, inr}
use mathlib.Core.List.{List, [], ◌∷◌}
use native.Mathlib.Omega.{arith}
use lightflus.Base.Logic.{leb, if◌then◌else◌, ◌==◌, Bool-cases}
use lightflus.Base.Lists.{All, keep}

module _ {A : Type 0} (key : A → ℕ) where
  unfoldable pub insert_by_key : A → List A → List A
  insert_by_key a [] = a ∷ []
  insert_by_key a (b ∷ bs) =
      let rest = insert_by_key a bs in if leb (key a) (key b) then a ∷ b ∷ bs else b ∷ rest

  unfoldable pub sort_by_key : List A → List A
  unfolding insert_by_key
  sort_by_key [] = []
  sort_by_key (a ∷ xs) = insert_by_key a (sort_by_key xs)

  -- In the order of the keys.
  abbrev pub IsSorted : List A → Type 0
  IsSorted [] = Unit
  IsSorted (a ∷ xs) = All (λ b. key a ≤ key b) xs × IsSorted xs

  All-insert :
      (k : ℕ) (a : A) (xs : List A)
      → k ≤ key a
      → All (λ b. k ≤ key b) xs
      → All (λ b. k ≤ key b) (insert_by_key a xs)
  unfolding insert_by_key
  All-insert k a [] h all = (h, tt)
  All-insert k a (b ∷ bs) h all = ground (arith, All-insert k a bs h all.1)

  All-le : (j k : ℕ) (xs : List A) → j ≤ k → All (λ b. k ≤ key b) xs → All (λ b. j ≤ key b) xs
  All-le j k [] h all = tt
  All-le j k (a ∷ xs) h all = (omega arith, All-le j k xs h all.1)

  insert-IsSorted : (a : A) (xs : List A) → IsSorted xs → IsSorted (insert_by_key a xs)
  unfolding insert_by_key
  insert-IsSorted a [] h = (tt, tt)
  insert-IsSorted a (b ∷ bs) h = elim (Bool-cases (leb (key a) (key b))) [
    | inl e ↦ rw e ((ground arith, All-le (key a) (key b) bs (ground arith) h.0), h)
    | inr e ↦ rw e (All-insert (key b) a bs (ground arith) h.0, insert-IsSorted a bs h.1)
  ]

  pub sort-IsSorted : (xs : List A) → IsSorted (sort_by_key xs)
  unfolding sort_by_key
  sort-IsSorted [] = tt
  sort-IsSorted (a ∷ xs) = insert-IsSorted a (sort_by_key xs) (sort-IsSorted xs)

  keep-insert :
      (k : ℕ) (a : A) (xs : List A)
      → keep (λ b. key b == k) (insert_by_key a xs) ≡ keep (λ b. key b == k) (a ∷ xs)
  unfolding insert_by_key
  keep-insert k a [] = refl
  keep-insert k a (b ∷ bs) = ground (arith, keep-insert k a bs)

  -- The elements of each key are the same, in the same order.
  pub keep-sort :
      (k : ℕ) (xs : List A) → keep (λ b. key b == k) (sort_by_key xs) ≡ keep (λ b. key b == k) xs
  unfolding sort_by_key
  keep-sort k [] = refl
  keep-sort k (a ∷ xs) = keep-insert k a (sort_by_key xs) ∙ rw (keep-sort k xs) refl
