-- ===== src/Base/Ranked.antt =====
-- `tuple(sorted(set(xs)))` of a closed vocabulary: each member has a rank, its place in the order
-- of the texts, and the result is strictly ascending in it.
use fail_closed_agent.Base.{
  ℕ, ◌≡◌, refl, Bool, false, ◌||◌, List, [], ◌∷◌, ◌++◌, ◌<◌, arith, ltb, ◌==◌, if◌then◌else◌,
  is_empty,
}

module _ {ℓ} {A : Type ℓ} (rank : A → ℕ) where
  pub insert : A → List A → List A
  insert a [] = a ∷ []
  insert a (x ∷ xs) =
      if rank a == rank x
      then x ∷ xs
      else if ltb (rank a) (rank x)
      then a ∷ x ∷ xs
      else x ∷ insert a xs

  unfoldable pub sorted_set : List A → List A
  unfolding insert
  sorted_set [] = []
  sorted_set (x ∷ xs) = insert x (sorted_set xs)

  abbrev pub has : A → List A → Bool
  has a [] = false
  has a (x ∷ xs) = rank a == rank x || has a xs

  -- every member ranks above `n`, and the next above it
  abbrev pub Ascends : ℕ → List A → Type 0
  Ascends n [] = Unit
  Ascends n (x ∷ xs) = (n < rank x) × Ascends (rank x) xs

  abbrev pub IsSorted : List A → Type 0
  IsSorted [] = Unit
  IsSorted (x ∷ xs) = Ascends (rank x) xs

  insert-Ascends :
      (n : ℕ) (a : A) (xs : List A) → n < rank a → Ascends n xs → Ascends n (insert a xs)
  unfolding insert
  insert-Ascends n a [] h s = (h, tt)
  insert-Ascends n a (x ∷ xs) h s = ground (arith, insert-Ascends (rank x) a xs)

  insert-IsSorted : (a : A) (xs : List A) → IsSorted xs → IsSorted (insert a xs)
  unfolding insert
  insert-IsSorted a [] s = tt
  insert-IsSorted a (x ∷ xs) s = ground (arith, insert-Ascends (rank x) a xs)

  pub sorted_set-IsSorted : (xs : List A) → IsSorted (sorted_set xs)
  unfolding sorted_set
  sorted_set-IsSorted [] = tt
  sorted_set-IsSorted (x ∷ xs) = insert-IsSorted x (sorted_set xs) (sorted_set-IsSorted xs)

  has-insert : (a b : A) (xs : List A) → has b (insert a xs) ≡ (rank b == rank a || has b xs)
  unfolding insert
  has-insert a b [] = refl
  has-insert a b (x ∷ xs) = ground (arith, has-insert a b xs)

  pub has-sorted_set : (b : A) (xs : List A) → has b (sorted_set xs) ≡ has b xs
  unfolding sorted_set
  has-sorted_set b [] = refl
  has-sorted_set b (x ∷ xs) = ground (arith, has-insert x b (sorted_set xs), has-sorted_set b xs)

  pub has-append : (b : A) (xs ys : List A) → has b (xs ++ ys) ≡ (has b xs || has b ys)
  has-append b [] ys = refl
  has-append b (x ∷ xs) ys = ground (arith, has-append b xs ys)

  insert-ne-nil : (a : A) (xs : List A) → is_empty (insert a xs) ≡ false
  unfolding insert
  insert-ne-nil a [] = refl
  insert-ne-nil a (x ∷ xs) = ground arith

  pub is_empty-sorted_set : (xs : List A) → is_empty (sorted_set xs) ≡ is_empty xs
  unfolding sorted_set
  is_empty-sorted_set [] = refl
  is_empty-sorted_set (x ∷ xs) = insert-ne-nil x (sorted_set xs)
