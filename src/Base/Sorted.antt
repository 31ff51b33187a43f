-- ===== src/Base/Sorted.antt =====
-- `sorted(xs)` under a total order given as a test, and the set operations on lists of numbers.
use fail_closed_agent.Base.{
  ℕ, ◌≡◌, refl, Bool, true, false, not, ◌&&◌, ◌||◌, List, [], ◌∷◌, arith, ltb, leb, ◌==◌,
  if◌then◌else◌, Bool-cases, inl, inr, ap,
}

module _ {ℓ} {A : Type ℓ} (le : A → A → Bool) where
  unfoldable pub insert : A → List A → List A
  insert a [] = a ∷ []
  insert a (x ∷ xs) = if le a x then a ∷ x ∷ xs else x ∷ insert a xs

  unfoldable pub sorted : List A → List A
  unfolding insert
  sorted [] = []
  sorted (x ∷ xs) = insert x (sorted xs)

  -- `a` is not past the head
  Leads : A → List A → Type 0
  Leads a [] = Unit
  Leads a (x ∷ xs) = le a x ≡ true

  IsOrdered : List A → Type 0
  IsOrdered [] = Unit
  IsOrdered (x ∷ xs) = Leads x xs × IsOrdered xs

  Leads-insert : (x a : A) (xs : List A) → le x a ≡ true → Leads x xs → Leads x (insert a xs)
  unfolding Leads insert
  Leads-insert x a [] h l = h
  Leads-insert x a (y ∷ ys) h l = ground (arith)

  insert-IsOrdered :
      (total : (a b : A) → le a b ≡ false → le b a ≡ true) (a : A) (xs : List A)
      → IsOrdered xs
      → IsOrdered (insert a xs)
  unfolding IsOrdered insert Leads
  insert-IsOrdered total a [] h = (tt, tt)
  insert-IsOrdered total a (x ∷ xs) h = elim (Bool-cases (le a x)) [
    | inl e ↦ rw e (e, h)
    | inr e ↦ rw e (Leads-insert x a xs (total a x e) h.0, insert-IsOrdered total a xs h.1)
  ]

  sorted-IsOrdered :
      (total : (a b : A) → le a b ≡ false → le b a ≡ true) (xs : List A) → IsOrdered (sorted xs)
  unfolding sorted IsOrdered
  sorted-IsOrdered total [] = tt
  sorted-IsOrdered total (x ∷ xs) = insert-IsOrdered total x (sorted xs) (sorted-IsOrdered total xs)

  insert-Leads : (x : A) (xs : List A) → Leads x xs → insert x xs ≡ x ∷ xs
  unfolding insert Leads
  insert-Leads x [] l = refl
  insert-Leads x (y ∷ ys) l = rw l refl

  sorted-fixed : (xs : List A) → IsOrdered xs → sorted xs ≡ xs
  unfolding sorted IsOrdered
  sorted-fixed [] h = refl
  sorted-fixed (x ∷ xs) (l, h) = rw (sorted-fixed xs h) (insert-Leads x xs l)

  pub sorted-sorted :
      (total : (a b : A) → le a b ≡ false → le b a ≡ true) (xs : List A)
      → sorted (sorted xs) ≡ sorted xs
  sorted-sorted total xs = sorted-fixed (sorted xs) (sorted-IsOrdered total xs)

pub leb-total : (a b : ℕ) → leb a b ≡ false → leb b a ≡ true
leb-total a b h = ground arith

-- pairs, the first parts first
abbrev pub leb_pair : ℕ × ℕ → ℕ × ℕ → Bool
leb_pair (a, b) (c, d) = ltb a c || a == c && leb b d

pub leb_pair-total : (p q : ℕ × ℕ) → leb_pair p q ≡ false → leb_pair q p ≡ true
leb_pair-total (a, b) (c, d) h = ground arith

abbrev pub member : ℕ → List ℕ → Bool
member a [] = false
member a (x ∷ xs) = a == x || member a xs

-- `set(xs)`
unfoldable pub distinct : List ℕ → List ℕ
distinct [] = []
distinct (x ∷ xs) = let rest = distinct xs in if member x xs then rest else x ∷ rest

-- `xs - ys`
unfoldable pub minus : List ℕ → List ℕ → List ℕ
minus [] ys = []
minus (x ∷ xs) ys = let rest = minus xs ys in if member x ys then rest else x ∷ rest

member-insert : (a x : ℕ) (xs : List ℕ) → member a (insert leb x xs) ≡ (a == x || member a xs)
unfolding insert
member-insert a x [] = refl
member-insert a x (y ∷ ys) = ground (arith, member-insert a x ys)

pub member-sorted : (a : ℕ) (xs : List ℕ) → member a (sorted leb xs) ≡ member a xs
unfolding sorted
member-sorted a [] = refl
member-sorted a (x ∷ xs) = ground (arith, member-insert a x (sorted leb xs), member-sorted a xs)

pub member-same : (a x : ℕ) (xs : List ℕ) → (a == x) ≡ true → member a xs ≡ member x xs
member-same a x xs h = ap (λ z. member z xs) (ground arith)

pub member-distinct : (a : ℕ) (xs : List ℕ) → member a (distinct xs) ≡ member a xs
unfolding distinct
member-distinct a [] = refl
member-distinct a (x ∷ xs) = elim (Bool-cases (member x xs)) [
  | inl e ↦ rw e (ground (arith, member-distinct a xs, member-same a x xs))
  | inr e ↦ rw (e, member-distinct a xs) refl
]

pub member-minus :
    (a : ℕ) (xs ys : List ℕ) → member a (minus xs ys) ≡ (member a xs && not (member a ys))
unfolding minus
member-minus a [] ys = refl
member-minus a (x ∷ xs) ys = ground (arith, member-minus a xs ys, member-same a x ys)
