-- ===== src/Base/Lists.antt =====
-- Lists measured by native numbers, and lists of optional parts.
use Prim.Native.Nat.{ℕ, suc}
use mathlib.Core.Path.{◌≡◌, refl}
use mathlib.Core.Bool.{Bool, true, false, ◌&&◌, ◌||◌}
use mathlib.Core.List.{List, [], ◌∷◌, ◌++◌}

pub or_false : (a b : Bool) → (a || b) ≡ false → (a ≡ false) × (b ≡ false)
or_false false b h = (refl, h)
or_false true b h = absurd (cc h)

module _ {ℓ} {A : Type ℓ} where
  abbrev pub length : List A → ℕ
  length [] = 0
  length (x ∷ xs) = suc (length xs)

  -- `if b: out.add(a)`
  abbrev pub when : Bool → A → List A
  when true a = a ∷ []
  when false a = []

  abbrev pub is_empty : List A → Bool
  is_empty [] = true
  is_empty (x ∷ xs) = false

  pub nil_of : (xs : List A) → is_empty xs ≡ true → xs ≡ []
  nil_of [] h = refl
  nil_of (x ∷ xs) h = absurd (cc h)

  pub append-eq-nil : (xs ys : List A) → xs ++ ys ≡ [] → (xs ≡ []) × (ys ≡ [])
  append-eq-nil [] ys h = (refl, h)
  append-eq-nil (x ∷ xs) ys h = absurd (cc h)

  pub is_empty-append : (xs ys : List A) → is_empty (xs ++ ys) ≡ (is_empty xs && is_empty ys)
  is_empty-append [] ys = refl
  is_empty-append (x ∷ xs) ys = refl

  -- `any(f(x) for x in xs)`
  unfoldable pub any : List A → (A → Bool) → Bool
  any [] f = false
  any (x ∷ xs) f = f x || any xs f

  unfoldable pub All {ℓ'} : (A → Type ℓ') → List A → Type ℓ'
  All P [] = Unit
  All P (x ∷ xs) = P x × All P xs

  -- what a loop that adds one code for some member adds
  pub any-All : (xs : List A) (f : A → Bool) → any xs f ≡ false → All (λ x. f x ≡ false) xs
  unfolding any All
  any-All [] f h = tt
  any-All (x ∷ xs) f h =
      let (first, rest) = or_false (f x) (any xs f) h in (first, any-All xs f rest)

  pub All-map {ℓ' ℓ''} :
      {P : A → Type ℓ'} {Q : A → Type ℓ''} (f : (x : A) → P x → Q x) (xs : List A)
      → All P xs
      → All Q xs
  unfolding All
  All-map f [] h = tt
  All-map f (x ∷ xs) (p, h) = (f x p, All-map f xs h)

  pub All-any : (xs : List A) (f : A → Bool) → All (λ x. f x ≡ false) xs → any xs f ≡ false
  unfolding any All
  All-any [] f h = refl
  All-any (x ∷ xs) f (p, h) = rw (p, All-any xs f h) refl
