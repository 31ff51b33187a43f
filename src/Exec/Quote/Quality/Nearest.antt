-- ===== src/Exec/Quote/Quality/Nearest.antt =====
-- Rounding to the nearest whole number, a half to the even one: Python's ROUND_HALF_EVEN, as
-- scripts/agent/quote_quality.py quantizes.
use fail_closed_agent.Base.{
  ℕ, ◌+◌, ◌-◌, ◌*◌, ◌/◌, ◌%◌, ◌≤◌, ◌<◌, ◌≡◌, ◌⊎◌, inl, inr, sym, subst, arith, Bool-cases, ltb,
  ◌==◌, true, false, if◌then◌else◌,
}
use native.Mathlib.Nat.{mul-le-mul_right, div-add-mod', mod-lt}
use fail_closed_agent.Exec.Pricing.{round_half_even}

-- `q` times `d` is nearer to `x` than any other multiple, or as near and `q` even.
pub IsNearest : ℕ → ℕ → ℕ → Type 0
IsNearest d x q =
    (2 * (q * d) < 2 * x + d) × (2 * x < 2 * (q * d) + d)
    ⊎ ((2 * (q * d) ≡ 2 * x + d) ⊎ (2 * x ≡ 2 * (q * d) + d)) × (q % 2 ≡ 0)

pub at_most : (d x q : ℕ) → IsNearest d x q → (2 * (q * d) ≤ 2 * x + d) × (2 * x ≤ 2 * (q * d) + d)
unfolding IsNearest
at_most d x q h = (ground arith, ground arith)

even_at_half : (d x q : ℕ) → IsNearest d x q → 2 * (q * d) ≡ 2 * x + d → q % 2 ≡ 0
unfolding IsNearest
even_at_half d x q h e = ground arith

even_at_other_half : (d x q : ℕ) → IsNearest d x q → 2 * x ≡ 2 * (q * d) + d → q % 2 ≡ 0
unfolding IsNearest
even_at_other_half d x q h e = ground arith

not_both_even : (q : ℕ) → q % 2 ≡ 0 → (q + 1) % 2 ≡ 0 → ⊥
not_both_even q e f = ground arith

not_next : (d x q : ℕ) → IsNearest d x q → IsNearest d x (q + 1) → ⊥
not_next d x q h g =
    let (_, below) = at_most d x q h in
    let (above, _) = at_most d x (q + 1) g in
    let split : (q + 1) * d ≡ q * d + d = ground arith in
    not_both_even q (even_at_other_half d x q h (ground arith))
      (even_at_half d x (q + 1) g (ground arith))

not_beyond : (d x q k : ℕ) → 0 < d → 0 < k → IsNearest d x q → IsNearest d x (q + 1 + k) → ⊥
not_beyond d x q k p above_zero h g =
    let (_, below) = at_most d x q h in
    let (above, _) = at_most d x (q + 1 + k) g in
    let split : (q + 1 + k) * d ≡ q * d + d + k * d = ground arith in
    let one : 1 ≤ k = ground arith in let scaled = mul-le-mul_right d one in ground arith

not_above : (d x q r : ℕ) → 0 < d → IsNearest d x q → IsNearest d x r → r ≤ q
not_above d x q r p h g = elim (Bool-cases (ltb q r)) [
  | inr e ↦ ground arith
  | inl e ↦ elim (Bool-cases (r == q + 1)) [
    | inl next ↦ absurd (not_next d x q h (subst (IsNearest d x) (is_next r q next) g))
    | inr later ↦ absurd (
        not_beyond d x q (r - (q + 1)) p (ground arith) h
          (subst (IsNearest d x) (is_later r q e later) g))
  ]
]
  where
    is_next : (r q : ℕ) → (r == q + 1) ≡ true → r ≡ q + 1
    is_next r q e = ground arith

    is_later : (r q : ℕ) → ltb q r ≡ true → (r == q + 1) ≡ false → r ≡ q + 1 + (r - (q + 1))
    is_later r q e l = ground arith

-- There is one nearest number.
pub nearest-eq : (d x q r : ℕ) → 0 < d → IsNearest d x q → IsNearest d x r → q ≡ r
nearest-eq d x q r p h g =
    let a = not_above d x q r p h g in let b = not_above d x r q p g h in ground arith

rounded :
    (d n q m : ℕ)
    → n ≡ q * d + m
    → 0 < d
    → m < d
    → IsNearest d n (
        if ltb (m * 2) d
        then q
        else if ltb d (m * 2)
        then q + 1
        else if q % 2 == 0
        then q
        else q + 1)
unfolding IsNearest
rounded d n q m e p h =
    let split : (q + 1) * d ≡ q * d + d = ground arith in
    elim (Bool-cases (ltb (m * 2) d)) [
      | inl a ↦ rw a (inl (ground arith, ground arith))
      | inr a ↦ elim (Bool-cases (ltb d (m * 2))) [
        | inl b ↦ rw (a, b) (inl (ground arith, ground arith))
        | inr b ↦ elim (Bool-cases (q % 2 == 0)) [
          | inl c ↦ rw (a, b, c) (inr (inr (ground arith), ground arith))
          | inr c ↦ rw (a, b, c) (inr (inl (ground arith), ground arith))
        ]
      ]
    ]

-- The rounding of a quotient is nearest to it.
pub round_half_even-IsNearest : (n d : ℕ) → 0 < d → IsNearest d n (round_half_even n d)
unfolding round_half_even
round_half_even-IsNearest n d p =
    rounded d n (n / d) (n % d) (sym (div-add-mod' n d)) p (mod-lt n p)
