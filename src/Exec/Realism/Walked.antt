-- ===== src/Exec/Realism/Walked.antt =====
-- scripts/agent/execution_realism.py: what a walk of the ladder takes, and what that costs.
use fail_closed_agent.Base.{
  ℕ, ◌+◌, ◌-◌, ◌*◌, ◌≤◌, ◌≡◌, inl, inr, refl, ap, ◌∙◌, Bool, true, false, not, ◌||◌, List, [], ◌∷◌,
  ltb, ◌==◌, if◌then◌else◌, Bool-cases, arith,
}
use native.Mathlib.Nat.{mul-le-mul_left}
use fail_closed_agent.Exec.Order.{Side, buy, sell}
use fail_closed_agent.Exec.Realism.{min, at_or_inside, Walk, take_level, stop, walk_ladder}

abbrev pub total : List (ℕ × ℕ) → ℕ
total [] = 0
total ((px, take) ∷ rest) = take + total rest

abbrev pub value : List (ℕ × ℕ) → ℕ
value [] = 0
value ((px, take) ∷ rest) = take * px + value rest

-- The cost of `n` shares is no worse than the cap on each.
unfoldable pub WithinCap : Side → ℕ → ℕ → ℕ → Type 0
WithinCap buy cap n cost = cost ≤ n * cap
WithinCap sell cap n cost = n * cap ≤ cost

unfoldable pub WalkedOver : Side → ℕ → ℕ → Walk → Type 0
WalkedOver side cap qty w =
    (total w.consumed + w.remaining ≡ qty)
    × (w.cost_usd ≡ value w.consumed)
    × WithinCap side cap (total w.consumed) w.cost_usd

-- The shares that a ladder offers at the cap or inside it.
unfoldable pub offered : Side → ℕ → List (ℕ × ℕ) → ℕ
offered side cap [] = 0
offered side cap ((px, sz) ∷ ladder) =
    let deeper = offered side cap ladder in if at_or_inside side cap px then sz + deeper else 0

within_more :
    (side : Side) (cap px take n cost : ℕ)
    → at_or_inside side cap px ≡ true
    → WithinCap side cap n cost
    → WithinCap side cap (take + n) (take * px + cost)
unfolding WithinCap
within_more buy cap px take n cost e h =
    let below : px ≤ cap = ground arith in let scaled = mul-le-mul_left take below in ground arith
within_more sell cap px take n cost e h =
    let above : cap ≤ px = ground arith in let scaled = mul-le-mul_left take above in ground arith

stop-WalkedOver : (side : Side) (cap qty : ℕ) → WalkedOver side cap qty (stop qty)
unfolding WalkedOver WithinCap
stop-WalkedOver buy cap qty = (ground arith, refl, ground arith)
stop-WalkedOver sell cap qty = (ground arith, refl, ground arith)

take_level-WalkedOver :
    (side : Side) (cap px qty take : ℕ) (w : Walk)
    → at_or_inside side cap px ≡ true
    → take ≤ qty
    → WalkedOver side cap (qty - take) w
    → WalkedOver side cap qty (take_level px take w)
unfolding WalkedOver take_level
take_level-WalkedOver side cap px qty take w e le (a, b, c) = elim (Bool-cases (ltb 0 take)) [
  | inl p ↦ rw p (
    ground arith,
    ap (λ x. take * px + x) b,
    within_more side cap px take (total w.consumed) w.cost_usd e c,
  )
  | inr p ↦ rw p (ground arith, b, c)
]

pub walk_ladder-WalkedOver :
    (side : Side) (cap : ℕ) (ladder : List (ℕ × ℕ)) (qty : ℕ)
    → WalkedOver side cap qty (walk_ladder side cap ladder qty)
unfolding walk_ladder
walk_ladder-WalkedOver side cap [] qty = stop-WalkedOver side cap qty
walk_ladder-WalkedOver side cap ((px, sz) ∷ ladder) qty =
    elim (Bool-cases (qty == 0 || not (at_or_inside side cap px))) [
      | inl p ↦ rw p (stop-WalkedOver side cap qty)
      | inr p ↦ rw p (
          take_level-WalkedOver side cap px qty (min qty sz) _ (was_inside (qty == 0) _ p)
            (ground arith) (walk_ladder-WalkedOver side cap ladder (qty - min qty sz)))
    ]
  where
    was_inside : (a b : Bool) → (a || not b) ≡ false → b ≡ true
    was_inside true true h = absurd (cc h)
    was_inside true false h = absurd (cc h)
    was_inside false true h = refl
    was_inside false false h = absurd (cc h)

remaining-take_level : (px take : ℕ) (w : Walk) → (take_level px take w).remaining ≡ w.remaining
unfolding take_level
remaining-take_level px take w = elim (Bool-cases (ltb 0 take)) [
  | inl e ↦ rw e refl
  | inr e ↦ rw e refl
]

zero_first : (n rest : ℕ) → (n == 0) ≡ true → n ≡ n - rest
zero_first n rest e = ground arith

minus_both : (n sz rest : ℕ) → n - min n sz - rest ≡ n - (sz + rest)
minus_both n sz rest = ground arith

pub remaining-walk_ladder :
    (side : Side) (cap : ℕ) (ladder : List (ℕ × ℕ)) (qty : ℕ)
    → (walk_ladder side cap ladder qty).remaining ≡ qty - offered side cap ladder
unfolding walk_ladder offered
remaining-walk_ladder side cap [] qty = ground arith
remaining-walk_ladder side cap ((px, sz) ∷ ladder) qty =
    elim (Bool-cases (at_or_inside side cap px)) [
      | inr i ↦ rw i (elim (Bool-cases (qty == 0)) [
        | inl e ↦ rw e (ground arith)
        | inr e ↦ rw e (ground arith)
      ])
      | inl i ↦ rw i (elim (Bool-cases (qty == 0)) [
        | inl e ↦ rw e (zero_first qty (sz + offered side cap ladder) e)
        | inr e ↦ rw e (
            remaining-take_level px (min qty sz) (walk_ladder side cap ladder (qty - min qty sz))
            ∙ (remaining-walk_ladder side cap ladder (qty - min qty sz)
                ∙ minus_both qty sz (offered side cap ladder)))
      ])
    ]
