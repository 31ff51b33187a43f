-- ===== src/Exec/Realism/Priced.antt =====
-- scripts/agent/execution_realism.py: the size and the cost of a modelled fill, and the same cost
-- integrated again.
use fail_closed_agent.Base.{
  ℕ, ◌+◌, ◌-◌, ◌*◌, ◌≤◌, ◌≡◌, true, inl, inr, refl, sym, ap, ◌∙◌, Option, none, some, List, [], ◌∷◌,
  ltb, ◌==◌, if◌then◌else◌, Bool-cases, arith, subst,
}
use native.Mathlib.Nat.{mul-le-mul_left}
use fail_closed_agent.Exec.Pricing.{touch}
use fail_closed_agent.Exec.Order.{Side, buy, sell}
use fail_closed_agent.Exec.Realism.{
  min, at_or_inside, Walk, deepest, ModeledFill, fill_of_walk, fill_at_touch, prefix_cost,
  touch_cost, modeled_cost_over,
}
use fail_closed_agent.Exec.Realism.Walked.{total, value, WithinCap, WalkedOver, offered}

-- The shares that a ladder displays at the cap or inside it, or else the touch.
abbrev pub displayed : Side → ℕ → ℕ → ℕ → Option (List (ℕ × ℕ)) → ℕ
displayed side cap px sz none = if at_or_inside side cap px then sz else 0
displayed side cap px sz (some ladder) = offered side cap ladder

pub IsPriced : Side → ℕ → ℕ → ℕ → Option ModeledFill → Type 0
IsPriced side cap qty shares none = min qty shares ≡ 0
IsPriced side cap qty shares (some m) =
    (modeled_cost_over m qty ≡ m.modeled_cost_usd)
    × (m.modeled_fillable_qty ≡ min qty shares)
    × WithinCap side cap qty m.modeled_cost_usd

none_walked : (qty rest shares : ℕ) → rest ≡ qty - shares → qty - rest ≡ min qty shares
none_walked qty rest shares e = ground arith

is_zero : (n : ℕ) → (n == 0) ≡ true → n ≡ 0
is_zero n e = ground arith

prefix_cost-zero : (levels : List (ℕ × ℕ)) (worst : ℕ) → prefix_cost levels worst 0 ≡ 0
unfolding prefix_cost
prefix_cost-zero [] worst = refl
prefix_cost-zero (level ∷ rest) worst = refl

none_left : (a b c : ℕ) → ((a + b + c) == 0) ≡ true → (a ≡ 0) × (b + c ≡ 0)
none_left a b c e = (ground arith, ground arith)

min_first : (a b c : ℕ) → min (a + b + c) a ≡ a
min_first a b c = ground arith

after_first : (a b c : ℕ) → a + b + c - a ≡ b + c
after_first a b c = ground arith

prefix_cost-value :
    (levels : List (ℕ × ℕ)) (worst r : ℕ)
    → prefix_cost levels worst (total levels + r) ≡ value levels + r * worst
unfolding prefix_cost
prefix_cost-value [] worst r = ground arith
prefix_cost-value ((px, take) ∷ rest) worst r = elim (Bool-cases ((take + total rest + r) == 0)) [
  | inl e ↦
      let (t, z) = none_left take (total rest) r e in
      rw e (nothing (prefix_cost-value rest worst r) t z)
  | inr e ↦ rw e (
      some_left (prefix_cost-value rest worst r) (min_first take (total rest) r)
        (after_first take (total rest) r))
]
  where
    nothing :
        prefix_cost rest worst (total rest + r) ≡ value rest + r * worst
        → take ≡ 0
        → total rest + r ≡ 0
        → 0 ≡ take * px + value rest + r * worst
    nothing ih t z =
        let v : value rest + r * worst ≡ 0 =
          sym ih ∙ (ap (prefix_cost rest worst) z ∙ prefix_cost-zero rest worst) in
        rw t (ground arith)

    some_left :
        prefix_cost rest worst (total rest + r) ≡ value rest + r * worst
        → min (take + total rest + r) take ≡ take
        → take + total rest + r - take ≡ total rest + r
        → min (take + total rest + r) take * px
            + prefix_cost rest worst (take + total rest + r - min (take + total rest + r) take)
          ≡ take * px + value rest + r * worst
    some_left ih m d =
        let deeper : prefix_cost rest worst (take + total rest + r - take)
            ≡ value rest + r * worst =
          ap (prefix_cost rest worst) d ∙ ih in
        rw (m, deeper) (ground arith)

within_rest :
    (side : Side) (cap n rest cost : ℕ)
    → WithinCap side cap n cost
    → WithinCap side cap (n + rest) (cost + rest * cap)
unfolding WithinCap
within_rest buy cap n rest cost h = ground arith
within_rest sell cap n rest cost h = ground arith

walk_whole :
    (w : Walk) (qty worst : ℕ)
    → total w.consumed + w.remaining ≡ qty
    → w.cost_usd ≡ value w.consumed
    → prefix_cost w.consumed worst qty ≡ w.cost_usd + w.remaining * worst
walk_whole w qty worst a b =
    ap (prefix_cost w.consumed worst) (sym a)
    ∙ (prefix_cost-value w.consumed worst w.remaining ∙ ap (λ x. x + w.remaining * worst) (sym b))

nothing_left : (n rest worst : ℕ) → rest ≡ 0 → n + rest * worst ≡ n
nothing_left n rest worst z = rw z (ground arith)

pub fill_of_walk-IsPriced :
    (side : Side) (cap touch qty shares : ℕ) (w : Walk)
    → WalkedOver side cap qty w
    → w.remaining ≡ qty - shares
    → IsPriced side cap qty shares (fill_of_walk cap touch qty w)
unfolding fill_of_walk IsPriced WalkedOver
fill_of_walk-IsPriced side cap touch qty shares w (a, b, c) left =
    elim (Bool-cases ((qty - w.remaining) == 0)) [
      | inl e ↦ rw e (sym (none_walked qty w.remaining shares left) ∙ is_zero (qty - w.remaining) e)
      | inr e ↦ rw e (elim (Bool-cases (ltb 0 w.remaining)) [
        | inl p ↦ rw p (
          walk_whole w qty cap a b,
          ground arith,
          subst (λ n. WithinCap side cap n (w.cost_usd + w.remaining * cap)) a
              (within_rest side cap (total w.consumed) w.remaining w.cost_usd c),
        )
        | inr p ↦ rw p (
          walk_whole w qty (deepest cap w.consumed) a b
              ∙ nothing_left w.cost_usd w.remaining (deepest cap w.consumed) (ground arith),
          ground arith,
          subst (λ n. WithinCap side cap n w.cost_usd) (whole_walked (ground arith) a) c,
        )
      ])
    ]
  where
    whole_walked : {n rest m : ℕ} → rest ≡ 0 → n + rest ≡ m → n ≡ m
    whole_walked z h = ground arith

touch_whole :
    (touch cap part qty : ℕ)
    → part ≤ qty
    → (if ltb 0 (qty - min qty part)
        then min qty part * touch
          + (qty - min qty part) * (if ltb 0 (qty - part) then cap else touch)
        else min qty part * touch)
      ≡ part * touch + (qty - part) * cap
touch_whole touch cap part qty h = elim (Bool-cases (ltb 0 (qty - part))) [
  | inl e ↦ rw (same, e) refl
  | inr e ↦ rw (same, e) (sym (nothing_left (part * touch) (qty - part) cap (ground arith)))
]
  where
    same : min qty part ≡ part
    same = ground arith

within_touch :
    (side : Side) (cap touch n : ℕ)
    → at_or_inside side cap touch ≡ true
    → WithinCap side cap n (n * touch)
unfolding WithinCap
within_touch buy cap touch n e = let below : touch ≤ cap = ground arith in mul-le-mul_left n below
within_touch sell cap touch n e = let above : cap ≤ touch = ground arith in mul-le-mul_left n above

pub fill_at_touch-IsPriced :
    (side : Side) (cap touch touch_sz qty : ℕ)
    → IsPriced side cap qty
        (displayed side cap touch touch_sz none)
        (fill_at_touch side cap touch touch_sz qty)
unfolding fill_at_touch IsPriced touch_cost
fill_at_touch-IsPriced side cap touch touch_sz qty =
    elim (Bool-cases (at_or_inside side cap touch)) [
      | inl e ↦ rw e (
        touch_whole touch cap (min qty touch_sz) qty (ground arith),
        refl,
        subst
            (λ n. WithinCap side cap n (min qty touch_sz * touch + (qty - min qty touch_sz) * cap))
            (ground arith)
            (within_rest side cap (min qty touch_sz) (qty - min qty touch_sz) _
              (within_touch side cap touch (min qty touch_sz) e)),
      )
      | inr e ↦ rw e (ground arith)
    ]
