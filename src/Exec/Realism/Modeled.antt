-- ===== src/Exec/Realism/Modeled.antt =====
-- scripts/agent/execution_realism.py, model_fill: what is made of a quote and of a ladder.
use fail_closed_agent.Base.{
  ℕ, ◌<◌, ◌≡◌, ◌⊎◌, true, false, inl, inr, refl, Option, none, some, List, ltb, Bool-cases, arith,
}
use fail_closed_agent.Base.Int.{pos, negsuc}
use fail_closed_agent.Base.Decimal.{Decimal, finite, infinite, nan}
use fail_closed_agent.Exec.Quote.{QuoteSnapshot, usable}
use fail_closed_agent.Exec.Pricing.{touch}
use fail_closed_agent.Exec.Preflight.Inputs.{QuoteVerdict}
use fail_closed_agent.Exec.Order.{Side, buy, sell}
use fail_closed_agent.Exec.Realism.{walk_ladder, ModeledFill, model_fill, fill_of_sides, touch_size}
use fail_closed_agent.Exec.Realism.Walked.{offered, walk_ladder-WalkedOver, remaining-walk_ladder}
use fail_closed_agent.Exec.Realism.Priced.{
  displayed, IsPriced, fill_of_walk-IsPriced, fill_at_touch-IsPriced,
}

-- A price and a size that are positive and finite.
pub AreSolid : Option Decimal → Option Decimal → ℕ → ℕ → Type 0
AreSolid price size px sz =
    (price ≡ some (finite (pos px))) × (size ≡ some (finite (pos sz))) × (0 < px) × (0 < sz)

-- The side of the quote at which the order would trade has the price `px` and the size `sz`.
pub HasTouch : Side → QuoteSnapshot → ℕ → ℕ → Type 0
HasTouch buy q px sz = AreSolid q.ask q.ask_sz px sz
HasTouch sell q px sz = AreSolid q.bid q.bid_sz px sz

-- What the model makes of a quote: a fill is of a quote that its verdict accepts, with a touch, and
-- there is none only for another quote, or where nothing is displayed.
pub IsModeled :
    Side
    → ℕ
    → QuoteSnapshot
    → QuoteVerdict
    → Option (List (ℕ × ℕ))
    → ℕ
    → Option ModeledFill
    → Type 0
IsModeled side cap q v depth qty fill =
    (fill ≡ none) × (v.ok ≡ false)
    ⊎ (fill ≡ none) × ¬ ((px : ℕ) × (sz : ℕ) × HasTouch side q px sz)
    ⊎ ((px : ℕ) × (sz : ℕ) × (v.ok ≡ true)
        × HasTouch side q px sz
        × IsPriced side cap qty (displayed side cap px sz depth) fill)

usable-cases :
    (x : Option Decimal)
    → ((n : ℕ) × (usable x ≡ some n) × (x ≡ some (finite (pos n))) × (0 < n))
      ⊎ (usable x ≡ none) × ¬ ((n : ℕ) × (x ≡ some (finite (pos n))) × (0 < n))
usable-cases none = inr (refl, λ (n, e, p). absurd (cc e))
usable-cases (some (infinite s)) = inr (refl, λ (n, e, p). absurd (cc e))
usable-cases (some nan) = inr (refl, λ (n, e, p). absurd (cc e))
usable-cases (some (finite (negsuc k))) = inr (refl, λ (n, e, p). absurd (cc e))
usable-cases (some (finite (pos k))) = elim (Bool-cases (ltb 0 k)) [
  | inl above ↦ rw above (inl (k, refl, refl, ground arith))
  | inr below ↦ rw below (inr (refl, λ (n, e, p). not_above n below (same_number e) p))
]
  where
    same_number : {n : ℕ} → some (finite (pos k)) ≡ some (finite (pos n)) → k ≡ n
    same_number e = cc e

    not_above : (n : ℕ) → ltb 0 k ≡ false → k ≡ n → 0 < n → ⊥
    not_above n e s p = ground arith

touched-IsPriced :
    (side : Side) (cap px sz : ℕ) (depth : Option (List (ℕ × ℕ))) (qty : ℕ)
    → IsPriced side cap qty
        (displayed side cap px sz depth)
        (fill_of_sides side cap (some px) (some sz) depth qty)
unfolding fill_of_sides
touched-IsPriced side cap px sz none qty = fill_at_touch-IsPriced side cap px sz qty
touched-IsPriced side cap px sz (some ladder) qty =
    fill_of_walk-IsPriced side cap px qty (offered side cap ladder)
      (walk_ladder side cap ladder qty) (walk_ladder-WalkedOver side cap ladder qty)
      (remaining-walk_ladder side cap ladder qty)

unsided :
    (side : Side) (cap : ℕ) (x : Option ℕ) (depth : Option (List (ℕ × ℕ))) (qty : ℕ)
    → fill_of_sides side cap x none depth qty ≡ none
unfolding fill_of_sides
unsided side cap none depth qty = refl
unsided side cap (some px) depth qty = refl

legs_cases :
    (side : Side) (cap : ℕ) (x y : Option Decimal) (depth : Option (List (ℕ × ℕ))) (qty : ℕ)
    → let fill = fill_of_sides side cap (usable x) (usable y) depth qty in
      (fill ≡ none) × ¬ ((px : ℕ) × (sz : ℕ) × AreSolid x y px sz)
      ⊎ ((px : ℕ) × (sz : ℕ) × AreSolid x y px sz
          × IsPriced side cap qty (displayed side cap px sz depth) fill)
unfolding fill_of_sides AreSolid
legs_cases side cap x y depth qty = elim (usable-cases x) [
  | inr (e, lacks) ↦ rw e (inl (refl, λ (px, sz, h). let (a, _, p, _) = h in lacks (px, a, p)))
  | inl (px, e, a, p) ↦ elim (usable-cases y) [
    | inr (f, lacks) ↦ rw f (
        inl (
          unsided side cap (usable x) depth qty,
          λ (_, sz, h). let (_, b, _, r) = h in lacks (sz, b, r),
        ))
    | inl (sz, f, b, r) ↦
        rw (e, f) (inr (px, sz, (a, b, p, r), touched-IsPriced side cap px sz depth qty))
  ]
]

sides_cases :
    (side : Side) (cap : ℕ) (q : QuoteSnapshot) (depth : Option (List (ℕ × ℕ))) (qty : ℕ)
    → let fill = fill_of_sides side cap (touch side q) (touch_size side q) depth qty in
      (fill ≡ none) × ¬ ((px : ℕ) × (sz : ℕ) × HasTouch side q px sz)
      ⊎ ((px : ℕ) × (sz : ℕ) × HasTouch side q px sz
          × IsPriced side cap qty (displayed side cap px sz depth) fill)
unfolding HasTouch
sides_cases buy cap q depth qty = legs_cases buy cap q.ask q.ask_sz depth qty
sides_cases sell cap q depth qty = legs_cases sell cap q.bid q.bid_sz depth qty

-- No fill is modelled for a quote that its verdict faults or that lacks a positive, finite price or size at the
-- touch. For any other, from a ladder or from the touch, the fill is of the shares that are displayed
-- at the cap or inside it, as many as the order is for; there is none only where that is nothing. The
-- order then costs no more than the cap on each share (for a seller, it brings no less), and the cost
-- integrated again over the whole order is the modelled cost.
pub model_fill-IsModeled :
    (side : Side) (cap : ℕ) (q : QuoteSnapshot) (v : QuoteVerdict) (depth : Option (List (ℕ × ℕ)))
    (qty : ℕ)
    → IsModeled side cap q v depth qty (model_fill side cap q v depth qty)
unfolding model_fill IsModeled
model_fill-IsModeled side cap q v depth qty = elim (Bool-cases v.ok) [
  | inr e ↦ rw e (inl (refl, refl))
  | inl e ↦ rw e (elim (sides_cases side cap q depth qty) [
    | inl (nothing, lacks) ↦ inr (inl (nothing, lacks))
    | inr (px, sz, solid, priced) ↦ inr (inr (px, sz, refl, solid, priced))
  ])
]
