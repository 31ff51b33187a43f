-- ===== src/Exec/Pricing/Open.antt =====
-- scripts/agent/order_pricing.py, marketable_limit_cap: the cap of an opening order.
use fail_closed_agent.Base.{
  &&-false, ℕ, ◌+◌, ◌-◌, ◌*◌, ◌≤◌, ◌≡◌, refl, Bool, true, false, not, Option, none, some, List, [],
  ◌∷◌, ◌++◌, arith, Bool-cases, inl, inr, ltb, is_empty, is_empty-append, when, ◌≢◌, ap, subst, sym,
  ◌∙◌,
}
use fail_closed_agent.Base.Int.{ℤ, pos, negsuc, ◌≤ℤ◌}
use fail_closed_agent.Base.Ranked.{sorted_set, is_empty-sorted_set}
use fail_closed_agent.Exec.Order.{Side, buy, sell}
use fail_closed_agent.Exec.Quote.{QuoteSnapshot}
use fail_closed_agent.Exec.Reasons.{Reason, rank, not_marketable, unpriceable_candidate}
use fail_closed_agent.Exec.Pricing.{
  whole, tick_of, on_tick_grid, tick_for, round_down, round_up, budget_cap, within_limit, crosses,
  limit_defect, touch, CapResult, Capped, capped, exec_error, result, derive, conclude, raw_cap,
  some_reason, missing, marketable_limit_cap,
}

-- The limit `c` spends no more than `slippage` over the touch `t`.
pub WithinBudget : Side → ℕ → ℕ → ℕ → Type 0
WithinBudget buy t slippage c = c * whole ≤ t * (whole + slippage)
WithinBudget sell t slippage c = t * (whole - slippage) ≤ c * whole

-- The limit `c` is no worse than the strategy's own.
pub WithinLimit : Side → Option ℤ → ℕ → Type 0
WithinLimit side none c = Unit
WithinLimit buy (some l) c = pos c ≤ℤ l
WithinLimit sell (some l) c = l ≤ℤ pos c

pub Bounded : Side → Option ℕ → ℕ → Option ℤ → Bool → Option ℕ → Type 0
Bounded side t slippage limit marketable none = marketable ≡ false
Bounded side none slippage limit marketable (some c) = ⊥
Bounded side (some t) slippage limit marketable (some c) =
    WithinBudget side t slippage c
    × WithinLimit side limit c
    × (on_tick_grid c ≡ true)
    × (marketable ≡ crosses side c t)

-- The outcome of the derivation from the touch `t`: an error only where a seller's budget is all
-- of the price.
pub IsSound : Side → Option ℕ → ℕ → Option ℤ → Capped → Type 0
IsSound side t slippage limit exec_error = (side ≡ sell) × (whole ≤ slippage)
IsSound side t slippage limit (capped r) = Bounded side t slippage limit r.marketable r.capped_limit

budget_cap-grid : (side : Side) (raw : ℕ) → on_tick_grid (budget_cap side raw) ≡ true
unfolding budget_cap on_tick_grid tick_for tick_of round_down round_up
budget_cap-grid buy raw = ground arith
budget_cap-grid sell raw = ground arith

budget_cap-buy : (raw : ℕ) → budget_cap buy raw * whole ≤ raw
unfolding budget_cap tick_of round_down round_up
budget_cap-buy raw = ground arith

budget_cap-sell : (raw : ℕ) → raw ≤ budget_cap sell raw * whole
unfolding budget_cap tick_of round_down round_up
budget_cap-sell raw = ground arith

limit-grid : (n : ℕ) → limit_defect (some (pos n)) ≡ none → on_tick_grid n ≡ true
unfolding limit_defect
limit-grid n h = ground arith

no_negative : (n : ℕ) → limit_defect (some (negsuc n)) ≡ none → ⊥
unfolding limit_defect
no_negative n h = absurd (cc h)

within-buy :
    (raw n : ℕ)
    → on_tick_grid n ≡ true
    → (within_limit buy (budget_cap buy raw) (some (pos n)) * whole ≤ raw)
      × (pos (within_limit buy (budget_cap buy raw) (some (pos n))) ≤ℤ pos n)
      × (on_tick_grid (within_limit buy (budget_cap buy raw) (some (pos n))) ≡ true)
unfolding within_limit
within-buy raw n g =
    let below = budget_cap-buy raw in
    let grid = budget_cap-grid buy raw in (ground arith, ground arith, ground arith)

within-sell :
    (raw n : ℕ)
    → on_tick_grid n ≡ true
    → (raw ≤ within_limit sell (budget_cap sell raw) (some (pos n)) * whole)
      × (pos n ≤ℤ pos (within_limit sell (budget_cap sell raw) (some (pos n))))
      × (on_tick_grid (within_limit sell (budget_cap sell raw) (some (pos n))) ≡ true)
unfolding within_limit
within-sell raw n g =
    let above = budget_cap-sell raw in
    let grid = budget_cap-grid sell raw in (ground arith, ground arith, ground arith)

-- the derivation from a raw cap that is there
derived-IsSound :
    (side : Side) (raw t slippage : ℕ) (limit : Option ℤ) (move : ℤ) (reasons : List Reason)
    → limit_defect limit ≡ none
    → ((c : ℕ) → (side ≡ buy) → c * whole ≤ raw → WithinBudget side t slippage c)
    → ((c : ℕ) → (side ≡ sell) → raw ≤ c * whole → WithinBudget side t slippage c)
    → IsSound side (some t) slippage limit (derive side (some raw) t limit move reasons)
unfolding IsSound Bounded WithinLimit derive result within_limit
derived-IsSound buy raw t s none move reasons h under over =
    (under _ refl (budget_cap-buy raw), tt, budget_cap-grid buy raw, refl)
derived-IsSound sell raw t s none move reasons h under over =
    (over _ refl (budget_cap-sell raw), tt, budget_cap-grid sell raw, refl)
derived-IsSound buy raw t s (some (pos n)) move reasons h under over =
    let (b, l, g) = within-buy raw n (limit-grid n h) in (under _ refl b, l, g, refl)
derived-IsSound sell raw t s (some (pos n)) move reasons h under over =
    let (b, l, g) = within-sell raw n (limit-grid n h) in (over _ refl b, l, g, refl)
derived-IsSound side raw t s (some (negsuc n)) move reasons h under over = absurd (no_negative n h)

derive-IsSound :
    (side : Side) (t slippage : ℕ) (limit : Option ℤ) (move : ℤ) (reasons : List Reason)
    → limit_defect limit ≡ none
    → IsSound side
        (some t)
        slippage
        limit
        (derive side (raw_cap side t slippage) t limit move reasons)
unfolding raw_cap WithinBudget IsSound derive
derive-IsSound buy t s limit move reasons h =
    derived-IsSound buy (t * (whole + s)) t s limit move reasons h (λ c _ b. b)
      (λ c e. absurd (cc e))
derive-IsSound sell t s limit move reasons h = elim (Bool-cases (ltb s whole)) [
  | inl e ↦ rw e (
      derived-IsSound sell (t * (whole - s)) t s limit move reasons h (λ c e. absurd (cc e))
        (λ c _ b. b))
  | inr e ↦ rw e (refl, ground arith)
]

conclude-IsSound :
    (side : Side) (slippage : ℕ) (limit : Option ℤ) (move : ℤ) (defect : Option Reason)
    (t : Option ℕ) (reasons : List Reason)
    → limit_defect limit ≡ defect
    → IsSound side t slippage limit (conclude side slippage limit move defect t reasons)
unfolding conclude IsSound Bounded result
conclude-IsSound side s limit move none (some t) reasons e =
    derive-IsSound side t s limit move reasons e
conclude-IsSound side s limit move none none reasons e = refl
conclude-IsSound side s limit move (some d) t reasons e = refl

-- The cap of an opening order, whenever there is one, is on the tick grid, lies within the slippage
-- budget over the usable touch and within the strategy's limit, and is called marketable exactly
-- if it crosses the touch; without a cap the order is not marketable. The derivation fails only
-- for a seller's budget of the whole price or more.
pub marketable_limit_cap-IsSound :
    (side : Side) (quote_a quote_b : QuoteSnapshot) (slippage : ℕ) (limit : Option ℤ)
    → IsSound side
        (touch side quote_b)
        slippage
        limit
        (marketable_limit_cap side quote_a quote_b slippage limit)
unfolding marketable_limit_cap
marketable_limit_cap-IsSound side quote_a quote_b slippage limit =
    conclude-IsSound side slippage limit _ (limit_defect limit) (touch side quote_b) _ refl

-- an outcome with no reason is marketable
pub Willing : Capped → Type 0
Willing exec_error = Unit
Willing (capped r) = r.reasons ≡ [] → r.marketable ≡ true

not_empty : (xs : List Reason) → is_empty xs ≡ false → sorted_set rank xs ≢ []
not_empty xs h e = absurd (cc (is_empty-sorted_set rank xs, h, ap is_empty e))

derive-Willing :
    (side : Side) (raw : Option ℕ) (t : ℕ) (limit : Option ℤ) (move : ℤ) (reasons : List Reason)
    → Willing (derive side raw t limit move reasons)
unfolding Willing derive result
derive-Willing side none t limit move reasons = tt
derive-Willing side (some raw) t limit move reasons =
    let c = within_limit side (budget_cap side raw) limit in
    elim (Bool-cases (crosses side c t)) [
      | inl e ↦ λ _. e
      | inr e ↦ λ h. absurd (
          not_empty (reasons ++ when (not (crosses side c t)) not_marketable)
            (rw e (is_empty-append reasons (not_marketable ∷ []) ∙ &&-false (is_empty reasons))) h)
    ]

conclude-Willing :
    (side : Side) (slippage : ℕ) (limit : Option ℤ) (move : ℤ) (defect : Option Reason)
    (t : Option ℕ) (reasons : List Reason)
    → Willing
        (conclude side slippage limit move defect t (some_reason defect ++ (missing t ++ reasons)))
unfolding conclude Willing result
conclude-Willing side s limit move none (some t) reasons =
    derive-Willing side (raw_cap side t s) t limit move reasons
conclude-Willing side s limit move none none reasons =
    λ h. absurd (not_empty (unpriceable_candidate ∷ reasons) refl h)
conclude-Willing side s limit move (some d) t reasons =
    λ h. absurd (not_empty (d ∷ (missing t ++ reasons)) refl h)

pub marketable_limit_cap-Willing :
    (side : Side) (quote_a quote_b : QuoteSnapshot) (slippage : ℕ) (limit : Option ℤ)
    → Willing (marketable_limit_cap side quote_a quote_b slippage limit)
unfolding marketable_limit_cap
marketable_limit_cap-Willing side quote_a quote_b slippage limit =
    conclude-Willing side slippage limit _ (limit_defect limit) (touch side quote_b) _

-- What an outcome without a reason says of its limit.
pub Acceptable : Side → Option ℕ → ℕ → Option ℤ → ℕ → Type 0
Acceptable side touch_b slippage limit c =
    (t : ℕ) × (touch_b ≡ some t)
    × WithinBudget side t slippage c
    × WithinLimit side limit c
    × (on_tick_grid c ≡ true)
    × (crosses side c t ≡ true)

Bounded-Acceptable :
    (side : Side) (t : Option ℕ) (slippage : ℕ) (limit : Option ℤ) (marketable : Bool) (c : ℕ)
    → Bounded side t slippage limit marketable (some c)
    → marketable ≡ true
    → Acceptable side t slippage limit c
unfolding Bounded Acceptable
Bounded-Acceptable side none s limit m c h e = absurd h
Bounded-Acceptable side (some t) s limit m c (budget, own, grid, crossing) e =
    (t, refl, budget, own, grid, sym crossing ∙ e)

pub capped-Acceptable :
    (side : Side) (quote_a quote_b : QuoteSnapshot) (slippage : ℕ) (limit : Option ℤ)
    (r : CapResult) (c : ℕ)
    → marketable_limit_cap side quote_a quote_b slippage limit ≡ capped r
    → r.reasons ≡ []
    → r.capped_limit ≡ some c
    → Acceptable side (touch side quote_b) slippage limit c
unfolding IsSound Willing
capped-Acceptable side a b s limit r c h clean has_limit =
    let sound : IsSound side (touch side b) s limit (capped r) =
      subst (IsSound side (touch side b) s limit) h
        (marketable_limit_cap-IsSound side a b s limit) in
    let willing : Willing (capped r) =
      subst Willing h (marketable_limit_cap-Willing side a b s limit) in
    Bounded-Acceptable side (touch side b) s limit r.marketable c
      (subst (Bounded side (touch side b) s limit r.marketable) has_limit sound) (willing clean)
