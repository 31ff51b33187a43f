-- ===== src/Exec/Realism.antt =====
-- scripts/agent/execution_realism.py: the fill that a quote or a book says an order would have, and its cost
-- integrated again over a part of it. A level is a price and a size. Prices are on the grid of
-- MID_QUANTUM, so that the worst price is kept as it is. Whether a ladder is used (its identity, epoch
-- and age) is decided before; that, the averages, the reasons and the provenance of the quote, which
-- only reports read, and the checks of Python types are left out.
pub mod Walked
pub mod Priced
pub mod Modeled
mod Tests
use fail_closed_agent.Base.{
  ℕ, ◌+◌, ◌-◌, ◌*◌, Bool, not, ◌||◌, Option, none, some, List, [], ◌∷◌, ltb, leb, ◌==◌,
  if◌then◌else◌,
}
use fail_closed_agent.Exec.Order.{Side, buy, sell}
use fail_closed_agent.Exec.Quote.{QuoteSnapshot, usable}
use fail_closed_agent.Exec.Pricing.{touch}
use fail_closed_agent.Exec.Preflight.Inputs.{QuoteVerdict}

abbrev pub min : ℕ → ℕ → ℕ
min a b = if leb a b then a else b

-- `px` is at the cap or inside it.
abbrev pub at_or_inside : Side → ℕ → ℕ → Bool
at_or_inside buy cap px = leb px cap
at_or_inside sell cap px = leb cap px

pub record Walk : Type 0 where
  pub consumed : List (ℕ × ℕ)
  pub cost_usd : ℕ
  pub remaining : ℕ

unfoldable pub take_level : ℕ → ℕ → Walk → Walk
take_level px take w =
    if ltb 0 take
    then record {
      consumed = (px, take) ∷ w.consumed;
      cost_usd = take * px + w.cost_usd;
      remaining = w.remaining;
    }
    else w

abbrev pub stop : ℕ → Walk
stop remaining = record { consumed = []; cost_usd = 0; remaining = remaining }

unfoldable pub walk_ladder : Side → ℕ → List (ℕ × ℕ) → ℕ → Walk
walk_ladder side cap [] remaining = stop remaining
walk_ladder side cap ((px, sz) ∷ ladder) remaining =
    let rest = walk_ladder side cap ladder (remaining - min remaining sz) in
    if remaining == 0 || not (at_or_inside side cap px)
    then stop remaining
    else take_level px (min remaining sz) rest

-- `consumed[-1][0]`, where something was consumed
abbrev pub deepest : ℕ → List (ℕ × ℕ) → ℕ
deepest px [] = px
deepest px ((next, take) ∷ rest) = deepest next rest

pub data Model : Type 0 where
  tob_l1_v1 : Model
  depth_vwap_l2_v2 : List (ℕ × ℕ) → Model

pub record ModeledFill : Type 0 where
  pub model : Model
  pub requested_qty : ℕ
  pub modeled_fillable_qty : ℕ
  pub worst_price : ℕ
  pub touch_price : ℕ
  pub modeled_cost_usd : ℕ

unfoldable pub fill_of_walk : ℕ → ℕ → ℕ → Walk → Option ModeledFill
fill_of_walk cap touch qty w =
    if qty - w.remaining == 0
    then none
    else some (record {
      model = depth_vwap_l2_v2 w.consumed;
      requested_qty = qty;
      modeled_fillable_qty = qty - w.remaining;
      worst_price = if ltb 0 w.remaining then cap else deepest cap w.consumed;
      touch_price = touch;
      modeled_cost_usd = if ltb 0 w.remaining then w.cost_usd + w.remaining * cap else w.cost_usd;
    })

unfoldable pub fill_at_touch : Side → ℕ → ℕ → ℕ → ℕ → Option ModeledFill
fill_at_touch side cap touch touch_sz qty =
    if at_or_inside side cap touch
    then some (record {
      model = tob_l1_v1;
      requested_qty = qty;
      modeled_fillable_qty = min qty touch_sz;
      worst_price = if ltb 0 (qty - min qty touch_sz) then cap else touch;
      touch_price = touch;
      modeled_cost_usd = min qty touch_sz * touch + (qty - min qty touch_sz) * cap;
    })
    else none

unfoldable pub fill_of_sides :
    Side → ℕ → Option ℕ → Option ℕ → Option (List (ℕ × ℕ)) → ℕ → Option ModeledFill
fill_of_sides side cap (some px) (some sz) none qty = fill_at_touch side cap px sz qty
fill_of_sides side cap (some px) (some sz) (some ladder) qty =
    fill_of_walk cap px qty (walk_ladder side cap ladder qty)
fill_of_sides side cap _ _ depth qty = none

-- the size at the opposite touch
abbrev pub touch_size : Side → QuoteSnapshot → Option ℕ
touch_size buy q = usable q.ask_sz
touch_size sell q = usable q.bid_sz

-- The fill from a ladder that is used, or else from the touch; `none` is `modeled_unfillable`.
unfoldable pub model_fill :
    Side → ℕ → QuoteSnapshot → QuoteVerdict → Option (List (ℕ × ℕ)) → ℕ → Option ModeledFill
model_fill side cap quote_b verdict depth qty =
    if verdict.ok
    then fill_of_sides side cap (touch side quote_b) (touch_size side quote_b) depth qty
    else none

-- The cost of the first shares of a prefix, the rest at `worst`.
unfoldable pub prefix_cost : List (ℕ × ℕ) → ℕ → ℕ → ℕ
prefix_cost [] worst remaining = if ltb 0 remaining then remaining * worst else 0
prefix_cost ((px, level_qty) ∷ rest) worst remaining =
    let deeper = prefix_cost rest worst (remaining - min remaining level_qty) in
    if remaining == 0 then 0 else min remaining level_qty * px + deeper

unfoldable pub touch_cost : ModeledFill → ℕ → ℕ
touch_cost m filled_qty =
    let part = min filled_qty m.modeled_fillable_qty in
    if ltb 0 (filled_qty - part)
    then part * m.touch_price + (filled_qty - part) * m.worst_price
    else part * m.touch_price

abbrev pub cost_in : Model → ModeledFill → ℕ → ℕ
cost_in tob_l1_v1 m filled_qty = touch_cost m filled_qty
cost_in (depth_vwap_l2_v2 levels) m filled_qty = prefix_cost levels m.worst_price filled_qty

-- what assess_divergence compares the broker's cost with
abbrev pub modeled_cost_over : ModeledFill → ℕ → ℕ
modeled_cost_over m filled_qty = cost_in m.model m filled_qty
