-- ===== src/Exec/Pricing.antt =====
-- scripts/agent/order_pricing.py: the cap of an opening order and of a reduction. Prices count
-- millionths of a dollar, basis points hundredths of one, so a raw cap is a number of
-- 10 ^ -12 dollars; the context of 28 digits is taken as exact, so a quotient is rounded once.
pub mod Open
pub mod Reduce
mod Tests
use fail_closed_agent.Base.{
  ℕ, ◌+◌, ◌-◌, ◌*◌, ◌/◌, ◌%◌, Bool, true, false, not, ◌||◌, Option, none, some, List, [], ◌∷◌, ◌++◌,
  ltb, leb, ◌==◌, if◌then◌else◌, when,
}
use fail_closed_agent.Base.Int.{ℤ, pos, ltb_ℤ, leb_ℤ, ◌-ℤ◌}
use fail_closed_agent.Base.Ranked.{sorted_set}
use fail_closed_agent.Exec.Order.{Side, buy, sell}
use fail_closed_agent.Exec.Reasons.{
  Reason, rank, unpriceable_candidate, invalid_tick, not_marketable, latency_lost_edge,
}
use fail_closed_agent.Exec.Quote.{QuoteSnapshot, usable}

-- 10000 basis points
abbrev pub whole : ℕ
whole = 1000000

abbrev pub one_dollar : ℕ
one_dollar = 1000000

-- the grid of a price, given as a number of `1 / scale` price units
unfoldable pub tick_of : ℕ → ℕ → ℕ
tick_of scale raw = if leb (one_dollar * scale) raw then 10000 else 100

unfoldable pub tick_for : ℕ → ℕ
tick_for price = if leb one_dollar price then 10000 else 100

unfoldable pub on_tick_grid : ℕ → Bool
on_tick_grid price = price % tick_for price == 0

-- `quantize(tick, ROUND_DOWN)` and `ROUND_UP` of a positive raw cap
unfoldable pub round_down : ℕ → ℕ → ℕ
round_down raw tick = raw / (whole * tick) * tick

pub round_up : ℕ → ℕ → ℕ
round_up raw tick = (raw + (whole * tick - 1)) / (whole * tick) * tick

-- `quantize(BPS_QUANTUM, ROUND_HALF_EVEN)` of a quotient
unfoldable pub round_half_even : ℕ → ℕ → ℕ
round_half_even n d =
    if ltb (n % d * 2) d
    then n / d
    else if ltb d (n % d * 2)
    then n / d + 1
    else if n / d % 2 == 0
    then n / d
    else n / d + 1

-- the move from `ta` to `tb` in hundredths of a basis point, adverse for a buyer if positive
unfoldable pub signed_move : ℕ → ℕ → ℤ
unfolding round_half_even
signed_move ta tb =
    if leb ta tb
    then pos (round_half_even ((tb - ta) * whole) ta)
    else pos 0 -ℤ pos (round_half_even ((ta - tb) * whole) ta)

unfoldable pub adverse_move_bps : Side → Option ℕ → Option ℕ → ℤ
adverse_move_bps buy (some ta) (some tb) = signed_move ta tb
adverse_move_bps sell (some ta) (some tb) = pos 0 -ℤ signed_move ta tb
adverse_move_bps _ _ _ = pos 0

abbrev pub touch : Side → QuoteSnapshot → Option ℕ
touch buy q = usable q.ask
touch sell q = usable q.bid

pub record CapResult : Type 0 where
  pub capped_limit : Option ℕ
  pub marketable : Bool
  pub adverse_move_bps : ℤ
  pub reasons : List Reason

-- The reason against a strategy limit, if any: not positive, or off its own grid.
unfoldable pub limit_defect : Option ℤ → Option Reason
limit_defect none = none
limit_defect (some (pos n)) =
    if n == 0
    then some unpriceable_candidate
    else if on_tick_grid n
    then none
    else some invalid_tick
limit_defect (some _) = some unpriceable_candidate

-- the raw cap over the touch; `none` is the ExecError of `tick_for` on a raw cap that is not positive
unfoldable pub raw_cap : Side → ℕ → ℕ → Option ℕ
raw_cap buy t slippage = some (t * (whole + slippage))
raw_cap sell t slippage = if ltb slippage whole then some (t * (whole - slippage)) else none

unfoldable pub budget_cap : Side → ℕ → ℕ
unfolding tick_of round_down round_up
budget_cap buy raw = round_down raw (tick_of whole raw)
budget_cap sell raw = round_up raw (tick_of whole raw)

-- the cap and a valid strategy limit together
unfoldable pub within_limit : Side → ℕ → Option ℤ → ℕ
within_limit side cap none = cap
within_limit buy cap (some (pos l)) = if leb cap l then cap else l
within_limit sell cap (some (pos l)) = if leb l cap then cap else l
within_limit side cap (some _) = cap

unfoldable pub crosses : Side → ℕ → ℕ → Bool
crosses buy limit t = leb t limit
crosses sell limit t = leb limit t

abbrev some_reason : Option Reason → List Reason
some_reason none = []
some_reason (some r) = r ∷ []

abbrev missing : Option ℕ → List Reason
missing none = unpriceable_candidate ∷ []
missing (some _) = []

pub data Capped : Type 0 where
  capped : CapResult → Capped
  exec_error : Capped

unfoldable pub result : Option ℕ → Bool → ℤ → List Reason → CapResult
result limit marketable move reasons = record {
  capped_limit = limit;
  marketable = marketable;
  adverse_move_bps = move;
  reasons = sorted_set rank reasons;
}

-- the derivation of the cap from a usable touch and a valid limit
unfoldable pub derive : Side → Option ℕ → ℕ → Option ℤ → ℤ → List Reason → Capped
derive side none t limit move reasons = exec_error
derive side (some raw) t limit move reasons =
    let c = within_limit side (budget_cap side raw) limit in
    capped (
      result (some c) (crosses side c t) move
        (reasons ++ when (not (crosses side c t)) not_marketable))

unfoldable pub conclude : Side → ℕ → Option ℤ → ℤ → Option Reason → Option ℕ → List Reason → Capped
conclude side slippage limit move none (some t) reasons =
    derive side (raw_cap side t slippage) t limit move reasons
conclude side slippage limit move _ _ reasons = capped (result none false move reasons)

unfoldable pub marketable_limit_cap : Side → QuoteSnapshot → QuoteSnapshot → ℕ → Option ℤ → Capped
marketable_limit_cap side quote_a quote_b slippage_cap_bps strategy_limit =
    let move = adverse_move_bps side (touch side quote_a) (touch side quote_b) in
    conclude side slippage_cap_bps strategy_limit move (limit_defect strategy_limit)
      (touch side quote_b)
      (some_reason (limit_defect strategy_limit)
        ++ (missing (touch side quote_b)
            ++ when (ltb_ℤ (pos slippage_cap_bps) move) latency_lost_edge))

abbrev positive : ℕ → Option ℕ
positive n = if n == 0 then none else some n

pub reduce_raw : Option ℕ → ℕ → Side → Option ℕ
reduce_raw none cap_bps side = none
reduce_raw (some t) cap_bps sell =
    if ltb cap_bps whole
    then positive (round_down (t * (whole - cap_bps)) (tick_of whole (t * (whole - cap_bps))))
    else none
reduce_raw (some t) cap_bps buy =
    positive (round_up (t * (whole + cap_bps)) (tick_of whole (t * (whole + cap_bps))))

abbrev pub reduce_touch : Side → QuoteSnapshot → Option ℕ
reduce_touch sell q = usable q.bid
reduce_touch buy q = usable q.ask

pub reduce_cap : Side → QuoteSnapshot → ℕ → Option ℕ
reduce_cap side quote cap_bps = reduce_raw (reduce_touch side quote) cap_bps side
