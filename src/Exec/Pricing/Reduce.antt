-- ===== src/Exec/Pricing/Reduce.antt =====
-- scripts/agent/order_pricing.py, reduce_cap: the limit of a reduction.
use fail_closed_agent.Base.{
  ℕ, ◌+◌, ◌-◌, ◌*◌, ◌≤◌, ◌<◌, ◌≡◌, ◌⊎◌, inl, inr, refl, true, Option, none, some, arith, Bool-cases,
  ltb,
}
use fail_closed_agent.Exec.Order.{Side, buy, sell}
use fail_closed_agent.Exec.Quote.{QuoteSnapshot}
use fail_closed_agent.Exec.Pricing.{
  whole, tick_of, tick_for, on_tick_grid, round_down, round_up, positive, reduce_raw, reduce_touch,
  reduce_cap,
}

-- A seller's limit for the raw cap, if there is one, and a buyer's.
pub IsBelow : ℕ → Option ℕ → Type 0
IsBelow raw none = raw < 100 * whole
IsBelow raw (some c) =
    (0 < c) × (c * whole ≤ raw) × (raw < (c + 10000) * whole) × (on_tick_grid c ≡ true)

pub IsAbove : ℕ → Option ℕ → Type 0
IsAbove raw none = raw ≡ 0
IsAbove raw (some c) =
    (0 < c) × (raw ≤ c * whole) × (c * whole < raw + 10000 * whole) × (on_tick_grid c ≡ true)

-- The limit lies beyond the touch by the whole slippage, and by less than a cent more.
pub IsGenerous : Side → Option ℕ → ℕ → Option ℕ → Type 0
IsGenerous side none bps c = c ≡ none
IsGenerous sell (some t) bps c =
    (whole ≤ bps) × (c ≡ none) ⊎ (bps < whole) × IsBelow (t * (whole - bps)) c
IsGenerous buy (some t) bps c = IsAbove (t * (whole + bps)) c

down_below :
    (raw : ℕ)
    → let c = round_down raw (tick_of whole raw) in
      (c * whole ≤ raw) × (raw < (c + 10000) * whole) × (on_tick_grid c ≡ true)
unfolding round_down tick_of on_tick_grid tick_for
down_below raw = (ground arith, ground arith, ground arith)

down_none : (raw : ℕ) → round_down raw (tick_of whole raw) ≡ 0 → raw < 100 * whole
unfolding round_down tick_of
down_none raw h = ground arith

up_above :
    (raw : ℕ)
    → let c = round_up raw (tick_of whole raw) in
      (raw ≤ c * whole) × (c * whole < raw + 10000 * whole) × (on_tick_grid c ≡ true)
unfolding round_up tick_of on_tick_grid tick_for
up_above raw = (ground arith, ground arith, ground arith)

positive-cases : (n : ℕ) → (n ≡ 0) × (positive n ≡ none) ⊎ (0 < n) × (positive n ≡ some n)
positive-cases n = ground arith

sell-IsBelow : (raw : ℕ) → IsBelow raw (positive (round_down raw (tick_of whole raw)))
unfolding IsBelow
sell-IsBelow raw = elim (positive-cases (round_down raw (tick_of whole raw))) [
  | inl (zero_cap, e) ↦ rw e (down_none raw zero_cap)
  | inr (above, e) ↦ let (a, b, c) = down_below raw in rw e (above, a, b, c)
]

buy-IsAbove : (raw : ℕ) → IsAbove raw (positive (round_up raw (tick_of whole raw)))
unfolding IsAbove
buy-IsAbove raw = elim (positive-cases (round_up raw (tick_of whole raw))) [
  | inl (zero_cap, e) ↦ let (a, _, _) = up_above raw in rw e (ground arith)
  | inr (above, e) ↦ let (a, b, c) = up_above raw in rw e (above, a, b, c)
]

raw-IsGenerous :
    (side : Side) (t : Option ℕ) (bps : ℕ) → IsGenerous side t bps (reduce_raw t bps side)
unfolding IsGenerous reduce_raw
raw-IsGenerous side none bps = refl
raw-IsGenerous buy (some t) bps = buy-IsAbove (t * (whole + bps))
raw-IsGenerous sell (some t) bps = elim (Bool-cases (ltb bps whole)) [
  | inl e ↦ rw e (inr (ground arith, sell-IsBelow (t * (whole - bps))))
  | inr e ↦ rw e (inl (ground arith, refl))
]

-- The limit of a reduction lies beyond the usable touch by the whole slippage, rounded by less than a
-- cent to the side on which it fills more easily, positive and on the tick grid; there is none
-- only without a usable touch, for a seller who would give all the price away or ask less than the
-- smallest tick, or for a buyer at nothing.
pub reduce_cap-IsGenerous :
    (side : Side) (quote : QuoteSnapshot) (bps : ℕ)
    → IsGenerous side (reduce_touch side quote) bps (reduce_cap side quote bps)
unfolding reduce_cap
reduce_cap-IsGenerous side quote bps = raw-IsGenerous side (reduce_touch side quote) bps
