-- ===== src/Exec/Fees.antt =====
-- scripts/agent/fees.py: what a trade is assumed to owe in regulatory fees. Quantities and proceeds count
-- millionths of a share and of a dollar, fees count cents, and a rate its own unit. `none` is ValueError;
-- the checks of Python types hold by the types here, and the version is left out.
pub mod Rounded
mod Tests
use fail_closed_agent.Base.{
  ℕ, ◌+◌, ◌-◌, ◌*◌, ◌/◌, Bool, ◌&&◌, Option, none, some, ltb, if◌then◌else◌,
}
use fail_closed_agent.Base.Int.{pos}
use fail_closed_agent.Base.Decimal.{Decimal, finite, is_finite, is_positive}
use fail_closed_agent.Exec.Order.{Side, buy, sell}

-- in ten-millionths of the proceeds
abbrev pub sec_section31_rate : ℕ
sec_section31_rate = 278

-- in millionths of a dollar for a share
abbrev pub taf_per_share_sold : ℕ
taf_per_share_sold = 166

-- in cents
abbrev pub taf_cap_per_trade_usd : ℕ
taf_cap_per_trade_usd = 830

-- A cent, in the units of proceeds times rate, and of quantity times rate.
abbrev pub sec_cent : ℕ
sec_cent = 100000000000

abbrev pub taf_cent : ℕ
taf_cent = 10000000000

pub record FeeAssumption : Type 0 where
  pub sec_usd : ℕ
  pub taf_usd : ℕ
  pub total_usd : ℕ

abbrev pub require_positive_decimal : Decimal → Bool
require_positive_decimal value = is_finite value && is_positive value

-- `quantize(CENT, ROUND_CEILING)`
abbrev pub sec_of : ℕ → ℕ
sec_of notional = (notional * sec_section31_rate + (sec_cent - 1)) / sec_cent

abbrev pub taf_uncapped : ℕ → ℕ
taf_uncapped qty = (qty * taf_per_share_sold + (taf_cent - 1)) / taf_cent

-- `min(…, TAF_CAP_PER_TRADE_USD)`
unfoldable pub taf_of : ℕ → ℕ
taf_of qty =
    if ltb taf_cap_per_trade_usd (taf_uncapped qty) then taf_cap_per_trade_usd else taf_uncapped qty

unfoldable pub fees_charged : Side → ℕ → ℕ → FeeAssumption
fees_charged buy qty notional = record { sec_usd = 0; taf_usd = 0; total_usd = 0 }
fees_charged sell qty notional = record {
  sec_usd = sec_of notional;
  taf_usd = taf_of qty;
  total_usd = sec_of notional + taf_of qty;
}

-- the number of a value that is finite and not negative
abbrev pub amount_of : Decimal → ℕ
amount_of (finite (pos n)) = n
amount_of _ = 0

unfoldable pub fees_for : Side → Decimal → Decimal → Option FeeAssumption
fees_for side qty notional =
    if require_positive_decimal qty && require_positive_decimal notional
    then some (fees_charged side (amount_of qty) (amount_of notional))
    else none
