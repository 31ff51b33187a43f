-- ===== src/Exec/Fees/Rounded.antt =====
-- scripts/agent/fees.py: the fees round against the trader, by less than a cent, up to the cap.
use fail_closed_agent.Base.{
  ℕ, ◌+◌, ◌*◌, ◌≤◌, ◌<◌, ◌≡◌, ◌⊎◌, refl, inl, inr, true, false, ◌&&◌, Option, none, some, ltb,
  Bool-cases, arith,
}
use fail_closed_agent.Base.Decimal.{Decimal}
use fail_closed_agent.Exec.Order.{Side, buy, sell}
use fail_closed_agent.Exec.Fees.{
  sec_section31_rate, taf_per_share_sold, taf_cap_per_trade_usd, sec_cent, taf_cent, FeeAssumption,
  require_positive_decimal, amount_of, sec_of, taf_of, taf_uncapped, fees_charged, fees_for,
}

-- `c` is the least number of cents that is not below `x`.
pub IsCeiling : ℕ → ℕ → ℕ → Type 0
IsCeiling cent x c = (x ≤ c * cent) × (c * cent < x + cent)

-- The least number of cents again, or the cap, where more is owed.
pub IsCapped : ℕ → ℕ → Type 0
IsCapped x c =
    (c ≤ taf_cap_per_trade_usd) × IsCeiling taf_cent x c
    ⊎ (c ≡ taf_cap_per_trade_usd) × (taf_cap_per_trade_usd * taf_cent < x)

pub Owed : Side → ℕ → ℕ → FeeAssumption → Type 0
Owed buy qty notional f = (f.sec_usd ≡ 0) × (f.taf_usd ≡ 0) × (f.total_usd ≡ 0)
Owed sell qty notional f =
    IsCeiling sec_cent (notional * sec_section31_rate) f.sec_usd
    × IsCapped (qty * taf_per_share_sold) f.taf_usd
    × (f.total_usd ≡ f.sec_usd + f.taf_usd)

pub IsConservative : Side → Decimal → Decimal → Option FeeAssumption → Type 0
IsConservative side qty notional none =
    (require_positive_decimal qty && require_positive_decimal notional) ≡ false
IsConservative side qty notional (some f) =
    ((require_positive_decimal qty && require_positive_decimal notional) ≡ true)
    × Owed side (amount_of qty) (amount_of notional) f

sec_of-IsCeiling :
    (notional : ℕ) → IsCeiling sec_cent (notional * sec_section31_rate) (sec_of notional)
unfolding IsCeiling
sec_of-IsCeiling notional = (ground arith, ground arith)

taf_of-IsCapped : (qty : ℕ) → IsCapped (qty * taf_per_share_sold) (taf_of qty)
unfolding IsCapped IsCeiling taf_of
taf_of-IsCapped qty = elim (Bool-cases (ltb taf_cap_per_trade_usd (taf_uncapped qty))) [
  | inl e ↦ rw e (inr (refl, ground arith))
  | inr e ↦ rw e (inl (ground arith, (ground arith, ground arith)))
]

fees_charged-Owed :
    (side : Side) (qty notional : ℕ) → Owed side qty notional (fees_charged side qty notional)
unfolding Owed fees_charged
fees_charged-Owed buy qty notional = (refl, refl, refl)
fees_charged-Owed sell qty notional = (sec_of-IsCeiling notional, taf_of-IsCapped qty, refl)

-- The fees are refused exactly if the quantity or the proceeds are not a positive finite number. A buyer owes
-- none. A seller owes the rate on the proceeds and the rate on the shares, each rounded up to the next
-- cent, the second up to its cap, which it is only where more is owed, and the sum in total.
pub fees_for-IsConservative :
    (side : Side) (qty notional : Decimal)
    → IsConservative side qty notional (fees_for side qty notional)
unfolding IsConservative fees_for
fees_for-IsConservative side qty notional =
    elim (Bool-cases (require_positive_decimal qty && require_positive_decimal notional)) [
      | inl e ↦ rw e (e, fees_charged-Owed side (amount_of qty) (amount_of notional))
      | inr e ↦ rw e e
    ]
