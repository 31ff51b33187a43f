-- ===== src/Exec/Fees/Tests.antt =====
-- A witness of the theorem on the fees, and what the sale of 100 shares for 5,000 dollars owes.
use fail_closed_agent.Base.{◌≡◌, refl, some}
use fail_closed_agent.Base.Int.{pos}
use fail_closed_agent.Base.Decimal.{Decimal, finite}
use fail_closed_agent.Exec.Order.{sell}
use fail_closed_agent.Exec.Fees.{fees_for, fees_charged, taf_of}
use fail_closed_agent.Exec.Fees.Rounded.{IsConservative, fees_for-IsConservative}

abbrev shares : Decimal
shares = finite (pos 100000000)

abbrev proceeds : Decimal
proceeds = finite (pos 5000000000)

sale : fees_for sell shares proceeds ≡ some (record { sec_usd = 14; taf_usd = 2; total_usd = 16 })
unfolding fees_for fees_charged taf_of
sale = refl

fees_for-IsConservative_example :
    IsConservative sell shares proceeds (fees_for sell shares proceeds)
fees_for-IsConservative_example = fees_for-IsConservative sell shares proceeds
