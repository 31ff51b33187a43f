-- ===== src/Risk/Engine/Stages/Clean.antt =====
-- scripts/agent/risk/can_open.py, the stages of the second phase: what the inputs of a stage that adds
-- no reason are like.
use fail_closed_agent.Base.{◌≡◌, false, ◌&&◌, List, [], ◌∷◌, arith, when, All, append-eq-nil}
use fail_closed_agent.Base.Int.{ℤ, pos, ◌≤ℤ◌}
use fail_closed_agent.Exec.Order.{buy}
use fail_closed_agent.Exec.Preflight.Inputs.{Leg}
use fail_closed_agent.Risk.Reasons.{RiskReason}
use fail_closed_agent.Risk.Exposure.{PortfolioRead, qty_for, is_unpriceable}
use fail_closed_agent.Risk.Engine.Stages.{
  opening_long, classify_iml_reducing, classify, classify_all, is_opening, side_reasons,
  leg_reasons,
}

-- A leg that buys, adding to no short, at a price.
unfoldable pub Opens : PortfolioRead → Leg → Type 0
Opens p leg =
    (leg.side ≡ buy) × (pos 0 ≤ℤ qty_for p leg.symbol) × (is_unpriceable leg.limit_price ≡ false)

one_leg :
    (leg : Leg) (held : ℤ) (r : RiskReason)
    → side_reasons leg.side leg.qty held ≡ []
    → when (is_opening (classify leg held) && is_unpriceable leg.limit_price) r ≡ []
    → (leg.side ≡ buy)
      × (pos 0 ≤ℤ held)
      × (is_unpriceable leg.limit_price ≡ false)
      × (classify leg held ≡ opening_long)
unfolding side_reasons classify classify_iml_reducing
one_leg leg held r h k = ground arith

pub leg_reasons-Opens :
    (p : PortfolioRead) (legs : List Leg)
    → leg_reasons p legs (classify_all p legs) ≡ []
    → All (λ leg. Opens p leg × (classify leg (qty_for p leg.symbol) ≡ opening_long)) legs
unfolding leg_reasons classify_all All Opens
leg_reasons-Opens p [] h = tt
leg_reasons-Opens p (leg ∷ rest) h =
    let (side, others) = append-eq-nil _ _ h in
    let (price, below) = append-eq-nil _ _ others in
    let (a, b, c, d) = one_leg leg (qty_for p leg.symbol) _ side price in
    (((a, b, c), d), leg_reasons-Opens p rest below)
