-- ===== src/Risk/Engine/Collected.antt =====
-- scripts/agent/risk/can_open.py, the second phase: what holds where it collects no reason.
use fail_closed_agent.Base.{
  ◌≡◌, sym, ap, subst, ◌∙◌, true, false, List, [], ◌++◌, All, ℕ, is_empty, if_false, none, Option,
  append-eq-nil, All-map,
}
use fail_closed_agent.Base.Int.{ℤ, ◌≤ℤ◌, ◌-ℤ◌}
use fail_closed_agent.Risk.Account.{BrokerAccountRead}
use fail_closed_agent.Risk.Reasons.{RiskReason}
use fail_closed_agent.Risk.Exposure.{PortfolioRead, PricedLeg, in_universe, project_caps}
use fail_closed_agent.Risk.Exposure.Caps.{Respects, project_caps_iff}
use fail_closed_agent.Risk.Engine.Stages.{
  fine, Inputs, PricedLegs, classify_all, stage_candidate, stage_market_state, stage_universe,
  stage_pdt, stage_loss, price_legs, intraday_margin_buffer_usd,
}
use fail_closed_agent.Risk.Engine.Stages.Clean.{Opens, leg_reasons-Opens}
use fail_closed_agent.Risk.Engine.Stages.Permits.{
  >>=-fine, fine-eq, IsTradable, WithinLosses, stage_universe-IsClean, stage_market_state-IsClean,
  stage_margin-IsClean, stage_pdt-IsClean, stage_loss-IsClean, stage_candidate-IsClean,
}
use fail_closed_agent.Risk.Engine.Stages.Priced.{
  Counts, total_of, OpensLong, price_legs-IsPriced, opening-All, Counts-is_empty,
}
use fail_closed_agent.Risk.Engine.{collected, capped_reasons, priced_gross}

-- What the legs, on top of what is held, leave within the caps and the buying power.
pub Fits : Inputs → PortfolioRead → BrokerAccountRead → ℤ → Type 0
Fits i p read gross =
    (added : List PricedLeg) × Counts i.candidate.legs added
    × (gross ≡ total_of added)
    × Respects i.cfg p added i.candidate.legs
    × (gross ≤ℤ read.buying_power -ℤ intraday_margin_buffer_usd)
    × (is_empty i.margin_read.outstanding_nonminor ≡ true)

-- what the second phase ends with where it collects no reason
unfoldable pub Collects : Inputs → PortfolioRead → BrokerAccountRead → PricedLegs → Type 0
Collects i p read legs =
    (i.candidate.paper_eligible ≡ true)
    × All (Opens p) i.candidate.legs
    × All (λ leg. in_universe i.cfg leg.symbol ≡ true) i.candidate.legs
    × All (IsTradable i.market_state i.margin_read) i.candidate.legs
    × Fits i p read legs.gross_notional
    × (i.pdt_read.rejection_latched ≡ false)
    × WithinLosses i.cfg read i.hwm_equity

capped-Fits :
    (i : Inputs) (p : PortfolioRead) (read : BrokerAccountRead) (legs : PricedLegs)
    → is_empty i.candidate.legs ≡ false
    → All (OpensLong p) i.candidate.legs
    → price_legs i.candidate.legs (classify_all p i.candidate.legs) i.marks i.now_ms ≡ fine legs
    → capped_reasons i p read (classify_all p i.candidate.legs) legs ≡ []
    → Fits i p read legs.gross_notional
unfolding capped_reasons Fits
capped-Fits i p read legs some_leg long e h =
    let (counts, total) = price_legs-IsPriced p i.candidate.legs i.marks i.now_ms legs long e in
    let (caps, margin) = append-eq-nil _ _ (
      sym (if_false _ _ (Counts-is_empty i.candidate.legs legs.priced_legs counts ∙ some_leg))
      ∙ h) in
    let (power, settled) = stage_margin-IsClean legs.gross_notional read i.margin_read margin in
    (
      legs.priced_legs,
      counts,
      total,
      (project_caps_iff i.cfg p legs.priced_legs i.candidate.legs).0 (
          subst (λ o. project_caps i.cfg p legs.priced_legs o ≡ [])
            (opening-All p i.candidate.legs long) caps),
      power,
      settled,
    )

clean-Collects :
    (i : Inputs) (p : PortfolioRead) (read : BrokerAccountRead)
    (market : List RiskReason × Option ℕ) (legs : PricedLegs)
    → is_empty i.candidate.legs ≡ false
    → stage_market_state i.candidate.legs i.market_state i.margin_read none ≡ fine market
    → price_legs i.candidate.legs (classify_all p i.candidate.legs) i.marks i.now_ms ≡ fine legs
    → stage_candidate i.candidate p (classify_all p i.candidate.legs)
        ++ (stage_universe i.cfg i.candidate.legs
            ++ (market.0
                ++ (capped_reasons i p read (classify_all p i.candidate.legs) legs
                    ++ (stage_pdt i.pdt_read (priced_gross legs) read
                        ++ stage_loss i.cfg read i.hwm_equity))))
      ≡ []
    → Collects i p read legs
unfolding Collects
clean-Collects i p read market legs some_leg e1 e2 h =
    let classes = classify_all p i.candidate.legs in
    let (h1, t1) = append-eq-nil _ _ h in
    let (h2, t2) = append-eq-nil _ _ t1 in
    let (h3, t3) = append-eq-nil _ _ t2 in
    let (h4, t4) = append-eq-nil _ _ t3 in
    let (h5, h6) = append-eq-nil _ _ t4 in
    let (eligible, opens) = stage_candidate-IsClean i.candidate p classes h1 in
    let long = leg_reasons-Opens p i.candidate.legs opens in
    (
      eligible,
      All-map (λ leg o. o.0) i.candidate.legs long,
      stage_universe-IsClean i.cfg i.candidate.legs h2,
      stage_market_state-IsClean i.candidate.legs i.market_state i.margin_read none market e1 h3,
      capped-Fits i p read legs some_leg long e2 h4,
      stage_pdt-IsClean i.pdt_read (priced_gross legs) read h5,
      stage_loss-IsClean i.cfg read i.hwm_equity h6,
    )

pub collected-Collects :
    (i : Inputs) (p : PortfolioRead) (read : BrokerAccountRead)
    (out : List RiskReason × PricedLegs × Option ℕ)
    → is_empty i.candidate.legs ≡ false
    → collected i p read ≡ fine out
    → out.0 ≡ []
    → Collects i p read out.1
unfolding collected
collected-Collects i p read out some_leg h empty =
    let (market, e1, h1) =
      >>=-fine (stage_market_state i.candidate.legs i.market_state i.margin_read none) _ out h in
    let (legs, e2, h2) =
      >>=-fine (price_legs i.candidate.legs (classify_all p i.candidate.legs) i.marks i.now_ms) _
        out h1 in
    let e = fine-eq _ out h2 in
    subst (λ l. Collects i p read l) (ap (λ o. o.1) e)
      (clean-Collects i p read market legs some_leg e1 e2 (ap (λ o. o.0) e ∙ empty))
