-- ===== src/Exec/Preflight/Ladder/Pass.antt =====
-- scripts/agent/execution_preflight.py, evaluate_preflight: what a pass says of the inputs.
use fail_closed_agent.Base.{ℕ, ◌≡◌, sym, ◌∙◌, true, Option, some, List, [], ◌∷◌, subst, of_some-eq}
use fail_closed_agent.Config.{opening_allowed}
use fail_closed_agent.Exec.Order.{Side, buy}
use fail_closed_agent.Exec.Quote.{QuoteSnapshot}
use fail_closed_agent.Exec.Pricing.{touch}
use fail_closed_agent.Exec.Pricing.Open.{Acceptable}
use fail_closed_agent.Exec.Preflight.Inputs.{
  PreflightInputs, PreflightPass, Leg, QuoteVerdict, monitoring, Outside, passed,
}
use fail_closed_agent.Exec.Preflight.Stages.{collect, check_latency, check_quote, priced, limit_of}
use fail_closed_agent.Exec.Preflight.Stages.Clean.{
  IsClean, WholeShares, check_candidate-clean, PaperPath, check_strategy_gate-clean,
  check_inflight-clean, Requoted, check_latency-clean, check_quote-clean, OpenMarket,
  check_market_state-clean,
}
use fail_closed_agent.Exec.Preflight.Ladder.{
  complete_stamp, cap_of, stages, conclude, evaluate_preflight,
}
use fail_closed_agent.Exec.Preflight.Ladder.Rungs.{
  RiskLicence, check_risk-clean, conclude-passed, pass_of-passed, StagesClean, stages-clean,
  ladder-passed, kill_rung-passed, phase_two-passed, check_order-clean, priced-some,
}

pair-eq :
    {x y : Side} {a b : QuoteSnapshot} → x ≡ y → a ≡ b → Path (Side × QuoteSnapshot) (x, a) (y, b)
pair-eq e f = cc

faultless :
    (b : Option QuoteSnapshot) (o : Option QuoteVerdict)
    → IsClean (check_quote b o)
    → (v : QuoteVerdict) × (o ≡ some v) × (v.reasons ≡ [])
faultless b o h = let (_, v, _, e, none_there) = check_quote-clean b o h in (v, e, none_there)

module _ (outside : Outside) where
  -- The order `p` was licensed by everything that the ladder asks.
  pub IsLicensed : PreflightInputs → PreflightPass → Type 0
  IsLicensed i p =
      (leg : Leg) × (rest : List Leg) × (decision : ℕ) × (t : ℕ) × (a : QuoteSnapshot)
      × (i.candidate.legs ≡ leg ∷ rest)
      × (opening_allowed i.gates_config ≡ true)
      × (i.kill_state ≡ monitoring)
      × (complete_stamp outside i.stamp ≡ some (decision, t, a))
      × (p.symbol ≡ leg.symbol)
      × (p.side ≡ buy)
      × (p.qty ≡ leg.qty)
      × WholeShares leg.qty
      × ((i.candidate.paper_eligible ≡ true)
          × PaperPath i.strategy_is_synthetic i.artifact_check i.broker_kind)
      × (i.open_orders_in_flight ≡ 0)
      × (i.quote_b ≡ some p.quote_b_provenance)
      × ((v : QuoteVerdict) × (i.quote_b_verdict ≡ some v) × (v.reasons ≡ []))
      × Requoted t a p.quote_b_provenance i.exec_config.effective_latency_budget_ms i.feed_epoch_now
      × OpenMarket i.market_state leg
      × Acceptable buy (touch buy p.quote_b_provenance) i.exec_config.slippage_cap_bps
          leg.limit_price p.capped_limit
      × RiskLicence outside i leg decision

  concluded-IsLicensed :
      (i : PreflightInputs) (p : PreflightPass) (leg : Leg) (rest : List Leg) (decision t : ℕ)
      (a : QuoteSnapshot)
      → i.candidate.legs ≡ leg ∷ rest
      → opening_allowed i.gates_config ≡ true
      → i.kill_state ≡ monitoring
      → complete_stamp outside i.stamp ≡ some (decision, t, a)
      → conclude outside i leg t
          (cap_of outside i leg a)
          (collect (stages outside i leg decision t a))
        ≡ passed p
      → IsLicensed i p
  unfolding IsLicensed StagesClean cap_of RiskLicence
  concluded-IsLicensed i p leg rest decision t a legs gates kill stamp h =
      let (clean, pass) = conclude-passed outside i leg t (cap_of outside i leg a) _ p h in
      let (c4, c5, c6, c7, c8, c9, c10, c11) = stages-clean outside i leg decision t a clean in
      let (limit, symbol, _, side, qty, _, quote) =
        pass_of-passed outside i leg t (limit_of (cap_of outside i leg a)) i.quote_b i.risk_verdict
          p pass in
      let (is_a_buy, lot) = check_candidate-clean i.candidate leg c4 in
      let (b, pricing, acceptable) =
        check_order-clean outside leg a (priced i.quote_b i.quote_b_verdict)
          i.exec_config.slippage_cap_bps p.capped_limit c10 limit in
      let same : b ≡ p.quote_b_provenance =
        of_some-eq b p.quote_b_provenance
          (sym (priced-some outside i.quote_b i.quote_b_verdict b pricing) ∙ quote) in
      (
        leg,
        rest,
        decision,
        t,
        a,
        legs,
        gates,
        kill,
        stamp,
        symbol,
        side ∙ is_a_buy,
        qty,
        lot,
        check_strategy_gate-clean i.candidate.paper_eligible i.strategy_is_synthetic
            i.artifact_check i.broker_kind c5,
        check_inflight-clean i.open_orders_in_flight c6,
        quote,
        faultless i.quote_b i.quote_b_verdict c8,
        check_latency-clean t a p.quote_b_provenance i.exec_config.effective_latency_budget_ms
            i.feed_epoch_now
            (subst
              (λ q.
                IsClean
                  (check_latency t a q i.exec_config.effective_latency_budget_ms i.feed_epoch_now))
              quote c7),
        check_market_state-clean i.market_state leg c9,
        subst
            (λ x.
              Acceptable x.0 (touch x.0 x.1) i.exec_config.slippage_cap_bps leg.limit_price
                p.capped_limit)
            (pair-eq is_a_buy same) acceptable,
        check_risk-clean outside i.risk_verdict i.risk_verdict_row i.risk_verdict_now_ms decision
            leg i.kill_generation i.now_ms c11,
      )

  pub evaluate_preflight-IsLicensed :
      (i : PreflightInputs) (p : PreflightPass)
      → evaluate_preflight outside i ≡ passed p
      → IsLicensed i p
  unfolding evaluate_preflight
  evaluate_preflight-IsLicensed i p h =
      let (leg, rest, legs, gates, rung) = ladder-passed outside i i.candidate.legs p h in
      let (kill, second) = kill_rung-passed outside i leg i.kill_state p rung in
      let (decision, t, a, stamp, end) =
        phase_two-passed outside i leg (complete_stamp outside i.stamp) p second in
      concluded-IsLicensed i p leg rest decision t a legs gates kill stamp end

  pub licensed-gates :
      (i : PreflightInputs) (p : PreflightPass)
      → IsLicensed i p
      → opening_allowed i.gates_config ≡ true
  unfolding IsLicensed
  licensed-gates i p h = h.6
