-- ===== src/Exec/Preflight/Ladder/Rungs.antt =====
-- scripts/agent/execution_preflight.py, evaluate_preflight: what a pass says at each rung of the
-- ladder.
use fail_closed_agent.Base.{ℕ, ◌≡◌, refl, ap, sym, true, Option, none, some, List, [], ◌∷◌, arith}
use fail_closed_agent.Config.{opening_allowed}
use fail_closed_agent.Exec.Quote.{QuoteSnapshot}
use fail_closed_agent.Exec.Pricing.{
  touch, CapResult, Capped, capped, exec_error, marketable_limit_cap,
}
use fail_closed_agent.Exec.Pricing.Open.{Acceptable, capped-Acceptable}
use fail_closed_agent.Exec.Preflight.Inputs.{
  PreflightInputs, PreflightPass, Leg, KillState, monitoring, flattening, halted,
  unknown_kill_state, RiskRow, RiskVerdict, QuoteVerdict, Outside, passed,
}
use fail_closed_agent.Exec.Preflight.Stages.{
  Collected, reasons, fault, collect, any_reserved, check_candidate, check_strategy_gate,
  check_inflight, check_latency, check_quote, check_market_state, priced, order_cap, check_order,
  limit_of,
}
use fail_closed_agent.Exec.Preflight.Stages.Clean.{
  IsClean, collect-IsClean, RiskAllows, risk_reasons-clean,
}
use fail_closed_agent.Exec.Preflight.Ladder.{
  complete_stamp, check_risk, cap_of, stages, pass_of, conclude, phase_two, kill_rung, ladder,
  terminal_reject,
}

capped_parts :
    (c : Capped) (limit : ℕ)
    → IsClean (check_order (some c))
    → limit_of (some c) ≡ some limit
    → (r : CapResult) × (c ≡ capped r) × (r.reasons ≡ []) × (r.capped_limit ≡ some limit)
unfolding check_order
capped_parts (capped r) limit h e = (r, refl, cc h, e)
capped_parts exec_error limit h e = absurd (cc h)

module _ (outside : Outside) where
  -- The row of the risk verdict is there, hashes to what it says, and allows the order.
  unfoldable pub RiskLicence : PreflightInputs → Leg → ℕ → Type 0
  RiskLicence i leg decision =
      (v : RiskVerdict) × (row : RiskRow) × (at : ℕ) × (i.risk_verdict ≡ some v)
      × (i.risk_verdict_row ≡ some row)
      × (i.risk_verdict_now_ms ≡ some at)
      × (row.hash ≡ some (outside.row_hash row.body))
      × RiskAllows v row.body at decision leg i.kill_generation i.now_ms

  pub check_risk-clean :
      (v : Option RiskVerdict) (row : Option RiskRow) (at : Option ℕ) (decision : ℕ) (leg : Leg)
      (generation now : ℕ)
      → IsClean (check_risk outside v row at decision leg generation now)
      → (w : RiskVerdict) × (r : RiskRow) × (m : ℕ) × (v ≡ some w)
        × (row ≡ some r)
        × (at ≡ some m)
        × (r.hash ≡ some (outside.row_hash r.body))
        × RiskAllows w r.body m decision leg generation now
  unfolding check_risk
  check_risk-clean (some v) (some row) (some at) decision leg generation now h = (
    v,
    row,
    at,
    refl,
    refl,
    refl,
    ground arith,
    risk_reasons-clean v row.body at decision leg generation now (ground arith),
  )
  check_risk-clean none row at decision leg generation now h = absurd (cc h)
  check_risk-clean (some v) none at decision leg generation now h = absurd (cc h)
  check_risk-clean (some v) (some row) none decision leg generation now h = absurd (cc h)

  pub conclude-passed :
      (i : PreflightInputs) (leg : Leg) (t : ℕ) (cap : Option Capped) (c : Collected)
      (p : PreflightPass)
      → conclude outside i leg t cap c ≡ passed p
      → IsClean c × (pass_of outside i leg t (limit_of cap) i.quote_b i.risk_verdict ≡ passed p)
  unfolding conclude any_reserved
  conclude-passed i leg t cap (fault e) p h = absurd (cc h)
  conclude-passed i leg t cap (reasons []) p h = (refl, h)
  conclude-passed i leg t cap (reasons (r ∷ rs)) p h = ground arith

  passed-eq : (p q : PreflightPass) → passed p ≡ passed q → p ≡ q
  passed-eq p q h = cc

  pub pass_of-passed :
      (i : PreflightInputs) (leg : Leg) (t : ℕ) (cap : Option ℕ) (b : Option QuoteSnapshot)
      (v : Option RiskVerdict) (p : PreflightPass)
      → pass_of outside i leg t cap b v ≡ passed p
      → (cap ≡ some p.capped_limit)
        × (p.symbol ≡ leg.symbol)
        × (p.instrument_id ≡ leg.instrument_id)
        × (p.side ≡ leg.side)
        × (p.qty ≡ leg.qty)
        × (p.kill_generation ≡ i.kill_generation)
        × (b ≡ some p.quote_b_provenance)
  unfolding pass_of
  pass_of-passed i leg t (some c) (some b) (some v) p h =
      let e = sym (passed-eq _ p h) in
      (
        sym (ap (λ x. some x.capped_limit) e),
        ap (λ x. x.symbol) e,
        ap (λ x. x.instrument_id) e,
        ap (λ x. x.side) e,
        ap (λ x. x.qty) e,
        ap (λ x. x.kill_generation) e,
        sym (ap (λ x. some x.quote_b_provenance) e),
      )
  pass_of-passed i leg t none b v p h = absurd (cc h)
  pass_of-passed i leg t (some c) none v p h = absurd (cc h)
  pass_of-passed i leg t (some c) (some b) none p h = absurd (cc h)

  -- what the eight stages say together
  unfoldable pub StagesClean : PreflightInputs → Leg → ℕ → ℕ → QuoteSnapshot → Type 0
  StagesClean i leg decision t a =
      IsClean (check_candidate i.candidate leg)
      × IsClean (
          check_strategy_gate i.candidate.paper_eligible i.strategy_is_synthetic i.artifact_check
            i.broker_kind)
      × IsClean (check_inflight i.open_orders_in_flight)
      × IsClean
          (check_latency t a i.quote_b i.exec_config.effective_latency_budget_ms i.feed_epoch_now)
      × IsClean (check_quote i.quote_b i.quote_b_verdict)
      × IsClean (check_market_state i.market_state leg)
      × IsClean (check_order (cap_of outside i leg a))
      × IsClean (
          check_risk outside i.risk_verdict i.risk_verdict_row i.risk_verdict_now_ms decision leg
            i.kill_generation i.now_ms)

  pub stages-clean :
      (i : PreflightInputs) (leg : Leg) (decision t : ℕ) (a : QuoteSnapshot)
      → IsClean (collect (stages outside i leg decision t a))
      → StagesClean i leg decision t a
  unfolding stages StagesClean
  stages-clean i leg decision t a h =
      let (c1, h1) = collect-IsClean _ _ h in
      let (c2, h2) = collect-IsClean _ _ h1 in
      let (c3, h3) = collect-IsClean _ _ h2 in
      let (c4, h4) = collect-IsClean _ _ h3 in
      let (c5, h5) = collect-IsClean _ _ h4 in
      let (c6, h6) = collect-IsClean _ _ h5 in
      let (c7, h7) = collect-IsClean _ _ h6 in
      let (c8, h8) = collect-IsClean _ _ h7 in (c1, c2, c3, c4, c5, c6, c7, c8)

  pub ladder-passed :
      (i : PreflightInputs) (legs : List Leg) (p : PreflightPass)
      → ladder outside i legs ≡ passed p
      → (leg : Leg) × (rest : List Leg) × (legs ≡ leg ∷ rest)
        × (opening_allowed i.gates_config ≡ true)
        × (kill_rung outside i leg i.kill_state ≡ passed p)
  unfolding ladder terminal_reject
  ladder-passed i [] p h = absurd (cc h)
  ladder-passed i (leg ∷ rest) p h = (leg, rest, refl, ground arith, ground arith)

  pub kill_rung-passed :
      (i : PreflightInputs) (leg : Leg) (k : KillState) (p : PreflightPass)
      → kill_rung outside i leg k ≡ passed p
      → (k ≡ monitoring) × (phase_two outside i leg (complete_stamp outside i.stamp) ≡ passed p)
  unfolding kill_rung terminal_reject
  kill_rung-passed i leg monitoring p h = (refl, h)
  kill_rung-passed i leg unknown_kill_state p h = absurd (cc h)
  kill_rung-passed i leg flattening p h = absurd (cc h)
  kill_rung-passed i leg halted p h = absurd (cc h)

  pub phase_two-passed :
      (i : PreflightInputs) (leg : Leg) (s : Option (ℕ × ℕ × QuoteSnapshot)) (p : PreflightPass)
      → phase_two outside i leg s ≡ passed p
      → (decision : ℕ) × (t : ℕ) × (a : QuoteSnapshot) × (s ≡ some (decision, t, a))
        × (conclude outside i leg t
              (cap_of outside i leg a)
              (collect (stages outside i leg decision t a))
            ≡ passed p)
  unfolding phase_two terminal_reject
  phase_two-passed i leg none p h = absurd (cc h)
  phase_two-passed i leg (some (decision, t, a)) p h = (decision, t, a, refl, h)

  pub check_order-clean :
      (leg : Leg) (a : QuoteSnapshot) (o : Option QuoteSnapshot) (slippage limit : ℕ)
      → IsClean (check_order (order_cap leg a o slippage))
      → limit_of (order_cap leg a o slippage) ≡ some limit
      → (b : QuoteSnapshot) × (o ≡ some b)
        × Acceptable leg.side (touch leg.side b) slippage leg.limit_price limit
  unfolding check_order order_cap
  check_order-clean leg a none s limit h e = absurd (cc e)
  check_order-clean leg a (some b) s limit h e =
      let (r, is_capped, clean, cap) =
        capped_parts (marketable_limit_cap leg.side a b s leg.limit_price) limit h e in
      (b, refl, capped-Acceptable leg.side a b s leg.limit_price r limit is_capped clean cap)

  pub priced-some :
      (o : Option QuoteSnapshot) (v : Option QuoteVerdict) (b : QuoteSnapshot)
      → priced o v ≡ some b
      → o ≡ some b
  priced-some (some q) (some v) b h = ground arith
  priced-some none v b h = absurd (cc h)
  priced-some (some q) none b h = absurd (cc h)
