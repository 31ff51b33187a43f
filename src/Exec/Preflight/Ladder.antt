-- ===== src/Exec/Preflight/Ladder.antt =====
-- scripts/agent/execution_preflight.py: `evaluate_preflight`, whose first three stages end it at
-- once, and `mint_open_token`.
mod Rungs
pub mod Pass
use fail_closed_agent.Base.{
  ℕ, ◌+◌, ◌%◌, Bool, true, false, not, ◌&&◌, ◌||◌, Option, none, some, List, [], ◌∷◌, ◌++◌, ltb,
  ◌==◌, if◌then◌else◌, when, is_empty, is_some,
}
use fail_closed_agent.Base.Int.{ℤ, pos, negsuc, eqb_ℤ, sub_ℕ}
use fail_closed_agent.Base.Ranked.{sorted_set, has}
use fail_closed_agent.Config.{Json, opening_allowed}
use fail_closed_agent.Market.State.{
  Verdict, Tradability, SessionState, HaltState, LuldState, Blocker, blocker_rank,
}
use fail_closed_agent.Exec.Order.{Side, buy, sell}
use fail_closed_agent.Exec.Quote.{QuoteSnapshot}
use fail_closed_agent.Exec.Token.{Registry, Authorization, open_kind, issue}
use fail_closed_agent.Exec.Pricing.{Capped, capped, exec_error, marketable_limit_cap}
use fail_closed_agent.Exec.Reasons.{
  Reason, rank, is_reserved, Stage, run_gates_stage, kill_stage, stamp_stage, latency_stage,
  order_stage, after_run_gates, after_kill, after_stamp,
}
use fail_closed_agent.Exec.Preflight.Inputs.{
  whole_share, min_requote_delta_ms, risk_verdict_ttl_ms, DecisionStamp, Leg, Candidate,
  QuoteVerdict, RiskVerdict, RowBody, RiskRow, KillState, monitoring, unknown_kill_state,
  ArtifactStatus, artifact_ok, missing, key_mismatch, hash_invalid, unknown_status, BrokerKind,
  fake, unknown_kind, ExecutionConfig, PreflightInputs, PreflightReject, PreflightPass,
  PreflightKey, Outside, ExecError, no_leg, multi_leg, kill_state_out_of_vocab,
  broker_kind_out_of_vocab, artifact_status_out_of_vocab, verdict_absent, reserved_reason,
  identity_mismatch, cap_error, tampered_row, no_cap, Evaluated, passed, refused, fatal,
}
use fail_closed_agent.Exec.Preflight.Stages.{
  Collected, reasons, fault, collect, any_reserved, check_candidate, check_strategy_gate,
  check_inflight, check_latency, check_quote, check_market_state, priced, order_cap, check_order,
  limit_of, risk_reasons, eqb_option,
}

abbrev stamped : Option DecisionStamp → Option ℕ
stamped none = none
stamped (some s) = some s.decision_id

abbrev seen : Option QuoteSnapshot → Option ℕ
seen none = none
seen (some q) = some q.seen_at_ms

unfoldable pub stamp_parts :
    ℕ → Bool → Option QuoteSnapshot → Option ℕ → Option (ℕ × ℕ × QuoteSnapshot)
stamp_parts id true (some a) (some t) = some (id, t, a)
stamp_parts id _ _ _ = none

unfoldable pub risk_detail : Option RiskVerdict → Option RiskRow → Option ℕ → Option (List ℕ)
risk_detail (some v) (some row) (some at) = if v.allowed then none else some v.reasons
risk_detail _ _ _ = none

unfoldable pub quote_detail : Option QuoteSnapshot → Option QuoteVerdict → Option (List Reason)
quote_detail (some b) (some v) =
    if is_empty v.reasons then none else some (sorted_set rank v.reasons)
quote_detail _ _ = none

module _ (outside : Outside) where
  -- what a complete stamp holds: its identifier, its time and its quote; `none` is `_stamp_missing`
  unfoldable pub complete_stamp : Option DecisionStamp → Option (ℕ × ℕ × QuoteSnapshot)
  complete_stamp none = none
  complete_stamp (some s) =
      stamp_parts s.decision_id (outside.parseable_utc s.decision_ts_utc) s.quote_a
        s.decision_seen_at_ms

  unfoldable pub check_risk :
      Option RiskVerdict → Option RiskRow → Option ℕ → ℕ → Leg → ℕ → ℕ → Collected
  check_risk (some v) (some row) (some at) decision leg generation now =
      if eqb_option row.hash (some (outside.row_hash row.body))
      then reasons (risk_reasons v row.body at decision leg generation now)
      else fault tampered_row
  check_risk _ _ _ decision leg generation now = reasons (Reason.risk_verdict_missing ∷ [])

  unfoldable pub preflight_id : PreflightInputs → Leg → List Reason → ℕ
  preflight_id i leg rs = outside.key_hash record {
    run_id = i.run_id;
    decision_id = stamped i.stamp;
    symbol = leg.symbol;
    side = leg.side;
    qty = leg.qty;
    reasons = rs;
    quote_b_seen_at_ms = seen i.quote_b;
    kill_generation = i.kill_generation;
  }

  unfoldable pub terminal_reject : PreflightInputs → Leg → Stage → List Stage → Reason → Evaluated
  terminal_reject i leg stage skipped reason = refused record {
    reasons = reason ∷ [];
    gate_stage = some stage;
    stages_skipped = skipped;
    preflight_id = preflight_id i leg (reason ∷ []);
    capped_limit = none;
    risk_reasons = none;
    quote_reasons = none;
  }

  unfoldable pub cap_of : PreflightInputs → Leg → QuoteSnapshot → Option Capped
  cap_of i leg a =
      order_cap leg a (priced i.quote_b i.quote_b_verdict) i.exec_config.slippage_cap_bps

  -- stages four to eleven
  unfoldable pub stages : PreflightInputs → Leg → ℕ → ℕ → QuoteSnapshot → List Collected
  stages i leg decision t a =
      check_candidate i.candidate leg
      ∷ check_strategy_gate i.candidate.paper_eligible i.strategy_is_synthetic i.artifact_check
          i.broker_kind
      ∷ check_inflight i.open_orders_in_flight
      ∷ check_latency t a i.quote_b i.exec_config.effective_latency_budget_ms i.feed_epoch_now
      ∷ check_quote i.quote_b i.quote_b_verdict
      ∷ check_market_state i.market_state leg
      ∷ check_order (cap_of i leg a)
      ∷ check_risk i.risk_verdict i.risk_verdict_row i.risk_verdict_now_ms decision leg
          i.kill_generation i.now_ms
      ∷ []

  unfoldable pub skipped : PreflightInputs → List Stage
  skipped i =
      when (not (is_some i.quote_b)) latency_stage
      ++ when (not (is_some (priced i.quote_b i.quote_b_verdict))) order_stage

  unfoldable pub pass_of :
      PreflightInputs → Leg → ℕ → Option ℕ → Option QuoteSnapshot → Option RiskVerdict → Evaluated
  pass_of i leg t (some limit) (some b) (some v) = passed record {
    preflight_id = preflight_id i leg [];
    symbol = leg.symbol;
    instrument_id = leg.instrument_id;
    side = leg.side;
    qty = leg.qty;
    capped_limit = limit;
    quote_b_provenance = b;
    latency_observed_ms = sub_ℕ b.seen_at_ms t;
    kill_generation = i.kill_generation;
    risk_verdict_id = v.verdict_id;
  }
  pass_of i leg t _ _ _ = fatal no_cap

  unfoldable pub conclude : PreflightInputs → Leg → ℕ → Option Capped → Collected → Evaluated
  conclude i leg t cap (fault e) = fatal e
  conclude i leg t cap (reasons rs) =
      if any_reserved rs
      then fatal reserved_reason
      else if is_empty rs
      then pass_of i leg t (limit_of cap) i.quote_b i.risk_verdict
      else refused record {
        reasons = sorted_set rank rs;
        gate_stage = none;
        stages_skipped = skipped i;
        preflight_id = preflight_id i leg (sorted_set rank rs);
        capped_limit = limit_of cap;
        risk_reasons = risk_detail i.risk_verdict i.risk_verdict_row i.risk_verdict_now_ms;
        quote_reasons = quote_detail i.quote_b i.quote_b_verdict;
      }

  unfoldable pub phase_two : PreflightInputs → Leg → Option (ℕ × ℕ × QuoteSnapshot) → Evaluated
  phase_two i leg none = terminal_reject i leg stamp_stage after_stamp Reason.missing_decision_stamp
  phase_two i leg (some (decision, t, a)) =
      conclude i leg t (cap_of i leg a) (collect (stages i leg decision t a))

  unfoldable pub kill_rung : PreflightInputs → Leg → KillState → Evaluated
  kill_rung i leg monitoring = phase_two i leg (complete_stamp i.stamp)
  kill_rung i leg unknown_kill_state = fatal kill_state_out_of_vocab
  kill_rung i leg _ = terminal_reject i leg kill_stage after_kill Reason.kill_switch_halted

  unfoldable pub ladder : PreflightInputs → List Leg → Evaluated
  ladder i [] = fatal no_leg
  ladder i (leg ∷ _) =
      if opening_allowed i.gates_config
      then kill_rung i leg i.kill_state
      else terminal_reject i leg run_gates_stage after_run_gates Reason.run_gates_off

  unfoldable pub evaluate_preflight : PreflightInputs → Evaluated
  evaluate_preflight i = ladder i i.candidate.legs

  abbrev pub open_authorization : PreflightInputs → PreflightPass → Authorization
  open_authorization i p = record {
    kind = open_kind;
    symbol = p.symbol;
    side = p.side;
    qty = p.qty;
    limit_price = some (pos p.capped_limit);
    kill_generation = some i.kill_generation;
    minted_at_ms = some i.now_ms;
  }

  -- the nonce of the token and the registry; a refusal and an error leave the registry as it was
  unfoldable pub mint_evaluated :
      PreflightInputs → Evaluated → Registry → Option (ℕ × PreflightPass) × Registry
  mint_evaluated i (passed p) r =
      let (n, r') = issue (open_authorization i p) r in (some (n, p), r')
  mint_evaluated i _ r = (none, r)

  unfoldable pub mint_open_token :
      PreflightInputs → Registry → Option (ℕ × PreflightPass) × Registry
  mint_open_token i r = mint_evaluated i (evaluate_preflight i) r
