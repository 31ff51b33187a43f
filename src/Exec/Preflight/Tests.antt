-- ===== src/Exec/Preflight/Tests.antt =====
-- Witnesses of the theorems on pricing and on the ladder: an order to buy two shares at 10.00
-- dollars that passes, and one that the closed run gates refuse.
use fail_closed_agent.Base.{ℕ, ◌≡◌, refl, true, false, some, none, [], ◌∷◌}
use fail_closed_agent.Base.Int.{pos}
use fail_closed_agent.Base.Decimal.{finite}
use fail_closed_agent.Config.{Json, obj, bool, field, end, lookup, walk, gate, opening_allowed}
use fail_closed_agent.Market.State.{
  Verdict, Tradability, SessionState, HaltState, LuldState, SsrState,
}
use fail_closed_agent.Exec.Order.{buy}
use fail_closed_agent.Exec.Quote.{QuoteSnapshot}
use fail_closed_agent.Exec.Pricing.{
  marketable_limit_cap, conclude as conclude_cap, derive, result, raw_cap, budget_cap, within_limit,
  round_down, tick_of, limit_defect, on_tick_grid, tick_for, signed_move, round_half_even,
  adverse_move_bps, crosses, touch,
}
use fail_closed_agent.Exec.Pricing.Open.{IsSound, marketable_limit_cap-IsSound}
use fail_closed_agent.Base.Ranked.{sorted_set}
use fail_closed_agent.Exec.Preflight.Inputs.{
  PreflightInputs, PreflightPass, Leg, monitoring, spy, artifact_ok, Outside, passed,
}
use fail_closed_agent.Exec.Preflight.Stages.{
  collect, check_candidate, check_strategy_gate, check_inflight, check_latency, check_quote,
  check_market_state, check_order, order_cap, risk_reasons, market_state_reasons, broker_kind_check,
  artifact_reasons, strategy_binding, any_reserved,
}
use fail_closed_agent.Exec.Preflight.Ladder.{
  evaluate_preflight, ladder, kill_rung, phase_two, complete_stamp, stamp_parts, stages, cap_of,
  check_risk, conclude, pass_of, preflight_id,
}

abbrev pub gates : Json
gates = obj (
    field "agent_rules"
      (obj (
        field "enabled" (bool true)
          (field "paper_trading" (obj (field "enabled" (bool true) end)) end)))
      end)

abbrev pub leg : Leg
leg = record {
  symbol = 7;
  instrument_id = 70;
  side = buy;
  qty = pos 2000000000;
  limit_price = none;
}

abbrev quote : ℕ → QuoteSnapshot
quote at = record {
  symbol = 7;
  instrument_id = 70;
  bid = some (finite (pos 9990000));
  ask = some (finite (pos 10000000));
  bid_sz = some (finite (pos 5));
  ask_sz = some (finite (pos 5));
  ts_event_utc = at;
  seen_at_ms = at;
  reconnect_epoch = 1;
  vendor_seq = some at;
}

abbrev pub market : Verdict
market = record {
  symbol = 7;
  instrument_id = 70;
  session_state = SessionState.rth;
  tradability = Tradability.tradable;
  halt = HaltState.no_halt;
  luld = LuldState.normal;
  ssr = SsrState.inactive;
  two_sided_nbbo = true;
  short_allowed = true;
  reasons = [];
  ca_blackout = false;
  session_date_et = 20;
}

abbrev pub inputs : Json → PreflightInputs
inputs config = record {
  run_id = 1;
  stamp = some record {
    decision_id = 3;
    decision_ts_utc = 4;
    decision_seen_at_ms = some 1000;
    quote_a = some (quote 1000);
  };
  candidate = record { legs = leg ∷ []; paper_eligible = true };
  strategy_is_synthetic = false;
  quote_b = some (quote 1600);
  quote_b_verdict = some record { ok = true; reasons = [] };
  feed_epoch_now = 1;
  market_state = market;
  risk_verdict = some record {
    verdict_id = 5;
    allowed = true;
    kill_generation = 2;
    legs = (7, pos 2000000000) ∷ [];
    reasons = [];
  };
  risk_verdict_row = some record {
    body = record { verdict_id = some 5; decision_id = some 3; rest = 9 };
    hash = some 9;
  };
  risk_verdict_now_ms = some 1600;
  kill_state = monitoring;
  kill_generation = 2;
  open_orders_in_flight = 0;
  artifact_check = artifact_ok;
  broker_kind = spy;
  gates_config = config;
  exec_config = record { effective_latency_budget_ms = 500; slippage_cap_bps = 1000 };
  now_ms = 1700;
}

abbrev pub outside : Outside
outside = record { parseable_utc = λ t. true; row_hash = λ b. b.rest; key_hash = λ k. k.run_id }

abbrev pub pass : PreflightPass
pass = record {
  preflight_id = 1;
  symbol = 7;
  instrument_id = 70;
  side = buy;
  qty = pos 2000000000;
  capped_limit = 10010000;
  quote_b_provenance = quote 1600;
  latency_observed_ms = pos 600;
  kill_generation = 2;
  risk_verdict_id = 5;
}

pub passes : evaluate_preflight outside (inputs gates) ≡ passed pass
unfolding evaluate_preflight ladder kill_rung phase_two complete_stamp stamp_parts stages cap_of
    check_risk conclude pass_of preflight_id collect check_candidate check_strategy_gate
    check_inflight check_latency check_quote check_market_state check_order order_cap risk_reasons
    market_state_reasons broker_kind_check artifact_reasons strategy_binding any_reserved
    marketable_limit_cap conclude_cap derive result raw_cap budget_cap within_limit round_down
    tick_of limit_defect on_tick_grid tick_for signed_move round_half_even adverse_move_bps crosses
    opening_allowed gate walk lookup sorted_set
passes = refl

marketable_limit_cap-IsSound_example :
    IsSound buy
      (touch buy (quote 1600))
      1000
      none
      (marketable_limit_cap buy (quote 1000) (quote 1600) 1000 none)
marketable_limit_cap-IsSound_example =
    marketable_limit_cap-IsSound buy (quote 1000) (quote 1600) 1000 none
