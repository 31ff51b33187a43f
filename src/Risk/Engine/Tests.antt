-- ===== src/Risk/Engine/Tests.antt =====
-- Witnesses of the theorems on the risk engine: ten shares at 100 on top of five held.
use fail_closed_agent.Base.{◌≡◌, refl, ◌↔◌, true, false, some, none, [], ◌∷◌, ℕ, any}
use fail_closed_agent.Base.Int.{pos, ◌+ℤ◌, ◌-ℤ◌, ◌*ℤ◌}
use fail_closed_agent.Base.Dict.{lookup}
use fail_closed_agent.Base.Ranked.{sorted_set}
use fail_closed_agent.Config.{Json, bool, obj, end, field, opening_allowed, lookup as config_lookup}
use fail_closed_agent.Market.State.{
  Verdict, Tradability, SessionState, HaltState, LuldState, SsrState,
}
use fail_closed_agent.Exec.Order.{buy}
use fail_closed_agent.Exec.Preflight.Inputs.{Leg, monitoring}
use fail_closed_agent.Risk.Account.{fresh}
use fail_closed_agent.Risk.Exposure.{
  RiskConfig, PortfolioRead, held_qty, qty_for, is_unpriceable, priced_notional, limit_notional,
  leg_cap_notional, gross_of, net_of, symbol_of, gross_exposure, net_exposure, symbol_exposure,
  in_universe, sector_in, beta_in, held_outside, sector_of, beta_of, signed_total, abs_total,
  symbol_add, sector_add, beta_add, position_used, sector_used, beta_used, net_used, gross_used,
  sector_reasons, beta_reasons, is_poisoned, project_caps,
}
use fail_closed_agent.Risk.Exposure.Caps.{Respects, project_caps_iff}
use fail_closed_agent.Risk.Engine.Stages.{
  Inputs, fine, opening_long, unknown, is_active_on, classify_iml_reducing, classify, classify_all,
  opening_legs, side_reasons, leg_reasons, stage_candidate, stage_universe, verdict_reasons,
  verdict_fault, checked_verdict, market_leg, session_date, stage_market_state, mark_keys_agree,
  leg_notional, with_leg, price_each, price_legs, stage_margin, stage_pdt, drawdown_reasons,
  stage_loss, dtbp_reasons,
}
use fail_closed_agent.Risk.Engine.{
  VerdictKey, RiskVerdict, terminal, account_reason, portfolio_reasons, portfolio_terminal,
  account_terminal, capped_reasons, collected, finish, phase_two, decide_from, vocab_checked,
  can_open, insert_symbol, sorted_symbols,
}
use fail_closed_agent.Risk.Engine.Allowed.{IsAllowed, can_open-IsAllowed}

abbrev enabled : Json
enabled = obj (field "enabled" (bool true) end)

abbrev gates_on : Json
gates_on = obj (
    field "agent_rules" (obj (field "enabled" (bool true) (field "paper_trading" enabled end))) end)

abbrev limits : RiskConfig
limits = record {
  max_position_usd = pos 2000;
  max_gross_exposure_usd = pos 5000;
  max_net_exposure_usd = pos 5000;
  max_daily_loss_usd = pos 300;
  max_drawdown_usd = pos 500;
  max_sector_exposure_usd = pos 3000;
  max_abs_beta_notional_usd = pos 4000;
  beta_unit = pos 100;
  universe = (1, record { sector = 7; beta = pos 120 }) ∷ [];
}

abbrev ten_shares : Leg
ten_shares = record {
  symbol = 1;
  instrument_id = 11;
  side = buy;
  qty = pos 10;
  limit_price = some (pos 100);
}

abbrev five_held : PortfolioRead
five_held = record {
  positions = record { symbol = 1; qty = pos 5; market_value = pos 500 } ∷ [];
  stale = false;
  unreconciled_drift = false;
}

abbrev tradable_now : Verdict
tradable_now = record {
  symbol = 1;
  instrument_id = 11;
  session_state = SessionState.rth;
  tradability = Tradability.tradable;
  halt = HaltState.no_halt;
  luld = LuldState.normal;
  ssr = SsrState.inactive;
  two_sided_nbbo = true;
  short_allowed = true;
  reasons = [];
  ca_blackout = false;
  session_date_et = 20260105;
}

abbrev inputs : Inputs
inputs = record {
  cfg = limits;
  gates_config = gates_on;
  run_id = 1;
  rules_hash = 2;
  strategy_id = 3;
  candidate = record { legs = ten_shares ∷ []; paper_eligible = true };
  portfolio = some five_held;
  account = record {
    status = fresh;
    read = some record {
      equity = pos 10000;
      last_equity = pos 10100;
      buying_power = pos 8000;
      daytrading_buying_power = none;
      seen_at_ms = 900;
      account_snapshot_id = 5;
    };
    age_ms = some 100;
    invalid_reason = none;
  };
  market_state = (1, tradable_now) ∷ [];
  marks = (1, record { symbol = 1; instrument_id = 11; mid = pos 101; seen_at_ms = 800 }) ∷ [];
  kill_state = monitoring;
  kill_generation = 0;
  margin_read = record {
    outstanding_nonminor = [];
    freeze = record { active = false; effective_from_et = none; expires_on_et = none };
    asof_session_date_et = 20260105;
  };
  pdt_read = record { state = unknown; rejection_latched = false };
  hwm_equity = some (pos 10200);
  now_ms = 1000;
  decision_id = none;
}

abbrev key_hash : VerdictKey → ℕ
key_hash k = 42

abbrev verdict : RiskVerdict
verdict = record {
  allowed = true;
  reasons = [];
  gate_stage = none;
  stages_skipped = [];
  legs =
      record {
        leg = ten_shares;
        classification = opening_long;
        cap_notional = some (pos 1010);
        mark_used = true;
      }
      ∷ [];
  gross_notional = pos 1010;
  account_snapshot_id = some 5;
  kill_state = monitoring;
  kill_generation = 0;
  session_date_et = some 20260105;
  verdict_id = 42;
}

project_caps_iff_example :
    (project_caps limits five_held ((ten_shares, pos 1010) ∷ []) (ten_shares ∷ []) ≡ [])
    ↔ Respects limits five_held ((ten_shares, pos 1010) ∷ []) (ten_shares ∷ [])
project_caps_iff_example =
    project_caps_iff limits five_held ((ten_shares, pos 1010) ∷ []) (ten_shares ∷ [])

allowed : can_open key_hash inputs ≡ fine verdict
unfolding terminal account_reason portfolio_reasons portfolio_terminal account_terminal
    capped_reasons collected finish phase_two decide_from vocab_checked can_open insert_symbol
    sorted_symbols held_qty qty_for is_unpriceable priced_notional limit_notional leg_cap_notional
    gross_of net_of symbol_of gross_exposure net_exposure symbol_exposure in_universe sector_in
    beta_in held_outside sector_of beta_of signed_total abs_total symbol_add sector_add beta_add
    position_used sector_used beta_used net_used gross_used sector_reasons beta_reasons is_poisoned
    project_caps is_active_on classify_iml_reducing classify classify_all opening_legs side_reasons
    leg_reasons stage_candidate stage_universe verdict_reasons verdict_fault checked_verdict
    market_leg session_date stage_market_state mark_keys_agree leg_notional with_leg price_each
    price_legs stage_margin stage_pdt drawdown_reasons stage_loss dtbp_reasons any sorted_set lookup
    opening_allowed config_lookup ◌+ℤ◌ ◌-ℤ◌ ◌*ℤ◌
allowed = refl

can_open-IsAllowed_example : IsAllowed inputs verdict
can_open-IsAllowed_example = can_open-IsAllowed key_hash inputs verdict refl allowed refl
