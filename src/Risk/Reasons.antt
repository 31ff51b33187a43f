-- ===== src/Risk/Reasons.antt =====
-- scripts/agent/risk/reasons.py: the closed vocabulary of the risk engine and the stages of its ladder.
-- The order of the constructors is that of the texts.
use fail_closed_agent.Base.{ℕ, List, [], ◌∷◌}

pub data RiskReason : Type 0 where
  account_clock_skew account_invalid account_missing account_stale beta_cap_exceeded beta_unknown
        daily_loss_breached drawdown_breached gross_exposure_cap_exceeded
        intraday_margin_deficit_outstanding intraday_margin_insufficient kill_switch_halted
        locate_unavailable loss_baseline_unavailable margin_freeze_active market_state_missing
        market_state_not_tradable market_state_stale_default net_exposure_cap_exceeded
        pdt_compat_blocked pdt_compat_dtbp_exceeded portfolio_missing portfolio_stale
        portfolio_unreconciled position_cap_exceeded reduce_path_not_can_open run_gates_off
        sector_cap_exceeded sector_unknown short_side_disabled ssr_short_blocked
        strategy_not_paper_eligible universe_excluded unpriceable_candidate :
      RiskReason

-- The place of a code in the order of the texts.
abbrev pub risk_rank : RiskReason → ℕ
risk_rank account_clock_skew = 0
risk_rank account_invalid = 1
risk_rank account_missing = 2
risk_rank account_stale = 3
risk_rank beta_cap_exceeded = 4
risk_rank beta_unknown = 5
risk_rank daily_loss_breached = 6
risk_rank drawdown_breached = 7
risk_rank gross_exposure_cap_exceeded = 8
risk_rank intraday_margin_deficit_outstanding = 9
risk_rank intraday_margin_insufficient = 10
risk_rank kill_switch_halted = 11
risk_rank locate_unavailable = 12
risk_rank loss_baseline_unavailable = 13
risk_rank margin_freeze_active = 14
risk_rank market_state_missing = 15
risk_rank market_state_not_tradable = 16
risk_rank market_state_stale_default = 17
risk_rank net_exposure_cap_exceeded = 18
risk_rank pdt_compat_blocked = 19
risk_rank pdt_compat_dtbp_exceeded = 20
risk_rank portfolio_missing = 21
risk_rank portfolio_stale = 22
risk_rank portfolio_unreconciled = 23
risk_rank position_cap_exceeded = 24
risk_rank reduce_path_not_can_open = 25
risk_rank run_gates_off = 26
risk_rank sector_cap_exceeded = 27
risk_rank sector_unknown = 28
risk_rank short_side_disabled = 29
risk_rank ssr_short_blocked = 30
risk_rank strategy_not_paper_eligible = 31
risk_rank universe_excluded = 32
risk_rank unpriceable_candidate = 33

-- GATE_STAGES, in the order of the ladder
pub data GateStage : Type 0 where
  run_gates kill margin_freeze account portfolio candidate universe market_state short caps margin
        pdt loss :
      GateStage

-- GATE_STAGES[i + 1:], for the terminal stages
abbrev pub after_portfolio : List GateStage
after_portfolio = candidate ∷ universe ∷ market_state ∷ short ∷ caps ∷ margin ∷ pdt ∷ loss ∷ []

abbrev pub after_account : List GateStage
after_account = portfolio ∷ after_portfolio

abbrev pub after_margin_freeze : List GateStage
after_margin_freeze = account ∷ after_account

abbrev pub after_kill : List GateStage
after_kill = margin_freeze ∷ after_margin_freeze

abbrev pub after_run_gates : List GateStage
after_run_gates = kill ∷ after_kill
