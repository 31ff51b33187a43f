-- ===== src/Risk/Engine.antt =====
-- scripts/agent/risk/can_open.py: the one gate before an opening order. Five stages end it at once, the
-- other eight collect every reason. The rows of values used against limits, which decide nothing,
-- are left out.
pub mod Stages
pub mod Ready
pub mod Collected
pub mod Allowed
mod Tests
use fail_closed_agent.Base.{
  ℕ, Bool, true, false, not, ◌&&◌, ◌||◌, Option, none, some, List, [], ◌∷◌, ◌++◌, when, is_empty,
  if◌then◌else◌, leb,
}
use fail_closed_agent.Base.Int.{ℤ, pos}
use fail_closed_agent.Base.Ranked.{sorted_set}
use fail_closed_agent.Config.{Json, opening_allowed}
use fail_closed_agent.Risk.Account.{
  AccountStatus, fresh, stale, missing, invalid, skew, AccountRead, BrokerAccountRead,
}
use fail_closed_agent.Exec.Preflight.Inputs.{
  Leg, Candidate, KillState, monitoring, flattening, halted, unknown_kill_state,
}
use fail_closed_agent.Risk.Reasons.{
  RiskReason, risk_rank, run_gates_off, kill_switch_halted, margin_freeze_active, account_stale,
  account_missing, account_invalid, account_clock_skew, portfolio_missing, portfolio_stale,
  portfolio_unreconciled, GateStage, run_gates, kill, margin_freeze, account, portfolio, caps,
  margin, after_run_gates, after_kill, after_margin_freeze, after_account, after_portfolio,
}
use fail_closed_agent.Risk.Exposure.{RiskConfig, PortfolioRead, project_caps}
use fail_closed_agent.Risk.Engine.Stages.{
  Checked, fine, raised, RiskFault, kill_state_out_of_vocab, read_absent, ◌>>=◌, Classification,
  MarginRead, PdtRead, Inputs, is_active_on, classify_all, stage_candidate, stage_universe,
  stage_market_state, price_legs, PricedLegs, LegRead, opening_legs, stage_margin, stage_pdt,
  stage_loss,
}

pub record RiskVerdict : Type 0 where
  pub allowed : Bool
  pub reasons : List RiskReason
  pub gate_stage : Option GateStage
  pub stages_skipped : List GateStage
  pub legs : List LegRead
  pub gross_notional : ℤ
  pub account_snapshot_id : Option ℕ
  pub kill_state : KillState
  pub kill_generation : ℕ
  pub session_date_et : Option ℕ
  pub verdict_id : ℕ

-- The key that the deterministic id of a verdict is the hash of.
pub record VerdictKey : Type 0 where
  pub run_id : ℕ
  pub rules_hash : ℕ
  pub strategy_id : ℕ
  pub symbols : List ℕ
  pub gross_notional : ℤ
  pub reasons : List RiskReason
  pub gate_stage : Option GateStage
  pub account_snapshot_id : Option ℕ
  pub decision_id : Option ℕ

unfoldable pub insert_symbol : ℕ → List ℕ → List ℕ
insert_symbol s [] = s ∷ []
insert_symbol s (x ∷ xs) = if leb s x then s ∷ x ∷ xs else x ∷ insert_symbol s xs

unfoldable pub sorted_symbols : List Leg → List ℕ
sorted_symbols [] = []
sorted_symbols (leg ∷ rest) = insert_symbol leg.symbol (sorted_symbols rest)

-- A first hit among the stages that end the ladder: the stage, what it says, and what it skips.
abbrev pub Terminal : Type 0
Terminal = GateStage × List RiskReason × List GateStage

unfoldable pub account_reason : AccountStatus → Option RiskReason
account_reason fresh = none
account_reason stale = some account_stale
account_reason missing = some account_missing
account_reason invalid = some account_invalid
account_reason skew = some account_clock_skew

unfoldable pub portfolio_reasons : Option PortfolioRead → List RiskReason
portfolio_reasons none = portfolio_missing ∷ []
portfolio_reasons (some p) =
    when p.stale portfolio_stale ++ when p.unreconciled_drift portfolio_unreconciled

unfoldable pub portfolio_terminal : List RiskReason → Option Terminal
portfolio_terminal [] = none
portfolio_terminal (r ∷ rs) = some (portfolio, r ∷ rs, after_portfolio)

unfoldable pub account_terminal : Option RiskReason → Option PortfolioRead → Option Terminal
account_terminal (some r) p = some (account, r ∷ [], after_account)
account_terminal none p = portfolio_terminal (portfolio_reasons p)

abbrev pub is_monitoring : KillState → Bool
is_monitoring monitoring = true
is_monitoring _ = false

unfoldable pub terminal : Inputs → Option Terminal
terminal i =
    if not (opening_allowed i.gates_config)
    then some (run_gates, run_gates_off ∷ [], after_run_gates)
    else if not (is_monitoring i.kill_state)
    then some (kill, kill_switch_halted ∷ [], after_kill)
    else if is_active_on i.margin_read.freeze i.margin_read.asof_session_date_et
    then some (margin_freeze, margin_freeze_active ∷ [], after_margin_freeze)
    else account_terminal (account_reason i.account.status) i.portfolio

abbrev snapshot_id : Option BrokerAccountRead → Option ℕ
snapshot_id none = none
snapshot_id (some r) = some r.account_snapshot_id

-- the stages on caps and on margin, which are skipped where no opening leg has a price
unfoldable pub capped_reasons :
    Inputs → PortfolioRead → BrokerAccountRead → List Classification → PricedLegs → List RiskReason
capped_reasons i p read classes legs =
    if is_empty legs.priced_legs
    then []
    else project_caps i.cfg p legs.priced_legs (opening_legs i.candidate.legs classes)
      ++ stage_margin legs.gross_notional read i.margin_read

abbrev pub priced_gross : PricedLegs → Option ℤ
priced_gross legs = if is_empty legs.priced_legs then none else some legs.gross_notional

-- what the stages of the second phase say, in their order, and the session's date
unfoldable pub collected :
    Inputs → PortfolioRead → BrokerAccountRead → Checked (List RiskReason × PricedLegs × Option ℕ)
collected i p read = do
  (market, date) ← stage_market_state i.candidate.legs i.market_state i.margin_read none
  legs ← price_legs i.candidate.legs (classify_all p i.candidate.legs) i.marks i.now_ms
  fine (
    stage_candidate i.candidate p (classify_all p i.candidate.legs)
        ++ (stage_universe i.cfg i.candidate.legs
            ++ (market
                ++ (capped_reasons i p read (classify_all p i.candidate.legs) legs
                    ++ (stage_pdt i.pdt_read (priced_gross legs) read
                        ++ stage_loss i.cfg read i.hwm_equity)))),
    legs,
    date,
  )

-- `key_hash` is the SHA-256 of the canonical text of a key.
module _ (key_hash : VerdictKey → ℕ) where
  unfoldable pub finish :
      Inputs
      → List RiskReason
      → Option GateStage
      → List GateStage
      → List LegRead
      → ℤ
      → Option ℕ
      → RiskVerdict
  finish i reasons stage skipped legs gross date = record {
    allowed = is_empty reasons;
    reasons = reasons;
    gate_stage = stage;
    stages_skipped = skipped;
    legs = legs;
    gross_notional = gross;
    account_snapshot_id = snapshot_id i.account.read;
    kill_state = i.kill_state;
    kill_generation = i.kill_generation;
    session_date_et = date;
    verdict_id = key_hash record {
      run_id = i.run_id;
      rules_hash = i.rules_hash;
      strategy_id = i.strategy_id;
      symbols = sorted_symbols i.candidate.legs;
      gross_notional = gross;
      reasons = reasons;
      gate_stage = stage;
      account_snapshot_id = snapshot_id i.account.read;
      decision_id = i.decision_id;
    };
  }

  unfoldable pub phase_two :
      Inputs → Option PortfolioRead → Option BrokerAccountRead → Checked RiskVerdict
  phase_two i (some p) (some read) = do
    (reasons, legs, date) ← collected i p read
    fine (
        finish i (sorted_set risk_rank reasons) none
          (if is_empty legs.priced_legs then caps ∷ margin ∷ [] else []) legs.leg_reads
          legs.gross_notional date)
  phase_two i _ _ = raised read_absent

  unfoldable pub decide_from : Inputs → Option Terminal → Checked RiskVerdict
  decide_from i (some (stage, reasons, skipped)) =
      fine (finish i reasons (some stage) skipped [] (pos 0) none)
  decide_from i none = phase_two i i.portfolio i.account.read

  unfoldable pub vocab_checked : Inputs → KillState → Checked RiskVerdict
  vocab_checked i unknown_kill_state = raised kill_state_out_of_vocab
  vocab_checked i _ = decide_from i (terminal i)

  unfoldable pub can_open : Inputs → Checked RiskVerdict
  can_open i = vocab_checked i i.kill_state
