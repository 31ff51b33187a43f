-- ===== src/Risk/Kill.antt =====
-- scripts/agent/risk/risk_kill.py, RiskKillSwitch: the latch over the actuator of kill_switch.py. The
-- ledger is there, and what it records is a list; the text of a failure is a number, which `text`
-- gives. The lock around each operation makes them follow one another.
pub mod Failures
pub mod Pass
pub mod Latch
pub mod Rehydrate
pub mod Memory
pub mod Runs
pub mod Latched
pub mod Evaluates
mod Tests
use fail_closed_agent.Base.{
  ℕ, ◌+◌, Bool, true, false, not, ◌&&◌, ◌||◌, Option, none, some, List, [], ◌∷◌, ◌++◌, map,
  is_empty, when, if◌then◌else◌,
}
use fail_closed_agent.Base.Int.{ℤ, ltb_ℤ, ◌-ℤ◌}
use fail_closed_agent.Base.Sorted.{sorted, leb_pair, member, distinct, minus}
use fail_closed_agent.Base.{leb}
use fail_closed_agent.Base.Dict.{Dict, lookup, insert, erase}
use fail_closed_agent.Exec.Order.{OrderIntent}
use fail_closed_agent.Exec.Token.{Registry, Reading, Position}
use fail_closed_agent.Exec.Kill.{KillSwitch, Failure, new as new_actuator, trigger as flatten_all}
use fail_closed_agent.Risk.Account.{AccountRead, BrokerAccountRead}
use fail_closed_agent.Risk.Exposure.{PositionRead, RiskConfig}
use fail_closed_agent.Risk.Loss.{has_fresh_status}
use fail_closed_agent.Risk.Ledger.{
  RiskKillState, monitoring, flattening, halted, KillCause, daily_loss_cap, drawdown_cap, KillSlice,
  RiskState, KillTransition, KillRetrip, KillRetry, FlattenIncomplete, RiskEvent, kill_retrip,
  record_kill_transition, record_kill_retry_residual, record_kill_flatten_incomplete, Row, by_seq,
  fold_rows, rehydrate_risk_state, kill_switch_transition, kill_retry_residual,
}

pub record KillEvaluation : Type 0 where
  pub cause : Option KillCause
  pub skipped : Bool
  pub daily_loss_usd : Option ℤ
  pub drawdown_usd : Option ℤ

pub record FlattenReport : Type 0 where
  pub cause : Option KillCause
  pub generation : ℕ
  pub flattened : List ℕ
  pub failed : List (ℕ × ℕ)
  pub residual : List ℕ

pub record RiskKillSwitch : Type 0 where
  pub state : RiskKillState
  pub generation : ℕ
  pub residual : List ℕ
  pub residual_failures : Dict ℕ
  pub cause : Option KillCause
  pub last_report : Option FlattenReport

abbrev pub new : RiskKillSwitch
new = record {
  state = monitoring;
  generation = 0;
  residual = [];
  residual_failures = [];
  cause = none;
  last_report = none;
}

fall_from : Option ℤ → ℤ → Option ℤ
fall_from none equity = none
fall_from (some high) equity = some (high -ℤ equity)

abbrev over : Option ℤ → ℤ → Bool
over none cap = false
over (some n) cap = ltb_ℤ cap n

breach : RiskConfig → ℤ → Option ℤ → Option KillCause
breach cfg loss fall =
    if ltb_ℤ cfg.max_daily_loss_usd loss
    then some daily_loss_cap
    else if over fall cfg.max_drawdown_usd
    then some drawdown_cap
    else none

abbrev skipped_evaluation : KillEvaluation
skipped_evaluation = record {
  cause = none;
  skipped = true;
  daily_loss_usd = none;
  drawdown_usd = none;
}

evaluate_read : RiskConfig → Option BrokerAccountRead → Option ℤ → KillEvaluation
evaluate_read cfg none hwm = skipped_evaluation
evaluate_read cfg (some read) hwm = record {
  cause = breach cfg (read.last_equity -ℤ read.equity) (fall_from hwm read.equity);
  skipped = false;
  daily_loss_usd = some (read.last_equity -ℤ read.equity);
  drawdown_usd = fall_from hwm read.equity;
}

-- a fresh account has a read (`AccountStore.get`)
pub evaluate : RiskConfig → AccountRead → Option ℤ → KillEvaluation
evaluate cfg account hwm =
    if has_fresh_status account.status
    then evaluate_read cfg account.read hwm
    else skipped_evaluation

-- The annotations of the two rows of a pass, which decide nothing.
pub record Evidence : Type 0 where
  pub daily_loss_usd : Option ℤ
  pub drawdown_usd : Option ℤ
  pub cap_usd : Option ℤ
  pub account_snapshot_id : Option ℕ
  pub stale_inputs : Bool

cap_of : RiskConfig → KillCause → Option ℤ
cap_of cfg daily_loss_cap = some cfg.max_daily_loss_usd
cap_of cfg drawdown_cap = some cfg.max_drawdown_usd
cap_of cfg _ = none

abbrev snapshot_id : Option BrokerAccountRead → Option ℕ
snapshot_id none = none
snapshot_id (some r) = some r.account_snapshot_id

evaluated : RiskConfig → KillCause → Option KillEvaluation → Option ℤ × Option ℤ × Option ℤ
evaluated cfg cause none = (none, none, none)
evaluated cfg cause (some e) = (e.daily_loss_usd, e.drawdown_usd, cap_of cfg cause)

about_account : Option AccountRead → Option ℕ × Bool
about_account none = (none, true)
about_account (some a) = (snapshot_id a.read, not (has_fresh_status a.status))

pub evidence_of : RiskConfig → KillCause → Option KillEvaluation → Option AccountRead → Evidence
evidence_of cfg cause evaluation account = record {
  daily_loss_usd = (evaluated cfg cause evaluation).0;
  drawdown_usd = (evaluated cfg cause evaluation).1;
  cap_usd = (evaluated cfg cause evaluation).2;
  account_snapshot_id = (about_account account).0;
  stale_inputs = (about_account account).1;
}

abbrev pub symbols_of : List PositionRead → List ℕ
symbols_of [] = []
symbols_of (p ∷ ps) = p.symbol ∷ symbols_of ps

abbrev pub positions_of : List PositionRead → List Position
positions_of [] = []
positions_of (p ∷ ps) = record { symbol = p.symbol; qty = p.qty } ∷ positions_of ps
