-- ===== src/Risk/Kill/Evaluates.antt =====
-- scripts/agent/risk/risk_kill.py, evaluate, against loss_limits.py, observe: the two tests on losses.
use fail_closed_agent.Base.{ℕ, ◌≡◌, refl, Option, none, some, Bool-cases, inl, inr}
use fail_closed_agent.Base.Int.{ltb_ℤ, ◌-ℤ◌}
use fail_closed_agent.Risk.Account.{AccountRead, BrokerAccountRead}
use fail_closed_agent.Risk.Exposure.{RiskConfig}
use fail_closed_agent.Risk.Loss.{
  Caps, Cause, TripSignal, LossMonitor, raised, signal, observe, observe_fresh, has_fresh_status,
}
use fail_closed_agent.Risk.Ledger.{KillCause, daily_loss_cap, drawdown_cap}
use fail_closed_agent.Risk.Kill.{evaluate, evaluate_read, breach, fall_from}

-- a cause of the monitor, as the switch calls it
abbrev pub kill_cause : Cause → KillCause
kill_cause Cause.daily_loss_cap = daily_loss_cap
kill_cause Cause.drawdown_cap = drawdown_cap

abbrev pub signal_cause : Option TripSignal → Option KillCause
signal_cause none = none
signal_cause (some t) = some (kill_cause t.cause)

abbrev pub caps_of : RiskConfig → Caps
caps_of cfg = record {
  max_daily_loss_usd = cfg.max_daily_loss_usd;
  max_drawdown_usd = cfg.max_drawdown_usd;
}

read_agrees :
    (cfg : RiskConfig) (read : Option BrokerAccountRead) (date : ℕ) (m : LossMonitor)
    → let (t, m') = observe_fresh (caps_of cfg) read date m in
      (evaluate_read cfg read m'.hwm).cause ≡ signal_cause t
unfolding observe_fresh evaluate_read breach fall_from signal
read_agrees cfg none date m = refl
read_agrees cfg (some read) date m =
    elim (Bool-cases (ltb_ℤ cfg.max_daily_loss_usd (read.last_equity -ℤ read.equity))) [
      | inl e ↦ rw e refl
      | inr e ↦
          elim (Bool-cases (ltb_ℤ cfg.max_drawdown_usd (raised m.hwm read.equity -ℤ read.equity))) [
            | inl d ↦ rw (e, d) refl
            | inr d ↦ rw (e, d) refl
          ]
    ]

-- On any account and after any earlier reads, the kill switch finds the cause that the loss monitor signals when
-- it observes that account, at the mark that the monitor then has, and none where the monitor signals none.
pub evaluate-observe :
    (cfg : RiskConfig) (account : AccountRead) (date : ℕ) (m : LossMonitor)
    → let (t, m') = observe (caps_of cfg) account date m in
      (evaluate cfg account m'.hwm).cause ≡ signal_cause t
unfolding observe evaluate
evaluate-observe cfg account date m = elim (Bool-cases (has_fresh_status account.status)) [
  | inl e ↦ rw e (read_agrees cfg account.read date m)
  | inr e ↦ rw e refl
]
