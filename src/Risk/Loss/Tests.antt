-- ===== src/Risk/Loss/Tests.antt =====
-- Witnesses of the theorems on the loss monitor.
use fail_closed_agent.Base.{◌≡◌, ◌↔◌, ◌⊎◌, true, none, some, List, [], ◌∷◌, ◌++◌, is_some}
use fail_closed_agent.Base.Int.{ℤ, pos, ◌<ℤ◌, ◌-ℤ◌}
use fail_closed_agent.Risk.Account.{AccountRead, BrokerAccountRead, fresh, stale}
use fail_closed_agent.Risk.Loss.{Caps, LossMonitor, observe, observe_all}
use fail_closed_agent.Risk.Ledger.{RiskEvent, account_snapshot, loss_hwm_update, numbered}
use fail_closed_agent.Risk.Loss.Rehydrate.{rehydrate, observe_all_rows, rehydrate-observe_all}
use fail_closed_agent.Risk.Loss.Monitor.{
  earlier, fresh_equities, IsGreatest, observe_all-IsGreatest, observe_trips_iff,
}

abbrev read : BrokerAccountRead
read = record {
  equity = pos 90;
  last_equity = pos 120;
  buying_power = pos 200;
  daytrading_buying_power = none;
  seen_at_ms = 5000;
  account_snapshot_id = 1;
}

abbrev monitor : LossMonitor
monitor = record { hwm = some (pos 100); daily_loss = none; drawdown = none; breaches = [] }

abbrev caps : Caps
caps = record { max_daily_loss_usd = pos 25; max_drawdown_usd = pos 40 }

abbrev reads : List AccountRead
reads =
    record { status = fresh; read = some read; age_ms = none; invalid_reason = none }
    ∷ record { status = stale; read = some read; age_ms = none; invalid_reason = none }
    ∷ []

observe_all-IsGreatest_example :
    IsGreatest
      (earlier (some (pos 100)) ++ fresh_equities reads)
      (observe_all caps 20 reads monitor).hwm
observe_all-IsGreatest_example = observe_all-IsGreatest caps 20 reads monitor

observe_trips_iff_example :
    (is_some
        (observe caps
          (record { status = fresh; read = some read; age_ms = none; invalid_reason = none })
          20
          monitor).0
      ≡ true)
    ↔ ((fresh ≡ fresh)
        × ((pos 25 <ℤ (pos 120 -ℤ pos 90))
            ⊎ (pos 40 <ℤ pos 0)
            ⊎ ((h : ℤ) × (some (pos 100) ≡ some h) × (pos 40 <ℤ (h -ℤ pos 90)))))
observe_trips_iff_example = observe_trips_iff caps read fresh 20 monitor

abbrev journal : List RiskEvent
journal =
    account_snapshot
    ∷ loss_hwm_update record {
      session_date_et = 20260105;
      hwm_equity = pos 80;
      equity = pos 80;
      account_snapshot_id = 1;
    }
    ∷ []

rehydrate-observe_all_example :
    let m = rehydrate (numbered 0 journal) in
    (rehydrate (numbered 0 (journal ++ observe_all_rows caps 20260106 reads m))).hwm
    ≡ (observe_all caps 20260106 reads m).hwm
rehydrate-observe_all_example = rehydrate-observe_all caps 20260106 reads journal
