-- ===== src/Risk/Kill/Tests.antt =====
-- Witnesses of the theorems on the risk kill switch and its test on losses, over a broker that raises for symbol 9.
use fail_closed_agent.Base.{
  ℕ, ◌≡◌, ◌+◌, refl, Bool, true, false, not, ◌&&◌, Option, some, none, List, [], ◌∷◌, ◌++◌, ◌==◌,
  leb,
}
use fail_closed_agent.Base.Int.{pos, negsuc}
use fail_closed_agent.Base.Sorted.{member, sorted}
use fail_closed_agent.Exec.Order.{OrderIntent}
use fail_closed_agent.Exec.Token.{Registry, Reading}
use fail_closed_agent.Exec.Kill.{Failure}
use fail_closed_agent.Exec.Kill.Flatten.{place_all}
use fail_closed_agent.Risk.Account.{AccountRead, fresh}
use fail_closed_agent.Risk.Loss.{LossMonitor, observe}
use fail_closed_agent.Risk.Exposure.{PositionRead, RiskConfig}
use fail_closed_agent.Risk.Ledger.{
  halted, daily_loss_cap, operator_manual, loss_hwm_update, numbered, RiskEvent,
}
use fail_closed_agent.Risk.Kill.{Evidence, new, symbols_of, positions_of, evaluate}
use fail_closed_agent.Risk.Kill.Evaluates.{caps_of, signal_cause, evaluate-observe}
use fail_closed_agent.Risk.Kill.Pass.{begin_flatten, incomplete}
use fail_closed_agent.Risk.Kill.Latch.{World, trigger}
use fail_closed_agent.Risk.Kill.Rehydrate.{rehydrate}
use fail_closed_agent.Risk.Kill.Runs.{
  Operation, trip, retry, elsewhere, run, start, Restores, run-Restores,
}
use fail_closed_agent.Risk.Kill.Latched.{
  Latched, run-Latched, trigger-residual_iff, rehydrate-crash,
}

abbrev place : OrderIntent → List OrderIntent → Bool × List OrderIntent
place intent orders = (not (intent.symbol == 9), intent ∷ orders)

abbrev registry : Registry
registry = record { authorizations = []; next_nonce = 0; runtime_bound = false }

abbrev reading : Reading
reading = record { now_ms = 3000; generation = 4 }

abbrev text : Failure → ℕ
text f = 77

abbrev confirm_flat : ℕ → List OrderIntent → Option Bool × List OrderIntent
confirm_flat symbol orders = (some true, orders)

abbrev positions : List PositionRead
positions =
    record { symbol = 9; qty = pos 3; market_value = pos 300 }
    ∷ record { symbol = 7; qty = negsuc 9; market_value = negsuc 999 }
    ∷ []

abbrev evidence : Evidence
evidence = record {
  daily_loss_usd = some (pos 310);
  drawdown_usd = none;
  cap_usd = some (pos 300);
  account_snapshot_id = some 5;
  stale_inputs = false;
}

abbrev high : RiskEvent
high = loss_hwm_update record {
  session_date_et = 20260105;
  hwm_equity = pos 10000;
  equity = pos 10000;
  account_snapshot_id = 5;
}

abbrev operations : List Operation
operations =
    elsewhere high
    ∷ trip daily_loss_cap evidence [] positions
    ∷ trip operator_manual evidence [] positions
    ∷ retry []
    ∷ []

abbrev fallen : World (List OrderIntent)
fallen = record {
  switch = record new { state = halted; generation = 1; residual = 9 ∷ [] };
  journal = [];
  registry = registry;
  broker = [];
}

abbrev watching : World (List OrderIntent)
watching = record { switch = new; journal = []; registry = registry; broker = [] }

run-Restores_example :
    Restores
      (rehydrate (
        numbered 3
          (run place reading text confirm_flat operations
            (start place reading text confirm_flat registry [])).journal)).0
      (run place reading text confirm_flat operations
        (start place reading text confirm_flat registry [])).switch
run-Restores_example = run-Restores place reading text confirm_flat operations registry [] 3

run-Latched_example :
    Latched fallen.switch (run place reading text confirm_flat operations fallen).switch
run-Latched_example = run-Latched place reading text confirm_flat operations fallen refl

trigger-residual_iff_example :
    let (report, w') =
      trigger place reading text confirm_flat daily_loss_cap evidence [] positions watching in
    let (went, _, _) = place_all place (positions_of positions) ([], [], []) in
    (w'.switch.state ≡ halted)
    × (w'.switch.generation ≡ 1)
    × ((s : ℕ) → member s report.flattened ≡ member s went)
    × ((s : ℕ)
        → member s w'.switch.residual ≡ (member s (symbols_of positions) && not (member s went)))
trigger-residual_iff_example =
    trigger-residual_iff place reading text confirm_flat daily_loss_cap evidence [] positions
      watching refl

rehydrate-crash_example :
    let (k', rows) =
      rehydrate (
        numbered 2 ((high ∷ []) ++ (begin_flatten daily_loss_cap evidence positions new).1 ∷ [])) in
    (k'.state ≡ halted)
    × (k'.generation ≡ new.generation + 1)
    × (k'.residual ≡ sorted leb (symbols_of positions))
    × (k'.cause ≡ some daily_loss_cap)
    × (k'.residual_failures ≡ [])
    × (rows ≡ incomplete (new.generation + 1) [] (sorted leb (symbols_of positions)))
rehydrate-crash_example = rehydrate-crash (high ∷ []) 2 daily_loss_cap evidence positions new

abbrev limits : RiskConfig
limits = record {
  max_position_usd = pos 2000;
  max_gross_exposure_usd = pos 5000;
  max_net_exposure_usd = pos 5000;
  max_daily_loss_usd = pos 300;
  max_drawdown_usd = pos 500;
  max_sector_exposure_usd = pos 3000;
  max_abs_beta_notional_usd = pos 4000;
  beta_unit = pos 100;
  universe = [];
}

-- down by 200 on the day and by 600 from the mark
abbrev account : AccountRead
account = record {
  status = fresh;
  read = some (record {
    equity = pos 9400;
    last_equity = pos 9600;
    buying_power = pos 200;
    daytrading_buying_power = none;
    seen_at_ms = 5000;
    account_snapshot_id = 1;
  });
  age_ms = none;
  invalid_reason = none;
}

abbrev monitor : LossMonitor
monitor = record { hwm = some (pos 10000); daily_loss = none; drawdown = none; breaches = [] }

evaluate-observe_example :
    let (t, m') = observe (caps_of limits) account 20260105 monitor in
    (evaluate limits account m'.hwm).cause ≡ signal_cause t
evaluate-observe_example = evaluate-observe limits account 20260105 monitor
