-- ===== src/Risk/Kill/Rehydrate.antt =====
-- scripts/agent/risk/risk_kill.py: rehydrate, the switch that a journal shows.
use fail_closed_agent.Base.{
  ℕ, Bool, true, false, not, ◌&&◌, Option, none, some, List, [], is_empty, when,
}
use fail_closed_agent.Base.Sorted.{sorted}
use fail_closed_agent.Base.{leb}
use fail_closed_agent.Base.Dict.{Dict}
use fail_closed_agent.Risk.Ledger.{
  RiskKillState, flattening, KillCause, KillSlice, KillTransition, RiskEvent,
  record_kill_flatten_incomplete, Row, by_seq, fold_rows, rehydrate_risk_state,
  kill_switch_transition, kill_retry_residual,
}
use fail_closed_agent.Risk.Kill.{RiskKillSwitch}
use fail_closed_agent.Risk.Kill.Failures.{kept, cleared, updated}

unfoldable pub transition_failures : RiskKillState → List (ℕ × ℕ) → Dict ℕ
transition_failures flattening failed = []
transition_failures _ failed = updated failed []

-- the loop of `rehydrate` over the failures
unfoldable pub failures_after : RiskEvent → Dict ℕ → Dict ℕ
failures_after (kill_switch_transition t) d =
    kept t.residual (transition_failures t.to_state t.failed)
failures_after (kill_retry_residual t) d =
    kept t.residual_after (updated t.failed (cleared t.flattened d))
failures_after _ d = d

abbrev pub last_transition : RiskEvent → Option KillTransition → Option KillTransition
last_transition (kill_switch_transition t) last = some t
last_transition _ last = last

abbrev pub cause_in : Option KillTransition → Option KillCause
cause_in none = none
cause_in (some t) = some t.cause

abbrev pub is_flattening : Option KillTransition → Bool
is_flattening none = false
is_flattening (some t) = elim t.to_state [ flattening ↦ true | _ ↦ false ]

unfoldable pub from_slice : KillSlice → Dict ℕ → Option KillTransition → RiskKillSwitch
from_slice slice failures last = record {
  state = slice.state;
  generation = slice.generation;
  residual = sorted leb slice.residual;
  residual_failures = failures;
  cause = cause_in last;
  last_report = none;
}

-- the marker that exposure stays with the broker
unfoldable pub marker : Option KillTransition → RiskKillSwitch → List RiskEvent
marker last k = when (is_flattening last && not (is_empty k.residual)) (
    record_kill_flatten_incomplete
      record { generation = k.generation; failed = []; residual = k.residual })

-- the switch, and what it writes
unfoldable pub rehydrate : List Row → RiskKillSwitch × List RiskEvent
rehydrate rows =
    let last = fold_rows last_transition (sorted by_seq rows) none in
    let k =
      from_slice (rehydrate_risk_state rows).kill (fold_rows failures_after (sorted by_seq rows) [])
        last in
    (k, marker last k)
