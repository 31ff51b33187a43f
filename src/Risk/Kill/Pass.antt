-- ===== src/Risk/Kill/Pass.antt =====
-- scripts/agent/risk/risk_kill.py: what a trigger and a retry record around a pass of the actuator.
use fail_closed_agent.Base.{
  ℕ, ◌+◌, Bool, true, false, not, ◌&&◌, ◌||◌, Option, none, some, List, [], ◌∷◌, ◌++◌, is_empty,
  when, if◌then◌else◌,
}
use fail_closed_agent.Base.Sorted.{sorted, leb_pair, member, distinct, minus}
use fail_closed_agent.Base.{leb}
use fail_closed_agent.Risk.Exposure.{PositionRead}
use fail_closed_agent.Risk.Ledger.{
  RiskKillState, monitoring, flattening, halted, KillCause, RiskEvent, record_kill_transition,
  record_kill_retry_residual, record_kill_flatten_incomplete,
}
use fail_closed_agent.Risk.Kill.{FlattenReport, RiskKillSwitch, Evidence, symbols_of}
use fail_closed_agent.Risk.Kill.Failures.{noted, picked, cleared, updated}

unfoldable pub transition :
    RiskKillState
    → RiskKillState
    → KillCause
    → ℕ
    → Evidence
    → List ℕ
    → List (ℕ × ℕ)
    → List ℕ
    → List (ℕ × ℕ)
    → RiskEvent
transition before after cause generation e flattened failed residual annotations =
    record_kill_transition record {
      from_state = before;
      to_state = after;
      cause = cause;
      generation = generation;
      daily_loss_usd = e.daily_loss_usd;
      drawdown_usd = e.drawdown_usd;
      cap_usd = e.cap_usd;
      account_snapshot_id = e.account_snapshot_id;
      stale_inputs = e.stale_inputs;
      flattened = flattened;
      failed = failed;
      residual = residual;
      tradability_annotations = annotations;
    }

unfoldable pub reported : KillCause → RiskKillSwitch → Option FlattenReport → FlattenReport
reported cause k (some r) = r
reported cause k none = record {
  cause = some cause;
  generation = k.generation;
  flattened = [];
  failed = [];
  residual = k.residual;
}

-- up to the pass of the actuator
unfoldable pub begin_flatten :
    KillCause → Evidence → List PositionRead → RiskKillSwitch → RiskKillSwitch × RiskEvent
begin_flatten cause e positions k =
    let residual = sorted leb (symbols_of positions) in
    (
      record k {
        state = flattening;
        generation = k.generation + 1;
        cause = some cause;
        residual = residual;
      },
      transition monitoring flattening cause (k.generation + 1) e [] [] residual [],
    )

abbrev pub incomplete : ℕ → List (ℕ × ℕ) → List ℕ → List RiskEvent
incomplete generation failed residual = when (not (is_empty failed) || not (is_empty residual)) (
    record_kill_flatten_incomplete
      record { generation = generation; failed = failed; residual = residual })

-- A pass that ended: the symbols whose orders went out, and the failures with their texts.
abbrev pub Pass : Type 0
Pass = List ℕ × List (ℕ × ℕ)

unfoldable pub residual_of : List ℕ → List ℕ → List ℕ
residual_of held flattened = sorted leb (distinct (minus held flattened))

-- what the `finally` of a trigger reports
unfoldable pub pass_report : KillCause → Pass → RiskKillSwitch → FlattenReport
pass_report cause (went, alarms) k = record {
  cause = some cause;
  generation = k.generation;
  flattened = sorted leb went;
  failed = sorted leb_pair alarms;
  residual = residual_of k.residual (sorted leb went);
}

unfoldable pub ended_by : FlattenReport → RiskKillSwitch → RiskKillSwitch
ended_by r k = record k {
  state = halted;
  residual = r.residual;
  residual_failures = noted r.failed r.residual [];
  last_report = some r;
}

unfoldable pub end_rows : KillCause → Evidence → List (ℕ × ℕ) → FlattenReport → List RiskEvent
end_rows cause e annotations r =
    transition flattening halted cause r.generation e r.flattened r.failed r.residual annotations
    ∷ incomplete r.generation r.failed r.residual

-- what the `finally` of a retry reports, of which `confirmed` are the symbols that the broker
-- confirms to be flat
unfoldable pub retry_report : List ℕ → Pass → RiskKillSwitch → FlattenReport
retry_report confirmed (went, alarms) k = record {
  cause = k.cause;
  generation = k.generation;
  flattened = sorted leb (distinct (went ++ confirmed));
  failed = sorted leb_pair alarms;
  residual = residual_of k.residual (sorted leb (distinct (went ++ confirmed)));
}

unfoldable pub retried : FlattenReport → RiskKillSwitch → RiskKillSwitch
retried r k = record k {
  state = halted;
  residual = r.residual;
  residual_failures =
      picked r.residual (updated r.failed (cleared r.flattened k.residual_failures));
  last_report = some r;
}

unfoldable pub retry_row : FlattenReport → RiskKillSwitch → RiskEvent
retry_row r k = record_kill_retry_residual record {
  generation = r.generation;
  residual_before = k.residual;
  residual_after = r.residual;
  flattened = r.flattened;
  failed = r.failed;
}

-- the positions of the residual symbols
unfoldable pub subset : List ℕ → List PositionRead → List PositionRead
subset residual [] = []
subset residual (p ∷ ps) =
    let rest = subset residual ps in if member p.symbol residual then p ∷ rest else rest

abbrev pub is_halted : RiskKillState → Bool
is_halted halted = true
is_halted _ = false

abbrev pub is_monitoring : RiskKillState → Bool
is_monitoring monitoring = true
is_monitoring _ = false

unfoldable pub can_retry : RiskKillSwitch → Bool
can_retry k = is_halted k.state && not (is_empty k.residual)
