-- ===== src/Risk/Kill/Latch.antt =====
-- scripts/agent/risk/risk_kill.py: trigger and retry_residual.
use fail_closed_agent.Base.{ℕ, Bool, true, Option, none, some, List, [], ◌∷◌, ◌++◌, if◌then◌else◌}
use fail_closed_agent.Exec.Order.{OrderIntent}
use fail_closed_agent.Exec.Token.{Registry, Reading}
use fail_closed_agent.Exec.Kill.{Failure, new as new_actuator, trigger as flatten_all}
use fail_closed_agent.Risk.Exposure.{PositionRead}
use fail_closed_agent.Risk.Ledger.{KillCause, RiskEvent, kill_retrip}
use fail_closed_agent.Risk.Kill.{FlattenReport, RiskKillSwitch, Evidence, symbols_of, positions_of}
use fail_closed_agent.Risk.Kill.Pass.{
  Pass, residual_of, pass_report, ended_by, end_rows, retry_report, retried, retry_row, subset,
  can_retry, reported, begin_flatten, is_monitoring,
}

-- The switch, the journal, the capabilities and the broker.
pub record World {ℓ} (B : Type ℓ) : Type ℓ where
  pub switch : RiskKillSwitch
  pub journal : List RiskEvent
  pub registry : Registry
  pub broker : B

-- `confirm_flat` is the broker's confirmation that a symbol is flat: `none` where it raises, and
-- always `some false` where the broker has none.
module _ {ℓ} {B : Type ℓ} (place : OrderIntent → B → Bool × B) (reading : Reading)
    (text : Failure → ℕ) (confirm_flat : ℕ → B → Option Bool × B) where
  unfoldable pub texts : List (ℕ × Failure) → List (ℕ × ℕ)
  texts [] = []
  texts ((symbol, f) ∷ rest) = (symbol, text f) ∷ texts rest

  -- one pass of a fresh actuator
  unfoldable pub flatten_pass : List PositionRead → Registry → B → Pass × Registry × B
  flatten_pass positions r b =
      let (inner, r', b') = flatten_all place reading (positions_of positions) new_actuator r b in
      ((inner.flattened, texts inner.failed), r', b')

  unfoldable pub flatten_now :
      KillCause → Evidence → List (ℕ × ℕ) → List PositionRead → World B → FlattenReport × World B
  flatten_now cause e annotations positions w =
      let (begun, row) = begin_flatten cause e positions w.switch in
      let (pass, r, b) = flatten_pass positions w.registry w.broker in
      let report = pass_report cause pass begun in
      (
        report,
        record {
          switch = ended_by report begun;
          journal = w.journal ++ (row ∷ end_rows cause e annotations report);
          registry = r;
          broker = b;
        },
      )

  unfoldable pub trigger :
      KillCause → Evidence → List (ℕ × ℕ) → List PositionRead → World B → FlattenReport × World B
  trigger cause e annotations positions w =
      if is_monitoring w.switch.state then flatten_now cause e annotations positions w else (
        reported cause w.switch w.switch.last_report,
        record w {
          journal =
              w.journal
              ++ kill_retrip record {
                cause = cause;
                generation = w.switch.generation;
                current_state = w.switch.state;
              }
                ∷ [];
        },
      )

  -- the residual symbols that are no longer held and that the broker confirms to be flat
  unfoldable pub confirm_each : List ℕ → B → List ℕ × B
  confirm_each [] b = ([], b)
  confirm_each (symbol ∷ rest) b =
      let (answer, b') = confirm_flat symbol b in
      let (confirmed, b'') = confirm_each rest b' in
      (elim answer [ some true ↦ symbol ∷ confirmed | _ ↦ confirmed ], b'')

  unfoldable pub retry_now : List PositionRead → World B → FlattenReport × World B
  retry_now positions w =
      let held = subset w.switch.residual positions in
      let (confirmed, b) =
        confirm_each (residual_of w.switch.residual (symbols_of held)) w.broker in
      let (pass, r, b') = flatten_pass held w.registry b in
      let report = retry_report confirmed pass w.switch in
      (
        report,
        record {
          switch = retried report w.switch;
          journal = w.journal ++ retry_row report w.switch ∷ [];
          registry = r;
          broker = b';
        },
      )

  -- `none` is the RiskError of a retry that is not legal
  unfoldable pub retry_residual : List PositionRead → World B → Option (FlattenReport × World B)
  retry_residual positions w = if can_retry w.switch then some (retry_now positions w) else none
