-- ===== src/Risk/Ledger.antt =====
-- scripts/agent/risk/risk_ledger.py: the rows of the journal of risk, as a record for each body, and the
-- fold that rebuilds the state from them. The hash of the rules, the version and the decision's id, which
-- every row carries, are left out, and so are the fields of the margin rows, and the rows, from which
-- nothing is rebuilt, but for their kind. A row with an unknown state or cause, which the ledger
-- refuses, cannot be written down.
pub mod Replay
use fail_closed_agent.Base.{
  ℕ, ◌+◌, Bool, true, false, ◌||◌, Option, none, some, List, [], ◌∷◌, map, leb, if◌then◌else◌,
}
use fail_closed_agent.Base.Int.{ℤ}
use fail_closed_agent.Base.Dict.{Dict, lookup, insert}
use fail_closed_agent.Base.Sorted.{sorted, leb_pair}
use fail_closed_agent.Risk.Engine.Stages.{PdtState, unknown}

pub data RiskKillState : Type 0 where
  monitoring flattening halted : RiskKillState

pub data KillCause : Type 0 where
  daily_loss_cap drawdown_cap account_blind_cap operator_manual drill : KillCause

-- `failed` holds symbols with the texts of their failures.
pub record KillTransition : Type 0 where
  pub from_state : RiskKillState
  pub to_state : RiskKillState
  pub cause : KillCause
  pub generation : ℕ
  pub daily_loss_usd : Option ℤ
  pub drawdown_usd : Option ℤ
  pub cap_usd : Option ℤ
  pub account_snapshot_id : Option ℕ
  pub stale_inputs : Bool
  pub flattened : List ℕ
  pub failed : List (ℕ × ℕ)
  pub residual : List ℕ
  pub tradability_annotations : List (ℕ × ℕ)

pub record KillRetrip : Type 0 where
  pub cause : KillCause
  pub generation : ℕ
  pub current_state : RiskKillState

pub record KillRetry : Type 0 where
  pub generation : ℕ
  pub residual_before : List ℕ
  pub residual_after : List ℕ
  pub flattened : List ℕ
  pub failed : List (ℕ × ℕ)

pub record FlattenIncomplete : Type 0 where
  pub generation : ℕ
  pub failed : List (ℕ × ℕ)
  pub residual : List ℕ

pub record IntradayObservation : Type 0 where
  pub session_date_et : ℕ
  pub iml : ℤ
  pub eod : Bool

pub data DeficitCause : Type 0 where
  opened increased window_resolved : DeficitCause

pub record MarginDeficit : Type 0 where
  pub deficit_id : ℕ
  pub cause : DeficitCause
  pub session_date_et : ℕ
  pub amount : ℤ
  pub minor : Bool
  pub equity_at_detection : ℤ
  pub satisfaction_deadline_et : Option ℕ
  pub expires_after_et : Option ℕ

pub data WindowError : Type 0 where
  unknown_session_date scan_limit_exceeded : WindowError

pub record FreezeStart : Type 0 where
  pub trigger_deficit_id : ℕ
  pub effective_from_et : ℕ
  pub expires_on_et : ℕ

pub data PdtEvidence : Type 0 where
  account_flag broker_rejection : PdtEvidence

pub record PdtTransition : Type 0 where
  pub from_state : PdtState
  pub to_state : PdtState
  pub evidence : PdtEvidence
  pub rejection_code : Option ℕ
  pub pattern_day_trader : Option Bool
  pub daytrade_count : Option ℕ

pub record HwmUpdate : Type 0 where
  pub session_date_et : ℕ
  pub hwm_equity : ℤ
  pub equity : ℤ
  pub account_snapshot_id : ℕ

pub data RiskEvent : Type 0 where
  risk_verdict account_snapshot account_alert kill_eval_skipped : RiskEvent
  kill_switch_transition : KillTransition → RiskEvent
  kill_retrip : KillRetrip → RiskEvent
  kill_retry_residual : KillRetry → RiskEvent
  kill_flatten_incomplete : FlattenIncomplete → RiskEvent
  iml_observation : IntradayObservation → RiskEvent
  margin_deficit_detected : MarginDeficit → RiskEvent
  margin_deficit_satisfied : ℕ → ℕ → RiskEvent
  margin_deficit_expired : ℕ → RiskEvent
  margin_deficit_unbaselined : ℕ → RiskEvent
  margin_window_unresolved : ℕ → WindowError → RiskEvent
  margin_freeze_start : FreezeStart → RiskEvent
  margin_freeze_end : RiskEvent
  pdt_regime_transition : PdtTransition → RiskEvent
  loss_hwm_update : HwmUpdate → RiskEvent

unfoldable pub record_kill_transition : KillTransition → RiskEvent
record_kill_transition t = kill_switch_transition record t {
  flattened = sorted leb t.flattened;
  failed = sorted leb_pair t.failed;
  residual = sorted leb t.residual;
  tradability_annotations = sorted leb_pair t.tradability_annotations;
}

unfoldable pub record_kill_retry_residual : KillRetry → RiskEvent
record_kill_retry_residual t = kill_retry_residual record t {
  residual_before = sorted leb t.residual_before;
  residual_after = sorted leb t.residual_after;
  flattened = sorted leb t.flattened;
  failed = sorted leb_pair t.failed;
}

unfoldable pub record_kill_flatten_incomplete : FlattenIncomplete → RiskEvent
record_kill_flatten_incomplete t =
    kill_flatten_incomplete
      record t { failed = sorted leb_pair t.failed; residual = sorted leb t.residual }

pub record KillSlice : Type 0 where
  pub state : RiskKillState
  pub generation : ℕ
  pub residual : List ℕ

-- What the rows of one deficit have said so far; the fields of the detected row come together.
pub record DeficitRecord : Type 0 where
  pub detected : Option MarginDeficit
  pub satisfied_on_et : Option ℕ
  pub expired_noted : Bool
  pub unbaselined_noted : Bool
  pub window_unresolved : Option WindowError

pub record Freeze : Type 0 where
  pub start : FreezeStart
  pub end_emitted : Bool

pub record PdtSlice : Type 0 where
  pub state : PdtState
  pub rejection_latched : Bool

pub record RiskState : Type 0 where
  pub kill : KillSlice
  pub deficits : Dict DeficitRecord
  pub iml_eod : Dict ℤ
  pub freeze : Option Freeze
  pub pdt : PdtSlice
  pub hwm_equity : Option ℤ

abbrev pub no_deficit : DeficitRecord
no_deficit = record {
  detected = none;
  satisfied_on_et = none;
  expired_noted = false;
  unbaselined_noted = false;
  window_unresolved = none;
}

abbrev pub empty_state : RiskState
empty_state = record {
  kill = record { state = monitoring; generation = 0; residual = [] };
  deficits = [];
  iml_eod = [];
  freeze = none;
  pdt = record { state = unknown; rejection_latched = false };
  hwm_equity = none;
}

unfoldable pub or_empty : Option DeficitRecord → DeficitRecord
or_empty none = no_deficit
or_empty (some d) = d

-- `deficits.setdefault(id, {})`, updated in place
unfoldable pub overlay :
    ℕ → (DeficitRecord → DeficitRecord) → Dict DeficitRecord → Dict DeficitRecord
overlay id f d = insert id (f (or_empty (lookup id d))) d

unfoldable pub ended : Option Freeze → Option Freeze
ended none = none
ended (some f) = some record f { end_emitted = true }

abbrev pub is_rejection : PdtEvidence → Bool
is_rejection account_flag = false
is_rejection broker_rejection = true

-- the body of the loop
unfoldable pub after_row : RiskEvent → RiskState → RiskState
after_row (kill_switch_transition t) s = record s {
  kill = record { state = t.to_state; generation = t.generation; residual = t.residual };
}
after_row (kill_retry_residual t) s = record s {
  kill = record { state = s.kill.state; generation = t.generation; residual = t.residual_after };
}
after_row (margin_deficit_detected m) s = record s {
  deficits = overlay m.deficit_id (λ d. record d { detected = some m }) s.deficits;
}
after_row (margin_deficit_satisfied id on) s = record s {
  deficits = overlay id (λ d. record d { satisfied_on_et = some on }) s.deficits;
}
after_row (margin_deficit_expired id) s = record s {
  deficits = overlay id (λ d. record d { expired_noted = true }) s.deficits;
}
after_row (margin_deficit_unbaselined id) s = record s {
  deficits = overlay id (λ d. record d { unbaselined_noted = true }) s.deficits;
}
after_row (margin_window_unresolved id e) s = record s {
  deficits = overlay id (λ d. record d { window_unresolved = some e }) s.deficits;
}
after_row (iml_observation o) s = record s {
  iml_eod = if o.eod then insert o.session_date_et o.iml s.iml_eod else s.iml_eod;
}
after_row (margin_freeze_start f) s = record s {
  freeze = some record { start = f; end_emitted = false };
}
after_row margin_freeze_end s = record s { freeze = ended s.freeze }
after_row (pdt_regime_transition t) s = record s {
  pdt = record {
    state = t.to_state;
    rejection_latched = s.pdt.rejection_latched || is_rejection t.evidence;
  };
}
after_row (loss_hwm_update u) s = record s { hwm_equity = some u.hwm_equity }
after_row _ s = s

-- A row with its sequence number.
abbrev pub Row : Type 0
Row = ℕ × RiskEvent

abbrev pub by_seq : Row → Row → Bool
by_seq (a, _) (b, _) = leb a b

unfoldable pub fold_rows {ℓ} : {S : Type ℓ} → (RiskEvent → S → S) → List Row → S → S
fold_rows f [] s = s
fold_rows f ((_, e) ∷ rest) s = fold_rows f rest (f e s)

-- a flattening that a crash cut short is halted
abbrev pub crash_halts : RiskKillState → RiskKillState
crash_halts flattening = halted
crash_halts monitoring = monitoring
crash_halts halted = halted

abbrev pub settled : RiskState → RiskState
settled s = record s {
  kill = record {
    state = crash_halts s.kill.state;
    generation = s.kill.generation;
    residual = s.kill.residual;
  };
}

unfoldable pub rehydrate_risk_state : List Row → RiskState
rehydrate_risk_state rows = settled (fold_rows after_row (sorted by_seq rows) empty_state)

-- the rows that a writer appends, numbered from `n`
unfoldable pub numbered : ℕ → List RiskEvent → List Row
numbered n [] = []
numbered n (e ∷ rest) = (n, e) ∷ numbered (n + 1) rest
