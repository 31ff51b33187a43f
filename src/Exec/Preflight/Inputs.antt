-- ===== src/Exec/Preflight/Inputs.antt =====
-- scripts/agent/execution_preflight.py: the inputs, the outcomes and the errors of the ladder of an
-- opening order. Texts that are only compared are numbers; quantities count billionths of a share,
-- times milliseconds.
use fail_closed_agent.Base.{ℕ, Bool, Option, List}
use fail_closed_agent.Base.Int.{ℤ}
use fail_closed_agent.Config.{Json}
use fail_closed_agent.Market.State.{Verdict}
use fail_closed_agent.Exec.Order.{Side}
use fail_closed_agent.Exec.Quote.{QuoteSnapshot}
use fail_closed_agent.Exec.Reasons.{Reason, Stage}

abbrev pub whole_share : ℕ
whole_share = 1000000000

abbrev pub min_requote_delta_ms : ℕ
min_requote_delta_ms = 1

abbrev pub risk_verdict_ttl_ms : ℕ
risk_verdict_ttl_ms = 2000

-- `decision_seen_at_ms` is `none` where it is not an integer.
pub record DecisionStamp : Type 0 where
  pub decision_id : ℕ
  pub decision_ts_utc : ℕ
  pub decision_seen_at_ms : Option ℕ
  pub quote_a : Option QuoteSnapshot

pub record Leg : Type 0 where
  pub symbol : ℕ
  pub instrument_id : ℕ
  pub side : Side
  pub qty : ℤ
  pub limit_price : Option ℤ

pub record Candidate : Type 0 where
  pub legs : List Leg
  pub paper_eligible : Bool

pub record QuoteVerdict : Type 0 where
  pub ok : Bool
  pub reasons : List Reason

pub record RiskVerdict : Type 0 where
  pub verdict_id : ℕ
  pub allowed : Bool
  pub kill_generation : ℕ
  pub legs : List (ℕ × ℤ)
  pub reasons : List ℕ

-- A journaled row without its hash: two keys, and all the others together.
pub record RowBody : Type 0 where
  pub verdict_id : Option ℕ
  pub decision_id : Option ℕ
  pub rest : ℕ

pub record RiskRow : Type 0 where
  pub body : RowBody
  pub hash : Option ℕ

pub data KillState : Type 0 where
  monitoring flattening halted unknown_kill_state : KillState

pub data ArtifactStatus : Type 0 where
  artifact_ok missing key_mismatch hash_invalid unknown_status : ArtifactStatus

pub data BrokerKind : Type 0 where
  spy fake alpaca_paper alpaca_live unknown_kind : BrokerKind

pub record ExecutionConfig : Type 0 where
  pub effective_latency_budget_ms : ℕ
  pub slippage_cap_bps : ℕ

pub record PreflightInputs : Type 0 where
  pub run_id : ℕ
  pub stamp : Option DecisionStamp
  pub candidate : Candidate
  pub strategy_is_synthetic : Bool
  pub quote_b : Option QuoteSnapshot
  pub quote_b_verdict : Option QuoteVerdict
  pub feed_epoch_now : ℕ
  pub market_state : Verdict
  pub risk_verdict : Option RiskVerdict
  pub risk_verdict_row : Option RiskRow
  pub risk_verdict_now_ms : Option ℕ
  pub kill_state : KillState
  pub kill_generation : ℕ
  pub open_orders_in_flight : ℕ
  pub artifact_check : ArtifactStatus
  pub broker_kind : BrokerKind
  pub gates_config : Json
  pub exec_config : ExecutionConfig
  pub now_ms : ℕ

pub record PreflightReject : Type 0 where
  pub reasons : List Reason
  pub gate_stage : Option Stage
  pub stages_skipped : List Stage
  pub preflight_id : ℕ
  pub capped_limit : Option ℕ
  pub risk_reasons : Option (List ℕ)
  pub quote_reasons : Option (List Reason)

pub record PreflightPass : Type 0 where
  pub preflight_id : ℕ
  pub symbol : ℕ
  pub instrument_id : ℕ
  pub side : Side
  pub qty : ℤ
  pub capped_limit : ℕ
  pub quote_b_provenance : QuoteSnapshot
  pub latency_observed_ms : ℤ
  pub kill_generation : ℕ
  pub risk_verdict_id : ℕ

pub data ExecError : Type 0 where
  no_leg multi_leg kill_state_out_of_vocab broker_kind_out_of_vocab artifact_status_out_of_vocab
        verdict_absent reserved_reason identity_mismatch cap_error tampered_row no_cap :
      ExecError

pub data Evaluated : Type 0 where
  passed : PreflightPass → Evaluated
  refused : PreflightReject → Evaluated
  fatal : ExecError → Evaluated

-- The key that the deterministic id of an evaluation is the hash of.
pub record PreflightKey : Type 0 where
  pub run_id : ℕ
  pub decision_id : Option ℕ
  pub symbol : ℕ
  pub side : Side
  pub qty : ℤ
  pub reasons : List Reason
  pub quote_b_seen_at_ms : Option ℕ
  pub kill_generation : ℕ

-- Code outside the module: the parse of a time stamp, and the SHA-256 of the canonical text of a
-- row and of a key.
pub record Outside : Type 0 where
  pub parseable_utc : ℕ → Bool
  pub row_hash : RowBody → ℕ
  pub key_hash : PreflightKey → ℕ
