-- ===== src/Exec/Preflight/Stages.antt =====
-- scripts/agent/execution_preflight.py: the stages of the second phase, which collect every reason.
pub mod Clean
use fail_closed_agent.Base.{
  ℕ, ◌+◌, ◌%◌, Bool, true, false, not, ◌&&◌, ◌||◌, Option, none, some, List, [], ◌∷◌, ◌++◌, ltb,
  ◌==◌, if◌then◌else◌, when, is_empty, is_some,
}
use fail_closed_agent.Base.Int.{ℤ, pos, negsuc, eqb_ℤ, sub_ℕ}
use fail_closed_agent.Base.Ranked.{sorted_set, has}
use fail_closed_agent.Config.{Json, opening_allowed}
use fail_closed_agent.Market.State.{
  Verdict, Tradability, SessionState, HaltState, LuldState, Blocker, blocker_rank,
}
use fail_closed_agent.Exec.Order.{Side, buy, sell}
use fail_closed_agent.Exec.Quote.{QuoteSnapshot}
use fail_closed_agent.Exec.Token.{Registry, Authorization, open_kind, issue}
use fail_closed_agent.Exec.Pricing.{Capped, capped, exec_error, marketable_limit_cap}
use fail_closed_agent.Exec.Reasons.{
  Reason, rank, is_reserved, Stage, run_gates_stage, kill_stage, stamp_stage, latency_stage,
  order_stage, after_run_gates, after_kill, after_stamp,
}
use fail_closed_agent.Exec.Preflight.Inputs.{
  whole_share, min_requote_delta_ms, risk_verdict_ttl_ms, DecisionStamp, Leg, Candidate,
  QuoteVerdict, RiskVerdict, RowBody, RiskRow, KillState, monitoring, unknown_kill_state,
  ArtifactStatus, artifact_ok, missing, key_mismatch, hash_invalid, unknown_status, BrokerKind,
  fake, unknown_kind, ExecutionConfig, PreflightInputs, PreflightReject, PreflightPass,
  PreflightKey, ExecError, no_leg, multi_leg, kill_state_out_of_vocab, broker_kind_out_of_vocab,
  artifact_status_out_of_vocab, verdict_absent, reserved_reason, identity_mismatch, cap_error,
  tampered_row, no_cap, Evaluated, passed, refused, fatal,
}

-- What a stage of the second phase adds, or the error that it raises.
pub data Collected : Type 0 where
  reasons : List Reason → Collected
  fault : ExecError → Collected

-- stages run in order: the first error ends the ladder
unfoldable pub collect : List Collected → Collected
collect [] = reasons []
collect (fault e ∷ cs) = fault e
collect (reasons rs ∷ cs) = elim (collect cs) [
  | reasons ss ↦ reasons (rs ++ ss)
  | fault e ↦ fault e
]

unfoldable pub any_reserved : List Reason → Bool
any_reserved [] = false
any_reserved (r ∷ rs) = is_reserved r || any_reserved rs

-- `qty != qty.to_integral_value() or qty < 1`
abbrev pub invalid_lot_size : ℤ → Bool
invalid_lot_size (pos n) = not (n % whole_share == 0) || ltb n whole_share
invalid_lot_size (negsuc n) = true

abbrev pub is_buy : Side → Bool
is_buy buy = true
is_buy sell = false

unfoldable pub check_candidate : Candidate → Leg → Collected
check_candidate c leg = elim c.legs [
  | _ ∷ [] ↦ reasons (
      when (not (is_buy leg.side)) Reason.order_matrix_unsupported
      ++ when (invalid_lot_size leg.qty) Reason.invalid_lot)
  | _ ↦ fault multi_leg
]

abbrev pub is_fake : BrokerKind → Bool
is_fake fake = true
is_fake _ = false

unfoldable pub artifact_reasons : ArtifactStatus → Collected
artifact_reasons artifact_ok = reasons []
artifact_reasons missing = reasons (Reason.backtest_artifact_missing ∷ [])
artifact_reasons key_mismatch = reasons (Reason.artifact_key_mismatch ∷ [])
artifact_reasons hash_invalid = reasons (Reason.artifact_hash_invalid ∷ [])
artifact_reasons unknown_status = fault artifact_status_out_of_vocab

unfoldable pub broker_kind_check : BrokerKind → Collected
broker_kind_check unknown_kind = fault broker_kind_out_of_vocab
broker_kind_check _ = reasons []

unfoldable pub strategy_binding : Bool → ArtifactStatus → BrokerKind → List Collected
strategy_binding false status kind =
    artifact_reasons status
    ∷ reasons (when (is_fake kind) Reason.fake_broker_requires_synthetic)
    ∷ []
strategy_binding true status kind =
    reasons (when (not (is_fake kind)) Reason.synthetic_requires_fake_broker) ∷ []

unfoldable pub check_strategy_gate : Bool → Bool → ArtifactStatus → BrokerKind → Collected
check_strategy_gate eligible synthetic status kind = collect (
    broker_kind_check kind
    ∷ reasons (when (not eligible) Reason.strategy_not_paper_eligible)
    ∷ strategy_binding synthetic status kind)

unfoldable pub check_inflight : ℕ → Collected
check_inflight n = reasons (when (ltb 0 n) Reason.open_order_in_flight)

abbrev pub eqb_option : Option ℕ → Option ℕ → Bool
eqb_option none none = true
eqb_option (some a) (some b) = a == b
eqb_option _ _ = false

unfoldable pub check_latency : ℕ → QuoteSnapshot → Option QuoteSnapshot → ℕ → ℕ → Collected
check_latency seen a none budget epoch_now = reasons []
check_latency seen a (some b) budget epoch_now = reasons (
    when (ltb b.seen_at_ms (seen + budget)) Reason.latency_not_elapsed
    ++ (when
          (ltb b.seen_at_ms (a.seen_at_ms + min_requote_delta_ms)
            || (eqb_option b.vendor_seq a.vendor_seq && b.ts_event_utc == a.ts_event_utc))
          Reason.requote_not_later
        ++ when
            (not (b.reconnect_epoch == a.reconnect_epoch) || not (epoch_now == b.reconnect_epoch))
            Reason.epoch_changed))

unfoldable pub check_quote : Option QuoteSnapshot → Option QuoteVerdict → Collected
check_quote none v = reasons (Reason.quote_missing ∷ [])
check_quote (some b) none = fault verdict_absent
check_quote (some b) (some v) =
    if any_reserved v.reasons then fault reserved_reason else reasons v.reasons

abbrev is_tradable : Tradability → Bool
is_tradable Tradability.tradable = true
is_tradable _ = false

abbrev is_rth : SessionState → Bool
is_rth SessionState.rth = true
is_rth _ = false

abbrev is_auction : SessionState → Bool
is_auction SessionState.auction = true
is_auction _ = false

abbrev is_no_halt : HaltState → Bool
is_no_halt HaltState.no_halt = true
is_no_halt _ = false

abbrev is_normal : LuldState → Bool
is_normal LuldState.normal = true
is_normal _ = false

unfoldable pub market_state_reasons : Verdict → List Reason
market_state_reasons v =
    when (not (is_tradable v.tradability)) Reason.market_state_not_tradable
    ++ (when (has blocker_rank Blocker.cache_stale_safe_default v.reasons)
          Reason.market_state_stale_default
        ++ (when (not (is_rth v.session_state)) Reason.market_state_not_rth
            ++ (when
                  (not (is_no_halt v.halt) || not (is_normal v.luld) || is_auction v.session_state)
                  Reason.halt_luld_auction
                ++ when v.ca_blackout Reason.ca_blackout)))

unfoldable pub check_market_state : Verdict → Leg → Collected
check_market_state v leg =
    if not (v.symbol == leg.symbol) || not (v.instrument_id == leg.instrument_id)
    then fault identity_mismatch
    else reasons (market_state_reasons v)

-- What stage ten works on: nothing where it is skipped.
abbrev pub priced : Option QuoteSnapshot → Option QuoteVerdict → Option QuoteSnapshot
priced (some b) (some v) = if v.ok then some b else none
priced _ _ = none

unfoldable pub order_cap : Leg → QuoteSnapshot → Option QuoteSnapshot → ℕ → Option Capped
order_cap leg a none slippage = none
order_cap leg a (some b) slippage =
    some (marketable_limit_cap leg.side a b slippage leg.limit_price)

unfoldable pub check_order : Option Capped → Collected
check_order none = reasons []
check_order (some (capped r)) = reasons r.reasons
check_order (some exec_error) = fault cap_error

abbrev pub limit_of : Option Capped → Option ℕ
limit_of (some (capped r)) = r.capped_limit
limit_of _ = none

-- one leg, of this symbol and size
abbrev pub same_legs : List (ℕ × ℤ) → Leg → Bool
same_legs ((symbol, qty) ∷ []) leg = symbol == leg.symbol && eqb_ℤ qty leg.qty
same_legs _ leg = false

unfoldable pub risk_reasons : RiskVerdict → RowBody → ℕ → ℕ → Leg → ℕ → ℕ → List Reason
risk_reasons v row at decision leg generation now =
    when
      (not (eqb_option row.verdict_id (some v.verdict_id))
        || not (eqb_option row.decision_id (some decision))
        || not (same_legs v.legs leg))
      Reason.risk_verdict_mismatch
    ++ (when (ltb (at + risk_verdict_ttl_ms) now) Reason.risk_verdict_stale
        ++ (when (not v.allowed) Reason.can_open_denied
            ++ when (not (v.kill_generation == generation)) Reason.kill_generation_changed))
