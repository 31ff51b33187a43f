-- ===== src/Exec/Reasons.antt =====
-- scripts/agent/exec_reasons.py: the closed vocabulary of the open preflight and its stages. The
-- order of the constructors is that of the texts.
use fail_closed_agent.Base.{ℕ, Bool, true, false, List, [], ◌∷◌}

pub data Reason : Type 0 where
  artifact_hash_invalid artifact_key_mismatch backtest_artifact_missing ca_blackout can_open_denied
        epoch_changed extended_hours_blocked fake_broker_requires_synthetic halt_luld_auction
        invalid_lot invalid_tick kill_generation_changed kill_switch_halted latency_lost_edge
        latency_not_elapsed locate_unavailable market_state_not_rth market_state_not_tradable
        market_state_stale_default missing_decision_stamp not_marketable open_order_in_flight
        open_token_expired order_matrix_unsupported preflight_runtime_unbound quote_crossed
        quote_locked quote_missing quote_nonfinite quote_nonpositive quote_one_sided quote_stale
        requote_not_later risk_verdict_mismatch risk_verdict_missing risk_verdict_stale
        run_gates_off spread_too_wide ssr_short_blocked strategy_not_paper_eligible
        synthetic_requires_fake_broker unpriceable_candidate :
      Reason

-- The place of a code in the order of the texts.
abbrev pub rank : Reason → ℕ
rank artifact_hash_invalid = 0
rank artifact_key_mismatch = 1
rank backtest_artifact_missing = 2
rank ca_blackout = 3
rank can_open_denied = 4
rank epoch_changed = 5
rank extended_hours_blocked = 6
rank fake_broker_requires_synthetic = 7
rank halt_luld_auction = 8
rank invalid_lot = 9
rank invalid_tick = 10
rank kill_generation_changed = 11
rank kill_switch_halted = 12
rank latency_lost_edge = 13
rank latency_not_elapsed = 14
rank locate_unavailable = 15
rank market_state_not_rth = 16
rank market_state_not_tradable = 17
rank market_state_stale_default = 18
rank missing_decision_stamp = 19
rank not_marketable = 20
rank open_order_in_flight = 21
rank open_token_expired = 22
rank order_matrix_unsupported = 23
rank preflight_runtime_unbound = 24
rank quote_crossed = 25
rank quote_locked = 26
rank quote_missing = 27
rank quote_nonfinite = 28
rank quote_nonpositive = 29
rank quote_one_sided = 30
rank quote_stale = 31
rank requote_not_later = 32
rank risk_verdict_mismatch = 33
rank risk_verdict_missing = 34
rank risk_verdict_stale = 35
rank run_gates_off = 36
rank spread_too_wide = 37
rank ssr_short_blocked = 38
rank strategy_not_paper_eligible = 39
rank synthetic_requires_fake_broker = 40
rank unpriceable_candidate = 41

-- RESERVED_PREFLIGHT_REASONS: never emitted
abbrev pub is_reserved : Reason → Bool
is_reserved ssr_short_blocked = true
is_reserved locate_unavailable = true
is_reserved extended_hours_blocked = true
is_reserved _ = false

pub data Stage : Type 0 where
  run_gates_stage kill_stage stamp_stage candidate_stage strategy_gate_stage inflight_stage
        latency_stage quote_stage market_state_stage order_stage risk_stage :
      Stage

-- PREFLIGHT_STAGES[i + 1:], for the terminal stages
abbrev pub after_stamp : List Stage
after_stamp =
    candidate_stage ∷ strategy_gate_stage ∷ inflight_stage ∷ latency_stage ∷ quote_stage
    ∷ market_state_stage ∷ order_stage ∷ risk_stage ∷ []

abbrev pub after_kill : List Stage
after_kill = stamp_stage ∷ after_stamp

abbrev pub after_run_gates : List Stage
after_run_gates = kill_stage ∷ after_kill
