-- ===== src/Exec/Preflight/Stages/Clean.antt =====
-- scripts/agent/execution_preflight.py, stages four to eleven: what the inputs of a stage that adds no
-- reason are like.
use fail_closed_agent.Base.{
  ℕ, ◌+◌, ◌%◌, ◌≤◌, ◌≡◌, ◌⊎◌, ◌≢◌, refl, Bool, true, false, Option, none, some, List, [], ◌∷◌,
  arith,
}
use fail_closed_agent.Base.Int.{ℤ, pos, negsuc}
use fail_closed_agent.Base.Ranked.{has}
use fail_closed_agent.Market.State.{
  Verdict, Tradability, SessionState, HaltState, LuldState, Blocker, blocker_rank,
}
use fail_closed_agent.Exec.Order.{buy}
use fail_closed_agent.Exec.Quote.{QuoteSnapshot}
use fail_closed_agent.Exec.Preflight.Inputs.{
  whole_share, min_requote_delta_ms, risk_verdict_ttl_ms, Leg, Candidate, QuoteVerdict, RiskVerdict,
  RowBody, ArtifactStatus, artifact_ok, BrokerKind, fake,
}
use fail_closed_agent.Exec.Preflight.Stages.{
  Collected, reasons, fault, collect, invalid_lot_size, check_candidate, check_strategy_gate,
  check_inflight, check_latency, check_quote, check_market_state, market_state_reasons,
  risk_reasons, broker_kind_check, artifact_reasons, strategy_binding, same_legs,
}

-- `c` adds nothing
abbrev pub IsClean : Collected → Type 0
IsClean c = c ≡ reasons []

pub collect-IsClean :
    (c : Collected) (cs : List Collected)
    → IsClean (collect (c ∷ cs))
    → IsClean c × IsClean (collect cs)
unfolding collect
collect-IsClean (fault e) cs h = absurd (cc h)
collect-IsClean (reasons []) cs h = ground arith
collect-IsClean (reasons (r ∷ rs)) cs h = ground arith

reasons-inj : (xs ys : List _) → reasons xs ≡ reasons ys → xs ≡ ys
reasons-inj xs ys h = cc

-- A whole number of shares, at least one.
abbrev pub WholeShares : ℤ → Type 0
WholeShares q = (n : ℕ) × (q ≡ pos n) × (n % whole_share ≡ 0) × (whole_share ≤ n)

lot_size : (q : ℤ) → invalid_lot_size q ≡ false → WholeShares q
lot_size (pos n) h = (n, refl, ground arith, ground arith)
lot_size (negsuc n) h = absurd (cc h)

candidate_parts :
    (c : Candidate) (leg : Leg)
    → IsClean (check_candidate c leg)
    → (leg.side ≡ buy) × (invalid_lot_size leg.qty ≡ false)
unfolding check_candidate
candidate_parts c leg h = ground arith

pub check_candidate-clean :
    (c : Candidate) (leg : Leg)
    → IsClean (check_candidate c leg)
    → (leg.side ≡ buy) × WholeShares leg.qty
check_candidate-clean c leg h =
    let (side, lot) = candidate_parts c leg h in (side, lot_size leg.qty lot)

abbrev pub PaperPath : Bool → ArtifactStatus → BrokerKind → Type 0
PaperPath synthetic status kind =
    (synthetic ≡ true) × (kind ≡ fake)
    ⊎ (synthetic ≡ false) × (status ≡ artifact_ok) × (kind ≢ fake)

pub check_strategy_gate-clean :
    (eligible synthetic : Bool) (status : ArtifactStatus) (kind : BrokerKind)
    → IsClean (check_strategy_gate eligible synthetic status kind)
    → (eligible ≡ true) × PaperPath synthetic status kind
unfolding check_strategy_gate collect broker_kind_check strategy_binding artifact_reasons
check_strategy_gate-clean eligible synthetic status kind h = ground arith

pub check_inflight-clean : (n : ℕ) → IsClean (check_inflight n) → n ≡ 0
unfolding check_inflight
check_inflight-clean n h = ground arith

-- The second quote is late enough, newer than the first, and of the same connection as both the
-- first and the feed now.
abbrev pub Requoted : ℕ → QuoteSnapshot → QuoteSnapshot → ℕ → ℕ → Type 0
Requoted t a b budget epoch =
    (t + budget ≤ b.seen_at_ms)
    × (a.seen_at_ms + min_requote_delta_ms ≤ b.seen_at_ms)
    × (b.reconnect_epoch ≡ a.reconnect_epoch)
    × (epoch ≡ b.reconnect_epoch)

pub check_latency-clean :
    (t : ℕ) (a b : QuoteSnapshot) (budget epoch : ℕ)
    → IsClean (check_latency t a (some b) budget epoch)
    → Requoted t a b budget epoch
unfolding check_latency
check_latency-clean t a b budget epoch h = ground arith

pub check_quote-clean :
    (b : Option QuoteSnapshot) (v : Option QuoteVerdict)
    → IsClean (check_quote b v)
    → (q : QuoteSnapshot) × (w : QuoteVerdict) × (b ≡ some q) × (v ≡ some w) × (w.reasons ≡ [])
unfolding check_quote
check_quote-clean none v h = absurd (cc h)
check_quote-clean (some b) none h = absurd (cc h)
check_quote-clean (some b) (some v) h = (b, v, refl, refl, ground arith)

-- A verdict on this instrument that lets it be traded in regular hours.
abbrev pub OpenMarket : Verdict → Leg → Type 0
OpenMarket v leg =
    (v.symbol ≡ leg.symbol)
    × (v.instrument_id ≡ leg.instrument_id)
    × (v.tradability ≡ Tradability.tradable)
    × (v.session_state ≡ SessionState.rth)
    × (v.halt ≡ HaltState.no_halt)
    × (v.luld ≡ LuldState.normal)
    × (v.ca_blackout ≡ false)
    × (has blocker_rank Blocker.cache_stale_safe_default v.reasons ≡ false)

pub check_market_state-clean :
    (v : Verdict) (leg : Leg) → IsClean (check_market_state v leg) → OpenMarket v leg
unfolding check_market_state market_state_reasons
check_market_state-clean v leg h = ground arith

-- A verdict of the risk engine that allows this order of this decision, at this generation of the
-- kill switch, and is fresh.
abbrev pub RiskAllows : RiskVerdict → RowBody → ℕ → ℕ → Leg → ℕ → ℕ → Type 0
RiskAllows v row at decision leg generation now =
    (row.verdict_id ≡ some v.verdict_id)
    × (row.decision_id ≡ some decision)
    × (same_legs v.legs leg ≡ true)
    × (now ≤ at + risk_verdict_ttl_ms)
    × (v.allowed ≡ true)
    × (v.kill_generation ≡ generation)

pub risk_reasons-clean :
    (v : RiskVerdict) (row : RowBody) (at decision : ℕ) (leg : Leg) (generation now : ℕ)
    → risk_reasons v row at decision leg generation now ≡ []
    → RiskAllows v row at decision leg generation now
unfolding risk_reasons
risk_reasons-clean v row at decision leg generation now h = ground arith
