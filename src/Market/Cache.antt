-- ===== src/Market/Cache.antt =====
-- scripts/agent/market_state_cache.py: the freshness-gated cache of verdicts. Times are injected
-- millisecond readings, and `now - then > ttl` is written `then + ttl < now`.
pub mod Freshness
mod Tests
use fail_closed_agent.Base.{
  ℕ, ◌+◌, Bool, true, false, not, Option, none, some, List, [], ◌∷◌, ◌++◌, ltb, ◌==◌, if◌then◌else◌,
}
use fail_closed_agent.Base.Dict.{Dict, lookup, insert}
use fail_closed_agent.Base.Ranked.{sorted_set}
use fail_closed_agent.Market.State.{
  SessionState, HaltState, LuldState, SsrState, not_tradable, cache_stale_safe_default, Verdict,
}

abbrev pub default_freshness_ttl_ms : ℕ
default_freshness_ttl_ms = 2000

pub record CacheEntry : Type 0 where
  pub verdict : Verdict
  pub refreshed_at_ms : ℕ

pub record MarketStateCache : Type 0 where
  pub ttl_ms : ℕ
  pub entries : Dict CacheEntry

-- The constructor; `none` is the ValueError of a TTL that would lengthen freshness.
pub new : ℕ → Option MarketStateCache
new ttl_ms =
    if ltb default_freshness_ttl_ms ttl_ms
    then none
    else some (record { ttl_ms = ttl_ms; entries = [] })

pub put : Verdict → ℕ → MarketStateCache → MarketStateCache
put verdict now_ms c = record c {
  entries =
      insert verdict.symbol (record { verdict = verdict; refreshed_at_ms = now_ms }) c.entries;
}

pub safe_default_verdict : ℕ → ℕ → ℕ → Verdict
safe_default_verdict symbol instrument_id session_date_et = record {
  symbol = symbol;
  instrument_id = instrument_id;
  session_state = SessionState.unknown;
  tradability = not_tradable;
  halt = HaltState.unknown;
  luld = LuldState.unknown;
  ssr = SsrState.unknown;
  two_sided_nbbo = false;
  short_allowed = false;
  reasons = cache_stale_safe_default ∷ [];
  ca_blackout = true;
  session_date_et = session_date_et;
}

pub get : ℕ → ℕ → ℕ → ℕ → MarketStateCache → Verdict
get symbol instrument_id session_date_et now_ms c = elim (lookup symbol c.entries) [
  | none ↦ safe_default_verdict symbol instrument_id session_date_et
  | some entry ↦
      if not (entry.verdict.instrument_id == instrument_id)
      then safe_default_verdict symbol instrument_id session_date_et
      else if ltb (entry.refreshed_at_ms + c.ttl_ms) now_ms
      then safe_default_verdict symbol instrument_id session_date_et
      else entry.verdict
]

pub is_fresh : ℕ → ℕ → MarketStateCache → Bool
is_fresh symbol now_ms c = elim (lookup symbol c.entries) [
  | none ↦ false
  | some entry ↦ not (ltb (entry.refreshed_at_ms + c.ttl_ms) now_ms)
]

pub refresh_set : List ℕ → List ℕ → List ℕ
refresh_set candidate_symbols open_position_symbols =
    sorted_set (λ s. s) (candidate_symbols ++ open_position_symbols)

pub stale_symbols : List ℕ → ℕ → MarketStateCache → List ℕ
stale_symbols [] now_ms c = []
stale_symbols (s ∷ symbols) now_ms c =
    let rest = stale_symbols symbols now_ms c in if is_fresh s now_ms c then rest else s ∷ rest
