-- ===== src/Market/Cache/Tests.antt =====
-- Witnesses of the theorems on the cache: a verdict put at 1000 ms, asked for at 3000 ms.
use mathlib.Core.List.{Memᴰ}
use fail_closed_agent.Base.{ℕ, ◌+◌, ◌≤◌, ◌≡◌, refl, true, false, List, [], ◌∷◌}
use fail_closed_agent.Base.Dict.{insert, lookup}
use fail_closed_agent.Market.State.{SessionState, HaltState, LuldState, SsrState, tradable, Verdict}
use fail_closed_agent.Market.Cache.{MarketStateCache, new, put, get, stale_symbols, is_fresh}
use fail_closed_agent.Market.Cache.Freshness.{
  Put, replay, latest, served, get_refines, get_tradable_fresh,
}

abbrev verdict : Verdict
verdict = record {
  symbol = 7;
  instrument_id = 70;
  session_state = SessionState.rth;
  tradability = tradable;
  halt = HaltState.no_halt;
  luld = LuldState.normal;
  ssr = SsrState.inactive;
  two_sided_nbbo = true;
  short_allowed = true;
  reasons = [];
  ca_blackout = false;
  session_date_et = 20260710;
}

abbrev cache : MarketStateCache
cache = record { ttl_ms = 2000; entries = [] }

abbrev puts : List Put
puts = (verdict, 1000) ∷ (verdict, 500) ∷ []

stale_symbols_runs : stale_symbols (7 ∷ 8 ∷ []) 3000 (replay cache puts) ≡ 8 ∷ []
unfolding stale_symbols is_fresh put insert lookup
stale_symbols_runs = refl

get_refines_example :
    get 7 70 20260710 3001 (replay cache puts) ≡ served cache 7 70 20260710 3001 (latest 7 puts)
unfolding new
get_refines_example = get_refines 2000 {c = cache} puts 7 70 20260710 3001 refl

get_tradable_fresh_example :
    (v : Verdict) × (t : ℕ) × (get 7 70 20260710 3000 (replay cache puts) ≡ v)
    × Memᴰ {A = Put} (v, t) puts
    × (v.symbol ≡ 7)
    × (v.instrument_id ≡ 70)
    × (3000 ≤ t + 2000)
unfolding new get put insert lookup
get_tradable_fresh_example = get_tradable_fresh 2000 {c = cache} puts 7 70 20260710 3000 refl refl
