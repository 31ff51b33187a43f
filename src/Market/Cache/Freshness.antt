-- ===== src/Market/Cache/Freshness.antt =====
-- What the cache serves: never a verdict that is stale, foreign or made up.
use mathlib.Core.List.{Memᴰ}
use fail_closed_agent.Base.{
  ℕ, ◌+◌, ◌≤◌, ◌≡◌, inl, inr, refl, sym, ap, ◌||◌, Option, none, some, List, [], ◌∷◌, leb, ◌==◌,
  ◌&&◌, ◌++◌, ◌∙◌, Bool-cases, if◌then◌else◌, arith,
}
use fail_closed_agent.Base.Dict.{lookup, lookup-insert}
use fail_closed_agent.Base.Ranked.{has, has-sorted_set, has-append}
use fail_closed_agent.Market.State.{Verdict, tradable}
use fail_closed_agent.Market.Cache.{
  CacheEntry, MarketStateCache, new, put, safe_default_verdict, get, refresh_set,
}

-- A put of the cache's history, which stands newest first.
abbrev pub Put : Type 0
Put = Verdict × ℕ

abbrev pub replay : MarketStateCache → List Put → MarketStateCache
replay c [] = c
replay c ((v, t) ∷ puts) = put v t (replay c puts)

-- The newest put for a symbol.
pub latest : ℕ → List Put → Option Put
latest s [] = none
latest s ((v, t) ∷ puts) = if s == v.symbol then some (v, t) else latest s puts

abbrev pub served : MarketStateCache → ℕ → ℕ → ℕ → ℕ → Option Put → Verdict
served c s i d now none = safe_default_verdict s i d
served c s i d now (some (v, t)) =
    if v.instrument_id == i && leb now (t + c.ttl_ms) then v else safe_default_verdict s i d

abbrev entry_of : Option Put → Option CacheEntry
entry_of none = none
entry_of (some (v, t)) = some (record { verdict = v; refreshed_at_ms = t })

abbrev ttl_ms-replay : (c : MarketStateCache) (puts : List Put) → (replay c puts).ttl_ms ≡ c.ttl_ms
unfolding put
ttl_ms-replay c [] = refl
ttl_ms-replay c ((v, t) ∷ puts) = ttl_ms-replay c puts

lookup-replay :
    (s : ℕ) (c : MarketStateCache) (puts : List Put)
    → c.entries ≡ []
    → lookup s (replay c puts).entries ≡ entry_of (latest s puts)
unfolding latest put lookup
lookup-replay s c [] e = rw e refl
lookup-replay s c ((v, t) ∷ puts) e = ground (
  arith,
  lookup-insert v.symbol s (record { verdict = v; refreshed_at_ms = t }) (replay c puts).entries,
  lookup-replay s c puts e,
)

-- After any puts into a new cache, `get` answers with the newest put for the symbol if that is for
-- the same instrument and at most `ttl_ms` old, and with the safe default otherwise.
pub get_refines :
    (ttl : ℕ) {c : MarketStateCache} (puts : List Put) (s i d now : ℕ)
    → new ttl ≡ some c
    → get s i d now (replay c puts) ≡ served c s i d now (latest s puts)
unfolding get new
get_refines ttl {c = c} puts s i d now e =
    ground (arith, lookup-replay s c puts (ground arith), ttl_ms-replay c puts)

latest_mem :
    (s : ℕ) (p : Put) (puts : List Put) → latest s puts ≡ some p → (p.0.symbol ≡ s) × Memᴰ p puts
unfolding latest
latest_mem s p [] e = absurd (cc e)
latest_mem s p ((w, u) ∷ puts) e = elim (Bool-cases (s == w.symbol)) [
  | inl same ↦
      let hit : ◌≡◌ {A = Put} (w, u) p = ground arith in
      (ground (arith, ap (λ (q : Put). q.0.symbol) hit), Memᴰ.head (sym hit))
  | inr other ↦ let (named, there) = latest_mem s p puts (ground arith) in (named, Memᴰ.tail there)
]

-- No opening on old news: a TRADABLE answer is a verdict that was put for this symbol and this
-- instrument at most two seconds before.
pub get_tradable_fresh :
    (ttl : ℕ) {c : MarketStateCache} (puts : List Put) (s i d now : ℕ)
    → new ttl ≡ some c
    → (get s i d now (replay c puts)).tradability ≡ tradable
    → (v : Verdict) × (t : ℕ) × (get s i d now (replay c puts) ≡ v)
      × Memᴰ {A = Put} (v, t) puts
      × (v.symbol ≡ s)
      × (v.instrument_id ≡ i)
      × (now ≤ t + 2000)
unfolding new safe_default_verdict
get_tradable_fresh ttl {c = c} puts s i d now e h =
    found (latest s puts) refl (ap (λ (v : Verdict). v.tradability) (sym same) ∙ h)
  where
    same : get s i d now (replay c puts) ≡ served c s i d now (latest s puts)
    same = get_refines ttl puts s i d now e

    found :
        (o : Option Put)
        → latest s puts ≡ o
        → (served c s i d now o).tradability ≡ tradable
        → (v : Verdict) × (t : ℕ) × (get s i d now (replay c puts) ≡ v)
          × Memᴰ {A = Put} (v, t) puts
          × (v.symbol ≡ s)
          × (v.instrument_id ≡ i)
          × (now ≤ t + 2000)
    found none k h = absurd (ground arith)
    found (some (v, t)) k h =
        let (named, there) = latest_mem s (v, t) puts k in
        (
          v,
          t,
          same ∙ ap (served c s i d now) k ∙ ground arith,
          there,
          named,
          ground arith,
          ground arith,
        )

-- A held symbol is always refreshed: the refresh set is the union of candidates and positions.
pub refresh_set_union :
    (s : ℕ) (candidates held : List ℕ)
    → has (λ k. k) s (refresh_set candidates held)
      ≡ (has (λ k. k) s candidates || has (λ k. k) s held)
unfolding refresh_set
refresh_set_union s candidates held =
    has-sorted_set (λ k. k) s (candidates ++ held) ∙ has-append (λ k. k) s candidates held
