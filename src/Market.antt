-- ===== src/Market.antt =====
-- The market-state tier: the pure tradability decider and the cache in front of it.
pub mod State
pub mod Cache
