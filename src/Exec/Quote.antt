-- ===== src/Exec/Quote.antt =====
-- scripts/agent/quote_quality.py, QuoteSnapshot: one observation of the best bid and offer. Prices
-- count millionths of a dollar (MID_QUANTUM); times and sequence numbers are injected readings.
pub mod Quality
use fail_closed_agent.Base.{ℕ, Option, none, some, ltb, if◌then◌else◌}
use fail_closed_agent.Base.Int.{pos}
use fail_closed_agent.Base.Decimal.{Decimal, finite}

pub record QuoteSnapshot : Type 0 where
  pub symbol : ℕ
  pub instrument_id : ℕ
  pub bid : Option Decimal
  pub ask : Option Decimal
  pub bid_sz : Option Decimal
  pub ask_sz : Option Decimal
  pub ts_event_utc : ℕ
  pub seen_at_ms : ℕ
  pub reconnect_epoch : ℕ
  pub vendor_seq : Option ℕ

-- `_usable`, with the price: present, finite and positive
abbrev pub usable : Option Decimal → Option ℕ
usable (some (finite (pos n))) = if ltb 0 n then some n else none
usable _ = none
