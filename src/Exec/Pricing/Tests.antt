-- ===== src/Exec/Pricing/Tests.antt =====
-- Witness of the theorem on reductions: a bid of 1.02 dollars and 25 basis points give 1.01.
use fail_closed_agent.Base.{◌≡◌, refl, some, none}
use fail_closed_agent.Base.Int.{pos}
use fail_closed_agent.Base.Decimal.{finite}
use fail_closed_agent.Exec.Order.{sell}
use fail_closed_agent.Exec.Quote.{QuoteSnapshot}
use fail_closed_agent.Exec.Pricing.{reduce_cap, reduce_raw, reduce_touch, round_down, tick_of}
use fail_closed_agent.Exec.Pricing.Reduce.{IsGenerous, reduce_cap-IsGenerous}

abbrev quote : QuoteSnapshot
quote = record {
  symbol = 7;
  instrument_id = 70;
  bid = some (finite (pos 1020000));
  ask = none;
  bid_sz = none;
  ask_sz = none;
  ts_event_utc = 1;
  seen_at_ms = 1;
  reconnect_epoch = 1;
  vendor_seq = none;
}

reduces_to : reduce_cap sell quote 2500 ≡ some 1010000
unfolding reduce_cap reduce_raw round_down tick_of
reduces_to = refl

reduce_cap-IsGenerous_example :
    IsGenerous sell (reduce_touch sell quote) 2500 (reduce_cap sell quote 2500)
reduce_cap-IsGenerous_example = reduce_cap-IsGenerous sell quote 2500
