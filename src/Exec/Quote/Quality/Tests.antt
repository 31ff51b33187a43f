-- ===== src/Exec/Quote/Quality/Tests.antt =====
-- Witness of the theorem on quotes: 9.99 at 10.00 dollars, half a second old.
use fail_closed_agent.Base.{◌≡◌, ◌↔◌, true, some}
use fail_closed_agent.Base.Int.{pos}
use fail_closed_agent.Base.Decimal.{finite}
use fail_closed_agent.Exec.Quote.{QuoteSnapshot}
use fail_closed_agent.Exec.Quote.Quality.{evaluate}
use fail_closed_agent.Exec.Quote.Quality.Usable.{IsGoodQuote, evaluate_ok_iff}

abbrev quote : QuoteSnapshot
quote = record {
  symbol = 7;
  instrument_id = 70;
  bid = some (finite (pos 9990000));
  ask = some (finite (pos 10000000));
  bid_sz = some (finite (pos 5));
  ask_sz = some (finite (pos 5));
  ts_event_utc = 1;
  seen_at_ms = 1000;
  reconnect_epoch = 1;
  vendor_seq = some 1;
}

evaluate_ok_iff_example :
    ((evaluate quote 1500 (pos 2000) 1000).ok ≡ true) ↔ IsGoodQuote quote 1500 (pos 2000) 1000
evaluate_ok_iff_example = evaluate_ok_iff quote 1500 (pos 2000) 1000
