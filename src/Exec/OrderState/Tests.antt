-- ===== src/Exec/OrderState/Tests.antt =====
-- Witnesses of the theorems on broker orders: an order of ten shares that fills in two steps, with a
-- correction of the average price in between.
use fail_closed_agent.Base.{◌≡◌, refl, Option, some, none, List, [], ◌∷◌, String}
use fail_closed_agent.Base.Int.{ℤ, pos}
use fail_closed_agent.Base.Decimal.{Decimal, finite}
use fail_closed_agent.Exec.OrderState.{
  BrokerOrder, Payload, text_value, decimal_value, fake, partially_filled, good, prev_cost,
  fill_delta, poll, parse_order_payload, nonnegative_slot, avg_price_slot, limit_slot,
  parse_money_value, map_status, stamp,
}
use fail_closed_agent.Exec.OrderState.Exact.{IsExact, fill_delta-IsExact}
use fail_closed_agent.Exec.OrderState.Fills.{AddsUp, poll-AddsUp}
use fail_closed_agent.Exec.OrderState.Parse.{IsOrderly, parse_order_payload-IsOrderly}

abbrev snapshot : ℤ → ℤ → BrokerOrder
snapshot quantity price = record {
  broker_order_id = "b";
  client_order_id = "c";
  symbol = "AAPL";
  side = "buy";
  state = partially_filled;
  raw_status = "partially_filled";
  qty = pos 10;
  filled_qty = quantity;
  filled_avg_price = some price;
  limit_price = none;
  ts_broker_utc = none;
  source = fake;
}

fill_delta-IsExact_example :
    IsExact
      (some (snapshot (pos 4) (pos 100)))
      (snapshot (pos 10) (pos 101))
      (fill_delta (some (snapshot (pos 4) (pos 100))) (snapshot (pos 10) (pos 101)))
fill_delta-IsExact_example =
    fill_delta-IsExact (some (snapshot (pos 4) (pos 100))) (snapshot (pos 10) (pos 101))

abbrev polls : List BrokerOrder
polls = snapshot (pos 4) (pos 100) ∷ snapshot (pos 4) (pos 99) ∷ snapshot (pos 10) (pos 101) ∷ []

nothing_paid : prev_cost none ≡ good (pos 0)
unfolding prev_cost
nothing_paid = refl

poll-AddsUp_example : AddsUp none (pos 0) (poll none polls)
poll-AddsUp_example = poll-AddsUp none polls (pos 0) nothing_paid

abbrev to_decimal : String → Option Decimal
to_decimal s = none

abbrev payload : Payload
payload = record {
  id = some (text_value "b");
  client_order_id = some (text_value "c");
  status = some (text_value "partially_filled");
  symbol = some (text_value "AAPL");
  side = some (text_value "buy");
  qty = some (decimal_value (finite (pos 10)));
  filled_qty = some (decimal_value (finite (pos 4)));
  filled_avg_price = some (decimal_value (finite (pos 100)));
  limit_price = none;
  updated_at = none;
  filled_at = none;
  canceled_at = none;
}

parses : parse_order_payload to_decimal fake payload ≡ good (snapshot (pos 4) (pos 100))
unfolding parse_order_payload nonnegative_slot avg_price_slot limit_slot parse_money_value
    map_status stamp
parses = refl

parse_order_payload-IsOrderly_example : IsOrderly (snapshot (pos 4) (pos 100))
parse_order_payload-IsOrderly_example =
    parse_order_payload-IsOrderly to_decimal fake payload (snapshot (pos 4) (pos 100)) parses
