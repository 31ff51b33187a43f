-- ===== src/Exec/Realism/Tests.antt =====
-- A witness of the theorem on modelled fills, the fill of 70 shares from a book of four levels, and quotes
-- that have none.
use fail_closed_agent.Base.{ℕ, ◌≡◌, refl, true, false, none, some, List, [], ◌∷◌}
use fail_closed_agent.Base.Int.{pos}
use fail_closed_agent.Base.Decimal.{finite}
use fail_closed_agent.Exec.Order.{buy}
use fail_closed_agent.Exec.Quote.{QuoteSnapshot}
use fail_closed_agent.Exec.Preflight.Inputs.{QuoteVerdict}
use fail_closed_agent.Exec.Realism.{
  depth_vwap_l2_v2, model_fill, fill_of_sides, fill_of_walk, walk_ladder, take_level,
}
use fail_closed_agent.Exec.Realism.Modeled.{IsModeled, model_fill-IsModeled}

abbrev book : List (ℕ × ℕ)
book = (100, 30) ∷ (101, 0) ∷ (102, 30) ∷ (105, 50) ∷ []

abbrev quote : QuoteSnapshot
quote = record {
  symbol = 7;
  instrument_id = 70;
  bid = some (finite (pos 99));
  ask = some (finite (pos 100));
  bid_sz = some (finite (pos 5));
  ask_sz = some (finite (pos 30));
  ts_event_utc = 1;
  seen_at_ms = 1000;
  reconnect_epoch = 1;
  vendor_seq = some 1;
}

abbrev accepted : QuoteVerdict
accepted = record { ok = true; reasons = [] }

walked :
    model_fill buy 103 quote accepted (some book) 70
    ≡ some (record {
      model = depth_vwap_l2_v2 ((100, 30) ∷ (102, 30) ∷ []);
      requested_qty = 70;
      modeled_fillable_qty = 60;
      worst_price = 103;
      touch_price = 100;
      modeled_cost_usd = 7090;
    })
unfolding model_fill fill_of_sides fill_of_walk walk_ladder take_level
walked = refl

no_touch : model_fill buy 103 (record quote { ask = none }) accepted (some book) 70 ≡ none
unfolding model_fill fill_of_sides
no_touch = refl

faulted : model_fill buy 103 quote (record accepted { ok = false }) (some book) 70 ≡ none
unfolding model_fill
faulted = refl

model_fill-IsModeled_example :
    IsModeled buy 103 quote accepted
      (some book)
      70
      (model_fill buy 103 quote accepted (some book) 70)
model_fill-IsModeled_example = model_fill-IsModeled buy 103 quote accepted (some book) 70
