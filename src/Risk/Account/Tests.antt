-- ===== src/Risk/Account/Tests.antt =====
-- Witnesses of the theorems on the account store.
use fail_closed_agent.Base.{◌≡◌, ◌↔◌, none, List, [], ◌∷◌}
use fail_closed_agent.Base.Int.{pos}
use fail_closed_agent.Risk.Account.{
  fresh, BrokerAccountRead, ReadResult, valid, account_invalid, AccountStore, get, put_all,
}
use fail_closed_agent.Risk.Account.Freshness.{IsRecent, last_result, get-fresh_iff}

abbrev read : BrokerAccountRead
read = record {
  equity = pos 100;
  last_equity = pos 110;
  buying_power = pos 200;
  daytrading_buying_power = none;
  seen_at_ms = 5000;
  account_snapshot_id = 1;
}

abbrev store : AccountStore
store = record { ttl_ms = 1000; latest = none; latest_read = none }

abbrev results : List ReadResult
results = account_invalid 3 4000 ∷ valid read ∷ []

get-fresh_iff_example :
    ((get 6000 (put_all results store)).status ≡ fresh)
    ↔ IsRecent 6000 1000 (last_result none results)
get-fresh_iff_example = get-fresh_iff results store 6000
