-- ===== src/Exec/World/Tests.antt =====
-- Witnesses of the theorems on sequences of actions: an opening order is minted and submitted with the
-- run gates open and with them closed, and a reduction after it.
use fail_closed_agent.Base.{◌≡◌, refl, Bool, true, false, some, none, List, [], ◌∷◌}
use fail_closed_agent.Base.Int.{pos}
use fail_closed_agent.Base.Dict.Every.{Every}
use fail_closed_agent.Config.{obj, end, opening_allowed, gate, walk, lookup}
use fail_closed_agent.Exec.Order.{buy, sell, OrderIntent, IntentId}
use fail_closed_agent.Exec.Token.{Reading, Position, open_token, reduce_only_token}
use fail_closed_agent.Exec.Preflight.Inputs.{PreflightInputs}
use fail_closed_agent.Exec.Preflight.Tests.{inputs, gates, outside}
use fail_closed_agent.Exec.World.{Action, mint_open, mint_reduce, submit, bind, run}
use fail_closed_agent.Exec.World.Safety.{
  AllMints, IsAccounted, AllTraced, AllIssued, run-IsAccounted,
}
use fail_closed_agent.Exec.World.Safety.Closed.{
  GatesClosed, AllReducing, fresh, closed_gates-AllReducing,
}

abbrev order : OrderIntent
order = record {
  symbol = 7;
  side = buy;
  qty = pos 2000000000;
  limit_price = some (pos 10010000);
  is_reducing = false;
  intent_id = IntentId.named 1;
}

-- the sale of 2 of the 5 shares held
abbrev held : Position
held = record { symbol = 7; qty = pos 5000000000 }

abbrev reduction : OrderIntent
reduction = record {
  symbol = 7;
  side = sell;
  qty = pos 2000000000;
  limit_price = none;
  is_reducing = true;
  intent_id = IntentId.named 2;
}

abbrev Held : Position → Type 0
Held p = p ≡ held

abbrev reading : Reading
reading = record { now_ms = 1800; generation = 2 }

abbrev open_actions : List Action
open_actions =
    bind
    ∷ mint_open (inputs gates)
    ∷ submit order (open_token 0) reading
    ∷ mint_reduce (some held) reduction
    ∷ submit reduction (reduce_only_token 1) reading
    ∷ []

abbrev closed_actions : List Action
closed_actions =
    mint_open (inputs (obj end))
    ∷ submit order (open_token 0) reading
    ∷ mint_reduce (some held) reduction
    ∷ submit reduction (reduce_only_token 0) reading
    ∷ []

abbrev At1700 : PreflightInputs → Type 0
At1700 i = i.now_ms ≡ 1700

abbrev returns : OrderIntent → Bool
returns o = true

open_mints : AllMints outside returns At1700 Held open_actions
unfolding AllMints
open_mints = (refl, (refl, tt))

fresh-IsAccounted : IsAccounted outside returns At1700 Held (fresh outside returns Held false)
unfolding IsAccounted AllTraced AllIssued Every
fresh-IsAccounted = (tt, tt)

run-IsAccounted_example :
    IsAccounted outside returns At1700 Held
      (run outside returns open_actions (fresh outside returns Held false))
run-IsAccounted_example =
    run-IsAccounted outside returns At1700 Held open_actions (fresh outside returns Held false)
      open_mints fresh-IsAccounted

closed_mints : AllMints outside returns GatesClosed Held closed_actions
unfolding AllMints GatesClosed opening_allowed gate walk lookup
closed_mints = (refl, (refl, tt))

closed_gates-AllReducing_example :
    AllReducing Held (run outside returns closed_actions (fresh outside returns Held true)).orders
closed_gates-AllReducing_example =
    closed_gates-AllReducing outside returns Held closed_actions true closed_mints
