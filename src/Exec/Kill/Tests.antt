-- ===== src/Exec/Kill/Tests.antt =====
-- Witnesses of the theorems on the chokepoint and on the kill switch, over a broker that keeps the
-- orders it took and raises for symbol 9.
use fail_closed_agent.Base.{
  ◌≡◌, ◌↔◌, ◌⊎◌, refl, Bool, true, false, not, some, none, List, [], ◌∷◌, ◌==◌,
}
use fail_closed_agent.Base.Int.{pos, negsuc}
use fail_closed_agent.Base.Dict.{insert}
use fail_closed_agent.Exec.Order.{buy, IntentId, OrderIntent}
use fail_closed_agent.Exec.Token.{
  reduce_only_kind, Authorization, reduce_only_token, Registry, Reading, authorization_of, Position,
  minted, mint_reduce_only_token, issue, reduce_defect, reduce_authorization,
}
use fail_closed_agent.Exec.Token.Consume.{IsLive}
use fail_closed_agent.Exec.Broker.{require_token}
use fail_closed_agent.Exec.Broker.Chokepoint.{Binds, require_token_iff, reduce_never_blocked}
use fail_closed_agent.Exec.Kill.{halted, broker_raised, trigger, new}
use fail_closed_agent.Exec.Kill.Flatten.{place_all, place_one, outcome, trigger_flattens}

abbrev place : OrderIntent → List OrderIntent → Bool × List OrderIntent
place intent orders = (not (intent.symbol == 9), intent ∷ orders)

abbrev registry : Registry
registry = record { authorizations = []; next_nonce = 0; runtime_bound = false }

abbrev reading : Reading
reading = record { now_ms = 3000; generation = 4 }

abbrev short : Position
short = record { symbol = 7; qty = negsuc 9 }

abbrev positions : List Position
positions = short ∷ record { symbol = 8; qty = pos 0 } ∷ record { symbol = 9; qty = pos 3 } ∷ []

abbrev cover : OrderIntent
cover = record {
  symbol = 7;
  side = buy;
  qty = pos 4;
  limit_price = none;
  is_reducing = true;
  intent_id = IntentId.named 1;
}

abbrev granted : Registry
granted = record {
  authorizations = (0, reduce_authorization short cover) ∷ [];
  next_nonce = 1;
  runtime_bound = false;
}

require_token_iff_example :
    ((require_token cover (reduce_only_token 0) reading granted).0 ≡ none) ↔ (
      (a : Authorization) × (authorization_of (reduce_only_token 0) granted ≡ some a)
      × Binds a cover
      × ((a.kind ≡ reduce_only_kind) ⊎ IsLive a false reading))
require_token_iff_example = require_token_iff cover (reduce_only_token 0) reading granted

mints : mint_reduce_only_token (some short) cover registry ≡ minted 0 granted
unfolding mint_reduce_only_token reduce_defect issue insert
mints = refl

reduce_never_blocked_example : (require_token cover (reduce_only_token 0) reading granted).0 ≡ none
reduce_never_blocked_example =
    reduce_never_blocked short cover reading registry {r' = granted} mints

place_all_runs :
    let (flattened, failed, orders) = place_all place positions ([], [], []) in
    (flattened ≡ 7 ∷ []) × (failed ≡ (9, broker_raised) ∷ [])
unfolding place_all place_one
place_all_runs = (refl, refl)

trigger_flattens_example :
    let (k, r, b) = trigger place reading positions new registry [] in
    (k.state ≡ halted) × (outcome place (k, r, b) ≡ place_all place positions ([], [], []))
unfolding new
trigger_flattens_example = trigger_flattens place reading positions new registry []
