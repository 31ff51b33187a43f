-- ===== src/Exec/World.antt =====
-- The execution tier as it runs: any sequence of mints (scripts/agent/execution_preflight.py) and of
-- submissions (scripts/agent/broker/base.py), over one registry. A broker records every order that
-- reaches it, whether it then returns or raises.
pub mod Safety
mod Tests
use fail_closed_agent.Base.{ℕ, Bool, Option, none, some, List, [], ◌∷◌}
use fail_closed_agent.Exec.Order.{OrderIntent}
use fail_closed_agent.Exec.Token.{
  Token, Registry, Reading, Position, Minted, minted, rejected, mint_reduce_only_token, void_token,
  bind_runtime, unbind_runtime,
}
use fail_closed_agent.Exec.Broker.{submit_order}
use fail_closed_agent.Exec.Preflight.Inputs.{PreflightInputs, Outside}
use fail_closed_agent.Exec.Preflight.Ladder.{mint_open_token}

pub data Action : Type 0 where
  mint_open : PreflightInputs → Action
  mint_reduce : Option Position → OrderIntent → Action
  submit : OrderIntent → Token → Reading → Action
  void : Token → Action
  bind unbind : Action

-- `orders` is what the broker received, the last one first.
pub record World : Type 0 where
  pub registry : Registry
  pub orders : List OrderIntent

abbrev pub record_order :
    (OrderIntent → Bool) → OrderIntent → List OrderIntent → Bool × List OrderIntent
record_order returns intent orders = (returns intent, intent ∷ orders)

minted_registry : Minted → Registry → Registry
minted_registry (minted n r') r = r'
minted_registry (rejected d) r = r

bound_registry : Option Registry → Registry → Registry
bound_registry (some r') r = r'
bound_registry none r = r

module _ (outside : Outside) (returns : OrderIntent → Bool) where
  pub step : Action → World → World
  step (mint_open i) w = record w { registry = (mint_open_token outside i w.registry).1 }
  step (mint_reduce p intent) w = record w {
    registry = minted_registry (mint_reduce_only_token p intent w.registry) w.registry;
  }
  step (submit intent token reading) w =
      let (_, r, orders) =
        submit_order (record_order returns) intent token reading w.registry w.orders in
      record { registry = r; orders = orders }
  step (void token) w = record w { registry = void_token token w.registry }
  step bind w = record w { registry = bound_registry (bind_runtime w.registry) w.registry }
  step unbind w = record w { registry = unbind_runtime w.registry }

  pub run : List Action → World → World
  run [] w = w
  run (a ∷ rest) w = run rest (step a w)
