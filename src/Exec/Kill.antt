-- ===== src/Exec/Kill.antt =====
-- scripts/agent/kill_switch.py: flatten every held position by a reduce-only order, then halt. An
-- exception isolates one position: it is recorded with its cause and the loop goes on.
pub mod Flatten
mod Tests
use fail_closed_agent.Base.{
  ℕ, Bool, true, false, not, Option, none, some, List, [], ◌∷◌, ◌++◌, if◌then◌else◌,
}
use fail_closed_agent.Base.Int.{ℤ, pos, ltb_ℤ, eqb_ℤ, abs}
use fail_closed_agent.Exec.Order.{Side, buy, sell, IntentId, OrderIntent, accepts}
use fail_closed_agent.Exec.Token.{
  Registry, Reading, TokenError, reduce_only_token, Position, Rejected, Minted, minted, rejected,
  mint_reduce_only_token,
}
use fail_closed_agent.Exec.Broker.{
  Submitted, placed, refused_by_broker, refused_token, submit_order,
}

pub data SwitchState : Type 0 where
  active flattening halted : SwitchState

pub data Failure : Type 0 where
  invalid_intent broker_raised : Failure
  not_minted : Rejected → Failure
  not_accepted : TokenError → Failure

pub record KillSwitch : Type 0 where
  pub state : SwitchState
  pub flattened : List ℕ
  pub failed : List (ℕ × Failure)

unfoldable pub new : KillSwitch
new = record { state = active; flattened = []; failed = [] }

-- the closing order: long sells, short buys to cover, the whole size
pub flatten_intent : Position → OrderIntent
flatten_intent p = record {
  symbol = p.symbol;
  side = if ltb_ℤ (pos 0) p.qty then sell else buy;
  qty = abs p.qty;
  limit_price = none;
  is_reducing = true;
  intent_id = IntentId.flatten p.symbol;
}

abbrev pub alarm : ℕ → Failure → KillSwitch → KillSwitch
alarm symbol f k = record k { failed = k.failed ++ (symbol, f) ∷ [] }

abbrev pub note : Submitted → ℕ → KillSwitch → KillSwitch
note placed symbol k = record k { flattened = k.flattened ++ symbol ∷ [] }
note refused_by_broker symbol k = alarm symbol broker_raised k
note (refused_token e) symbol k = alarm symbol (not_accepted e) k

module _ {ℓ} {B : Type ℓ} (place : OrderIntent → B → Bool × B) (reading : Reading) where
  submit_minted : Minted → Position → KillSwitch → Registry → B → KillSwitch × Registry × B
  submit_minted (rejected d) p k r b = (alarm p.symbol (not_minted d) k, r, b)
  submit_minted (minted n r') p k r b =
      let (outcome, r'', b') =
        submit_order place (flatten_intent p) (reduce_only_token n) reading r' b in
      (note outcome p.symbol k, r'', b')

  -- the body of the loop
  flatten_one : Position → KillSwitch → Registry → B → KillSwitch × Registry × B
  flatten_one p k r b =
      if eqb_ℤ p.qty (pos 0)
      then (k, r, b)
      else if not (accepts (flatten_intent p))
      then (alarm p.symbol invalid_intent k, r, b)
      else submit_minted (mint_reduce_only_token (some p) (flatten_intent p) r) p k r b

  flatten_loop : List Position → KillSwitch → Registry → B → KillSwitch × Registry × B
  flatten_loop [] k r b = (k, r, b)
  flatten_loop (p ∷ ps) k r b = let (k', r', b') = flatten_one p k r b in flatten_loop ps k' r' b'

  pub trigger : List Position → KillSwitch → Registry → B → KillSwitch × Registry × B
  trigger positions k r b =
      let (k', r', b') =
        flatten_loop positions (record k { state = flattening; failed = [] }) r b in
      (record k' { state = halted }, r', b')

abbrev pub is_halted : KillSwitch → Bool
is_halted k = elim k.state [ halted ↦ true | _ ↦ false ]
