-- ===== src/Exec/Broker.antt =====
-- scripts/agent/broker/base.py: `require_token`, the check of an intent against the authorization of
-- its token, and `BrokerBase.submit_order`, which places only what passed it. Placing is a
-- parameter: `place intent broker` is the broker afterwards and whether it returned (or raised).
pub mod Chokepoint
use fail_closed_agent.Base.{
  ℕ, Bool, true, false, not, ◌||◌, ◌&&◌, Option, none, some, ◌==◌, if◌then◌else◌,
}
use fail_closed_agent.Base.Int.{ℤ, eqb_ℤ}
use fail_closed_agent.Exec.Order.{Side, eqb_side, OrderIntent}
use fail_closed_agent.Exec.Token.{
  Kind, open_kind, reduce_only_kind, Authorization, Token, Registry, Reading, TokenError, forgery,
  Result, ok, err, authorization_of, consume,
}

abbrev is_open : Kind → Bool
is_open open_kind = true
is_open reduce_only_kind = false

abbrev eqb_limit : Option ℤ → Option ℤ → Bool
eqb_limit none none = true
eqb_limit (some a) (some b) = eqb_ℤ a b
eqb_limit _ _ = false

-- the comparisons of both branches
abbrev same_order : Authorization → OrderIntent → Bool
same_order a intent =
    a.symbol == intent.symbol && eqb_side a.side intent.side && eqb_ℤ a.qty intent.qty

pub binds : Authorization → OrderIntent → Bool
binds a intent =
    if intent.is_reducing
    then not (is_open a.kind) && same_order a intent
    else is_open a.kind && (same_order a intent && eqb_limit a.limit_price intent.limit_price)

abbrev spend : Result Authorization × Registry → Option TokenError × Registry
spend (ok a, r) = (none, r)
spend (err e, r) = (some e, r)

pub require_found :
    Option Authorization → OrderIntent → Token → Reading → Registry → Option TokenError × Registry
require_found none intent token reading r = (some forgery, r)
require_found (some a) intent token reading r =
    if binds a intent then spend (consume token reading r) else (some forgery, r)

-- `none` says that the check passed and the token is spent
pub require_token : OrderIntent → Token → Reading → Registry → Option TokenError × Registry
unfolding require_found
require_token intent token reading r =
    require_found (authorization_of token r) intent token reading r

pub data Submitted : Type 0 where
  placed refused_by_broker : Submitted
  refused_token : TokenError → Submitted

module _ {ℓ} {B : Type ℓ} (place : OrderIntent → B → Bool × B) where
  submit_checked : Option TokenError → OrderIntent → Registry → B → Submitted × Registry × B
  submit_checked (some e) intent r b = (refused_token e, r, b)
  submit_checked none intent r b =
      let (returned, b') = place intent b in (if returned then placed else refused_by_broker, r, b')

  pub submit_order : OrderIntent → Token → Reading → Registry → B → Submitted × Registry × B
  unfolding submit_checked
  submit_order intent token reading r b =
      let (e, r') = require_token intent token reading r in submit_checked e intent r' b
