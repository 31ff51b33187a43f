-- ===== src/Exec/Order.antt =====
-- scripts/agent/broker/base.py, OrderIntent: what is sent to a broker. Quantities count the smallest
-- share unit, prices the smallest price unit; the constant order type and time in force are left out.
use fail_closed_agent.Base.{ℕ, Bool, true, false, Option}
use fail_closed_agent.Base.Int.{ℤ, pos, ltb_ℤ}

pub data Side : Type 0 where
  buy sell : Side

abbrev pub eqb_side : Side → Side → Bool
eqb_side buy buy = true
eqb_side sell sell = true
eqb_side _ _ = false

-- Order identifiers by their namespace: `flatten-<symbol>`, `synthetic-…` and any other.
pub data IntentId : Type 0 where
  flatten synthetic named : ℕ → IntentId

pub record OrderIntent : Type 0 where
  pub symbol : ℕ
  pub side : Side
  pub qty : ℤ
  pub limit_price : Option ℤ
  pub is_reducing : Bool
  pub intent_id : IntentId

-- `__post_init__` accepts it (finiteness holds by type)
abbrev pub accepts : OrderIntent → Bool
accepts intent = ltb_ℤ (pos 0) intent.qty
