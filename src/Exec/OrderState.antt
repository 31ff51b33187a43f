-- ===== src/Exec/OrderState.antt =====
-- scripts/agent/broker/order_state.py: the parser of an order payload and the exact increment of the
-- fill between two snapshots. Quantities and prices count smallest units, a cost their product, so
-- the arithmetic of 28 digits is taken as exact. A slot is `none` where it is absent or None.
pub mod Fills
pub mod Exact
pub mod Parse
mod Tests
use fail_closed_agent.Base.{
  ℕ, Bool, true, false, Option, none, some, List, [], ◌∷◌, String, str_eq, if◌then◌else◌,
}
use fail_closed_agent.Base.Int.{ℤ, pos, ltb_ℤ, leb_ℤ, eqb_ℤ, ◌-ℤ◌, ◌*ℤ◌}
use fail_closed_agent.Base.Decimal.{Decimal, finite, infinite, nan}

pub data OrderStatus : Type 0 where
  accepted partially_filled filled canceled expired rejected done_for_day pending_cancel unknown :
      OrderStatus

-- ALPACA_STATUS_MAP, and "unknown" for every other text
pub map_status : String → OrderStatus
map_status s =
    if str_eq s "new"
    then accepted
    else if str_eq s "accepted"
    then accepted
    else if str_eq s "pending_new"
    then accepted
    else if str_eq s "partially_filled"
    then partially_filled
    else if str_eq s "filled"
    then filled
    else if str_eq s "canceled"
    then canceled
    else if str_eq s "pending_cancel"
    then pending_cancel
    else if str_eq s "expired"
    then expired
    else if str_eq s "rejected"
    then rejected
    else if str_eq s "done_for_day"
    then done_for_day
    else unknown

-- A raw value by its Python type.
pub data Raw : Type 0 where
  bool_value float_value other_value : Raw
  decimal_value : Decimal → Raw
  text_value : String → Raw

pub record Payload : Type 0 where
  pub id : Option Raw
  pub client_order_id : Option Raw
  pub status : Option Raw
  pub symbol : Option Raw
  pub side : Option Raw
  pub qty : Option Raw
  pub filled_qty : Option Raw
  pub filled_avg_price : Option Raw
  pub limit_price : Option Raw
  pub updated_at : Option Raw
  pub filled_at : Option Raw
  pub canceled_at : Option Raw

pub data Key : Type 0 where
  id client_order_id status symbol side qty filled_qty filled_avg_price limit_price : Key

pub data Defect : Type 0 where
  missing_field float_typed bool_typed non_finite unparseable invalid_type negative : Key → Defect
  nonpositive_avg_price avg_price_without_fill filled_qty_regression nonpositive_delta_cost : Defect

pub data Source : Type 0 where
  alpaca_paper fake : Source

pub record BrokerOrder : Type 0 where
  pub broker_order_id : String
  pub client_order_id : String
  pub symbol : String
  pub side : String
  pub state : OrderStatus
  pub raw_status : String
  pub qty : ℤ
  pub filled_qty : ℤ
  pub filled_avg_price : Option ℤ
  pub limit_price : Option ℤ
  pub ts_broker_utc : Option String
  pub source : Source

pub data Parsed {ℓ} (A : Type ℓ) : Type ℓ where
  good : A → Parsed A
  bad : Defect → Parsed A

infixl 5 ◌>>=◌
abbrev pub ◌>>=◌ {ℓ ℓ'} : {A : Type ℓ} {B : Type ℓ'} → Parsed A → (A → Parsed B) → Parsed B
good a >>= f = f a
bad d >>= f = bad d

abbrev identity_slot : Key → Option Raw → Parsed String
identity_slot k none = bad (missing_field k)
identity_slot k (some (text_value s)) = good s
identity_slot k (some _) = bad (invalid_type k)

abbrev required_slot : Key → Option Raw → Parsed Raw
required_slot k none = bad (missing_field k)
required_slot k (some r) = good r

abbrev finite_value : Key → Decimal → Parsed ℤ
finite_value k (finite x) = good x
finite_value k _ = bad (non_finite k)

-- the first of the stamps that is a text and not empty
stamp : List (Option Raw) → Option String
stamp [] = none
stamp (some (text_value s) ∷ rs) = let rest = stamp rs in if str_eq s "" then rest else some s
stamp (_ ∷ rs) = stamp rs

-- `to_decimal` is the parse of a text by `Decimal`; `none` is its InvalidOperation.
module _ (to_decimal : String → Option Decimal) where
  parsed_text : Key → Option Decimal → Parsed ℤ
  parsed_text k none = bad (unparseable k)
  parsed_text k (some d) = finite_value k d

  parse_money_value : Key → Raw → Parsed ℤ
  parse_money_value k bool_value = bad (bool_typed k)
  parse_money_value k float_value = bad (float_typed k)
  parse_money_value k other_value = bad (invalid_type k)
  parse_money_value k (decimal_value d) = finite_value k d
  parse_money_value k (text_value s) = parsed_text k (to_decimal s)

  nonnegative_slot : Key → Raw → Parsed ℤ
  nonnegative_slot k r = do
    x ← parse_money_value k r
    if ltb_ℤ x (pos 0) then bad (negative k) else good x

  avg_price_slot : Option Raw → Parsed (Option ℤ)
  avg_price_slot none = good none
  avg_price_slot (some r) = do
    x ← parse_money_value filled_avg_price r
    if leb_ℤ x (pos 0) then bad nonpositive_avg_price else good (some x)

  limit_slot : Option Raw → Parsed (Option ℤ)
  limit_slot none = good none
  limit_slot (some r) = do x ← parse_money_value limit_price r; good (some x)

  pub parse_order_payload : Source → Payload → Parsed BrokerOrder
  parse_order_payload source p = do
    order_id ← identity_slot id p.id
    client_id ← identity_slot client_order_id p.client_order_id
    raw_status ← identity_slot status p.status
    symbol_text ← identity_slot symbol p.symbol
    side_text ← identity_slot side p.side
    raw_qty ← required_slot qty p.qty
    raw_filled ← required_slot filled_qty p.filled_qty
    quantity ← nonnegative_slot qty raw_qty
    filled_quantity ← nonnegative_slot filled_qty raw_filled
    avg ← avg_price_slot p.filled_avg_price
    limit ← limit_slot p.limit_price
    good record {
      broker_order_id = order_id;
      client_order_id = client_id;
      symbol = symbol_text;
      side = side_text;
      state = map_status raw_status;
      raw_status = raw_status;
      qty = quantity;
      filled_qty = filled_quantity;
      filled_avg_price = avg;
      limit_price = limit;
      ts_broker_utc = stamp (p.updated_at ∷ p.filled_at ∷ p.canceled_at ∷ []);
      source = source;
    }

pub record FillDelta : Type 0 where
  pub delta_qty : ℤ
  pub delta_cost : ℤ
  pub cum_filled_qty : ℤ
  pub filled_avg_price_after : ℤ

pub data Increment : Type 0 where
  invalid : Defect → Increment
  unchanged : Increment
  filled_by : FillDelta → Increment

-- `_snapshot_defect` on the two slots; the cost `filled_qty * filled_avg_price` where there is none
snapshot_cost : ℤ → Option ℤ → Parsed ℤ
snapshot_cost q (some a) =
    if ltb_ℤ q (pos 0)
    then bad (negative filled_qty)
    else if eqb_ℤ q (pos 0)
    then bad avg_price_without_fill
    else if leb_ℤ a (pos 0)
    then bad nonpositive_avg_price
    else good (q *ℤ a)
snapshot_cost q none =
    if ltb_ℤ q (pos 0)
    then bad (negative filled_qty)
    else if ltb_ℤ (pos 0) q
    then bad (missing_field filled_avg_price)
    else good (pos 0)

pub cost : BrokerOrder → Parsed ℤ
cost o = snapshot_cost o.filled_qty o.filled_avg_price

pub prev_cost : Option BrokerOrder → Parsed ℤ
prev_cost none = good (pos 0)
prev_cost (some o) = cost o

pub prev_qty : Option BrokerOrder → ℤ
prev_qty none = pos 0
prev_qty (some o) = o.filled_qty

price_after : Option ℤ → ℤ
price_after none = pos 0
price_after (some a) = a

increment : ℤ → ℤ → ℤ → BrokerOrder → Increment
increment before paid total cur =
    if ltb_ℤ cur.filled_qty before
    then invalid filled_qty_regression
    else if eqb_ℤ cur.filled_qty before
    then unchanged
    else if leb_ℤ (total -ℤ paid) (pos 0)
    then invalid nonpositive_delta_cost
    else filled_by record {
      delta_qty = cur.filled_qty -ℤ before;
      delta_cost = total -ℤ paid;
      cum_filled_qty = cur.filled_qty;
      filled_avg_price_after = price_after cur.filled_avg_price;
    }

costed : Parsed ℤ → Parsed ℤ → ℤ → BrokerOrder → Increment
costed (bad d) total before cur = invalid d
costed (good paid) (bad d) before cur = invalid d
costed (good paid) (good total) before cur = increment before paid total cur

pub fill_delta : Option BrokerOrder → BrokerOrder → Increment
fill_delta prev cur = costed (prev_cost prev) (cost cur) (prev_qty prev) cur

-- scripts/agent/orchestrator.py: the watcher's cursor is the snapshot of the last increment
next_cursor : Option BrokerOrder → BrokerOrder → Increment → Option BrokerOrder
next_cursor prev cur (filled_by d) = some cur
next_cursor prev cur _ = prev

abbrev emitted : Increment → List FillDelta → List FillDelta
emitted (filled_by d) ds = d ∷ ds
emitted _ ds = ds

-- the polls of one order: the increments emitted and the cursor at the end
pub poll : Option BrokerOrder → List BrokerOrder → List FillDelta × Option BrokerOrder
poll prev [] = ([], prev)
poll prev (cur ∷ rest) =
    let (ds, end) = poll (next_cursor prev cur (fill_delta prev cur)) rest in
    (emitted (fill_delta prev cur) ds, end)
