-- ===== src/Exec/OrderState/Parse.antt =====
-- scripts/agent/broker/order_state.py, parse_order_payload: what a parsed order is like.
use fail_closed_agent.Base.{
  if_true, if_false, ◌≡◌, refl, sym, subst, ◌∙◌, false, Option, none, some, String, arith,
  Bool-cases, if◌then◌else◌, ◌≢◌, inl, inr,
}
use fail_closed_agent.Base.Int.{ℤ, pos, ◌≤ℤ◌, ◌<ℤ◌, ltb_ℤ, leb_ℤ}
use fail_closed_agent.Base.Decimal.{Decimal}
use fail_closed_agent.Exec.OrderState.{
  map_status, Raw, Payload, identity_slot, required_slot, limit_slot, id, client_order_id, status,
  symbol, side, Key, qty, filled_qty, Defect, filled_avg_price, Source, BrokerOrder, Parsed, good,
  bad, ◌>>=◌, parse_money_value, nonnegative_slot, avg_price_slot, parse_order_payload,
}

good-eq {ℓ} : {A : Type ℓ} (a b : A) → good a ≡ good b → a ≡ b
good-eq a b h = cc

>>=-good {ℓ ℓ'} :
    {A : Type ℓ} {B : Type ℓ'} (m : Parsed A) (f : A → Parsed B) {b : B}
    → (m >>= f) ≡ good b
    → (a : A) × (m ≡ good a) × (f a ≡ good b)
>>=-good (good a) f h = (a, refl, h)
>>=-good (bad d) f h = absurd (cc h)

-- an average price, if there is one, is positive
pub PositivePrice : Option ℤ → Type 0
PositivePrice none = Unit
PositivePrice (some a) = pos 0 <ℤ a

pub IsOrderly : BrokerOrder → Type 0
IsOrderly o =
    (pos 0 ≤ℤ o.qty)
    × (pos 0 ≤ℤ o.filled_qty)
    × PositivePrice o.filled_avg_price
    × (o.state ≡ map_status o.raw_status)

bad-good {ℓ} : {A : Type ℓ} (d : Defect) (a : A) → bad d ≢ good a
bad-good d a h = cc h

not_below : (x : ℤ) → ltb_ℤ x (pos 0) ≡ false → pos 0 ≤ℤ x
not_below x h = ground arith

not_least : (x : ℤ) → leb_ℤ x (pos 0) ≡ false → pos 0 <ℤ x
not_least x h = ground arith

guarded :
    (k : Key) (x y : ℤ)
    → (if ltb_ℤ x (pos 0) then bad (Defect.negative k) else good x) ≡ good y
    → pos 0 ≤ℤ y
guarded k x y h = elim (Bool-cases (ltb_ℤ x (pos 0))) [
  | inl e ↦ absurd (bad-good (Defect.negative k) y (sym (if_true _ _ e) ∙ h))
  | inr e ↦ subst (λ z. pos 0 ≤ℤ z) (good-eq x y (sym (if_false _ _ e) ∙ h)) (not_below x e)
]

guarded_price :
    (x : ℤ) (o : Option ℤ)
    → (if leb_ℤ x (pos 0) then bad Defect.nonpositive_avg_price else good (some x)) ≡ good o
    → PositivePrice o
unfolding PositivePrice
guarded_price x o h = elim (Bool-cases (leb_ℤ x (pos 0))) [
  | inl e ↦ absurd (bad-good Defect.nonpositive_avg_price o (sym (if_true _ _ e) ∙ h))
  | inr e ↦ subst PositivePrice (good-eq (some x) o (sym (if_false _ _ e) ∙ h)) (not_least x e)
]

module _ (to_decimal : String → Option Decimal) where
  nonnegative : (k : Key) (r : Raw) (y : ℤ) → nonnegative_slot to_decimal k r ≡ good y → pos 0 ≤ℤ y
  unfolding nonnegative_slot
  nonnegative k r y h =
      let (x, _, e) = >>=-good (parse_money_value to_decimal k r) _ h in guarded k x y e

  positive_price :
      (r : Option Raw) (o : Option ℤ) → avg_price_slot to_decimal r ≡ good o → PositivePrice o
  unfolding avg_price_slot PositivePrice
  positive_price none o h = subst PositivePrice (good-eq none o h) tt
  positive_price (some r) o h =
      let (x, _, e) = >>=-good (parse_money_value to_decimal filled_avg_price r) _ h in
      guarded_price x o e

  -- An order that the parser lets through has a quantity and a filled quantity that are not negative,
  -- an average price that is positive where there is one, and the state that the map has for its
  -- raw status; whatever the types and texts of the payload are.
  pub parse_order_payload-IsOrderly :
      (source : Source) (p : Payload) (o : BrokerOrder)
      → parse_order_payload to_decimal source p ≡ good o
      → IsOrderly o
  unfolding parse_order_payload IsOrderly
  parse_order_payload-IsOrderly source p o h =
      let (_, _, h1) = >>=-good (identity_slot id p.id) _ h in
      let (_, _, h2) = >>=-good (identity_slot client_order_id p.client_order_id) _ h1 in
      let (_, _, h3) = >>=-good (identity_slot status p.status) _ h2 in
      let (_, _, h4) = >>=-good (identity_slot symbol p.symbol) _ h3 in
      let (_, _, h5) = >>=-good (identity_slot side p.side) _ h4 in
      let (raw_qty, _, h6) = >>=-good (required_slot qty p.qty) _ h5 in
      let (raw_filled, _, h7) = >>=-good (required_slot filled_qty p.filled_qty) _ h6 in
      let (q, eq, h8) = >>=-good (nonnegative_slot to_decimal qty raw_qty) _ h7 in
      let (f, ef, h9) = >>=-good (nonnegative_slot to_decimal filled_qty raw_filled) _ h8 in
      let (a, ea, h10) = >>=-good (avg_price_slot to_decimal p.filled_avg_price) _ h9 in
      let (_, _, h11) = >>=-good (limit_slot to_decimal p.limit_price) _ h10 in
      let e = good-eq _ o h11 in
      subst IsOrderly e (
        nonnegative qty raw_qty q eq,
        nonnegative filled_qty raw_filled f ef,
        positive_price p.filled_avg_price a ea,
        refl,
      )
