-- ===== src/Exec/Broker/Chokepoint.antt =====
-- What passes the broker's chokepoint: `require_token` of broker/base.py.
use fail_closed_agent.Base.{
  ℕ, ◌≡◌, ◌↔◌, ◌⊎◌, inl, refl, sym, subst, ◌∙◌, Bool, true, false, Option, none, some, arith,
  Bool-cases, inr, of_some-eq, if◌then◌else◌,
}
use fail_closed_agent.Exec.Order.{OrderIntent}
use fail_closed_agent.Exec.Token.{
  open_kind, reduce_only_kind, Authorization, Token, reduce_only_token, Registry, Reading, Result,
  ok, err, TokenError, authorization_of, consume, revoke, Position, minted, mint_reduce_only_token,
  reduce_authorization,
}
use fail_closed_agent.Exec.Token.Consume.{IsLive, consume_iff, consume-registry}
use fail_closed_agent.Exec.Token.Reduce.{mint_reduce_grants}
use fail_closed_agent.Exec.Broker.{
  binds, require_found, require_token, spend, submit_order, submit_checked, placed,
  refused_by_broker, refused_token,
}

-- An authorization that is for this very order.
abbrev pub Binds : Authorization → OrderIntent → Type 0
Binds a intent =
    (a.symbol ≡ intent.symbol)
    × (a.side ≡ intent.side)
    × (a.qty ≡ intent.qty)
    × ((intent.is_reducing ≡ true) × (a.kind ≡ reduce_only_kind)
        ⊎ (intent.is_reducing ≡ false)
          × (a.kind ≡ open_kind)
          × (a.limit_price ≡ intent.limit_price))

binds_iff : (a : Authorization) (intent : OrderIntent) → (binds a intent ≡ true) ↔ Binds a intent
unfolding binds
binds_iff a intent = (λ h. ground arith, λ h. ground arith)

spend-none :
    (x : Result Authorization × Registry) → (spend x).0 ≡ none → (a : Authorization) × (x.0 ≡ ok a)
spend-none (ok a, r) h = (a, refl)
spend-none (err e, r) h = absurd (cc h)

spend_ok :
    (x : Result Authorization × Registry) (a : Authorization) → x.0 ≡ ok a → (spend x).0 ≡ none
spend_ok (ok b, r) a h = refl
spend_ok (err e, r) a h = absurd (cc h)

require_found_parts :
    (o : Option Authorization) (intent : OrderIntent) (t : Token) (reading : Reading) (r : Registry)
    → (require_found o intent t reading r).0 ≡ none
    → (a : Authorization) × (o ≡ some a)
      × (binds a intent ≡ true)
      × ((spend (consume t reading r)).0 ≡ none)
unfolding require_found
require_found_parts none intent t reading r h = absurd (cc h)
require_found_parts (some a) intent t reading r h = (a, refl, ground arith, ground arith)

-- The chokepoint lets an order through exactly if its token holds an authorization for this very
-- order (symbol, side, quantity and, for an opening order, limit price) that is reduce-only or
-- still live.
pub require_token_iff :
    (intent : OrderIntent) (t : Token) (reading : Reading) (r : Registry)
    → ((require_token intent t reading r).0 ≡ none) ↔ (
        (a : Authorization) × (authorization_of t r ≡ some a)
        × Binds a intent
        × ((a.kind ≡ reduce_only_kind) ⊎ IsLive a r.runtime_bound reading))
unfolding require_token
require_token_iff intent t reading r = (
  λ h.
      let (a, found, bound, spent) =
        require_found_parts (authorization_of t r) intent t reading r h in
      let (c, result) = spend-none (consume t reading r) spent in
      let (found', live) = (consume_iff t reading r c).0 result in
      let same : c ≡ a = of_some-eq c a (sym found' ∙ found) in
      (
        a,
        found,
        (binds_iff a intent).0 bound,
        subst (λ x. (x.kind ≡ reduce_only_kind) ⊎ IsLive x r.runtime_bound reading) same live,
      ),
  λ (a, found, bound, live).
      rw (found, require_found)
        (rw ((binds_iff a intent).1 bound)
          (spend_ok (consume t reading r) a ((consume_iff t reading r a).1 (found, live)))),
)

spend-registry : (x : Result Authorization × Registry) → (spend x).1 ≡ x.1
spend-registry (ok a, r) = refl
spend-registry (err e, r) = refl

require_found-registry :
    (o : Option Authorization) (intent : OrderIntent) (t : Token) (reading : Reading) (r : Registry)
    → ((require_found o intent t reading r).1 ≡ r)
      ⊎ ((require_found o intent t reading r).1 ≡ revoke t r)
unfolding require_found
require_found-registry none intent t reading r = inl refl
require_found-registry (some a) intent t reading r = elim (Bool-cases (binds a intent)) [
  | inl e ↦ rw e (rw (spend-registry (consume t reading r)) (consume-registry t reading r))
  | inr e ↦ rw e (inl refl)
]

pub require_token-registry :
    (intent : OrderIntent) (t : Token) (reading : Reading) (r : Registry)
    → ((require_token intent t reading r).1 ≡ r)
      ⊎ ((require_token intent t reading r).1 ≡ revoke t r)
unfolding require_token
require_token-registry intent t reading r =
    require_found-registry (authorization_of t r) intent t reading r

-- A reduction is never blocked: an order for which a reduce-only token was minted passes the
-- chokepoint with it at once, whatever the clock, the kill generation and the runtime are.
pub reduce_never_blocked :
    (p : Position) (intent : OrderIntent) (reading : Reading) {n : ℕ} (r : Registry) {r' : Registry}
    → mint_reduce_only_token (some p) intent r ≡ minted n r'
    → (require_token intent (reduce_only_token n) reading r').0 ≡ none
reduce_never_blocked p intent reading {n = n} r {r' = r'} h =
    let (_, found, flagged, symbol, side) = mint_reduce_grants p intent r h in
    (require_token_iff intent (reduce_only_token n) reading r').1 (
      reduce_authorization p intent,
      found,
      (sym symbol, side, refl, inl (flagged, refl)),
      inl refl,
    )

module _ {ℓ} {B : Type ℓ} (place : OrderIntent → B → Bool × B) where
  pub submit_order-passed :
      (intent : OrderIntent) (t : Token) (reading : Reading) (r : Registry) (b : B)
      → (require_token intent t reading r).0 ≡ none
      → ((submit_order place intent t reading r b).0
          ≡ (if (place intent b).0 then placed else refused_by_broker))
        × ((submit_order place intent t reading r b).2 ≡ (place intent b).1)
  unfolding submit_order submit_checked
  submit_order-passed intent t reading r b e =
      (rw (e, submit_checked) refl, rw (e, submit_checked) refl)

  pub submit_order-refused :
      (intent : OrderIntent) (t : Token) (reading : Reading) (r : Registry) (b : B) {e : TokenError}
      → (require_token intent t reading r).0 ≡ some e
      → ((submit_order place intent t reading r b).0 ≡ refused_token e)
        × ((submit_order place intent t reading r b).2 ≡ b)
  unfolding submit_order submit_checked
  submit_order-refused intent t reading r b e =
      (rw (e, submit_checked) refl, rw (e, submit_checked) refl)

  submit_checked-registry :
      (e : Option TokenError) (intent : OrderIntent) (r : Registry) (b : B)
      → (submit_checked place e intent r b).1 ≡ r
  unfolding submit_checked
  submit_checked-registry none intent r b = refl
  submit_checked-registry (some e) intent r b = refl

  pub submit_order-registry :
      (intent : OrderIntent) (t : Token) (reading : Reading) (r : Registry) (b : B)
      → (submit_order place intent t reading r b).1 ≡ (require_token intent t reading r).1
  unfolding submit_order
  submit_order-registry intent t reading r b =
      submit_checked-registry (require_token intent t reading r).0 intent
        (require_token intent t reading r).1 b
