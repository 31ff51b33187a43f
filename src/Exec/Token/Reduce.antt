-- ===== src/Exec/Token/Reduce.antt =====
-- Minting a reduce-only token: `mint_reduce_only_token` of execution_preflight.py.
use fail_closed_agent.Base.{ℕ, ◌≡◌, ◌↔◌, ◌⊎◌, inl, inr, refl, true, none, some, arith, Option-cases}
use fail_closed_agent.Base.Int.{ℤ, pos, ◌+ℤ◌, ◌-ℤ◌, ◌≤ℤ◌, ◌<ℤ◌}
use fail_closed_agent.Base.Dict.{lookup-insert}
use fail_closed_agent.Exec.Order.{Side, buy, sell, OrderIntent, accepts}
use fail_closed_agent.Exec.Token.{
  Registry, Position, minted, reduce_defect, mint_reduce_held, mint_reduce_only_token, issue,
  reduce_authorization, authorization_of, reduce_only_token, required_side,
}

-- The position after an order is filled whole.
abbrev pub filled : ℤ → Side → ℤ → ℤ
filled held buy qty = held +ℤ qty
filled held sell qty = held -ℤ qty

-- Nearer to flat, and not through it.
abbrev pub Decreases : ℤ → ℤ → Type 0
Decreases held after = (pos 0 ≤ℤ after) × (after <ℤ held) ⊎ (held <ℤ after) × (after ≤ℤ pos 0)

reduce_defect-none :
    (p : Position) (intent : OrderIntent)
    → accepts intent ≡ true
    → (reduce_defect p intent ≡ none) ↔ (
        (intent.is_reducing ≡ true)
        × (intent.symbol ≡ p.symbol)
        × Decreases p.qty (filled p.qty intent.side intent.qty))
unfolding reduce_defect ◌+ℤ◌ ◌-ℤ◌
reduce_defect-none p intent ok_qty = (λ h. ground arith, λ h. ground arith)

-- The authorization of a mint is for a reduction.
pub reduce_defect-Decreases :
    (p : Position) (intent : OrderIntent)
    → reduce_defect p intent ≡ none
    → Decreases p.qty
        (filled p.qty (reduce_authorization p intent).side (reduce_authorization p intent).qty)
unfolding reduce_defect ◌+ℤ◌ ◌-ℤ◌
reduce_defect-Decreases p intent h = ground arith

-- For an order that `OrderIntent` accepts, a reduce-only token is minted exactly if the order is
-- flagged reducing, is for the symbol held, and would bring the position nearer to flat without
-- flipping it.
pub mint_reduce_iff :
    (p : Position) (intent : OrderIntent) (r : Registry)
    → accepts intent ≡ true
    → ((n : ℕ) × (r' : Registry) × (mint_reduce_only_token (some p) intent r ≡ minted n r')) ↔ (
        (intent.is_reducing ≡ true)
        × (intent.symbol ≡ p.symbol)
        × Decreases p.qty (filled p.qty intent.side intent.qty))
unfolding mint_reduce_only_token
mint_reduce_iff p intent r ok_qty = elim (Option-cases (reduce_defect p intent)) [
  | inl fine ↦ (
    λ h. (reduce_defect-none p intent ok_qty).0 fine,
    λ h. (
      (issue (reduce_authorization p intent) r).0,
      (issue (reduce_authorization p intent) r).1,
      rw (fine, mint_reduce_held) refl,
    ),
  )
  | inr (d, e) ↦ (
    λ h. absurd (ground arith),
    λ h. absurd (ground (arith, (reduce_defect-none p intent ok_qty).1 h)),
  )
]

-- What a minted token stands for: an authorization of this order, at the next nonce.
pub mint_reduce_grants :
    (p : Position) (intent : OrderIntent) {n : ℕ} (r : Registry) {r' : Registry}
    → mint_reduce_only_token (some p) intent r ≡ minted n r'
    → (r' ≡ (issue (reduce_authorization p intent) r).1)
      × (authorization_of (reduce_only_token n) r' ≡ some (reduce_authorization p intent))
      × (intent.is_reducing ≡ true)
      × (intent.symbol ≡ p.symbol)
      × (required_side p.qty ≡ intent.side)
unfolding mint_reduce_only_token reduce_defect issue authorization_of
mint_reduce_grants p intent r h = ground (
  arith,
  lookup-insert r.next_nonce r.next_nonce (reduce_authorization p intent) r.authorizations,
)
