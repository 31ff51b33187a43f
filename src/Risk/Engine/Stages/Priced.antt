-- ===== src/Risk/Engine/Stages/Priced.antt =====
-- scripts/agent/risk/can_open.py, the walk that prices the opening legs: what it counts when it ends.
use fail_closed_agent.Base.{
  ◌≡◌, refl, sym, ap, subst, List, [], ◌∷◌, All, ℕ, is_empty, Bool-cases, inl, inr, if_true,
  if_false, ◌∙◌, some,
}
use fail_closed_agent.Base.Int.{ℤ, pos, ◌≤ℤ◌, ◌*ℤ◌, ◌+ℤ◌}
use fail_closed_agent.Base.Dict.{Dict, lookup}
use fail_closed_agent.Exec.Preflight.Inputs.{Leg}
use fail_closed_agent.Risk.Exposure.{
  PortfolioRead, Mark, PricedLeg, Notional, priced, unpriceable, mark_mismatch, qty_for,
  leg_cap_notional,
}
use fail_closed_agent.Risk.Exposure.Notionals.{IsCounted, leg-IsCounted}
use fail_closed_agent.Risk.Engine.Stages.{
  Checked, fine, raised, Classification, opening_long, classify, classify_all, opening_legs,
  PricedLegs, price_each, price_legs, mark_keys_agree, with_leg, leg_notional,
}
use fail_closed_agent.Risk.Engine.Stages.Clean.{Opens}
use fail_closed_agent.Risk.Engine.Stages.Permits.{fine-eq, raised-ne}

pub total_of : List PricedLeg → ℤ
total_of [] = pos 0
total_of ((leg, n) ∷ rest) = n +ℤ total_of rest

-- The legs that are capped are those of the candidate, each at its limit or more.
pub Counts : List Leg → List PricedLeg → Type 0
Counts [] [] = Unit
Counts (leg ∷ legs) ((counted, n) ∷ rest) =
    (counted ≡ leg)
    × ((limit : ℤ) × (price : ℤ) × (leg.limit_price ≡ some limit)
        × (limit ≤ℤ price)
        × (n ≡ leg.qty *ℤ price))
    × Counts legs rest
Counts _ _ = ⊥

abbrev pub OpensLong : PortfolioRead → Leg → Type 0
OpensLong p leg = Opens p leg × (classify leg (qty_for p leg.symbol) ≡ opening_long)

IsPriced : List Leg → PricedLegs → Type 0
IsPriced legs r = Counts legs r.priced_legs × (r.gross_notional ≡ total_of r.priced_legs)

with_leg-IsPriced :
    (leg : Leg) (c : Classification) (n : Notional) (below : Checked PricedLegs) (legs : List Leg)
    (r : PricedLegs)
    → IsCounted leg n
    → ((q : PricedLegs) → below ≡ fine q → IsPriced legs q)
    → with_leg leg c n below ≡ fine r
    → IsPriced (leg ∷ legs) r
unfolding IsPriced IsCounted Counts with_leg total_of
with_leg-IsPriced leg c mark_mismatch below legs r counted ih h = absurd (cc h)
with_leg-IsPriced leg c unpriceable below legs r counted ih h = absurd counted
with_leg-IsPriced leg c (priced n used) (raised e) legs r counted ih h = absurd (cc h)
with_leg-IsPriced leg c (priced n used) (fine q) legs r counted ih h =
    let (counts, total) = ih q refl in
    subst (λ x. IsPriced (leg ∷ legs) x) (fine-eq _ _ h)
      ((refl, counted, counts), ap (λ t. n +ℤ t) total)

price_each-IsPriced :
    (p : PortfolioRead) (legs : List Leg) (marks : Dict Mark) (now : ℕ) (r : PricedLegs)
    → All (OpensLong p) legs
    → price_each legs (classify_all p legs) marks now ≡ fine r
    → IsPriced legs r
unfolding price_each classify_all All Opens leg_notional IsPriced Counts total_of
price_each-IsPriced p [] marks now r long h = subst (λ x. IsPriced [] x) (fine-eq _ _ h) (tt, refl)
price_each-IsPriced p (leg ∷ rest) marks now r ((opens, c), below) h =
    with_leg-IsPriced leg opening_long (leg_cap_notional leg (lookup leg.symbol marks) now)
      (price_each rest (classify_all p rest) marks now) rest r
      (leg-IsCounted leg (lookup leg.symbol marks) now opens.2)
      (λ q e. price_each-IsPriced p rest marks now q below e)
      (subst
        (λ x.
          with_leg leg x (leg_notional leg x marks now)
            (price_each rest (classify_all p rest) marks now)
          ≡ fine r)
        c h)

-- Every leg that opens long is counted, and the gross notional is their sum.
pub price_legs-IsPriced :
    (p : PortfolioRead) (legs : List Leg) (marks : Dict Mark) (now : ℕ) (r : PricedLegs)
    → All (OpensLong p) legs
    → price_legs legs (classify_all p legs) marks now ≡ fine r
    → Counts legs r.priced_legs × (r.gross_notional ≡ total_of r.priced_legs)
unfolding price_legs IsPriced
price_legs-IsPriced p legs marks now r long h = elim (Bool-cases (mark_keys_agree marks)) [
  | inl e ↦ price_each-IsPriced p legs marks now r long (sym (if_true _ _ e) ∙ h)
  | inr e ↦ absurd (raised-ne (sym (if_false _ _ e) ∙ h))
]

pub opening-All :
    (p : PortfolioRead) (legs : List Leg)
    → All (OpensLong p) legs
    → opening_legs legs (classify_all p legs) ≡ legs
unfolding opening_legs classify_all All
opening-All p [] long = refl
opening-All p (leg ∷ rest) ((opens, c), below) = rw (c, opening-All p rest below) refl

pub Counts-is_empty :
    (legs : List Leg) (added : List PricedLeg) → Counts legs added → is_empty added ≡ is_empty legs
unfolding Counts
Counts-is_empty [] [] c = refl
Counts-is_empty (leg ∷ legs) (a ∷ added) c = refl
Counts-is_empty [] (a ∷ added) c = absurd c
Counts-is_empty (leg ∷ legs) [] c = absurd c
