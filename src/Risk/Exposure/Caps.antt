-- ===== src/Risk/Exposure/Caps.antt =====
-- scripts/agent/risk/exposure.py, project_caps: when no cap is violated.
use fail_closed_agent.Base.{
  ℕ, ◌≡◌, ◌↔◌, refl, sym, subst, inl, inr, Bool, true, false, not, ◌||◌, some, List, [], arith,
  when, any, All, any-All, All-any, All-map, append-eq-nil, or_false, Option-cases, ◌==◌,
}
use fail_closed_agent.Base.Int.{ℤ, ◌≤ℤ◌, ltb_ℤ, abs, ◌+ℤ◌, ◌*ℤ◌}
use fail_closed_agent.Base.Dict.{lookup}
use fail_closed_agent.Exec.Preflight.Inputs.{Leg}
use fail_closed_agent.Risk.Reasons.{
  RiskReason, position_cap_exceeded, gross_exposure_cap_exceeded, net_exposure_cap_exceeded,
  sector_cap_exceeded, beta_cap_exceeded,
}
use fail_closed_agent.Risk.Exposure.{
  PortfolioRead, SymbolRisk, RiskConfig, PricedLeg, sector_for, in_universe, held_outside,
  position_used, sector_used, beta_used, net_used, gross_used, sector_reasons, beta_reasons,
  is_poisoned, project_caps,
}
use fail_closed_agent.Risk.Exposure.Sums.{
  total, total_where, held_value, signed_notional, listed_sector, listed_beta, position_used-sums,
  sector_used-sums, gross_used-sums, net_used-sums, beta_used-sums,
}

pub not_above : (a b : ℤ) → (ltb_ℤ a b ≡ false) ↔ (b ≤ℤ a)
not_above a b = (λ h. ground arith, λ h. ground arith)

pub when-nil : (b : Bool) (r : RiskReason) → (when b r ≡ []) ↔ (b ≡ false)
when-nil true r = (λ h. absurd (cc h), λ h. absurd (cc h))
when-nil false r = (λ h. refl, λ h. refl)

-- The symbol is in the universe.
pub IsListed : RiskConfig → ℕ → Type 0
IsListed cfg symbol = (r : SymbolRisk) × (lookup symbol cfg.universe ≡ some r)

-- After the trade, no symbol, sector or beta of the portfolio, nor its gross or net exposure, is past
-- its cap; and every symbol that is held or opened is in the universe.
pub Respects : RiskConfig → PortfolioRead → List PricedLeg → List Leg → Type 0
Respects cfg p added opening =
    All
      (λ l.
        held_value l.0.symbol p.positions
          +ℤ total_where (λ k. k.0.symbol == l.0.symbol) (λ k. abs k.1) added
        ≤ℤ cfg.max_position_usd)
      added
    × (total (λ q. abs q.market_value) p.positions +ℤ total (λ k. abs k.1) added
        ≤ℤ cfg.max_gross_exposure_usd)
    × (abs (
          total (λ q. q.market_value) p.positions
          +ℤ total (λ k. signed_notional k.0.side k.1) added)
        ≤ℤ cfg.max_net_exposure_usd)
    × All (λ leg. IsListed cfg leg.symbol) opening
    × All (λ q. IsListed cfg q.symbol) p.positions
    × All
        (λ l.
          total_where
              (λ q.
                listed_sector (lookup q.symbol cfg.universe)
                == listed_sector (lookup l.0.symbol cfg.universe))
              (λ q. abs q.market_value) p.positions
            +ℤ total_where
                (λ k.
                  listed_sector (lookup k.0.symbol cfg.universe)
                  == listed_sector (lookup l.0.symbol cfg.universe))
                (λ k. abs k.1) added
          ≤ℤ cfg.max_sector_exposure_usd)
        added
    × (abs (
          total (λ q. q.market_value *ℤ listed_beta (lookup q.symbol cfg.universe)) p.positions
          +ℤ total
              (λ k. signed_notional k.0.side k.1 *ℤ listed_beta (lookup k.0.symbol cfg.universe))
              added)
        ≤ℤ cfg.max_abs_beta_notional_usd *ℤ cfg.beta_unit)

in_universe_iff :
    (cfg : RiskConfig) (symbol : ℕ) → (not (in_universe cfg symbol) ≡ false) ↔ IsListed cfg symbol
unfolding in_universe IsListed
in_universe_iff cfg symbol = elim (Option-cases (lookup symbol cfg.universe)) [
  | inl e ↦ rw e (λ h. absurd (cc h), λ (r, h). absurd (cc h))
  | inr (r, e) ↦ rw e (λ h. (r, refl), λ h. refl)
]

none_above :
    (added : List PricedLeg) (cap : ℤ) (used : PricedLeg → ℤ)
    → (any added (λ l. ltb_ℤ cap (used l)) ≡ false) ↔ All (λ l. used l ≤ℤ cap) added
none_above added cap used = (
  λ h.
      All-map (λ l e. (not_above cap (used l)).0 e) added
        (any-All added (λ l. ltb_ℤ cap (used l)) h),
  λ h.
      All-any added (λ l. ltb_ℤ cap (used l))
        (All-map (λ l e. (not_above cap (used l)).1 e) added h),
)

sector_reasons_iff :
    (cfg : RiskConfig) (p : PortfolioRead) (added : List PricedLeg) (poisoned : Bool)
    → (sector_reasons cfg p added poisoned ≡ []) ↔ (
        (poisoned ≡ false)
        × All
            (λ l.
              sector_used cfg p added (sector_for cfg l.0.symbol) ≤ℤ cfg.max_sector_exposure_usd)
            added)
unfolding sector_reasons
sector_reasons_iff cfg p added true = (λ h. absurd (cc h), λ (h, _). absurd (cc h))
sector_reasons_iff cfg p added false =
    let (f, g) =
      none_above added cfg.max_sector_exposure_usd
        (λ l. sector_used cfg p added (sector_for cfg l.0.symbol)) in
    let (a, b) =
      when-nil
        (any added (λ l.
          ltb_ℤ cfg.max_sector_exposure_usd (sector_used cfg p added (sector_for cfg l.0.symbol))))
        sector_cap_exceeded in
    (λ h. (refl, f (a h)), λ (_, h). b (g h))

beta_reasons_iff :
    (cfg : RiskConfig) (p : PortfolioRead) (added : List PricedLeg) (poisoned : Bool)
    → (beta_reasons cfg p added poisoned ≡ []) ↔ (
        (poisoned ≡ false)
        × (abs (beta_used cfg p added) ≤ℤ cfg.max_abs_beta_notional_usd *ℤ cfg.beta_unit))
unfolding beta_reasons
beta_reasons_iff cfg p added true = (λ h. absurd (cc h), λ (h, _). absurd (cc h))
beta_reasons_iff cfg p added false =
    let (f, g) =
      not_above (cfg.max_abs_beta_notional_usd *ℤ cfg.beta_unit) (abs (beta_used cfg p added)) in
    let (a, b) =
      when-nil
        (ltb_ℤ (cfg.max_abs_beta_notional_usd *ℤ cfg.beta_unit) (abs (beta_used cfg p added)))
        beta_cap_exceeded in
    (λ h. (refl, f (a h)), λ (_, h). b (g h))

any_unlisted :
    {A : Type 0} (cfg : RiskConfig) (symbol : A → ℕ) (xs : List A)
    → (any xs (λ x. not (in_universe cfg (symbol x))) ≡ false)
      ↔ All (λ x. IsListed cfg (symbol x)) xs
any_unlisted cfg symbol xs = (
  λ h.
      All-map (λ x e. (in_universe_iff cfg (symbol x)).0 e) xs
        (any-All xs (λ x. not (in_universe cfg (symbol x))) h),
  λ h.
      All-any xs (λ x. not (in_universe cfg (symbol x)))
        (All-map (λ x e. (in_universe_iff cfg (symbol x)).1 e) xs h),
)

either : (a b : Bool) → (a ≡ false) × (b ≡ false) → (a || b) ≡ false
either a b (p, q) = rw (p, q) refl

is_poisoned_iff :
    (cfg : RiskConfig) (p : PortfolioRead) (opening : List Leg)
    → (is_poisoned cfg p opening ≡ false) ↔ (
        All (λ leg. IsListed cfg leg.symbol) opening × All (λ q. IsListed cfg q.symbol) p.positions)
unfolding is_poisoned held_outside
is_poisoned_iff cfg p opening =
    let (f, g) = any_unlisted cfg (λ leg. leg.symbol) opening in
    let (h, k) = any_unlisted cfg (λ q. q.symbol) p.positions in
    (λ e. let (a, b) = or_false _ _ e in (f a, h b), λ (a, b). either _ _ (g a, k b))

-- project_caps finds no reason exactly if, after the trade, every symbol and sector that it adds to is
-- within its cap, so are the gross exposure, the net exposure and the beta of the whole portfolio,
-- and every symbol held or opened is in the universe.
pub project_caps_iff :
    (cfg : RiskConfig) (p : PortfolioRead) (added : List PricedLeg) (opening : List Leg)
    → (project_caps cfg p added opening ≡ []) ↔ Respects cfg p added opening
unfolding project_caps Respects
project_caps_iff cfg p added opening =
    let (pf, pg) = none_above added cfg.max_position_usd (λ l. position_used p added l.0.symbol) in
    let (sf, sg) = sector_reasons_iff cfg p added (is_poisoned cfg p opening) in
    let (bf, bg) = beta_reasons_iff cfg p added (is_poisoned cfg p opening) in
    let (gf, gg) = not_above cfg.max_gross_exposure_usd (gross_used p added) in
    let (nf, ng) = not_above cfg.max_net_exposure_usd (abs (net_used p added)) in
    let (cf, cg) = is_poisoned_iff cfg p opening in
    let by_gross = gross_used-sums p added in
    let by_net = net_used-sums p added in
    let by_beta = beta_used-sums cfg p added in
    (
      λ h.
          let (h1, r1) = append-eq-nil _ _ h in
          let (h2, r2) = append-eq-nil _ _ r1 in
          let (h3, r3) = append-eq-nil _ _ r2 in
          let (h4, h5) = append-eq-nil _ _ r3 in
          let (clean, sectors) = sf h4 in
          let (_, betas) = bf h5 in
          let (legs, held) = cf clean in
          (
            All-map
                (λ l e.
                  subst (λ x. x ≤ℤ cfg.max_position_usd) (position_used-sums p added l.0.symbol) e)
                added (pf ((when-nil _ position_cap_exceeded).0 h1)),
            subst (λ x. x ≤ℤ cfg.max_gross_exposure_usd) by_gross
                (gf ((when-nil _ gross_exposure_cap_exceeded).0 h2)),
            subst (λ x. abs x ≤ℤ cfg.max_net_exposure_usd) by_net
                (nf ((when-nil _ net_exposure_cap_exceeded).0 h3)),
            legs,
            held,
            All-map
                (λ l e.
                  subst (λ x. x ≤ℤ cfg.max_sector_exposure_usd)
                    (sector_used-sums cfg p added l.0.symbol) e)
                added sectors,
            subst (λ x. abs x ≤ℤ cfg.max_abs_beta_notional_usd *ℤ cfg.beta_unit) by_beta betas,
          ),
      λ (position, gross, net, legs, held, sectors, betas).
          let clean = cg (legs, held) in
          let positions =
            All-map
              (λ l e.
                subst (λ x. x ≤ℤ cfg.max_position_usd) (sym (position_used-sums p added l.0.symbol))
                  e)
              added position in
          let sectors' =
            All-map
              (λ l e.
                subst (λ x. x ≤ℤ cfg.max_sector_exposure_usd)
                  (sym (sector_used-sums cfg p added l.0.symbol)) e)
              added sectors in
          rw
            (
              pg positions,
              gg (subst (λ x. x ≤ℤ cfg.max_gross_exposure_usd) (sym by_gross) gross),
              ng (subst (λ x. abs x ≤ℤ cfg.max_net_exposure_usd) (sym by_net) net),
              sg (clean, sectors'),
              bg (
                clean,
                subst (λ x. abs x ≤ℤ cfg.max_abs_beta_notional_usd *ℤ cfg.beta_unit) (sym by_beta)
                    betas,
              ),
            )
            refl,
    )
