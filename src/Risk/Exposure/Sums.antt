-- ===== src/Risk/Exposure/Sums.antt =====
-- scripts/agent/risk/exposure.py: what the exposures of a portfolio and of the added legs sum up.
use fail_closed_agent.Base.{
  ℕ, ◌≡◌, refl, ap, Bool, Option, none, some, List, [], ◌∷◌, ◌==◌, if◌then◌else◌,
}
use fail_closed_agent.Base.Int.{ℤ, pos, abs, ◌+ℤ◌, ◌-ℤ◌, ◌*ℤ◌}
use fail_closed_agent.Base.Dict.{lookup}
use fail_closed_agent.Exec.Order.{Side, buy, sell}
use fail_closed_agent.Risk.Exposure.{
  PositionRead, PortfolioRead, RiskConfig, PricedLeg, SymbolRisk, sector_for, sector_in, beta_in,
  gross_of, net_of, symbol_of, gross_exposure, net_exposure, symbol_exposure, sector_of, beta_of,
  signed, signed_total, abs_total, symbol_add, sector_add, beta_add, position_used, sector_used,
  beta_used, net_used, gross_used,
}

-- The sum of `f` over a list, and over the part of it that has a property.
pub total {ℓ} : {A : Type ℓ} → (A → ℤ) → List A → ℤ
total f [] = pos 0
total f (x ∷ xs) = f x +ℤ total f xs

pub total_where {ℓ} : {A : Type ℓ} → (A → Bool) → (A → ℤ) → List A → ℤ
total_where test f [] = pos 0
total_where test f (x ∷ xs) =
    let rest = total_where test f xs in if test x then f x +ℤ rest else rest

-- the absolute value of the first holding of a symbol
pub held_value : ℕ → List PositionRead → ℤ
held_value symbol [] = pos 0
held_value symbol (p ∷ ps) = if p.symbol == symbol then abs p.market_value else held_value symbol ps

-- what the universe holds of a symbol
abbrev pub listed_sector : Option SymbolRisk → ℕ
listed_sector none = 0
listed_sector (some r) = r.sector

abbrev pub listed_beta : Option SymbolRisk → ℤ
listed_beta none = pos 0
listed_beta (some r) = r.beta

sector_in-listed : (o : Option SymbolRisk) → sector_in o ≡ listed_sector o
unfolding sector_in
sector_in-listed none = refl
sector_in-listed (some r) = refl

beta_in-listed : (o : Option SymbolRisk) → beta_in o ≡ listed_beta o
unfolding beta_in
beta_in-listed none = refl
beta_in-listed (some r) = refl

-- what a leg adds to the net exposure: its notional, or less it for a sale
abbrev pub signed_notional : Side → ℤ → ℤ
signed_notional buy n = n
signed_notional sell n = pos 0 -ℤ n

gross_of-total : (ps : List PositionRead) → gross_of ps ≡ total (λ q. abs q.market_value) ps
unfolding gross_of total
gross_of-total [] = refl
gross_of-total (p ∷ ps) = ap (λ x. abs p.market_value +ℤ x) (gross_of-total ps)

net_of-total : (ps : List PositionRead) → net_of ps ≡ total (λ q. q.market_value) ps
unfolding net_of total
net_of-total [] = refl
net_of-total (p ∷ ps) = ap (λ x. p.market_value +ℤ x) (net_of-total ps)

symbol_of-held_value :
    (symbol : ℕ) (ps : List PositionRead) → symbol_of ps symbol ≡ held_value symbol ps
unfolding symbol_of held_value
symbol_of-held_value symbol [] = refl
symbol_of-held_value symbol (p ∷ ps) =
    ap (λ x. if p.symbol == symbol then abs p.market_value else x) (symbol_of-held_value symbol ps)

sector_of-total_where :
    (cfg : RiskConfig) (sector : ℕ) (ps : List PositionRead)
    → sector_of cfg sector ps
      ≡ total_where
          (λ q. listed_sector (lookup q.symbol cfg.universe) == sector)
          (λ q. abs q.market_value)
          ps
unfolding sector_of total_where
sector_of-total_where cfg sector [] = refl
sector_of-total_where cfg sector (p ∷ ps) =
    rw (sector_in-listed (lookup p.symbol cfg.universe), sector_of-total_where cfg sector ps) refl

beta_of-total :
    (cfg : RiskConfig) (ps : List PositionRead)
    → beta_of cfg ps ≡ total (λ q. q.market_value *ℤ listed_beta (lookup q.symbol cfg.universe)) ps
unfolding beta_of total
beta_of-total cfg [] = refl
beta_of-total cfg (p ∷ ps) =
    rw (beta_in-listed (lookup p.symbol cfg.universe), beta_of-total cfg ps) refl

signed-notional : (l : PricedLeg) → signed l ≡ signed_notional l.0.side l.1
signed-notional (leg, n) = by_side leg.side
  where
    by_side : (s : Side) → elim s [ buy ↦ n | sell ↦ pos 0 -ℤ n ] ≡ signed_notional s n
    by_side buy = refl
    by_side sell = refl

signed_total-total :
    (ls : List PricedLeg) → signed_total ls ≡ total (λ k. signed_notional k.0.side k.1) ls
unfolding signed_total total
signed_total-total [] = refl
signed_total-total (l ∷ ls) = rw (signed-notional l, signed_total-total ls) refl

abs_total-total : (ls : List PricedLeg) → abs_total ls ≡ total (λ k. abs k.1) ls
unfolding abs_total total
abs_total-total [] = refl
abs_total-total ((leg, n) ∷ ls) = ap (λ x. abs n +ℤ x) (abs_total-total ls)

symbol_add-total_where :
    (symbol : ℕ) (ls : List PricedLeg)
    → symbol_add symbol ls ≡ total_where (λ k. k.0.symbol == symbol) (λ k. abs k.1) ls
unfolding symbol_add total_where
symbol_add-total_where symbol [] = refl
symbol_add-total_where symbol ((leg, n) ∷ ls) =
    ap (λ x. if leg.symbol == symbol then abs n +ℤ x else x) (symbol_add-total_where symbol ls)

sector_add-total_where :
    (cfg : RiskConfig) (sector : ℕ) (ls : List PricedLeg)
    → sector_add cfg sector ls
      ≡ total_where
          (λ k. listed_sector (lookup k.0.symbol cfg.universe) == sector)
          (λ k. abs k.1)
          ls
unfolding sector_add total_where
sector_add-total_where cfg sector [] = refl
sector_add-total_where cfg sector ((leg, n) ∷ ls) =
    rw (sector_in-listed (lookup leg.symbol cfg.universe), sector_add-total_where cfg sector ls)
      refl

beta_add-total :
    (cfg : RiskConfig) (ls : List PricedLeg)
    → beta_add cfg ls
      ≡ total (λ k. signed_notional k.0.side k.1 *ℤ listed_beta (lookup k.0.symbol cfg.universe)) ls
unfolding beta_add total
beta_add-total cfg [] = refl
beta_add-total cfg (l ∷ ls) =
    rw (signed-notional l, beta_in-listed (lookup l.0.symbol cfg.universe), beta_add-total cfg ls)
      refl

pub position_used-sums :
    (p : PortfolioRead) (added : List PricedLeg) (symbol : ℕ)
    → position_used p added symbol
      ≡ held_value symbol p.positions
        +ℤ total_where (λ k. k.0.symbol == symbol) (λ k. abs k.1) added
unfolding position_used symbol_exposure
position_used-sums p added symbol =
    rw (symbol_of-held_value symbol p.positions, symbol_add-total_where symbol added) refl

pub sector_used-sums :
    (cfg : RiskConfig) (p : PortfolioRead) (added : List PricedLeg) (symbol : ℕ)
    → let sector = listed_sector (lookup symbol cfg.universe) in
      sector_used cfg p added (sector_for cfg symbol)
      ≡ total_where
          (λ q. listed_sector (lookup q.symbol cfg.universe) == sector)
          (λ q. abs q.market_value)
          p.positions
        +ℤ total_where
            (λ k. listed_sector (lookup k.0.symbol cfg.universe) == sector)
            (λ k. abs k.1)
            added
unfolding sector_used
sector_used-sums cfg p added symbol =
    rw
      (
        sector_in-listed (lookup symbol cfg.universe),
        sector_of-total_where cfg (listed_sector (lookup symbol cfg.universe)) p.positions,
        sector_add-total_where cfg (listed_sector (lookup symbol cfg.universe)) added,
      )
      refl

pub gross_used-sums :
    (p : PortfolioRead) (added : List PricedLeg)
    → gross_used p added ≡ total (λ q. abs q.market_value) p.positions +ℤ total (λ k. abs k.1) added
unfolding gross_used gross_exposure
gross_used-sums p added = rw (gross_of-total p.positions, abs_total-total added) refl

pub net_used-sums :
    (p : PortfolioRead) (added : List PricedLeg)
    → net_used p added
      ≡ total (λ q. q.market_value) p.positions +ℤ total (λ k. signed_notional k.0.side k.1) added
unfolding net_used net_exposure
net_used-sums p added = rw (net_of-total p.positions, signed_total-total added) refl

pub beta_used-sums :
    (cfg : RiskConfig) (p : PortfolioRead) (added : List PricedLeg)
    → beta_used cfg p added
      ≡ total (λ q. q.market_value *ℤ listed_beta (lookup q.symbol cfg.universe)) p.positions
        +ℤ total
            (λ k. signed_notional k.0.side k.1 *ℤ listed_beta (lookup k.0.symbol cfg.universe))
            added
unfolding beta_used
beta_used-sums cfg p added = rw (beta_of-total cfg p.positions, beta_add-total cfg added) refl
