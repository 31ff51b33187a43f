-- ===== src/Risk/Exposure.antt =====
-- scripts/agent/risk/exposure.py and the portfolio of scripts/agent/risk/account_state.py. Money counts
-- the product of the smallest units of quantity and price; a beta counts one `beta_unit`-th, a cap
-- on beta whole money. The rows that project_caps writes for the journal decide nothing and are
-- left out.
pub mod Sums
pub mod Caps
pub mod Notionals
use fail_closed_agent.Base.{
  ℕ, ◌+◌, Bool, true, false, not, ◌&&◌, ◌||◌, Option, none, some, List, [], ◌∷◌, ◌++◌, ltb, leb,
  ◌==◌, if◌then◌else◌, when, any, is_some,
}
use fail_closed_agent.Base.Int.{ℤ, pos, ltb_ℤ, leb_ℤ, max_ℤ, abs, ◌+ℤ◌, ◌-ℤ◌, ◌*ℤ◌}
use fail_closed_agent.Base.Dict.{Dict, lookup}
use fail_closed_agent.Exec.Order.{Side, buy, sell}
use fail_closed_agent.Exec.Preflight.Inputs.{Leg}
use fail_closed_agent.Risk.Reasons.{
  RiskReason, position_cap_exceeded, gross_exposure_cap_exceeded, net_exposure_cap_exceeded,
  sector_unknown, sector_cap_exceeded, beta_unknown, beta_cap_exceeded,
}

abbrev pub mark_freshness_ttl_ms : ℕ
mark_freshness_ttl_ms = 2000

pub record PositionRead : Type 0 where
  pub symbol : ℕ
  pub qty : ℤ
  pub market_value : ℤ

pub record PortfolioRead : Type 0 where
  pub positions : List PositionRead
  pub stale : Bool
  pub unreconciled_drift : Bool

pub record Mark : Type 0 where
  pub symbol : ℕ
  pub instrument_id : ℕ
  pub mid : ℤ
  pub seen_at_ms : ℕ

pub record SymbolRisk : Type 0 where
  pub sector : ℕ
  pub beta : ℤ

pub record RiskConfig : Type 0 where
  pub max_position_usd : ℤ
  pub max_gross_exposure_usd : ℤ
  pub max_net_exposure_usd : ℤ
  pub max_daily_loss_usd : ℤ
  pub max_drawdown_usd : ℤ
  pub max_sector_exposure_usd : ℤ
  pub max_abs_beta_notional_usd : ℤ
  pub beta_unit : ℤ
  pub universe : Dict SymbolRisk

unfoldable pub held_qty : List PositionRead → ℕ → ℤ
held_qty [] symbol = pos 0
held_qty (p ∷ ps) symbol = if p.symbol == symbol then p.qty else held_qty ps symbol

unfoldable pub qty_for : PortfolioRead → ℕ → ℤ
qty_for p symbol = held_qty p.positions symbol

-- `limit is None or limit <= 0`
unfoldable pub is_unpriceable : Option ℤ → Bool
is_unpriceable none = true
is_unpriceable (some l) = leb_ℤ l (pos 0)

abbrev pub is_other_mark : Leg → Mark → Bool
is_other_mark leg m = not (m.symbol == leg.symbol) || not (m.instrument_id == leg.instrument_id)

-- the price of a priceable leg: its limit, or the mid of a fresh mark if that is more
abbrev marked_price : ℤ → Option Mark → ℕ → ℤ × Bool
marked_price limit none now = (limit, false)
marked_price limit (some m) now =
    if leb now (m.seen_at_ms + mark_freshness_ttl_ms)
    then (max_ℤ limit m.mid, true)
    else (limit, false)

pub data Notional : Type 0 where
  priced : ℤ → Bool → Notional
  unpriceable : Notional
  mark_mismatch : Notional

unfoldable pub priced_notional : Leg → ℤ → ℤ × Bool → Notional
priced_notional leg limit (price, used) = priced (leg.qty *ℤ price) used

unfoldable pub limit_notional : Leg → Option ℤ → Option Mark → ℕ → Notional
limit_notional leg none mark now = unpriceable
limit_notional leg (some limit) mark now =
    if leb_ℤ limit (pos 0)
    then unpriceable
    else priced_notional leg limit (marked_price limit mark now)

abbrev is_mismatch : Leg → Option Mark → Bool
is_mismatch leg none = false
is_mismatch leg (some m) = is_other_mark leg m

unfoldable pub leg_cap_notional : Leg → Option Mark → ℕ → Notional
leg_cap_notional leg mark now =
    if is_mismatch leg mark then mark_mismatch else limit_notional leg leg.limit_price mark now

unfoldable pub gross_of : List PositionRead → ℤ
gross_of [] = pos 0
gross_of (p ∷ ps) = abs p.market_value +ℤ gross_of ps

unfoldable pub net_of : List PositionRead → ℤ
net_of [] = pos 0
net_of (p ∷ ps) = p.market_value +ℤ net_of ps

unfoldable pub symbol_of : List PositionRead → ℕ → ℤ
symbol_of [] symbol = pos 0
symbol_of (p ∷ ps) symbol = if p.symbol == symbol then abs p.market_value else symbol_of ps symbol

unfoldable pub gross_exposure : PortfolioRead → ℤ
gross_exposure p = gross_of p.positions

unfoldable pub net_exposure : PortfolioRead → ℤ
net_exposure p = net_of p.positions

unfoldable pub symbol_exposure : PortfolioRead → ℕ → ℤ
symbol_exposure p symbol = symbol_of p.positions symbol

unfoldable pub in_universe : RiskConfig → ℕ → Bool
in_universe cfg symbol = is_some (lookup symbol cfg.universe)

-- `universe[symbol]` where the symbol is known to be there; elsewhere sector 0 and beta 0
unfoldable pub sector_in : Option SymbolRisk → ℕ
sector_in none = 0
sector_in (some r) = r.sector

unfoldable pub beta_in : Option SymbolRisk → ℤ
beta_in none = pos 0
beta_in (some r) = r.beta

abbrev pub sector_for : RiskConfig → ℕ → ℕ
sector_for cfg symbol = sector_in (lookup symbol cfg.universe)

abbrev pub beta_for : RiskConfig → ℕ → ℤ
beta_for cfg symbol = beta_in (lookup symbol cfg.universe)

-- a symbol out of the universe poisons the sums by sector and by beta
unfoldable pub held_outside : RiskConfig → PortfolioRead → Bool
held_outside cfg p = any p.positions (λ q. not (in_universe cfg q.symbol))

unfoldable pub sector_of : RiskConfig → ℕ → List PositionRead → ℤ
sector_of cfg sector [] = pos 0
sector_of cfg sector (p ∷ ps) =
    if sector_for cfg p.symbol == sector
    then abs p.market_value +ℤ sector_of cfg sector ps
    else sector_of cfg sector ps

unfoldable pub beta_of : RiskConfig → List PositionRead → ℤ
beta_of cfg [] = pos 0
beta_of cfg (p ∷ ps) = p.market_value *ℤ beta_for cfg p.symbol +ℤ beta_of cfg ps

-- A priceable opening leg with its notional.
abbrev pub PricedLeg : Type 0
PricedLeg = Leg × ℤ

abbrev signed : PricedLeg → ℤ
signed (leg, n) = elim leg.side [ buy ↦ n | sell ↦ pos 0 -ℤ n ]

unfoldable pub signed_total : List PricedLeg → ℤ
signed_total [] = pos 0
signed_total (l ∷ ls) = signed l +ℤ signed_total ls

unfoldable pub abs_total : List PricedLeg → ℤ
abs_total [] = pos 0
abs_total ((leg, n) ∷ ls) = abs n +ℤ abs_total ls

unfoldable pub symbol_add : ℕ → List PricedLeg → ℤ
symbol_add symbol [] = pos 0
symbol_add symbol ((leg, n) ∷ ls) =
    if leg.symbol == symbol then abs n +ℤ symbol_add symbol ls else symbol_add symbol ls

unfoldable pub sector_add : RiskConfig → ℕ → List PricedLeg → ℤ
sector_add cfg sector [] = pos 0
sector_add cfg sector ((leg, n) ∷ ls) =
    if sector_for cfg leg.symbol == sector
    then abs n +ℤ sector_add cfg sector ls
    else sector_add cfg sector ls

unfoldable pub beta_add : RiskConfig → List PricedLeg → ℤ
beta_add cfg [] = pos 0
beta_add cfg (l ∷ ls) = signed l *ℤ beta_for cfg l.0.symbol +ℤ beta_add cfg ls

unfoldable pub position_used : PortfolioRead → List PricedLeg → ℕ → ℤ
position_used p added symbol = symbol_exposure p symbol +ℤ symbol_add symbol added

unfoldable pub sector_used : RiskConfig → PortfolioRead → List PricedLeg → ℕ → ℤ
sector_used cfg p added sector = sector_of cfg sector p.positions +ℤ sector_add cfg sector added

unfoldable pub beta_used : RiskConfig → PortfolioRead → List PricedLeg → ℤ
beta_used cfg p added = beta_of cfg p.positions +ℤ beta_add cfg added

unfoldable pub net_used : PortfolioRead → List PricedLeg → ℤ
net_used p added = net_exposure p +ℤ signed_total added

unfoldable pub gross_used : PortfolioRead → List PricedLeg → ℤ
gross_used p added = gross_exposure p +ℤ abs_total added

unfoldable pub sector_reasons : RiskConfig → PortfolioRead → List PricedLeg → Bool → List RiskReason
sector_reasons cfg p added true = sector_unknown ∷ []
sector_reasons cfg p added false =
    when
      (any added λ l.
        ltb_ℤ cfg.max_sector_exposure_usd (sector_used cfg p added (sector_for cfg l.0.symbol)))
      sector_cap_exceeded

unfoldable pub beta_reasons : RiskConfig → PortfolioRead → List PricedLeg → Bool → List RiskReason
beta_reasons cfg p added true = beta_unknown ∷ []
beta_reasons cfg p added false =
    when (ltb_ℤ (cfg.max_abs_beta_notional_usd *ℤ cfg.beta_unit) (abs (beta_used cfg p added)))
      beta_cap_exceeded

-- `opening` holds every opening leg, priceable or not
unfoldable pub is_poisoned : RiskConfig → PortfolioRead → List Leg → Bool
is_poisoned cfg p opening =
    any opening (λ leg. not (in_universe cfg leg.symbol)) || held_outside cfg p

unfoldable pub project_caps :
    RiskConfig → PortfolioRead → List PricedLeg → List Leg → List RiskReason
project_caps cfg p added opening =
    when (any added (λ l. ltb_ℤ cfg.max_position_usd (position_used p added l.0.symbol)))
      position_cap_exceeded
    ++ (when (ltb_ℤ cfg.max_gross_exposure_usd (gross_used p added)) gross_exposure_cap_exceeded
        ++ (when (ltb_ℤ cfg.max_net_exposure_usd (abs (net_used p added))) net_exposure_cap_exceeded
            ++ (sector_reasons cfg p added (is_poisoned cfg p opening)
                ++ beta_reasons cfg p added (is_poisoned cfg p opening))))
