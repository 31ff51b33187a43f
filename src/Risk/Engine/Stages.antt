-- ===== src/Risk/Engine/Stages.antt =====
-- scripts/agent/risk/can_open.py: the stages of the second phase. A position held is signed.
pub mod Clean
pub mod Priced
pub mod Permits
use fail_closed_agent.Base.{
  ℕ, ◌+◌, ◌-◌, Bool, true, false, not, ◌&&◌, ◌||◌, Option, none, some, List, [], ◌∷◌, ◌++◌, ltb,
  leb, ◌==◌, if◌then◌else◌, when, any, is_empty, is_some,
}
use fail_closed_agent.Base.Int.{ℤ, pos, ltb_ℤ, leb_ℤ, abs, ◌+ℤ◌, ◌-ℤ◌}
use fail_closed_agent.Base.Dict.{Dict, lookup}
use fail_closed_agent.Base.Ranked.{has}
use fail_closed_agent.Config.{Json}
use fail_closed_agent.Market.State.{Verdict, Tradability, Blocker, blocker_rank}
use fail_closed_agent.Exec.Order.{Side, buy, sell}
use fail_closed_agent.Exec.Preflight.Inputs.{Leg, Candidate, KillState}
use fail_closed_agent.Risk.Account.{AccountRead, BrokerAccountRead}
use fail_closed_agent.Risk.Reasons.{
  RiskReason, strategy_not_paper_eligible, reduce_path_not_can_open, short_side_disabled,
  unpriceable_candidate, universe_excluded, market_state_missing, market_state_not_tradable,
  market_state_stale_default, intraday_margin_insufficient, intraday_margin_deficit_outstanding,
  pdt_compat_blocked, pdt_compat_dtbp_exceeded, daily_loss_breached, drawdown_breached,
  loss_baseline_unavailable,
}
use fail_closed_agent.Risk.Exposure.{
  RiskConfig, PortfolioRead, Mark, PricedLeg, Notional, priced, unpriceable, mark_mismatch, qty_for,
  is_unpriceable, leg_cap_notional, in_universe,
}

abbrev pub intraday_margin_buffer_usd : ℤ
intraday_margin_buffer_usd = pos 0

pub data RiskFault : Type 0 where
  kill_state_out_of_vocab read_absent verdict_identity_mismatch session_disagreement
        stale_margin_read mark_key_mismatch mark_identity_mismatch :
      RiskFault

-- A value, or the RiskError raised on the way.
pub data Checked {ℓ} (A : Type ℓ) : Type ℓ where
  fine : A → Checked A
  raised : RiskFault → Checked A

infixl 5 ◌>>=◌
abbrev pub ◌>>=◌ {ℓ ℓ'} : {A : Type ℓ} {B : Type ℓ'} → Checked A → (A → Checked B) → Checked B
fine a >>= f = f a
raised e >>= f = raised e

pub data Classification : Type 0 where
  opening_long short_or_flip reducing : Classification

pub record FreezeState : Type 0 where
  pub active : Bool
  pub effective_from_et : Option ℕ
  pub expires_on_et : Option ℕ

pub record MarginRead : Type 0 where
  pub outstanding_nonminor : List ℕ
  pub freeze : FreezeState
  pub asof_session_date_et : ℕ

pub data PdtState : Type 0 where
  unknown not_enforcing enforcing_legacy_pdt : PdtState

pub record PdtRead : Type 0 where
  pub state : PdtState
  pub rejection_latched : Bool

-- The engine's own fields and the arguments of `can_open`.
pub record Inputs : Type 0 where
  pub cfg : RiskConfig
  pub gates_config : Json
  pub run_id : ℕ
  pub rules_hash : ℕ
  pub strategy_id : ℕ
  pub candidate : Candidate
  pub portfolio : Option PortfolioRead
  pub account : AccountRead
  pub market_state : Dict Verdict
  pub marks : Dict Mark
  pub kill_state : KillState
  pub kill_generation : ℕ
  pub margin_read : MarginRead
  pub pdt_read : PdtRead
  pub hwm_equity : Option ℤ
  pub now_ms : ℕ
  pub decision_id : Option ℕ

abbrev within : Option ℕ → Option ℕ → ℕ → Bool
within (some a) (some b) date = leb a date && ltb date b
within _ _ date = false

unfoldable pub is_active_on : FreezeState → ℕ → Bool
is_active_on f date = f.active && within f.effective_from_et f.expires_on_et date

-- scripts/agent/risk/intraday_margin.py
unfoldable pub classify_iml_reducing : Side → ℤ → ℤ → Bool
classify_iml_reducing buy qty held = if leb_ℤ (pos 0) held then true else ltb_ℤ (abs held) qty
classify_iml_reducing sell qty held = not (ltb_ℤ (pos 0) held && leb_ℤ qty held)

abbrev is_buy : Side → Bool
is_buy buy = true
is_buy sell = false

unfoldable pub classify : Leg → ℤ → Classification
classify leg held =
    if not (classify_iml_reducing leg.side leg.qty held)
    then reducing
    else if is_buy leg.side && leb_ℤ (pos 0) held
    then opening_long
    else short_or_flip

unfoldable pub classify_all : PortfolioRead → List Leg → List Classification
classify_all p [] = []
classify_all p (leg ∷ rest) = classify leg (qty_for p leg.symbol) ∷ classify_all p rest

abbrev pub is_opening : Classification → Bool
is_opening reducing = false
is_opening _ = true

-- the legs of `zip(candidate.legs, classifications)` that open
unfoldable pub opening_legs : List Leg → List Classification → List Leg
opening_legs (leg ∷ rest) (c ∷ cs) =
    if is_opening c then leg ∷ opening_legs rest cs else opening_legs rest cs
opening_legs _ _ = []

unfoldable pub side_reasons : Side → ℤ → ℤ → List RiskReason
side_reasons buy qty held = when (ltb_ℤ held (pos 0)) reduce_path_not_can_open
side_reasons sell qty held =
    if ltb_ℤ (pos 0) held && leb_ℤ qty held
    then reduce_path_not_can_open ∷ []
    else short_side_disabled ∷ []

unfoldable pub leg_reasons : PortfolioRead → List Leg → List Classification → List RiskReason
leg_reasons p (leg ∷ rest) (c ∷ cs) =
    side_reasons leg.side leg.qty (qty_for p leg.symbol)
    ++ (when (is_opening c && is_unpriceable leg.limit_price) unpriceable_candidate
        ++ leg_reasons p rest cs)
leg_reasons p _ _ = []

unfoldable pub stage_candidate : Candidate → PortfolioRead → List Classification → List RiskReason
stage_candidate c p classes =
    when (not c.paper_eligible) strategy_not_paper_eligible ++ leg_reasons p c.legs classes

unfoldable pub stage_universe : RiskConfig → List Leg → List RiskReason
stage_universe cfg legs =
    when (any legs (λ leg. not (in_universe cfg leg.symbol))) universe_excluded

abbrev is_tradable : Tradability → Bool
is_tradable Tradability.tradable = true
is_tradable _ = false

unfoldable pub verdict_reasons : Verdict → List RiskReason
verdict_reasons v =
    when (not (is_tradable v.tradability)) market_state_not_tradable
    ++ when (has blocker_rank Blocker.cache_stale_safe_default v.reasons) market_state_stale_default

abbrev disagrees : Option ℕ → ℕ → Bool
disagrees none date = false
disagrees (some d) date = not (date == d)

-- the checks on a verdict that is there
unfoldable pub verdict_fault : Leg → Verdict → MarginRead → Option ℕ → Option RiskFault
verdict_fault leg v m date =
    if not (v.symbol == leg.symbol) || not (v.instrument_id == leg.instrument_id)
    then some verdict_identity_mismatch
    else if disagrees date v.session_date_et
    then some session_disagreement
    else if not (v.session_date_et == m.asof_session_date_et)
    then some stale_margin_read
    else none

unfoldable pub checked_verdict :
    Option RiskFault
    → Verdict
    → Checked (List RiskReason × Option ℕ)
    → Checked (List RiskReason × Option ℕ)
checked_verdict (some e) v rest = raised e
checked_verdict none v rest = do (reasons, date) ← rest; fine (verdict_reasons v ++ reasons, date)

unfoldable pub market_leg :
    Leg
    → MarginRead
    → Option ℕ
    → Option Verdict
    → Checked (List RiskReason × Option ℕ)
    → Checked (List RiskReason × Option ℕ)
market_leg leg m date none rest = do (reasons, d) ← rest; fine (market_state_missing ∷ reasons, d)
market_leg leg m date (some v) rest = checked_verdict (verdict_fault leg v m date) v rest

-- the session's date that the verdicts so far agree on
unfoldable pub session_date : Option ℕ → Option Verdict → Option ℕ
session_date date none = date
session_date date (some v) = some v.session_date_et

unfoldable pub stage_market_state :
    List Leg → Dict Verdict → MarginRead → Option ℕ → Checked (List RiskReason × Option ℕ)
stage_market_state [] verdicts m date = fine ([], date)
stage_market_state (leg ∷ rest) verdicts m date =
    market_leg leg m date (lookup leg.symbol verdicts)
      (stage_market_state rest verdicts m (session_date date (lookup leg.symbol verdicts)))

pub record LegRead : Type 0 where
  pub leg : Leg
  pub classification : Classification
  pub cap_notional : Option ℤ
  pub mark_used : Bool

pub record PricedLegs : Type 0 where
  pub priced_legs : List PricedLeg
  pub leg_reads : List LegRead
  pub gross_notional : ℤ

unfoldable pub mark_keys_agree : Dict Mark → Bool
mark_keys_agree [] = true
mark_keys_agree ((k, m) ∷ d) = m.symbol == k && mark_keys_agree d

-- the notional of an opening leg; a reducing one has none
unfoldable pub leg_notional : Leg → Classification → Dict Mark → ℕ → Notional
leg_notional leg c marks now =
    if is_opening c then leg_cap_notional leg (lookup leg.symbol marks) now else unpriceable

unfoldable pub with_leg : Leg → Classification → Notional → Checked PricedLegs → Checked PricedLegs
with_leg leg c mark_mismatch rest = raised mark_identity_mismatch
with_leg leg c unpriceable rest = do
  r ← rest
  fine record r {
    leg_reads =
        record { leg = leg; classification = c; cap_notional = none; mark_used = false }
        ∷ r.leg_reads;
  }
with_leg leg c (priced n used) rest = do
  r ← rest
  fine record {
    priced_legs = (leg, n) ∷ r.priced_legs;
    leg_reads =
        record { leg = leg; classification = c; cap_notional = some n; mark_used = used }
        ∷ r.leg_reads;
    gross_notional = n +ℤ r.gross_notional;
  }

unfoldable pub price_each : List Leg → List Classification → Dict Mark → ℕ → Checked PricedLegs
price_each (leg ∷ rest) (c ∷ cs) marks now =
    with_leg leg c (leg_notional leg c marks now) (price_each rest cs marks now)
price_each _ _ marks now =
    fine (record { priced_legs = []; leg_reads = []; gross_notional = pos 0 })

unfoldable pub price_legs : List Leg → List Classification → Dict Mark → ℕ → Checked PricedLegs
price_legs legs classes marks now =
    if mark_keys_agree marks then price_each legs classes marks now else raised mark_key_mismatch

unfoldable pub stage_margin : ℤ → BrokerAccountRead → MarginRead → List RiskReason
stage_margin gross read m =
    when (ltb_ℤ (read.buying_power -ℤ intraday_margin_buffer_usd) gross)
      intraday_margin_insufficient
    ++ when (not (is_empty m.outstanding_nonminor)) intraday_margin_deficit_outstanding

unfoldable pub dtbp_reasons : PdtState → Option ℤ → Option ℤ → List RiskReason
dtbp_reasons enforcing_legacy_pdt (some dtbp) (some gross) =
    when (ltb_ℤ dtbp gross) pdt_compat_dtbp_exceeded
dtbp_reasons _ _ _ = []

unfoldable pub stage_pdt : PdtRead → Option ℤ → BrokerAccountRead → List RiskReason
stage_pdt p gross read =
    when p.rejection_latched pdt_compat_blocked
    ++ dtbp_reasons p.state read.daytrading_buying_power gross

unfoldable pub drawdown_reasons : RiskConfig → BrokerAccountRead → Option ℤ → List RiskReason
drawdown_reasons cfg read none = loss_baseline_unavailable ∷ []
drawdown_reasons cfg read (some high) =
    when (ltb_ℤ cfg.max_drawdown_usd (high -ℤ read.equity)) drawdown_breached

unfoldable pub stage_loss : RiskConfig → BrokerAccountRead → Option ℤ → List RiskReason
stage_loss cfg read hwm =
    when (ltb_ℤ cfg.max_daily_loss_usd (read.last_equity -ℤ read.equity)) daily_loss_breached
    ++ drawdown_reasons cfg read hwm
