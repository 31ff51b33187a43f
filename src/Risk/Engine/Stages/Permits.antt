-- ===== src/Risk/Engine/Stages/Permits.antt =====
-- scripts/agent/risk/can_open.py, the stages on market state, margin and loss: what their inputs are like
-- where they add no reason.
use fail_closed_agent.Base.{
  ◌≡◌, refl, ap, ◌∙◌, Bool, true, false, List, [], ◌∷◌, ◌++◌, All, ℕ, not, is_empty, some, none,
  Option, when, append-eq-nil, arith, any-All, All-map,
}
use fail_closed_agent.Base.Int.{ℤ, ◌≤ℤ◌, ◌-ℤ◌, ltb_ℤ}
use fail_closed_agent.Base.Dict.{Dict, lookup}
use fail_closed_agent.Base.Ranked.{has}
use fail_closed_agent.Market.State.{Verdict, Tradability, Blocker, blocker_rank}
use fail_closed_agent.Exec.Preflight.Inputs.{Leg, Candidate}
use fail_closed_agent.Risk.Account.{BrokerAccountRead}
use fail_closed_agent.Risk.Reasons.{
  RiskReason, strategy_not_paper_eligible, universe_excluded, intraday_margin_insufficient,
  intraday_margin_deficit_outstanding, daily_loss_breached, drawdown_breached,
  loss_baseline_unavailable, pdt_compat_blocked, market_state_not_tradable,
  market_state_stale_default,
}
use fail_closed_agent.Risk.Exposure.{RiskConfig, PortfolioRead, in_universe}
use fail_closed_agent.Risk.Exposure.Caps.{not_above, when-nil}
use fail_closed_agent.Risk.Engine.Stages.{
  Checked, fine, raised, RiskFault, ◌>>=◌, MarginRead, PdtRead, Classification, stage_candidate,
  leg_reasons, stage_universe, stage_market_state, verdict_reasons, verdict_fault, checked_verdict,
  market_leg, session_date, is_tradable, stage_margin, intraday_margin_buffer_usd, stage_pdt,
  stage_loss, drawdown_reasons,
}

pub fine-eq {ℓ} : {A : Type ℓ} (a b : A) → fine a ≡ fine b → a ≡ b
fine-eq a b e = cc

pub raised-ne {ℓ} : {A : Type ℓ} {e : RiskFault} {a : A} → raised e ≡ fine a → ⊥
raised-ne h = cc h

-- what came before a step that ended well
pub >>=-fine {ℓ ℓ'} :
    {A : Type ℓ} {B : Type ℓ'} (m : Checked A) (f : A → Checked B) (b : B)
    → m >>= f ≡ fine b
    → (a : A) × (m ≡ fine a) × (f a ≡ fine b)
>>=-fine (fine a) f b h = (a, refl, h)
>>=-fine (raised e) f b h = absurd (raised-ne h)

pub not-false : (b : Bool) → not b ≡ false → b ≡ true
not-false true h = refl
not-false false h = absurd (cc h)

pub stage_candidate-IsClean :
    (c : Candidate) (p : PortfolioRead) (classes : List Classification)
    → stage_candidate c p classes ≡ []
    → (c.paper_eligible ≡ true) × (leg_reasons p c.legs classes ≡ [])
unfolding stage_candidate
stage_candidate-IsClean c p classes h =
    let (a, b) = append-eq-nil _ _ h in
    (not-false c.paper_eligible ((when-nil _ strategy_not_paper_eligible).0 a), b)

pub stage_universe-IsClean :
    (cfg : RiskConfig) (legs : List Leg)
    → stage_universe cfg legs ≡ []
    → All (λ leg. in_universe cfg leg.symbol ≡ true) legs
unfolding stage_universe
stage_universe-IsClean cfg legs h =
    All-map (λ leg e. not-false (in_universe cfg leg.symbol) e) legs
      (any-All legs (λ leg. not (in_universe cfg leg.symbol)) ((when-nil _ universe_excluded).0 h))

-- The verdict on the instrument of a leg says that it can be traded, for the session that the margin
-- read is of, and is no stand-in for one that is out of date.
pub IsTradable : Dict Verdict → MarginRead → Leg → Type 0
IsTradable verdicts m leg =
    (v : Verdict) × (lookup leg.symbol verdicts ≡ some v)
    × (v.symbol ≡ leg.symbol)
    × (v.instrument_id ≡ leg.instrument_id)
    × (v.session_date_et ≡ m.asof_session_date_et)
    × (v.tradability ≡ Tradability.tradable)
    × (has blocker_rank Blocker.cache_stale_safe_default v.reasons ≡ false)

no_fault :
    (leg : Leg) (v : Verdict) (m : MarginRead) (date : Option ℕ)
    → verdict_fault leg v m date ≡ none
    → (v.symbol ≡ leg.symbol)
      × (v.instrument_id ≡ leg.instrument_id)
      × (v.session_date_et ≡ m.asof_session_date_et)
unfolding verdict_fault
no_fault leg v m date h = ground arith

tradable-eq : (t : Tradability) → is_tradable t ≡ true → t ≡ Tradability.tradable
tradable-eq Tradability.tradable h = refl
tradable-eq Tradability.reduce_only h = absurd (cc h)
tradable-eq Tradability.not_tradable h = absurd (cc h)

no_reason :
    (v : Verdict)
    → verdict_reasons v ≡ []
    → (v.tradability ≡ Tradability.tradable)
      × (has blocker_rank Blocker.cache_stale_safe_default v.reasons ≡ false)
unfolding verdict_reasons
no_reason v h =
    let (a, b) = append-eq-nil _ _ h in
    (
      tradable-eq v.tradability
          (not-false (is_tradable v.tradability) ((when-nil _ market_state_not_tradable).0 a)),
      (when-nil _ market_state_stale_default).0 b,
    )

checked_verdict-inv :
    (fault : Option RiskFault) (v : Verdict) (below : Checked (List RiskReason × Option ℕ))
    (out : List RiskReason × Option ℕ)
    → checked_verdict fault v below ≡ fine out
    → (fault ≡ none)
      × ((q : List RiskReason × Option ℕ) × (below ≡ fine q) × (verdict_reasons v ++ q.0 ≡ out.0))
unfolding checked_verdict
checked_verdict-inv (some e) v below out h = absurd (raised-ne h)
checked_verdict-inv none v below out h =
    let (q, e, k) = >>=-fine below _ out h in (refl, (q, e, ap (λ x. x.0) (fine-eq _ _ k)))

market_leg-IsClean :
    (leg : Leg) (verdicts : Dict Verdict) (m : MarginRead) (date : Option ℕ) (o : Option Verdict)
    (below : Checked (List RiskReason × Option ℕ)) (out : List RiskReason × Option ℕ)
    → lookup leg.symbol verdicts ≡ o
    → market_leg leg m date o below ≡ fine out
    → out.0 ≡ []
    → IsTradable verdicts m leg × ((q : List RiskReason × Option ℕ) × (below ≡ fine q) × (q.0 ≡ []))
unfolding market_leg IsTradable
market_leg-IsClean leg verdicts m date none below out e h empty =
    let (q, _, k) = >>=-fine below _ out h in absurd (cc (ap (λ x. x.0) (fine-eq _ _ k), empty))
market_leg-IsClean leg verdicts m date (some v) below out e h empty =
    let (clear, (q, e', k)) = checked_verdict-inv (verdict_fault leg v m date) v below out h in
    let (reasons, others) = append-eq-nil (verdict_reasons v) q.0 (k ∙ empty) in
    let (symbol, instrument, session) = no_fault leg v m date clear in
    let (usable, live) = no_reason v reasons in
    ((v, e, symbol, instrument, session, usable, live), (q, e', others))

pub stage_market_state-IsClean :
    (legs : List Leg) (verdicts : Dict Verdict) (m : MarginRead) (date : Option ℕ)
    (out : List RiskReason × Option ℕ)
    → stage_market_state legs verdicts m date ≡ fine out
    → out.0 ≡ []
    → All (IsTradable verdicts m) legs
unfolding stage_market_state All
stage_market_state-IsClean [] verdicts m date out h empty = tt
stage_market_state-IsClean (leg ∷ rest) verdicts m date out h empty =
    let d = session_date date (lookup leg.symbol verdicts) in
    let (usable, (q, e, clean)) =
      market_leg-IsClean leg verdicts m date (lookup leg.symbol verdicts)
        (stage_market_state rest verdicts m d) out refl h empty in
    (usable, stage_market_state-IsClean rest verdicts m d q e clean)

within_cap : (cap used : ℤ) (r : RiskReason) → when (ltb_ℤ cap used) r ≡ [] → used ≤ℤ cap
within_cap cap used r h = (not_above cap used).0 ((when-nil (ltb_ℤ cap used) r).0 h)

pub stage_margin-IsClean :
    (gross : ℤ) (read : BrokerAccountRead) (m : MarginRead)
    → stage_margin gross read m ≡ []
    → (gross ≤ℤ read.buying_power -ℤ intraday_margin_buffer_usd)
      × (is_empty m.outstanding_nonminor ≡ true)
unfolding stage_margin
stage_margin-IsClean gross read m h =
    let (a, b) = append-eq-nil _ _ h in
    (
      within_cap (read.buying_power -ℤ intraday_margin_buffer_usd) gross
          intraday_margin_insufficient a,
      not-false (is_empty m.outstanding_nonminor)
          ((when-nil _ intraday_margin_deficit_outstanding).0 b),
    )

pub stage_pdt-IsClean :
    (p : PdtRead) (gross : Option ℤ) (read : BrokerAccountRead)
    → stage_pdt p gross read ≡ []
    → p.rejection_latched ≡ false
unfolding stage_pdt
stage_pdt-IsClean p gross read h =
    (when-nil p.rejection_latched pdt_compat_blocked).0 (append-eq-nil _ _ h).0

-- The day's loss and the fall from the high-water mark are within their caps.
pub WithinLosses : RiskConfig → BrokerAccountRead → Option ℤ → Type 0
WithinLosses cfg read hwm =
    (read.last_equity -ℤ read.equity ≤ℤ cfg.max_daily_loss_usd)
    × ((high : ℤ) × (hwm ≡ some high) × (high -ℤ read.equity ≤ℤ cfg.max_drawdown_usd))

pub stage_loss-IsClean :
    (cfg : RiskConfig) (read : BrokerAccountRead) (hwm : Option ℤ)
    → stage_loss cfg read hwm ≡ []
    → WithinLosses cfg read hwm
unfolding stage_loss drawdown_reasons WithinLosses
stage_loss-IsClean cfg read none h =
    let (_, b) =
      append-eq-nil
        (when (ltb_ℤ cfg.max_daily_loss_usd (read.last_equity -ℤ read.equity)) daily_loss_breached)
        (loss_baseline_unavailable ∷ []) h in
    absurd (cc b)
stage_loss-IsClean cfg read (some high) h =
    let (a, b) = append-eq-nil _ _ h in
    (
      within_cap cfg.max_daily_loss_usd (read.last_equity -ℤ read.equity) daily_loss_breached a,
      (high, refl, within_cap cfg.max_drawdown_usd (high -ℤ read.equity) drawdown_breached b),
    )
