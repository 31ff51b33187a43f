-- ===== src/Risk/Engine/Allowed.antt =====
-- scripts/agent/risk/can_open.py: what holds of the inputs of a verdict that allows.
use fail_closed_agent.Base.{
  nil_of, ◌≡◌, refl, sym, ap, subst, ◌∙◌, true, false, All, ℕ, is_empty, some, none, Option,
}
use fail_closed_agent.Base.Ranked.{is_empty-sorted_set}
use fail_closed_agent.Exec.Preflight.Inputs.{
  KillState, monitoring, flattening, halted, unknown_kill_state,
}
use fail_closed_agent.Risk.Account.{BrokerAccountRead}
use fail_closed_agent.Risk.Reasons.{risk_rank}
use fail_closed_agent.Risk.Exposure.{PortfolioRead, in_universe}
use fail_closed_agent.Risk.Engine.Stages.{fine, Inputs, PricedLegs}
use fail_closed_agent.Risk.Engine.Stages.Clean.{Opens}
use fail_closed_agent.Risk.Engine.Stages.Permits.{
  >>=-fine, fine-eq, raised-ne, IsTradable, WithinLosses,
}
use fail_closed_agent.Risk.Engine.{
  RiskVerdict, VerdictKey, Terminal, terminal, collected, finish, phase_two, decide_from,
  vocab_checked, can_open,
}
use fail_closed_agent.Risk.Engine.Ready.{IsReady, SaysWhy, terminal-IsReady, terminal-SaysWhy}
use fail_closed_agent.Risk.Engine.Collected.{Fits, Collects, collected-Collects}

pub IsAllowed : Inputs → RiskVerdict → Type 0
IsAllowed i v =
    (p : PortfolioRead) × (read : BrokerAccountRead) × IsReady i p
    × (i.account.read ≡ some read)
    × (i.candidate.paper_eligible ≡ true)
    × All (Opens p) i.candidate.legs
    × All (λ leg. in_universe i.cfg leg.symbol ≡ true) i.candidate.legs
    × All (IsTradable i.market_state i.margin_read) i.candidate.legs
    × Fits i p read v.gross_notional
    × (i.pdt_read.rejection_latched ≡ false)
    × WithinLosses i.cfg read i.hwm_equity

module _ (key_hash : VerdictKey → ℕ) where
  phase_two-Collects :
      (i : Inputs) (p : PortfolioRead) (account : Option BrokerAccountRead) (v : RiskVerdict)
      → is_empty i.candidate.legs ≡ false
      → phase_two key_hash i (some p) account ≡ fine v
      → v.allowed ≡ true
      → (read : BrokerAccountRead) × (account ≡ some read)
        × ((legs : PricedLegs) × (v.gross_notional ≡ legs.gross_notional) × Collects i p read legs)
  unfolding phase_two finish
  phase_two-Collects i p none v some_leg h ok = absurd (raised-ne h)
  phase_two-Collects i p (some read) v some_leg h ok =
      let (out, e, h1) = >>=-fine (collected i p read) _ v h in
      let same = fine-eq _ v h1 in
      let empty =
        nil_of out.0
          (sym (is_empty-sorted_set risk_rank out.0) ∙ (ap (λ w. w.allowed) same ∙ ok)) in
      (
        read,
        refl,
        (
          out.1,
          sym (ap (λ w. w.gross_notional) same),
          collected-Collects i p read out some_leg e empty,
        ),
      )

  past_vocab :
      (i : Inputs) (k : KillState) (v : RiskVerdict)
      → vocab_checked key_hash i k ≡ fine v
      → decide_from key_hash i (terminal i) ≡ fine v
  unfolding vocab_checked
  past_vocab i monitoring v h = h
  past_vocab i flattening v h = h
  past_vocab i halted v h = h
  past_vocab i unknown_kill_state v h = absurd (raised-ne h)

  -- a verdict that allows comes from the second phase
  second_phase :
      (i : Inputs) (v : RiskVerdict) (t : Option Terminal)
      → terminal i ≡ t
      → decide_from key_hash i t ≡ fine v
      → v.allowed ≡ true
      → (terminal i ≡ none) × (phase_two key_hash i i.portfolio i.account.read ≡ fine v)
  unfolding decide_from finish SaysWhy
  second_phase i v none e h ok = (e, h)
  second_phase i v (some t) e h ok =
      absurd (cc (terminal-SaysWhy i t e, ap (λ w. w.allowed) (fine-eq _ v h), ok))

  -- Where can_open allows a candidate that has legs, the run gates are open, the kill switch is
  -- monitoring, no margin freeze is in force, the account is fresh and the portfolio read, in time and
  -- reconciled; the candidate is eligible for paper trading; every leg buys with a positive limit and
  -- adds to no short, in the universe, on an instrument whose verdict is tradable; all legs together, each at
  -- its limit or more, leave every cap respected and fit the buying power; and the losses are within
  -- their caps.
  pub can_open-IsAllowed :
      (i : Inputs) (v : RiskVerdict)
      → is_empty i.candidate.legs ≡ false
      → can_open key_hash i ≡ fine v
      → v.allowed ≡ true
      → IsAllowed i v
  unfolding can_open Collects IsAllowed IsReady
  can_open-IsAllowed i v some_leg h ok =
      let (clear, two) = second_phase i v (terminal i) refl (past_vocab i i.kill_state v h) ok in
      let (p, ready) = terminal-IsReady i clear in
      let (read, there, (legs, gross, c)) =
        phase_two-Collects i p i.account.read v some_leg
          (subst (λ q. phase_two key_hash i q i.account.read ≡ fine v) ready.4 two) ok in
      (p, read, ready, there, c.0, c.1, c.2, c.3, subst (Fits i p read) (sym gross) c.4, c.5, c.6)
