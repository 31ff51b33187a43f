-- ===== src/Risk/Engine/Ready.antt =====
-- scripts/agent/risk/can_open.py, the stages that end the ladder: when none does.
use fail_closed_agent.Base.{
  ◌≡◌, refl, subst, Bool, true, false, List, [], ◌∷◌, not, is_empty, if◌then◌else◌, some, none,
  Option, append-eq-nil, of_some-eq,
}
use fail_closed_agent.Config.{opening_allowed}
use fail_closed_agent.Exec.Preflight.Inputs.{
  KillState, monitoring, flattening, halted, unknown_kill_state,
}
use fail_closed_agent.Risk.Account.{AccountStatus, fresh, stale, missing, invalid, skew}
use fail_closed_agent.Risk.Reasons.{RiskReason, portfolio_stale, portfolio_unreconciled}
use fail_closed_agent.Risk.Exposure.{PortfolioRead}
use fail_closed_agent.Risk.Exposure.Caps.{when-nil}
use fail_closed_agent.Risk.Engine.Stages.{Inputs, is_active_on}
use fail_closed_agent.Risk.Engine.Stages.Permits.{not-false}
use fail_closed_agent.Risk.Engine.{
  Terminal, terminal, account_reason, account_terminal, portfolio_reasons, portfolio_terminal,
  is_monitoring,
}

-- The state that every opening order needs, whatever it is.
unfoldable pub IsReady : Inputs → PortfolioRead → Type 0
IsReady i p =
    (opening_allowed i.gates_config ≡ true)
    × (i.kill_state ≡ monitoring)
    × (is_active_on i.margin_read.freeze i.margin_read.asof_session_date_et ≡ false)
    × (i.account.status ≡ fresh)
    × (i.portfolio ≡ some p)
    × (p.stale ≡ false)
    × (p.unreconciled_drift ≡ false)

monitoring-eq : (k : KillState) → is_monitoring k ≡ true → k ≡ monitoring
monitoring-eq monitoring h = refl
monitoring-eq flattening h = absurd (cc h)
monitoring-eq halted h = absurd (cc h)
monitoring-eq unknown_kill_state h = absurd (cc h)

portfolio_terminal-nil : (rs : List RiskReason) → portfolio_terminal rs ≡ none → rs ≡ []
unfolding portfolio_terminal
portfolio_terminal-nil [] h = refl
portfolio_terminal-nil (r ∷ rs) h = absurd (cc h)

portfolio_terminal-none :
    (p : Option PortfolioRead)
    → portfolio_terminal (portfolio_reasons p) ≡ none
    → (q : PortfolioRead) × (p ≡ some q) × (q.stale ≡ false) × (q.unreconciled_drift ≡ false)
unfolding portfolio_terminal portfolio_reasons
portfolio_terminal-none none h = absurd (cc h)
portfolio_terminal-none (some p) h =
    let (a, b) = append-eq-nil _ _ (portfolio_terminal-nil (portfolio_reasons (some p)) h) in
    (
      p,
      refl,
      (when-nil p.stale portfolio_stale).0 a,
      (when-nil p.unreconciled_drift portfolio_unreconciled).0 b,
    )

account_terminal-none :
    (s : AccountStatus) (p : Option PortfolioRead)
    → account_terminal (account_reason s) p ≡ none
    → (s ≡ fresh) × (portfolio_terminal (portfolio_reasons p) ≡ none)
unfolding account_terminal account_reason
account_terminal-none fresh p h = (refl, h)
account_terminal-none stale p h = absurd (cc h)
account_terminal-none missing p h = absurd (cc h)
account_terminal-none invalid p h = absurd (cc h)
account_terminal-none skew p h = absurd (cc h)

not_taken {ℓ} :
    {A : Type ℓ} (b : Bool) (t : A) (r : Option A)
    → (if b then some t else r) ≡ none
    → (b ≡ false) × (r ≡ none)
not_taken true t r h = absurd (cc h)
not_taken false t r h = (refl, h)

pub terminal-IsReady : (i : Inputs) → terminal i ≡ none → (p : PortfolioRead) × IsReady i p
unfolding terminal IsReady
terminal-IsReady i h =
    let (gates, h1) = not_taken (not (opening_allowed i.gates_config)) _ _ h in
    let (kill, h2) = not_taken (not (is_monitoring i.kill_state)) _ _ h1 in
    let (thawed, h3) =
      not_taken (is_active_on i.margin_read.freeze i.margin_read.asof_session_date_et) _ _ h2 in
    let (status, h4) = account_terminal-none i.account.status i.portfolio h3 in
    let (p, there, live, settled) = portfolio_terminal-none i.portfolio h4 in
    (
      p,
      (
        not-false (opening_allowed i.gates_config) gates,
        monitoring-eq i.kill_state (not-false (is_monitoring i.kill_state) kill),
        thawed,
        status,
        there,
        live,
        settled,
      ),
    )

-- a stage that ends the ladder gives a reason
taken {ℓ} :
    {A : Type ℓ} (P : A → Type 0) (b : Bool) (t : A) (r : Option A) (u : A)
    → (if b then some t else r) ≡ some u
    → P t
    → ((u : A) → r ≡ some u → P u)
    → P u
taken P true t r u h first rest = subst P (of_some-eq t u h) first
taken P false t r u h first rest = rest u h

unfoldable pub SaysWhy : Terminal → Type 0
SaysWhy t = is_empty t.1 ≡ false

account_terminal-SaysWhy :
    (r : Option RiskReason) (p : Option PortfolioRead) (t : Terminal)
    → account_terminal r p ≡ some t
    → SaysWhy t
unfolding account_terminal portfolio_terminal SaysWhy
account_terminal-SaysWhy (some r) p t h = subst SaysWhy (of_some-eq _ t h) refl
account_terminal-SaysWhy none p t h = in_portfolio (portfolio_reasons p) h
  where
    in_portfolio : (rs : List RiskReason) → portfolio_terminal rs ≡ some t → SaysWhy t
    in_portfolio [] k = absurd (cc k)
    in_portfolio (r ∷ rs) k = subst SaysWhy (of_some-eq _ t k) refl

pub terminal-SaysWhy : (i : Inputs) (t : Terminal) → terminal i ≡ some t → SaysWhy t
unfolding terminal SaysWhy
terminal-SaysWhy i t h = taken SaysWhy (not (opening_allowed i.gates_config)) _ _ t h refl λ u k.
    taken SaysWhy (not (is_monitoring i.kill_state)) _ _ u k refl λ w l.
      taken SaysWhy (is_active_on i.margin_read.freeze i.margin_read.asof_session_date_et) _ _ w l
        refl (account_terminal-SaysWhy (account_reason i.account.status) i.portfolio)
