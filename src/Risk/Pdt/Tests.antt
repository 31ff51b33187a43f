-- ===== src/Risk/Pdt/Tests.antt =====
-- A witness of the theorem on the day-trading latch, and runs of the test on a rejection.
use fail_closed_agent.Base.{◌≡◌, ◌⊎◌, refl, ℕ, true, false, ◌||◌, some, none, List, [], ◌∷◌, any}
use fail_closed_agent.Risk.Engine.Stages.{enforcing_legacy_pdt}
use fail_closed_agent.Risk.Ledger.{RiskEvent, account_snapshot, numbered, rehydrate_risk_state}
use fail_closed_agent.Risk.Pdt.{BrokerRejectionObservation, seeded, is_pdt_rejection}
use fail_closed_agent.Risk.Pdt.Latch.{
  Observation, account, rejection, run, rejects, run-latched_iff,
}

abbrev lower : List ℕ → List ℕ
lower text = text

abbrev coded : BrokerRejectionObservation
coded = record { code = some 40310100; message = [] }

abbrev other : BrokerRejectionObservation
other = record { code = some 1; message = 97 ∷ 98 ∷ [] }

-- "x day-trade", without a code
abbrev told : BrokerRejectionObservation
told = record {
  code = none;
  message = 120 ∷ 32 ∷ 100 ∷ 97 ∷ 121 ∷ 45 ∷ 116 ∷ 114 ∷ 97 ∷ 100 ∷ 101 ∷ [];
}

rejected :
    (is_pdt_rejection lower coded ≡ true)
    × (is_pdt_rejection lower told ≡ true)
    × (is_pdt_rejection lower other ≡ false)
unfolding is_pdt_rejection any
rejected = (refl, refl, refl)

abbrev observations : List Observation
observations =
    rejection other
    ∷ rejection told
    ∷ account (record { pattern_day_trader = some false; daytrade_count = some 0 })
    ∷ []

abbrev journal : List RiskEvent
journal = account_snapshot ∷ []

run-latched_iff_example :
    let before = (rehydrate_risk_state (numbered 0 journal)).pdt in
    let (m, after) = run lower observations (seeded before journal) in
    (m.latched ≡ (before.rejection_latched || any observations (rejects lower)))
    × ((rehydrate_risk_state (numbered 0 after)).pdt.rejection_latched ≡ m.latched)
    × ((m.latched ≡ false) ⊎ (m.state ≡ enforcing_legacy_pdt))
run-latched_iff_example = run-latched_iff lower journal observations
