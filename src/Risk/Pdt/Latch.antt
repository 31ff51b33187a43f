-- ===== src/Risk/Pdt/Latch.antt =====
-- scripts/agent/risk/pdt_compat.py: the latch of a rejection, in the run and in the journal.
use fail_closed_agent.Base.{
  ℕ, ◌≡◌, ◌⊎◌, inl, inr, refl, sym, ap, ◌∙◌, Bool, true, false, not, ◌&&◌, ◌||◌, Option, none, List,
  [], ◌∷◌, any, Bool-cases, if◌then◌else◌, subst, if_true, if_false, &&-false,
}
use fail_closed_agent.Risk.Engine.Stages.{PdtState, enforcing_legacy_pdt}
use fail_closed_agent.Risk.Ledger.{
  PdtEvidence, account_flag, broker_rejection, is_rejection, RiskEvent, after_row, empty_state,
  numbered, rehydrate_risk_state,
}
use fail_closed_agent.Risk.Ledger.Replay.{fold_events, fold_events-append, rehydrate-numbered}
use fail_closed_agent.Risk.Pdt.{
  BrokerRejectionObservation, AccountFlags, Journaled, transition, latch, seeded, unseen, moved,
  target, same_state, observe_account, is_pdt_rejection, observe_broker_rejection,
}

pub data Observation : Type 0 where
  account : AccountFlags → Observation
  rejection : BrokerRejectionObservation → Observation

-- the latch that the rows record
abbrev recorded : List RiskEvent → Bool
recorded rows = (fold_events after_row rows empty_state).pdt.rejection_latched

-- The mode and the rows agree on the latch, and a latched mode enforces.
Agrees : Bool → Journaled → Type 0
Agrees latched (m, rows) =
    (m.latched ≡ latched)
    × (recorded rows ≡ latched)
    × ((latched ≡ false) ⊎ (m.state ≡ enforcing_legacy_pdt))

recorded-transition :
    (to_state : PdtState) (e : PdtEvidence) (code : Option ℕ) (j : Journaled)
    → recorded (transition to_state e code j).1 ≡ (recorded j.1 || is_rejection e)
unfolding transition after_row fold_events
recorded-transition to_state e code (m, rows) =
    ap (λ s. s.pdt.rejection_latched) (fold_events-append after_row rows _ empty_state)

or_true : (b : Bool) → (b || true) ≡ true
or_true true = refl
or_true false = refl

latch-Agrees : (code : Option ℕ) (j : Journaled) → Agrees true (latch code j)
unfolding latch Agrees transition
latch-Agrees code (m, rows) = (
  refl,
  recorded-transition enforcing_legacy_pdt broker_rejection code (record m { latched = true }, rows)
      ∙ or_true (recorded rows),
  inr refl,
)

moved-Agrees :
    (to_state : PdtState) (j : Journaled) → Agrees false j → Agrees false (moved to_state j)
unfolding moved Agrees transition
moved-Agrees to_state (m, rows) (a, b, c) = elim (Bool-cases (same_state to_state m.state)) [
  | inl e ↦ rw e (a, b, c)
  | inr e ↦ rw e (
    a,
    recorded-transition to_state account_flag none (m, rows) ∙ or_both (recorded rows) b,
    inl refl,
  )
]
  where
    or_both : (b : Bool) → b ≡ false → (b || false) ≡ false
    or_both b h = rw h refl

or_false_right : (b : Bool) → (b || false) ≡ b
or_false_right true = refl
or_false_right false = refl

or_assoc : (a b c : Bool) → ((a || b) || c) ≡ (a || (b || c))
or_assoc true b c = refl
or_assoc false b c = refl

and_true : (b : Bool) → (b && true) ≡ b
and_true true = refl
and_true false = refl

chosen :
    (test b : Bool) (j k : Journaled)
    → test ≡ b
    → Agrees true j
    → Agrees false k
    → Agrees b (if test then j else k)
chosen test true j k e h g = subst (Agrees true) (sym (if_true _ _ e)) h
chosen test false j k e h g = subst (Agrees false) (sym (if_false _ _ e)) g

restored_latch :
    (rows : List RiskEvent)
    → (rehydrate_risk_state (numbered 0 rows)).pdt.rejection_latched ≡ recorded rows
restored_latch rows = ap (λ s. s.pdt.rejection_latched) (rehydrate-numbered 0 rows)

module _ (lower : List ℕ → List ℕ) where
  pub step : Observation → Journaled → Journaled
  step (account flags) j = observe_account flags j
  step (rejection obs) j = observe_broker_rejection lower obs j

  pub run : List Observation → Journaled → Journaled
  run [] j = j
  run (o ∷ rest) j = run rest (step o j)

  abbrev pub rejects : Observation → Bool
  rejects (account flags) = false
  rejects (rejection obs) = is_pdt_rejection lower obs

  step-Agrees :
      (o : Observation) (latched : Bool) (j : Journaled)
      → Agrees latched j
      → Agrees (latched || rejects o) (step o j)
  unfolding step observe_account observe_broker_rejection Agrees
  step-Agrees (account flags) true (m, rows) (a, b, c) =
      subst (Agrees true) (sym (if_true _ _ a)) (a, b, c)
  step-Agrees (account flags) false (m, rows) (a, b, c) =
      subst (Agrees false) (sym (if_false _ _ a)) (
        moved-Agrees (target flags.pattern_day_trader) (record m { flags = flags }, rows) (a, b, c))
  step-Agrees (rejection obs) true (m, rows) (a, b, c) =
      subst (Agrees true)
        (sym (
          if_false _ _ (
            ap (λ l. is_pdt_rejection lower obs && not l) a
            ∙ &&-false (is_pdt_rejection lower obs))))
        (a, b, c)
  step-Agrees (rejection obs) false (m, rows) (a, b, c) =
      chosen (is_pdt_rejection lower obs && not m.latched) (is_pdt_rejection lower obs)
        (latch obs.code (m, rows)) (m, rows)
        (ap (λ l. is_pdt_rejection lower obs && not l) a ∙ and_true (is_pdt_rejection lower obs))
        (latch-Agrees obs.code (m, rows)) (a, b, c)

  run-Agrees :
      (os : List Observation) (latched : Bool) (j : Journaled)
      → Agrees latched j
      → Agrees (latched || any os rejects) (run os j)
  unfolding run any
  run-Agrees [] latched j h = subst (λ l. Agrees l j) (sym (or_false_right latched)) h
  run-Agrees (o ∷ rest) latched j h =
      subst (λ l. Agrees l (run rest (step o j))) (or_assoc latched (rejects o) (any rest rejects))
        (run-Agrees rest (latched || rejects o) (step o j) (step-Agrees o latched j h))

  seeded-Agrees :
      (rows : List RiskEvent) (b : Bool)
      → recorded rows ≡ b
      → Agrees b (seeded (rehydrate_risk_state (numbered 0 rows)).pdt rows)
  unfolding seeded Agrees
  seeded-Agrees rows true e =
      subst (Agrees true) (sym (if_true _ _ (restored_latch rows ∙ e)))
        (latch-Agrees none (unseen, rows))
  seeded-Agrees rows false e =
      chosen _ false (latch none (unseen, rows)) (unseen, rows) (restored_latch rows ∙ e)
        (latch-Agrees none (unseen, rows)) (refl, e, inl refl)

  -- A mode made over a journal, whatever it holds, and then any observations: the mode is latched exactly if
  -- the journal said so or a rejection of the day-trading rule was observed, what the journal
  -- then restores is the same latch, and a latched mode enforces the rule, whatever the account's flag says.
  pub run-latched_iff :
      (rows : List RiskEvent) (os : List Observation)
      → let before = (rehydrate_risk_state (numbered 0 rows)).pdt in
        let (m, after) = run os (seeded before rows) in
        (m.latched ≡ (before.rejection_latched || any os rejects))
        × ((rehydrate_risk_state (numbered 0 after)).pdt.rejection_latched ≡ m.latched)
        × ((m.latched ≡ false) ⊎ (m.state ≡ enforcing_legacy_pdt))
  unfolding Agrees
  run-latched_iff rows os =
      let (m, after) = run os (seeded (rehydrate_risk_state (numbered 0 rows)).pdt rows) in
      let (a, b, c) =
        run-Agrees os (recorded rows) (seeded (rehydrate_risk_state (numbered 0 rows)).pdt rows)
          (seeded-Agrees rows (recorded rows) refl) in
      (
        a ∙ ap (λ l. l || any os rejects) (sym (restored_latch rows)),
        restored_latch after ∙ (b ∙ sym a),
        elim c [ inl e ↦ inl (a ∙ e) | inr e ↦ inr e ],
      )
