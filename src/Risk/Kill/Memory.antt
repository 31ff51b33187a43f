-- ===== src/Risk/Kill/Memory.antt =====
-- scripts/agent/risk/risk_kill.py: what the rows of a journal say of the switch, row by row.
use fail_closed_agent.Base.{
  ℕ, ◌≡◌, refl, sym, ◌∙◌, Bool, true, Option, none, List, [], ◌∷◌, ◌++◌, leb, Bool-cases, inl, inr,
  is_empty, not, ◌||◌, ◌&&◌, subst,
}
use fail_closed_agent.Base.Dict.{Dict, lookup}
use fail_closed_agent.Base.Sorted.{
  sorted, sorted-sorted, leb-total, leb_pair, leb_pair-total, distinct,
}
use fail_closed_agent.Risk.Ledger.{
  RiskKillState, monitoring, flattening, halted, KillCause, RiskEvent, record_kill_transition,
  record_kill_retry_residual, record_kill_flatten_incomplete, KillTransition, RiskState, after_row,
  empty_state, crash_halts,
}
use fail_closed_agent.Risk.Ledger.Replay.{fold_events, fold_events-append}
use fail_closed_agent.Risk.Exposure.{PositionRead}
use fail_closed_agent.Risk.Kill.{RiskKillSwitch, Evidence}
use fail_closed_agent.Risk.Kill.Failures.{kept, noted, picked, updated, cleared}
use fail_closed_agent.Risk.Kill.Failures.Lookups.{
  lookup-kept, lookup-noted, lookup-picked, updated-same, cleared-same,
}
use fail_closed_agent.Risk.Kill.Pass.{
  Pass, begin_flatten, transition, incomplete, pass_report, ended_by, end_rows, retry_report,
  retried, retry_row, residual_of, can_retry, is_halted,
}
use fail_closed_agent.Risk.Kill.Rehydrate.{
  failures_after, transition_failures, last_transition, cause_in,
}

-- The state that the three loops of `rehydrate` hold.
pub record Memory : Type 0 where
  pub risk : RiskState
  pub failures : Dict ℕ
  pub last : Option KillTransition

unfoldable pub remember : List RiskEvent → Memory → Memory
remember es m = record {
  risk = fold_events after_row es m.risk;
  failures = fold_events failures_after es m.failures;
  last = fold_events last_transition es m.last;
}

abbrev pub blank : Memory
blank = record { risk = empty_state; failures = []; last = none }

pub remember-append :
    (es ds : List RiskEvent) (m : Memory) → remember (es ++ ds) m ≡ remember ds (remember es m)
unfolding remember
remember-append es ds m =
    rw
      (
        fold_events-append after_row es ds m.risk,
        fold_events-append failures_after es ds m.failures,
        fold_events-append last_transition es ds m.last,
      )
      refl

-- The memory is that of a switch at rest.
unfoldable pub Recalls : Memory → RiskKillSwitch → Type 0
Recalls m k =
    (m.risk.kill.state ≡ k.state)
    × (crash_halts k.state ≡ k.state)
    × (m.risk.kill.generation ≡ k.generation)
    × (m.risk.kill.residual ≡ k.residual)
    × (sorted leb k.residual ≡ k.residual)
    × (cause_in m.last ≡ k.cause)
    × ((s : ℕ) → lookup s m.failures ≡ lookup s k.residual_failures)

remember-incomplete :
    (generation : ℕ) (failed : List (ℕ × ℕ)) (residual : List ℕ) (m : Memory)
    → remember (incomplete generation failed residual) m ≡ m
unfolding remember fold_events record_kill_flatten_incomplete after_row failures_after
remember-incomplete generation failed residual m =
    elim (Bool-cases (not (is_empty failed) || not (is_empty residual))) [
      | inl e ↦ rw e refl
      | inr e ↦ rw e refl
    ]

sorted-residual_of :
    (held flattened : List ℕ) → sorted leb (residual_of held flattened) ≡ residual_of held flattened
unfolding residual_of
sorted-residual_of held flattened = sorted-sorted leb leb-total _

kept-noted :
    (s : ℕ) (pairs : List (ℕ × ℕ)) (residual : List ℕ)
    → lookup s (kept residual (updated pairs [])) ≡ lookup s (noted pairs residual [])
unfolding lookup
kept-noted s pairs residual =
    rw (lookup-kept s residual (updated pairs []), lookup-noted s pairs residual []) refl

kept-picked :
    (s : ℕ) (pairs : List (ℕ × ℕ)) (symbols residual : List ℕ) (d e : Dict ℕ)
    → lookup s d ≡ lookup s e
    → lookup s (kept residual (updated pairs (cleared symbols d)))
      ≡ lookup s (picked residual (updated pairs (cleared symbols e)))
kept-picked s pairs symbols residual d e h =
    rw
      (
        lookup-kept s residual (updated pairs (cleared symbols d)),
        lookup-picked s residual (updated pairs (cleared symbols e)),
        updated-same s pairs (cleared symbols d) (cleared symbols e) (cleared-same s symbols d e h),
      )
      refl

-- the rows of a trigger, whatever came before
pub trigger-Recalls :
    (cause : KillCause) (e : Evidence) (annotations : List (ℕ × ℕ)) (positions : List PositionRead)
    (pass : Pass) (k : RiskKillSwitch) (m : Memory)
    → Recalls
        (remember
          ((begin_flatten cause e positions k).1
            ∷ end_rows cause e annotations
                (pass_report cause pass (begin_flatten cause e positions k).0))
          m)
        (ended_by
          (pass_report cause pass (begin_flatten cause e positions k).0)
          (begin_flatten cause e positions k).0)
unfolding begin_flatten transition record_kill_transition end_rows pass_report ended_by remember
    fold_events after_row failures_after Recalls transition_failures
trigger-Recalls cause e annotations positions pass k m =
    let (begun, row) = begin_flatten cause e positions k in
    let r = pass_report cause pass begun in
    let last =
      transition flattening halted cause r.generation e r.flattened r.failed r.residual
        annotations in
    subst (λ x. Recalls x (ended_by r begun))
      (sym (remember-incomplete r.generation r.failed r.residual (remember (row ∷ last ∷ []) m)))
      (
        refl,
        refl,
        refl,
        sorted-residual_of begun.residual r.flattened,
        sorted-residual_of begun.residual r.flattened,
        refl,
        λ s.
            rw
              (
                sorted-residual_of begun.residual r.flattened,
                sorted-sorted leb_pair leb_pair-total pass.1,
              )
              (kept-noted s r.failed r.residual),
      )

legal_state : (k : RiskKillState) (b : Bool) → (is_halted k && not b) ≡ true → k ≡ halted
legal_state halted b h = refl
legal_state monitoring b h = absurd (cc h)
legal_state flattening b h = absurd (cc h)

pub retry-Recalls :
    (confirmed : List ℕ) (pass : Pass) (k : RiskKillSwitch) (m : Memory)
    → can_retry k ≡ true
    → Recalls m k
    → Recalls
        (remember (retry_row (retry_report confirmed pass k) k ∷ []) m)
        (retried (retry_report confirmed pass k) k)
unfolding retry_row retry_report retried record_kill_retry_residual remember fold_events after_row
    failures_after Recalls can_retry
retry-Recalls confirmed pass k m legal
      (state, rest, generation, residual, ordered, cause, failures) =
    let r = retry_report confirmed pass k in
    (
      state ∙ legal_state k.state (is_empty k.residual) legal,
      refl,
      refl,
      sorted-residual_of k.residual r.flattened,
      sorted-residual_of k.residual r.flattened,
      cause,
      λ s.
          rw
            (
              sorted-residual_of k.residual r.flattened,
              sorted-sorted leb_pair leb_pair-total pass.1,
              sorted-sorted leb leb-total (distinct (pass.0 ++ confirmed)),
            )
            (kept-picked s r.failed r.flattened r.residual m.failures k.residual_failures
              (failures s)),
    )
