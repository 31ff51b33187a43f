-- ===== src/Risk/Kill/Runs.antt =====
-- scripts/agent/risk/risk_kill.py: sequences of operations on the switch, among the rows that the other
-- parts of the risk tier write.
use fail_closed_agent.Base.{
  ℕ, ◌≡◌, refl, sym, ap, subst, ◌∙◌, Bool, true, false, Option, none, some, List, [], ◌∷◌, ◌++◌,
  Bool-cases, inl, inr, if◌then◌else◌, leb,
}
use fail_closed_agent.Base.Dict.{lookup}
use fail_closed_agent.Base.Sorted.{sorted}
use fail_closed_agent.Exec.Order.{OrderIntent}
use fail_closed_agent.Exec.Token.{Registry, Reading}
use fail_closed_agent.Exec.Kill.{Failure}
use fail_closed_agent.Risk.Exposure.{PositionRead}
use fail_closed_agent.Risk.Ledger.{
  KillCause, RiskEvent, kill_switch_transition, kill_retry_residual, kill_retrip, numbered,
  after_row, crash_halts,
}
use fail_closed_agent.Risk.Ledger.Replay.{fold_events, fold_sorted-numbered, rehydrate-numbered}
use fail_closed_agent.Risk.Kill.{RiskKillSwitch, FlattenReport, Evidence, new}
use fail_closed_agent.Risk.Kill.Pass.{can_retry, is_monitoring}
use fail_closed_agent.Risk.Kill.Latch.{
  World, trigger, retry_residual, flatten_now, retry_now, flatten_pass,
}
use fail_closed_agent.Risk.Kill.Rehydrate.{rehydrate, from_slice, failures_after, last_transition}
use fail_closed_agent.Risk.Kill.Memory.{
  Memory, remember, remember-append, blank, Recalls, trigger-Recalls, retry-Recalls,
}

-- An operation on the switch, or a row of another part of the risk tier.
pub data Operation : Type 0 where
  trip : KillCause → Evidence → List (ℕ × ℕ) → List PositionRead → Operation
  retry : List PositionRead → Operation
  elsewhere : RiskEvent → Operation

-- the rows that only the switch writes and that it rebuilds itself from
abbrev pub is_own : RiskEvent → Bool
is_own (kill_switch_transition t) = true
is_own (kill_retry_residual t) = true
is_own _ = false

abbrev pub after_retry {ℓ} : {B : Type ℓ} → World B → Option (FlattenReport × World B) → World B
after_retry w none = w
after_retry w (some (r, w')) = w'

-- What a journal restores of a switch: all but the last report.
unfoldable pub Restores : RiskKillSwitch → RiskKillSwitch → Type 0
Restores restored k =
    (restored.state ≡ k.state)
    × (restored.generation ≡ k.generation)
    × (restored.residual ≡ k.residual)
    × (restored.cause ≡ k.cause)
    × ((s : ℕ) → lookup s restored.residual_failures ≡ lookup s k.residual_failures)

Recalls-Restores :
    (n : ℕ) (es : List RiskEvent) (k : RiskKillSwitch)
    → Recalls (remember es blank) k
    → Restores (rehydrate (numbered n es)).0 k
unfolding Recalls Restores remember rehydrate from_slice
Recalls-Restores n es k (state, rest, generation, residual, ordered, cause, failures) =
    rw
      (
        rehydrate-numbered n es,
        fold_sorted-numbered failures_after n es [],
        fold_sorted-numbered last_transition n es none,
      )
      (ap crash_halts state ∙ rest, generation, ap (sorted leb) residual ∙ ordered, cause, failures)

elsewhere-Recalls :
    (e : RiskEvent) (m : Memory) (k : RiskKillSwitch)
    → is_own e ≡ false
    → Recalls m k
    → Recalls (remember (e ∷ []) m) k
unfolding Recalls remember fold_events after_row failures_after
elsewhere-Recalls (kill_switch_transition t) m k h r = absurd (cc h)
elsewhere-Recalls (kill_retry_residual t) m k h r = absurd (cc h)
elsewhere-Recalls _ m k h r = r

module _ {ℓ} {B : Type ℓ} (place : OrderIntent → B → Bool × B) (reading : Reading)
    (text : Failure → ℕ) (confirm_flat : ℕ → B → Option Bool × B) where
  unfoldable pub step : Operation → World B → World B
  step (trip cause e annotations positions) w =
      (trigger place reading text confirm_flat cause e annotations positions w).1
  step (retry positions) w =
      after_retry w (retry_residual place reading text confirm_flat positions w)
  step (elsewhere e) w = if is_own e then w else record w { journal = w.journal ++ e ∷ [] }

  unfoldable pub run : List Operation → World B → World B
  run [] w = w
  run (o ∷ rest) w = run rest (step o w)

  abbrev Remembered : World B → Type 0
  Remembered w = Recalls (remember w.journal blank) w.switch

  extended :
      (w : World B) (es : List RiskEvent) (k : RiskKillSwitch)
      → Recalls (remember es (remember w.journal blank)) k
      → Recalls (remember (w.journal ++ es) blank) k
  extended w es k h = subst (λ m. Recalls m k) (sym (remember-append w.journal es blank)) h

  trip-Remembered :
      (cause : KillCause) (e : Evidence) (annotations : List (ℕ × ℕ))
      (positions : List PositionRead) (w : World B)
      → Remembered w
      → Remembered (trigger place reading text confirm_flat cause e annotations positions w).1
  unfolding trigger flatten_now
  trip-Remembered cause e annotations positions w h =
      elim (Bool-cases (is_monitoring w.switch.state)) [
        | inl q ↦ rw q (
            extended w _ _ (
              trigger-Recalls cause e annotations positions
                (flatten_pass place reading text confirm_flat positions w.registry w.broker).0
                w.switch (remember w.journal blank)))
        | inr q ↦ rw q (
            extended w _ w.switch
              (elsewhere-Recalls (kill_retrip _) (remember w.journal blank) w.switch refl h))
      ]

  retry-Remembered :
      (positions : List PositionRead) (w : World B)
      → Remembered w
      → Remembered (after_retry w (retry_residual place reading text confirm_flat positions w))
  unfolding retry_residual retry_now
  retry-Remembered positions w h = elim (Bool-cases (can_retry w.switch)) [
    | inl q ↦ rw q (extended w _ _ (retry-Recalls _ _ w.switch (remember w.journal blank) q h))
    | inr q ↦ rw q h
  ]

  step-Remembered : (o : Operation) (w : World B) → Remembered w → Remembered (step o w)
  unfolding step
  step-Remembered (trip cause e annotations positions) w h =
      trip-Remembered cause e annotations positions w h
  step-Remembered (retry positions) w h = retry-Remembered positions w h
  step-Remembered (elsewhere e) w h = elim (Bool-cases (is_own e)) [
    | inl q ↦ rw q h
    | inr q ↦
        rw q (
          extended w (e ∷ []) w.switch
            (elsewhere-Recalls e (remember w.journal blank) w.switch q h))
  ]

  run-Remembered : (os : List Operation) (w : World B) → Remembered w → Remembered (run os w)
  unfolding run
  run-Remembered [] w h = h
  run-Remembered (o ∷ rest) w h = run-Remembered rest (step o w) (step-Remembered o w h)

  unfoldable pub start : Registry → B → World B
  start r b = record { switch = new; journal = []; registry = r; broker = b }

  -- After any triggers and retries, among the rows of other parts of the risk tier, the journal restores
  -- the switch: the state, the generation, the residual symbols, the cause, and the failure noted for
  -- each symbol, from whatever number the writer counts.
  pub run-Restores :
      (os : List Operation) (r : Registry) (b : B) (n : ℕ)
      → Restores (rehydrate (numbered n (run os (start r b)).journal)).0 (run os (start r b)).switch
  unfolding start remember fold_events Recalls sorted
  run-Restores os r b n =
      Recalls-Restores n (run os (start r b)).journal (run os (start r b)).switch
        (run-Remembered os (start r b) (refl, refl, refl, refl, refl, refl, λ s. refl))
