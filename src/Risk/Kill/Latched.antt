-- ===== src/Risk/Kill/Latched.antt =====
-- scripts/agent/risk/risk_kill.py: the latch is one-way, and no symbol is lost between what was flattened
-- and what is still held.
use fail_closed_agent.Base.{
  ℕ, ◌≡◌, refl, sym, ap, ◌∙◌, Bool, true, false, Option, none, some, List, [], ◌∷◌, ◌++◌,
  Bool-cases, inl, inr, leb, ◌+◌, not, ◌&&◌,
}
use fail_closed_agent.Base.Sorted.{
  sorted, member, member-sorted, member-distinct, member-minus, sorted-sorted, leb-total,
}
use fail_closed_agent.Exec.Order.{OrderIntent}
use fail_closed_agent.Exec.Token.{Registry, Reading}
use fail_closed_agent.Exec.Kill.{Failure, new as new_actuator}
use fail_closed_agent.Exec.Kill.Flatten.{place_all, trigger_flattens}
use fail_closed_agent.Risk.Exposure.{PositionRead}
use fail_closed_agent.Risk.Ledger.{
  RiskKillState, monitoring, halted, KillCause, RiskEvent, record_kill_transition, numbered,
  after_row, empty_state,
}
use fail_closed_agent.Risk.Ledger.Replay.{
  fold_events, fold_events-append, fold_sorted-numbered, rehydrate-numbered,
}
use fail_closed_agent.Risk.Kill.{RiskKillSwitch, Evidence, symbols_of, positions_of}
use fail_closed_agent.Risk.Kill.Failures.{kept}
use fail_closed_agent.Risk.Kill.Pass.{
  can_retry, is_monitoring, residual_of, begin_flatten, transition, incomplete, pass_report,
  ended_by, retried, retry_report,
}
use fail_closed_agent.Risk.Kill.Latch.{
  World, trigger, retry_residual, flatten_now, retry_now, flatten_pass,
}
use fail_closed_agent.Risk.Kill.Rehydrate.{
  rehydrate, from_slice, failures_after, last_transition, marker, transition_failures,
}
use fail_closed_agent.Risk.Kill.Runs.{Operation, trip, retry, elsewhere, is_own, step, run}

member-residual_of :
    (s : ℕ) (held flattened : List ℕ)
    → member s (residual_of held flattened) ≡ (member s held && not (member s flattened))
unfolding residual_of
member-residual_of s held flattened =
    member-sorted s _ ∙ (member-distinct s _ ∙ member-minus s held flattened)

-- Halted, in the generation and for the cause of before, with no new residual symbol.
pub Latched : RiskKillSwitch → RiskKillSwitch → Type 0
Latched k k' =
    (k'.state ≡ halted)
    × (k'.generation ≡ k.generation)
    × (k'.cause ≡ k.cause)
    × ((s : ℕ) → member s k'.residual ≡ true → member s k.residual ≡ true)

Latched-trans : (a b c : RiskKillSwitch) → Latched a b → Latched b c → Latched a c
unfolding Latched
Latched-trans a b c (_, g, q, r) (h, g', q', r') = (h, g' ∙ g, q' ∙ q, λ s m. r s (r' s m))

same-Latched : (k : RiskKillSwitch) → k.state ≡ halted → Latched k k
unfolding Latched
same-Latched k h = (h, refl, refl, λ s m. m)

retried-Latched :
    (confirmed : List ℕ) (pass : List ℕ × List (ℕ × ℕ)) (k : RiskKillSwitch)
    → Latched k (retried (retry_report confirmed pass k) k)
unfolding Latched retried retry_report
retried-Latched confirmed pass k = (
  refl,
  refl,
  refl,
  λ s m. left (member s k.residual) _ (sym (member-residual_of s k.residual _) ∙ m),
)
  where
    left : (a b : Bool) → (a && b) ≡ true → a ≡ true
    left true b h = refl
    left false b h = absurd (cc h)

not_monitoring : (k : RiskKillState) → k ≡ halted → is_monitoring k ≡ false
not_monitoring k h = ap is_monitoring h

module _ {ℓ} {B : Type ℓ} (place : OrderIntent → B → Bool × B) (reading : Reading)
    (text : Failure → ℕ) (confirm_flat : ℕ → B → Option Bool × B) where
  trip-Latched :
      (cause : KillCause) (e : Evidence) (annotations : List (ℕ × ℕ))
      (positions : List PositionRead) (w : World B)
      → w.switch.state ≡ halted
      → Latched w.switch
          (trigger place reading text confirm_flat cause e annotations positions w).1.switch
  unfolding trigger
  trip-Latched cause e annotations positions w h =
      rw (not_monitoring w.switch.state h) (same-Latched w.switch h)

  step-Latched :
      (o : Operation) (w : World B)
      → w.switch.state ≡ halted
      → Latched w.switch (step place reading text confirm_flat o w).switch
  unfolding step retry_residual retry_now
  step-Latched (trip cause e annotations positions) w h =
      trip-Latched cause e annotations positions w h
  step-Latched (retry positions) w h = elim (Bool-cases (can_retry w.switch)) [
    | inl q ↦ rw q (retried-Latched _ _ w.switch)
    | inr q ↦ rw q (same-Latched w.switch h)
  ]
  step-Latched (elsewhere e) w h = elim (Bool-cases (is_own e)) [
    | inl q ↦ rw q (same-Latched w.switch h)
    | inr q ↦ rw q (same-Latched w.switch h)
  ]

  -- A switch that is halted stays so through any triggers and retries, in the same generation and for
  -- the same cause, and no symbol becomes residual that was not.
  pub run-Latched :
      (os : List Operation) (w : World B)
      → w.switch.state ≡ halted
      → Latched w.switch (run place reading text confirm_flat os w).switch
  unfolding run Latched
  run-Latched [] w h = same-Latched w.switch h
  run-Latched (o ∷ rest) w h =
      let first = step-Latched o w h in
      let w' = step place reading text confirm_flat o w in
      Latched-trans w.switch w'.switch (run place reading text confirm_flat rest w').switch first
        (run-Latched rest w' first.0)

  pass-places :
      (positions : List PositionRead) (r : Registry) (b : B)
      → (flatten_pass place reading text confirm_flat positions r b).0.0
        ≡ (place_all place (positions_of positions) ([], [], b)).0
  unfolding flatten_pass new_actuator
  pass-places positions r b =
      ap (λ o. o.0) (trigger_flattens place reading (positions_of positions) new_actuator r b).1

  -- A trigger of a switch that monitors halts it in the next generation. Then exactly those symbols of the
  -- portfolio are residual whose closing order (a sale of all that is held, or a purchase of all that
  -- is short, placed in the order of the portfolio) the broker did not take; the report names the
  -- others as flattened.
  pub trigger-residual_iff :
      (cause : KillCause) (e : Evidence) (annotations : List (ℕ × ℕ))
      (positions : List PositionRead) (w : World B)
      → w.switch.state ≡ monitoring
      → let (report, w') =
          trigger place reading text confirm_flat cause e annotations positions w in
        let (went, _, _) = place_all place (positions_of positions) ([], [], w.broker) in
        (w'.switch.state ≡ halted)
        × (w'.switch.generation ≡ w.switch.generation + 1)
        × ((s : ℕ) → member s report.flattened ≡ member s went)
        × ((s : ℕ)
            → member s w'.switch.residual
              ≡ (member s (symbols_of positions) && not (member s went)))
  unfolding trigger flatten_now begin_flatten ended_by pass_report
  trigger-residual_iff cause e annotations positions w h =
      let went = (place_all place (positions_of positions) ([], [], w.broker)).0 in
      let pass = (flatten_pass place reading text confirm_flat positions w.registry w.broker).0.0 in
      let reported : (s : ℕ) → member s (sorted leb pass) ≡ member s went =
        λ s. member-sorted s pass ∙ ap (member s) (pass-places positions w.registry w.broker) in
      rw (ap is_monitoring h) (
        refl,
        refl,
        reported,
        λ s.
            member-residual_of s _ _
            ∙ (ap (λ b. b && not (member s (sorted leb pass)))
                  (member-sorted s (symbols_of positions))
                ∙ ap (λ b. member s (symbols_of positions) && not b) (reported s)),
      )

-- A journal that ends with the first row of a trigger, as where the process dies in the pass, restores a
-- switch that is halted in the new generation with every symbol of the portfolio as residual and no
-- failure noted, and writes the marker of an incomplete flattening unless nothing was held.
pub rehydrate-crash :
    (es : List RiskEvent) (n : ℕ) (cause : KillCause) (e : Evidence) (positions : List PositionRead)
    (k : RiskKillSwitch)
    → let (k', rows) = rehydrate (numbered n (es ++ (begin_flatten cause e positions k).1 ∷ [])) in
      (k'.state ≡ halted)
      × (k'.generation ≡ k.generation + 1)
      × (k'.residual ≡ sorted leb (symbols_of positions))
      × (k'.cause ≡ some cause)
      × (k'.residual_failures ≡ [])
      × (rows ≡ incomplete (k.generation + 1) [] (sorted leb (symbols_of positions)))
unfolding rehydrate from_slice begin_flatten transition record_kill_transition fold_events after_row
    failures_after transition_failures kept marker
rehydrate-crash es n cause e positions k =
    let row = (begin_flatten cause e positions k).1 in
    rw
      (
        rehydrate-numbered n (es ++ row ∷ []),
        fold_sorted-numbered failures_after n (es ++ row ∷ []) [],
        fold_sorted-numbered last_transition n (es ++ row ∷ []) none,
        fold_events-append after_row es (row ∷ []) empty_state,
        fold_events-append failures_after es (row ∷ []) [],
        fold_events-append last_transition es (row ∷ []) none,
        sorted-sorted leb leb-total (symbols_of positions),
      )
      (
        refl,
        refl,
        sorted-sorted leb leb-total (symbols_of positions),
        refl,
        refl,
        ap (λ xs. incomplete (k.generation + 1) [] xs)
            (sorted-sorted leb leb-total (symbols_of positions)),
      )
