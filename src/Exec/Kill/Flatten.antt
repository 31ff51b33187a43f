-- ===== src/Exec/Kill/Flatten.antt =====
-- What a trigger of the kill switch does: kill_switch.py through the token chokepoint.
use fail_closed_agent.Base.{
  ℕ, suc, ◌≡◌, ◌≢◌, inl, inr, refl, ap, subst, ◌∙◌, Bool, true, false, none, some, List, [], ◌∷◌,
  ◌++◌, arith, Bool-cases, if◌then◌else◌,
}
use fail_closed_agent.Base.Int.{ℤ, pos, negsuc, eqb_ℤ, ltb_ℤ, ◌+ℤ◌, ◌-ℤ◌}
use fail_closed_agent.Exec.Order.{buy, sell, IntentId, OrderIntent, accepts}
use fail_closed_agent.Exec.Token.{
  Registry, Reading, Position, reduce_only_token, minted, mint_reduce_only_token,
}
use fail_closed_agent.Exec.Token.Reduce.{filled, Decreases, mint_reduce_iff}
use fail_closed_agent.Exec.Broker.Chokepoint.{reduce_never_blocked, submit_order-passed}
use fail_closed_agent.Exec.Broker.{placed, refused_by_broker}
use fail_closed_agent.Exec.Kill.{
  halted, flattening, Failure, broker_raised, KillSwitch, flatten_intent, flatten_one, flatten_loop,
  trigger, submit_minted, note,
}

-- The order for a held position is acceptable and brings it exactly to flat.
pub flatten_intent-flat :
    (p : Position)
    → p.qty ≢ pos 0
    → (accepts (flatten_intent p) ≡ true)
      × (filled p.qty (flatten_intent p).side (flatten_intent p).qty ≡ pos 0)
unfolding flatten_intent ◌+ℤ◌ ◌-ℤ◌
flatten_intent-flat p h = ground arith

flatten_intent-Decreases :
    (p : Position)
    → p.qty ≢ pos 0
    → ((flatten_intent p).is_reducing ≡ true)
      × ((flatten_intent p).symbol ≡ p.symbol)
      × Decreases p.qty (filled p.qty (flatten_intent p).side (flatten_intent p).qty)
unfolding flatten_intent ◌+ℤ◌ ◌-ℤ◌
flatten_intent-Decreases p h = ground arith

-- The order that takes a holding to nothing: a sale of what is held, or a purchase of what is short.
abbrev pub closing_order : ℕ → ℤ → OrderIntent
closing_order symbol (pos n) = record {
  symbol = symbol;
  side = sell;
  qty = pos n;
  limit_price = none;
  is_reducing = true;
  intent_id = IntentId.flatten symbol;
}
closing_order symbol (negsuc n) = record {
  symbol = symbol;
  side = buy;
  qty = pos (suc n);
  limit_price = none;
  is_reducing = true;
  intent_id = IntentId.flatten symbol;
}

is_long : (n : ℕ) → eqb_ℤ (pos n) (pos 0) ≡ false → ltb_ℤ (pos 0) (pos n) ≡ true
is_long n h = ground arith

is_short : (n : ℕ) → ltb_ℤ (pos 0) (negsuc n) ≡ false
is_short n = ground arith

closes_holding :
    (symbol : ℕ) (qty : ℤ)
    → eqb_ℤ qty (pos 0) ≡ false
    → flatten_intent (record { symbol = symbol; qty = qty }) ≡ closing_order symbol qty
unfolding flatten_intent
closes_holding symbol (pos n) h = rw (is_long n h) refl
closes_holding symbol (negsuc n) h = rw (is_short n) refl

flatten_intent-closes :
    (p : Position) → eqb_ℤ p.qty (pos 0) ≡ false → flatten_intent p ≡ closing_order p.symbol p.qty
flatten_intent-closes p h = closes_holding p.symbol p.qty h

-- The actuator without tokens: each held position's closing order is placed, in order, and the
-- symbol noted under what came of it.
abbrev pub Outcome {ℓ} : Type ℓ → Type ℓ
Outcome B = List ℕ × List (ℕ × Failure) × B

abbrev noted {ℓ} : {B : Type ℓ} → ℕ → List ℕ → List (ℕ × Failure) → Bool × B → Outcome B
noted s flattened failed (true, b) = (flattened ++ s ∷ [], failed, b)
noted s flattened failed (false, b) = (flattened, failed ++ (s, broker_raised) ∷ [], b)

module _ {ℓ} {B : Type ℓ} (place : OrderIntent → B → Bool × B) where
  unfoldable pub place_one : Position → Outcome B → Outcome B
  place_one p (flattened, failed, b) =
      if eqb_ℤ p.qty (pos 0)
      then (flattened, failed, b)
      else noted p.symbol flattened failed (place (closing_order p.symbol p.qty) b)

  unfoldable pub place_all : List Position → Outcome B → Outcome B
  place_all [] o = o
  place_all (p ∷ ps) o = place_all ps (place_one p o)

  abbrev pub outcome : KillSwitch × Registry × B → Outcome B
  outcome (k, r, b) = (k.flattened, k.failed, b)

  module _ (reading : Reading) where
    note-noted :
        (s : ℕ) (k : KillSwitch) (x : Bool × B) (r : Registry)
        → outcome (note (if x.0 then placed else refused_by_broker) s k, r, x.1)
          ≡ noted s k.flattened k.failed x
    note-noted s k (true, b) r = refl
    note-noted s k (false, b) r = refl

    submit_minted-places :
        (p : Position) (k : KillSwitch) (r : Registry) (b : B) {n : ℕ} {r' : Registry}
        → mint_reduce_only_token (some p) (flatten_intent p) r ≡ minted n r'
        → outcome (submit_minted place reading (minted n r') p k r b)
          ≡ noted p.symbol k.flattened k.failed (place (flatten_intent p) b)
    unfolding submit_minted
    submit_minted-places p k r b {n} {r'} e =
        let (result, broker) =
          submit_order-passed place (flatten_intent p) (reduce_only_token n) reading r' b
            (reduce_never_blocked p (flatten_intent p) reading r e) in
        rw (result, broker) (note-noted p.symbol k (place (flatten_intent p) b) r)

    flatten_one-places :
        (p : Position) (k : KillSwitch) (r : Registry) (b : B)
        → outcome (flatten_one place reading p k r b) ≡ place_one p (outcome (k, r, b))
    unfolding flatten_one place_one
    flatten_one-places p k r b = elim (Bool-cases (eqb_ℤ p.qty (pos 0))) [
      | inl flat ↦ rw flat refl
      | inr held ↦
          let (accepted, closes) = flatten_intent-flat p (ground arith) in
          let (n, r', e) =
            (mint_reduce_iff p (flatten_intent p) r accepted).1
              (flatten_intent-Decreases p (ground arith)) in
          rw (held, accepted, e)
            (subst
              (λ o.
                outcome (submit_minted place reading (minted n r') p k r b)
                ≡ noted p.symbol k.flattened k.failed (place o b))
              (flatten_intent-closes p held) (submit_minted-places p k r b e))
    ]

    flatten_loop-places :
        (ps : List Position) (k : KillSwitch) (r : Registry) (b : B)
        → outcome (flatten_loop place reading ps k r b) ≡ place_all ps (outcome (k, r, b))
    unfolding flatten_loop place_all
    flatten_loop-places [] k r b = refl
    flatten_loop-places (p ∷ ps) k r b =
        let (k', r', b') = flatten_one place reading p k r b in
        flatten_loop-places ps k' r' b' ∙ ap (place_all ps) (flatten_one-places p k r b)

    -- A trigger halts, and it does what the actuator does without tokens: every position that is
    -- not flat has the order that closes it placed, in order (a sale of all that is held, or a
    -- purchase of all that is short), and is listed as flattened if the broker took the order and as
    -- failed if it raised; no token check stops any of them.
    pub trigger_flattens :
        (ps : List Position) (k : KillSwitch) (r : Registry) (b : B)
        → let (k', r', b') = trigger place reading ps k r b in
          (k'.state ≡ halted) × (outcome (k', r', b') ≡ place_all ps (k.flattened, [], b))
    unfolding trigger
    trigger_flattens ps k r b =
        (refl, flatten_loop-places ps (record k { state = flattening; failed = [] }) r b)
