-- ===== src/Risk/Ledger/Replay.antt =====
-- scripts/agent/risk/risk_ledger.py: a fold over the rows that a writer numbered is a fold over what it
-- recorded, and a latch once recorded stays.
use fail_closed_agent.Base.{ℕ, ◌+◌, ◌≡◌, refl, ap, List, [], ◌∷◌, ◌++◌, arith}
use fail_closed_agent.Base.Sorted.{sorted, insert}
use fail_closed_agent.Risk.Ledger.{
  RiskEvent, by_seq, fold_rows, numbered, rehydrate_risk_state, after_row, settled, empty_state,
}

unfoldable pub fold_events {ℓ} : {S : Type ℓ} → (RiskEvent → S → S) → List RiskEvent → S → S
fold_events f [] s = s
fold_events f (e ∷ rest) s = fold_events f rest (f e s)

pub fold_events-append {ℓ} :
    {S : Type ℓ} (f : RiskEvent → S → S) (es ds : List RiskEvent) (s : S)
    → fold_events f (es ++ ds) s ≡ fold_events f ds (fold_events f es s)
unfolding fold_events
fold_events-append f [] ds s = refl
fold_events-append f (e ∷ es) ds s = fold_events-append f es ds (f e s)

insert-numbered :
    (n : ℕ) (e : RiskEvent) (es : List RiskEvent)
    → insert by_seq (n, e) (numbered (n + 1) es) ≡ (n, e) ∷ numbered (n + 1) es
unfolding insert numbered
insert-numbered n e [] = refl
insert-numbered n e (d ∷ es) = ground arith

sorted-numbered : (n : ℕ) (es : List RiskEvent) → sorted by_seq (numbered n es) ≡ numbered n es
unfolding sorted numbered
sorted-numbered n [] = refl
sorted-numbered n (e ∷ es) = rw (sorted-numbered (n + 1) es) (insert-numbered n e es)

fold_rows-numbered {ℓ} :
    {S : Type ℓ} (f : RiskEvent → S → S) (n : ℕ) (es : List RiskEvent) (s : S)
    → fold_rows f (numbered n es) s ≡ fold_events f es s
unfolding fold_rows numbered fold_events
fold_rows-numbered f n [] s = refl
fold_rows-numbered f n (e ∷ es) s = fold_rows-numbered f (n + 1) es (f e s)

pub fold_sorted-numbered {ℓ} :
    {S : Type ℓ} (f : RiskEvent → S → S) (n : ℕ) (es : List RiskEvent) (s : S)
    → fold_rows f (sorted by_seq (numbered n es)) s ≡ fold_events f es s
fold_sorted-numbered f n es s = rw (sorted-numbered n es) (fold_rows-numbered f n es s)

pub rehydrate-numbered :
    (n : ℕ) (es : List RiskEvent)
    → rehydrate_risk_state (numbered n es) ≡ settled (fold_events after_row es empty_state)
unfolding rehydrate_risk_state
rehydrate-numbered n es = ap settled (fold_sorted-numbered after_row n es empty_state)
