-- ===== src/Risk/Loss/Rehydrate.antt =====
-- scripts/agent/risk/loss_limits.py: the rows that observe writes, and rehydrate.
use fail_closed_agent.Base.{
  ℕ, ◌≡◌, refl, sym, ap, ◌∙◌, Bool, true, Option, none, some, List, [], ◌∷◌, ◌++◌, when, Bool-cases,
  inl, inr, if◌then◌else◌,
}
use fail_closed_agent.Base.Int.{ℤ, ltb_ℤ}
use fail_closed_agent.Risk.Account.{AccountRead, BrokerAccountRead}
use fail_closed_agent.Risk.Loss.{
  Caps, LossMonitor, new, raised, observe, observe_fresh, observe_all, has_fresh_status,
}
use fail_closed_agent.Risk.Ledger.{
  RiskEvent, loss_hwm_update, Row, numbered, rehydrate_risk_state, after_row, empty_state,
  RiskState,
}
use fail_closed_agent.Risk.Ledger.Replay.{fold_events, fold_events-append, rehydrate-numbered}

-- `self._hwm is None or equity > self._hwm`
is_new_high : Option ℤ → ℤ → Bool
is_new_high none equity = true
is_new_high (some h) equity = ltb_ℤ h equity

high_rows : Option BrokerAccountRead → ℕ → Option ℤ → List RiskEvent
high_rows none date hwm = []
high_rows (some read) date hwm = when (is_new_high hwm read.equity) (
    loss_hwm_update record {
      session_date_et = date;
      hwm_equity = read.equity;
      equity = read.equity;
      account_snapshot_id = read.account_snapshot_id;
    })

pub observe_rows : AccountRead → ℕ → LossMonitor → List RiskEvent
observe_rows account date m =
    if has_fresh_status account.status then high_rows account.read date m.hwm else []

-- the rows of several reads, one after the other
pub observe_all_rows : Caps → ℕ → List AccountRead → LossMonitor → List RiskEvent
observe_all_rows caps date [] m = []
observe_all_rows caps date (account ∷ rest) m =
    observe_rows account date m ++ observe_all_rows caps date rest (observe caps account date m).1

pub rehydrate : List Row → LossMonitor
rehydrate rows = record new { hwm = (rehydrate_risk_state rows).hwm_equity }

-- the mark that the rows record
abbrev restored_mark : RiskState → List RiskEvent → Option ℤ
restored_mark s rows = (fold_events after_row rows s).hwm_equity

restored_mark-high_rows :
    (read : BrokerAccountRead) (date : ℕ) (hwm : Option ℤ) (s : RiskState)
    → s.hwm_equity ≡ hwm
    → restored_mark s (high_rows (some read) date hwm) ≡ some (raised hwm read.equity)
unfolding high_rows is_new_high raised fold_events after_row
restored_mark-high_rows read date none s e = refl
restored_mark-high_rows read date (some h) s e = elim (Bool-cases (ltb_ℤ h read.equity)) [
  | inl b ↦ rw b refl
  | inr b ↦ rw b e
]

fresh_read_restored :
    (caps : Caps) (read : Option BrokerAccountRead) (date : ℕ) (m : LossMonitor) (s : RiskState)
    → s.hwm_equity ≡ m.hwm
    → restored_mark s (high_rows read date m.hwm) ≡ (observe_fresh caps read date m).1.hwm
unfolding observe_fresh high_rows fold_events
fresh_read_restored caps none date m s e = e
fresh_read_restored caps (some read) date m s e = restored_mark-high_rows read date m.hwm s e

restored_mark-observe_rows :
    (caps : Caps) (account : AccountRead) (date : ℕ) (m : LossMonitor) (s : RiskState)
    → s.hwm_equity ≡ m.hwm
    → restored_mark s (observe_rows account date m) ≡ (observe caps account date m).1.hwm
unfolding observe_rows observe fold_events
restored_mark-observe_rows caps account date m s e =
    elim (Bool-cases (has_fresh_status account.status)) [
      | inl b ↦ rw b (fresh_read_restored caps account.read date m s e)
      | inr b ↦ rw b e
    ]

restored_mark-observe_all_rows :
    (caps : Caps) (date : ℕ) (accounts : List AccountRead) (m : LossMonitor) (s : RiskState)
    → s.hwm_equity ≡ m.hwm
    → restored_mark s (observe_all_rows caps date accounts m)
      ≡ (observe_all caps date accounts m).hwm
unfolding observe_all_rows observe_all fold_events
restored_mark-observe_all_rows caps date [] m s e = e
restored_mark-observe_all_rows caps date (account ∷ rest) m s e =
    ap (λ t. t.hwm_equity) (fold_events-append after_row (observe_rows account date m) _ s)
    ∙ restored_mark-observe_all_rows caps date rest (observe caps account date m).1
        (fold_events after_row (observe_rows account date m) s)
        (restored_mark-observe_rows caps account date m s e)

-- Whatever a journal holds, a monitor that is rehydrated from it and then observes any reads has the mark that
-- the journal, with the rows that it wrote, restores.
pub rehydrate-observe_all :
    (caps : Caps) (date : ℕ) (accounts : List AccountRead) (rows : List RiskEvent)
    → let m = rehydrate (numbered 0 rows) in
      (rehydrate (numbered 0 (rows ++ observe_all_rows caps date accounts m))).hwm
      ≡ (observe_all caps date accounts m).hwm
unfolding rehydrate
rehydrate-observe_all caps date accounts rows =
    let m = rehydrate (numbered 0 rows) in
    ap (λ s. s.hwm_equity) (rehydrate-numbered 0 (rows ++ observe_all_rows caps date accounts m))
    ∙ (ap (λ s. s.hwm_equity)
          (fold_events-append after_row rows (observe_all_rows caps date accounts m) empty_state)
        ∙ restored_mark-observe_all_rows caps date accounts m
            (fold_events after_row rows empty_state)
            (sym (ap (λ s. s.hwm_equity) (rehydrate-numbered 0 rows))))
