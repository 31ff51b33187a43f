-- ===== src/Risk/Pdt.antt =====
-- scripts/agent/risk/pdt_compat.py, LegacyPdtCompatMode: what the broker enforces of the day-trading rule,
-- from the account's flag and from its rejections, which latch. A text is its code points; `lower`
-- is Python's `str.lower`. The ledger is there, and what it records is a list. The evidence of a read,
-- which the risk engine does not look at, is left out.
pub mod Latch
mod Tests
use fail_closed_agent.Base.{
  ℕ, Bool, true, false, not, ◌&&◌, ◌||◌, Option, none, some, List, [], ◌∷◌, ◌++◌, any, ◌==◌,
  if◌then◌else◌,
}
use fail_closed_agent.Risk.Engine.Stages.{
  PdtState, unknown, not_enforcing, enforcing_legacy_pdt, PdtRead,
}
use fail_closed_agent.Risk.Ledger.{
  PdtEvidence, account_flag, broker_rejection, RiskEvent, pdt_regime_transition, PdtSlice,
}

abbrev pub pdt_rejection_codes : List ℕ
pdt_rejection_codes = 40310100 ∷ []

abbrev pub pdt_rejection_markers : List (List ℕ)
pdt_rejection_markers =
    (112 ∷ 97 ∷ 116 ∷ 116 ∷ 101 ∷ 114 ∷ 110 ∷ 32 ∷ 100 ∷ 97 ∷ 121 ∷ 32 ∷ 116 ∷ 114 ∷ 97 ∷ 100 ∷ [])
    ∷ (100 ∷ 97 ∷ 121 ∷ 32 ∷ 116 ∷ 114 ∷ 97 ∷ 100 ∷ 105 ∷ 110 ∷ 103 ∷ 32 ∷ 98 ∷ 117 ∷ 121 ∷ 105
        ∷ 110 ∷ 103 ∷ 32 ∷ 112 ∷ 111 ∷ 119 ∷ 101 ∷ 114 ∷ [])
    ∷ (100 ∷ 97 ∷ 121 ∷ 45 ∷ 116 ∷ 114 ∷ 97 ∷ 100 ∷ 101 ∷ [])
    ∷ []

pub record BrokerRejectionObservation : Type 0 where
  pub code : Option ℕ
  pub message : List ℕ

-- The fields of an account read that are observed.
pub record AccountFlags : Type 0 where
  pub pattern_day_trader : Option Bool
  pub daytrade_count : Option ℕ

pub record PdtMode : Type 0 where
  pub state : PdtState
  pub evidence : Option PdtEvidence
  pub latched : Bool
  pub flags : AccountFlags

abbrev pub starts_with : List ℕ → List ℕ → Bool
starts_with [] text = true
starts_with (c ∷ cs) [] = false
starts_with (c ∷ cs) (d ∷ ds) = c == d && starts_with cs ds

-- `marker in text`
abbrev pub contains : List ℕ → List ℕ → Bool
contains marker [] = starts_with marker []
contains marker (c ∷ cs) = starts_with marker (c ∷ cs) || contains marker cs

abbrev pub has_code : Option ℕ → Bool
has_code none = false
has_code (some c) = any pdt_rejection_codes (λ k. k == c)

abbrev pub same_state : PdtState → PdtState → Bool
same_state unknown unknown = true
same_state not_enforcing not_enforcing = true
same_state enforcing_legacy_pdt enforcing_legacy_pdt = true
same_state _ _ = false

abbrev evidence_for : PdtState → PdtEvidence → Option PdtEvidence
evidence_for enforcing_legacy_pdt e = some e
evidence_for _ e = none

-- The mode and the rows of the ledger.
abbrev pub Journaled : Type 0
Journaled = PdtMode × List RiskEvent

unfoldable pub transition : PdtState → PdtEvidence → Option ℕ → Journaled → Journaled
transition to_state evidence code (m, rows) = (
  record m { state = to_state; evidence = evidence_for to_state evidence },
  rows
      ++ pdt_regime_transition record {
        from_state = m.state;
        to_state = to_state;
        evidence = evidence;
        rejection_code = code;
        pattern_day_trader = m.flags.pattern_day_trader;
        daytrade_count = m.flags.daytrade_count;
      }
        ∷ [],
)

abbrev unseen : PdtMode
unseen = record {
  state = unknown;
  evidence = none;
  latched = false;
  flags = record { pattern_day_trader = none; daytrade_count = none };
}

latch : Option ℕ → Journaled → Journaled
latch code (m, rows) =
    transition enforcing_legacy_pdt broker_rejection code (record m { latched = true }, rows)

-- a mode made over the slice of a journal that was rehydrated
pub seeded : PdtSlice → List RiskEvent → Journaled
seeded slice rows = if slice.rejection_latched then latch none (unseen, rows) else (unseen, rows)

target : Option Bool → PdtState
target none = unknown
target (some true) = enforcing_legacy_pdt
target (some false) = not_enforcing

moved : PdtState → Journaled → Journaled
moved to_state (m, rows) =
    if same_state to_state m.state
    then (m, rows)
    else transition to_state account_flag none (m, rows)

pub observe_account : AccountFlags → Journaled → Journaled
observe_account flags (m, rows) =
    if m.latched
    then (record m { flags = flags }, rows)
    else moved (target flags.pattern_day_trader) (record m { flags = flags }, rows)

pub read : PdtMode → PdtRead
read m = record { state = m.state; rejection_latched = m.latched }

module _ (lower : List ℕ → List ℕ) where
  unfoldable pub is_pdt_rejection : BrokerRejectionObservation → Bool
  is_pdt_rejection obs =
      has_code obs.code || any pdt_rejection_markers (λ marker. contains marker (lower obs.message))

  pub observe_broker_rejection : BrokerRejectionObservation → Journaled → Journaled
  observe_broker_rejection obs (m, rows) =
      if is_pdt_rejection obs && not m.latched then latch obs.code (m, rows) else (m, rows)
