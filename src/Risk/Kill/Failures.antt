-- ===== src/Risk/Kill/Failures.antt =====
-- scripts/agent/risk/risk_kill.py: the dicts of the failures of the symbols that are still held.
pub mod Lookups
use fail_closed_agent.Base.{ℕ, Option, none, some, List, [], ◌∷◌, if◌then◌else◌}
use fail_closed_agent.Base.Sorted.{member}
use fail_closed_agent.Base.Dict.{Dict, lookup, insert, erase}

-- `{symbol: reason for symbol, reason in pairs if symbol in residual}`, on top of `d`
unfoldable pub noted : List (ℕ × ℕ) → List ℕ → Dict ℕ → Dict ℕ
noted [] residual d = d
noted ((symbol, reason) ∷ rest) residual d =
    noted rest residual (if member symbol residual then insert symbol reason d else d)

-- `{symbol: reason for symbol, reason in d.items() if symbol in residual}`
unfoldable pub kept : List ℕ → Dict ℕ → Dict ℕ
kept residual [] = []
kept residual ((symbol, reason) ∷ d) =
    let rest = kept residual d in if member symbol residual then (symbol, reason) ∷ rest else rest

pick : ℕ → Option ℕ → Dict ℕ → Dict ℕ
pick symbol none rest = rest
pick symbol (some reason) rest = (symbol, reason) ∷ rest

-- `{symbol: d[symbol] for symbol in residual if symbol in d}`
unfoldable pub picked : List ℕ → Dict ℕ → Dict ℕ
unfolding pick
picked [] d = []
picked (symbol ∷ rest) d = pick symbol (lookup symbol d) (picked rest d)

unfoldable pub cleared : List ℕ → Dict ℕ → Dict ℕ
cleared [] d = d
cleared (symbol ∷ rest) d = cleared rest (erase symbol d)

-- `failures[symbol] = reason` for each pair
unfoldable pub updated : List (ℕ × ℕ) → Dict ℕ → Dict ℕ
updated [] d = d
updated ((symbol, reason) ∷ rest) d = updated rest (insert symbol reason d)
