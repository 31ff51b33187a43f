-- ===== src/Risk/Kill/Failures/Lookups.antt =====
-- scripts/agent/risk/risk_kill.py: what the dicts of failures say of one symbol.
use fail_closed_agent.Base.{
  ℕ, ◌≡◌, refl, ap, true, false, Option, none, some, List, [], ◌∷◌, arith, if◌then◌else◌, ◌==◌,
  Bool-cases, inl, inr, ◌||◌,
}
use fail_closed_agent.Base.Dict.{Dict, lookup, insert, erase, lookup-insert, lookup-erase}
use fail_closed_agent.Base.Sorted.{member, member-same}
use fail_closed_agent.Risk.Kill.Failures.{noted, kept, picked, pick, cleared, updated}

pub lookup-kept :
    (s : ℕ) (residual : List ℕ) (d : Dict ℕ)
    → lookup s (kept residual d) ≡ (if member s residual then lookup s d else none)
unfolding lookup kept
lookup-kept s residual [] = ground arith
lookup-kept s residual ((k, v) ∷ d) =
    ground (arith, lookup-kept s residual d, member-same s k residual)

pub updated-same :
    (s : ℕ) (pairs : List (ℕ × ℕ)) (d e : Dict ℕ)
    → lookup s d ≡ lookup s e
    → lookup s (updated pairs d) ≡ lookup s (updated pairs e)
unfolding updated
updated-same s [] d e h = h
updated-same s ((k, v) ∷ rest) d e h =
    updated-same s rest (insert k v d) (insert k v e)
      (rw (lookup-insert k s v d, lookup-insert k s v e, h) refl)

pub cleared-same :
    (s : ℕ) (symbols : List ℕ) (d e : Dict ℕ)
    → lookup s d ≡ lookup s e
    → lookup s (cleared symbols d) ≡ lookup s (cleared symbols e)
unfolding cleared
cleared-same s [] d e h = h
cleared-same s (k ∷ rest) d e h =
    cleared-same s rest (erase k d) (erase k e)
      (rw (lookup-erase k s d, lookup-erase k s e, h) refl)

noted_one :
    (s k v : ℕ) (residual : List ℕ) (d : Dict ℕ)
    → member s residual ≡ true
    → lookup s (if member k residual then insert k v d else d) ≡ lookup s (insert k v d)
noted_one s k v residual d h = elim (Bool-cases (member k residual)) [
  | inl e ↦ rw e refl
  | inr e ↦ rw (e, lookup-insert k s v d) (ground (arith, member-same s k residual))
]

noted_none :
    (s k v : ℕ) (residual : List ℕ) (d : Dict ℕ)
    → member s residual ≡ false
    → lookup s (if member k residual then insert k v d else d) ≡ lookup s d
noted_none s k v residual d h = elim (Bool-cases (member k residual)) [
  | inl e ↦ rw (e, lookup-insert k s v d) (ground (arith, member-same s k residual))
  | inr e ↦ rw e refl
]

pub lookup-noted :
    (s : ℕ) (pairs : List (ℕ × ℕ)) (residual : List ℕ) (d : Dict ℕ)
    → lookup s (noted pairs residual d)
      ≡ (if member s residual then lookup s (updated pairs d) else lookup s d)
unfolding noted updated
lookup-noted s [] residual d = ground arith
lookup-noted s ((k, v) ∷ rest) residual d = elim (Bool-cases (member s residual)) [
  | inl e ↦
      rw (lookup-noted s rest residual (if member k residual then insert k v d else d), e)
        (updated-same s rest _ (insert k v d) (noted_one s k v residual d e))
  | inr e ↦
      rw (lookup-noted s rest residual (if member k residual then insert k v d else d), e)
        (noted_none s k v residual d e)
]

lookup-same : (s k : ℕ) (d : Dict ℕ) → (s == k) ≡ true → lookup s d ≡ lookup k d
lookup-same s k d h = ap (λ z. lookup z d) (ground arith)

lookup-pick :
    (s k : ℕ) (o : Option ℕ) (below : Dict ℕ) (residual : List ℕ) (d : Dict ℕ)
    → lookup k d ≡ o
    → lookup s below ≡ (if member s residual then lookup s d else none)
    → lookup s (pick k o below) ≡ (if s == k || member s residual then lookup s d else none)
unfolding lookup pick
lookup-pick s k none below residual d e h = ground (arith, lookup-same s k d)
lookup-pick s k (some v) below residual d e h = ground (arith, lookup-same s k d)

pub lookup-picked :
    (s : ℕ) (residual : List ℕ) (d : Dict ℕ)
    → lookup s (picked residual d) ≡ (if member s residual then lookup s d else none)
unfolding lookup picked
lookup-picked s [] d = refl
lookup-picked s (k ∷ rest) d =
    lookup-pick s k (lookup k d) (picked rest d) rest d refl (lookup-picked s rest d)
