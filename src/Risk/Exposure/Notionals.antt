-- ===== src/Risk/Exposure/Notionals.antt =====
-- scripts/agent/risk/exposure.py, leg_cap_notional: a leg with a price counts at its limit or more.
use fail_closed_agent.Base.{ℕ, ◌≡◌, inl, inr, refl, false, Option, none, some, arith, Bool-cases}
use fail_closed_agent.Base.Int.{ℤ, ◌≤ℤ◌, ◌*ℤ◌}
use fail_closed_agent.Exec.Preflight.Inputs.{Leg}
use fail_closed_agent.Risk.Exposure.{
  Mark, Notional, priced, unpriceable, mark_mismatch, is_unpriceable, leg_cap_notional,
  limit_notional, priced_notional, marked_price, is_mismatch,
}

-- the notional of a leg with a price, where its mark is its own
unfoldable pub IsCounted : Leg → Notional → Type 0
IsCounted leg (priced n used) =
    (limit : ℤ) × (price : ℤ) × (leg.limit_price ≡ some limit)
    × (limit ≤ℤ price)
    × (n ≡ leg.qty *ℤ price)
IsCounted leg unpriceable = ⊥
IsCounted leg mark_mismatch = Unit

marked_price-le :
    (limit : ℤ) (mark : Option Mark) (now : ℕ) → limit ≤ℤ (marked_price limit mark now).0
marked_price-le limit none now = ground arith
marked_price-le limit (some m) now = ground arith

limit-IsCounted :
    (leg : Leg) (limit : Option ℤ) (mark : Option Mark) (now : ℕ)
    → leg.limit_price ≡ limit
    → is_unpriceable limit ≡ false
    → IsCounted leg (limit_notional leg limit mark now)
unfolding limit_notional priced_notional is_unpriceable IsCounted
limit-IsCounted leg none mark now e h = absurd (cc h)
limit-IsCounted leg (some l) mark now e h =
    rw h (l, (marked_price l mark now).0, e, marked_price-le l mark now, refl)

pub leg-IsCounted :
    (leg : Leg) (mark : Option Mark) (now : ℕ)
    → is_unpriceable leg.limit_price ≡ false
    → IsCounted leg (leg_cap_notional leg mark now)
unfolding leg_cap_notional IsCounted
leg-IsCounted leg mark now h = elim (Bool-cases (is_mismatch leg mark)) [
  | inl e ↦ rw e tt
  | inr e ↦ rw e (limit-IsCounted leg leg.limit_price mark now refl h)
]
