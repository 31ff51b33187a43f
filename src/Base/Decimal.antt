-- ===== src/Base/Decimal.antt =====
-- Python's `Decimal` where a value may be no number: a finite value counts the smallest unit of its
-- kind (so comparisons are exact), and the special values are kept apart.
use fail_closed_agent.Base.{Bool, true, false}
use fail_closed_agent.Base.Int.{ℤ, pos, ltb_ℤ}

pub data Decimal : Type 0 where
  finite : ℤ → Decimal
  infinite : Bool → Decimal
  nan : Decimal

abbrev pub is_finite : Decimal → Bool
is_finite (finite x) = true
is_finite _ = false

-- `a < b`. The code asks only after `is_finite`; elsewhere the answer here is false.
abbrev pub ltb_decimal : Decimal → Decimal → Bool
ltb_decimal (finite a) (finite b) = ltb_ℤ a b
ltb_decimal _ _ = false

-- `0 < a`
abbrev pub is_positive : Decimal → Bool
is_positive a = ltb_decimal (finite (pos 0)) a
