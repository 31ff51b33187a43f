-- ===== src/Exec/Quote/Quality.antt =====
-- scripts/agent/quote_quality.py, evaluate: the filters on one quote. A spread counts hundredths of a
-- basis point; the context of 28 digits is taken as exact, so a quotient is rounded once.
pub mod Nearest
pub mod Usable
mod Tests
use fail_closed_agent.Base.{
  ℕ, ◌+◌, ◌-◌, ◌*◌, Bool, true, false, not, ◌&&◌, ◌||◌, Option, none, some, List, [], ◌∷◌, ◌++◌,
  ltb, leb, ◌==◌, if◌then◌else◌, when, is_empty,
}
use fail_closed_agent.Base.Int.{ℤ, pos, negsuc, ltb_ℤ, leb_ℤ, eqb_ℤ, sub_ℕ, ◌-ℤ◌}
use fail_closed_agent.Base.Decimal.{Decimal, finite}
use fail_closed_agent.Base.Ranked.{sorted_set}
use fail_closed_agent.Exec.Quote.{QuoteSnapshot}
use fail_closed_agent.Exec.Reasons.{
  Reason, rank, quote_one_sided, quote_nonfinite, quote_nonpositive, quote_crossed, quote_locked,
  quote_stale, spread_too_wide,
}
use fail_closed_agent.Exec.Pricing.{whole, round_half_even}

pub record Quality : Type 0 where
  pub ok : Bool
  pub reasons : List Reason
  pub mid : Option ℕ
  pub spread_bps : Option ℤ
  pub age_ms : ℤ

pub is_missing : Option Decimal → Bool
is_missing none = true
is_missing (some d) = false

pub is_nonfinite : Option Decimal → Bool
is_nonfinite none = false
is_nonfinite (some (finite x)) = false
is_nonfinite (some _) = true

pub is_nonpositive : Option Decimal → Bool
is_nonpositive (some (finite x)) = leb_ℤ x (pos 0)
is_nonpositive _ = false

any_leg : (Option Decimal → Bool) → QuoteSnapshot → Bool
any_leg test q = test q.bid || test q.ask || test q.bid_sz || test q.ask_sz

order_reasons : Option Decimal → Option Decimal → List Reason
order_reasons (some (finite b)) (some (finite a)) =
    if ltb_ℤ a b then quote_crossed ∷ [] else if eqb_ℤ b a then quote_locked ∷ [] else []
order_reasons _ _ = []

-- both prices where they are positive and finite
prices : Option Decimal → Option Decimal → Option (ℕ × ℕ)
prices (some (finite (pos b))) (some (finite (pos a))) =
    if ltb 0 b && ltb 0 a then some (b, a) else none
prices _ _ = none

pub mid_of : ℕ → ℕ → ℕ
mid_of b a = round_half_even (b + a) 2

pub spread_of : ℕ → ℕ → ℤ
spread_of b a =
    if leb b a
    then pos (round_half_even ((a - b) * whole) (mid_of b a))
    else pos 0 -ℤ pos (round_half_even ((b - a) * whole) (mid_of b a))

spread_reasons : Option (ℕ × ℕ) → ℤ → List Reason
spread_reasons none max = []
spread_reasons (some (b, a)) max = when (ltb_ℤ max (spread_of b a)) spread_too_wide

mid_field : Option (ℕ × ℕ) → Option ℕ
mid_field none = none
mid_field (some (b, a)) = some (mid_of b a)

spread_field : Option (ℕ × ℕ) → Option ℤ
spread_field none = none
spread_field (some (b, a)) = some (spread_of b a)

quality_reasons : QuoteSnapshot → ℕ → ℤ → ℕ → List Reason
quality_reasons q now spread_max staleness_max =
    when (any_leg is_missing q) quote_one_sided
    ++ (when (any_leg is_nonfinite q) quote_nonfinite
        ++ (when (any_leg is_nonpositive q) quote_nonpositive
            ++ (order_reasons q.bid q.ask
                ++ (when (ltb (q.seen_at_ms + staleness_max) now) quote_stale
                    ++ spread_reasons (prices q.bid q.ask) spread_max))))

pub evaluate : QuoteSnapshot → ℕ → ℤ → ℕ → Quality
evaluate q now spread_max staleness_max = record {
  ok = is_empty (quality_reasons q now spread_max staleness_max);
  reasons = sorted_set rank (quality_reasons q now spread_max staleness_max);
  mid = mid_field (prices q.bid q.ask);
  spread_bps = spread_field (prices q.bid q.ask);
  age_ms = sub_ℕ now q.seen_at_ms;
}
