-- ===== src/Exec/Quote/Quality/Usable.antt =====
-- scripts/agent/quote_quality.py, evaluate: when a quote is good.
use fail_closed_agent.Base.{
  &&-false, ℕ, ◌+◌, ◌-◌, ◌*◌, leb, subst, ◌≤◌, ◌<◌, ◌≡◌, ◌↔◌, refl, ◌∙◌, Bool, true, false, not,
  ◌&&◌, Option, none, some, List, ◌∷◌, ◌++◌, arith, when, is_empty, is_empty-append, ltb,
}
use fail_closed_agent.Base.Int.{ℤ, pos, negsuc, ◌≤ℤ◌, leb_ℤ}
use fail_closed_agent.Base.Decimal.{Decimal, finite, infinite, nan}
use fail_closed_agent.Exec.Pricing.{whole, round_half_even}
use fail_closed_agent.Exec.Quote.Quality.Nearest.{
  IsNearest, at_most, nearest-eq, round_half_even-IsNearest,
}
use fail_closed_agent.Exec.Quote.{QuoteSnapshot}
use fail_closed_agent.Exec.Reasons.{
  Reason, quote_one_sided, quote_nonfinite, quote_nonpositive, quote_stale,
}
use fail_closed_agent.Exec.Quote.Quality.{
  is_missing, is_nonfinite, is_nonpositive, any_leg, order_reasons, prices, mid_of, spread_of,
  spread_reasons, quality_reasons, evaluate,
}

-- a finite positive number
pub IsSolid : Option Decimal → ℕ → Type 0
IsSolid leg n = (leg ≡ some (finite (pos n))) × (0 < n)

solid :
    (leg : Option Decimal)
    → is_missing leg ≡ false
    → is_nonfinite leg ≡ false
    → is_nonpositive leg ≡ false
    → (n : ℕ) × IsSolid leg n
unfolding is_missing is_nonfinite is_nonpositive IsSolid
solid none m f p = absurd (cc m)
solid (some (finite (pos n))) m f p = (n, (refl, ground arith))
solid (some (finite (negsuc n))) m f p = absurd (ground arith)
solid (some (infinite s)) m f p = absurd (cc f)
solid (some nan) m f p = absurd (cc f)

-- The spread of `b` below `a`, a whole number of hundredths of a basis point of the middle, is at most
-- `max`; the middle and then the spread are rounded to the nearest number, halves to the even one.
pub SpreadWithin : ℕ → ℕ → ℤ → Type 0
SpreadWithin b a max =
    (mid : ℕ) × (spread : ℕ) × IsNearest 2 (b + a) mid
    × IsNearest mid ((a - b) * 1000000) spread
    × (pos spread ≤ℤ max)

mid_of-IsNearest : (b a : ℕ) → IsNearest 2 (b + a) (mid_of b a)
unfolding mid_of
mid_of-IsNearest b a = round_half_even-IsNearest (b + a) 2 (ground arith)

some_middle : (b a m : ℕ) → 0 < b → b < a → 2 * (b + a) ≤ 2 * (m * 2) + 2 → 0 < m
some_middle b a m p h le = ground arith

mid_of-positive : (b a : ℕ) → 0 < b → b < a → 0 < mid_of b a
mid_of-positive b a p h =
    let (_, below) = at_most 2 (b + a) (mid_of b a) (mid_of-IsNearest b a) in
    some_middle b a (mid_of b a) p h below

spread_iff : (b a : ℕ) (max : ℤ) → 0 < b → b < a → (spread_of b a ≤ℤ max) ↔ SpreadWithin b a max
unfolding spread_of SpreadWithin
spread_iff b a max p h =
    let mid = mid_of b a in
    let middle = mid_of-IsNearest b a in
    let above_zero = mid_of-positive b a p h in
    let spread = round_half_even ((a - b) * whole) mid in
    let nearest = round_half_even-IsNearest ((a - b) * whole) mid above_zero in
    rw (below b a h) (
      λ le. (mid, spread, middle, nearest, le),
      λ (m, s, m_nearest, s_nearest, le).
          let same_mid : m ≡ mid = nearest-eq 2 (b + a) m mid (ground arith) m_nearest middle in
          let same_spread : s ≡ spread =
            nearest-eq mid ((a - b) * whole) s spread above_zero
              (subst (λ x. IsNearest x ((a - b) * whole) s) same_mid s_nearest) nearest in
          subst (λ x. pos x ≤ℤ max) same_spread le,
    )
  where
    below : (b a : ℕ) → b < a → leb b a ≡ true
    below b a h = ground arith

-- Both sides there, uncrossed and unlocked, recent, with a spread of at most `spread_max`.
pub IsGoodQuote : QuoteSnapshot → ℕ → ℤ → ℕ → Type 0
IsGoodQuote q now spread_max staleness_max =
    (b : ℕ) × (a : ℕ) × (m : ℕ) × (n : ℕ) × IsSolid q.bid b
    × IsSolid q.ask a
    × IsSolid q.bid_sz m
    × IsSolid q.ask_sz n
    × (b < a)
    × (now ≤ q.seen_at_ms + staleness_max)
    × SpreadWithin b a spread_max

any_leg-false :
    (test : Option Decimal → Bool) (q : QuoteSnapshot)
    → any_leg test q ≡ false
    → (test q.bid ≡ false)
      × (test q.ask ≡ false)
      × (test q.bid_sz ≡ false)
      × (test q.ask_sz ≡ false)
unfolding any_leg
any_leg-false test q h = ground arith

-- on positive prices, in terms of the prices
order_test :
    (b a : ℕ) → is_empty (order_reasons (some (finite (pos b))) (some (finite (pos a)))) ≡ ltb b a
unfolding order_reasons
order_test b a = ground arith

spread_test :
    (b a : ℕ) (max : ℤ)
    → 0 < b
    → 0 < a
    → is_empty (spread_reasons (prices (some (finite (pos b))) (some (finite (pos a)))) max)
      ≡ leb_ℤ (spread_of b a) max
unfolding spread_reasons prices
spread_test b a max hb ha = ground arith

tests_iff :
    (x y : Option Decimal) (b a : ℕ) (max : ℤ)
    → IsSolid x b
    → IsSolid y a
    → ((is_empty (order_reasons x y) && is_empty (spread_reasons (prices x y) max)) ≡ true)
      ↔ ((b < a) × (spread_of b a ≤ℤ max))
unfolding IsSolid
tests_iff x y b a max (ex, px) (ey, py) =
    rw (ex, ey, order_test b a, spread_test b a max px py) (λ h. ground arith, λ h. ground arith)

not_missing :
    (leg : Option Decimal) (n : ℕ)
    → IsSolid leg n
    → (is_missing leg ≡ false) × (is_nonfinite leg ≡ false) × (is_nonpositive leg ≡ false)
unfolding IsSolid is_missing is_nonfinite is_nonpositive
not_missing leg n (e, h) = rw e (refl, refl, ground arith)

pieces :
    (m f p late : Bool) (r s t u : Reason) (xs ys : List Reason)
    → is_empty (when m r ++ (when f s ++ (when p t ++ (xs ++ (when late u ++ ys)))))
      ≡ (not m && (not f && (not p && (not late && (is_empty xs && is_empty ys)))))
pieces true f p late r s t u xs ys = refl
pieces false true p late r s t u xs ys = refl
pieces false false true late r s t u xs ys = refl
pieces false false false true r s t u xs ys = is_empty-append xs (u ∷ ys) ∙ &&-false (is_empty xs)
pieces false false false false r s t u xs ys = is_empty-append xs ys

no_reason_iff :
    (q : QuoteSnapshot) (now : ℕ) (spread_max : ℤ) (staleness_max : ℕ)
    → (is_empty (quality_reasons q now spread_max staleness_max) ≡ true) ↔ (
        (any_leg is_missing q ≡ false)
        × (any_leg is_nonfinite q ≡ false)
        × (any_leg is_nonpositive q ≡ false)
        × (now ≤ q.seen_at_ms + staleness_max)
        × ((is_empty (order_reasons q.bid q.ask)
              && is_empty (spread_reasons (prices q.bid q.ask) spread_max))
            ≡ true))
unfolding quality_reasons
no_reason_iff q now spread_max staleness_max =
    rw
      (pieces (any_leg is_missing q) (any_leg is_nonfinite q) (any_leg is_nonpositive q)
        (ltb (q.seen_at_ms + staleness_max) now) quote_one_sided quote_nonfinite quote_nonpositive
        quote_stale (order_reasons q.bid q.ask) (spread_reasons (prices q.bid q.ask) spread_max))
      (λ h. ground arith, λ h. ground arith)

all-any_leg :
    (test : Option Decimal → Bool) (q : QuoteSnapshot)
    → test q.bid ≡ false
    → test q.ask ≡ false
    → test q.bid_sz ≡ false
    → test q.ask_sz ≡ false
    → any_leg test q ≡ false
unfolding any_leg
all-any_leg test q a b c d = rw (a, b, c, d) refl

of_solid : (leg : Option Decimal) (n : ℕ) → IsSolid leg n → 0 < n
unfolding IsSolid
of_solid leg n (e, p) = p

-- `evaluate` finds no fault with a quote exactly if both its sides have a finite, positive price and
-- size, the bid is below the ask, the quote is at most `staleness_max` milliseconds old, and its
-- spread over the middle, rounded to hundredths of a basis point, is at most `spread_max`.
pub evaluate_ok_iff :
    (q : QuoteSnapshot) (now : ℕ) (spread_max : ℤ) (staleness_max : ℕ)
    → ((evaluate q now spread_max staleness_max).ok ≡ true)
      ↔ IsGoodQuote q now spread_max staleness_max
unfolding evaluate IsGoodQuote
evaluate_ok_iff q now spread_max staleness_max =
    let (f, g) = no_reason_iff q now spread_max staleness_max in
    (
      λ h.
          let (m, n, p, recent, tests) = f h in
          let (m1, m2, m3, m4) = any_leg-false is_missing q m in
          let (n1, n2, n3, n4) = any_leg-false is_nonfinite q n in
          let (p1, p2, p3, p4) = any_leg-false is_nonpositive q p in
          let (b, sb) = solid q.bid m1 n1 p1 in
          let (a, sa) = solid q.ask m2 n2 p2 in
          let (x, sx) = solid q.bid_sz m3 n3 p3 in
          let (y, sy) = solid q.ask_sz m4 n4 p4 in
          let (order, spread) = (tests_iff q.bid q.ask b a spread_max sb sa).0 tests in
          let within = (spread_iff b a spread_max (of_solid q.bid b sb) order).0 spread in
          (b, a, x, y, sb, sa, sx, sy, order, recent, within),
      λ (b, a, x, y, sb, sa, sx, sy, order, recent, within).
          let spread = (spread_iff b a spread_max (of_solid q.bid b sb) order).1 within in
          let (m1, n1, p1) = not_missing q.bid b sb in
          let (m2, n2, p2) = not_missing q.ask a sa in
          let (m3, n3, p3) = not_missing q.bid_sz x sx in
          let (m4, n4, p4) = not_missing q.ask_sz y sy in
          g (
            all-any_leg is_missing q m1 m2 m3 m4,
            all-any_leg is_nonfinite q n1 n2 n3 n4,
            all-any_leg is_nonpositive q p1 p2 p3 p4,
            recent,
            (tests_iff q.bid q.ask b a spread_max sb sa).1 (order, spread),
          ),
    )
