-- ===== src/Market/State/Book.antt =====
-- A book strictly inside its band: the market_state.py checks `two_sided` and `luld_band_check` as
-- statements about prices.
use fail_closed_agent.Base.{◌≡◌, refl, sym, ◌∙◌, true, false, Option, some, arith}
use fail_closed_agent.Base.Int.{ℤ, pos, ◌<ℤ◌}
use fail_closed_agent.Base.Decimal.{Decimal, finite, is_finite}
use fail_closed_agent.Market.State.{
  Nbbo, LuldBand, both_sides, two_sided, luld_band_check, at_edge, band_edge,
}

-- The book has both sides with positive sizes, is neither locked nor crossed, and lies strictly
-- inside the band.
pub record InsideBand (n : Nbbo) (band : LuldBand) : Type 0 where
  pub bid : ℤ
  pub ask : ℤ
  pub bid_size : ℤ
  pub ask_size : ℤ
  pub lower : ℤ
  pub upper : ℤ
  pub has_bid : n.best_bid ≡ some (finite bid)
  pub has_ask : n.best_ask ≡ some (finite ask)
  pub has_bid_size : n.bid_sz ≡ some (finite bid_size)
  pub has_ask_size : n.ask_sz ≡ some (finite ask_size)
  pub has_lower : band.lower_px ≡ finite lower
  pub has_upper : band.upper_px ≡ finite upper
  pub sized : (pos 0 <ℤ bid_size) × (pos 0 <ℤ ask_size)
  pub ordered : (lower <ℤ bid) × (bid <ℤ ask) × (ask <ℤ upper)

finite_of : (d : Decimal) → is_finite d ≡ true → (x : ℤ) × (d ≡ finite x)
finite_of (finite x) h = (x, refl)
finite_of d h = absurd (cc h)

both_sides_parts :
    (b a x y : Option Decimal)
    → both_sides b a x y ≡ true
    → (bid ask bid_size ask_size : ℤ) × (b ≡ some (finite bid))
      × (a ≡ some (finite ask))
      × (x ≡ some (finite bid_size))
      × (y ≡ some (finite ask_size))
      × (bid <ℤ ask)
      × (pos 0 <ℤ bid_size)
      × (pos 0 <ℤ ask_size)
both_sides_parts (some (finite b)) (some (finite a)) (some (finite x)) (some (finite y)) h =
    (b, a, x, y, refl, refl, refl, refl, ground arith, ground arith, ground arith)
both_sides_parts b a x y h = absurd (ground arith)

luld_band_check_parts :
    (band : LuldBand) (p : ℤ)
    → luld_band_check (finite p) (some band) ≡ true
    → (lower upper : ℤ) × (band.lower_px ≡ finite lower)
      × (band.upper_px ≡ finite upper)
      × (lower <ℤ p)
      × (p <ℤ upper)
unfolding luld_band_check
luld_band_check_parts band p h =
    let (lower, el) = finite_of band.lower_px (ground arith) in
    let (upper, eu) = finite_of band.upper_px (ground arith) in
    (lower, upper, el, eu, ground arith, ground arith)

finite_same : {x y : ℤ} → finite x ≡ finite y → x ≡ y
finite_same e = cc

-- The two Boolean checks together put the book inside the band.
pub InsideBand_of :
    (n : Nbbo) (band : LuldBand)
    → two_sided n ≡ true
    → band_edge (some n) (some band) ≡ false
    → InsideBand n band
unfolding two_sided band_edge at_edge
InsideBand_of n band sided inside =
    let (b, a, x, y, eb, ea, ex, ey, ordered, bs, as_) =
      both_sides_parts n.best_bid n.best_ask n.bid_sz n.ask_sz sided in
    let (l, u, el, eu, lb, bu) = luld_band_check_parts band b (ground arith) in
    let (l', u', el', eu', la, au) = luld_band_check_parts band a (ground arith) in
    record {
      bid = b;
      ask = a;
      bid_size = x;
      ask_size = y;
      lower = l;
      upper = u;
      has_bid = eb;
      has_ask = ea;
      has_bid_size = ex;
      has_ask_size = ey;
      has_lower = el;
      has_upper = eu;
      sized = (bs, as_);
      ordered = (lb, ordered, ground (arith, finite_same (sym eu ∙ eu')));
    }

-- A book inside its band passes both checks.
pub InsideBand_passes :
    (n : Nbbo) (band : LuldBand)
    → InsideBand n band
    → (two_sided n ≡ true) × (band_edge (some n) (some band) ≡ false)
unfolding two_sided band_edge at_edge luld_band_check
InsideBand_passes n band h = ground arith
