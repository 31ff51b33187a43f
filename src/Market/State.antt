-- ===== src/Market/State.antt =====
-- scripts/agent/market_state.py: the pure tradability decider. Out-of-vocabulary members cannot be
-- written down here, so only the guards on data remain as errors.
mod Book
pub mod Clear
pub mod Blocked
mod Tests
use fail_closed_agent.Base.{
  ℕ, Bool, true, false, not, ◌&&◌, ◌||◌, Option, none, some, List, [], ◌∷◌, ◌++◌, ◌==◌,
  if◌then◌else◌, ltb,
}
use fail_closed_agent.Base.Decimal.{Decimal, is_finite, is_positive, ltb_decimal}
use fail_closed_agent.Base.Ranked.{sorted_set, has}

pub data SessionPhase : Type 0 where
  pre rth post closed auction unknown : SessionPhase

pub data SessionState : Type 0 where
  pre rth post closed auction halted unknown : SessionState

pub data HaltState : Type 0 where
  no_halt halted paused_luld resuming unknown : HaltState

pub data LuldState : Type 0 where
  normal limit paused unknown : LuldState

pub data SsrState : Type 0 where
  inactive active unknown : SsrState

pub data Tradability : Type 0 where
  tradable reduce_only not_tradable : Tradability

-- The blocker codes; `cache_stale_safe_default` is the cache's.
pub data Blocker : Type 0 where
  ca_blackout ca_frozen cache_stale_safe_default calendar_unknown extended_hours halt luld_band_edge
        luld_band_unknown luld_limit luld_paused no_two_sided_nbbo session_auction session_closed :
      Blocker

-- The place of a code in the order of the texts.
abbrev pub blocker_rank : Blocker → ℕ
blocker_rank ca_blackout = 0
blocker_rank ca_frozen = 1
blocker_rank cache_stale_safe_default = 2
blocker_rank calendar_unknown = 3
blocker_rank extended_hours = 4
blocker_rank halt = 5
blocker_rank luld_band_edge = 6
blocker_rank luld_band_unknown = 7
blocker_rank luld_limit = 8
blocker_rank luld_paused = 9
blocker_rank no_two_sided_nbbo = 10
blocker_rank session_auction = 11
blocker_rank session_closed = 12

pub record LuldBand : Type 0 where
  pub lower_px : Decimal
  pub upper_px : Decimal

pub record Nbbo : Type 0 where
  pub symbol : ℕ
  pub best_bid : Option Decimal
  pub best_ask : Option Decimal
  pub bid_sz : Option Decimal
  pub ask_sz : Option Decimal

pub record StatusFlags : Type 0 where
  pub symbol : ℕ
  pub halt : HaltState
  pub luld : LuldState
  pub luld_band : Option LuldBand
  pub ssr : SsrState

pub record TradabilityInputs : Type 0 where
  pub symbol : ℕ
  pub instrument_id : ℕ
  pub session_date_et : ℕ
  pub session_phase : SessionPhase
  pub status : StatusFlags
  pub nbbo : Option Nbbo
  pub ca_blackout : Bool
  pub frozen : Bool

pub record Verdict : Type 0 where
  pub symbol : ℕ
  pub instrument_id : ℕ
  pub session_state : SessionState
  pub tradability : Tradability
  pub halt : HaltState
  pub luld : LuldState
  pub ssr : SsrState
  pub two_sided_nbbo : Bool
  pub short_allowed : Bool
  pub reasons : List Blocker
  pub ca_blackout : Bool
  pub session_date_et : ℕ

pub data MarketStateError : Type 0 where
  auction_phase status_symbol_mismatch nbbo_symbol_mismatch : MarketStateError

pub data Decision : Type 0 where
  decided : Verdict → Decision
  fatal : MarketStateError → Decision

-- `Nbbo.two_sided`, on the four legs
abbrev both_sides : Option Decimal → Option Decimal → Option Decimal → Option Decimal → Bool
both_sides (some bid) (some ask) (some bid_sz) (some ask_sz) =
    (is_finite bid && is_finite ask && is_finite bid_sz && is_finite ask_sz)
    && (is_positive bid_sz && is_positive ask_sz && ltb_decimal bid ask)
both_sides _ _ _ _ = false

pub two_sided : Nbbo → Bool
two_sided n = both_sides n.best_bid n.best_ask n.bid_sz n.ask_sz

-- `inputs.nbbo is not None and inputs.nbbo.two_sided`
pub two_sided_book : Option Nbbo → Bool
unfolding two_sided
two_sided_book none = false
two_sided_book (some n) = two_sided n

pub severity : Tradability → ℕ
severity tradable = 0
severity reduce_only = 1
severity not_tradable = 2

pub merge_severity : Tradability → Tradability → Tradability
unfolding severity
merge_severity a b = if ltb (severity a) (severity b) then b else a

-- The accumulator of `decide`: the verdict so far and the codes in the order they came.
abbrev Accumulated : Type 0
Accumulated = Tradability × List Blocker

tighten : Tradability → Blocker → Accumulated → Accumulated
unfolding merge_severity
tighten to reason (t, reasons) = (
  merge_severity t to,
  if has blocker_rank reason reasons then reasons else reasons ++ reason ∷ [],
)

phase_to_session_state : SessionPhase → SessionState
phase_to_session_state SessionPhase.pre = SessionState.pre
phase_to_session_state SessionPhase.rth = SessionState.rth
phase_to_session_state SessionPhase.post = SessionState.post
phase_to_session_state SessionPhase.closed = SessionState.closed
phase_to_session_state SessionPhase.auction = SessionState.auction
phase_to_session_state SessionPhase.unknown = SessionState.unknown

abbrev is_tradable : Tradability → Bool
is_tradable tradable = true
is_tradable _ = false

abbrev is_inactive : SsrState → Bool
is_inactive inactive = true
is_inactive _ = false

pub build_verdict : TradabilityInputs → SessionState → Accumulated → Verdict
build_verdict inputs session_state (t, reasons) = record {
  symbol = inputs.symbol;
  instrument_id = inputs.instrument_id;
  session_state = session_state;
  tradability = t;
  halt = inputs.status.halt;
  luld = inputs.status.luld;
  ssr = inputs.status.ssr;
  two_sided_nbbo = two_sided_book inputs.nbbo;
  short_allowed = is_tradable t && is_inactive inputs.status.ssr;
  reasons = sorted_set blocker_rank reasons;
  ca_blackout = inputs.ca_blackout;
  session_date_et = inputs.session_date_et;
}

-- `luld_band_check`: strictly inside a band with finite edges; no band is a violation
pub luld_band_check : Decimal → Option LuldBand → Bool
luld_band_check price none = false
luld_band_check price (some band) =
    (is_finite price && is_finite band.lower_px && is_finite band.upper_px)
    && (ltb_decimal band.lower_px price && ltb_decimal price band.upper_px)

-- one turn of the loop over the two prices of step 7
pub at_edge : Option Decimal → LuldBand → Bool
at_edge none band = false
at_edge (some price) band = not (luld_band_check price (some band))

pub band_edge : Option Nbbo → Option LuldBand → Bool
band_edge none _ = false
band_edge (some n) none = false
band_edge (some n) (some band) = at_edge n.best_bid band || at_edge n.best_ask band

abbrev is_extended : SessionPhase → Bool
is_extended SessionPhase.pre = true
is_extended SessionPhase.post = true
is_extended _ = false

abbrev is_limit : LuldState → Bool
is_limit limit = true
is_limit _ = false

-- steps 6 to 11; `OPEN_CLOSE_BUFFER_S` is the constant 0, so step 10 is inert
pub after_band : TradabilityInputs → SessionState → Accumulated → Verdict
after_band i session_state a =
    let limited = if is_limit i.status.luld then tighten reduce_only luld_limit a else a in
    let edged =
      if band_edge i.nbbo i.status.luld_band
      then tighten reduce_only luld_band_edge limited
      else limited in
    let sided =
      if two_sided_book i.nbbo then edged else tighten not_tradable no_two_sided_nbbo edged in
    let hours =
      if is_extended i.session_phase then tighten reduce_only extended_hours sided else sided in
    build_verdict i session_state hours

abbrev is_rth : SessionPhase → Bool
is_rth SessionPhase.rth = true
is_rth _ = false

abbrev normal_or_limit : LuldState → Bool
normal_or_limit normal = true
normal_or_limit limit = true
normal_or_limit _ = false

abbrev has_band : Option LuldBand → Bool
has_band none = false
has_band (some band) = true

-- step 5b
after_halt : TradabilityInputs → SessionState → Accumulated → Verdict
after_halt i session_state a =
    if is_rth i.session_phase && normal_or_limit i.status.luld && not (has_band i.status.luld_band)
    then build_verdict i SessionState.halted (tighten not_tradable luld_band_unknown a)
    else after_band i session_state a

-- the first half of step 5
halt_step : HaltState → SessionState × Accumulated → SessionState × Accumulated
unfolding tighten
halt_step no_halt (s, a) = (s, a)
halt_step resuming (s, a) = (SessionState.auction, tighten not_tradable session_auction a)
halt_step _ (s, a) = (SessionState.halted, tighten not_tradable halt a)

-- the second half of step 5
luld_step : LuldState → SessionState × Accumulated → SessionState × Accumulated
unfolding tighten
luld_step paused (s, a) = (SessionState.halted, tighten not_tradable luld_paused a)
luld_step LuldState.unknown (s, a) = (SessionState.halted, tighten not_tradable luld_paused a)
luld_step _ (s, a) = (s, a)

abbrev is_interlocked : SessionState → Bool
is_interlocked SessionState.halted = true
is_interlocked SessionState.auction = true
is_interlocked _ = false

after_phase : TradabilityInputs → Accumulated → Verdict
after_phase i a =
    let (s, b) =
      luld_step i.status.luld
        (halt_step i.status.halt (phase_to_session_state i.session_phase, a)) in
    if is_interlocked s then build_verdict i s b else after_halt i s b

-- steps 3 and 4
phase_step : SessionPhase → TradabilityInputs → Accumulated → Verdict
phase_step SessionPhase.unknown i a =
    build_verdict i SessionState.unknown (tighten not_tradable calendar_unknown a)
phase_step SessionPhase.closed i a =
    build_verdict i SessionState.closed (tighten not_tradable session_closed a)
phase_step _ i a = after_phase i a

-- steps 1 and 2 and the rest
pub resolve : TradabilityInputs → Verdict
resolve i =
    if i.frozen
    then build_verdict i SessionState.halted (tighten not_tradable ca_frozen (tradable, []))
    else phase_step i.session_phase i
        (if i.ca_blackout then tighten not_tradable ca_blackout (tradable, []) else (tradable, []))

abbrev is_auction : SessionPhase → Bool
is_auction SessionPhase.auction = true
is_auction _ = false

nbbo_mismatch : Option Nbbo → ℕ → Bool
nbbo_mismatch none symbol = false
nbbo_mismatch (some n) symbol = not (n.symbol == symbol)

pub decide : TradabilityInputs → Decision
decide i =
    if is_auction i.session_phase
    then fatal auction_phase
    else if not (i.status.symbol == i.symbol)
    then fatal status_symbol_mismatch
    else if nbbo_mismatch i.nbbo i.symbol
    then fatal nbbo_symbol_mismatch
    else decided (resolve i)
