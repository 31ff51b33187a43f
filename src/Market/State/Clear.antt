-- ===== src/Market/State/Clear.antt =====
-- When the decider says TRADABLE.
use fail_closed_agent.Base.{
  ◌≡◌, ◌↔◌, true, false, arith, refl, Option, some, none, not, ◌&&◌, ◌⊎◌, [], ◌∷◌,
}
use fail_closed_agent.Market.State.Book.{InsideBand, InsideBand_of, InsideBand_passes}
use fail_closed_agent.Market.State.{
  SessionPhase, SessionState, no_halt, normal, tradable, not_tradable, Nbbo, LuldBand,
  TradabilityInputs, Verdict, decided, decide, resolve, two_sided_book, band_edge, has_band,
  after_band, after_halt, after_phase, phase_step, tighten, build_verdict, is_auction,
  calendar_unknown, session_closed, ca_blackout, Accumulated, is_interlocked, is_extended, is_limit,
  is_rth, normal_or_limit, luld_step, halt_step, limit, luld_band_unknown, phase_to_session_state,
  merge_severity, Tradability, Blocker,
}

severity_tradable : (t : Tradability) → (merge_severity tradable t) ≡ t
unfolding merge_severity
severity_tradable t = ground arith

tighten_tradable :
    (t : Tradability) (r : Blocker) (a : Accumulated)
    → (tighten t r a).0 ≡ tradable
    → (t ≡ tradable) × (a.0 ≡ tradable)
unfolding tighten
tighten_tradable t r a h = ground arith

build_tradability :
    (i : TradabilityInputs) (s : SessionState) (a : Accumulated)
    → (build_verdict i s a).tradability ≡ a.0
unfolding build_verdict
build_tradability i s a = refl

after_band_tradable :
    (i : TradabilityInputs) (s : SessionState) (a : Accumulated)
    → (after_band i s a).tradability ≡ tradable
    → (a.0 ≡ tradable)
      × (two_sided_book i.nbbo ≡ true)
      × (band_edge i.nbbo i.status.luld_band ≡ false)
      × (is_extended i.session_phase ≡ false)
      × (is_limit i.status.luld ≡ false)
unfolding after_band build_verdict tighten
after_band_tradable i s a h = ground arith

after_halt_tradable :
    (i : TradabilityInputs) (s : SessionState) (a : Accumulated)
    → (after_halt i s a).tradability ≡ tradable
    → (a.0 ≡ tradable)
      × (two_sided_book i.nbbo ≡ true)
      × (band_edge i.nbbo i.status.luld_band ≡ false)
      × (is_extended i.session_phase ≡ false)
      × (is_limit i.status.luld ≡ false)
      × ((is_rth i.session_phase
            && normal_or_limit i.status.luld
            && not (has_band i.status.luld_band))
          ≡ false)
unfolding after_halt
after_halt_tradable i s a h = ground (
  arith,
  after_band_tradable i s a,
  tighten_tradable not_tradable luld_band_unknown a,
  build_tradability i SessionState.halted (tighten not_tradable luld_band_unknown a),
)

after_phase_tradable :
    (i : TradabilityInputs) (a : Accumulated)
    → is_interlocked (phase_to_session_state i.session_phase) ≡ false
    → (after_phase i a).tradability ≡ tradable
    → (i.status.halt ≡ no_halt)
      × ((i.status.luld ≡ normal) ⊎ (i.status.luld ≡ limit))
      × ((after_halt i (phase_to_session_state i.session_phase) a).tradability ≡ tradable)
unfolding after_phase luld_step halt_step build_verdict tighten
after_phase_tradable i a e h = ground arith

-- The Boolean conditions under which the steps leave the verdict at TRADABLE.
record Passes (i : TradabilityInputs) : Type 0 where
  not_frozen : i.frozen ≡ false
  no_blackout : i.ca_blackout ≡ false
  in_session : i.session_phase ≡ SessionPhase.rth
  running : i.status.halt ≡ no_halt
  in_normal : i.status.luld ≡ normal
  banded : has_band i.status.luld_band ≡ true
  inside : band_edge i.nbbo i.status.luld_band ≡ false
  sided : two_sided_book i.nbbo ≡ true

phase_step_tradable :
    (p : SessionPhase) (i : TradabilityInputs) (a : Accumulated)
    → i.session_phase ≡ p
    → is_auction p ≡ false
    → (phase_step p i a).tradability ≡ tradable
    → (a.0 ≡ tradable)
      × (p ≡ SessionPhase.rth)
      × (i.status.halt ≡ no_halt)
      × (i.status.luld ≡ normal)
      × (has_band i.status.luld_band ≡ true)
      × (band_edge i.nbbo i.status.luld_band ≡ false)
      × (two_sided_book i.nbbo ≡ true)
unfolding phase_step build_verdict phase_to_session_state
phase_step_tradable SessionPhase.unknown i a e k h =
    absurd (ground (arith, tighten_tradable not_tradable calendar_unknown a h))
phase_step_tradable SessionPhase.closed i a e k h =
    absurd (ground (arith, tighten_tradable not_tradable session_closed a h))
phase_step_tradable SessionPhase.auction i a e k h = absurd (cc k)
phase_step_tradable p i a e k h =
    ground (arith, after_phase_tradable i a, after_halt_tradable i (phase_to_session_state p) a)

resolve_tradable :
    (i : TradabilityInputs)
    → is_auction i.session_phase ≡ false
    → (resolve i).tradability ≡ tradable
    → Passes i
unfolding resolve build_verdict tighten
resolve_tradable i e h = ground (
  arith,
  phase_step_tradable i.session_phase i (tradable, []) refl e,
  phase_step_tradable i.session_phase i (not_tradable, ca_blackout ∷ []) refl e,
)

resolve_of_Passes : (i : TradabilityInputs) → Passes i → (resolve i).tradability ≡ tradable
unfolding resolve phase_step after_phase halt_step luld_step phase_to_session_state after_halt
    after_band build_verdict
resolve_of_Passes i h = ground arith

-- The conditions of the market and of the status feed under which an opening is not blocked.
pub record IsClear (i : TradabilityInputs) : Type 0 where
  pub book : Nbbo
  pub band : LuldBand
  pub not_frozen : i.frozen ≡ false
  pub no_blackout : i.ca_blackout ≡ false
  pub in_session : i.session_phase ≡ SessionPhase.rth
  pub running : i.status.halt ≡ no_halt
  pub in_normal : i.status.luld ≡ normal
  pub has_book : i.nbbo ≡ some book
  pub banded : i.status.luld_band ≡ some band
  pub inside : InsideBand book band

Passes-of_IsClear : (i : TradabilityInputs) → IsClear i → Passes i
unfolding two_sided_book
Passes-of_IsClear i h = ground (arith, InsideBand_passes h.book h.band h.inside)

IsClear-of_Passes : (i : TradabilityInputs) → Passes i → IsClear i
unfolding two_sided_book
IsClear-of_Passes i h = clear i.nbbo i.status.luld_band refl refl
  where
    clear :
        (n : Option Nbbo) (b : Option LuldBand) → i.nbbo ≡ n → i.status.luld_band ≡ b → IsClear i
    clear none b e k = absurd (ground arith)
    clear (some n) none e k = absurd (ground arith)
    clear (some n) (some b) e k = record {
      book = n;
      band = b;
      not_frozen = h.not_frozen;
      no_blackout = h.no_blackout;
      in_session = h.in_session;
      running = h.running;
      in_normal = h.in_normal;
      has_book = e;
      banded = k;
      inside = InsideBand_of n b (ground arith) (ground arith);
    }

-- `decide` says TRADABLE exactly for an instrument that is neither frozen nor blacked out, in the
-- regular session, not halted and in the normal LULD state, whose book has both sides with
-- positive sizes, uncrossed and unlocked, strictly inside a reported band.
pub decide_tradable_iff :
    (i : TradabilityInputs) {v : Verdict}
    → decide i ≡ decided v
    → (v.tradability ≡ tradable) ↔ IsClear i
unfolding decide
decide_tradable_iff i {v} e = (
  λ t. IsClear-of_Passes i (resolve_tradable i (ground arith) (ground arith)),
  λ c. ground (arith, resolve_of_Passes i (Passes-of_IsClear i c)),
)
