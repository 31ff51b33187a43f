-- ===== src/Market/State/Blocked.antt =====
-- What the decider reports when it restricts: the codes and the short side.
use fail_closed_agent.Base.{
  ◌≡◌, refl, Bool, true, false, not, ◌&&◌, ◌∙◌, sym, subst, [], ◌∷◌, arith, is_empty,
  is_empty-append, if◌then◌else◌,
}
use fail_closed_agent.Base.Ranked.{is_empty-sorted_set, IsSorted, sorted_set-IsSorted}
use fail_closed_agent.Market.State.{
  SessionPhase, SessionState, tradable, reduce_only, not_tradable, Tradability, Blocker,
  blocker_rank, TradabilityInputs, Verdict, Accumulated, decided, decide, resolve, phase_step,
  after_phase, after_halt, after_band, halt_step, luld_step, tighten, build_verdict, is_tradable,
  is_inactive, HaltState, LuldState, no_halt, resuming, paused, is_limit, luld_limit,
  luld_band_edge, luld_band_unknown, no_two_sided_nbbo, extended_hours, is_extended, band_edge,
  two_sided_book, is_rth, normal_or_limit, has_band, phase_to_session_state, is_interlocked,
}

-- An accumulator is restricted exactly if it carries a code, and so a verdict.
record Explained (a : Accumulated) : Type 0 where
  explained : is_tradable a.0 ≡ is_empty a.1

-- A verdict that names a blocker exactly if it restricts, with its codes in strict order, that is
-- about the instrument asked for and allows the short side only where Rule 201 is inactive.
pub record Explains (i : TradabilityInputs) (v : Verdict) : Type 0 where
  pub explains : is_tradable v.tradability ≡ is_empty v.reasons
  pub ordered : IsSorted blocker_rank v.reasons
  pub short : v.short_allowed ≡ (is_tradable v.tradability && is_inactive i.status.ssr)
  pub about : (v.symbol ≡ i.symbol) × (v.instrument_id ≡ i.instrument_id)

tighten-Explained :
    (t : Tradability) (r : Blocker) (a : Accumulated)
    → is_tradable t ≡ false
    → Explained a
    → Explained (tighten t r a)
unfolding tighten
tighten-Explained t r a h e = ground (arith, is_empty-append a.1 (r ∷ []))

tighten_if-Explained :
    (b : Bool) (t : Tradability) (r : Blocker) (a : Accumulated)
    → is_tradable t ≡ false
    → Explained a
    → Explained (if b then tighten t r a else a)
tighten_if-Explained true t r a h e = tighten-Explained t r a h e
tighten_if-Explained false t r a h e = e

build_verdict-Explains :
    (i : TradabilityInputs) (s : SessionState) (a : Accumulated)
    → Explained a
    → Explains i (build_verdict i s a)
unfolding build_verdict
build_verdict-Explains i s a e = record {
  explains = e.explained ∙ sym (is_empty-sorted_set blocker_rank a.1);
  ordered = sorted_set-IsSorted blocker_rank a.1;
  short = refl;
  about = (refl, refl);
}

unless-Explained :
    (b : Bool) (t : Tradability) (r : Blocker) (a : Accumulated)
    → is_tradable t ≡ false
    → Explained a
    → Explained (if b then a else tighten t r a)
unless-Explained true t r a h e = e
unless-Explained false t r a h e = tighten-Explained t r a h e

after_band-Explains :
    (i : TradabilityInputs) (s : SessionState) (a : Accumulated)
    → Explained a
    → Explains i (after_band i s a)
unfolding after_band
after_band-Explains i s a e =
    let limited = tighten_if-Explained (is_limit i.status.luld) reduce_only luld_limit a refl e in
    let edged =
      tighten_if-Explained (band_edge i.nbbo i.status.luld_band) reduce_only luld_band_edge _ refl
        limited in
    let sided =
      unless-Explained (two_sided_book i.nbbo) not_tradable no_two_sided_nbbo _ refl edged in
    build_verdict-Explains i s _
      (tighten_if-Explained (is_extended i.session_phase) reduce_only extended_hours _ refl sided)

if-Explains :
    (i : TradabilityInputs) (b : Bool) (v w : Verdict)
    → Explains i v
    → Explains i w
    → Explains i (if b then v else w)
if-Explains i true v w h k = h
if-Explains i false v w h k = k

after_halt-Explains :
    (i : TradabilityInputs) (s : SessionState) (a : Accumulated)
    → Explained a
    → Explains i (after_halt i s a)
unfolding after_halt
after_halt-Explains i s a e =
    if-Explains i
      (is_rth i.session_phase && normal_or_limit i.status.luld && not (has_band i.status.luld_band))
      _ _ (build_verdict-Explains i _ _ (tighten-Explained not_tradable luld_band_unknown a refl e))
      (after_band-Explains i s a e)

halt_step-Explained :
    (h : HaltState) (p : SessionState × Accumulated) → Explained p.1 → Explained (halt_step h p).1
unfolding halt_step
halt_step-Explained no_halt p e = e
halt_step-Explained resuming p e = tighten-Explained not_tradable Blocker.session_auction p.1 refl e
halt_step-Explained h p e = tighten-Explained not_tradable Blocker.halt p.1 refl e

luld_step-Explained :
    (l : LuldState) (p : SessionState × Accumulated) → Explained p.1 → Explained (luld_step l p).1
unfolding luld_step
luld_step-Explained paused p e = tighten-Explained not_tradable Blocker.luld_paused p.1 refl e
luld_step-Explained LuldState.unknown p e =
    tighten-Explained not_tradable Blocker.luld_paused p.1 refl e
luld_step-Explained l p e = e

after_phase-Explains :
    (i : TradabilityInputs) (a : Accumulated) → Explained a → Explains i (after_phase i a)
unfolding after_phase
after_phase-Explains i a e =
    let stepped =
      luld_step-Explained i.status.luld _
        (halt_step-Explained i.status.halt (phase_to_session_state i.session_phase, a) e) in
    if-Explains i
      (is_interlocked
        (luld_step i.status.luld
          (halt_step i.status.halt (phase_to_session_state i.session_phase, a))).0)
      _ _ (build_verdict-Explains i _ _ stepped) (after_halt-Explains i _ _ stepped)

phase_step-Explains :
    (p : SessionPhase) (i : TradabilityInputs) (a : Accumulated)
    → Explained a
    → Explains i (phase_step p i a)
unfolding phase_step
phase_step-Explains SessionPhase.unknown i a e =
    build_verdict-Explains i _ _ (tighten-Explained not_tradable Blocker.calendar_unknown a refl e)
phase_step-Explains SessionPhase.closed i a e =
    build_verdict-Explains i _ _ (tighten-Explained not_tradable Blocker.session_closed a refl e)
phase_step-Explains p i a e = after_phase-Explains i a e

resolve-Explains : (i : TradabilityInputs) → Explains i (resolve i)
unfolding resolve
resolve-Explains i =
    if-Explains i i.frozen _ _
      (build_verdict-Explains i _ _ (tighten-Explained not_tradable Blocker.ca_frozen _ refl start))
      (phase_step-Explains i.session_phase i _
        (tighten_if-Explained i.ca_blackout not_tradable Blocker.ca_blackout _ refl start))
  where
    start : Explained (tradable, [])
    start = record { explained = refl }

-- Every verdict of `decide` names a blocker exactly if it restricts, lists its codes in strict order,
-- allows the short side only when TRADABLE with an inactive short-sale restriction, and is about
-- the instrument of the inputs.
pub decide-Explains : (i : TradabilityInputs) {v : Verdict} → decide i ≡ decided v → Explains i v
unfolding decide
decide-Explains i {v} e =
    let same : resolve i ≡ v = ground arith in subst (λ w. Explains i w) same (resolve-Explains i)
