-- ===== src/Market/State/Tests.antt =====
-- Witnesses of the theorems on the decider, at a tradable quote and at one pinned to its band.
use fail_closed_agent.Base.{◌≡◌, refl, ◌↔◌, some, false, [], ◌∷◌}
use fail_closed_agent.Base.Int.{pos}
use fail_closed_agent.Base.Decimal.{Decimal, finite}
use fail_closed_agent.Market.State.{
  SessionPhase, no_halt, normal, inactive, tradable, luld_band_edge, Nbbo, TradabilityInputs,
  decided, decide, resolve, phase_step, after_phase, after_halt, after_band, halt_step, luld_step,
  tighten, build_verdict, band_edge, at_edge, phase_to_session_state, nbbo_mismatch,
  luld_band_check, two_sided_book,
}
use fail_closed_agent.Base.Ranked.{sorted_set}
use fail_closed_agent.Market.State.Clear.{IsClear, decide_tradable_iff}
use fail_closed_agent.Market.State.Blocked.{Explains, decide-Explains}

abbrev quote : Decimal → Nbbo
quote bid = record {
  symbol = 7;
  best_bid = some bid;
  best_ask = some (finite (pos 105));
  bid_sz = some (finite (pos 3));
  ask_sz = some (finite (pos 4));
}

abbrev inputs : Decimal → TradabilityInputs
inputs bid = record {
  symbol = 7;
  instrument_id = 70;
  session_date_et = 20260710;
  session_phase = SessionPhase.rth;
  status = record {
    symbol = 7;
    halt = no_halt;
    luld = normal;
    luld_band = some (record { lower_px = finite (pos 100); upper_px = finite (pos 110) });
    ssr = inactive;
  };
  nbbo = some (quote bid);
  ca_blackout = false;
  frozen = false;
}

abbrev inside : TradabilityInputs
inside = inputs (finite (pos 104))

-- the bid on the band's lower edge
abbrev pinned : TradabilityInputs
pinned = inputs (finite (pos 100))

pinned_runs : (resolve pinned).reasons ≡ luld_band_edge ∷ []
unfolding resolve phase_step after_phase after_halt after_band halt_step luld_step tighten
    build_verdict band_edge at_edge phase_to_session_state two_sided_book luld_band_check sorted_set
pinned_runs = refl

inside_decided : decide inside ≡ decided (resolve inside)
unfolding decide nbbo_mismatch
inside_decided = refl

pinned_decided : decide pinned ≡ decided (resolve pinned)
unfolding decide nbbo_mismatch
pinned_decided = refl

decide_tradable_iff_example : ((resolve inside).tradability ≡ tradable) ↔ IsClear inside
decide_tradable_iff_example = decide_tradable_iff inside inside_decided

decide-Explains_example : Explains pinned (resolve pinned)
decide-Explains_example = decide-Explains pinned pinned_decided
