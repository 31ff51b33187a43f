-- ===== src/Exec/World/Safety/Closed.antt =====
-- scripts/agent/gates.py and the execution tier: what closed run gates mean for the broker.
use fail_closed_agent.Base.{◌≡◌, inl, inr, Bool, false, List, [], ◌∷◌}
use fail_closed_agent.Base.Dict.Every.{Every}
use fail_closed_agent.Config.{opening_allowed}
use fail_closed_agent.Exec.Order.{OrderIntent}
use fail_closed_agent.Exec.Token.{Position}
use fail_closed_agent.Exec.Token.Reduce.{filled, Decreases}
use fail_closed_agent.Exec.Preflight.Inputs.{PreflightInputs, Outside}
use fail_closed_agent.Exec.Preflight.Ladder.Pass.{evaluate_preflight-IsLicensed, licensed-gates}
use fail_closed_agent.Exec.World.{Action, World, run}
use fail_closed_agent.Exec.World.Safety.{
  AllMints, AllIssued, AllTraced, IsTraced, Reduces, IsAccounted, run-IsAccounted,
}

-- the run gates of these inputs are closed
unfoldable pub GatesClosed : PreflightInputs → Type 0
GatesClosed i = opening_allowed i.gates_config ≡ false

-- Every order in the list brings a position with `Q` nearer to flat, and not through it.
pub AllReducing : (Position → Type 0) → List OrderIntent → Type 0
AllReducing Q [] = Unit
AllReducing Q (o ∷ os) =
    ((p : Position) × Q p × (o.symbol ≡ p.symbol) × Decreases p.qty (filled p.qty o.side o.qty))
    × AllReducing Q os

module _ (outside : Outside) (returns : OrderIntent → Bool) (Q : Position → Type 0) where
  traced-reducing :
      (o : OrderIntent)
      → IsTraced outside returns GatesClosed Q o
      → Reduces outside returns GatesClosed Q o.symbol o.side o.qty
  unfolding IsTraced GatesClosed
  traced-reducing o (inl h) = h
  traced-reducing o (inr (i, p, closed, pass, _, _, _, _)) =
      absurd
        (cc (closed, licensed-gates outside i p (evaluate_preflight-IsLicensed outside i p pass)))

  all-reducing :
      (os : List OrderIntent) → AllTraced outside returns GatesClosed Q os → AllReducing Q os
  unfolding AllTraced AllReducing Reduces
  all-reducing [] h = tt
  all-reducing (o ∷ os) (h, hs) = (traced-reducing o h, all-reducing os hs)

  abbrev pub fresh : Bool → World
  fresh bound = record {
    registry = record { authorizations = []; next_nonce = 0; runtime_bound = bound };
    orders = [];
  }

  fresh-IsAccounted : (bound : Bool) → IsAccounted outside returns GatesClosed Q (fresh bound)
  unfolding IsAccounted AllIssued AllTraced Every
  fresh-IsAccounted bound = (tt, tt)

  -- With the run gates closed at every opening mint, and every reduce-only mint asked for a position
  -- with `Q`, whatever actions follow on an empty registry: every order that the broker receives brings
  -- a position with `Q` nearer to flat, without flipping it.
  pub closed_gates-AllReducing :
      (actions : List Action) (bound : Bool)
      → AllMints outside returns GatesClosed Q actions
      → AllReducing Q (run outside returns actions (fresh bound)).orders
  unfolding IsAccounted
  closed_gates-AllReducing actions bound h =
      all-reducing (run outside returns actions (fresh bound)).orders
        (run-IsAccounted outside returns GatesClosed Q actions (fresh bound) h
          (fresh-IsAccounted bound)).1
