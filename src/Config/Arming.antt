-- ===== src/Config/Arming.antt =====
-- The two keys of live trading and the run gates: scripts/agent/arming.py, scripts/agent/gates.py.
use text.Mathlib.TextEquality.{eq_iff}
use fail_closed_agent.Base.{
  ◌≡◌, refl, ap, ◌∙◌, ◌≢◌, ◌↔◌, inl, inr, true, Option, none, some, [], ◌∷◌, arith, String,
  Option-cases, List,
}
use fail_closed_agent.Config.{
  Json, bool, walk, gate, strict_bool, truthy, not_implemented, construct_live_broker,
}
use fail_closed_agent.Config.Tighten.{gate_of_none}

abbrev pub key_a_path : List String
key_a_path = "risk_rules" ∷ "live_trading" ∷ "enabled" ∷ []

strict_bool-eq_true : (v : Json) → strict_bool v ≡ true → v ≡ bool true
strict_bool-eq_true (bool b) h = cc
strict_bool-eq_true v h = cc

-- A gate is open exactly when the path leads to the literal `true`.
pub gate_iff :
    (path : List String) (c : Json) → (gate c path ≡ true) ↔ (walk c path ≡ some (bool true))
unfolding gate
gate_iff path c = (
  λ h. elim (Option-cases (walk c path)) [
    | inl e ↦ absurd (cc (gate_of_none path c e))
    | inr (v, e) ↦ e ∙ ap some (strict_bool-eq_true v (rw (e, gate) at h))
  ],
  λ e. rw (e, gate) refl,
)

truthy-some : (s : String) → truthy (some s) ≡ true → s ≢ ""
truthy-some s h e = ground (arith, eq_iff s "")

truthy-some_of_ne : (s : String) → s ≢ "" → truthy (some s) ≡ true
truthy-some_of_ne s h = ground (arith, eq_iff s "")

-- Getting past the arming check takes the literal `true` at key A's path and a non-empty secret,
-- and these suffice; in every other case an ArmingError is raised.
pub construct_live_broker_iff :
    (config : Json) (secret : Option String)
    → (construct_live_broker config secret ≡ not_implemented) ↔ (
        (walk config key_a_path ≡ some (bool true)) × ((s : String) × (secret ≡ some s) × (s ≢ "")))
unfolding construct_live_broker
construct_live_broker_iff config secret = (only_if secret, if_both secret)
  where
    only_if :
        (secret : Option String)
        → construct_live_broker config secret ≡ not_implemented
        → (walk config key_a_path ≡ some (bool true))
          × ((s : String) × (secret ≡ some s) × (s ≢ ""))
    only_if none h = absurd (ground arith)
    only_if (some s) h =
        ((gate_iff key_a_path config).0 (ground arith), (s, refl, truthy-some s (ground arith)))

    if_both :
        (secret : Option String)
        → (walk config key_a_path ≡ some (bool true))
          × ((s : String) × (secret ≡ some s) × (s ≢ ""))
        → construct_live_broker config secret ≡ not_implemented
    if_both secret (k, (s, e, ne)) =
        ground (arith, (gate_iff key_a_path config).1 k, truthy-some_of_ne s ne)
