-- ===== src/Config/Tests.antt =====
-- Witnesses of the theorems on configurations, and runs of the merge: a base with its run gates
-- off under an overlay that would open them.
use fail_closed_agent.Base.{◌≡◌, refl, ◌≢◌, ◌↔◌, true, false, Option, some, List, [], ◌∷◌, String}
use fail_closed_agent.Base.Int.{ℤ, pos, ◌≤ℤ◌, min_ℤ}
use fail_closed_agent.Config.{
  Json, bool, num, obj, end, field, lookup, tighten_only_merge, walk, gate, not_implemented,
  construct_live_broker,
}
use fail_closed_agent.Config.Tighten.{gate_merge_never_opens, gate_merge_closes, number_merge}
use fail_closed_agent.Config.Arming.{key_a_path, construct_live_broker_iff}

abbrev enabled : Json
enabled = obj (field "enabled" (bool true) end)

abbrev base : Json
base = obj (
    field "agent_rules" (obj (field "enabled" (bool true) (field "paper_trading" enabled end))) (
      field "risk_rules"
        (obj (field "max_position_usd" (num (pos 500)) (field "live_trading" enabled end))) end))

abbrev overlay : Json
overlay = obj (
    field "risk_rules"
      (obj (
        field "max_position_usd" (num (pos 100))
          (field "live_trading" (obj (field "enabled" (bool false) end)) end)))
      (field "agent_rules" (obj (field "enabled" (bool true) (field "new_key" (bool true) end)))
        end))

abbrev cap_path : List String
cap_path = "risk_rules" ∷ "max_position_usd" ∷ []

abbrev agent_path : List String
agent_path = "agent_rules" ∷ "enabled" ∷ []

merged_runs :
    tighten_only_merge base overlay
    ≡ obj (
        field "agent_rules"
          (obj (field "enabled" (bool true) (field "paper_trading" enabled end)))
          (field "risk_rules"
            (obj (
              field "max_position_usd"
                (num (pos 100))
                (field "live_trading" (obj (field "enabled" (bool false) end)) end)))
            end))
unfolding tighten_only_merge lookup
merged_runs = refl

gate_merge_never_opens_example : gate base agent_path ≡ true
unfolding gate tighten_only_merge lookup
gate_merge_never_opens_example = gate_merge_never_opens agent_path base overlay refl

gate_merge_closes_example : gate (tighten_only_merge base overlay) key_a_path ≡ false
unfolding walk lookup
gate_merge_closes_example = gate_merge_closes key_a_path base overlay refl

number_merge_example :
    (m : ℤ) × (walk base cap_path ≡ some (num m))
    × (pos 100 ≤ℤ m)
    × ((c : ℤ) → walk overlay cap_path ≡ some (num c) → pos 100 ≡ min_ℤ m c)
unfolding walk tighten_only_merge lookup
number_merge_example = number_merge cap_path base overlay refl

construct_live_broker_iff_example : (construct_live_broker base (some "key") ≡ not_implemented) ↔ (
    (walk base key_a_path ≡ some (bool true))
    × ((s : String) × (◌≡◌ {A = Option String} (some "key") (some s)) × (s ≢ "")))
construct_live_broker_iff_example = construct_live_broker_iff base (some "key")
