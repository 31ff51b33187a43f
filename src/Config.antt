-- ===== src/Config.antt =====
-- scripts/agent/config.py (the tighten-only merge), scripts/agent/gates.py (the run gates) and
-- scripts/agent/arming.py (the two keys of live trading). A configuration is a JSON tree; its
-- numbers are counts of one smallest unit, and Python's NaN literals are left out.
pub mod Tighten
pub mod Arming
mod Tests
use fail_closed_agent.Base.{
  Bool, true, false, ◌&&◌, Option, none, some, List, [], ◌∷◌, String, str_eq, if◌then◌else◌,
}
use fail_closed_agent.Base.Int.{ℤ, min_ℤ}

mutual
  pub data Json : Type 0 where
    null : Json
    bool : Bool → Json
    num : ℤ → Json
    str : String → Json
    arr : Items → Json
    obj : Fields → Json

  pub data Items : Type 0 where
    nil : Items
    cons : Json → Items → Items

  pub data Fields : Type 0 where
    end : Fields
    field : String → Json → Fields → Fields

-- `config[key]`, if there
unfoldable pub lookup : String → Fields → Option Json
lookup k end = none
lookup k (field j v fs) = if str_eq j k then some v else lookup k fs

mutual
  pub tighten_only_merge : Json → Json → Json
  tighten_only_merge (obj b) (obj a) = obj (merge_fields b a)
  tighten_only_merge (bool b) (bool a) = bool (b && a)
  tighten_only_merge (num b) (num a) = num (min_ℤ b a)
  tighten_only_merge b _ = b

  pub merge_fields : Fields → Fields → Fields
  merge_fields end a = end
  merge_fields (field k v fs) a =
      field k (elim (lookup k a) [ none ↦ v | some w ↦ tighten_only_merge v w ]) (merge_fields fs a)

-- `value is True`
abbrev pub strict_bool : Json → Bool
strict_bool (bool b) = b
strict_bool _ = false

abbrev pub get : String → Json → Option Json
get k (obj fs) = lookup k fs
get k _ = none

-- the node at the end of a path of keys
unfoldable pub walk : Json → List String → Option Json
walk v [] = some v
walk v (k ∷ ks) = elim (get k v) [ none ↦ none | some w ↦ walk w ks ]

unfoldable pub gate : Json → List String → Bool
unfolding walk
gate config path = elim (walk config path) [ none ↦ false | some v ↦ strict_bool v ]

unfoldable pub opening_allowed : Json → Bool
unfolding gate
opening_allowed config =
    gate config ("agent_rules" ∷ "enabled" ∷ [])
    && gate config ("agent_rules" ∷ "paper_trading" ∷ "enabled" ∷ [])

pub live_allowed : Json → Bool
unfolding gate
live_allowed config = gate config ("risk_rules" ∷ "live_trading" ∷ "enabled" ∷ [])

-- `bool(runtime_secret)`: neither None nor the empty text
abbrev pub truthy : Option String → Bool
truthy none = false
truthy (some s) = if str_eq s "" then false else true

pub two_key_armed : Json → Option String → Bool
unfolding live_allowed
two_key_armed config runtime_secret = live_allowed config && truthy runtime_secret

pub data ArmingOutcome : Type 0 where
  arming_error not_implemented : ArmingOutcome

-- Both ways out raise: no live broker is ever constructed.
pub construct_live_broker : Json → Option String → ArmingOutcome
unfolding two_key_armed
construct_live_broker config runtime_secret =
    if two_key_armed config runtime_secret then not_implemented else arming_error
