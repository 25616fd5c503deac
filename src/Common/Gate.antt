-- ===== src/Common/Gate.antt =====
-- internal/controller/common.go: what the pause gate lets through.
use k8boss_operator.Prelude.{String, ◌≡◌, ◌↔◌, true, false, List, ◌∷◌, arith, if◌then◌else◌}
use k8boss_operator.Api.{PlatformConfig, NamespacedName}
use k8boss_operator.Backend.Errors.{Result, ok, err, is_not_found}
use k8boss_operator.Kube.{Event, fetched_config}
use k8boss_operator.Common.{
  gate_of, reason_paused, reason_platform_config_missing, reason_platform_config_unreadable,
}
use k8boss_operator.Common.Evidence.{unpaused_seen}

-- The configuration was read, and its kill switch is off.
abbrev pub IsOff : Result PlatformConfig → Type 0
IsOff (ok pc) = pc.spec.paused ≡ false
IsOff (err e) = ⊥

-- The reason that a shut gate gives.
abbrev pub gate_reason : Result PlatformConfig → String
gate_reason (ok pc) = reason_paused
gate_reason (err e) =
    if is_not_found e then reason_platform_config_missing else reason_platform_config_unreadable

abbrev pub default_provider : Result PlatformConfig → String
default_provider (ok pc) = pc.spec.flow_provider
default_provider (err e) = ""

-- The gate is open exactly when the configuration was read with its kill switch off: whatever keeps
-- it from being read shuts the gate. An open gate has the configuration's flow provider, and a shut
-- one gives the reason of its own case.
pub gate_of_cases :
    (name : String) (a : Result PlatformConfig)
    → (((gate_of name a).paused ≡ false) ↔ IsOff a)
      × (IsOff a → (gate_of name a).flow_provider ≡ default_provider a)
      × (¬ IsOff a → (gate_of name a).reason ≡ gate_reason a)
unfolding gate_of
gate_of_cases name (ok pc) = ground arith
gate_of_cases name (err e) = ground arith

pub unpaused_seen-gate_of :
    (name : String) (key : NamespacedName) (a : Result PlatformConfig) (es : List Event)
    → (gate_of name a).paused ≡ false
    → unpaused_seen (fetched_config key a ∷ es) ≡ true
unfolding gate_of
unpaused_seen-gate_of name key (ok pc) es h = ground arith
unpaused_seen-gate_of name key (err e) es h = ground arith
