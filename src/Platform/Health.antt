-- ===== src/Platform/Health.antt =====
-- internal/controller/platformconfig_controller.go: splitProviderHealth. `now` is metav1.Now().
pub mod Verdicts
use k8boss_operator.Prelude.{
  ℕ, String, ◌<>◌, Bool, false, not, Option, none, some, List, [], ◌∷◌, ◌++◌, ◌==◌, ltb,
  if◌then◌else◌, length, items, join,
}
use k8boss_operator.Api.{ProviderHealthStatus, unknown, healthy, unhealthy}
use k8boss_operator.Backend.Wire.{ProviderHealth, determinate}

-- Why a provider's health could not be told.
unfoldable pub why_undetermined : ProviderHealth → String
why_undetermined p =
    if p.message == ""
    then if not p.checked
      then "the control plane reported checked=false with no explanation"
      else "the control plane reported checked=true but returned no healthy verdict"
    else p.message

unfoldable pub undetermined_entry : ℕ → ProviderHealth → ProviderHealthStatus
unfolding why_undetermined
undetermined_entry now p = record {
  name = p.name;
  health = unknown;
  last_query_error = "";
  reason = why_undetermined p;
  observed_at = now;
}

-- `*p.Healthy`, asked only where the pointer is not nil
is_healthy : Option Bool → Bool
is_healthy none = false
is_healthy (some b) = b

-- The switch on LastQueryError
query_error : ProviderHealth → Bool → String
query_error p well =
    let otherwise =
      if well
      then ""
      else if not (p.message == "")
      then p.message
      else "reported unhealthy; the control plane returned no query error and no message" in
    elim p.last_query_error [ none ↦ otherwise | some e ↦ if not (e == "") then e else otherwise ]

-- The blockers, written behind the error
with_blockers : ProviderHealth → String → String
with_blockers p e =
    let blockers = "blockers: " <> join (items p.blockers) ", " in
    if ltb 0 (length (items p.blockers))
    then if e == "" then blockers else e <> (" (" <> (blockers <> ")"))
    else e

unfoldable pub determined_entry : ℕ → ProviderHealth → ProviderHealthStatus
unfolding is_healthy query_error with_blockers
determined_entry now p = record {
  name = p.name;
  health = if is_healthy p.healthy then healthy else unhealthy;
  last_query_error = with_blockers p (query_error p (is_healthy p.healthy));
  reason = "";
  observed_at = now;
}

-- One round of the loop: the provider's entry, and its line if its health could not be told
unfoldable pub split_one : ℕ → ProviderHealth → ProviderHealthStatus × List String
unfolding undetermined_entry determined_entry determinate
split_one now p =
    if not (determinate p)
    then (undetermined_entry now p, (p.name <> (": " <> why_undetermined p)) ∷ [])
    else (determined_entry now p, [])

-- The loop, with the entries and the undetermined providers so far
split_loop :
    ℕ
    → List ProviderHealth
    → List ProviderHealthStatus
    → List String
    → List ProviderHealthStatus × List String
unfolding split_one
split_loop now [] entries undetermined = (entries, undetermined)
split_loop now (p ∷ ps) entries undetermined =
    let (entry, more) = split_one now p in
    split_loop now ps (entries ++ entry ∷ []) (undetermined ++ more)

unfoldable pub split_provider_health :
    ℕ → List ProviderHealth → List ProviderHealthStatus × List String
unfolding split_loop
split_provider_health now providers = split_loop now providers [] []
