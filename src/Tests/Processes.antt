-- ===== src/Tests/Processes.antt =====
-- The process started on libraries that refuse one of its calls.
use k8boss_operator.Prelude.{
  ℕ, ◌<◌, String, ◌≡◌, arith, show_ℤ, ◌≢◌, ◌↔◌, refl, Option, none, some, [], pos, ◌==◌,
  if◌then◌else◌,
}
use k8boss_operator.Backend.Errors.{GoError, plain, ok}
use k8boss_operator.Startup.{atoi, main, parse_cluster_id}
use k8boss_operator.Startup.Manager.{
  default_flags, settings_of, Call, add_client_go_scheme, add_operator_scheme, get_config, start,
  new_manager, set_up_segmentation, set_up_runtime, set_up_platform, add_healthz_check,
  add_readyz_check, exited, process, init, must, run_manager,
}
use k8boss_operator.Startup.Sequence.{IsRun, startup_plan, process-IsRun}
use k8boss_operator.Startup.RoundTrip.{parse_cluster_id-show_ℤ}
use k8boss_operator.Startup.Environment.{main-default_flags}

abbrev no_text : String → String
no_text raw = "invalid syntax"

abbrev environment : String → String
environment name =
    if name == "K8BOSS_BACKEND_URL"
    then "https://plane"
    else if name == "K8BOSS_CLUSTER_ID"
    then "42"
    else if name == "K8BOSS_OPERATOR_TOKEN"
    then "t"
    else ""

-- The second readiness check is refused.
abbrev libraries : Call → ℕ → Option GoError × ℕ
libraries (add_readyz_check name check) w =
    (if name == "preflight" then some (plain "taken") else none, w)
libraries add_client_go_scheme w = (none, w)
libraries add_operator_scheme w = (none, w)
libraries get_config w = (none, w)
libraries start w = (none, w)
libraries (new_manager options) w = (none, w)
libraries (set_up_segmentation reconciler client) w = (none, w)
libraries (set_up_runtime reconciler client) w = (none, w)
libraries (set_up_platform reconciler client) w = (none, w)
libraries (add_healthz_check name check) w = (none, w)

process-IsRun_example :
    let (end, log) = process libraries no_text environment some 0 in
    IsRun
      (startup_plan
        (default_flags environment)
        (main no_text (settings_of environment (default_flags environment))))
      end
      log
process-IsRun_example =
    process-IsRun libraries no_text environment some (default_flags environment) 0 refl

process_run :
    (process libraries no_text environment some 0).0
    ≡ exited "unable to set up preflight ready check" (plain "taken")
unfolding process init must run_manager
process_run = refl

main-default_flags_example :
    let operator = main no_text (settings_of environment (default_flags environment)) in
    ((operator.backend.missing ≡ []) ↔ (
      (environment "K8BOSS_BACKEND_URL" ≢ "")
      × (environment "K8BOSS_OPERATOR_TOKEN" ≢ "")
      × ((n : ℕ) × (atoi (environment "K8BOSS_CLUSTER_ID") ≡ some (pos n)) × (0 < n))))
    × (operator.platform.platform_config_name ≢ "")
    × (operator.platform.platform_config_name ≡ (
        if environment "K8BOSS_PLATFORMCONFIG_NAME" == ""
        then "default"
        else environment "K8BOSS_PLATFORMCONFIG_NAME"))
    × (operator.segmentation.platform_config_name ≡ operator.platform.platform_config_name)
    × (operator.runtime.platform_config_name ≡ operator.platform.platform_config_name)
main-default_flags_example = main-default_flags no_text environment

parse_cluster_id-show_ℤ_example : parse_cluster_id no_text (show_ℤ (pos 9000)) ≡ ok (pos 9000)
parse_cluster_id-show_ℤ_example = parse_cluster_id-show_ℤ no_text 9000 (omega arith) (omega arith)
