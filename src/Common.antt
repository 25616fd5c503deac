-- ===== src/Common.antt =====
-- internal/controller/common.go: the constants, setCondition and the pause gate. A delay is in
-- seconds.
pub mod Evidence
pub mod Walk
pub mod Gate
pub mod Endings
pub mod Edges
pub mod Willing
pub mod Stopped
pub mod Protocol
pub mod Steady
pub mod Told
use k8boss_operator.Prelude.{
  ℕ, String, ◌<>◌, Bool, true, false, Option, none, some, List, quote, if◌then◌else◌, ℤ,
}
use k8boss_operator.Api.{Condition, ConditionStatus, NamespacedName, PlatformConfig}
use k8boss_operator.Backend.Errors.{GoError, Result, ok, err, error_text, is_not_found}
use k8boss_operator.Kube.{KubeClient, Apimachinery, Act, fetched_config, pure, ask, ◌>>=◌}

abbrev pub cr_edges_finalizer : String
cr_edges_finalizer = "k8boss.io/cr-edges"

abbrev pub condition_ready : String
condition_ready = "Ready"

abbrev pub condition_provider_health_known : String
condition_provider_health_known = "ProviderHealthKnown"

abbrev pub reason_reconciled : String
reason_reconciled = "Reconciled"

abbrev pub reason_paused : String
reason_paused = "Paused"

abbrev pub reason_platform_config_missing : String
reason_platform_config_missing = "PlatformConfigMissing"

abbrev pub reason_platform_config_unreadable : String
reason_platform_config_unreadable = "PlatformConfigUnreadable"

abbrev pub reason_backend_unreachable : String
reason_backend_unreachable = "BackendUnreachable"

abbrev pub reason_awaiting_configuration : String
reason_awaiting_configuration = "AwaitingConfiguration"

abbrev pub reason_reconcile_failed : String
reason_reconcile_failed = "ReconcileFailed"

abbrev pub reason_write_not_verified : String
reason_write_not_verified = "WriteNotVerified"

abbrev pub reason_provider_unavailable : String
reason_provider_unavailable = "ProviderUnavailable"

abbrev pub reason_close_failed : String
reason_close_failed = "EdgeCloseFailed"

abbrev pub reason_health_undetermined : String
reason_health_undetermined = "ProviderHealthUndetermined"

abbrev pub reason_health_known : String
reason_health_known = "ProviderHealthDetermined"

abbrev pub reason_not_singleton : String
reason_not_singleton = "NotTheConfiguredSingleton"

abbrev pub paused_requeue : ℕ
paused_requeue = 90

abbrev pub resync_interval : ℕ
resync_interval = 600

abbrev pub health_poll_interval : ℕ
health_poll_interval = 120

abbrev pub unconfigured_requeue : ℕ
unconfigured_requeue = 300

unfoldable pub unconfigured_message : String → GoError → String
unconfigured_message what e =
    what
    <> (" was not attempted: "
        <> (error_text e
            <> (". Point this operator at a K8Boss control plane by "
                <> ("setting K8BOSS_BACKEND_URL, K8BOSS_CLUSTER_ID and K8BOSS_OPERATOR_TOKEN on its Deployment "
                    <> ("— under OLM, via the Subscription's spec.config.env and a Secret named k8boss-operator "
                        <> "(key: token) in the operator's namespace.")))))

unfoldable pub set_condition :
    Apimachinery → List Condition → ℤ → String → ConditionStatus → String → String → List Condition
set_condition lib conditions generation kind status reason message =
    lib.set_status_condition conditions (record {
      kind = kind;
      status = status;
      reason = reason;
      message = message;
      observed_generation = generation;
    })

pub record PauseGate : Type 0 where
  pub paused : Bool
  pub reason : String
  pub message : String
  pub flow_provider : String

-- A gate that is shut, for a reason.
shut : String → String → PauseGate
shut reason message = record {
  paused = true;
  reason = reason;
  message = message;
  flow_provider = "";
}

-- The switch of checkPauseGate on the answer of Get.
unfoldable pub gate_of : String → Result PlatformConfig → PauseGate
unfolding shut
gate_of name (err e) =
    if is_not_found e
    then shut reason_platform_config_missing (
        "No PlatformConfig "
        <> (quote name
            <> (" exists yet; the kill switch defaults to "
                <> ("paused, so nothing was reconciled. Apply a PlatformConfig with spec.paused=false "
                    <> "to enable reconciliation."))))
    else shut reason_platform_config_unreadable (
        "Could not read PlatformConfig "
        <> (quote name
            <> (", so we cannot confirm the kill "
                <> ("switch is off; treating as paused and reconciling nothing: "
                    <> error_text e))))
gate_of name (ok pc) =
    if pc.spec.paused
    then shut reason_paused (
        "PlatformConfig "
        <> (quote name
            <> (" has spec.paused=true; no mutation was attempted. "
                <> "Set spec.paused=false to resume.")))
    else record { paused = false; reason = ""; message = ""; flow_provider = pc.spec.flow_provider }

unfoldable pub check_pause_gate :
    {W : Type 0} → KubeClient W PlatformConfig → String → Act W PauseGate
check_pause_gate configs name =
    let key : NamespacedName = record { namespace = ""; name = name } in
    ask (configs.get key) (fetched_config key) >>= λ answer. pure (gate_of name answer)

-- client.IgnoreNotFound
unfoldable pub ignore_not_found : GoError → Option GoError
ignore_not_found e = if is_not_found e then none else some e
