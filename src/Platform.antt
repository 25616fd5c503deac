-- ===== src/Platform.antt =====
-- internal/controller/platformconfig_controller.go: the reconciler of PlatformConfig. The watch
-- predicate of SetupWithManager is configuration of the library and is left out, as are log lines.
pub mod Health
pub mod Safety
pub mod Endings
pub mod Stored
pub mod Stopped
use k8boss_operator.Prelude.{
  ℕ, String, ◌<>◌, eq_bool, Bool, true, false, ◌&&◌, not, Option, none, some, List, ◌==◌, ltb,
  if◌then◌else◌, length, items, ℤ, quote, join, show_bool, show_length,
}
use k8boss_operator.Api.{
  Condition, ConditionStatus, PlatformConfig, NamespacedName, condition_true, condition_false,
  ProviderHealthStatus,
}
use k8boss_operator.Backend.Errors.{
  GoError, plain, wrap, Result, ok, err, error_text, as_api, is_unconfigured,
}
use k8boss_operator.Backend.Wire.{PausedState, ProviderHealthResponse}
use k8boss_operator.Backend.Calls.{ControlPlane}
use k8boss_operator.Kube
use k8boss_operator.Kube.{
  KubeClient, Apimachinery, Snapshot, paused_set, health_read, Act, pure, ask, ◌>>=◌, get,
  update_status, Outcome, requeued, failed,
}
use k8boss_operator.Common.{
  condition_ready, condition_provider_health_known, reason_reconciled, reason_backend_unreachable,
  reason_awaiting_configuration, reason_reconcile_failed, reason_write_not_verified,
  reason_health_undetermined, reason_health_known, reason_not_singleton, health_poll_interval,
  set_condition, ignore_not_found,
}
use Health.{split_provider_health}

abbrev pub snapshot : PlatformConfig → Snapshot
snapshot cr = record {
  metadata = cr.metadata;
  spec = Kube.config_spec cr.spec;
  conditions = cr.status.conditions;
  observed_generation = cr.status.observed_generation;
  own = Kube.provider_health cr.status.provider_health;
}

unfoldable pub pause_error_reason : GoError → String
pause_error_reason e =
    if is_unconfigured e then reason_awaiting_configuration else elim (as_api e) [
      | some api_err ↦ reason_reconcile_failed
      | none ↦ reason_backend_unreachable
    ]

unfoldable pub health_error_reason : GoError → String
health_error_reason e =
    if is_unconfigured e then reason_awaiting_configuration else elim (as_api e) [
      | some api_err ↦ reason_health_undetermined
      | none ↦ reason_backend_unreachable
    ]

unfoldable pub describe_err : GoError → String
describe_err e = elim (as_api e) [
  | some api_err ↦ api_err.code <> (" — " <> api_err.message)
  | none ↦ error_text e
]

-- The fields of PlatformConfigReconciler that are not clients
pub record PlatformConfigReconciler : Type 0 where
  pub cluster_id : ℤ
  pub platform_config_name : String

module _ {W : Type 0} (lib : Apimachinery) (configs : KubeClient W PlatformConfig) where
  -- The object with one condition stamped.
  unfoldable pub with_condition :
      PlatformConfig → String → ConditionStatus → String → String → PlatformConfig
  with_condition cr kind status reason message = record cr {
    status = record cr.status {
      conditions =
          set_condition lib cr.status.conditions cr.metadata.generation kind status reason message;
    };
  }

  unfoldable pub not_ready : PlatformConfig → String → String → Act W Outcome
  not_ready cr reason message = do
    answer ←
        update_status configs snapshot
          (with_condition cr condition_ready condition_false reason message)
    elim answer [
      | err e ↦ pure (failed (wrap ("updating status (" <> (reason <> "): ")) e ""))
      | ok _ ↦ pure (failed (plain (reason <> (": " <> message))))
    ]

  unfoldable pub set_not_singleton : String → PlatformConfig → Act W (Option GoError)
  set_not_singleton singleton cr = do
    answer ← update_status configs snapshot (
        with_condition cr condition_ready condition_false reason_not_singleton (
          "This PlatformConfig is named "
          <> (quote cr.metadata.name
              <> (", but this operator answers only to "
                  <> (quote singleton
                      <> (". It governs nothing: its spec.paused is NOT pushed to the control-plane kill switch "
                          <> "and its providers are not evaluated. Rename it or delete it."))))))
    elim answer [
      | err e ↦ pure (some (wrap ("updating status (" <> (reason_not_singleton <> "): ")) e ""))
      | ok _ ↦ pure none
    ]

  -- Reconcile, where provider health could not be read
  unfoldable pub health_failed : PlatformConfig → PausedState → GoError → Act W Outcome
  health_failed cr state e =
      not_ready
        (with_condition cr condition_provider_health_known condition_false
          reason_health_undetermined
          ("Provider health could not be read from the control-plane API, so the "
            <> ("health of every provider is UNKNOWN (not unhealthy). Any entries in "
                <> ("status.providerHealth are stale from an earlier successful read: "
                    <> describe_err e))))
        (health_error_reason e)
        ("kill switch is confirmed at paused="
          <> (show_bool state.paused
              <> (", but provider health could not be " <> ("determined: " <> describe_err e))))

  -- The object with the entries of a health read, and the condition on what they leave open.
  unfoldable pub with_health :
      PlatformConfig → List ProviderHealthStatus → List String → PlatformConfig
  with_health cr entries undetermined =
      let read : PlatformConfig = record cr {
        status = record cr.status { provider_health = entries };
      } in
      if ltb 0 (length undetermined)
      then with_condition read condition_provider_health_known condition_false
          reason_health_undetermined
          ("Health is UNKNOWN (not unhealthy) for "
            <> (show_length (length undetermined)
                <> (" provider(s): "
                    <> (join undetermined "; "
                        <> (". These are "
                            <> ("listed in status.providerHealth with health=Unknown, not as unhealthy — K8Boss "
                                <> ("could not determine their health, which is a different answer from determining "
                                    <> "they are unhealthy.")))))))
      else with_condition read condition_provider_health_known condition_true reason_health_known
          ("Health was determined for all " <> (show_length (length entries) <> " provider(s)."))

  -- The object of the confirmed path
  unfoldable pub ready_object :
      PlatformConfig → PausedState → List ProviderHealthStatus → List String → PlatformConfig
  ready_object cr state entries undetermined =
      let read = with_health cr entries undetermined in
      with_condition
        (record read {
          status = record read.status { observed_generation = read.metadata.generation };
        })
        condition_ready condition_true reason_reconciled
        ("Control plane confirmed the kill switch at paused="
          <> (show_bool state.paused
              <> ("; provider health read "
                  <> ("returned "
                      <> (show_length (length entries)
                          <> (" provider(s), "
                              <> (show_length (length undetermined)
                                  <> " of them undetermined.")))))))

  -- Reconcile, after the answer of the health read. `now` is metav1.Now() in splitProviderHealth.
  unfoldable pub health_answer :
      ℕ → PlatformConfig → PausedState → Result ProviderHealthResponse → Act W Outcome
  health_answer now cr state (err e) = health_failed cr state e
  health_answer now cr state (ok health) = do
    let split = split_provider_health now (items health.providers)
    answer ← update_status configs snapshot (ready_object cr state split.0 split.1)
    elim answer [
      | err e ↦ pure (failed (wrap "updating status after successful reconcile: " e ""))
      | ok _ ↦ pure (requeued health_poll_interval)
    ]

module _ {W : Type 0} (lib : Apimachinery) (configs : KubeClient W PlatformConfig)
    (plane : ControlPlane W) (r : PlatformConfigReconciler) (now : ℕ) where
  -- Reconcile, after the answer of the kill switch
  unfoldable pub paused_answer : PlatformConfig → Result PausedState → Act W Outcome
  paused_answer cr (err e) = not_ready lib configs cr (pause_error_reason e) (
      "could not push spec.paused="
      <> (show_bool cr.spec.paused
          <> (" to the control-plane kill switch, so the "
              <> ("server-side flag's state is unknown and may not match this spec: "
                  <> describe_err e))))
  paused_answer cr (ok state) =
      if eq_bool state.paused cr.spec.paused
      then ask (plane.provider_health r.cluster_id) (health_read r.cluster_id)
        >>= health_answer lib configs now cr state
      else not_ready lib configs cr reason_write_not_verified (
          "the control plane accepted the kill-switch write but reports paused="
          <> (show_bool state.paused
              <> (" while spec.paused="
                  <> (show_bool cr.spec.paused
                      <> "; the flag is not confirmed to match this spec."))))

  -- Reconcile of the singleton
  unfoldable pub reconcile_singleton : PlatformConfig → Act W Outcome
  reconcile_singleton cr = do
    let by = "k8boss-operator/PlatformConfig/" <> cr.metadata.name
    answer ← ask (plane.set_paused cr.spec.paused by) (paused_set cr.spec.paused by)
    paused_answer cr answer

  unfoldable pub reconcile : NamespacedName → Act W Outcome
  reconcile name = do
    answer ← get configs snapshot name
    elim answer [
      | err e ↦ pure (record { requeue_after = 0; error = ignore_not_found e })
      | ok cr ↦
          if not (r.platform_config_name == "") && not (cr.metadata.name == r.platform_config_name)
          then set_not_singleton lib configs r.platform_config_name cr
            >>= (λ e. pure (record { requeue_after = 0; error = e }))
          else reconcile_singleton cr
    ]
