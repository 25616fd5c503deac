-- ===== src/Segmentation.antt =====
-- internal/controller/segmentationpolicy_controller.go: the reconciler of SegmentationPolicy. The
-- Kubernetes client of policies and of PlatformConfigs, apimachinery's helpers and the control plane
-- are parameters; log lines are left out.
pub mod Exchange
pub mod Sent
pub mod Same
pub mod Confirmed
pub mod Steps
pub mod Safety
pub mod Endings
pub mod Edges
pub mod Lifetime
pub mod Progress
pub mod Refused
pub mod Stopped
pub mod Protocol
pub mod Again
pub mod Told
pub mod Failed
use k8boss_operator.Prelude.{
  ℕ, String, ◌<>◌, ◌||◌, not, none, some, List, map, ◌==◌, ltb, if◌then◌else◌, length, items, ℤ,
  pos, eq_ℤ, quote, show_ℤ, show_length,
}
use k8boss_operator.Api.{
  SegmentationRule, SegmentationPolicySpec, SegmentationPolicy, PlatformConfig, NamespacedName,
  condition_true, condition_false,
}
use k8boss_operator.Backend.Errors.{
  GoError, plain, wrap, Result, ok, err, error_text, as_api, is_unconfigured, is_paused,
  is_write_not_verified,
}
use k8boss_operator.Backend.Wire
use k8boss_operator.Backend.Wire.{ReconcileResult, CloseResult}
use k8boss_operator.Backend.Calls.{ControlPlane}
use k8boss_operator.Kube
use k8boss_operator.Kube.{
  KubeClient, Apimachinery, Snapshot, reconciled, closed, Act, pure, ask, ◌>>=◌, get, update,
  update_status, Outcome, done, requeued, failed,
}
use k8boss_operator.Common.{
  cr_edges_finalizer, condition_ready, reason_reconciled, reason_paused, reason_backend_unreachable,
  reason_awaiting_configuration, reason_reconcile_failed, reason_write_not_verified,
  reason_close_failed, paused_requeue, resync_interval, unconfigured_requeue, unconfigured_message,
  set_condition, PauseGate, check_pause_gate, ignore_not_found,
}
use Exchange.{to_wire_spec, inconsistent_segmentation_result, segmentation_ready_message}

abbrev pub cr_kind_segmentation_policy : String
cr_kind_segmentation_policy = "SegmentationPolicy"

-- The reconcile call, logged with the policy that it is given.
abbrev pub send :
    {W : Type 0}
    → ControlPlane W
    → ℤ
    → String
    → String
    → Wire.SegmentationPolicySpec
    → Act W (Result ReconcileResult)
send plane cluster_id namespace name spec =
    ask (plane.reconcile_segmentation_policy cluster_id namespace name spec)
      (reconciled cluster_id namespace (record { name = name; spec = Kube.sent_segmentation spec }))

abbrev pub snapshot : SegmentationPolicy → Snapshot
snapshot cr = record {
  metadata = cr.metadata;
  spec = Kube.segmentation_spec cr.spec;
  conditions = cr.status.conditions;
  observed_generation = cr.status.observed_generation;
  own = Kube.resolved_flow_provider cr.status.resolved_flow_provider;
}

-- The fields of SegmentationPolicyReconciler that are not clients
pub record SegmentationPolicyReconciler : Type 0 where
  pub cluster_id : ℤ
  pub platform_config_name : String

-- What notReady returns, by the answer of the status update.
unfoldable pub not_ready_outcome : String → String → ℕ → Result SegmentationPolicy → Outcome
not_ready_outcome reason message requeue_after (err e) =
    failed (wrap ("updating status (" <> (reason <> "): ")) e "")
not_ready_outcome reason message requeue_after (ok _) =
    if ltb 0 requeue_after
    then requeued requeue_after
    else failed (plain (reason <> (": " <> message)))

module _ (lib : Apimachinery) where
  -- The object with its Ready condition set to False.
  unfoldable pub not_ready_object : SegmentationPolicy → String → String → SegmentationPolicy
  not_ready_object cr reason message = record cr {
    status = record cr.status {
      conditions =
          set_condition lib cr.status.conditions cr.metadata.generation condition_ready
            condition_false reason message;
    };
  }

  -- The object of the confirmed path.
  unfoldable pub ready_object :
      SegmentationPolicy → PauseGate → ReconcileResult → SegmentationPolicy
  ready_object cr gate result = record cr {
    status = record {
      conditions =
          set_condition lib cr.status.conditions cr.metadata.generation condition_ready
            condition_true reason_reconciled (segmentation_ready_message result);
      observed_generation = cr.metadata.generation;
      resolved_flow_provider =
          if cr.spec.provider_ref == "" then gate.flow_provider else cr.spec.provider_ref;
    };
  }

module _ {W : Type 0} (lib : Apimachinery) (policies : KubeClient W SegmentationPolicy) where
  unfoldable pub not_ready : SegmentationPolicy → String → String → ℕ → Act W Outcome
  not_ready cr reason message requeue_after = do
    answer ← update_status policies snapshot (not_ready_object lib cr reason message)
    pure (not_ready_outcome reason message requeue_after answer)

  unfoldable pub reconcile_error : SegmentationPolicy → GoError → Act W Outcome
  reconcile_error cr e =
      if is_unconfigured e
      then not_ready cr reason_awaiting_configuration
          (unconfigured_message "Segmentation policy reconcile" e) unconfigured_requeue
      else if is_paused e
      then not_ready cr reason_paused
          ("Control-plane API is paused server-side; no mutation was applied: " <> error_text e)
          paused_requeue
      else elim (as_api e) [
        | some api_err ↦
            not_ready cr
              (if is_write_not_verified e
                then reason_write_not_verified
                else reason_reconcile_failed)
              ("segmentation policy reconcile failed: "
                <> (api_err.code <> (" — " <> api_err.message)))
              0
        | none ↦ do
          outcome ←
              not_ready cr reason_backend_unreachable
                ("segmentation policy reconcile could not reach the control-plane API, so the "
                  <> ("policy's applied state is unknown: " <> error_text e))
                0
          elim outcome.error [ some uerr ↦ pure (failed uerr) | none ↦ pure (failed e) ]
      ]

  -- RemoveFinalizer and the Update after it
  unfoldable pub release : String → SegmentationPolicy → Act W Outcome
  release what cr = do
    answer ← update policies snapshot (record cr {
      metadata = record cr.metadata {
        finalizers = lib.remove_finalizer cr.metadata.finalizers cr_edges_finalizer;
      };
    })
    elim answer [ err e ↦ pure (failed (wrap what e "")) | ok _ ↦ pure done ]

  -- finalize, after the answer of the close call
  unfoldable pub finalize_answer : SegmentationPolicy → Result CloseResult → Act W Outcome
  finalize_answer cr (err e) =
      if is_unconfigured e
      then release "removing finalizer on an unconfigured operator: " cr
      else if is_paused e
      then not_ready cr reason_paused
          ("Deletion is blocked: the control-plane API is paused, so this CR's "
            <> ("graph edges cannot be closed yet. The finalizer is held until it resumes: "
                <> error_text e))
          paused_requeue
      else not_ready cr reason_close_failed
          ("Deletion is blocked: closing this CR's graph edges failed, so the "
            <> ("finalizer is held rather than orphaning them: " <> error_text e))
          0
  finalize_answer cr (ok res) =
      if not (res.status == "ok") || ltb 0 (length (items res.unverified_edge_keys))
      then not_ready cr reason_close_failed
          ("Deletion is blocked: close returned status="
            <> (quote res.status
                <> (" with "
                    <> (show_length (length (items res.unverified_edge_keys))
                        <> (" unverified edge key(s); "
                            <> "the edges are not confirmed closed, so the finalizer is held.")))))
          0
      else release "removing finalizer after confirmed edge close: " cr

module _ {W : Type 0} (lib : Apimachinery) (policies : KubeClient W SegmentationPolicy)
    (configs : KubeClient W PlatformConfig) (plane : ControlPlane W)
    (r : SegmentationPolicyReconciler) where
  unfoldable pub finalize : SegmentationPolicy → Act W Outcome
  finalize cr =
      if not (lib.contains_finalizer cr.metadata.finalizers cr_edges_finalizer)
      then pure done
      else do
        res ←
            ask
              (plane.close_cr_edges cr_kind_segmentation_policy r.cluster_id cr.metadata.namespace
                cr.metadata.name)
              (closed cr_kind_segmentation_policy r.cluster_id cr.metadata.namespace
                cr.metadata.name)
        finalize_answer lib policies cr res

  -- Reconcile, after the answer of the reconcile call
  unfoldable pub reconcile_answer :
      SegmentationPolicy → PauseGate → Result ReconcileResult → Act W Outcome
  reconcile_answer cr gate (err e) = reconcile_error lib policies cr e
  reconcile_answer cr gate (ok result) =
      let why = inconsistent_segmentation_result result in
      if not (why == "")
      then not_ready lib policies cr reason_write_not_verified
          ("segmentation policy reconcile returned 200 but the response does not "
            <> ("confirm the write: " <> (why <> ". Not marking Ready.")))
          0
      else do
        answer ← update_status policies snapshot (ready_object lib cr gate result)
        elim answer [
          | err e ↦ pure (failed (wrap "updating status after successful reconcile: " e ""))
          | ok _ ↦ pure (requeued resync_interval)
        ]

  -- Reconcile, once the finalizer is in place: the mutating call
  unfoldable pub push : SegmentationPolicy → PauseGate → Act W Outcome
  push cr gate = do
    answer ← send plane r.cluster_id cr.metadata.namespace cr.metadata.name (to_wire_spec cr.spec)
    reconcile_answer cr gate answer

  -- Reconcile, past the pause gate
  unfoldable pub reconcile_unpaused : SegmentationPolicy → PauseGate → Act W Outcome
  reconcile_unpaused cr gate =
      if lib.contains_finalizer cr.metadata.finalizers cr_edges_finalizer then push cr gate else do
        answer ← update policies snapshot (record cr {
          metadata = record cr.metadata {
            finalizers = lib.add_finalizer cr.metadata.finalizers cr_edges_finalizer;
          };
        })
        elim answer [
          | err e ↦ pure (failed (wrap "adding finalizer: " e ""))
          | ok cr' ↦ push cr' gate
        ]

  -- Reconcile of an object that is not being deleted
  unfoldable pub reconcile_live : SegmentationPolicy → Act W Outcome
  reconcile_live cr = do
    gate ← check_pause_gate configs r.platform_config_name
    if gate.paused
        then not_ready lib policies cr gate.reason gate.message paused_requeue
        else reconcile_unpaused cr gate

  unfoldable pub reconcile : NamespacedName → Act W Outcome
  reconcile name = do
    answer ← get policies snapshot name
    elim answer [
      | err e ↦ pure (record { requeue_after = 0; error = ignore_not_found e })
      | ok cr ↦ elim cr.metadata.deletion_timestamp [
        | some at ↦ finalize cr
        | none ↦ reconcile_live cr
      ]
    ]
