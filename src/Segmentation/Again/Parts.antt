-- ===== src/Segmentation/Again/Parts.antt =====
-- internal/controller/segmentationpolicy_controller.go: the parts of Reconcile, by what
-- each makes of the stored object where every call is answered alike.
use k8boss_operator.Prelude.{
  Option, ◌∙◌, ℕ, String, refl, ap, arith, eq_iff, Bool, not, ◌||◌, ◌==◌, ltb, length, items,
  if◌then◌else◌,
}
use k8boss_operator.Api.{
  SegmentationPolicy, PlatformConfig, NamespacedName, SegmentationPolicyStatus,
}
use k8boss_operator.Backend.Wire
use k8boss_operator.Backend.Errors.{GoError, Result, ok, err, is_unconfigured, is_paused, as_api}
use k8boss_operator.Backend.Wire.{ReconcileResult, CloseResult}
use k8boss_operator.Backend.Calls.{ControlPlane}
use k8boss_operator.Kube.{KubeClient, Apimachinery, Act, Outcome}
use k8boss_operator.Common.{cr_edges_finalizer, paused_requeue, PauseGate, set_condition}
use k8boss_operator.Common.Walk.{After-pure}
use k8boss_operator.Common.Steady.{
  Shape, lands, lands-IsLeft, Gives, IsSteady, After-known, Settles, Settles-if, Settles-option,
  Settles-report, Closes, Closes-if, Closes-Settles,
}
use k8boss_operator.Segmentation.{
  cr_kind_segmentation_policy, SegmentationPolicyReconciler, not_ready_object, ready_object,
  not_ready, release, reconcile_error, reconcile_answer, push, finalize_answer,
}
use k8boss_operator.Segmentation.Exchange.{inconsistent_segmentation_result}

abbrev pub shape : Shape SegmentationPolicy SegmentationPolicyStatus
shape = record {
  metadata = λ cr. cr.metadata;
  with_finalizers =
      λ cr finalizers. record cr { metadata = record cr.metadata { finalizers = finalizers } };
  with_status = λ cr status. record cr { status = status };
}

-- With our finalizer put on, and taken off
module _ (lib : Apimachinery) where
  abbrev pub tagged : SegmentationPolicy → SegmentationPolicy
  tagged cr = shape.with_finalizers cr (lib.add_finalizer cr.metadata.finalizers cr_edges_finalizer)

  abbrev pub released : SegmentationPolicy → SegmentationPolicy
  released cr =
      shape.with_finalizers cr (lib.remove_finalizer cr.metadata.finalizers cr_edges_finalizer)

-- What is done with an object that is not being deleted, once the gate is read and the finalizer on
module _ {W : Type 0} (lib : Apimachinery) (policies : KubeClient W SegmentationPolicy)
    (configs : KubeClient W PlatformConfig) (plane : ControlPlane W)
    (r : SegmentationPolicyReconciler) (gate : PauseGate) where
  abbrev pub past_gate : Bool → SegmentationPolicy → Act W Outcome
  past_gate paused cr =
      if paused
      then not_ready lib policies cr gate.reason gate.message paused_requeue
      else push lib policies configs plane r cr gate

module _ {W : Type 0} (lib : Apimachinery) (policies : KubeClient W SegmentationPolicy)
    (configs : KubeClient W PlatformConfig) (plane : ControlPlane W)
    (r : SegmentationPolicyReconciler) (key : NamespacedName)
    (stored : W → Option SegmentationPolicy) (config : Result PlatformConfig)
    (close : Result CloseResult)
    (steady : IsSteady shape stored policies configs r.platform_config_name key
      (plane.close_cr_edges cr_kind_segmentation_policy r.cluster_id)
      config
      close)
    (answer : Result ReconcileResult)
    (answers : (ns name : String) (spec : Wire.SegmentationPolicySpec) (w : W)
      → Gives shape stored
          (plane.reconcile_segmentation_policy r.cluster_id ns name spec w)
          answer
          (stored w)) where
  not_ready-Settles :
      (reason message : String) (after : ℕ)
      → Settles shape stored (λ cr. not_ready lib policies cr reason message after)
  unfolding not_ready not_ready_object set_condition
  not_ready-Settles reason message after = record {
    to = λ cr. not_ready_object lib cr reason message;
    again = λ cr.
        ap (λ cs. record cr { status = record cr.status { conditions = cs } })
          (lib.set_status_condition_self _ _);
    same = λ cr. refl;
    puts = λ cr s h.
        After-known shape stored _ _ _ (steady.on_status cr _ _ h) (λ s' e. After-pure _ e);
  }

  reconcile_error-Settles :
      (e : GoError) → Settles shape stored (λ cr. reconcile_error lib policies cr e)
  unfolding reconcile_error
  reconcile_error-Settles e =
      Settles-if shape stored (is_unconfigured e) (not_ready-Settles _ _ _) (
        Settles-if shape stored (is_paused e) (not_ready-Settles _ _ _) (
          Settles-option shape stored (as_api e) (λ api. not_ready-Settles _ _ _)
            (Settles-report shape stored e (not_ready-Settles _ _ _))))

  reconcile_answer-Settles :
      (gate : PauseGate) (a : Result ReconcileResult)
      → Settles shape stored (λ cr. reconcile_answer lib policies configs plane r cr gate a)
  unfolding reconcile_answer ready_object set_condition
  reconcile_answer-Settles gate (err e) = reconcile_error-Settles e
  reconcile_answer-Settles gate (ok res) =
      Settles-if shape stored (not (inconsistent_segmentation_result res == ""))
        (not_ready-Settles _ _ _)
        (record {
          to = λ cr. ready_object lib cr gate res;
          again = λ cr.
              ap
                (λ cs. record (ready_object lib cr gate res) {
                  status = record (ready_object lib cr gate res).status { conditions = cs };
                })
                (lib.set_status_condition_self _ _);
          same = λ cr. refl;
          puts = λ cr s h.
              After-known shape stored _ _ _ (steady.on_status cr _ _ h) (λ s' e. After-pure _ e);
        })

  release-Closes : (what : String) → Closes shape stored (λ cr. release lib policies what cr)
  unfolding release
  release-Closes what = record {
    to = λ cr. lands shape (released lib cr);
    left = λ cr. lands-IsLeft shape _ cr (released lib cr) refl (
        ground (
          arith,
          lib.contains-remove_finalizer cr.metadata.finalizers cr_edges_finalizer
              cr_edges_finalizer,
          eq_iff cr_edges_finalizer cr_edges_finalizer,
        ));
    puts = λ cr s h.
        After-known shape stored _ _ _
          (steady.on_remove cr (lib.remove_finalizer cr.metadata.finalizers cr_edges_finalizer) _ h
            λ f there.
              ground
                (arith, lib.contains-remove_finalizer cr.metadata.finalizers cr_edges_finalizer f))
          (λ s' e. After-pure _ e);
  }

  pub finalize_answer-Closes :
      (a : Result CloseResult) → Closes shape stored (λ cr. finalize_answer lib policies cr a)
  unfolding finalize_answer
  finalize_answer-Closes (ok res) =
      Closes-if shape stored
        (not (res.status == "ok") || ltb 0 (length (items res.unverified_edge_keys)))
        (Closes-Settles shape stored (not_ready-Settles _ _ _)) (release-Closes _)
  finalize_answer-Closes (err e) = Closes-if shape stored (is_unconfigured e) (release-Closes _) (
      Closes-Settles shape stored
        (Settles-if shape stored (is_paused e) (not_ready-Settles _ _ _) (not_ready-Settles _ _ _)))

  pub past_gate-Settles :
      (gate : PauseGate)
      → Settles shape stored (past_gate lib policies configs plane r gate gate.paused)
  unfolding push
  past_gate-Settles gate = Settles-if shape stored gate.paused (not_ready-Settles _ _ _) (
      let settled = reconcile_answer-Settles gate answer in
      record {
        to = settled.to;
        again = settled.again;
        same = settled.same;
        puts = λ cr s h.
            After-known shape stored _ _ _ (answers _ _ _ _) (λ s' e. settled.puts cr s' (e ∙ h));
      })
