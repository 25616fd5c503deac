-- ===== src/Segmentation/Stopped.antt =====
-- internal/controller/segmentationpolicy_controller.go: one Reconcile while the kill switch is on.
use k8boss_operator.Prelude.{ℕ, String, ◌≡◌, true, not, ◌||◌, ◌==◌, ltb, length, items}
use k8boss_operator.Api.{SegmentationPolicy, PlatformConfig, NamespacedName}
use k8boss_operator.Backend.Errors.{Result, ok, err, is_unconfigured, is_paused}
use k8boss_operator.Backend.Wire.{CloseResult}
use k8boss_operator.Backend.Calls.{ControlPlane}
use k8boss_operator.Kube.{KubeClient, Apimachinery, Run, start}
use k8boss_operator.Common.{cr_edges_finalizer, gate_of}
use k8boss_operator.Common.Gate.{gate_of_cases}
use k8boss_operator.Common.Walk.{
  After, After-pure, After-if, After-option, After-ask, After-ask_result, After-singleton,
}
use k8boss_operator.Common.Stopped.{
  Switch, IsStill, IsStill-start, IsStill-calm, IsCalmFor, IsShutFor,
}
use k8boss_operator.Segmentation.{
  cr_kind_segmentation_policy, SegmentationPolicyReconciler, not_ready, release, finalize_answer,
  finalize, reconcile_live, reconcile,
}

module _ {W : Type 0} (lib : Apimachinery) (policies : KubeClient W SegmentationPolicy)
    (configs : KubeClient W PlatformConfig) (plane : ControlPlane W)
    (r : SegmentationPolicyReconciler) (seen : Switch W)
    (calm : IsCalmFor seen policies (plane.close_cr_edges cr_kind_segmentation_policy r.cluster_id))
    (shut : IsShutFor seen configs r.platform_config_name) (w₀ : W) where
  abbrev Still : {A : Type 0} → A → Run W → Type 0
  Still a s = IsStill seen w₀ s.world

  not_ready-Still :
      (cr : SegmentationPolicy) (reason message : String) (after : ℕ) (s : Run W)
      → IsStill seen w₀ s.world
      → After Still (not_ready lib policies cr reason message after) s
  unfolding not_ready
  not_ready-Still cr reason message after s h =
      After-ask _ _ _ (λ a w e. After-pure _ (IsStill-calm seen (calm.on_status _ _ _ _ e) h))

  release-Still :
      (what : String) (cr : SegmentationPolicy) (s : Run W)
      → IsStill seen w₀ s.world
      → After Still (release lib policies what cr) s
  unfolding release
  release-Still what cr s h =
      After-ask_result _ _ _ _
        (λ x w e. After-pure _ (IsStill-calm seen (calm.on_update _ _ _ _ e) h))
        (λ o w e. After-pure _ (IsStill-calm seen (calm.on_update _ _ _ _ e) h))

  finalize_answer-Still :
      (cr : SegmentationPolicy) (a : Result CloseResult) (s : Run W)
      → IsStill seen w₀ s.world
      → After Still (finalize_answer lib policies cr a) s
  unfolding finalize_answer
  finalize_answer-Still cr (ok res) s h =
      After-if (not (res.status == "ok") || ltb 0 (length (items res.unverified_edge_keys)))
        (λ _. not_ready-Still cr _ _ _ s h) (λ _. release-Still _ cr s h)
  finalize_answer-Still cr (err x) s h =
      After-if (is_unconfigured x) (λ _. release-Still _ cr s h)
        λ _.
          After-if (is_paused x) (λ _. not_ready-Still cr _ _ _ s h)
            (λ _. not_ready-Still cr _ _ _ s h)

  finalize-Still :
      (cr : SegmentationPolicy) (s : Run W)
      → IsStill seen w₀ s.world
      → After Still (finalize lib policies configs plane r cr) s
  unfolding finalize
  finalize-Still cr s h =
      After-if (not (lib.contains_finalizer cr.metadata.finalizers cr_edges_finalizer))
        (λ _. After-pure _ h)
        λ _.
          After-ask _ _ _ (λ a w e.
            finalize_answer-Still cr a _ (IsStill-calm seen (calm.on_close _ _ _ _ _ e) h))

  reconcile_live-Still :
      (cr : SegmentationPolicy) (s : Run W)
      → IsStill seen w₀ s.world
      → After Still (reconcile_live lib policies configs plane r cr) s
  unfolding reconcile_live
  reconcile_live-Still cr s h = After-singleton configs r.platform_config_name _ λ a w e.
      let (kept, not_off) = shut.on_read _ _ _ e in
      After-if (gate_of r.platform_config_name a).paused
        (λ _. not_ready-Still cr _ _ _ _ (IsStill-calm seen kept h))
        (λ off. absurd (not_off h.on ((gate_of_cases r.platform_config_name a).0.0 off)))

  pub reconcile-IsStill :
      (key : NamespacedName)
      → seen.on w₀ ≡ true
      → IsStill seen w₀ (reconcile lib policies configs plane r key (start w₀)).1.world
  unfolding reconcile
  reconcile-IsStill key h = after.holds
    where
      after : After Still (reconcile lib policies configs plane r key) (start w₀)
      after =
          After-ask_result _ _ _ _
            (λ x w e.
              After-pure _ (IsStill-calm seen (calm.on_get _ _ _ _ e) (IsStill-start seen h)))
            λ cr w e.
              let still : IsStill seen w₀ w =
                IsStill-calm seen (calm.on_get _ _ _ _ e) (IsStill-start seen h) in
              After-option cr.metadata.deletion_timestamp (λ at _. finalize-Still cr _ still)
                (λ _. reconcile_live-Still cr _ still)
