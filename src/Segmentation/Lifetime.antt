-- ===== src/Segmentation/Lifetime.antt =====
-- internal/controller/segmentationpolicy_controller.go: any number of reconciles of one policy, with
-- whatever users and other clients do between them.
use k8boss_operator.Api.{SegmentationPolicy, PlatformConfig, NamespacedName}
use k8boss_operator.Backend.Calls.{ControlPlane}
use k8boss_operator.Kube.{KubeClient, Apimachinery, start}
use k8boss_operator.Segmentation.{
  cr_kind_segmentation_policy, snapshot, SegmentationPolicyReconciler, reconcile,
}
use k8boss_operator.Common.Edges.{Observation, IsCovered, IsHarmless, IsHarmless-keeps, IsSound}
use k8boss_operator.Segmentation.Edges.{reconcile-Kept}

module _ {W : Type 0} (lib : Apimachinery) (policies : KubeClient W SegmentationPolicy)
    (configs : KubeClient W PlatformConfig) (plane : ControlPlane W)
    (r : SegmentationPolicyReconciler) (key : NamespacedName) (seen : Observation W) where
  -- One Reconcile of the policy, or anything else that takes no finalizer off and opens no edge.
  pub data Step : W → W → Type 0 where
    reconciled : (w : W) → Step w (reconcile lib policies configs plane r key (start w)).1.world
    elsewhere : {w w' : W} → IsHarmless seen w w' → Step w w'

  -- One state can become the other by steps.
  pub data Reaches : W → W → Type 0 where
    here : {w : W} → Reaches w w
    then : {w w' w'' : W} → Reaches w w' → Step w' w'' → Reaches w w''

  -- With a configured control plane, and with Kubernetes and the control plane as `IsSound` says: from
  -- a state in which the policy has its finalizer if the graph has open edges for it, every state that
  -- reconciles, failing at whatever call, and harmless steps between them can reach is such a state.
  pub Reaches-IsCovered :
      IsSound seen snapshot policies configs
        (plane.reconcile_segmentation_policy r.cluster_id)
        (plane.close_cr_edges cr_kind_segmentation_policy r.cluster_id)
        key
      → (w w' : W) → IsCovered seen w
      → Reaches w w'
      → IsCovered seen w'
  Reaches-IsCovered sound w w' h here = h
  Reaches-IsCovered sound w w'' h (then before (reconciled w')) =
      (reconcile-Kept lib policies configs plane r key seen sound w'
        (Reaches-IsCovered sound w w' h before)).holds
  Reaches-IsCovered sound w w'' h (then before (elsewhere harmless)) =
      IsHarmless-keeps seen harmless (Reaches-IsCovered sound w _ h before)
