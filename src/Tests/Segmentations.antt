-- ===== src/Tests/Segmentations.antt =====
-- The SegmentationPolicy reconciler run on a small cluster.
use k8boss_operator.Prelude.{◌≡◌, ◌↔◌, refl, false}
use k8boss_operator.Kube.{start, requeued, done}
use k8boss_operator.Common.{PauseGate, gate_of}
use k8boss_operator.Common.Evidence.{Every, IsGuarded, IsRelease, IsBacked}
use k8boss_operator.Common.Endings.{IsAccounted}
use k8boss_operator.Segmentation
use k8boss_operator.Segmentation.Exchange.{inconsistent_segmentation_result}
use k8boss_operator.Segmentation.Safety.{
  reconcile-IsGuarded, reconcile-IsRelease, reconcile-IsBacked,
}
use k8boss_operator.Segmentation.Endings.{reconcile-IsAccounted}
use k8boss_operator.Common.Edges.{IsCovered}
use k8boss_operator.Segmentation.Lifetime.{Reaches-IsCovered, reconciled, here, then}
use k8boss_operator.Tests.World
use k8boss_operator.Tests.Cluster.{
  apimachinery, serving, web_key, web_policy, leaving_policy, default_config, converged,
  willing_plane, segmentation_reconciler,
}

abbrev bare_world : World.World
bare_world = record { finalizer = false; edges = false }

Reaches-IsCovered_example :
    IsCovered World.seen
      (Segmentation.reconcile apimachinery World.policies World.configs World.plane
        segmentation_reconciler web_key
        (start bare_world)).1.world
Reaches-IsCovered_example =
    Reaches-IsCovered apimachinery World.policies World.configs World.plane segmentation_reconciler
      web_key World.seen World.web-IsSound bare_world
      (Segmentation.reconcile apimachinery World.policies World.configs World.plane
        segmentation_reconciler web_key (start bare_world)).1.world
      (λ o. o) (then here (reconciled bare_world))

reconcile-IsGuarded_example :
    Every IsGuarded
      (Segmentation.reconcile apimachinery
        (serving web_policy)
        (serving default_config)
        willing_plane
        segmentation_reconciler
        web_key
        (start tt)).1.log
reconcile-IsGuarded_example =
    reconcile-IsGuarded apimachinery (serving web_policy) (serving default_config) willing_plane
      segmentation_reconciler web_key tt

reconcile-IsRelease_example :
    Every IsRelease
      (Segmentation.reconcile apimachinery
        (serving leaving_policy)
        (serving default_config)
        willing_plane
        segmentation_reconciler
        web_key
        (start tt)).1.log
reconcile-IsRelease_example =
    reconcile-IsRelease apimachinery (serving leaving_policy) (serving default_config) willing_plane
      segmentation_reconciler web_key tt

reconcile-IsBacked_example :
    Every
      (IsBacked Segmentation.Confirmed.IsConverged)
      (Segmentation.reconcile apimachinery
        (serving web_policy)
        (serving default_config)
        willing_plane
        segmentation_reconciler
        web_key
        (start tt)).1.log
reconcile-IsBacked_example =
    reconcile-IsBacked apimachinery (serving web_policy) (serving default_config) willing_plane
      segmentation_reconciler web_key tt

reconcile-IsAccounted_example :
    IsAccounted
      (Segmentation.reconcile apimachinery
        (serving web_policy)
        (serving default_config)
        willing_plane
        segmentation_reconciler
        web_key
        (start tt)).0
      (Segmentation.reconcile apimachinery
        (serving web_policy)
        (serving default_config)
        willing_plane
        segmentation_reconciler
        web_key
        (start tt)).1.log
reconcile-IsAccounted_example =
    reconcile-IsAccounted apimachinery (serving web_policy) (serving default_config) willing_plane
      segmentation_reconciler web_key tt

inconsistent_segmentation_result-eq-nil_example :
    (inconsistent_segmentation_result converged ≡ "") ↔ Segmentation.Confirmed.IsConverged converged
inconsistent_segmentation_result-eq-nil_example =
    Segmentation.Confirmed.inconsistent_segmentation_result-eq-nil converged

-- The whole path of a new policy: it ends Ready, and comes back after the resync interval.
reconcile_run :
    (Segmentation.reconcile apimachinery
      (serving web_policy)
      (serving default_config)
      willing_plane
      segmentation_reconciler
      web_key
      (start tt)).0
    ≡ requeued 600
unfolding Segmentation.reconcile k8boss_operator.Kube.◌>>=◌ k8boss_operator.Kube.ask
    Segmentation.reconcile_live k8boss_operator.Common.check_pause_gate k8boss_operator.Kube.pure
    gate_of Segmentation.reconcile_unpaused Segmentation.push Segmentation.reconcile_answer
    inconsistent_segmentation_result
reconcile_run = refl

-- A deletion whose close is confirmed takes the finalizer off.
finalize_run :
    (Segmentation.reconcile apimachinery
      (serving leaving_policy)
      (serving default_config)
      willing_plane
      segmentation_reconciler
      web_key
      (start tt)).0
    ≡ done
unfolding Segmentation.reconcile k8boss_operator.Kube.◌>>=◌ k8boss_operator.Kube.ask
    Segmentation.finalize Segmentation.finalize_answer Segmentation.release
    k8boss_operator.Kube.pure
finalize_run = refl
