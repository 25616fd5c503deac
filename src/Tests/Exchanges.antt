-- ===== src/Tests/Exchanges.antt =====
-- The calls of one Reconcile of each policy, on a cluster where nothing fails.
use k8boss_operator.Prelude.{◌≤◌, length}
use k8boss_operator.Kube.{start}
use k8boss_operator.Common.Protocol
use k8boss_operator.Segmentation
use k8boss_operator.Segmentation.Confirmed.{IsConverged as IsConvergedSegmentation}
use k8boss_operator.Segmentation.Sent.{IsSent as IsSentSegmentation}
use k8boss_operator.Segmentation.Protocol.{reconcile-Exchange}
use k8boss_operator.Runtime
use k8boss_operator.Runtime.Confirmed.{IsConverged as IsConvergedRuntime}
use k8boss_operator.Runtime.Sent.{IsSent as IsSentRuntime}
use k8boss_operator.Runtime.Protocol.{reconcile_runtime-Exchange}
use k8boss_operator.Tests.Cluster.{
  apimachinery, serving, willing_plane, segmentation_reconciler, runtime_reconciler, web_key,
  web_policy, leaving_tracing_policy, default_config,
}

reconcile-Exchange_example :
    Protocol.Exchange IsConvergedSegmentation IsSentSegmentation "SegmentationPolicy"
      segmentation_reconciler.cluster_id segmentation_reconciler.platform_config_name web_key
      Protocol.over
      (Segmentation.reconcile apimachinery
        (serving web_policy)
        (serving default_config)
        willing_plane
        segmentation_reconciler
        web_key
        (start tt)).1.log
    × (length
          (Segmentation.reconcile apimachinery
            (serving web_policy)
            (serving default_config)
            willing_plane
            segmentation_reconciler
            web_key
            (start tt)).1.log
        ≤ 5)
reconcile-Exchange_example =
    reconcile-Exchange apimachinery (serving web_policy) (serving default_config) willing_plane
      segmentation_reconciler web_key tt

reconcile_runtime-Exchange_example :
    Protocol.Exchange IsConvergedRuntime IsSentRuntime "RuntimeSecurityPolicy"
      runtime_reconciler.cluster_id runtime_reconciler.platform_config_name web_key Protocol.over
      (Runtime.reconcile apimachinery
        (serving leaving_tracing_policy)
        (serving default_config)
        willing_plane
        runtime_reconciler
        web_key
        (start tt)).1.log
    × (length
          (Runtime.reconcile apimachinery
            (serving leaving_tracing_policy)
            (serving default_config)
            willing_plane
            runtime_reconciler
            web_key
            (start tt)).1.log
        ≤ 5)
reconcile_runtime-Exchange_example =
    reconcile_runtime-Exchange apimachinery (serving leaving_tracing_policy)
      (serving default_config) willing_plane runtime_reconciler web_key tt
