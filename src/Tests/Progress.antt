-- ===== src/Tests/Progress.antt =====
-- One reconcile of each policy on a cluster and a control plane that get in no one's way.
use k8boss_operator.Prelude.{refl, arith, false, pos}
use k8boss_operator.Kube.{start}
use k8boss_operator.Common.Willing.{IsServing, IsWilling, IsConcluded}
use k8boss_operator.Runtime
use k8boss_operator.Runtime.Progress.{reconcile_runtime-IsConcluded}
use k8boss_operator.Segmentation
use k8boss_operator.Segmentation.Progress.{reconcile-IsConcluded}
use k8boss_operator.Tests.Cluster.{
  apimachinery, serving, web_key, web_policy, leaving_tracing_policy, default_config, willing_plane,
  segmentation_reconciler, runtime_reconciler,
}
use k8boss_operator.Tests.World
use k8boss_operator.Tests.World.{World}

abbrev fresh : World
fresh = record { finalizer = false; edges = false }

web-IsServing : IsServing World.policies World.configs
web-IsServing = record {
  on_get = λ key w w' e h. ground arith;
  on_update = λ o w w' e h. ground arith;
  on_status = λ o w w' e h. ground arith;
  on_config = λ key w w' a h. ground arith;
}

web-IsWilling :
    IsWilling
      (World.plane.reconcile_segmentation_policy (pos 7))
      (World.plane.close_cr_edges Segmentation.cr_kind_segmentation_policy (pos 7))
      Segmentation.Confirmed.IsConverged
web-IsWilling = record {
  on_reconcile = λ n m spec w w' a h. ground arith;
  on_close = λ n m w w' a h. ground arith;
}

reconcile-IsConcluded_example :
    let (outcome, run) =
      Segmentation.reconcile apimachinery World.policies World.configs World.plane
        segmentation_reconciler web_key
        (start fresh) in
    IsConcluded (Segmentation.snapshot web_policy) outcome run.log
reconcile-IsConcluded_example =
    reconcile-IsConcluded apimachinery World.policies World.configs World.plane
      segmentation_reconciler web-IsServing web-IsWilling web_key fresh fresh web_policy refl

leaving-IsServing : IsServing (serving leaving_tracing_policy) (serving default_config)
leaving-IsServing = record {
  on_get = λ key w w' e h. ground arith;
  on_update = λ o w w' e h. ground arith;
  on_status = λ o w w' e h. ground arith;
  on_config = λ key w w' a h. ground arith;
}

leaving-IsWilling :
    IsWilling
      (willing_plane.reconcile_runtime_security_policy (pos 7))
      (willing_plane.close_cr_edges Runtime.cr_kind_runtime_security_policy (pos 7))
      Runtime.Confirmed.IsConverged
leaving-IsWilling = record {
  on_reconcile = λ n m spec w w' a h. ground arith;
  on_close = λ n m w w' a h. ground arith;
}

reconcile_runtime-IsConcluded_example :
    let (outcome, run) =
      Runtime.reconcile apimachinery
        (serving leaving_tracing_policy)
        (serving default_config)
        willing_plane
        runtime_reconciler
        web_key
        (start tt) in
    IsConcluded (Runtime.snapshot leaving_tracing_policy) outcome run.log
reconcile_runtime-IsConcluded_example =
    reconcile_runtime-IsConcluded apimachinery (serving leaving_tracing_policy)
      (serving default_config) willing_plane runtime_reconciler leaving-IsServing leaving-IsWilling
      web_key tt tt leaving_tracing_policy refl
