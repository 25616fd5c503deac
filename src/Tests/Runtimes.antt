-- ===== src/Tests/Runtimes.antt =====
-- The RuntimeSecurityPolicy reconciler run on a small cluster.
use k8boss_operator.Prelude.{◌≡◌, ◌↔◌, false}
use k8boss_operator.Kube.{start}
use k8boss_operator.Common.Evidence.{Every, IsGuarded, IsRelease, IsBacked}
use k8boss_operator.Common.Endings.{IsAccounted}
use k8boss_operator.Common.Edges.{IsCovered}
use k8boss_operator.Runtime
use k8boss_operator.Runtime.Lifetime
use k8boss_operator.Runtime.Lifetime.{Reaches-IsCovered_runtime}
use k8boss_operator.Runtime.Exchange.{inconsistent_runtime_result}
use k8boss_operator.Runtime.Safety.{
  reconcile_runtime-IsGuarded, reconcile_runtime-IsRelease, reconcile_runtime-IsBacked,
}
use k8boss_operator.Runtime.Endings.{reconcile_runtime-IsAccounted}
use k8boss_operator.Tests.World
use k8boss_operator.Tests.Cluster.{
  apimachinery, serving, web_key, tracing_policy, leaving_tracing_policy, default_config, converged,
  willing_plane, runtime_reconciler,
}

abbrev bare_world : World.World
bare_world = record { finalizer = false; edges = false }

Reaches-IsCovered_runtime_example :
    IsCovered World.seen
      (Runtime.reconcile apimachinery World.tracing_policies World.configs World.plane
        runtime_reconciler web_key
        (start bare_world)).1.world
Reaches-IsCovered_runtime_example =
    Reaches-IsCovered_runtime apimachinery World.tracing_policies World.configs World.plane
      runtime_reconciler web_key World.seen World.tracing-IsSound bare_world
      (Runtime.reconcile apimachinery World.tracing_policies World.configs World.plane
        runtime_reconciler web_key (start bare_world)).1.world
      (λ o. o) (Lifetime.then Lifetime.here (Lifetime.reconciled bare_world))

reconcile_runtime-IsGuarded_example :
    Every IsGuarded
      (Runtime.reconcile apimachinery
        (serving tracing_policy)
        (serving default_config)
        willing_plane
        runtime_reconciler
        web_key
        (start tt)).1.log
reconcile_runtime-IsGuarded_example =
    reconcile_runtime-IsGuarded apimachinery (serving tracing_policy) (serving default_config)
      willing_plane runtime_reconciler web_key tt

reconcile_runtime-IsRelease_example :
    Every IsRelease
      (Runtime.reconcile apimachinery
        (serving leaving_tracing_policy)
        (serving default_config)
        willing_plane
        runtime_reconciler
        web_key
        (start tt)).1.log
reconcile_runtime-IsRelease_example =
    reconcile_runtime-IsRelease apimachinery (serving leaving_tracing_policy)
      (serving default_config) willing_plane runtime_reconciler web_key tt

reconcile_runtime-IsBacked_example :
    Every
      (IsBacked Runtime.Confirmed.IsConverged)
      (Runtime.reconcile apimachinery
        (serving tracing_policy)
        (serving default_config)
        willing_plane
        runtime_reconciler
        web_key
        (start tt)).1.log
reconcile_runtime-IsBacked_example =
    reconcile_runtime-IsBacked apimachinery (serving tracing_policy) (serving default_config)
      willing_plane runtime_reconciler web_key tt

reconcile_runtime-IsAccounted_example :
    IsAccounted
      (Runtime.reconcile apimachinery
        (serving tracing_policy)
        (serving default_config)
        willing_plane
        runtime_reconciler
        web_key
        (start tt)).0
      (Runtime.reconcile apimachinery
        (serving tracing_policy)
        (serving default_config)
        willing_plane
        runtime_reconciler
        web_key
        (start tt)).1.log
reconcile_runtime-IsAccounted_example =
    reconcile_runtime-IsAccounted apimachinery (serving tracing_policy) (serving default_config)
      willing_plane runtime_reconciler web_key tt

inconsistent_runtime_result-eq-nil_example :
    (inconsistent_runtime_result converged ≡ "") ↔ Runtime.Confirmed.IsConverged converged
inconsistent_runtime_result-eq-nil_example =
    Runtime.Confirmed.inconsistent_runtime_result-eq-nil converged
