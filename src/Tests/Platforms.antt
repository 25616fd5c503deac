-- ===== src/Tests/Platforms.antt =====
-- The PlatformConfig reconciler run on a small cluster.
use k8boss_operator.Prelude.{◌≡◌, [], ◌∷◌, length}
use k8boss_operator.Kube.{start}
use k8boss_operator.Common.Evidence.{Every}
use k8boss_operator.Platform
use k8boss_operator.Platform.Health.{split_provider_health}
use k8boss_operator.Platform.Health.Verdicts.{AreEntriesOf, split_provider_health_lem}
use k8boss_operator.Platform.Safety.{reconcile_platform-IsBacked, reconcile_platform-IsOwned}
use k8boss_operator.Platform.Endings.{reconcile_platform-IsSettled}
use k8boss_operator.Tests.Cluster.{
  apimachinery, serving, web_key, default_config, cilium, tetragon, willing_plane,
  platform_reconciler,
}

reconcile_platform-IsBacked_example :
    Every Platform.Safety.IsBacked
      (Platform.reconcile apimachinery
        (serving default_config)
        willing_plane
        platform_reconciler
        12
        web_key
        (start tt)).1.log
reconcile_platform-IsBacked_example =
    reconcile_platform-IsBacked apimachinery (serving default_config) willing_plane
      platform_reconciler 12 web_key tt

reconcile_platform-IsOwned_example :
    Every
      (Platform.Safety.IsOwned "default")
      (Platform.reconcile apimachinery
        (serving default_config)
        willing_plane
        platform_reconciler
        12
        web_key
        (start tt)).1.log
reconcile_platform-IsOwned_example =
    reconcile_platform-IsOwned apimachinery (serving default_config) willing_plane
      platform_reconciler 12 web_key tt

reconcile_platform-IsSettled_example :
    Platform.Endings.IsSettled
      (Platform.reconcile apimachinery
        (serving default_config)
        willing_plane
        platform_reconciler
        12
        web_key
        (start tt)).0
      (Platform.reconcile apimachinery
        (serving default_config)
        willing_plane
        platform_reconciler
        12
        web_key
        (start tt)).1.log
reconcile_platform-IsSettled_example =
    reconcile_platform-IsSettled apimachinery (serving default_config) willing_plane
      platform_reconciler 12 web_key tt

split_provider_health_lem_example :
    AreEntriesOf 12 (cilium ∷ tetragon ∷ []) (split_provider_health 12 (cilium ∷ tetragon ∷ [])).0
    × (length (split_provider_health 12 (cilium ∷ tetragon ∷ [])).1 ≡ 1)
split_provider_health_lem_example = split_provider_health_lem 12 (cilium ∷ tetragon ∷ [])
