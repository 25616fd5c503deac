-- ===== src/Tests/Setups.antt =====
-- The registrations of the operator, and its PlatformConfig controller with a watch that compares
-- generations.
use k8boss_operator.Prelude.{
  Bool, ◌≡◌, ◌≢◌, refl, arith, true, not, ◌&&◌, ◌<>◌, List, [], ◌∷◌, eq_ℤ, eq_ℤ_iff,
}
use k8boss_operator.Api.{ObjectMeta}
use k8boss_operator.Kube.{start}
use k8boss_operator.Common.Evidence.{Every}
use k8boss_operator.Platform
use k8boss_operator.Preflight.{group_version}
use k8boss_operator.Setup
use k8boss_operator.Setup.{
  WatchPredicate, generation_changed, init_platform_config, init_runtime_security_policy,
  init_segmentation_policy, set_up_platform_config, set_up_runtime_security_policy,
  set_up_segmentation_policy,
}
use k8boss_operator.Setup.Loops.{Watch, IsStatusOnly, IsQuiet, reconcile_platform-IsQuiet}
use k8boss_operator.Tests.Cluster.{
  apimachinery, serving, willing_plane, platform_reconciler, web_key, default_config,
}

abbrev passes : List WatchPredicate → ObjectMeta → ObjectMeta → Bool
passes [] old new = true
passes (generation_changed ∷ ps) old new =
    not (eq_ℤ old.generation new.generation) && passes ps old new

passes-ne :
    (old new : ObjectMeta)
    → passes (generation_changed ∷ []) old new ≡ true
    → old.generation ≢ new.generation
passes-ne old new h e = ground (arith, eq_ℤ_iff old.generation new.generation)

abbrev watch : Watch
watch = record { passes = passes; generation_changed_lem = passes-ne }

serving-IsStatusOnly : IsStatusOnly (serving default_config)
serving-IsStatusOnly = record { on_status = λ o o' w w' e. ground arith }

reconcile_platform-IsQuiet_example :
    Every
      (IsQuiet watch)
      (Platform.reconcile apimachinery
        (serving default_config)
        willing_plane
        platform_reconciler
        12
        web_key
        (start tt)).1.log
reconcile_platform-IsQuiet_example =
    reconcile_platform-IsQuiet apimachinery (serving default_config) willing_plane
      platform_reconciler watch serving-IsStatusOnly 12 web_key tt

-- Every kind that a controller watches is registered, with its list.
registered_run :
    (init_platform_config ≡ set_up_platform_config.watches ∷ Setup.platform_config_list ∷ [])
    × (init_runtime_security_policy
        ≡ set_up_runtime_security_policy.watches ∷ Setup.runtime_security_policy_list ∷ [])
    × (init_segmentation_policy
        ≡ set_up_segmentation_policy.watches ∷ Setup.segmentation_policy_list ∷ [])
unfolding init_platform_config init_runtime_security_policy init_segmentation_policy
    set_up_platform_config set_up_runtime_security_policy set_up_segmentation_policy
registered_run = (refl, refl, refl)

-- What the readiness check asks for is the group that the types are registered under.
group_run : group_version ≡ Setup.group_version.group <> ("/" <> Setup.group_version.version)
group_run = refl
