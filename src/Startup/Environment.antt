-- ===== src/Startup/Environment.antt =====
-- cmd/main.go: what the operator is without a flag on its command line, as the shipped Deployment
-- configures it, by the environment.
use k8boss_operator.Prelude.{
  ℕ, ◌<◌, String, ◌≡◌, ◌≢◌, ◌↔◌, refl, arith, eq_iff, some, [], pos, ◌==◌, if◌then◌else◌,
}
use k8boss_operator.Startup.{atoi, env_or, main}
use k8boss_operator.Startup.Configured.{main-configured}
use k8boss_operator.Startup.Manager.{default_flags, settings_of}

env_or_lem :
    (value fallback : String) → env_or value fallback ≡ (if value == "" then fallback else value)
unfolding env_or
env_or_lem value fallback = ground arith

env_or-default : (value : String) → env_or value "default" ≢ ""
env_or-default value e =
    ground (arith, eq_iff value "", eq_iff "default" "", env_or_lem value "default", e)

-- With every flag at its default, the operator is configured exactly when the environment has a backend
-- URL, a token, and a cluster id whose text denotes a positive number of 64 bits. The three
-- reconcilers have one and the same name of the PlatformConfig, which is never empty: it is the
-- environment's, or "default" where that is empty.
pub main-default_flags :
    (atoi_error getenv : String → String)
    → let operator = main atoi_error (settings_of getenv (default_flags getenv)) in
      ((operator.backend.missing ≡ []) ↔ (
        (getenv "K8BOSS_BACKEND_URL" ≢ "")
        × (getenv "K8BOSS_OPERATOR_TOKEN" ≢ "")
        × ((n : ℕ) × (atoi (getenv "K8BOSS_CLUSTER_ID") ≡ some (pos n)) × (0 < n))))
      × (operator.platform.platform_config_name ≢ "")
      × (operator.platform.platform_config_name ≡ (
          if getenv "K8BOSS_PLATFORMCONFIG_NAME" == ""
          then "default"
          else getenv "K8BOSS_PLATFORMCONFIG_NAME"))
      × (operator.segmentation.platform_config_name ≡ operator.platform.platform_config_name)
      × (operator.runtime.platform_config_name ≡ operator.platform.platform_config_name)
unfolding main settings_of default_flags
main-default_flags atoi_error getenv = (
  main-configured atoi_error (settings_of getenv (default_flags getenv)),
  env_or-default (getenv "K8BOSS_PLATFORMCONFIG_NAME"),
  env_or_lem (getenv "K8BOSS_PLATFORMCONFIG_NAME") "default",
  refl,
  refl,
)
