-- ===== src/Tests/Deployment.antt =====
-- The readiness check and the startup run on a few settings.
use k8boss_operator.Prelude.{ℕ, ◌<◌, String, ◌≡◌, ◌↔◌, refl, none, some, [], ◌∷◌, pos, negsuc}
use k8boss_operator.Backend.Errors.{ok}
use k8boss_operator.Backend.Transport.{new}
use k8boss_operator.Preflight.{Checker, check}
use k8boss_operator.Preflight.Answers.{IsReady, check-eq-none}
use k8boss_operator.Startup.{Settings, atoi, main, parse_cluster_id}
use k8boss_operator.Startup.Configured.{parse_cluster_id-eq-ok, main-cluster_id}
use k8boss_operator.Tests.Cluster.{willing_plane}

abbrev no_detail : String → String
no_detail raw = "invalid syntax"

parse_cluster_id-eq-ok_example :
    (parse_cluster_id no_detail "42" ≡ ok (pos 42))
    ↔ ((n : ℕ) × (atoi "42" ≡ some (pos n)) × (pos 42 ≡ pos n) × (0 < n) × (n < 0x8000000000000000))
parse_cluster_id-eq-ok_example = parse_cluster_id-eq-ok no_detail "42" (pos 42)

abbrev settings : Settings
settings = record {
  backend_url = "https://plane/";
  cluster_id = "42";
  operator_token = "t";
  platform_config_name = "default";
}

main-cluster_id_example :
    (n : ℕ) × (0 < n)
    × (atoi settings.cluster_id ≡ some (pos n))
    × ((main no_detail settings).segmentation.cluster_id ≡ pos n)
    × ((main no_detail settings).runtime.cluster_id ≡ pos n)
    × ((main no_detail settings).platform.cluster_id ≡ pos n)
unfolding main parse_cluster_id atoi new
main-cluster_id_example = main-cluster_id no_detail settings refl

abbrev checker : Checker Unit
checker = record {
  discovery = some (λ group w.
      (ok ("platformconfigs" ∷ "platformconfigs/status" ∷ "segmentationpolicies" ∷ []), w));
  config = none;
  backend = some willing_plane.get_paused;
}

check-eq-none_example : ((check checker tt).0 ≡ none) ↔ IsReady checker tt
check-eq-none_example = check-eq-none checker tt

atoi_run :
    (atoi "-9223372036854775808" ≡ some (negsuc 0x7fffffffffffffff))
    × (atoi "9223372036854775808" ≡ none)
    × (atoi "+7" ≡ some (pos 7))
    × (atoi "" ≡ none)
    × (atoi "-" ≡ none)
unfolding atoi
atoi_run = (refl, refl, refl, refl, refl)
