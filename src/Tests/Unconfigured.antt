-- ===== src/Tests/Unconfigured.antt =====
-- An operator without a backend URL, on a cluster with one policy.
use k8boss_operator.Prelude.{◌≡◌, refl, arith, some, none, [], ◌∷◌, String}
use k8boss_operator.Backend.Errors.{unconfigured, ok, is_unconfigured}
use k8boss_operator.Backend.Transport.{new_unconfigured, do_request}
use k8boss_operator.Backend.Calls.{client_calls}
use k8boss_operator.Kube.{start}
use k8boss_operator.Common.Willing.{IsServing}
use k8boss_operator.Segmentation.{reconcile, snapshot}
use k8boss_operator.Segmentation.Refused.{IsHeldOff}
use k8boss_operator.Preflight.{
  check, new_checker, check_crds, check_backend, lister_of, listed_answer, probe_answer,
  served_names,
}
use k8boss_operator.Startup.{Settings, main, parse_cluster_id, atoi, missing_settings}
use k8boss_operator.Startup.Unconfigured.{main-IsHeldOff}
use k8boss_operator.Tests.Cluster.{
  apimachinery, serving, web_key, web_policy, default_config, refusing_http,
}

abbrev no_detail : String → String
no_detail raw = "invalid syntax"

abbrev bare_settings : Settings
bare_settings = record {
  backend_url = "";
  cluster_id = "42";
  operator_token = "t";
  platform_config_name = "default";
}

web-IsServing : IsServing (serving web_policy) (serving default_config)
web-IsServing = record {
  on_get = λ key w w' e h. ground arith;
  on_update = λ o w w' e h. ground arith;
  on_status = λ o w w' e h. ground arith;
  on_config = λ key w w' a h. ground arith;
}

main-IsHeldOff_example :
    let operator = main no_detail bare_settings in
    let (outcome, run) =
      reconcile apimachinery
        (serving web_policy)
        (serving default_config)
        (client_calls refusing_http operator.backend)
        operator.segmentation
        web_key
        (start tt) in
    IsHeldOff (unconfigured ("K8BOSS_BACKEND_URL" ∷ [])) (snapshot web_policy) outcome run.log
unfolding main missing_settings parse_cluster_id atoi new_unconfigured
main-IsHeldOff_example =
    main-IsHeldOff apimachinery (serving web_policy) (serving default_config) refusing_http
      no_detail bare_settings "K8BOSS_BACKEND_URL" [] web_key tt tt web_policy web-IsServing refl
      refl

-- The readiness check of that operator passes where the three resources are served.
preflight_run :
    (check
      (new_checker
        (some (
          ok (λ group w.
            (ok ("platformconfigs" ∷ "runtimesecuritypolicies" ∷ "segmentationpolicies" ∷ []), w))))
        (client_calls refusing_http (main no_detail bare_settings).backend).get_paused)
      tt).0
    ≡ none
unfolding check new_checker check_crds check_backend lister_of listed_answer probe_answer
    served_names main missing_settings parse_cluster_id atoi new_unconfigured client_calls
    do_request is_unconfigured
preflight_run = refl
