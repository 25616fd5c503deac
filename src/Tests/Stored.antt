-- ===== src/Tests/Stored.antt =====
-- A server that keeps the provider health of one PlatformConfig, and a control plane that cannot say how
-- its providers are.
use k8boss_operator.Prelude.{◌≡◌, ◌⊎◌, inr, arith, true, pos, none, some, List, [], ◌∷◌}
use k8boss_operator.Api.{PlatformConfig, ProviderHealthStatus, unhealthy}
use k8boss_operator.Backend.Errors.{ok, err, plain}
use k8boss_operator.Backend.Calls.{ControlPlane}
use k8boss_operator.Kube.{KubeClient, start}
use k8boss_operator.Platform.{reconcile}
use k8boss_operator.Platform.Stored.{IsStoring, IsRead, reconcile_platform-IsKept}
use k8boss_operator.Tests.Cluster.{
  apimachinery, web_key, default_config, converged, platform_reconciler,
}

abbrev server : KubeClient (List ProviderHealthStatus) PlatformConfig
server = record {
  get = λ name w. (
    ok (record default_config { status = record default_config.status { provider_health = w } }),
    w,
  );
  update = λ o w. (ok o, w);
  update_status = λ o w. (ok o, o.status.provider_health);
}

abbrev silent_plane : ControlPlane (List ProviderHealthStatus)
silent_plane = record {
  reconcile_segmentation_policy = λ id ns name spec w. (ok converged, w);
  reconcile_runtime_security_policy = λ id ns name spec w. (ok converged, w);
  close_cr_edges = λ kind id ns name w.
      (ok (record { status = "ok"; edges_closed = pos 0; unverified_edge_keys = none }), w);
  set_paused = λ paused by w. (
    ok (record { paused = paused; updated_at = none; updated_by = some by; ever_set = true }),
    w,
  );
  get_paused = λ w. (err (plain "timeout"), w);
  provider_health = λ id w. (err (plain "timeout"), w);
}

server-IsStoring : IsStoring (λ w. w) server silent_plane (pos 7) web_key
server-IsStoring = record {
  on_get = λ w w' a e. ground arith;
  on_got = λ w w' cr e. ground arith;
  on_status = λ o w w' a e. inr (ground arith);
  on_paused = λ b by w w' a e. ground arith;
  on_health = λ w w' a e. ground arith;
}

abbrev entries : List ProviderHealthStatus
entries =
    record {
      name = "cilium";
      health = unhealthy;
      last_query_error = "no hubble relay";
      reason = "";
      observed_at = 3;
    }
    ∷ []

reconcile_platform-IsKept_example :
    let run =
      (reconcile apimachinery server silent_plane platform_reconciler 12 web_key
        (start entries)).1 in
    (run.world ≡ entries) ⊎ IsRead 12 run.world run.log
reconcile_platform-IsKept_example =
    reconcile_platform-IsKept apimachinery server silent_plane platform_reconciler 12 web_key
      (λ w. w) server-IsStoring entries
