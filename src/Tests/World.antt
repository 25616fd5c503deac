-- ===== src/Tests/World.antt =====
-- Test data: a cluster with one policy, which has its finalizer or not, and a graph that has open
-- edges for it or not.
use k8boss_operator.Prelude.{
  arith, Bool, true, false, none, some, [], ◌∷◌, contains, if◌then◌else◌, pos,
}
use k8boss_operator.Api.{SegmentationPolicy, RuntimeSecurityPolicy, PlatformConfig}
use k8boss_operator.Backend.Errors.{ok}
use k8boss_operator.Backend.Calls.{ControlPlane}
use k8boss_operator.Kube.{KubeClient}
use k8boss_operator.Common.{cr_edges_finalizer}
use k8boss_operator.Common.Edges.{Observation, IsSound}
use k8boss_operator.Runtime
use k8boss_operator.Runtime.{cr_kind_runtime_security_policy}
use k8boss_operator.Segmentation
use k8boss_operator.Segmentation.{cr_kind_segmentation_policy}
use k8boss_operator.Tests.Cluster.{web_key, web_policy, tracing_policy, default_config, converged}

pub record World : Type 0 where
  pub finalizer : Bool
  pub edges : Bool

abbrev pub seen : Observation World
seen = record { held = λ w. w.finalizer; has_edges = λ w. w.edges }

abbrev pub policies : KubeClient World SegmentationPolicy
policies = record {
  get = λ name w. (
    ok (record web_policy {
      metadata = record web_policy.metadata {
        finalizers = if w.finalizer then cr_edges_finalizer ∷ [] else [];
      };
    }),
    w,
  );
  update =
      λ o w. (ok o, record w { finalizer = contains o.metadata.finalizers cr_edges_finalizer });
  update_status = λ o w. (ok o, w);
}

abbrev pub tracing_policies : KubeClient World RuntimeSecurityPolicy
tracing_policies = record {
  get = λ name w. (
    ok (record tracing_policy {
      metadata = record tracing_policy.metadata {
        finalizers = if w.finalizer then cr_edges_finalizer ∷ [] else [];
      };
    }),
    w,
  );
  update =
      λ o w. (ok o, record w { finalizer = contains o.metadata.finalizers cr_edges_finalizer });
  update_status = λ o w. (ok o, w);
}

abbrev pub configs : KubeClient World PlatformConfig
configs = record {
  get = λ name w. (ok default_config, w);
  update = λ o w. (ok o, w);
  update_status = λ o w. (ok o, w);
}

abbrev pub plane : ControlPlane World
plane = record {
  reconcile_segmentation_policy = λ id ns name spec w. (ok converged, record w { edges = true });
  reconcile_runtime_security_policy =
      λ id ns name spec w. (ok converged, record w { edges = true });
  close_cr_edges = λ kind id ns name w. (
    ok (record { status = "ok"; edges_closed = pos 2; unverified_edge_keys = none }),
    record w { edges = false },
  );
  set_paused = λ paused by w. (
    ok (record { paused = paused; updated_at = none; updated_by = some by; ever_set = true }),
    w,
  );
  get_paused = λ w.
      (ok (record { paused = false; updated_at = none; updated_by = none; ever_set = false }), w);
  provider_health = λ id w. (ok (record { cluster_id = id; providers = none }), w);
}

pub web-IsSound :
    IsSound seen Segmentation.snapshot policies configs
      (plane.reconcile_segmentation_policy (pos 7))
      (plane.close_cr_edges cr_kind_segmentation_policy (pos 7))
      web_key
web-IsSound = record {
  on_get = λ w w' a e. ground arith;
  on_got = λ w w' cr e. ground arith;
  on_config = λ k w w' a e. ground arith;
  on_status = λ o w w' a e. ground arith;
  on_hold = λ o w w' a h e. ground arith;
  on_held = λ o o' w w' n h e. ground arith;
  on_update = λ o w w' a e. ground arith;
  on_reconcile = λ n m spec w w' a e. ground arith;
  on_close = λ n m w w' a e. ground arith;
  on_closed = λ w w' res e c. ground arith;
  on_refused = λ n m w w' x e. ground arith;
}

pub tracing-IsSound :
    IsSound seen Runtime.snapshot tracing_policies configs
      (plane.reconcile_runtime_security_policy (pos 7))
      (plane.close_cr_edges cr_kind_runtime_security_policy (pos 7))
      web_key
tracing-IsSound = record {
  on_get = λ w w' a e. ground arith;
  on_got = λ w w' cr e. ground arith;
  on_config = λ k w w' a e. ground arith;
  on_status = λ o w w' a e. ground arith;
  on_hold = λ o w w' a h e. ground arith;
  on_held = λ o o' w w' n h e. ground arith;
  on_update = λ o w w' a e. ground arith;
  on_reconcile = λ n m spec w w' a e. ground arith;
  on_close = λ n m w w' a e. ground arith;
  on_closed = λ w w' res e c. ground arith;
  on_refused = λ n m w w' x e. ground arith;
}
