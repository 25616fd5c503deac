-- ===== src/Tests/Cluster.antt =====
-- Test data: a small cluster and control plane, with which the operator is run. The state outside is
-- one value, since every answer is the same each time.
use k8boss_operator.Prelude.{
  String, ◌≡◌, refl, arith, eq_iff, true, false, none, some, List, [], ◌∷◌, ◌==◌, contains,
  if◌then◌else◌, pos,
}
use k8boss_operator.Api.{
  Condition, NamespacedName, SegmentationPolicy, RuntimeSecurityPolicy, PlatformConfig,
}
use k8boss_operator.Backend.Errors.{ok}
use k8boss_operator.Backend.Json.{obj, str, no_members, member}
use k8boss_operator.Backend.Wire.{ReconcileResult, ProviderHealth}
use k8boss_operator.Backend.Transport.{Http, response}
use k8boss_operator.Backend.Calls.{ControlPlane}
use k8boss_operator.Kube.{KubeClient, Apimachinery, find_condition}
use k8boss_operator.Segmentation.{SegmentationPolicyReconciler}
use k8boss_operator.Runtime.{RuntimeSecurityPolicyReconciler}
use k8boss_operator.Platform.{PlatformConfigReconciler}

abbrev pub set_condition_in_place : List Condition → Condition → List Condition
set_condition_in_place [] c = c ∷ []
set_condition_in_place (d ∷ ds) c =
    if c.kind == d.kind then c ∷ ds else d ∷ set_condition_in_place ds c

pub find_condition-set_condition_in_place :
    (kind : String) (cs : List Condition) (c : Condition)
    → find_condition kind (set_condition_in_place cs c)
      ≡ (if kind == c.kind then some c else find_condition kind cs)
find_condition-set_condition_in_place kind [] c = refl
find_condition-set_condition_in_place kind (d ∷ ds) c = ground (
  arith,
  find_condition-set_condition_in_place kind ds c,
  eq_iff kind c.kind,
  eq_iff kind d.kind,
  eq_iff c.kind d.kind,
)

pub set_condition_in_place_self :
    (cs : List Condition) (c : Condition)
    → set_condition_in_place (set_condition_in_place cs c) c ≡ set_condition_in_place cs c
set_condition_in_place_self [] c = ground (arith, eq_iff c.kind c.kind)
set_condition_in_place_self (d ∷ ds) c =
    ground (arith, set_condition_in_place_self ds c, eq_iff c.kind d.kind, eq_iff c.kind c.kind)

abbrev pub add_finalizer_at_end : List String → String → List String
add_finalizer_at_end [] f = f ∷ []
add_finalizer_at_end (g ∷ gs) f = if f == g then g ∷ gs else g ∷ add_finalizer_at_end gs f

pub contains-add_finalizer_at_end :
    (fs : List String) (f g : String)
    → contains (add_finalizer_at_end fs f) g ≡ (if g == f then true else contains fs g)
contains-add_finalizer_at_end [] f g = ground arith
contains-add_finalizer_at_end (h ∷ hs) f g =
    ground (arith, contains-add_finalizer_at_end hs f g, eq_iff g f, eq_iff g h, eq_iff f h)

abbrev pub remove_every_finalizer : List String → String → List String
remove_every_finalizer [] f = []
remove_every_finalizer (g ∷ gs) f =
    if f == g then remove_every_finalizer gs f else g ∷ remove_every_finalizer gs f

pub contains-remove_every_finalizer :
    (fs : List String) (f g : String)
    → contains (remove_every_finalizer fs f) g ≡ (if g == f then false else contains fs g)
contains-remove_every_finalizer [] f g = ground arith
contains-remove_every_finalizer (h ∷ hs) f g =
    ground (arith, contains-remove_every_finalizer hs f g, eq_iff g f, eq_iff g h, eq_iff f h)

abbrev pub apimachinery : Apimachinery
apimachinery = record {
  set_status_condition = set_condition_in_place;
  contains_finalizer = contains;
  add_finalizer = add_finalizer_at_end;
  remove_finalizer = remove_every_finalizer;
  find_condition-set_status_condition = find_condition-set_condition_in_place;
  set_status_condition_self = set_condition_in_place_self;
  contains_finalizer_lem = λ fs f. refl;
  contains-add_finalizer = contains-add_finalizer_at_end;
  contains-remove_finalizer = contains-remove_every_finalizer;
}

-- A client that reads one object, and takes every write as it is.
abbrev pub serving : {Obj : Type 0} → Obj → KubeClient Unit Obj
serving o = record {
  get = λ name w. (ok o, w);
  update = λ new w. (ok new, w);
  update_status = λ new w. (ok new, w);
}

abbrev pub web_key : NamespacedName
web_key = record { namespace = "shop"; name = "web" }

abbrev pub web_policy : SegmentationPolicy
web_policy = record {
  metadata = record {
    namespace = "shop";
    name = "web";
    generation = pos 3;
    deletion_timestamp = none;
    finalizers = [];
  };
  spec = record {
    selector = record { match_labels = some (("app", "web") ∷ []) };
    ingress = some (
        record { ports = some (pos 443 ∷ []); peer_selector = none; peer_namespace = "edge" } ∷ []);
    egress = none;
    provider_ref = "";
  };
  status = record { conditions = []; observed_generation = pos 2; resolved_flow_provider = "" };
}

-- The same policy, being deleted with its finalizer on
abbrev pub leaving_policy : SegmentationPolicy
leaving_policy = record web_policy {
  metadata = record web_policy.metadata {
    deletion_timestamp = some 77;
    finalizers = "k8boss.io/cr-edges" ∷ [];
  };
}

abbrev pub tracing_policy : RuntimeSecurityPolicy
tracing_policy = record {
  metadata = web_policy.metadata;
  spec = record {
    selector = record { match_labels = none };
    tracing_policy_ref = "trace-exec";
    denied_binaries = some ("/bin/sh" ∷ []);
  };
  status = record {
    conditions = [];
    observed_generation = pos 2;
    correlated_evidence_count = pos 0;
  };
}

abbrev pub leaving_tracing_policy : RuntimeSecurityPolicy
leaving_tracing_policy = record tracing_policy { metadata = leaving_policy.metadata }

abbrev pub default_config : PlatformConfig
default_config = record {
  metadata = record {
    namespace = "";
    name = "default";
    generation = pos 1;
    deletion_timestamp = none;
    finalizers = [];
  };
  spec = record { flow_provider = "cilium"; paused = false };
  status = record { conditions = []; observed_generation = pos 0; provider_health = [] };
}

abbrev pub cilium : ProviderHealth
cilium = record {
  name = "cilium";
  checked = true;
  healthy = some false;
  message = "";
  last_query_error = none;
  blockers = some ("no hubble relay" ∷ []);
}

abbrev pub tetragon : ProviderHealth
tetragon = record {
  name = "tetragon";
  checked = false;
  healthy = none;
  message = "";
  last_query_error = none;
  blockers = none;
}

abbrev pub converged : ReconcileResult
converged = record {
  status = "ok";
  edges_upserted = pos 2;
  edges_closed = pos 0;
  edge_keys = some ("a" ∷ "b" ∷ []);
  matched_workloads = pos 2;
  unverified_edge_keys = none;
  provider_installed = some true;
}

-- A control plane that confirms everything
abbrev pub willing_plane : ControlPlane Unit
willing_plane = record {
  reconcile_segmentation_policy = λ id ns name spec w. (ok converged, w);
  reconcile_runtime_security_policy = λ id ns name spec w. (ok converged, w);
  close_cr_edges = λ kind id ns name w.
      (ok (record { status = "ok"; edges_closed = pos 2; unverified_edge_keys = none }), w);
  set_paused = λ paused by w. (
    ok (record { paused = paused; updated_at = none; updated_by = some by; ever_set = true }),
    w,
  );
  get_paused = λ w.
      (ok (record { paused = false; updated_at = none; updated_by = none; ever_set = false }), w);
  provider_health =
      λ id w. (ok (record { cluster_id = id; providers = some (cilium ∷ tetragon ∷ []) }), w);
}

abbrev pub segmentation_reconciler : SegmentationPolicyReconciler
segmentation_reconciler = record { cluster_id = pos 7; platform_config_name = "default" }

abbrev pub runtime_reconciler : RuntimeSecurityPolicyReconciler
runtime_reconciler = record { cluster_id = pos 7; platform_config_name = "default" }

abbrev pub platform_reconciler : PlatformConfigReconciler
platform_reconciler = record { cluster_id = pos 7; platform_config_name = "default" }

-- A server that refuses every request with the same body
abbrev pub refusing_http : Http Unit
refusing_http = record {
  bad_request = λ method url. none;
  round_trip =
      λ request w. (response 423 "{\"detail\":\"paused\",\"reason\":\"operator_paused\"}", w);
  parse_json = λ body.
      some
        (obj (member "detail" (str "paused") (member "reason" (str "operator_paused") no_members)));
  json_error = λ body. "";
}
