-- ===== src/Tests/Bodies.antt =====
-- The bodies of reconcile calls for a spec with nil slices and one with empty ones.
use k8boss_operator.Prelude.{◌≡◌, ◌↔◌, some, [], pos}
use k8boss_operator.Api.{SegmentationPolicy, RuntimeSecurityPolicy}
use k8boss_operator.Segmentation.Same.{body_of, IsSameSpec, body_of_iff}
use k8boss_operator.Runtime.Same.{
  body_of as runtime_body_of, IsSameSpec as IsSameRuntimeSpec, runtime_body_iff,
}
use k8boss_operator.Tests.Cluster.{web_policy, tracing_policy}

-- Egress is nil in web_policy.
abbrev web_policy_emptied : SegmentationPolicy
web_policy_emptied = record web_policy { spec = record web_policy.spec { egress = some [] } }

body_of_iff_example : (body_of (pos 7) web_policy ≡ body_of (pos 7) web_policy_emptied) ↔ (
    (pos 7 ≡ pos 7)
    × (web_policy.metadata.namespace ≡ web_policy_emptied.metadata.namespace)
    × (web_policy.metadata.name ≡ web_policy_emptied.metadata.name)
    × IsSameSpec web_policy.spec web_policy_emptied.spec)
body_of_iff_example = body_of_iff (pos 7) (pos 7) web_policy web_policy_emptied

-- The selector matches every workload, once by nil and once by an empty map.
abbrev tracing_policy_emptied : RuntimeSecurityPolicy
tracing_policy_emptied = record tracing_policy {
  spec = record tracing_policy.spec { selector = record { match_labels = some [] } };
}

runtime_body_iff_example :
    (runtime_body_of (pos 7) tracing_policy ≡ runtime_body_of (pos 7) tracing_policy_emptied) ↔ (
      (pos 7 ≡ pos 7)
      × (tracing_policy.metadata.namespace ≡ tracing_policy_emptied.metadata.namespace)
      × (tracing_policy.metadata.name ≡ tracing_policy_emptied.metadata.name)
      × IsSameRuntimeSpec tracing_policy.spec tracing_policy_emptied.spec)
runtime_body_iff_example = runtime_body_iff (pos 7) (pos 7) tracing_policy tracing_policy_emptied
