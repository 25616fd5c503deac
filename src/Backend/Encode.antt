-- ===== src/Backend/Encode.antt =====
-- internal/backendclient/client.go: json.Marshal of the request bodies, by their json tags.
pub mod Bodies
pub mod Injective
use k8boss_operator.Backend.Json.{
  Json, num, bool, str, obj, no_members, member, encode_slice, encode_map,
}
use k8boss_operator.Backend.Wire.{
  WorkloadSelector, SegmentationRule, SegmentationPolicySpec, RuntimeSecurityPolicySpec,
  SegmentationReconcileRequest, RuntimeSecurityReconcileRequest, CloseRequest, PausedRequest,
}

encode_selector : WorkloadSelector → Json
encode_selector s = obj (member "matchLabels" (encode_map s.match_labels) no_members)

encode_rule : SegmentationRule → Json
encode_rule r = obj (
    member "ports" (encode_slice num r.ports) (
      member "peerSelector" (encode_map r.peer_selector)
        (member "peerNamespace" (str r.peer_namespace) no_members)))

encode_segmentation_spec : SegmentationPolicySpec → Json
unfolding encode_selector encode_rule
encode_segmentation_spec s = obj (
    member "selector" (encode_selector s.selector) (
      member "ingress" (encode_slice encode_rule s.ingress) (
        member "egress" (encode_slice encode_rule s.egress)
          (member "providerRef" (str s.provider_ref) no_members))))

encode_runtime_spec : RuntimeSecurityPolicySpec → Json
unfolding encode_selector
encode_runtime_spec s = obj (
    member "selector" (encode_selector s.selector) (
      member "tracingPolicyRef" (str s.tracing_policy_ref)
        (member "deniedBinaries" (encode_slice str s.denied_binaries) no_members)))

unfoldable pub encode_segmentation : SegmentationReconcileRequest → Json
unfolding encode_segmentation_spec encode_slice encode_map
encode_segmentation r = obj (
    member "cluster_id" (num r.cluster_id) (
      member "namespace" (str r.namespace)
        (member "name" (str r.name) (member "spec" (encode_segmentation_spec r.spec) no_members))))

unfoldable pub encode_runtime : RuntimeSecurityReconcileRequest → Json
unfolding encode_runtime_spec encode_slice encode_map
encode_runtime r = obj (
    member "cluster_id" (num r.cluster_id) (
      member "namespace" (str r.namespace)
        (member "name" (str r.name) (member "spec" (encode_runtime_spec r.spec) no_members))))

unfoldable pub encode_close : CloseRequest → Json
encode_close r = obj (
    member "cr_kind" (str r.cr_kind) (
      member "cluster_id" (num r.cluster_id)
        (member "namespace" (str r.namespace) (member "name" (str r.name) no_members))))

unfoldable pub encode_paused : PausedRequest → Json
encode_paused r = obj (member "paused" (bool r.paused) (member "by" (str r.by) no_members))
