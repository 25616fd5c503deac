-- ===== src/Backend/Encode/Injective.antt =====
-- internal/backendclient/client.go: when two requests have one body.
use k8boss_operator.Prelude.{String, ◌≡◌, arith, ℤ}
use k8boss_operator.Backend.Json.{num, str, encode_slice, encode_map}
use k8boss_operator.Backend.Json.Injective.{encode_slice-injective, encode_map-injective}
use k8boss_operator.Backend.Wire.{
  WorkloadSelector, SegmentationRule, SegmentationPolicySpec, RuntimeSecurityPolicySpec,
  SegmentationReconcileRequest, RuntimeSecurityReconcileRequest,
}
use k8boss_operator.Backend.Encode.{
  encode_selector, encode_rule, encode_segmentation_spec, encode_runtime_spec, encode_segmentation,
  encode_runtime,
}

encode_selector-injective : (s t : WorkloadSelector) → encode_selector s ≡ encode_selector t → s ≡ t
unfolding encode_selector
encode_selector-injective s t h =
    let labels : encode_map s.match_labels ≡ encode_map t.match_labels = cc in
    ground (arith, encode_map-injective s.match_labels t.match_labels labels)

num-injective : (a b : ℤ) → num a ≡ num b → a ≡ b
num-injective a b h = cc

str-injective : (a b : String) → str a ≡ str b → a ≡ b
str-injective a b h = cc

encode_rule-injective : (a b : SegmentationRule) → encode_rule a ≡ encode_rule b → a ≡ b
unfolding encode_rule
encode_rule-injective a b h =
    let ports : encode_slice num a.ports ≡ encode_slice num b.ports = cc in
    let peer : encode_map a.peer_selector ≡ encode_map b.peer_selector = cc in
    let space : a.peer_namespace ≡ b.peer_namespace = cc in
    ground (
      arith,
      space,
      encode_slice-injective num num-injective a.ports b.ports ports,
      encode_map-injective a.peer_selector b.peer_selector peer,
    )

encode_segmentation_spec-injective :
    (s t : SegmentationPolicySpec) → encode_segmentation_spec s ≡ encode_segmentation_spec t → s ≡ t
unfolding encode_segmentation_spec
encode_segmentation_spec-injective s t h =
    let selector : encode_selector s.selector ≡ encode_selector t.selector = cc in
    let ingress : encode_slice encode_rule s.ingress ≡ encode_slice encode_rule t.ingress = cc in
    let egress : encode_slice encode_rule s.egress ≡ encode_slice encode_rule t.egress = cc in
    let provider : s.provider_ref ≡ t.provider_ref = cc in
    ground (
      arith,
      provider,
      encode_selector-injective s.selector t.selector selector,
      encode_slice-injective encode_rule encode_rule-injective s.ingress t.ingress ingress,
      encode_slice-injective encode_rule encode_rule-injective s.egress t.egress egress,
    )

pub encode_segmentation-injective :
    (r q : SegmentationReconcileRequest) → encode_segmentation r ≡ encode_segmentation q → r ≡ q
unfolding encode_segmentation
encode_segmentation-injective r q h =
    let spec : encode_segmentation_spec r.spec ≡ encode_segmentation_spec q.spec = cc in
    let id : r.cluster_id ≡ q.cluster_id = cc in
    let space : r.namespace ≡ q.namespace = cc in
    let name : r.name ≡ q.name = cc in
    ground (arith, id, space, name, encode_segmentation_spec-injective r.spec q.spec spec)

encode_runtime_spec-injective :
    (s t : RuntimeSecurityPolicySpec) → encode_runtime_spec s ≡ encode_runtime_spec t → s ≡ t
unfolding encode_runtime_spec
encode_runtime_spec-injective s t h =
    let selector : encode_selector s.selector ≡ encode_selector t.selector = cc in
    let denied : encode_slice str s.denied_binaries ≡ encode_slice str t.denied_binaries = cc in
    let tracing : s.tracing_policy_ref ≡ t.tracing_policy_ref = cc in
    ground (
      arith,
      tracing,
      encode_selector-injective s.selector t.selector selector,
      encode_slice-injective str str-injective s.denied_binaries t.denied_binaries denied,
    )

pub encode_runtime-injective :
    (r q : RuntimeSecurityReconcileRequest) → encode_runtime r ≡ encode_runtime q → r ≡ q
unfolding encode_runtime
encode_runtime-injective r q h =
    let spec : encode_runtime_spec r.spec ≡ encode_runtime_spec q.spec = cc in
    let id : r.cluster_id ≡ q.cluster_id = cc in
    let space : r.namespace ≡ q.namespace = cc in
    let name : r.name ≡ q.name = cc in
    ground (arith, id, space, name, encode_runtime_spec-injective r.spec q.spec spec)
