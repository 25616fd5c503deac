-- ===== src/Segmentation/Sent.antt =====
-- internal/controller/segmentationpolicy_controller.go: what the body of a reconcile call holds.
use k8boss_operator.Backend.Wire
use k8boss_operator.Kube.{Spec, SentSpec, segmentation_spec, sent_segmentation}
use k8boss_operator.Prelude.{
  Nilable, none, some, refl, String, ◌≡◌, arith, true, List, [], ◌∷◌, map, items, All, ℤ,
}
use k8boss_operator.Api.{SegmentationRule, SegmentationPolicySpec}
use k8boss_operator.Backend.Json.NullFree.{null_free}
use k8boss_operator.Backend.Encode.{encode_segmentation}
use k8boss_operator.Backend.Encode.Bodies.{
  IsThere, IsWholeRule, IsWhole, null_free-encode_segmentation,
}
use k8boss_operator.Segmentation.Exchange.{to_wire_rule, to_wire_spec}

to_wire_rule-IsWholeRule : (rule : SegmentationRule) → IsWholeRule (to_wire_rule rule)
unfolding to_wire_rule
to_wire_rule-IsWholeRule rule = ground arith

rules-IsWholeRule : (rules : List SegmentationRule) → All IsWholeRule (map to_wire_rule rules)
rules-IsWholeRule [] = tt
rules-IsWholeRule (rule ∷ rules) = (to_wire_rule-IsWholeRule rule, rules-IsWholeRule rules)

to_wire_spec-IsWhole : (spec : SegmentationPolicySpec) → IsWhole (to_wire_spec spec)
unfolding to_wire_spec
to_wire_spec-IsWhole spec = (
  labels,
  (tt, rules-IsWholeRule (items spec.ingress)),
  (tt, rules-IsWholeRule (items spec.egress)),
)
  where
    labels : IsThere (to_wire_spec spec).selector.match_labels
    labels = ground arith

-- The body of a reconcile call holds no null, wherever the spec has a nil slice or map: what is sent
-- in its place is an empty one.
null_free-to_wire_spec :
    (cluster_id : ℤ) (namespace name : String) (spec : SegmentationPolicySpec)
    → null_free (
        encode_segmentation (record {
          cluster_id = cluster_id;
          namespace = namespace;
          name = name;
          spec = to_wire_spec spec;
        }))
      ≡ true
null_free-to_wire_spec cluster_id namespace name spec =
    null_free-encode_segmentation _ (to_wire_spec-IsWhole spec)

-- Sent as it stands, but that a nil slice or map is sent as an empty one.
abbrev IsSentRule : SegmentationRule → Wire.SegmentationRule → Type 0
IsSentRule rule sent =
    (sent.ports ≡ some (items rule.ports))
    × (sent.peer_selector ≡ some (items rule.peer_selector))
    × (sent.peer_namespace ≡ rule.peer_namespace)

abbrev AreSentRules : List SegmentationRule → List Wire.SegmentationRule → Type 0
AreSentRules [] [] = Unit
AreSentRules [] (sent ∷ rest) = ⊥
AreSentRules (rule ∷ rules) [] = ⊥
AreSentRules (rule ∷ rules) (sent ∷ rest) = IsSentRule rule sent × AreSentRules rules rest

abbrev AreAllSent : List SegmentationRule → Nilable (List Wire.SegmentationRule) → Type 0
AreAllSent rules none = ⊥
AreAllSent rules (some sent) = AreSentRules rules sent

abbrev IsSentSpec : SegmentationPolicySpec → Wire.SegmentationPolicySpec → Type 0
IsSentSpec spec sent =
    (sent.selector.match_labels ≡ some (items spec.selector.match_labels))
    × AreAllSent (items spec.ingress) sent.ingress
    × AreAllSent (items spec.egress) sent.egress
    × (sent.provider_ref ≡ spec.provider_ref)

abbrev pub IsSent : Spec → SentSpec → Type 0
IsSent (segmentation_spec spec) (sent_segmentation sent) = IsSentSpec spec sent
IsSent spec sent = ⊥

map-AreSentRules : (rules : List SegmentationRule) → AreSentRules rules (map to_wire_rule rules)
unfolding to_wire_rule
map-AreSentRules [] = tt
map-AreSentRules (rule ∷ rules) = (ground arith, map-AreSentRules rules)

pub to_wire_spec-IsSent :
    (spec : SegmentationPolicySpec)
    → IsSent (segmentation_spec spec) (sent_segmentation (to_wire_spec spec))
unfolding to_wire_spec
to_wire_spec-IsSent spec =
    (labels, map-AreSentRules (items spec.ingress), map-AreSentRules (items spec.egress), refl)
  where
    labels : (to_wire_spec spec).selector.match_labels ≡ some (items spec.selector.match_labels)
    labels = ground arith
