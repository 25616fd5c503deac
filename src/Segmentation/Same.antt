-- ===== src/Segmentation/Same.antt =====
-- internal/controller/segmentationpolicy_controller.go, toWireSpec and toWireRule, with the encoder of
-- internal/backendclient/client.go: which policies have one body of a reconcile call.
use k8boss_operator.Prelude.{
  ◌≡◌, ◌↔◌, refl, arith, List, [], ◌∷◌, map, items, ℤ, none, some, Nilable, ap,
}
use k8boss_operator.Api.{SegmentationRule, SegmentationPolicySpec, SegmentationPolicy}
use k8boss_operator.Backend.Json.{Json}
use k8boss_operator.Backend.Wire.{SegmentationReconcileRequest}
use k8boss_operator.Backend.Encode.{encode_segmentation}
use k8boss_operator.Backend.Encode.Injective.{encode_segmentation-injective}
use k8boss_operator.Segmentation.Exchange.{to_wire_rule, to_wire_spec}

-- The same but that a slice or map may be nil in one and empty in the other.
abbrev pub IsSameRule : SegmentationRule → SegmentationRule → Type 0
IsSameRule a b =
    (items a.ports ≡ items b.ports)
    × (items a.peer_selector ≡ items b.peer_selector)
    × (a.peer_namespace ≡ b.peer_namespace)

abbrev pub AreSameRules : List SegmentationRule → List SegmentationRule → Type 0
AreSameRules [] [] = Unit
AreSameRules [] (b ∷ bs) = ⊥
AreSameRules (a ∷ as_) [] = ⊥
AreSameRules (a ∷ as_) (b ∷ bs) = IsSameRule a b × AreSameRules as_ bs

abbrev pub IsSameSpec : SegmentationPolicySpec → SegmentationPolicySpec → Type 0
IsSameSpec s t =
    (items s.selector.match_labels ≡ items t.selector.match_labels)
    × AreSameRules (items s.ingress) (items t.ingress)
    × AreSameRules (items s.egress) (items t.egress)
    × (s.provider_ref ≡ t.provider_ref)

filled : {A : Type 0} → Nilable (List A) → Nilable (List A)
filled xs = elim xs [ none ↦ some List.[] | some ys ↦ some ys ]

filled-items : {A : Type 0} (xs : Nilable (List A)) → filled xs ≡ some (items xs)
unfolding filled
filled-items none = refl
filled-items (some xs) = refl

to_wire_rule_iff : (a b : SegmentationRule) → (to_wire_rule a ≡ to_wire_rule b) ↔ IsSameRule a b
unfolding to_wire_rule filled
to_wire_rule_iff a b = ground (
  arith,
  filled-items a.ports,
  filled-items b.ports,
  filled-items a.peer_selector,
  filled-items b.peer_selector,
)

rules_iff :
    (as_ bs : List SegmentationRule)
    → (map to_wire_rule as_ ≡ map to_wire_rule bs) ↔ AreSameRules as_ bs
rules_iff [] [] = (λ h. tt, λ h. refl)
rules_iff [] (b ∷ bs) = ((λ h. cc), λ h. absurd h)
rules_iff (a ∷ as_) [] = ((λ h. cc), λ h. absurd h)
rules_iff (a ∷ as_) (b ∷ bs) = ground (arith, to_wire_rule_iff a b, rules_iff as_ bs)

to_wire_spec_iff :
    (s t : SegmentationPolicySpec) → (to_wire_spec s ≡ to_wire_spec t) ↔ IsSameSpec s t
unfolding to_wire_spec filled
to_wire_spec_iff s t = ground (
  arith,
  filled-items s.selector.match_labels,
  filled-items t.selector.match_labels,
  rules_iff (items s.ingress) (items t.ingress),
  rules_iff (items s.egress) (items t.egress),
)

-- The body of the reconcile call that is made for the policy.
abbrev pub body_of : ℤ → SegmentationPolicy → Json
body_of cluster_id cr = encode_segmentation (record {
  cluster_id = cluster_id;
  namespace = cr.metadata.namespace;
  name = cr.metadata.name;
  spec = to_wire_spec cr.spec;
})

-- Two reconcile calls have the same JSON body exactly when they are about one cluster, one namespace
-- and name, and specs that are the same but for a nil slice or map in one where the other has an empty
-- one.
pub body_of_iff :
    (id id' : ℤ) (cr cr' : SegmentationPolicy)
    → (body_of id cr ≡ body_of id' cr') ↔ (
        (id ≡ id')
        × (cr.metadata.namespace ≡ cr'.metadata.namespace)
        × (cr.metadata.name ≡ cr'.metadata.name)
        × IsSameSpec cr.spec cr'.spec)
body_of_iff id id' cr cr' = (
  (λ h.
      let same = encode_segmentation-injective _ _ h in
      (
        ap (λ (r : SegmentationReconcileRequest). r.cluster_id) same,
        ap (λ (r : SegmentationReconcileRequest). r.namespace) same,
        ap (λ (r : SegmentationReconcileRequest). r.name) same,
        (to_wire_spec_iff cr.spec cr'.spec).0
            (ap (λ (r : SegmentationReconcileRequest). r.spec) same),
      )),
  (λ (cluster, space, name, spec).
      let wire = (to_wire_spec_iff cr.spec cr'.spec).1 spec in
      ap encode_segmentation (ground (arith, cluster, space, name, wire))),
)
