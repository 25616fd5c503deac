-- ===== src/Backend/Encode/Bodies.antt =====
-- internal/backendclient/client.go: which request bodies hold no null.
use k8boss_operator.Prelude.{
  String, ◌≡◌, refl, arith, true, none, some, List, [], ◌∷◌, Nilable, items, All, ℤ,
}
use k8boss_operator.Backend.Json.{Json, num, str, encode_slice, encode_map}
use k8boss_operator.Backend.Json.NullFree.{
  null_free, null_free_members, null_free-encode_slice, null_free-encode_map,
}
use k8boss_operator.Backend.Wire.{
  SegmentationRule, SegmentationPolicySpec, RuntimeSecurityPolicySpec, SegmentationReconcileRequest,
  RuntimeSecurityReconcileRequest,
}
use k8boss_operator.Backend.Encode.{
  encode_selector, encode_rule, encode_segmentation_spec, encode_runtime_spec, encode_segmentation,
  encode_runtime,
}

-- A slice or map that is there, though it may be empty.
abbrev pub IsThere {ℓ} : {A : Type ℓ} → Nilable A → Type 0
IsThere none = ⊥
IsThere (some a) = Unit

abbrev pub IsWholeRule : SegmentationRule → Type 0
IsWholeRule rule = IsThere rule.ports × IsThere rule.peer_selector

-- Every slice and map of the spec is there.
abbrev pub IsWhole : SegmentationPolicySpec → Type 0
IsWhole spec =
    IsThere spec.selector.match_labels
    × (IsThere spec.ingress × All IsWholeRule (items spec.ingress))
    × (IsThere spec.egress × All IsWholeRule (items spec.egress))

abbrev pub IsWholeRuntime : RuntimeSecurityPolicySpec → Type 0
IsWholeRuntime spec = IsThere spec.selector.match_labels × IsThere spec.denied_binaries

All-intro : {A : Type 0} {P : A → Type 0} → ((a : A) → P a) → (as_ : List A) → All P as_
All-intro h [] = tt
All-intro h (a ∷ as_) = (h a, All-intro h as_)

All-imp :
    {A : Type 0} {P Q : A → Type 0} → ((a : A) → P a → Q a) → (as_ : List A) → All P as_ → All Q as_
All-imp h [] k = tt
All-imp h (a ∷ as_) (k, ks) = (h a k, All-imp h as_ ks)

null_free-map : (m : Nilable (List (String × String))) → IsThere m → null_free (encode_map m) ≡ true
null_free-map none h = elim h [ ]
null_free-map (some kvs) h = null_free-encode_map kvs

null_free-slice :
    {A : Type 0} (encode : A → Json) (m : Nilable (List A))
    → IsThere m
    → All (λ a. null_free (encode a) ≡ true) (items m)
    → null_free (encode_slice encode m) ≡ true
null_free-slice encode none h k = elim h [ ]
null_free-slice encode (some as_) h k = null_free-encode_slice encode as_ k

null_free-num : (z : ℤ) → null_free (num z) ≡ true
unfolding null_free
null_free-num z = refl

null_free-str : (s : String) → null_free (str s) ≡ true
unfolding null_free
null_free-str s = refl

null_free-encode_rule :
    (rule : SegmentationRule) → IsWholeRule rule → null_free (encode_rule rule) ≡ true
unfolding null_free null_free_members encode_rule
null_free-encode_rule rule (p, s) = ground (
  arith,
  null_free-slice num rule.ports p (All-intro null_free-num (items rule.ports)),
  null_free-map rule.peer_selector s,
)

rules_lem :
    (rules : Nilable (List SegmentationRule))
    → IsThere rules
    → All IsWholeRule (items rules)
    → null_free (encode_slice encode_rule rules) ≡ true
rules_lem rules h k =
    null_free-slice encode_rule rules h (All-imp null_free-encode_rule (items rules) k)

pub null_free-encode_segmentation :
    (q : SegmentationReconcileRequest) → IsWhole q.spec → null_free (encode_segmentation q) ≡ true
unfolding null_free null_free_members encode_segmentation encode_segmentation_spec encode_selector
null_free-encode_segmentation q (labels, (ingress, ins), (egress, outs)) = ground (
  arith,
  null_free-map q.spec.selector.match_labels labels,
  rules_lem q.spec.ingress ingress ins,
  rules_lem q.spec.egress egress outs,
)

pub null_free-encode_runtime :
    (q : RuntimeSecurityReconcileRequest)
    → IsWholeRuntime q.spec
    → null_free (encode_runtime q) ≡ true
unfolding null_free null_free_members encode_runtime encode_runtime_spec encode_selector
null_free-encode_runtime q (labels, binaries) = ground (
  arith,
  null_free-map q.spec.selector.match_labels labels,
  null_free-slice str q.spec.denied_binaries binaries
      (All-intro null_free-str (items q.spec.denied_binaries)),
)
