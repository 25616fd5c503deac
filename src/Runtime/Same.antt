-- ===== src/Runtime/Same.antt =====
-- internal/controller/runtimesecuritypolicy_controller.go, toRuntimeWireSpec, with the encoder of
-- internal/backendclient/client.go: which policies have one body of a reconcile call.
use k8boss_operator.Prelude.{◌≡◌, ◌↔◌, arith, items, ℤ, ap}
use k8boss_operator.Api.{RuntimeSecurityPolicySpec, RuntimeSecurityPolicy}
use k8boss_operator.Backend.Json.{Json}
use k8boss_operator.Backend.Wire.{RuntimeSecurityReconcileRequest}
use k8boss_operator.Backend.Encode.{encode_runtime}
use k8boss_operator.Backend.Encode.Injective.{encode_runtime-injective}
use k8boss_operator.Runtime.Exchange.{to_runtime_wire_spec}

-- The same but that a slice or map may be nil in one and empty in the other.
abbrev pub IsSameSpec : RuntimeSecurityPolicySpec → RuntimeSecurityPolicySpec → Type 0
IsSameSpec s t =
    (items s.selector.match_labels ≡ items t.selector.match_labels)
    × (s.tracing_policy_ref ≡ t.tracing_policy_ref)
    × (items s.denied_binaries ≡ items t.denied_binaries)

to_runtime_wire_spec_iff :
    (s t : RuntimeSecurityPolicySpec)
    → (to_runtime_wire_spec s ≡ to_runtime_wire_spec t) ↔ IsSameSpec s t
unfolding to_runtime_wire_spec
to_runtime_wire_spec_iff s t = ground arith

-- The body of the reconcile call that is made for the policy.
abbrev pub body_of : ℤ → RuntimeSecurityPolicy → Json
body_of cluster_id cr = encode_runtime (record {
  cluster_id = cluster_id;
  namespace = cr.metadata.namespace;
  name = cr.metadata.name;
  spec = to_runtime_wire_spec cr.spec;
})

-- Two reconcile calls have the same JSON body exactly when they are about one cluster, one namespace
-- and name, and specs that are the same but for a nil slice or map in one where the other has an empty
-- one.
pub runtime_body_iff :
    (id id' : ℤ) (cr cr' : RuntimeSecurityPolicy)
    → (body_of id cr ≡ body_of id' cr') ↔ (
        (id ≡ id')
        × (cr.metadata.namespace ≡ cr'.metadata.namespace)
        × (cr.metadata.name ≡ cr'.metadata.name)
        × IsSameSpec cr.spec cr'.spec)
runtime_body_iff id id' cr cr' = (
  (λ h.
      let same = encode_runtime-injective _ _ h in
      (
        ap (λ (r : RuntimeSecurityReconcileRequest). r.cluster_id) same,
        ap (λ (r : RuntimeSecurityReconcileRequest). r.namespace) same,
        ap (λ (r : RuntimeSecurityReconcileRequest). r.name) same,
        (to_runtime_wire_spec_iff cr.spec cr'.spec).0
            (ap (λ (r : RuntimeSecurityReconcileRequest). r.spec) same),
      )),
  (λ (cluster, space, name, spec).
      let wire = (to_runtime_wire_spec_iff cr.spec cr'.spec).1 spec in
      ap encode_runtime (ground (arith, cluster, space, name, wire))),
)
