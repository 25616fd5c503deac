-- ===== src/Runtime/Sent.antt =====
-- internal/controller/runtimesecuritypolicy_controller.go: what the body of a reconcile call holds.
use k8boss_operator.Kube.{Spec, SentSpec, runtime_spec, sent_runtime}
use k8boss_operator.Prelude.{some, items, String, ◌≡◌, arith, true, ℤ}
use k8boss_operator.Api.{RuntimeSecurityPolicySpec}
use k8boss_operator.Backend.Json.NullFree.{null_free}
use k8boss_operator.Backend.Encode.{encode_runtime}
use k8boss_operator.Backend.Encode.Bodies.{IsWholeRuntime, null_free-encode_runtime}
use k8boss_operator.Runtime.Exchange.{to_runtime_wire_spec}

to_runtime_wire_spec-IsWholeRuntime :
    (spec : RuntimeSecurityPolicySpec) → IsWholeRuntime (to_runtime_wire_spec spec)
unfolding to_runtime_wire_spec
to_runtime_wire_spec-IsWholeRuntime spec = ground arith

-- The body of a reconcile call holds no null, wherever the spec has a nil slice or map: what is sent
-- in its place is an empty one.
null_free-to_runtime_wire_spec :
    (cluster_id : ℤ) (namespace name : String) (spec : RuntimeSecurityPolicySpec)
    → null_free (
        encode_runtime (record {
          cluster_id = cluster_id;
          namespace = namespace;
          name = name;
          spec = to_runtime_wire_spec spec;
        }))
      ≡ true
null_free-to_runtime_wire_spec cluster_id namespace name spec =
    null_free-encode_runtime _ (to_runtime_wire_spec-IsWholeRuntime spec)

-- Sent as it stands, but that a nil slice or map is sent as an empty one.
abbrev pub IsSent : Spec → SentSpec → Type 0
IsSent (runtime_spec spec) (sent_runtime sent) =
    (sent.selector.match_labels ≡ some (items spec.selector.match_labels))
    × (sent.tracing_policy_ref ≡ spec.tracing_policy_ref)
    × (sent.denied_binaries ≡ some (items spec.denied_binaries))
IsSent spec sent = ⊥

pub to_runtime_wire_spec-IsSent :
    (spec : RuntimeSecurityPolicySpec)
    → IsSent (runtime_spec spec) (sent_runtime (to_runtime_wire_spec spec))
unfolding to_runtime_wire_spec
to_runtime_wire_spec-IsSent spec = ground arith
