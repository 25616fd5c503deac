-- ===== src/Runtime/Exchange.antt =====
-- internal/controller/runtimesecuritypolicy_controller.go: what is sent to the control plane, and
-- what is read from its answer.
use k8boss_operator.Prelude.{
  String, ◌<>◌, not, none, some, List, ◌==◌, ltb, if◌then◌else◌, length, items, pos, eq_ℤ, quote,
  show_ℤ, show_length,
}
use k8boss_operator.Api.{RuntimeSecurityPolicySpec}
use k8boss_operator.Backend.Wire
use k8boss_operator.Backend.Wire.{ReconcileResult}

unfoldable pub to_runtime_wire_spec : RuntimeSecurityPolicySpec → Wire.RuntimeSecurityPolicySpec
to_runtime_wire_spec spec = record {
  selector = record {
    match_labels = elim spec.selector.match_labels [ none ↦ some List.[] | some m ↦ some m ];
  };
  tracing_policy_ref = spec.tracing_policy_ref;
  denied_binaries = elim spec.denied_binaries [ none ↦ some List.[] | some bs ↦ some bs ];
}

-- The counts of the edges, the last two tests of the response
edges_inconsistent : ReconcileResult → String
edges_inconsistent res =
    if ltb 0 (length (items res.unverified_edge_keys))
    then show_length (length (items res.unverified_edge_keys))
      <> " edge(s) did not verify as open after commit"
    else if not (eq_ℤ res.edges_upserted res.matched_workloads)
    then "edges_upserted="
      <> (show_ℤ res.edges_upserted
          <> (" does not match matched_workloads=" <> show_ℤ res.matched_workloads))
    else ""

-- "" if the response shows a converged write, else why it does not.
unfoldable pub inconsistent_runtime_result : ReconcileResult → String
unfolding edges_inconsistent
inconsistent_runtime_result res =
    if not (res.status == "ok")
    then "status was " <> (quote res.status <> ", not \"ok\"")
    else elim res.provider_installed [
      | none ↦ "provider_installed was absent, so runtime provider availability is unconfirmed"
      | some installed ↦
          if not installed
          then "provider_installed was false, so no runtime evidence could have been collected"
          else edges_inconsistent res
    ]

unfoldable pub runtime_ready_message : ReconcileResult → String
runtime_ready_message result =
    if eq_ℤ result.matched_workloads (pos 0)
    then "Runtime provider confirmed installed, and NO workload in this namespace "
      <> ("matches spec.selector (a checked zero, not an unchecked one): "
          <> ("correlatedEvidenceCount=0 means nothing to monitor, not a failed check. "
              <> (show_ℤ result.edges_closed <> " edge(s) closed.")))
    else "Control plane confirmed the policy against a reachable runtime provider: "
      <> (show_ℤ result.matched_workloads
          <> (" workload(s) matched, "
              <> (show_ℤ result.edges_upserted
                  <> (" edge(s) upserted, "
                      <> (show_ℤ result.edges_closed <> " edge(s) closed.")))))
