-- ===== src/Segmentation/Exchange.antt =====
-- internal/controller/segmentationpolicy_controller.go: what is sent to the control plane, and what
-- is read from its answer.
use k8boss_operator.Prelude.{
  String, ◌<>◌, not, none, some, List, map, ◌==◌, ltb, if◌then◌else◌, length, items, pos, eq_ℤ,
  quote, show_ℤ, show_length,
}
use k8boss_operator.Api.{SegmentationRule, SegmentationPolicySpec}
use k8boss_operator.Backend.Wire
use k8boss_operator.Backend.Wire.{ReconcileResult}

unfoldable pub to_wire_rule : SegmentationRule → Wire.SegmentationRule
to_wire_rule rule = record {
  ports = elim rule.ports [ none ↦ some List.[] | some ports ↦ some ports ];
  peer_selector = elim rule.peer_selector [ none ↦ some List.[] | some m ↦ some m ];
  peer_namespace = rule.peer_namespace;
}

unfoldable pub to_wire_spec : SegmentationPolicySpec → Wire.SegmentationPolicySpec
unfolding to_wire_rule
to_wire_spec spec = record {
  selector = record {
    match_labels = elim spec.selector.match_labels [ none ↦ some List.[] | some m ↦ some m ];
  };
  ingress = some (map to_wire_rule (items spec.ingress));
  egress = some (map to_wire_rule (items spec.egress));
  provider_ref = spec.provider_ref;
}

-- "" if the response shows a converged write, else why it does not.
unfoldable pub inconsistent_segmentation_result : ReconcileResult → String
inconsistent_segmentation_result res =
    if not (res.status == "ok")
    then "status was " <> (quote res.status <> ", not \"ok\"")
    else if ltb 0 (length (items res.unverified_edge_keys))
    then show_length (length (items res.unverified_edge_keys))
      <> " edge(s) did not verify as open after commit"
    else if not (eq_ℤ res.edges_upserted res.matched_workloads)
    then "edges_upserted="
      <> (show_ℤ res.edges_upserted
          <> (" does not match matched_workloads=" <> show_ℤ res.matched_workloads))
    else ""

unfoldable pub segmentation_ready_message : ReconcileResult → String
segmentation_ready_message result =
    if eq_ℤ result.matched_workloads (pos 0)
    then "Control plane recorded this policy's intent in the Knowledge Graph, "
      <> ("and confirmed that NO workload in this namespace matches spec.selector (a checked "
          <> ("zero, not an unchecked one): 0 edge(s) upserted, "
              <> (show_ℤ result.edges_closed <> " edge(s) closed.")))
    else "Control plane recorded this policy's intent in the Knowledge Graph: "
      <> (show_ℤ result.matched_workloads
          <> (" workload(s) matched, "
              <> (show_ℤ result.edges_upserted
                  <> (" edge(s) upserted, "
                      <> (show_ℤ result.edges_closed <> " edge(s) closed.")))))
