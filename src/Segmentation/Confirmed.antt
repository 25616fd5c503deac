-- ===== src/Segmentation/Confirmed.antt =====
-- internal/controller/segmentationpolicy_controller.go: when a 200 confirms the write.
use k8boss_operator.Prelude.{
  ◌<>◌, ◌≡◌, ◌↔◌, refl, arith, [], eq_iff, eq_ℤ_iff, length, items, append_ne, append_ne_right,
  length-pos_iff, quote, show_length, show_ℤ,
}
use k8boss_operator.Backend.Wire.{ReconcileResult}
use k8boss_operator.Segmentation.Exchange.{inconsistent_segmentation_result}

-- The status is "ok", every edge verified as open, and there is one edge for each workload.
abbrev pub IsConverged : ReconcileResult → Type 0
IsConverged res =
    (res.status ≡ "ok")
    × (items res.unverified_edge_keys ≡ [])
    × (res.edges_upserted ≡ res.matched_workloads)

-- The answer counts as consistent exactly when it shows a converged write.
pub inconsistent_segmentation_result-eq-nil :
    (res : ReconcileResult) → (inconsistent_segmentation_result res ≡ "") ↔ IsConverged res
unfolding inconsistent_segmentation_result
inconsistent_segmentation_result-eq-nil res = ground (
  arith,
  eq_iff res.status "ok",
  eq_ℤ_iff res.edges_upserted res.matched_workloads,
  length-pos_iff (items res.unverified_edge_keys),
  append_ne "status was " (quote res.status <> ", not \"ok\"") refl,
  append_ne_right (show_length (length (items res.unverified_edge_keys)))
      " edge(s) did not verify as open after commit" refl,
  append_ne "edges_upserted="
      (show_ℤ res.edges_upserted
        <> (" does not match matched_workloads=" <> show_ℤ res.matched_workloads))
      refl,
)
