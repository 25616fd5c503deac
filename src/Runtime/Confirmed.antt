-- ===== src/Runtime/Confirmed.antt =====
-- internal/controller/runtimesecuritypolicy_controller.go: when a 200 confirms the write.
use k8boss_operator.Prelude.{
  ◌<>◌, ◌≡◌, ◌↔◌, refl, arith, [], true, eq_iff, eq_ℤ_iff, length, items, append_ne, ne_of_test,
  some, append_ne_right, length-pos_iff, quote, show_length, show_ℤ,
}
use k8boss_operator.Backend.Wire.{ReconcileResult}
use k8boss_operator.Runtime.Exchange.{inconsistent_runtime_result}

-- The status is "ok", the provider is affirmed to be installed, every edge verified as open, and there is one edge for each workload.
abbrev pub IsConverged : ReconcileResult → Type 0
IsConverged res =
    (res.status ≡ "ok")
    × (res.provider_installed ≡ some true)
    × (items res.unverified_edge_keys ≡ [])
    × (res.edges_upserted ≡ res.matched_workloads)

-- The answer counts as consistent exactly when it shows a converged write.
pub inconsistent_runtime_result-eq-nil :
    (res : ReconcileResult) → (inconsistent_runtime_result res ≡ "") ↔ IsConverged res
unfolding inconsistent_runtime_result
inconsistent_runtime_result-eq-nil res = ground (
  arith,
  eq_iff res.status "ok",
  eq_ℤ_iff res.edges_upserted res.matched_workloads,
  length-pos_iff (items res.unverified_edge_keys),
  append_ne "status was " (quote res.status <> ", not \"ok\"") refl,
  append_ne_right (show_length (length (items res.unverified_edge_keys)))
      " edge(s) did not verify as open after commit" refl,
  ne_of_test "provider_installed was absent, so runtime provider availability is unconfirmed" ""
      refl,
  ne_of_test "provider_installed was false, so no runtime evidence could have been collected" ""
      refl,
  append_ne "edges_upserted="
      (show_ℤ res.edges_upserted
        <> (" does not match matched_workloads=" <> show_ℤ res.matched_workloads))
      refl,
)
