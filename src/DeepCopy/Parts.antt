-- ===== src/DeepCopy/Parts.antt =====
-- api/v1alpha1/zz_generated.deepcopy.go: each function makes a deep copy of its struct.
use k8boss_operator.Prelude.{refl}
use k8boss_operator.DeepCopy.Memory.{Mem}
use k8boss_operator.DeepCopy.Reads.{Reading}
use k8boss_operator.DeepCopy.Compose.{IsDeepCopy, flat, slice, pair, fields}
use k8boss_operator.DeepCopy.Structs.{
  Cell, numbers_slot, texts_slot, string_map_slot, conditions_slot, provider_health_slot,
  rules_slot, segmentation_policies_slot, runtime_policies_slot, platform_configs_slot,
}
use k8boss_operator.DeepCopy.Copies.{
  copy_workload_selector, copy_segmentation_rule, copy_segmentation_spec, copy_segmentation_status,
  copy_runtime_spec, copy_runtime_status, copy_provider_health, copy_platform_status,
  copy_platform_spec, copy_segmentation_policy, copy_runtime_policy, copy_platform_config,
  copy_segmentation_list, copy_runtime_list, copy_platform_list,
}
use k8boss_operator.DeepCopy.Values.{
  read_workload_selector, read_segmentation_rule, read_segmentation_spec, read_segmentation_status,
  read_runtime_spec, read_runtime_status, read_platform_status, read_segmentation_policy,
  read_runtime_policy, read_platform_config, read_segmentation_list, read_runtime_list,
  read_platform_list,
}

module _ {Meta : Type 0} where
  pub workload_selector-IsDeepCopy :
      IsDeepCopy {C = Cell Meta} read_workload_selector copy_workload_selector
  unfolding copy_workload_selector
  workload_selector-IsDeepCopy =
      fields (λ s. s.match_labels) copy_workload_selector (λ s h. refl) (slice string_map_slot flat)

  pub segmentation_rule-IsDeepCopy :
      IsDeepCopy {C = Cell Meta} read_segmentation_rule copy_segmentation_rule
  unfolding copy_segmentation_rule
  segmentation_rule-IsDeepCopy =
      fields (λ s. (s.ports, (s.peer_selector, s.peer_namespace))) copy_segmentation_rule
        (λ s h. refl) (pair (slice numbers_slot flat) (pair (slice string_map_slot flat) flat))

  pub segmentation_spec-IsDeepCopy :
      IsDeepCopy {C = Cell Meta} read_segmentation_spec copy_segmentation_spec
  unfolding copy_segmentation_spec
  segmentation_spec-IsDeepCopy =
      fields (λ s. (s.selector, (s.ingress, (s.egress, s.provider_ref)))) copy_segmentation_spec
        (λ s h. refl)
        (pair workload_selector-IsDeepCopy (
          pair (slice rules_slot segmentation_rule-IsDeepCopy)
            (pair (slice rules_slot segmentation_rule-IsDeepCopy) flat)))

  pub segmentation_status-IsDeepCopy :
      IsDeepCopy {C = Cell Meta} read_segmentation_status copy_segmentation_status
  unfolding copy_segmentation_status
  segmentation_status-IsDeepCopy =
      fields (λ s. (s.conditions, (s.observed_generation, s.resolved_flow_provider)))
        copy_segmentation_status (λ s h. refl) (pair (slice conditions_slot flat) (pair flat flat))

  pub runtime_spec-IsDeepCopy : IsDeepCopy {C = Cell Meta} read_runtime_spec copy_runtime_spec
  unfolding copy_runtime_spec
  runtime_spec-IsDeepCopy =
      fields (λ s. (s.selector, (s.tracing_policy_ref, s.denied_binaries))) copy_runtime_spec
        (λ s h. refl) (pair workload_selector-IsDeepCopy (pair flat (slice texts_slot flat)))

  pub runtime_status-IsDeepCopy : IsDeepCopy {C = Cell Meta} read_runtime_status copy_runtime_status
  unfolding copy_runtime_status
  runtime_status-IsDeepCopy =
      fields (λ s. (s.conditions, (s.observed_generation, s.correlated_evidence_count)))
        copy_runtime_status (λ s h. refl) (pair (slice conditions_slot flat) (pair flat flat))

  pub platform_status-IsDeepCopy :
      IsDeepCopy {C = Cell Meta} read_platform_status copy_platform_status
  unfolding copy_platform_status copy_provider_health
  platform_status-IsDeepCopy =
      fields (λ s. (s.conditions, (s.observed_generation, s.provider_health))) copy_platform_status
        (λ s h. refl)
        (pair (slice conditions_slot flat) (pair flat (slice provider_health_slot flat)))

module _ {Meta Value : Type 0} {read_meta : Reading (Cell Meta) Meta Value}
    {copy_meta : Meta → Mem (Cell Meta) Meta} (meta : IsDeepCopy read_meta copy_meta) where
  pub segmentation_policy-IsDeepCopy :
      IsDeepCopy (read_segmentation_policy read_meta) (copy_segmentation_policy copy_meta)
  unfolding copy_segmentation_policy
  segmentation_policy-IsDeepCopy =
      fields (λ s. (s.metadata, (s.spec, s.status))) (copy_segmentation_policy copy_meta)
        (λ s h. refl) (pair meta (pair segmentation_spec-IsDeepCopy segmentation_status-IsDeepCopy))

  pub runtime_policy-IsDeepCopy :
      IsDeepCopy (read_runtime_policy read_meta) (copy_runtime_policy copy_meta)
  unfolding copy_runtime_policy
  runtime_policy-IsDeepCopy =
      fields (λ s. (s.metadata, (s.spec, s.status))) (copy_runtime_policy copy_meta) (λ s h. refl)
        (pair meta (pair runtime_spec-IsDeepCopy runtime_status-IsDeepCopy))

  pub platform_config-IsDeepCopy :
      IsDeepCopy (read_platform_config read_meta) (copy_platform_config copy_meta)
  unfolding copy_platform_config copy_platform_spec
  platform_config-IsDeepCopy =
      fields (λ s. (s.metadata, (s.spec, s.status))) (copy_platform_config copy_meta) (λ s h. refl)
        (pair meta (pair flat platform_status-IsDeepCopy))

module _ {Meta Value ListMeta ListValue : Type 0} {read_meta : Reading (Cell Meta) Meta Value}
    {copy_meta : Meta → Mem (Cell Meta) Meta}
    {read_list_meta : Reading (Cell Meta) ListMeta ListValue}
    {copy_list_meta : ListMeta → Mem (Cell Meta) ListMeta} (meta : IsDeepCopy read_meta copy_meta)
    (list_meta : IsDeepCopy read_list_meta copy_list_meta) where
  pub segmentation_list-IsDeepCopy :
      IsDeepCopy
        (read_segmentation_list read_meta read_list_meta)
        (copy_segmentation_list copy_meta copy_list_meta)
  unfolding copy_segmentation_list
  segmentation_list-IsDeepCopy =
      fields (λ s. (s.metadata, s.items)) (copy_segmentation_list copy_meta copy_list_meta)
        (λ s h. refl)
        (pair list_meta (slice segmentation_policies_slot (segmentation_policy-IsDeepCopy meta)))

  pub runtime_list-IsDeepCopy :
      IsDeepCopy
        (read_runtime_list read_meta read_list_meta)
        (copy_runtime_list copy_meta copy_list_meta)
  unfolding copy_runtime_list
  runtime_list-IsDeepCopy =
      fields (λ s. (s.metadata, s.items)) (copy_runtime_list copy_meta copy_list_meta) (λ s h. refl)
        (pair list_meta (slice runtime_policies_slot (runtime_policy-IsDeepCopy meta)))

  pub platform_list-IsDeepCopy :
      IsDeepCopy
        (read_platform_list read_meta read_list_meta)
        (copy_platform_list copy_meta copy_list_meta)
  unfolding copy_platform_list
  platform_list-IsDeepCopy =
      fields (λ s. (s.metadata, s.items)) (copy_platform_list copy_meta copy_list_meta)
        (λ s h. refl)
        (pair list_meta (slice platform_configs_slot (platform_config-IsDeepCopy meta)))
