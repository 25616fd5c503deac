-- ===== src/DeepCopy/Copies.antt =====
-- api/v1alpha1/zz_generated.deepcopy.go: the functions. A pointer to a struct is the struct, or none
-- where it is nil; what DeepCopyInto writes into `out` is its result. TypeMeta is the type's own.
use k8boss_operator.Api.{PlatformConfigSpec, ProviderHealthStatus}
use k8boss_operator.DeepCopy.Memory.{Mem, pure, ◌>>=◌, copy_slice}
use k8boss_operator.DeepCopy.Structs.{
  WorkloadSelector, SegmentationRule, SegmentationPolicySpec, SegmentationPolicyStatus,
  RuntimeSecurityPolicySpec, RuntimeSecurityPolicyStatus, PlatformConfigStatus, SegmentationPolicy,
  RuntimeSecurityPolicy, PlatformConfig, ObjectList, Cell, numbers_slot, texts_slot,
  string_map_slot, conditions_slot, provider_health_slot, rules_slot, segmentation_policies_slot,
  runtime_policies_slot, platform_configs_slot,
}

module _ {Meta : Type 0} where
  unfoldable pub copy_workload_selector : WorkloadSelector → Mem (Cell Meta) WorkloadSelector
  copy_workload_selector in_ = do
    labels ← copy_slice string_map_slot pure in_.match_labels
    pure (record { match_labels = labels })

  unfoldable pub copy_segmentation_rule : SegmentationRule → Mem (Cell Meta) SegmentationRule
  copy_segmentation_rule in_ = do
    ports ← copy_slice numbers_slot pure in_.ports
    peer ← copy_slice string_map_slot pure in_.peer_selector
    pure (record in_ { ports = ports; peer_selector = peer })

  unfoldable pub copy_segmentation_spec :
      SegmentationPolicySpec → Mem (Cell Meta) SegmentationPolicySpec
  copy_segmentation_spec in_ = do
    selector ← copy_workload_selector in_.selector
    ingress ← copy_slice rules_slot copy_segmentation_rule in_.ingress
    egress ← copy_slice rules_slot copy_segmentation_rule in_.egress
    pure (record in_ { selector = selector; ingress = ingress; egress = egress })

  unfoldable pub copy_segmentation_status :
      SegmentationPolicyStatus → Mem (Cell Meta) SegmentationPolicyStatus
  copy_segmentation_status in_ = do
    conditions ← copy_slice conditions_slot pure in_.conditions
    pure (record in_ { conditions = conditions })

  unfoldable pub copy_runtime_spec :
      RuntimeSecurityPolicySpec → Mem (Cell Meta) RuntimeSecurityPolicySpec
  copy_runtime_spec in_ = do
    selector ← copy_workload_selector in_.selector
    binaries ← copy_slice texts_slot pure in_.denied_binaries
    pure (record in_ { selector = selector; denied_binaries = binaries })

  unfoldable pub copy_runtime_status :
      RuntimeSecurityPolicyStatus → Mem (Cell Meta) RuntimeSecurityPolicyStatus
  copy_runtime_status in_ = do
    conditions ← copy_slice conditions_slot pure in_.conditions
    pure (record in_ { conditions = conditions })

  unfoldable pub copy_platform_spec : PlatformConfigSpec → Mem (Cell Meta) PlatformConfigSpec
  copy_platform_spec = pure

  -- metav1.Time holds nothing that its copy would share.
  unfoldable pub copy_provider_health : ProviderHealthStatus → Mem (Cell Meta) ProviderHealthStatus
  copy_provider_health = pure

  unfoldable pub copy_platform_status : PlatformConfigStatus → Mem (Cell Meta) PlatformConfigStatus
  copy_platform_status in_ = do
    conditions ← copy_slice conditions_slot pure in_.conditions
    entries ← copy_slice provider_health_slot copy_provider_health in_.provider_health
    pure (record in_ { conditions = conditions; provider_health = entries })

  module _ (copy_meta : Meta → Mem (Cell Meta) Meta) where
    unfoldable pub copy_segmentation_policy :
        SegmentationPolicy Meta → Mem (Cell Meta) (SegmentationPolicy Meta)
    copy_segmentation_policy in_ = do
      metadata ← copy_meta in_.metadata
      spec ← copy_segmentation_spec in_.spec
      status ← copy_segmentation_status in_.status
      pure (record { metadata = metadata; spec = spec; status = status })

    unfoldable pub copy_runtime_policy :
        RuntimeSecurityPolicy Meta → Mem (Cell Meta) (RuntimeSecurityPolicy Meta)
    copy_runtime_policy in_ = do
      metadata ← copy_meta in_.metadata
      spec ← copy_runtime_spec in_.spec
      status ← copy_runtime_status in_.status
      pure (record { metadata = metadata; spec = spec; status = status })

    unfoldable pub copy_platform_config :
        PlatformConfig Meta → Mem (Cell Meta) (PlatformConfig Meta)
    copy_platform_config in_ = do
      metadata ← copy_meta in_.metadata
      status ← copy_platform_status in_.status
      pure (record in_ { metadata = metadata; status = status })

    module _ {ListMeta : Type 0} (copy_list_meta : ListMeta → Mem (Cell Meta) ListMeta) where
      unfoldable pub copy_segmentation_list :
          ObjectList ListMeta (SegmentationPolicy Meta)
          → Mem (Cell Meta) (ObjectList ListMeta (SegmentationPolicy Meta))
      copy_segmentation_list in_ = do
        metadata ← copy_list_meta in_.metadata
        items ← copy_slice segmentation_policies_slot copy_segmentation_policy in_.items
        pure (record { metadata = metadata; items = items })

      unfoldable pub copy_runtime_list :
          ObjectList ListMeta (RuntimeSecurityPolicy Meta)
          → Mem (Cell Meta) (ObjectList ListMeta (RuntimeSecurityPolicy Meta))
      copy_runtime_list in_ = do
        metadata ← copy_list_meta in_.metadata
        items ← copy_slice runtime_policies_slot copy_runtime_policy in_.items
        pure (record { metadata = metadata; items = items })

      unfoldable pub copy_platform_list :
          ObjectList ListMeta (PlatformConfig Meta)
          → Mem (Cell Meta) (ObjectList ListMeta (PlatformConfig Meta))
      copy_platform_list in_ = do
        metadata ← copy_list_meta in_.metadata
        items ← copy_slice platform_configs_slot copy_platform_config in_.items
        pure (record { metadata = metadata; items = items })
