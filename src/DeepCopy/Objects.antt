-- ===== src/DeepCopy/Objects.antt =====
-- api/v1alpha1/zz_generated.deepcopy.go: DeepCopy of each type, and DeepCopyObject, the method of
-- runtime.Object that the API machinery calls on whatever type an object has.
use k8boss_operator.Prelude.{Option, none, some}
use k8boss_operator.Api.{PlatformConfigSpec, ProviderHealthStatus}
use k8boss_operator.DeepCopy.Memory.{Mem, pure, ◌>>=◌, deep_copy}
use k8boss_operator.DeepCopy.Structs.{
  WorkloadSelector, SegmentationRule, SegmentationPolicySpec, SegmentationPolicyStatus,
  RuntimeSecurityPolicySpec, RuntimeSecurityPolicyStatus, PlatformConfigStatus, SegmentationPolicy,
  RuntimeSecurityPolicy, PlatformConfig, ObjectList, Cell,
}
use k8boss_operator.DeepCopy.Copies.{
  copy_workload_selector, copy_segmentation_rule, copy_segmentation_spec, copy_segmentation_status,
  copy_runtime_spec, copy_runtime_status, copy_provider_health, copy_platform_status,
  copy_platform_spec, copy_segmentation_policy, copy_runtime_policy, copy_platform_config,
  copy_segmentation_list, copy_runtime_list, copy_platform_list,
}

module _ {Meta : Type 0} where
  deep_copy_workload_selector : Option WorkloadSelector → Mem (Cell Meta) (Option WorkloadSelector)
  deep_copy_workload_selector = deep_copy copy_workload_selector

  deep_copy_segmentation_rule : Option SegmentationRule → Mem (Cell Meta) (Option SegmentationRule)
  deep_copy_segmentation_rule = deep_copy copy_segmentation_rule

  deep_copy_segmentation_spec :
      Option SegmentationPolicySpec → Mem (Cell Meta) (Option SegmentationPolicySpec)
  deep_copy_segmentation_spec = deep_copy copy_segmentation_spec

  deep_copy_segmentation_status :
      Option SegmentationPolicyStatus → Mem (Cell Meta) (Option SegmentationPolicyStatus)
  deep_copy_segmentation_status = deep_copy copy_segmentation_status

  deep_copy_runtime_spec :
      Option RuntimeSecurityPolicySpec → Mem (Cell Meta) (Option RuntimeSecurityPolicySpec)
  deep_copy_runtime_spec = deep_copy copy_runtime_spec

  deep_copy_runtime_status :
      Option RuntimeSecurityPolicyStatus → Mem (Cell Meta) (Option RuntimeSecurityPolicyStatus)
  deep_copy_runtime_status = deep_copy copy_runtime_status

  deep_copy_platform_spec : Option PlatformConfigSpec → Mem (Cell Meta) (Option PlatformConfigSpec)
  deep_copy_platform_spec = deep_copy copy_platform_spec

  deep_copy_platform_status :
      Option PlatformConfigStatus → Mem (Cell Meta) (Option PlatformConfigStatus)
  deep_copy_platform_status = deep_copy copy_platform_status

  deep_copy_provider_health :
      Option ProviderHealthStatus → Mem (Cell Meta) (Option ProviderHealthStatus)
  deep_copy_provider_health = deep_copy copy_provider_health

  module _ (copy_meta : Meta → Mem (Cell Meta) Meta) where
    unfoldable pub deep_copy_segmentation_policy :
        Option (SegmentationPolicy Meta) → Mem (Cell Meta) (Option (SegmentationPolicy Meta))
    deep_copy_segmentation_policy = deep_copy (copy_segmentation_policy copy_meta)

    unfoldable pub deep_copy_runtime_policy :
        Option (RuntimeSecurityPolicy Meta) → Mem (Cell Meta) (Option (RuntimeSecurityPolicy Meta))
    deep_copy_runtime_policy = deep_copy (copy_runtime_policy copy_meta)

    unfoldable pub deep_copy_platform_config :
        Option (PlatformConfig Meta) → Mem (Cell Meta) (Option (PlatformConfig Meta))
    deep_copy_platform_config = deep_copy (copy_platform_config copy_meta)

    module _ {ListMeta : Type 0} (copy_list_meta : ListMeta → Mem (Cell Meta) ListMeta) where
      unfoldable pub deep_copy_segmentation_list :
          Option (ObjectList ListMeta (SegmentationPolicy Meta))
          → Mem (Cell Meta) (Option (ObjectList ListMeta (SegmentationPolicy Meta)))
      deep_copy_segmentation_list = deep_copy (copy_segmentation_list copy_meta copy_list_meta)

      unfoldable pub deep_copy_runtime_list :
          Option (ObjectList ListMeta (RuntimeSecurityPolicy Meta))
          → Mem (Cell Meta) (Option (ObjectList ListMeta (RuntimeSecurityPolicy Meta)))
      deep_copy_runtime_list = deep_copy (copy_runtime_list copy_meta copy_list_meta)

      unfoldable pub deep_copy_platform_list :
          Option (ObjectList ListMeta (PlatformConfig Meta))
          → Mem (Cell Meta) (Option (ObjectList ListMeta (PlatformConfig Meta)))
      deep_copy_platform_list = deep_copy (copy_platform_list copy_meta copy_list_meta)

-- A runtime.Object of this group, by its type
pub data Object (Meta ListMeta : Type 0) : Type 0 where
  segmentation_policy : SegmentationPolicy Meta → Object Meta ListMeta
  runtime_policy : RuntimeSecurityPolicy Meta → Object Meta ListMeta
  platform_config : PlatformConfig Meta → Object Meta ListMeta
  segmentation_list : ObjectList ListMeta (SegmentationPolicy Meta) → Object Meta ListMeta
  runtime_list : ObjectList ListMeta (RuntimeSecurityPolicy Meta) → Object Meta ListMeta
  platform_list : ObjectList ListMeta (PlatformConfig Meta) → Object Meta ListMeta

-- A value in the interface, or nil
abbrev pub as_object : {M O : Type 0} → (M → O) → Option M → Option O
as_object wrap none = none
as_object wrap (some c) = some (wrap c)

module _ {Meta ListMeta : Type 0} (copy_meta : Meta → Mem (Cell Meta) Meta)
    (copy_list_meta : ListMeta → Mem (Cell Meta) ListMeta) where
  unfoldable pub segmentation_policy_object :
      Option (SegmentationPolicy Meta) → Mem (Cell Meta) (Option (Object Meta ListMeta))
  segmentation_policy_object in_ = do
    c ← deep_copy_segmentation_policy copy_meta in_
    pure (as_object segmentation_policy c)

  unfoldable pub runtime_policy_object :
      Option (RuntimeSecurityPolicy Meta) → Mem (Cell Meta) (Option (Object Meta ListMeta))
  runtime_policy_object in_ = do
    c ← deep_copy_runtime_policy copy_meta in_
    pure (as_object runtime_policy c)

  unfoldable pub platform_config_object :
      Option (PlatformConfig Meta) → Mem (Cell Meta) (Option (Object Meta ListMeta))
  platform_config_object in_ = do
    c ← deep_copy_platform_config copy_meta in_
    pure (as_object platform_config c)

  unfoldable pub segmentation_list_object :
      Option (ObjectList ListMeta (SegmentationPolicy Meta))
      → Mem (Cell Meta) (Option (Object Meta ListMeta))
  segmentation_list_object in_ = do
    c ← deep_copy_segmentation_list copy_meta copy_list_meta in_
    pure (as_object segmentation_list c)

  unfoldable pub runtime_list_object :
      Option (ObjectList ListMeta (RuntimeSecurityPolicy Meta))
      → Mem (Cell Meta) (Option (Object Meta ListMeta))
  runtime_list_object in_ = do
    c ← deep_copy_runtime_list copy_meta copy_list_meta in_
    pure (as_object runtime_list c)

  unfoldable pub platform_list_object :
      Option (ObjectList ListMeta (PlatformConfig Meta))
      → Mem (Cell Meta) (Option (Object Meta ListMeta))
  platform_list_object in_ = do
    c ← deep_copy_platform_list copy_meta copy_list_meta in_
    pure (as_object platform_list c)

  unfoldable pub deep_copy_object :
      Object Meta ListMeta → Mem (Cell Meta) (Option (Object Meta ListMeta))
  deep_copy_object (segmentation_policy x) = segmentation_policy_object (some x)
  deep_copy_object (runtime_policy x) = runtime_policy_object (some x)
  deep_copy_object (platform_config x) = platform_config_object (some x)
  deep_copy_object (segmentation_list x) = segmentation_list_object (some x)
  deep_copy_object (runtime_list x) = runtime_list_object (some x)
  deep_copy_object (platform_list x) = platform_list_object (some x)
