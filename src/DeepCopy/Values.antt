-- ===== src/DeepCopy/Values.antt =====
-- api/v1alpha1/zz_generated.deepcopy.go: what each struct in memory stands for, field by field.
use k8boss_operator.Prelude.{String, List, Nilable, ℤ}
use k8boss_operator.Api.{Condition, ProviderHealthStatus, PlatformConfigSpec}
use k8boss_operator.DeepCopy.Reads.{Reading, read_flat, read_slice, read_pair}
use k8boss_operator.DeepCopy.Structs.{
  WorkloadSelector, SegmentationRule, SegmentationPolicySpec, SegmentationPolicyStatus,
  RuntimeSecurityPolicySpec, RuntimeSecurityPolicyStatus, PlatformConfigStatus, SegmentationPolicy,
  RuntimeSecurityPolicy, PlatformConfig, ObjectList, Cell, numbers_slot, texts_slot,
  string_map_slot, conditions_slot, provider_health_slot, rules_slot, segmentation_policies_slot,
  runtime_policies_slot, platform_configs_slot,
}

abbrev pub WorkloadSelectorValue : Type 0
WorkloadSelectorValue = Nilable (List (String × String))

abbrev pub read_workload_selector :
    {Meta : Type 0} → Reading (Cell Meta) WorkloadSelector WorkloadSelectorValue
read_workload_selector lo hi c s = read_slice string_map_slot read_flat lo hi c s.match_labels

abbrev pub SegmentationRuleValue : Type 0
SegmentationRuleValue = (Nilable (List ℤ)) × ((Nilable (List (String × String))) × String)

abbrev pub read_segmentation_rule :
    {Meta : Type 0} → Reading (Cell Meta) SegmentationRule SegmentationRuleValue
read_segmentation_rule lo hi c s =
    read_pair (read_slice numbers_slot read_flat)
      (read_pair (read_slice string_map_slot read_flat) read_flat) lo hi c
      (s.ports, (s.peer_selector, s.peer_namespace))

abbrev pub SegmentationSpecValue : Type 0
SegmentationSpecValue =
    WorkloadSelectorValue
    × ((Nilable (List SegmentationRuleValue)) × ((Nilable (List SegmentationRuleValue)) × String))

abbrev pub read_segmentation_spec :
    {Meta : Type 0} → Reading (Cell Meta) SegmentationPolicySpec SegmentationSpecValue
read_segmentation_spec lo hi c s =
    read_pair read_workload_selector
      (read_pair (read_slice rules_slot read_segmentation_rule)
        (read_pair (read_slice rules_slot read_segmentation_rule) read_flat))
      lo hi c (s.selector, (s.ingress, (s.egress, s.provider_ref)))

abbrev pub SegmentationStatusValue : Type 0
SegmentationStatusValue = (Nilable (List Condition)) × (ℤ × String)

abbrev pub read_segmentation_status :
    {Meta : Type 0} → Reading (Cell Meta) SegmentationPolicyStatus SegmentationStatusValue
read_segmentation_status lo hi c s =
    read_pair (read_slice conditions_slot read_flat) (read_pair read_flat read_flat) lo hi c
      (s.conditions, (s.observed_generation, s.resolved_flow_provider))

abbrev pub RuntimeSpecValue : Type 0
RuntimeSpecValue = WorkloadSelectorValue × (String × (Nilable (List String)))

abbrev pub read_runtime_spec :
    {Meta : Type 0} → Reading (Cell Meta) RuntimeSecurityPolicySpec RuntimeSpecValue
read_runtime_spec lo hi c s =
    read_pair read_workload_selector (read_pair read_flat (read_slice texts_slot read_flat)) lo hi c
      (s.selector, (s.tracing_policy_ref, s.denied_binaries))

abbrev pub RuntimeStatusValue : Type 0
RuntimeStatusValue = (Nilable (List Condition)) × (ℤ × ℤ)

abbrev pub read_runtime_status :
    {Meta : Type 0} → Reading (Cell Meta) RuntimeSecurityPolicyStatus RuntimeStatusValue
read_runtime_status lo hi c s =
    read_pair (read_slice conditions_slot read_flat) (read_pair read_flat read_flat) lo hi c
      (s.conditions, (s.observed_generation, s.correlated_evidence_count))

abbrev pub PlatformStatusValue : Type 0
PlatformStatusValue = (Nilable (List Condition)) × (ℤ × (Nilable (List ProviderHealthStatus)))

abbrev pub read_platform_status :
    {Meta : Type 0} → Reading (Cell Meta) PlatformConfigStatus PlatformStatusValue
read_platform_status lo hi c s =
    read_pair (read_slice conditions_slot read_flat)
      (read_pair read_flat (read_slice provider_health_slot read_flat)) lo hi c
      (s.conditions, (s.observed_generation, s.provider_health))

module _ {Meta Value : Type 0} (read_meta : Reading (Cell Meta) Meta Value) where
  abbrev pub read_segmentation_policy :
      Reading
        (Cell Meta)
        (SegmentationPolicy Meta)
        (Value × (SegmentationSpecValue × SegmentationStatusValue))
  read_segmentation_policy lo hi c s =
      read_pair read_meta (read_pair read_segmentation_spec read_segmentation_status) lo hi c
        (s.metadata, (s.spec, s.status))

  abbrev pub read_runtime_policy :
      Reading
        (Cell Meta)
        (RuntimeSecurityPolicy Meta)
        (Value × (RuntimeSpecValue × RuntimeStatusValue))
  read_runtime_policy lo hi c s =
      read_pair read_meta (read_pair read_runtime_spec read_runtime_status) lo hi c
        (s.metadata, (s.spec, s.status))

  abbrev pub read_platform_config :
      Reading (Cell Meta) (PlatformConfig Meta) (Value × (PlatformConfigSpec × PlatformStatusValue))
  read_platform_config lo hi c s =
      read_pair read_meta (read_pair read_flat read_platform_status) lo hi c
        (s.metadata, (s.spec, s.status))

module _ {Meta Value ListMeta ListValue : Type 0} (read_meta : Reading (Cell Meta) Meta Value)
    (read_list_meta : Reading (Cell Meta) ListMeta ListValue) where
  abbrev pub read_segmentation_list :
      Reading
        (Cell Meta)
        (ObjectList ListMeta (SegmentationPolicy Meta))
        (ListValue × Nilable (List (Value × (SegmentationSpecValue × SegmentationStatusValue))))
  read_segmentation_list lo hi c s =
      read_pair read_list_meta
        (read_slice segmentation_policies_slot (read_segmentation_policy read_meta)) lo hi c
        (s.metadata, s.items)

  abbrev pub read_runtime_list :
      Reading
        (Cell Meta)
        (ObjectList ListMeta (RuntimeSecurityPolicy Meta))
        (ListValue × Nilable (List (Value × (RuntimeSpecValue × RuntimeStatusValue))))
  read_runtime_list lo hi c s =
      read_pair read_list_meta (read_slice runtime_policies_slot (read_runtime_policy read_meta)) lo
        hi c (s.metadata, s.items)

  abbrev pub read_platform_list :
      Reading
        (Cell Meta)
        (ObjectList ListMeta (PlatformConfig Meta))
        (ListValue × Nilable (List (Value × (PlatformConfigSpec × PlatformStatusValue))))
  read_platform_list lo hi c s =
      read_pair read_list_meta (read_slice platform_configs_slot (read_platform_config read_meta))
        lo hi c (s.metadata, s.items)
