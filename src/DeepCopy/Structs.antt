-- ===== src/DeepCopy/Structs.antt =====
-- api/v1alpha1/*_types.go: the resources as they lie in memory. A slice or a map is an address, or
-- none where it is nil. `Meta` and `ListMeta` are apimachinery's ObjectMeta and ListMeta in memory.
use k8boss_operator.Prelude.{ℕ, String, Option, none, some, List, Nilable, ℤ, refl}
use k8boss_operator.Api.{StringMap, Condition, ProviderHealthStatus, PlatformConfigSpec}
use k8boss_operator.DeepCopy.Memory.{Slot}

pub record WorkloadSelector : Type 0 where
  pub match_labels : Nilable ℕ

pub record SegmentationRule : Type 0 where
  pub ports : Nilable ℕ
  pub peer_selector : Nilable ℕ
  pub peer_namespace : String

pub record SegmentationPolicySpec : Type 0 where
  pub selector : WorkloadSelector
  pub ingress : Nilable ℕ
  pub egress : Nilable ℕ
  pub provider_ref : String

pub record SegmentationPolicyStatus : Type 0 where
  pub conditions : Nilable ℕ
  pub observed_generation : ℤ
  pub resolved_flow_provider : String

pub record RuntimeSecurityPolicySpec : Type 0 where
  pub selector : WorkloadSelector
  pub tracing_policy_ref : String
  pub denied_binaries : Nilable ℕ

pub record RuntimeSecurityPolicyStatus : Type 0 where
  pub conditions : Nilable ℕ
  pub observed_generation : ℤ
  pub correlated_evidence_count : ℤ

pub record PlatformConfigStatus : Type 0 where
  pub conditions : Nilable ℕ
  pub observed_generation : ℤ
  pub provider_health : Nilable ℕ

pub record SegmentationPolicy (Meta : Type 0) : Type 0 where
  pub metadata : Meta
  pub spec : SegmentationPolicySpec
  pub status : SegmentationPolicyStatus

pub record RuntimeSecurityPolicy (Meta : Type 0) : Type 0 where
  pub metadata : Meta
  pub spec : RuntimeSecurityPolicySpec
  pub status : RuntimeSecurityPolicyStatus

pub record PlatformConfig (Meta : Type 0) : Type 0 where
  pub metadata : Meta
  pub spec : PlatformConfigSpec
  pub status : PlatformConfigStatus

-- The three lists, of which `Item` is the item
pub record ObjectList (ListMeta Item : Type 0) : Type 0 where
  pub metadata : ListMeta
  pub items : Nilable ℕ

-- What stands at an address: an array, or a map as the array of its entries.
pub data Cell (Meta : Type 0) : Type 0 where
  numbers : List ℤ → Cell Meta
  texts : List String → Cell Meta
  string_map : StringMap → Cell Meta
  conditions : List Condition → Cell Meta
  provider_health : List ProviderHealthStatus → Cell Meta
  rules : List SegmentationRule → Cell Meta
  segmentation_policies : List (SegmentationPolicy Meta) → Cell Meta
  runtime_policies : List (RuntimeSecurityPolicy Meta) → Cell Meta
  platform_configs : List (PlatformConfig Meta) → Cell Meta

module _ {Meta : Type 0} where
  abbrev pub numbers_in : Cell Meta → Option (List ℤ)
  numbers_in (numbers xs) = some xs
  numbers_in _ = none

  abbrev pub numbers_slot : Slot (Cell Meta) ℤ
  numbers_slot = record { put = numbers; take = numbers_in; take-put = λ xs. refl }

  abbrev pub texts_in : Cell Meta → Option (List String)
  texts_in (texts xs) = some xs
  texts_in _ = none

  abbrev pub texts_slot : Slot (Cell Meta) String
  texts_slot = record { put = texts; take = texts_in; take-put = λ xs. refl }

  abbrev pub string_map_in : Cell Meta → Option (List (String × String))
  string_map_in (string_map xs) = some xs
  string_map_in _ = none

  abbrev pub string_map_slot : Slot (Cell Meta) (String × String)
  string_map_slot = record { put = string_map; take = string_map_in; take-put = λ xs. refl }

  abbrev pub conditions_in : Cell Meta → Option (List Condition)
  conditions_in (conditions xs) = some xs
  conditions_in _ = none

  abbrev pub conditions_slot : Slot (Cell Meta) Condition
  conditions_slot = record { put = conditions; take = conditions_in; take-put = λ xs. refl }

  abbrev pub provider_health_in : Cell Meta → Option (List ProviderHealthStatus)
  provider_health_in (provider_health xs) = some xs
  provider_health_in _ = none

  abbrev pub provider_health_slot : Slot (Cell Meta) ProviderHealthStatus
  provider_health_slot = record {
    put = provider_health;
    take = provider_health_in;
    take-put = λ xs. refl;
  }

  abbrev pub rules_in : Cell Meta → Option (List SegmentationRule)
  rules_in (rules xs) = some xs
  rules_in _ = none

  abbrev pub rules_slot : Slot (Cell Meta) SegmentationRule
  rules_slot = record { put = rules; take = rules_in; take-put = λ xs. refl }

  abbrev pub segmentation_policies_in : Cell Meta → Option (List (SegmentationPolicy Meta))
  segmentation_policies_in (segmentation_policies xs) = some xs
  segmentation_policies_in _ = none

  abbrev pub segmentation_policies_slot : Slot (Cell Meta) (SegmentationPolicy Meta)
  segmentation_policies_slot = record {
    put = segmentation_policies;
    take = segmentation_policies_in;
    take-put = λ xs. refl;
  }

  abbrev pub runtime_policies_in : Cell Meta → Option (List (RuntimeSecurityPolicy Meta))
  runtime_policies_in (runtime_policies xs) = some xs
  runtime_policies_in _ = none

  abbrev pub runtime_policies_slot : Slot (Cell Meta) (RuntimeSecurityPolicy Meta)
  runtime_policies_slot = record {
    put = runtime_policies;
    take = runtime_policies_in;
    take-put = λ xs. refl;
  }

  abbrev pub platform_configs_in : Cell Meta → Option (List (PlatformConfig Meta))
  platform_configs_in (platform_configs xs) = some xs
  platform_configs_in _ = none

  abbrev pub platform_configs_slot : Slot (Cell Meta) (PlatformConfig Meta)
  platform_configs_slot = record {
    put = platform_configs;
    take = platform_configs_in;
    take-put = λ xs. refl;
  }
