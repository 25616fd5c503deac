-- ===== src/Api.antt =====
-- api/v1alpha1: the three custom resources, and of apimachinery's ObjectMeta and Condition the
-- fields that the operator reads or writes. A timestamp is a number; a present deletion timestamp
-- is never the zero time.
use k8boss_operator.Prelude.{ℕ, String, Bool, Option, List, Nilable, ℤ}

-- metav1.ConditionStatus
pub data ConditionStatus : Type 0 where
  condition_true condition_false condition_unknown : ConditionStatus

-- metav1.Condition. The transition time is the library's own bookkeeping and is left out.
pub record Condition : Type 0 where
  pub kind : String
  pub status : ConditionStatus
  pub reason : String
  pub message : String
  pub observed_generation : ℤ

pub record NamespacedName : Type 0 where
  pub namespace : String
  pub name : String

-- metav1.ObjectMeta
pub record ObjectMeta : Type 0 where
  pub namespace : String
  pub name : String
  pub generation : ℤ
  pub deletion_timestamp : Option ℕ
  pub finalizers : List String

-- map[string]string, as a list of its entries in the order of the keys
abbrev pub StringMap : Type 0
StringMap = List (String × String)

pub record WorkloadSelector : Type 0 where
  pub match_labels : Nilable StringMap

pub record SegmentationRule : Type 0 where
  pub ports : Nilable (List ℤ)
  pub peer_selector : Nilable StringMap
  pub peer_namespace : String

pub record SegmentationPolicySpec : Type 0 where
  pub selector : WorkloadSelector
  pub ingress : Nilable (List SegmentationRule)
  pub egress : Nilable (List SegmentationRule)
  pub provider_ref : String

pub record SegmentationPolicyStatus : Type 0 where
  pub conditions : List Condition
  pub observed_generation : ℤ
  pub resolved_flow_provider : String

pub record SegmentationPolicy : Type 0 where
  pub metadata : ObjectMeta
  pub spec : SegmentationPolicySpec
  pub status : SegmentationPolicyStatus

pub record RuntimeSecurityPolicySpec : Type 0 where
  pub selector : WorkloadSelector
  pub tracing_policy_ref : String
  pub denied_binaries : Nilable (List String)

pub record RuntimeSecurityPolicyStatus : Type 0 where
  pub conditions : List Condition
  pub observed_generation : ℤ
  pub correlated_evidence_count : ℤ

pub record RuntimeSecurityPolicy : Type 0 where
  pub metadata : ObjectMeta
  pub spec : RuntimeSecurityPolicySpec
  pub status : RuntimeSecurityPolicyStatus

-- FlowProviderKind is a string that the schema limits to five values.
pub record PlatformConfigSpec : Type 0 where
  pub flow_provider : String
  pub paused : Bool

-- ProviderHealth, by its three constants
pub data Verdict : Type 0 where
  unknown healthy unhealthy : Verdict

pub record ProviderHealthStatus : Type 0 where
  pub name : String
  pub health : Verdict
  pub last_query_error : String
  pub reason : String
  pub observed_at : ℕ

pub record PlatformConfigStatus : Type 0 where
  pub conditions : List Condition
  pub observed_generation : ℤ
  pub provider_health : List ProviderHealthStatus

pub record PlatformConfig : Type 0 where
  pub metadata : ObjectMeta
  pub spec : PlatformConfigSpec
  pub status : PlatformConfigStatus
