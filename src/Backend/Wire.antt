-- ===== src/Backend/Wire.antt =====
-- internal/backendclient/client.go: the wire shapes.
use k8boss_operator.Prelude.{String, Bool, true, false, ◌&&◌, Option, none, some, List, Nilable, ℤ}
use k8boss_operator.Api.{StringMap}

pub record WorkloadSelector : Type 0 where
  pub match_labels : Nilable StringMap

pub record SegmentationRule : Type 0 where
  pub ports : Nilable (List ℤ)
  pub peer_selector : Nilable StringMap
  pub peer_namespace : String

pub record SegmentationPolicySpec : Type 0 where
  pub selector : WorkloadSelector
  pub ingress : Nilable (List SegmentationRule)
  pub egress : Nilable (List SegmentationRule)
  pub provider_ref : String

pub record RuntimeSecurityPolicySpec : Type 0 where
  pub selector : WorkloadSelector
  pub tracing_policy_ref : String
  pub denied_binaries : Nilable (List String)

pub record SegmentationReconcileRequest : Type 0 where
  pub cluster_id : ℤ
  pub namespace : String
  pub name : String
  pub spec : SegmentationPolicySpec

pub record RuntimeSecurityReconcileRequest : Type 0 where
  pub cluster_id : ℤ
  pub namespace : String
  pub name : String
  pub spec : RuntimeSecurityPolicySpec

pub record CloseRequest : Type 0 where
  pub cr_kind : String
  pub cluster_id : ℤ
  pub namespace : String
  pub name : String

-- The anonymous struct of SetPaused
pub record PausedRequest : Type 0 where
  pub paused : Bool
  pub by : String

pub record ReconcileResult : Type 0 where
  pub status : String
  pub edges_upserted : ℤ
  pub edges_closed : ℤ
  pub edge_keys : Nilable (List String)
  pub matched_workloads : ℤ
  pub unverified_edge_keys : Nilable (List String)
  pub provider_installed : Option Bool

pub record CloseResult : Type 0 where
  pub status : String
  pub edges_closed : ℤ
  pub unverified_edge_keys : Nilable (List String)

pub record PausedState : Type 0 where
  pub paused : Bool
  pub updated_at : Option String
  pub updated_by : Option String
  pub ever_set : Bool

pub record ProviderHealth : Type 0 where
  pub name : String
  pub checked : Bool
  pub healthy : Option Bool
  pub message : String
  pub last_query_error : Option String
  pub blockers : Nilable (List String)

pub record ProviderHealthResponse : Type 0 where
  pub cluster_id : ℤ
  pub providers : Nilable (List ProviderHealth)

-- ProviderHealth.Determinate
unfoldable pub determinate : ProviderHealth → Bool
determinate p = p.checked && (elim p.healthy [ none ↦ false | some h ↦ true ])
