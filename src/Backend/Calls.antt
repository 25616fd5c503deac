-- ===== src/Backend/Calls.antt =====
-- internal/backendclient/client.go: the six calls of the operator API contract, and the interface
-- that they fill: what a reconciler needs of the control plane.
use k8boss_operator.Prelude.{String, ◌<>◌, Bool, none, some, ℤ, show_ℤ}
use k8boss_operator.Backend.Errors.{Result}
use k8boss_operator.Backend.Wire.{
  SegmentationPolicySpec, RuntimeSecurityPolicySpec, ReconcileResult, CloseResult, PausedState,
  ProviderHealthResponse,
}
use k8boss_operator.Backend.Encode.{
  encode_segmentation, encode_runtime, encode_close, encode_paused,
}
use k8boss_operator.Backend.Decode.{
  decode_reconcile_result, decode_close_result, decode_paused_state, decode_health_response,
}
use k8boss_operator.Backend.Transport.{Client, Http, do_request}

-- The control plane over the state `W` of everything outside the operator.
pub record ControlPlane (W : Type 0) : Type 0 where
  pub reconcile_segmentation_policy :
      ℤ → String → String → SegmentationPolicySpec → W → Result ReconcileResult × W
  pub reconcile_runtime_security_policy :
      ℤ → String → String → RuntimeSecurityPolicySpec → W → Result ReconcileResult × W
  pub close_cr_edges : String → ℤ → String → String → W → Result CloseResult × W
  pub set_paused : Bool → String → W → Result PausedState × W
  pub get_paused : W → Result PausedState × W
  pub provider_health : ℤ → W → Result ProviderHealthResponse × W

abbrev pub api_prefix : String
api_prefix = "/internal/operator/v1"

abbrev pub segmentation_path : String
segmentation_path = "/internal/operator/v1/segmentation-policies/reconcile"

abbrev pub runtime_path : String
runtime_path = "/internal/operator/v1/runtime-security-policies/reconcile"

abbrev pub close_path : String
close_path = "/internal/operator/v1/cr-edges/close"

abbrev pub paused_path : String
paused_path = "/internal/operator/v1/paused"

unfoldable pub health_path : ℤ → String
health_path cluster_id = api_prefix <> ("/provider-health?cluster_id=" <> show_ℤ cluster_id)

-- The methods of *Client
unfoldable pub client_calls : {W : Type 0} → Http W → Client → ControlPlane W
unfolding health_path
client_calls http c = record {
  reconcile_segmentation_policy = λ cluster_id namespace name spec.
      do_request http c "POST" segmentation_path
        (some (
          encode_segmentation
            (record { cluster_id = cluster_id; namespace = namespace; name = name; spec = spec })))
        decode_reconcile_result;
  reconcile_runtime_security_policy = λ cluster_id namespace name spec.
      do_request http c "POST" runtime_path
        (some (
          encode_runtime
            (record { cluster_id = cluster_id; namespace = namespace; name = name; spec = spec })))
        decode_reconcile_result;
  close_cr_edges = λ cr_kind cluster_id namespace name.
      do_request http c "POST" close_path
        (some (
          encode_close (record {
            cr_kind = cr_kind;
            cluster_id = cluster_id;
            namespace = namespace;
            name = name;
          })))
        decode_close_result;
  set_paused = λ paused by.
      do_request http c "PUT" paused_path
        (some (encode_paused (record { paused = paused; by = by }))) decode_paused_state;
  get_paused = do_request http c "GET" paused_path none decode_paused_state;
  provider_health =
      λ cluster_id. do_request http c "GET" (health_path cluster_id) none decode_health_response;
}
