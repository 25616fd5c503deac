-- ===== src/Backend/Decode.antt =====
-- internal/backendclient/client.go: json.Unmarshal of the response bodies, by their json tags. A
-- response is decoded into a zero value.
use k8boss_operator.Prelude.{String, false, Option, none, some, pos, if◌then◌else◌}
use k8boss_operator.Backend.Json.{
  Json, ◌>>=◌, names_field, decode_string, decode_bool, decode_int, decode_pointer, decode_slice,
  decode_struct,
}
use k8boss_operator.Backend.Wire.{
  ReconcileResult, CloseResult, PausedState, ProviderHealth, ProviderHealthResponse,
}

abbrev pub zero_reconcile_result : ReconcileResult
zero_reconcile_result = record {
  status = "";
  edges_upserted = pos 0;
  edges_closed = pos 0;
  edge_keys = none;
  matched_workloads = pos 0;
  unverified_edge_keys = none;
  provider_installed = none;
}

set_reconcile_result : ReconcileResult → String → Json → Option ReconcileResult
unfolding names_field decode_string decode_int decode_slice decode_pointer decode_bool
set_reconcile_result r k j =
    if names_field k "status"
    then decode_string r.status j >>= (λ v. some (record r { status = v }))
    else if names_field k "edges_upserted"
    then decode_int r.edges_upserted j >>= (λ v. some (record r { edges_upserted = v }))
    else if names_field k "edges_closed"
    then decode_int r.edges_closed j >>= (λ v. some (record r { edges_closed = v }))
    else if names_field k "edge_keys"
    then decode_slice (decode_string "") j >>= (λ v. some (record r { edge_keys = v }))
    else if names_field k "matched_workloads"
    then decode_int r.matched_workloads j >>= (λ v. some (record r { matched_workloads = v }))
    else if names_field k "unverified_edge_keys"
    then decode_slice (decode_string "") j >>= (λ v. some (record r { unverified_edge_keys = v }))
    else if names_field k "provider_installed"
    then decode_pointer (decode_bool false) j >>= (λ v. some (record r { provider_installed = v }))
    else some r

unfoldable pub decode_reconcile_result : Json → Option ReconcileResult
unfolding set_reconcile_result decode_struct
decode_reconcile_result = decode_struct set_reconcile_result zero_reconcile_result

abbrev pub zero_close_result : CloseResult
zero_close_result = record { status = ""; edges_closed = pos 0; unverified_edge_keys = none }

set_close_result : CloseResult → String → Json → Option CloseResult
unfolding names_field decode_string decode_int decode_slice
set_close_result r k j =
    if names_field k "status"
    then decode_string r.status j >>= (λ v. some (record r { status = v }))
    else if names_field k "edges_closed"
    then decode_int r.edges_closed j >>= (λ v. some (record r { edges_closed = v }))
    else if names_field k "unverified_edge_keys"
    then decode_slice (decode_string "") j >>= (λ v. some (record r { unverified_edge_keys = v }))
    else some r

unfoldable pub decode_close_result : Json → Option CloseResult
unfolding set_close_result decode_struct
decode_close_result = decode_struct set_close_result zero_close_result

abbrev pub zero_paused_state : PausedState
zero_paused_state = record {
  paused = false;
  updated_at = none;
  updated_by = none;
  ever_set = false;
}

set_paused_state : PausedState → String → Json → Option PausedState
unfolding names_field decode_string decode_bool decode_pointer
set_paused_state r k j =
    if names_field k "paused"
    then decode_bool r.paused j >>= (λ v. some (record r { paused = v }))
    else if names_field k "updated_at"
    then decode_pointer (decode_string "") j >>= (λ v. some (record r { updated_at = v }))
    else if names_field k "updated_by"
    then decode_pointer (decode_string "") j >>= (λ v. some (record r { updated_by = v }))
    else if names_field k "ever_set"
    then decode_bool r.ever_set j >>= (λ v. some (record r { ever_set = v }))
    else some r

unfoldable pub decode_paused_state : Json → Option PausedState
unfolding set_paused_state decode_struct
decode_paused_state = decode_struct set_paused_state zero_paused_state

abbrev pub zero_provider_health : ProviderHealth
zero_provider_health = record {
  name = "";
  checked = false;
  healthy = none;
  message = "";
  last_query_error = none;
  blockers = none;
}

set_provider_health : ProviderHealth → String → Json → Option ProviderHealth
unfolding names_field decode_string decode_bool decode_pointer decode_slice
set_provider_health r k j =
    if names_field k "name"
    then decode_string r.name j >>= (λ v. some (record r { name = v }))
    else if names_field k "checked"
    then decode_bool r.checked j >>= (λ v. some (record r { checked = v }))
    else if names_field k "healthy"
    then decode_pointer (decode_bool false) j >>= (λ v. some (record r { healthy = v }))
    else if names_field k "message"
    then decode_string r.message j >>= (λ v. some (record r { message = v }))
    else if names_field k "last_query_error"
    then decode_pointer (decode_string "") j >>= (λ v. some (record r { last_query_error = v }))
    else if names_field k "blockers"
    then decode_slice (decode_string "") j >>= (λ v. some (record r { blockers = v }))
    else some r

decode_provider_health : Json → Option ProviderHealth
unfolding set_provider_health decode_struct
decode_provider_health = decode_struct set_provider_health zero_provider_health

abbrev pub zero_health_response : ProviderHealthResponse
zero_health_response = record { cluster_id = pos 0; providers = none }

set_health_response : ProviderHealthResponse → String → Json → Option ProviderHealthResponse
unfolding names_field decode_int decode_slice decode_provider_health
set_health_response r k j =
    if names_field k "cluster_id"
    then decode_int r.cluster_id j >>= (λ v. some (record r { cluster_id = v }))
    else if names_field k "providers"
    then decode_slice decode_provider_health j >>= (λ v. some (record r { providers = v }))
    else some r

unfoldable pub decode_health_response : Json → Option ProviderHealthResponse
unfolding set_health_response decode_struct
decode_health_response = decode_struct set_health_response zero_health_response
