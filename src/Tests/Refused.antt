-- ===== src/Tests/Refused.antt =====
-- Reconcile calls that the control plane answers with 423 and 503.
use k8boss_operator.Prelude.{String, ◌≡◌, refl, [], none, false}
use k8boss_operator.Backend.Errors.{GoError, api}
use k8boss_operator.Backend.Parse.{parse_api_error}
use k8boss_operator.Backend.Transport.{Client, Http, response, read_response}
use k8boss_operator.Backend.Calls.{client_calls}
use k8boss_operator.Kube.{start}
use k8boss_operator.Common.{PauseGate}
use k8boss_operator.Segmentation
use k8boss_operator.Segmentation.Failed
use k8boss_operator.Segmentation.Failed.{exchange-IsTold}
use k8boss_operator.Runtime.{push}
use k8boss_operator.Common.Told.{IsTold}
use k8boss_operator.Runtime.Refused.{reason_after, waits_after, push-IsTold}
use k8boss_operator.Tests.Cluster.{
  apimachinery, serving, tracing_policy, web_policy, default_config, runtime_reconciler,
  segmentation_reconciler, refusing_http,
}

abbrev whole_client : Client
whole_client = record { base_url = "https://plane"; token = "t"; missing = [] }

abbrev body : String
body = "{\"detail\":\"paused\",\"reason\":\"operator_paused\"}"

abbrev refusal : GoError
refusal = api (parse_api_error 423 body (refusing_http.parse_json body))

push-IsTold_example :
    let (outcome, run) =
      push apimachinery
        (serving tracing_policy)
        (serving default_config)
        (client_calls refusing_http whole_client)
        runtime_reconciler
        tracing_policy
        (start tt) in
    IsTold
      (reason_after refusing_http (response 423 body))
      (waits_after refusing_http (response 423 body))
      outcome
      run.log
unfolding read_response
push-IsTold_example =
    push-IsTold apimachinery (serving tracing_policy) (serving default_config) refusing_http
      whole_client runtime_reconciler tracing_policy (start tt) (response 423 body) tt refusal refl
      refl refl refl

reason_after_run : reason_after refusing_http (response 423 body) ≡ "Paused"
reason_after_run = refl

-- A control plane behind a proxy that answers with 503, in no JSON
abbrev unavailable_http : Http Unit
unavailable_http = record refusing_http {
  round_trip = λ request w. (response 503 "busy", w);
  parse_json = λ body. none;
}

abbrev unavailable : GoError
unavailable = api (parse_api_error 503 "busy" none)

abbrev open_gate : PauseGate
open_gate = record { paused = false; reason = ""; message = ""; flow_provider = "cilium" }

exchange-IsTold_example :
    let (outcome, run) =
      Segmentation.push apimachinery
        (serving web_policy)
        (serving default_config)
        (client_calls unavailable_http whole_client)
        segmentation_reconciler
        web_policy
        open_gate
        (start tt) in
    IsTold
      (Failed.reason_after unavailable_http (response 503 "busy"))
      (Failed.waits_after unavailable_http (response 503 "busy"))
      outcome
      run.log
unfolding read_response
exchange-IsTold_example =
    exchange-IsTold apimachinery (serving web_policy) (serving default_config) unavailable_http
      whole_client segmentation_reconciler web_policy open_gate (start tt) (response 503 "busy") tt
      unavailable refl refl refl refl

segmentation_reason_run :
    Failed.reason_after unavailable_http (response 503 "busy") ≡ "ReconcileFailed"
unfolding parse_api_error
segmentation_reason_run = refl
