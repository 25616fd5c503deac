-- ===== src/Segmentation/Failed.antt =====
-- internal/controller/segmentationpolicy_controller.go and internal/backendclient/client.go: what
-- the status says after each way in which the exchange with the control plane can go wrong.
use k8boss_operator.Prelude.{
  ℤ, ◌<>◌, String, ◌≡◌, arith, Bool, false, ◌||◌, ◌&&◌, not, Option, none, some, [], ◌==◌, eqb, ltb,
  if◌then◌else◌,
}
use k8boss_operator.Api.{SegmentationPolicy, PlatformConfig}
use k8boss_operator.Backend.Errors.{
  GoError, Result, err, as_api, is_unconfigured, is_paused, is_write_not_verified,
}
use k8boss_operator.Backend.Json.{Json}
use k8boss_operator.Backend.Parse.Details.{status-parse_api_error}
use k8boss_operator.Backend.Transport.{
  Client, Exchange, no_response, broken_body, response, Http, HttpRequest, build_request,
  read_response, do_request,
}
use k8boss_operator.Backend.Calls.{client_calls, segmentation_path}
use k8boss_operator.Backend.Wire.{ReconcileResult}
use k8boss_operator.Backend.Encode.{encode_segmentation}
use k8boss_operator.Backend.Decode.{decode_reconcile_result}
use k8boss_operator.Segmentation.Exchange.{to_wire_spec}
use k8boss_operator.Kube.{KubeClient, Apimachinery, Run}
use k8boss_operator.Common.{
  PauseGate, reason_paused, reason_write_not_verified, reason_reconcile_failed,
  reason_backend_unreachable,
}
use k8boss_operator.Common.Walk.{After, After-ask}
use k8boss_operator.Segmentation.{SegmentationPolicyReconciler, push}
use k8boss_operator.Common.Told.{IsTold, is_answer, category}
use k8boss_operator.Segmentation.Told.{reason_by, answer-IsTold}

module _ {W : Type 0} (http : Http W) where
  -- The reason that an exchange without success gives.
  abbrev pub reason_after : Exchange → String
  reason_after (no_response text) = reason_backend_unreachable
  reason_after (broken_body text) = reason_backend_unreachable
  reason_after (response status body) =
      if not (ltb status 200 || ltb 299 status)
      then reason_backend_unreachable
      else if eqb status 423 || category http status body == "paused"
      then reason_paused
      else if category http status body == "write_not_verified"
      then reason_write_not_verified
      else reason_reconcile_failed

  -- Whether it makes the reconciler wait.
  abbrev pub waits_after : Exchange → Bool
  waits_after (no_response text) = false
  waits_after (broken_body text) = false
  waits_after (response status body) =
      (ltb status 200 || ltb 299 status)
      && (eqb status 423 || category http status body == "paused")

  module _ {A : Type 0} (method path : String) (decode : Json → Option A) where
    reason_by-reason_after :
        (ex : Exchange) (e : GoError)
        → read_response http method path decode ex ≡ err e
        → (is_unconfigured e ≡ false)
          × (reason_by (is_paused e) (is_write_not_verified e) (is_answer (as_api e))
              ≡ reason_after ex)
          × (is_paused e ≡ waits_after ex)
    unfolding read_response is_unconfigured is_paused is_write_not_verified as_api
    reason_by-reason_after (no_response text) e h = ground (arith, h)
    reason_by-reason_after (broken_body text) e h = ground (arith, h)
    reason_by-reason_after (response status body) e h =
        ground (arith, h, (status-parse_api_error status body (http.parse_json body)).0)

-- The request of one policy's reconcile call.
abbrev pub segmentation_request : Client → ℤ → SegmentationPolicy → HttpRequest
segmentation_request c id cr = build_request c "POST" segmentation_path (
    some (
      encode_segmentation (record {
        cluster_id = id;
        namespace = cr.metadata.namespace;
        name = cr.metadata.name;
        spec = to_wire_spec cr.spec;
      })))

-- What the client makes of the exchange.
abbrev pub read_result : {W : Type 0} → Http W → Exchange → Result ReconcileResult
read_result http = read_response http "POST" segmentation_path decode_reconcile_result

module _ {W : Type 0} (lib : Apimachinery) (policies : KubeClient W SegmentationPolicy)
    (configs : KubeClient W PlatformConfig) (http : Http W) (c : Client)
    (r : SegmentationPolicyReconciler) where
  call_lem :
      (cr : SegmentationPolicy) (ex : Exchange) (w w' : W)
      → c.missing ≡ []
      → http.bad_request "POST" (c.base_url <> segmentation_path) ≡ none
      → http.round_trip (segmentation_request c r.cluster_id cr) w ≡ (ex, w')
      → (client_calls http c).reconcile_segmentation_policy r.cluster_id cr.metadata.namespace
          cr.metadata.name
          (to_wire_spec cr.spec)
          w
        ≡ (read_result http ex, w')
  unfolding client_calls do_request
  call_lem cr ex w w' configured fine sent = ground (arith, configured, fine, sent)

  -- A client with all its settings sends the reconcile call of a policy, and the exchange is no success.
  -- The status written last has Ready=False for the object's generation. Its reason is Paused after a 423
  -- or the category "paused", else WriteNotVerified after the category "write_not_verified", else
  -- ReconcileFailed after any other response outside 2xx, and BackendUnreachable after no response, but
  -- also after a broken body or a 2xx that does not decode, where the control plane did answer. If the
  -- write is taken, the next look is after 90 s in the first case; in all others the outcome is an
  -- error.
  pub exchange-IsTold :
      (cr : SegmentationPolicy) (gate : PauseGate) (s : Run W) (ex : Exchange) (w : W) (e : GoError)
      → c.missing ≡ []
      → http.bad_request "POST" (c.base_url <> segmentation_path) ≡ none
      → http.round_trip (segmentation_request c r.cluster_id cr) s.world ≡ (ex, w)
      → read_result http ex ≡ err e
      → let (outcome, run) = push lib policies configs (client_calls http c) r cr gate s in
        IsTold (reason_after http ex) (waits_after http ex) outcome run.log
  unfolding push
  exchange-IsTold cr gate s ex w e configured fine sent refused = after.holds
    where
      classed :
          (is_unconfigured e ≡ false)
          × (reason_by (is_paused e) (is_write_not_verified e) (is_answer (as_api e))
              ≡ reason_after http ex)
          × (is_paused e ≡ waits_after http ex)
      classed =
          reason_by-reason_after http "POST" segmentation_path decode_reconcile_result ex e refused

      after :
          After
            (λ o t. IsTold (reason_after http ex) (waits_after http ex) o t.log)
            (push lib policies configs (client_calls http c) r cr gate)
            s
      after = After-ask _ _ _ λ a w' asked.
          let same : a ≡ err e =
            ground (arith, asked, refused, call_lem cr ex s.world w configured fine sent) in
          rw (same, ← classed.1, ← classed.2)
            (answer-IsTold lib policies configs (client_calls http c) r cr gate e _ classed.0)
