-- ===== src/Backend/Answers.antt =====
-- internal/backendclient/client.go: what the answer of a call says of the exchange behind it.
use k8boss_operator.Prelude.{
  ◌≤◌, ◌<◌, String, ◌<>◌, ◌≡◌, refl, ◌↔◌, ◌⊎◌, Bool, true, false, Option, none, some, List, [], ◌∷◌,
  arith, ℤ,
}
use k8boss_operator.Backend.Errors.{
  ApiError, GoError, unconfigured, api, Result, ok, err, as_api, is_unconfigured, is_paused,
  is_provider_unavailable, is_write_not_verified,
}
use k8boss_operator.Backend.Json.{Json, ◌>>=◌}
use k8boss_operator.Backend.Parse.{parse_api_error}
use k8boss_operator.Backend.Transport.{
  Client, Exchange, no_response, broken_body, response, Http, build_request, read_response,
  do_request, new_unconfigured,
}
use k8boss_operator.Backend.Calls.{client_calls}
use k8boss_operator.Backend.Wire.{SegmentationPolicySpec, RuntimeSecurityPolicySpec}

module _ {W : Type 0} (http : Http W) where
  -- A 2xx response whose body decodes to `a`.
  abbrev pub IsSuccess : {A : Type 0} → (Json → Option A) → A → Exchange → Type 0
  IsSuccess decode a (response status body) =
      (200 ≤ status) × (status ≤ 299) × ((http.parse_json body >>= decode) ≡ some a)
  IsSuccess decode a (no_response text) = ⊥
  IsSuccess decode a (broken_body text) = ⊥

  -- A response outside 2xx, of which `a` is the reading.
  abbrev pub IsRefusal : ApiError → Exchange → Type 0
  IsRefusal a (response status body) =
      ((status < 200) ⊎ (299 < status)) × (parse_api_error status body (http.parse_json body) ≡ a)
  IsRefusal a (no_response text) = ⊥
  IsRefusal a (broken_body text) = ⊥

  -- The API error in a call's answer, if there is one.
  abbrev pub refusal : {A : Type 0} → Result A → Option ApiError
  refusal (ok a) = none
  refusal (err e) = as_api e

  module _ {A : Type 0} (method path : String) (decode : Json → Option A) where
    read_response-eq-ok :
        (a : A) (e : Exchange)
        → (read_response http method path decode e ≡ ok a) ↔ IsSuccess decode a e
    unfolding read_response
    read_response-eq-ok a (no_response t) = ground arith
    read_response-eq-ok a (broken_body t) = ground arith
    read_response-eq-ok a (response status body) = ground arith

    module _ (c : Client) (body : Option Json) (w : W) where
      -- A call succeeds exactly when the client is configured, the request can be built and the
      -- exchange is a 2xx response whose body decodes; and then it gives what the body decodes to.
      pub do_request-eq-ok :
          (a : A)
          → ((do_request http c method path body decode w).0 ≡ ok a) ↔ (
              (c.missing ≡ [])
              × (http.bad_request method (c.base_url <> path) ≡ none)
              × IsSuccess decode a (http.round_trip (build_request c method path body) w).0)
      unfolding do_request
      do_request-eq-ok a =
          ground
            (arith, read_response-eq-ok a (http.round_trip (build_request c method path body) w).0)

  module _ {A : Type 0} (method path : String) (decode : Json → Option A) where
    is_unconfigured-read_response :
        (e : GoError) (x : Exchange)
        → read_response http method path decode x ≡ err e
        → is_unconfigured e ≡ false
    unfolding read_response is_unconfigured
    is_unconfigured-read_response e (no_response t) h = ground (arith, h)
    is_unconfigured-read_response e (broken_body t) h = ground (arith, h)
    is_unconfigured-read_response e (response status body) h = ground (arith, h)

    -- A client that has all its settings never answers that nothing was configured, whatever the
    -- exchange: such an answer means that no request was sent.
    is_unconfigured-do_request :
        (c : Client) (body : Option Json) (w : W) (e : GoError)
        → c.missing ≡ []
        → (do_request http c method path body decode w).0 ≡ err e
        → is_unconfigured e ≡ false
    unfolding do_request is_unconfigured
    is_unconfigured-do_request c body w e configured h = ground (
      arith,
      is_unconfigured-read_response e (http.round_trip (build_request c method path body) w).0,
    )

  -- Every call of a client with missing settings answers that they are missing, and leaves the
  -- outside world as it was: no request is sent.
  client_calls-new_unconfigured :
      (setting : String) (more : List String) (w : W)
      → let missing = setting ∷ more in
        let plane = client_calls http (new_unconfigured missing) in
        ((id : ℤ) (ns name : String) (spec : SegmentationPolicySpec)
          → plane.reconcile_segmentation_policy id ns name spec w ≡ (err (unconfigured missing), w))
        × ((id : ℤ) (ns name : String) (spec : RuntimeSecurityPolicySpec)
            → plane.reconcile_runtime_security_policy id ns name spec w
              ≡ (err (unconfigured missing), w))
        × ((kind : String) (id : ℤ) (ns name : String)
            → plane.close_cr_edges kind id ns name w ≡ (err (unconfigured missing), w))
        × ((paused : Bool) (by : String)
            → plane.set_paused paused by w ≡ (err (unconfigured missing), w))
        × (plane.get_paused w ≡ (err (unconfigured missing), w))
        × ((id : ℤ) → plane.provider_health id w ≡ (err (unconfigured missing), w))
  unfolding client_calls new_unconfigured do_request
  client_calls-new_unconfigured setting more w = (
    λ id ns name spec. refl,
    λ id ns name spec. refl,
    λ kind id ns name. refl,
    λ paused by. refl,
    refl,
    λ id. refl,
  )

-- The errors that the reconcilers tell apart exclude one another: one that says that nothing was
-- configured is no answer of the API.
is_unconfigured-excludes :
    (e : GoError)
    → is_unconfigured e ≡ true
    → (is_paused e ≡ false)
      × (is_provider_unavailable e ≡ false)
      × (is_write_not_verified e ≡ false)
      × (as_api e ≡ none)
unfolding is_paused is_provider_unavailable is_write_not_verified as_api is_unconfigured
is_unconfigured-excludes (unconfigured missing) h = (refl, refl, refl, refl)
is_unconfigured-excludes (api a) h = ground arith
is_unconfigured-excludes (GoError.kube r t) h = (refl, refl, refl, refl)
is_unconfigured-excludes (GoError.plain t) h = (refl, refl, refl, refl)
is_unconfigured-excludes (GoError.wrap b e a) h = is_unconfigured-excludes e h
