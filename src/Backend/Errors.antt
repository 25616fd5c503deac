-- ===== src/Backend/Errors.antt =====
-- internal/backendclient/client.go: UnconfiguredError, APIError and the predicates on errors. The
-- errors of the operator are values of one type, with what `%w` wraps kept inside.
use k8boss_operator.Prelude.{
  ℕ, String, ◌<>◌, Bool, true, false, ◌||◌, ◌&&◌, not, Option, none, some, List, ◌==◌, eqb,
  if◌then◌else◌, join, pos, show_ℤ,
}

-- APIError: a response of the control plane outside 2xx.
pub record ApiError : Type 0 where
  pub status_code : ℕ
  pub category : String
  pub code : String
  pub message : String

-- What the Kubernetes API server says of a failed call, as far as the operator asks.
pub data StatusReason : Type 0 where
  not_found other_reason : StatusReason

-- `wrap before e after` is fmt.Errorf with `%w` between the two texts.
pub data GoError : Type 0 where
  unconfigured : List String → GoError
  api : ApiError → GoError
  kube : StatusReason → String → GoError
  plain : String → GoError
  wrap : String → GoError → String → GoError

-- A call's answer: the value or the error of Go's pair.
pub data Result {ℓ} (A : Type ℓ) : Type ℓ where
  ok : A → Result A
  err : GoError → Result A

-- APIError.Error
unfoldable pub api_error_text : ApiError → String
api_error_text e =
    let number = "HTTP " <> show_ℤ (pos e.status_code) in
    if not (e.category == "") && not (e.code == "")
    then number <> (" " <> (e.category <> ("/" <> (e.code <> (": " <> e.message)))))
    else if not (e.category == "")
    then number <> (" " <> (e.category <> (": " <> e.message)))
    else number <> (": " <> e.message)

-- UnconfiguredError.Error
unfoldable pub unconfigured_text : List String → String
unconfigured_text missing =
    "the K8Boss control-plane connection is not configured ("
    <> (join missing ", " <> " unset), so no call was attempted")

-- err.Error()
unfoldable pub error_text : GoError → String
unfolding api_error_text unconfigured_text
error_text (unconfigured missing) = unconfigured_text missing
error_text (api e) = api_error_text e
error_text (kube reason text) = text
error_text (plain text) = text
error_text (wrap before e after) = before <> (error_text e <> after)

-- errors.As(err, &e) for an *APIError: the first in the chain
unfoldable pub as_api : GoError → Option ApiError
as_api (api e) = some e
as_api (wrap before e after) = as_api e
as_api (unconfigured missing) = none
as_api (kube reason text) = none
as_api (plain text) = none

-- IsUnconfigured
unfoldable pub is_unconfigured : GoError → Bool
is_unconfigured (unconfigured missing) = true
is_unconfigured (wrap before e after) = is_unconfigured e
is_unconfigured (api e) = false
is_unconfigured (kube reason text) = false
is_unconfigured (plain text) = false

-- apierrors.IsNotFound
unfoldable pub is_not_found : GoError → Bool
is_not_found (kube not_found text) = true
is_not_found (kube other_reason text) = false
is_not_found (wrap before e after) = is_not_found e
is_not_found (unconfigured missing) = false
is_not_found (api e) = false
is_not_found (plain text) = false

-- IsPaused: 423, or the category
unfoldable pub is_paused : GoError → Bool
unfolding as_api
is_paused e = elim (as_api e) [
  | none ↦ false
  | some a ↦ eqb a.status_code 423 || a.category == "paused"
]

-- IsProviderUnavailable: 503, or the category
unfoldable pub is_provider_unavailable : GoError → Bool
unfolding as_api
is_provider_unavailable e = elim (as_api e) [
  | none ↦ false
  | some a ↦ eqb a.status_code 503 || a.category == "provider_unavailable"
]

-- IsWriteNotVerified
unfoldable pub is_write_not_verified : GoError → Bool
unfolding as_api
is_write_not_verified e = elim (as_api e) [
  | none ↦ false
  | some a ↦ a.category == "write_not_verified"
]
