-- ===== src/Common/Told.antt =====
-- internal/controller: what a status and an outcome tell of a call of the control plane that failed.
use k8boss_operator.Prelude.{
  ℕ, String, ◌≡◌, ◌≢◌, arith, Bool, true, false, Option, none, some, List, ◌∷◌,
}
use k8boss_operator.Backend.Errors.{GoError, ApiError, ok, err, Result}
use k8boss_operator.Backend.Parse.{parse_api_error}
use k8boss_operator.Backend.Transport.{Http}
use k8boss_operator.Kube.{Event, status_updated, Outcome, Snapshot, requeued, failed}
use k8boss_operator.Common.{paused_requeue}
use k8boss_operator.Common.Willing.{IsUnready}

-- How long the wait is.
abbrev pub IsWaiting : Bool → Outcome → Type 0
IsWaiting true o = o ≡ requeued paused_requeue
IsWaiting false o = o.error ≢ none

-- The status written last says Ready=False with this reason; the next look is after the pause interval
-- if that is asked for, and the outcome is an error otherwise, or if the write failed.
abbrev pub IsTold : String → Bool → Outcome → List Event → Type 0
IsTold reason waits o (status_updated s (ok t) ∷ es) = IsUnready reason s × IsWaiting waits o
IsTold reason waits o (status_updated s (err e) ∷ es) = IsUnready reason s × (o.error ≢ none)
IsTold reason waits o es = ⊥

abbrev pub is_answer : Option ApiError → Bool
is_answer none = false
is_answer (some a) = true

-- The category that the body of a response names
abbrev pub category : {W : Type 0} → Http W → ℕ → String → String
category http status body = (parse_api_error status body (http.parse_json body)).category

pub IsTold-failed :
    (reason : String) (u : GoError) (s : Snapshot) (a : Result Snapshot) (es : List Event)
    → IsUnready reason s
    → IsTold reason false (failed u) (status_updated s a ∷ es)
IsTold-failed reason u s (ok t) es h = (h, (λ p. ground (arith, p)))
IsTold-failed reason u s (err e) es h = (h, (λ p. ground (arith, p)))
