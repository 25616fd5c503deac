-- ===== src/Runtime/Told.antt =====
-- internal/controller/runtimesecuritypolicy_controller.go, reconcileError: what the status says of an
-- error.
use k8boss_operator.Prelude.{
  ℕ, String, ◌≡◌, refl, arith, Bool, true, false, ◌||◌, List, ◌∷◌, if◌then◌else◌,
}
use k8boss_operator.Api.{RuntimeSecurityPolicy, PlatformConfig}
use k8boss_operator.Backend.Errors.{
  GoError, Result, ok, err, as_api, is_unconfigured, is_paused, is_provider_unavailable,
  is_write_not_verified,
}
use k8boss_operator.Backend.Calls.{ControlPlane}
use k8boss_operator.Kube.{
  KubeClient, Apimachinery, Event, status_updated, Run, Outcome, failed, map_result, ask, pure,
  ◌>>=◌,
}
use k8boss_operator.Common.{
  condition_ready, set_condition, paused_requeue, reason_paused, reason_provider_unavailable,
  reason_write_not_verified, reason_reconcile_failed, reason_backend_unreachable,
}
use k8boss_operator.Common.Walk.{After, After-pure, After-if, After-option, After-ask, After-report}
use k8boss_operator.Common.Willing.{IsUnready}
use k8boss_operator.Common.Told.{IsTold, IsTold-failed, is_answer}
use k8boss_operator.Runtime.{
  RuntimeSecurityPolicyReconciler, snapshot, not_ready_object, not_ready_outcome, not_ready,
  reconcile_error, reconcile_answer,
}

-- The reason, of a pause, an unavailable provider, an unverified write, any other answer, or none.
abbrev pub reason_by : Bool → Bool → Bool → Bool → String
reason_by paused unavailable unverified answered =
    if paused
    then reason_paused
    else if unavailable
    then reason_provider_unavailable
    else if answered
    then if unverified then reason_write_not_verified else reason_reconcile_failed
    else reason_backend_unreachable

module _ {W : Type 0} (lib : Apimachinery) (policies : KubeClient W RuntimeSecurityPolicy) where
  abbrev Told : String → Bool → Outcome → Run W → Type 0
  Told reason waits o s = IsTold reason waits o s.log

  abbrev delay : Bool → ℕ
  delay waits = if waits then paused_requeue else 0

  not_ready_object-IsUnready :
      (cr : RuntimeSecurityPolicy) (reason message : String)
      → IsUnready reason (snapshot (not_ready_object lib cr reason message))
  unfolding not_ready_object set_condition
  not_ready_object-IsUnready cr reason message =
      (message, lib.find_condition-set_status_condition condition_ready cr.status.conditions _)

  not_ready_outcome-IsTold :
      (cr : RuntimeSecurityPolicy) (reason message : String) (waits : Bool)
      (a : Result RuntimeSecurityPolicy) (es : List Event)
      → IsTold reason waits (not_ready_outcome reason message (delay waits) a) (
          status_updated (snapshot (not_ready_object lib cr reason message)) (map_result snapshot a)
          ∷ es)
  unfolding not_ready_outcome
  not_ready_outcome-IsTold cr reason message waits (err x) es =
      (not_ready_object-IsUnready cr reason message, (λ p. ground (arith, p)))
  not_ready_outcome-IsTold cr reason message true (ok o) es =
      (not_ready_object-IsUnready cr reason message, refl)
  not_ready_outcome-IsTold cr reason message false (ok o) es =
      (not_ready_object-IsUnready cr reason message, (λ p. ground (arith, p)))

  not_ready-IsTold :
      (cr : RuntimeSecurityPolicy) (reason message : String) (waits : Bool) (s : Run W)
      → After (Told reason waits) (not_ready lib policies cr reason message (delay waits)) s
  unfolding not_ready
  not_ready-IsTold cr reason message waits s =
      After-ask _ _ _
        λ a w e. After-pure _ (not_ready_outcome-IsTold cr reason message waits a s.log)

  -- The same where the outcome is replaced by an error.
  not_ready-failed :
      (cr : RuntimeSecurityPolicy) (reason message : String) (after : ℕ) (s : Run W) (u : GoError)
      → IsTold reason false (failed u) (not_ready lib policies cr reason message after s).1.log
  unfolding not_ready ask ◌>>=◌ pure
  not_ready-failed cr reason message after s u =
      IsTold-failed reason u (snapshot (not_ready_object lib cr reason message)) _ s.log
        (not_ready_object-IsUnready cr reason message)

  reconcile_error-IsTold :
      (cr : RuntimeSecurityPolicy) (e : GoError) (s : Run W)
      → is_unconfigured e ≡ false
      → After
          (Told
            (reason_by
              (is_paused e)
              (is_provider_unavailable e)
              (is_write_not_verified e)
              (is_answer (as_api e)))
            (is_paused e || is_provider_unavailable e))
          (reconcile_error lib policies cr e)
          s
  unfolding reconcile_error
  reconcile_error-IsTold cr e s configured =
      After-if (is_unconfigured e) (λ not_so. ground (arith, not_so, configured))
        λ _.
          After-if (is_paused e) (λ p. rw p (not_ready-IsTold cr reason_paused _ true s))
            λ p.
              After-if (is_provider_unavailable e)
                (λ u. rw (p, u) (not_ready-IsTold cr reason_provider_unavailable _ true s))
                λ u.
                  After-option (as_api e)
                    (λ a f.
                      rw (p, u, f)
                        (not_ready-IsTold cr
                          (if is_write_not_verified e
                            then reason_write_not_verified
                            else reason_reconcile_failed)
                          _ false s))
                    λ f.
                      rw (p, u, f)
                        (After-report _ e (λ v.
                          After-pure _ (not_ready-failed cr reason_backend_unreachable _ 0 s v)))

module _ {W : Type 0} (lib : Apimachinery) (policies : KubeClient W RuntimeSecurityPolicy)
    (configs : KubeClient W PlatformConfig) (plane : ControlPlane W)
    (r : RuntimeSecurityPolicyReconciler) where
  pub answer-IsTold :
      (cr : RuntimeSecurityPolicy) (e : GoError) (s : Run W)
      → is_unconfigured e ≡ false
      → After
          (Told lib policies
            (reason_by
              (is_paused e)
              (is_provider_unavailable e)
              (is_write_not_verified e)
              (is_answer (as_api e)))
            (is_paused e || is_provider_unavailable e))
          (reconcile_answer lib policies configs plane r cr (err e))
          s
  unfolding reconcile_answer
  answer-IsTold cr e s h = reconcile_error-IsTold lib policies cr e s h
