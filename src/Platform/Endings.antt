-- ===== src/Platform/Endings.antt =====
-- internal/controller/platformconfig_controller.go: what one Reconcile has said by its end.
use k8boss_operator.Prelude.{
  ℕ, String, ◌≡◌, ◌⊎◌, refl, arith, inl, inr, eq_bool, not, ◌&&◌, ◌==◌, true, false, none, List,
  ◌∷◌,
}
use k8boss_operator.Api.{PlatformConfig, NamespacedName, condition_true, condition_false}
use k8boss_operator.Backend.Errors.{GoError, Result, ok, err, is_not_found}
use k8boss_operator.Backend.Wire.{PausedState, ProviderHealthResponse}
use k8boss_operator.Backend.Calls.{ControlPlane}
use k8boss_operator.Kube.{
  KubeClient, Apimachinery, Event, fetched, status_updated, Run, pure, start, Outcome, failed,
}
use k8boss_operator.Common.{health_poll_interval, ignore_not_found}
use k8boss_operator.Common.Evidence.{is_ready, is_ready-set_condition}
use k8boss_operator.Common.Endings.{IsReported}
use k8boss_operator.Common.Walk.{
  After, After-pure, After-if, After-bind, After-ask, After-ask_result,
}
use k8boss_operator.Platform.{
  PlatformConfigReconciler, with_condition, not_ready, set_not_singleton, health_failed,
  ready_object, health_answer, paused_answer, reconcile_singleton, reconcile,
}

-- The object is gone, or it was just told, without error, that it is not ready.
abbrev pub IsDropped : List Event → Type 0
IsDropped (fetched n (err e) ∷ es) = is_not_found e ≡ true
IsDropped (status_updated s (ok t) ∷ es) = is_ready s.conditions ≡ false
IsDropped es = ⊥

-- An outcome without an error asks for no other round and drops the object, or asks for the next
-- health poll after a status with Ready=True.
abbrev pub IsSettled : Outcome → List Event → Type 0
IsSettled out es =
    out.error ≡ none
    → ((out.requeue_after ≡ 0) × IsDropped es)
      ⊎ ((out.requeue_after ≡ health_poll_interval) × IsReported true es)

module _ {W : Type 0} (lib : Apimachinery) (configs : KubeClient W PlatformConfig)
    (plane : ControlPlane W) (r : PlatformConfigReconciler) (now : ℕ) where
  abbrev Settled : Outcome → Run W → Type 0
  Settled out s = IsSettled out s.log

  After-failed : (e : GoError) {s : Run W} → After Settled (pure (failed e)) s
  After-failed e = After-pure _ (λ h. ground (arith, h))

  not_ready-Settled :
      (cr : PlatformConfig) (reason message : String) (s : Run W)
      → After Settled (not_ready lib configs cr reason message) s
  unfolding not_ready
  not_ready-Settled cr reason message s =
      After-ask_result _ _ _ _ (λ e w _. After-failed _) (λ o w _. After-failed _)

  set_not_singleton-IsDropped :
      (singleton : String) (cr : PlatformConfig) (s : Run W)
      → After (λ e t. e ≡ none → IsDropped t.log) (set_not_singleton lib configs singleton cr) s
  unfolding set_not_singleton with_condition
  set_not_singleton-IsDropped singleton cr s =
      After-ask_result _ _ _ _ (λ e w _. After-pure _ (λ h. ground (arith, h)))
        (λ o w _. After-pure _ (λ _.
          is_ready-set_condition lib cr.status.conditions cr.metadata.generation condition_false _
            _))

  health_answer-Settled :
      (cr : PlatformConfig) (state : PausedState) (a : Result ProviderHealthResponse) (s : Run W)
      → After Settled (health_answer lib configs now cr state a) s
  unfolding health_answer health_failed ready_object with_condition
  health_answer-Settled cr state (err e) s = not_ready-Settled _ _ _ s
  health_answer-Settled cr state (ok health) s =
      After-ask_result _ _ _ _ (λ e w _. After-failed _)
        (λ o w _. After-pure _ (λ _. inr (refl, is_ready-set_condition lib _ _ condition_true _ _)))

  paused_answer-Settled :
      (cr : PlatformConfig) (a : Result PausedState) (s : Run W)
      → After Settled (paused_answer lib configs plane r now cr a) s
  unfolding paused_answer
  paused_answer-Settled cr (err e) s = not_ready-Settled cr _ _ s
  paused_answer-Settled cr (ok state) s =
      After-if (eq_bool state.paused cr.spec.paused)
        (λ _. After-ask _ _ _ (λ a w _. health_answer-Settled cr state a _))
        (λ _. not_ready-Settled cr _ _ s)

  reconcile-Settled :
      (name : NamespacedName) (w : W)
      → After Settled (reconcile lib configs plane r now name) (start w)
  unfolding reconcile reconcile_singleton ignore_not_found
  reconcile-Settled name w =
      After-ask_result _ _ _ _ (λ e w' _. After-pure _ (λ h. inl (refl, ground (arith, h))))
        λ cr w' _.
          After-if
            (not (r.platform_config_name == "") && not (cr.metadata.name == r.platform_config_name))
            (λ _. After-bind _ _ (
              After-pure _ (λ h.
                inl (refl, (set_not_singleton-IsDropped r.platform_config_name cr _).holds h))))
            (λ _. After-ask _ _ _ (λ a w'' _. paused_answer-Settled cr a _))

  -- A Reconcile of a PlatformConfig that returns no error either asks for no other round, and then the
  -- object is gone or its status was just written, without error, with no Ready=True; or it asks for
  -- the next health poll (120 s), and then a status with Ready=True was just written without error.
  pub reconcile_platform-IsSettled :
      (name : NamespacedName) (w : W)
      → IsSettled
          (reconcile lib configs plane r now name (start w)).0
          (reconcile lib configs plane r now name (start w)).1.log
  reconcile_platform-IsSettled name w = (reconcile-Settled name w).holds
