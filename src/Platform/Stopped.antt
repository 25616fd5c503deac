-- ===== src/Platform/Stopped.antt =====
-- internal/controller/platformconfig_controller.go: one Reconcile while the kill switch is on.
use k8boss_operator.Prelude.{ℕ, ℤ, String, Bool, ◌≡◌, true, ◌&&◌, not, ◌==◌, eq_bool}
use k8boss_operator.Api.{PlatformConfig, NamespacedName}
use k8boss_operator.Backend.Errors.{Result, ok, err}
use k8boss_operator.Backend.Wire.{PausedState, ProviderHealthResponse}
use k8boss_operator.Backend.Calls.{ControlPlane}
use k8boss_operator.Kube.{KubeClient, Apimachinery, Run, start}
use k8boss_operator.Common.Walk.{
  After, After-pure, After-if, After-ask, After-ask_result, After-bind,
}
use k8boss_operator.Common.Stopped.{Switch, IsCalm, IsStill, IsStill-start, IsStill-calm}
use k8boss_operator.Platform.{
  PlatformConfigReconciler, not_ready, set_not_singleton, health_failed, health_answer,
  paused_answer, reconcile_singleton, reconcile,
}

-- What is relied on of the API server for PlatformConfigs, and of the two calls that are made for them.
-- A status write leaves the spec.
pub record IsCalmPlatform {W : Type 0} (seen : Switch W) (configs : KubeClient W PlatformConfig)
    (plane : ControlPlane W) (id : ℤ) : Type 0 where
  pub on_get :
      (key : NamespacedName) (w w' : W) (a : Result PlatformConfig)
      → configs.get key w ≡ (a, w')
      → IsCalm seen w w'
  pub on_status :
      (o : PlatformConfig) (w w' : W) (a : Result PlatformConfig)
      → configs.update_status o w ≡ (a, w')
      → IsCalm seen w w'
  pub on_paused :
      (paused : Bool) (by : String) (w w' : W) (a : Result PausedState)
      → plane.set_paused paused by w ≡ (a, w')
      → IsCalm seen w w'
  pub on_health :
      (w w' : W) (a : Result ProviderHealthResponse)
      → plane.provider_health id w ≡ (a, w')
      → IsCalm seen w w'

module _ {W : Type 0} (lib : Apimachinery) (configs : KubeClient W PlatformConfig)
    (plane : ControlPlane W) (r : PlatformConfigReconciler) (now : ℕ) (seen : Switch W)
    (calm : IsCalmPlatform seen configs plane r.cluster_id) (w₀ : W) where
  abbrev Still : {A : Type 0} → A → Run W → Type 0
  Still a s = IsStill seen w₀ s.world

  not_ready-Still :
      (cr : PlatformConfig) (reason message : String) (s : Run W)
      → IsStill seen w₀ s.world
      → After Still (not_ready lib configs cr reason message) s
  unfolding not_ready
  not_ready-Still cr reason message s h =
      After-ask_result _ _ _ _
        (λ x w e. After-pure _ (IsStill-calm seen (calm.on_status _ _ _ _ e) h))
        (λ o w e. After-pure _ (IsStill-calm seen (calm.on_status _ _ _ _ e) h))

  set_not_singleton-Still :
      (singleton : String) (cr : PlatformConfig) (s : Run W)
      → IsStill seen w₀ s.world
      → After Still (set_not_singleton lib configs singleton cr) s
  unfolding set_not_singleton
  set_not_singleton-Still singleton cr s h =
      After-ask_result _ _ _ _
        (λ x w e. After-pure _ (IsStill-calm seen (calm.on_status _ _ _ _ e) h))
        (λ o w e. After-pure _ (IsStill-calm seen (calm.on_status _ _ _ _ e) h))

  health_answer-Still :
      (cr : PlatformConfig) (state : PausedState) (a : Result ProviderHealthResponse) (s : Run W)
      → IsStill seen w₀ s.world
      → After Still (health_answer lib configs now cr state a) s
  unfolding health_answer health_failed
  health_answer-Still cr state (err x) s h = not_ready-Still _ _ _ s h
  health_answer-Still cr state (ok health) s h =
      After-ask_result _ _ _ _
        (λ x w e. After-pure _ (IsStill-calm seen (calm.on_status _ _ _ _ e) h))
        (λ o w e. After-pure _ (IsStill-calm seen (calm.on_status _ _ _ _ e) h))

  paused_answer-Still :
      (cr : PlatformConfig) (a : Result PausedState) (s : Run W)
      → IsStill seen w₀ s.world
      → After Still (paused_answer lib configs plane r now cr a) s
  unfolding paused_answer
  paused_answer-Still cr (err x) s h = not_ready-Still cr _ _ s h
  paused_answer-Still cr (ok state) s h =
      After-if (eq_bool state.paused cr.spec.paused)
        (λ _. After-ask _ _ _ (λ a w e.
          health_answer-Still cr state a _ (IsStill-calm seen (calm.on_health _ _ _ e) h)))
        (λ _. not_ready-Still cr _ _ s h)

  pub reconcile_platform-IsStill :
      (key : NamespacedName)
      → seen.on w₀ ≡ true
      → IsStill seen w₀ (reconcile lib configs plane r now key (start w₀)).1.world
  unfolding reconcile reconcile_singleton
  reconcile_platform-IsStill key h = after.holds
    where
      after : After Still (reconcile lib configs plane r now key) (start w₀)
      after =
          After-ask_result _ _ _ _
            (λ x w e.
              After-pure _ (IsStill-calm seen (calm.on_get _ _ _ _ e) (IsStill-start seen h)))
            λ cr w e.
              let still : IsStill seen w₀ w =
                IsStill-calm seen (calm.on_get _ _ _ _ e) (IsStill-start seen h) in
              After-if
                (not (r.platform_config_name == "")
                  && not (cr.metadata.name == r.platform_config_name))
                (λ _.
                  After-bind _ _ (
                    After-pure _ (set_not_singleton-Still r.platform_config_name cr _ still).holds))
                (λ _. After-ask _ _ _ (λ a w' e'.
                  paused_answer-Still cr a _
                    (IsStill-calm seen (calm.on_paused _ _ _ _ _ e') still)))
