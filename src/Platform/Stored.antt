-- ===== src/Platform/Stored.antt =====
-- internal/controller/platformconfig_controller.go: what becomes of status.providerHealth on the
-- server.
use k8boss_operator.Prelude.{
  ℕ, String, ◌≡◌, ◌⊎◌, inl, inr, refl, arith, eq_bool, ◌&&◌, not, ◌==◌, List, ◌∷◌, ltb, length,
  items, ℤ, ◌∙◌, Bool-cases,
}
use k8boss_operator.Api.{PlatformConfig, NamespacedName, ProviderHealthStatus}
use k8boss_operator.Backend.Errors.{Result, ok, err}
use k8boss_operator.Backend.Wire.{PausedState, ProviderHealthResponse}
use k8boss_operator.Backend.Calls.{ControlPlane}
use k8boss_operator.Kube.{
  KubeClient, Apimachinery, Event, health_read, status_updated, Run, Outcome, start,
}
use k8boss_operator.Common.Walk.{
  After, After-pure, After-if, After-ask, After-ask_result, After-bind,
}
use k8boss_operator.Platform.{
  PlatformConfigReconciler, with_condition, not_ready, set_not_singleton, health_failed,
  with_health, ready_object, health_answer, paused_answer, reconcile_singleton, reconcile,
}
use k8boss_operator.Platform.Health.{split_provider_health}

-- What is relied on, `seen` being status.providerHealth of the server's object: a Get answers with
-- it, a status write leaves it or replaces it by the written one, and the calls of the control plane
-- leave it. Nobody else writes it.
pub record IsStoring {W : Type 0} (seen : W → List ProviderHealthStatus)
    (configs : KubeClient W PlatformConfig) (plane : ControlPlane W) (id : ℤ) (key : NamespacedName)
    : Type 0 where
  pub on_get :
      (w w' : W) (a : Result PlatformConfig) → configs.get key w ≡ (a, w') → seen w' ≡ seen w
  pub on_got :
      (w w' : W) (cr : PlatformConfig)
      → configs.get key w ≡ (ok cr, w')
      → cr.status.provider_health ≡ seen w
  pub on_status :
      (o : PlatformConfig) (w w' : W) (a : Result PlatformConfig)
      → configs.update_status o w ≡ (a, w')
      → (seen w' ≡ seen w) ⊎ (seen w' ≡ o.status.provider_health)
  pub on_paused :
      (b : _) (by : String) (w w' : W) (a : Result PausedState)
      → plane.set_paused b by w ≡ (a, w')
      → seen w' ≡ seen w
  pub on_health :
      (w w' : W) (a : Result ProviderHealthResponse)
      → plane.provider_health id w ≡ (a, w')
      → seen w' ≡ seen w

-- The entries are those of the health read just answered.
abbrev pub IsRead : ℕ → List ProviderHealthStatus → List Event → Type 0
IsRead now entries (status_updated s a ∷ health_read id (ok health) ∷ es) =
    entries ≡ (split_provider_health now (items health.providers)).0
IsRead now entries es = ⊥

module _ {W : Type 0} (lib : Apimachinery) (configs : KubeClient W PlatformConfig)
    (plane : ControlPlane W) (r : PlatformConfigReconciler) (now : ℕ) (key : NamespacedName)
    (seen : W → List ProviderHealthStatus)
    (storing : IsStoring seen configs plane r.cluster_id key) where
  with_health-provider_health :
      (cr : PlatformConfig) (entries : List ProviderHealthStatus) (undetermined : List String)
      → (with_health lib configs cr entries undetermined).status.provider_health ≡ entries
  unfolding with_health with_condition
  with_health-provider_health cr entries undetermined =
      elim (Bool-cases (ltb 0 (length undetermined))) [
        | inl h ↦ ground (arith, h)
        | inr h ↦ ground (arith, h)
      ]

  module _ (v : List ProviderHealthStatus) where
    -- The server's entries are still `v`.
    abbrev Same : {A : Type 0} → A → Run W → Type 0
    Same o s = seen s.world ≡ v

    status_update-Same :
        (o : PlatformConfig) {w w' : W} {a : Result PlatformConfig}
        → configs.update_status o w ≡ (a, w')
        → o.status.provider_health ≡ v
        → seen w ≡ v
        → seen w' ≡ v
    status_update-Same o e p h = elim (storing.on_status o _ _ _ e) [
      | inl left ↦ left ∙ h
      | inr written ↦ written ∙ p
    ]

    not_ready-Same :
        (cr : PlatformConfig) (reason message : String) (s : Run W)
        → cr.status.provider_health ≡ v
        → seen s.world ≡ v
        → After Same (not_ready lib configs cr reason message) s
    unfolding not_ready with_condition
    not_ready-Same cr reason message s p h =
        After-ask_result _ _ _ _ (λ x w e. After-pure _ (status_update-Same _ e p h))
          (λ o w e. After-pure _ (status_update-Same _ e p h))

    set_not_singleton-Same :
        (singleton : String) (cr : PlatformConfig) (s : Run W)
        → cr.status.provider_health ≡ v
        → seen s.world ≡ v
        → After Same (set_not_singleton lib configs singleton cr) s
    unfolding set_not_singleton with_condition
    set_not_singleton-Same singleton cr s p h =
        After-ask_result _ _ _ _ (λ x w e. After-pure _ (status_update-Same _ e p h))
          (λ o w e. After-pure _ (status_update-Same _ e p h))

    -- They are still `v`, or they were read.
    abbrev Kept : Outcome → Run W → Type 0
    Kept o s = (seen s.world ≡ v) ⊎ IsRead now (seen s.world) s.log

    not_ready-Kept :
        (cr : PlatformConfig) (reason message : String) (s : Run W)
        → cr.status.provider_health ≡ v
        → seen s.world ≡ v
        → After Kept (not_ready lib configs cr reason message) s
    not_ready-Kept cr reason message s p h = record {
      holds = inl (not_ready-Same cr reason message s p h).holds;
    }

    ready-Kept :
        (o : PlatformConfig) (health : ProviderHealthResponse) {w w' : W}
        {a : Result PlatformConfig}
        → configs.update_status o w ≡ (a, w')
        → o.status.provider_health ≡ (split_provider_health now (items health.providers)).0
        → seen w ≡ v
        → (seen w' ≡ v) ⊎ (seen w' ≡ (split_provider_health now (items health.providers)).0)
    ready-Kept o health e p h = elim (storing.on_status o _ _ _ e) [
      | inl left ↦ inl (left ∙ h)
      | inr written ↦ inr (written ∙ p)
    ]

    health_answer-Kept :
        (cr : PlatformConfig) (state : PausedState) (id : ℤ) (a : Result ProviderHealthResponse)
        (w : W) (es : List Event)
        → cr.status.provider_health ≡ v
        → seen w ≡ v
        → After Kept
            (health_answer lib configs now cr state a)
            (record { world = w; log = health_read id a ∷ es })
    unfolding health_answer health_failed ready_object with_condition
    health_answer-Kept cr state id (err x) w es p h = not_ready-Kept _ _ _ _ p h
    health_answer-Kept cr state id (ok health) w es p h =
        let split = split_provider_health now (items health.providers) in
        After-ask_result _ _ _ _
          (λ x w' e.
            After-pure _ (ready-Kept _ health e (with_health-provider_health cr split.0 split.1) h))
          (λ o w' e.
            After-pure _ (ready-Kept _ health e (with_health-provider_health cr split.0 split.1) h))

    paused_answer-Kept :
        (cr : PlatformConfig) (a : Result PausedState) (s : Run W)
        → cr.status.provider_health ≡ v
        → seen s.world ≡ v
        → After Kept (paused_answer lib configs plane r now cr a) s
    unfolding paused_answer
    paused_answer-Kept cr (err x) s p h = not_ready-Kept cr _ _ s p h
    paused_answer-Kept cr (ok state) s p h =
        After-if (eq_bool state.paused cr.spec.paused)
          (λ _.
            After-ask _ _ _
              λ a w e. health_answer-Kept cr state _ a w _ p (storing.on_health _ _ _ e ∙ h))
          (λ _. not_ready-Kept cr _ _ s p h)

    reconcile-Kept :
        (w : W) → seen w ≡ v → After Kept (reconcile lib configs plane r now key) (start w)
    unfolding reconcile reconcile_singleton
    reconcile-Kept w h =
        After-ask_result _ _ _ _ (λ x w' e. After-pure _ (inl (storing.on_get _ _ _ e ∙ h)))
          λ cr w' e.
            let p = storing.on_got _ _ _ e ∙ h in
            let h' = storing.on_get _ _ _ e ∙ h in
            After-if
              (not (r.platform_config_name == "")
                && not (cr.metadata.name == r.platform_config_name))
              (λ _. After-bind _ _ (
                After-pure _ (inl (set_not_singleton-Same r.platform_config_name cr _ p h').holds)))
              (λ _.
                After-ask _ _ _
                  λ a w'' e'. paused_answer-Kept cr a _ p (storing.on_paused _ _ _ _ _ e' ∙ h'))

  -- Where nobody else writes status.providerHealth, one Reconcile either leaves it as it was, or its
  -- last two steps are a health read that was answered and a status write, and it is the entries that
  -- splitProviderHealth makes of that answer.
  pub reconcile_platform-IsKept :
      (w : W)
      → let run = (reconcile lib configs plane r now key (start w)).1 in
        (seen run.world ≡ seen w) ⊎ IsRead now (seen run.world) run.log
  reconcile_platform-IsKept w = (reconcile-Kept (seen w) w refl).holds
