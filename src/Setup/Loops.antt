-- ===== src/Setup/Loops.antt =====
-- internal/controller/platformconfig_controller.go, SetupWithManager: whether the controller of
-- PlatformConfigs is woken by its own writes.
use k8boss_operator.Prelude.{
  ℕ, String, Bool, ◌≡◌, ◌≢◌, refl, true, false, some, none, Option, List, [], ◌∷◌, ◌&&◌, not, ◌==◌,
  eq_bool, ltb, length, Bool-cases, ◌∙◌, sym, ap, inl, inr,
}
use k8boss_operator.Api.{PlatformConfig, NamespacedName, ObjectMeta, ProviderHealthStatus}
use k8boss_operator.Backend.Errors.{Result, ok, err}
use k8boss_operator.Backend.Wire.{PausedState, ProviderHealthResponse}
use k8boss_operator.Backend.Calls.{ControlPlane}
use k8boss_operator.Kube.{
  KubeClient, Apimachinery, Event, fetched, updated, status_updated, Run, start, map_result,
}
use k8boss_operator.Common.Evidence.{Every}
use k8boss_operator.Common.Walk.{
  After, After-pure, After-if, After-ask, After-ask_result, After-bind,
}
use k8boss_operator.Platform.{
  PlatformConfigReconciler, snapshot, with_condition, not_ready, set_not_singleton, health_failed,
  with_health, ready_object, health_answer, paused_answer, reconcile_singleton, reconcile,
}
use k8boss_operator.Setup.{WatchPredicate, generation_changed, set_up_platform_config}

-- controller-runtime: whether an update of a watched object, from one metadata to the other, is put
-- into the queue of a controller that has these predicates. GenerationChangedPredicate keeps out an
-- update that leaves the generation.
pub record Watch : Type 0 where
  pub passes : List WatchPredicate → ObjectMeta → ObjectMeta → Bool
  pub generation_changed_lem :
      (old new : ObjectMeta)
      → passes (generation_changed ∷ []) old new ≡ true
      → old.generation ≢ new.generation

-- What is relied on of the API server: a status write that it takes leaves the generation.
pub record IsStatusOnly {W : Type 0} (configs : KubeClient W PlatformConfig) : Type 0 where
  pub on_status :
      (o o' : PlatformConfig) (w w' : W)
      → configs.update_status o w ≡ (ok o', w')
      → o'.metadata.generation ≡ o.metadata.generation

-- The metadata of the object that was read
abbrev pub read_metadata : List Event → Option ObjectMeta
read_metadata [] = none
read_metadata (fetched key (ok o) ∷ es) = some o.metadata
read_metadata (e ∷ es) = read_metadata es

-- A write is one of the status, it sends the metadata as they were read, and what it makes of the
-- object does not come back through the watch.
abbrev pub IsQuiet : Watch → Event → List Event → Type 0
IsQuiet watch (status_updated x (ok y)) es =
    (read_metadata es ≡ some x.metadata)
    × (watch.passes set_up_platform_config.predicates x.metadata y.metadata ≡ false)
IsQuiet watch (status_updated x (err e)) es = read_metadata es ≡ some x.metadata
IsQuiet watch (updated x a) es = ⊥
IsQuiet watch e es = Unit

module _ {W : Type 0} (lib : Apimachinery) (configs : KubeClient W PlatformConfig)
    (plane : ControlPlane W) (r : PlatformConfigReconciler) (watch : Watch)
    (server : IsStatusOnly configs) (now : ℕ) where
  module _ (m : ObjectMeta) where
    -- So far, with these metadata read
    abbrev Quiet : {A : Type 0} → A → Run W → Type 0
    Quiet a s = Every (IsQuiet watch) s.log × (read_metadata s.log ≡ some m)

    written-Quiet :
        (o : PlatformConfig) (a : Result PlatformConfig) (w' : W) (s : Run W)
        → o.metadata ≡ m
        → configs.update_status o s.world ≡ (a, w')
        → Quiet a s
        → Quiet a (record {
          world = w';
          log = status_updated (snapshot o) (map_result snapshot a) ∷ s.log;
        })
    unfolding set_up_platform_config
    written-Quiet o (err e) w' s same h (quiet, b) = ((b ∙ ap some (sym same), quiet), b)
    written-Quiet o (ok o') w' s same h (quiet, b) = (
      (
        (
          b ∙ ap some (sym same),
          elim (Bool-cases (watch.passes _ o.metadata o'.metadata)) [
            | inl woken ↦
                absurd (watch.generation_changed_lem _ _ woken (sym (server.on_status _ _ _ _ h)))
            | inr still ↦ still
          ],
        ),
        quiet,
      ),
      b,
    )

    not_ready-Quiet :
        (cr : PlatformConfig) (reason message : String) (s : Run W)
        → cr.metadata ≡ m
        → Quiet cr s
        → After Quiet (not_ready lib configs cr reason message) s
    unfolding not_ready with_condition
    not_ready-Quiet cr reason message s same h =
        After-ask_result _ _ _ _ (λ e w a. After-pure _ (written-Quiet _ (err e) w s same a h))
          (λ o w a. After-pure _ (written-Quiet _ (ok o) w s same a h))

    set_not_singleton-Quiet :
        (singleton : String) (cr : PlatformConfig) (s : Run W)
        → cr.metadata ≡ m
        → Quiet cr s
        → After Quiet (set_not_singleton lib configs singleton cr) s
    unfolding set_not_singleton with_condition
    set_not_singleton-Quiet singleton cr s same h =
        After-ask_result _ _ _ _ (λ e w a. After-pure _ (written-Quiet _ (err e) w s same a h))
          (λ o w a. After-pure _ (written-Quiet _ (ok o) w s same a h))

    with_health-metadata :
        (cr : PlatformConfig) (entries : List ProviderHealthStatus) (undetermined : List String)
        → (with_health lib configs cr entries undetermined).metadata ≡ cr.metadata
    unfolding with_health with_condition
    with_health-metadata cr entries undetermined = elim (Bool-cases (ltb 0 (length undetermined))) [
      | inl some_left ↦ rw some_left
      | inr none_left ↦ rw none_left
    ]

    health_answer-Quiet :
        (cr : PlatformConfig) (state : PausedState) (a : Result ProviderHealthResponse) (s : Run W)
        → cr.metadata ≡ m
        → Quiet a s
        → After Quiet (health_answer lib configs now cr state a) s
    unfolding health_answer health_failed with_condition ready_object
    health_answer-Quiet cr state (err x) s same h = not_ready-Quiet _ _ _ s same h
    health_answer-Quiet cr state (ok health) s same h =
        let kept = with_health-metadata cr _ _ ∙ same in
        After-ask_result _ _ _ _ (λ e w a. After-pure _ (written-Quiet _ (err e) w s kept a h))
          (λ o w a. After-pure _ (written-Quiet _ (ok o) w s kept a h))

    paused_answer-Quiet :
        (cr : PlatformConfig) (a : Result PausedState) (s : Run W)
        → cr.metadata ≡ m
        → Quiet a s
        → After Quiet (paused_answer lib configs plane r now cr a) s
    unfolding paused_answer
    paused_answer-Quiet cr (err x) s same h = not_ready-Quiet cr _ _ s same h
    paused_answer-Quiet cr (ok state) s same (quiet, b) =
        After-if (eq_bool state.paused cr.spec.paused)
          (λ _. After-ask _ _ _ (λ a w e. health_answer-Quiet cr state a _ same ((tt, quiet), b)))
          (λ _. not_ready-Quiet cr _ _ s same (quiet, b))

    singleton-Quiet :
        (cr : PlatformConfig) (s : Run W)
        → cr.metadata ≡ m
        → Quiet cr s
        → After Quiet (reconcile_singleton lib configs plane r now cr) s
    unfolding reconcile_singleton
    singleton-Quiet cr s same (quiet, b) =
        After-ask _ _ _ (λ a w e. paused_answer-Quiet cr a _ same ((tt, quiet), b))

  -- If a status write that the API server takes leaves the generation, no write of one Reconcile of a
  -- PlatformConfig wakes the controller that SetupWithManager makes: each is a status write with the
  -- metadata that were read, and the watch's predicate keeps the update that it makes out of the
  -- queue.
  pub reconcile_platform-IsQuiet :
      (key : NamespacedName) (w : W)
      → Every (IsQuiet watch) (reconcile lib configs plane r now key (start w)).1.log
  unfolding reconcile
  reconcile_platform-IsQuiet key w = after.holds
    where
      after :
          After
            (λ o s. Every (IsQuiet watch) s.log)
            (reconcile lib configs plane r now key)
            (start w)
      after =
          After-ask_result _ _ _ _ (λ x w' e. After-pure _ (tt, tt))
            λ cr w' e.
              After-if
                (not (r.platform_config_name == "")
                  && not (cr.metadata.name == r.platform_config_name))
                (λ _. After-bind _ _ (
                  After-pure _
                    (set_not_singleton-Quiet cr.metadata r.platform_config_name cr _ refl
                      ((tt, tt), refl)).holds.0))
                (λ _. record {
                  holds = (singleton-Quiet cr.metadata cr _ refl ((tt, tt), refl)).holds.0;
                })
