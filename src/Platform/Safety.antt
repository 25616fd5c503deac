-- ===== src/Platform/Safety.antt =====
-- internal/controller/platformconfig_controller.go: what one Reconcile may do, and after what.
use k8boss_operator.Prelude.{
  ℕ, String, ◌≡◌, ◌⊎◌, refl, arith, eq_iff, Bool, true, not, ◌&&◌, List, [], ◌∷◌, eq_bool,
  eq_bool-true, ◌==◌,
}
use k8boss_operator.Api.{PlatformConfig, NamespacedName, condition_false, ProviderHealthStatus}
use k8boss_operator.Backend.Errors.{Result, ok, err}
use k8boss_operator.Backend.Wire.{PausedState, ProviderHealthResponse}
use k8boss_operator.Backend.Calls.{ControlPlane}
use k8boss_operator.Kube.{
  KubeClient, Apimachinery, Snapshot, Event, fetched, status_updated, paused_set, health_read, Run,
  start,
}
use k8boss_operator.Common.{condition_ready}
use k8boss_operator.Common.Evidence.{is_ready, Every, is_ready-set_condition}
use k8boss_operator.Common.Walk.{
  After, Logged, After-pure, After-if, After-bind, After-ask, After-ask_result,
}
use k8boss_operator.Platform.{
  snapshot, PlatformConfigReconciler, with_condition, not_ready, set_not_singleton, health_failed,
  with_health, ready_object, health_answer, paused_answer, reconcile_singleton, reconcile,
}

-- The two calls just made are the kill switch, confirmed at the value asked for, and a health read
-- that was answered.
abbrev pub IsConfirmed : List Event → Type 0
IsConfirmed (health_read id (ok health) ∷ paused_set wanted by (ok state) ∷ es) =
    state.paused ≡ wanted
IsConfirmed es = ⊥

-- A status that says Ready is written only right after both, and for the generation it was read at.
abbrev pub IsBacked : Event → List Event → Type 0
IsBacked (status_updated s answer) es =
    is_ready s.conditions ≡ true → IsConfirmed es × (s.observed_generation ≡ s.metadata.generation)
IsBacked e es = Unit

-- The object just read is the one that the operator answers to; with no name set, any is.
abbrev pub IsSingleton : String → List Event → Type 0
IsSingleton singleton (fetched name (ok s) ∷ es) = (singleton ≡ "") ⊎ (s.metadata.name ≡ singleton)
IsSingleton singleton es = ⊥

-- The control plane's switch is written only for the singleton, and health is read only after the
-- switch was confirmed.
abbrev pub IsOwned : String → Event → List Event → Type 0
IsOwned singleton (paused_set wanted by answer) es = IsSingleton singleton es
IsOwned singleton (health_read id answer) (paused_set wanted by (ok state) ∷ es) =
    state.paused ≡ wanted
IsOwned singleton (health_read id answer) es = ⊥
IsOwned singleton e es = Unit

module _ {W : Type 0} (lib : Apimachinery) (configs : KubeClient W PlatformConfig)
    (plane : ControlPlane W) (r : PlatformConfigReconciler) (now : ℕ) where
  -- A justification that answers for each step of the code.
  record Answers (J : Event → List Event → Type 0) : Type 0 where
    on_fetch : (n : NamespacedName) (a : Result Snapshot) (es : List Event) → J (fetched n a) es
    on_switch :
        (wanted : Bool) (by : String) (a : Result PausedState) (es : List Event)
        → IsSingleton r.platform_config_name es
        → J (paused_set wanted by a) es
    on_health :
        (wanted : Bool) (by : String) (state : PausedState) (a : Result ProviderHealthResponse)
        (es : List Event)
        → state.paused ≡ wanted
        → J (health_read r.cluster_id a) (paused_set wanted by (ok state) ∷ es)
    on_unready :
        (cr : PlatformConfig) (reason message : String) (a : Result Snapshot) (es : List Event)
        → J
            (status_updated
              (snapshot
                (with_condition lib configs cr condition_ready condition_false reason message))
              a)
            es
    on_ready :
        (cr : PlatformConfig) (state : PausedState) (health : ProviderHealthResponse)
        (wanted : Bool) (by : String) (entries : List ProviderHealthStatus)
        (undetermined : List String) (a : Result Snapshot) (es : List Event)
        → state.paused ≡ wanted
        → J
            (status_updated (snapshot (ready_object lib configs cr state entries undetermined)) a)
            (health_read r.cluster_id (ok health) ∷ paused_set wanted by (ok state) ∷ es)

  module _ (J : Event → List Event → Type 0) (answers : Answers J) where
    not_ready-After :
        (cr : PlatformConfig) (reason message : String) (s : Run W)
        → Every J s.log
        → After (Logged J) (not_ready lib configs cr reason message) s
    unfolding not_ready
    not_ready-After cr reason message s h =
        After-ask_result _ _ _ _ (λ e w _. After-pure _ (answers.on_unready cr _ _ _ s.log, h))
          (λ o w _. After-pure _ (answers.on_unready cr _ _ _ s.log, h))

    set_not_singleton-After :
        (singleton : String) (cr : PlatformConfig) (s : Run W)
        → Every J s.log
        → After (Logged J) (set_not_singleton lib configs singleton cr) s
    unfolding set_not_singleton
    set_not_singleton-After singleton cr s h =
        After-ask_result _ _ _ _ (λ e w _. After-pure _ (answers.on_unready cr _ _ _ s.log, h))
          (λ o w _. After-pure _ (answers.on_unready cr _ _ _ s.log, h))

    health_answer-After :
        (cr : PlatformConfig) (state : PausedState) (wanted : Bool) (by : String)
        (a : Result ProviderHealthResponse) (w : W) (es : List Event)
        → state.paused ≡ wanted
        → Every J (paused_set wanted by (ok state) ∷ es)
        → After (Logged J) (health_answer lib configs now cr state a) (record {
          world = w;
          log = health_read r.cluster_id a ∷ paused_set wanted by (ok state) ∷ es;
        })
    unfolding health_answer health_failed
    health_answer-After cr state wanted by (err e) w es same h =
        not_ready-After _ _ _ _ (answers.on_health wanted by state _ es same, h)
    health_answer-After cr state wanted by (ok health) w es same h =
        let h' : Every J
            (health_read r.cluster_id (ok health) ∷ paused_set wanted by (ok state) ∷ es) =
          (answers.on_health wanted by state _ es same, h) in
        After-ask_result _ _ _ _
          (λ e w _. After-pure _ (answers.on_ready cr state health wanted by _ _ _ es same, h'))
          (λ o w _. After-pure _ (answers.on_ready cr state health wanted by _ _ _ es same, h'))

    paused_answer-After :
        (cr : PlatformConfig) (by : String) (a : Result PausedState) (w : W) (es : List Event)
        → Every J (paused_set cr.spec.paused by a ∷ es)
        → After
            (Logged J)
            (paused_answer lib configs plane r now cr a)
            (record { world = w; log = paused_set cr.spec.paused by a ∷ es })
    unfolding paused_answer
    paused_answer-After cr by (err e) w es h = not_ready-After cr _ _ _ h
    paused_answer-After cr by (ok state) w es h =
        After-if (eq_bool state.paused cr.spec.paused)
          (λ same. After-ask _ _ _ (λ a w _.
            health_answer-After cr state _ by _ _ es (eq_bool-true state.paused cr.spec.paused same)
              h))
          (λ _. not_ready-After cr _ _ _ h)

    reconcile-After :
        (name : NamespacedName) (w : W)
        → After (Logged J) (reconcile lib configs plane r now name) (start w)
    unfolding reconcile reconcile_singleton
    reconcile-After name w =
        After-ask_result _ _ _ _ (λ e w' _. After-pure _ (answers.on_fetch _ _ _, tt))
          λ cr w' _.
            let h : Every J (fetched name (ok (snapshot cr)) ∷ []) = (answers.on_fetch _ _ _, tt) in
            After-if
              (not (r.platform_config_name == "")
                && not (cr.metadata.name == r.platform_config_name))
              (λ _.
                After-bind _ _
                  (After-pure _ (set_not_singleton-After r.platform_config_name cr _ h).holds))
              (λ own. After-ask _ _ _ (λ a w _. paused_answer-After cr _ _ _ _ (
                answers.on_switch _ _ _ _ (
                    ground (
                      arith,
                      eq_iff r.platform_config_name "",
                      eq_iff cr.metadata.name r.platform_config_name,
                    )),
                h,
              )))

  -- One Reconcile of a PlatformConfig writes a status with Ready=True only right after the control
  -- plane confirmed the kill switch at the value that was asked for and then answered the health
  -- read, and with status.observedGeneration at the generation of the object.
  pub reconcile_platform-IsBacked :
      (name : NamespacedName) (w : W)
      → Every IsBacked (reconcile lib configs plane r now name (start w)).1.log
  unfolding ready_object with_condition with_health
  reconcile_platform-IsBacked name w = (reconcile-After IsBacked answers name w).holds
    where
      answers : Answers IsBacked
      answers = record {
        on_fetch = λ n a es. tt;
        on_switch = λ wanted by a es own. tt;
        on_health = λ wanted by state a es same. tt;
        on_unready = λ cr reason message a es ready. cc (
          ready,
          is_ready-set_condition lib cr.status.conditions cr.metadata.generation condition_false
              reason message,
        );
        on_ready = λ cr state health wanted by entries undetermined a es same ready. (same, refl);
      }

  -- One Reconcile of a PlatformConfig writes the control plane's kill switch only right after it read
  -- an object of the name that the operator answers to, if it has one, and reads provider health only
  -- right after the switch was confirmed at the value that was asked for.
  pub reconcile_platform-IsOwned :
      (name : NamespacedName) (w : W)
      → Every
          (IsOwned r.platform_config_name)
          (reconcile lib configs plane r now name (start w)).1.log
  reconcile_platform-IsOwned name w =
      (reconcile-After (IsOwned r.platform_config_name) answers name w).holds
    where
      answers : Answers (IsOwned r.platform_config_name)
      answers = record {
        on_fetch = λ n a es. tt;
        on_switch = λ wanted by a es own. own;
        on_health = λ wanted by state a es same. same;
        on_unready = λ cr reason message a es. tt;
        on_ready = λ cr state health wanted by entries undetermined a es same. tt;
      }
