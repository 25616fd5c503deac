-- ===== src/Kube.antt =====
-- What the operator uses of Kubernetes' libraries, as parameters: the API client of
-- controller-runtime over an unknown outside world, and three helpers of apimachinery with the laws
-- that they document. Also the bookkeeping of a run: every answer of the outside is appended to a
-- log, newest first, which no function of the operator reads.
use k8boss_operator.Prelude.{
  ℕ, String, ◌≡◌, Bool, true, false, Option, none, some, List, [], ◌∷◌, ◌==◌, contains,
  if◌then◌else◌, ℤ,
}
use k8boss_operator.Api.{
  Condition, ObjectMeta, NamespacedName, PlatformConfig, SegmentationPolicySpec,
  RuntimeSecurityPolicySpec, PlatformConfigSpec, ProviderHealthStatus,
}
use k8boss_operator.Backend.Wire
use k8boss_operator.Backend.Errors.{GoError, Result, ok, err}
use k8boss_operator.Backend.Wire.{ReconcileResult, CloseResult, PausedState, ProviderHealthResponse}

-- client.Client for one kind. A successful write answers with the object as the server has it now.
pub record KubeClient (W : Type 0) (Obj : Type 0) : Type 0 where
  pub get : NamespacedName → W → Result Obj × W
  pub update : Obj → W → Result Obj × W
  pub update_status : Obj → W → Result Obj × W

-- meta.FindStatusCondition
abbrev pub find_condition : String → List Condition → Option Condition
find_condition kind [] = none
find_condition kind (c ∷ cs) = if kind == c.kind then some c else find_condition kind cs

-- meta.SetStatusCondition and controllerutil's three functions on a list of finalizers
pub record Apimachinery : Type 0 where
  pub set_status_condition : List Condition → Condition → List Condition
  pub contains_finalizer : List String → String → Bool
  pub add_finalizer : List String → String → List String
  pub remove_finalizer : List String → String → List String
  pub find_condition-set_status_condition :
      (kind : String) (cs : List Condition) (c : Condition)
      → find_condition kind (set_status_condition cs c)
        ≡ (if kind == c.kind then some c else find_condition kind cs)
  pub set_status_condition_self :
      (cs : List Condition) (c : Condition)
      → set_status_condition (set_status_condition cs c) c ≡ set_status_condition cs c
  pub contains_finalizer_lem :
      (fs : List String) (f : String) → contains_finalizer fs f ≡ contains fs f
  pub contains-add_finalizer :
      (fs : List String) (f g : String)
      → contains (add_finalizer fs f) g ≡ (if g == f then true else contains fs g)
  pub contains-remove_finalizer :
      (fs : List String) (f g : String)
      → contains (remove_finalizer fs f) g ≡ (if g == f then false else contains fs g)

-- The spec of an object of one of the three kinds, and the field of the status that only the kind has
pub data Spec : Type 0 where
  segmentation_spec : SegmentationPolicySpec → Spec
  runtime_spec : RuntimeSecurityPolicySpec → Spec
  config_spec : PlatformConfigSpec → Spec

pub data OwnStatus : Type 0 where
  resolved_flow_provider : String → OwnStatus
  correlated_evidence_count : ℤ → OwnStatus
  provider_health : List ProviderHealthStatus → OwnStatus

-- What the log keeps of an object: all of it.
pub record Snapshot : Type 0 where
  pub metadata : ObjectMeta
  pub spec : Spec
  pub conditions : List Condition
  pub observed_generation : ℤ
  pub own : OwnStatus

-- The policy that a reconcile call is about, in the namespace beside it: its name, and its spec as it
-- is sent.
pub data SentSpec : Type 0 where
  sent_segmentation : Wire.SegmentationPolicySpec → SentSpec
  sent_runtime : Wire.RuntimeSecurityPolicySpec → SentSpec

pub record SentPolicy : Type 0 where
  pub name : String
  pub spec : SentSpec

-- What the outside answered, with what it was asked.
pub data Event : Type 0 where
  fetched : NamespacedName → Result Snapshot → Event
  fetched_config : NamespacedName → Result PlatformConfig → Event
  updated : Snapshot → Result Snapshot → Event
  status_updated : Snapshot → Result Snapshot → Event
  reconciled : ℤ → String → SentPolicy → Result ReconcileResult → Event
  closed : String → ℤ → String → String → Result CloseResult → Event
  paused_set : Bool → String → Result PausedState → Event
  health_read : ℤ → Result ProviderHealthResponse → Event

-- A run's state: the outside world and the log.
pub record Run (W : Type 0) : Type 0 where
  pub world : W
  pub log : List Event

abbrev pub Act : Type 0 → Type 0 → Type 0
Act W A = Run W → A × Run W

abbrev pub start : {W : Type 0} → W → Run W
start w = record { world = w; log = [] }

module _ {W A : Type 0} where
  unfoldable pub pure : A → Act W A
  pure a s = (a, s)

  -- Asks the outside, and logs its answer.
  unfoldable pub ask : (W → A × W) → (A → Event) → Act W A
  ask question event s =
      let (a, w) = question s.world in (a, record { world = w; log = event a ∷ s.log })

module _ {W A B : Type 0} where
  infixl 5 ◌>>=◌
  unfoldable pub ◌>>=◌ : Act W A → (A → Act W B) → Act W B
  ◌>>=◌ m f s = let (a, s') = m s in f a s'

abbrev pub map_result : {A B : Type 0} → (A → B) → Result A → Result B
map_result f (ok a) = ok (f a)
map_result f (err e) = err e

module _ {W Obj : Type 0} (kube : KubeClient W Obj) (snapshot : Obj → Snapshot) where
  abbrev pub get : NamespacedName → Act W (Result Obj)
  get name = ask (kube.get name) (λ answer. fetched name (map_result snapshot answer))

  abbrev pub update : Obj → Act W (Result Obj)
  update o = ask (kube.update o) (λ answer. updated (snapshot o) (map_result snapshot answer))

  abbrev pub update_status : Obj → Act W (Result Obj)
  update_status o =
      ask (kube.update_status o)
        (λ answer. status_updated (snapshot o) (map_result snapshot answer))

-- ctrl.Result and the error of a reconcile. The delay is in seconds, and 0 is the empty Result.
pub record Outcome : Type 0 where
  pub requeue_after : ℕ
  pub error : Option GoError

abbrev pub done : Outcome
done = record { requeue_after = 0; error = none }

abbrev pub requeued : ℕ → Outcome
requeued after = record { requeue_after = after; error = none }

abbrev pub failed : GoError → Outcome
failed e = record { requeue_after = 0; error = some e }
