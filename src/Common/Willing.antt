-- ===== src/Common/Willing.antt =====
-- internal/controller: a cluster and a control plane that get in no one's way, and where a Reconcile of
-- a policy ends on them.
use k8boss_operator.Prelude.{String, ℕ, ◌≡◌, ◌≢◌, ◌⊎◌, arith, true, false, none, some, List, ◌∷◌}
use k8boss_operator.Api.{PlatformConfig, NamespacedName, condition_false}
use k8boss_operator.Backend.Errors.{GoError, Result, ok, err}
use k8boss_operator.Backend.Wire.{ReconcileResult, CloseResult}
use k8boss_operator.Kube.{
  KubeClient, Snapshot, Event, updated, status_updated, Outcome, done, requeued, find_condition,
}
use k8boss_operator.Common.{resync_interval, condition_ready}
use k8boss_operator.Common.Evidence.{is_ready, has_finalizer, is_closed}
use k8boss_operator.Common.Gate.{IsOff}

-- There is no error, and the value is as P says.
abbrev pub Holds : {A : Type 0} → (A → Type 0) → Result A → Type 0
Holds P (ok a) = P a
Holds P (err e) = ⊥

-- Ready stands at False with this reason, for the generation of the object.
abbrev pub IsUnready : String → Snapshot → Type 0
IsUnready reason s =
    (message : String) × (find_condition condition_ready s.conditions
      ≡ some (record {
        kind = condition_ready;
        status = condition_false;
        reason = reason;
        message = message;
        observed_generation = s.metadata.generation;
      }))

-- No call of the API server fails, and the kill switch is off.
pub record IsServing {W Obj : Type 0} (policies : KubeClient W Obj)
    (configs : KubeClient W PlatformConfig) : Type 0 where
  pub on_get : (key : NamespacedName) (w w' : W) (e : GoError) → policies.get key w ≢ (err e, w')
  pub on_update : (o : Obj) (w w' : W) (e : GoError) → policies.update o w ≢ (err e, w')
  pub on_status : (o : Obj) (w w' : W) (e : GoError) → policies.update_status o w ≢ (err e, w')
  pub on_config :
      (key : NamespacedName) (w w' : W) (a : Result PlatformConfig)
      → configs.get key w ≡ (a, w')
      → IsOff a

-- Every reconcile call confirms its write, and every close call confirms that the edges are closed.
pub record IsWilling {W Spec : Type 0}
    (reconcile_call : String → String → Spec → W → Result ReconcileResult × W)
    (close_call : String → String → W → Result CloseResult × W)
    (Confirms : ReconcileResult → Type 0) : Type 0 where
  pub on_reconcile :
      (n m : String) (spec : Spec) (w w' : W) (a : Result ReconcileResult)
      → reconcile_call n m spec w ≡ (a, w')
      → Holds Confirms a
  pub on_close :
      (n m : String) (w w' : W) (a : Result CloseResult)
      → close_call n m w ≡ (a, w')
      → Holds (λ res. is_closed res ≡ true) a

-- Ready=True was written last, for the generation of the object, and the next look is a resync.
abbrev pub IsSynced : Outcome → List Event → Type 0
IsSynced o (status_updated s (ok t) ∷ es) =
    (o ≡ requeued resync_interval)
    × (is_ready s.conditions ≡ true)
    × (s.observed_generation ≡ s.metadata.generation)
IsSynced o es = ⊥

-- The finalizer was taken off last.
abbrev pub IsReleased : Outcome → List Event → Type 0
IsReleased o (updated s (ok t) ∷ es) = (o ≡ done) × (has_finalizer s ≡ false)
IsReleased o es = ⊥

-- Where a Reconcile of an object like this ends: being deleted, it has lost its finalizer, or there was
-- none; otherwise it is synced.
abbrev pub IsConcluded : Snapshot → Outcome → List Event → Type 0
IsConcluded s o es = elim s.metadata.deletion_timestamp [
  | some at ↦ IsReleased o es ⊎ ((o ≡ done) × (has_finalizer s ≡ false))
  | none ↦ IsSynced o es
]

pub IsConcluded-gone :
    (s : Snapshot) (at : ℕ) (o : Outcome) (es : List Event)
    → s.metadata.deletion_timestamp ≡ some at
    → IsReleased o es ⊎ ((o ≡ done) × (has_finalizer s ≡ false))
    → IsConcluded s o es
IsConcluded-gone s at o es p h = rw p h

pub IsConcluded-live :
    (s : Snapshot) (o : Outcome) (es : List Event)
    → s.metadata.deletion_timestamp ≡ none
    → IsSynced o es
    → IsConcluded s o es
IsConcluded-live s o es p h = rw p h

-- A call has one answer.
pub answer_unique :
    {A W : Type 0} {p : Result A × W} {a b : A} {w v : W} → p ≡ (ok a, w) → p ≡ (ok b, v) → a ≡ b
answer_unique e f = ground (arith, e, f)
