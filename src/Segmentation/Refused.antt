-- ===== src/Segmentation/Refused.antt =====
-- internal/controller/segmentationpolicy_controller.go: what a Reconcile comes to when the control
-- plane is not configured.
use k8boss_operator.Prelude.{
  ℕ, String, ◌≡◌, ◌≢◌, ◌⊎◌, inl, inr, refl, true, false, not, none, some, List, ℤ, ◌∷◌, arith,
}
use k8boss_operator.Api.{SegmentationPolicy, PlatformConfig, NamespacedName}
use k8boss_operator.Backend.Errors.{GoError, Result, ok, err, is_unconfigured}
use k8boss_operator.Backend.Wire.{SegmentationPolicySpec}
use k8boss_operator.Backend.Calls.{ControlPlane}
use k8boss_operator.Kube.{
  KubeClient, Apimachinery, Snapshot, SentPolicy, Event, reconciled, closed, updated,
  status_updated, Run, Outcome, start, done, requeued, map_result,
}
use k8boss_operator.Common.{
  PauseGate, cr_edges_finalizer, gate_of, condition_ready, reason_awaiting_configuration,
  unconfigured_requeue, set_condition,
}
use k8boss_operator.Common.Gate.{gate_of_cases}
use k8boss_operator.Common.Walk.{
  After, After-pure, After-if, After-option, After-ask, After-ask_result, After-gate,
}
use k8boss_operator.Common.Evidence.{has_finalizer}
use k8boss_operator.Common.Willing.{IsUnready, IsServing, answer_unique}
use k8boss_operator.Segmentation.Exchange.{to_wire_spec}
use k8boss_operator.Segmentation.{
  cr_kind_segmentation_policy, SegmentationPolicyReconciler, snapshot, not_ready_object,
  not_ready_outcome, not_ready, reconcile_error, release, finalize_answer, finalize,
  reconcile_answer, push, reconcile_unpaused, reconcile_live, reconcile,
}

-- The reconcile call was refused, and the status written last says that the operator awaits its
-- configuration.
abbrev pub IsAwaiting : GoError → Outcome → List Event → Type 0
IsAwaiting refusal o (status_updated s (ok t) ∷ reconciled id ns name (err e) ∷ es) =
    (o ≡ requeued unconfigured_requeue) × (e ≡ refusal) × IsUnready reason_awaiting_configuration s
IsAwaiting refusal o es = ⊥

-- The close call was refused, and the finalizer was taken off last.
abbrev pub IsLetGo : GoError → Outcome → List Event → Type 0
IsLetGo refusal o (updated s (ok t) ∷ closed kind id ns name (err e) ∷ es) =
    (o ≡ done) × (e ≡ refusal) × (has_finalizer s ≡ false)
IsLetGo refusal o es = ⊥

-- Where a Reconcile of an object like this ends without a configuration.
abbrev pub IsHeldOff : GoError → Snapshot → Outcome → List Event → Type 0
IsHeldOff refusal s o es = elim s.metadata.deletion_timestamp [
  | some at ↦ IsLetGo refusal o es ⊎ ((o ≡ done) × (has_finalizer s ≡ false))
  | none ↦ IsAwaiting refusal o es
]

IsHeldOff-gone :
    (refusal : GoError) (s : Snapshot) (at : ℕ) (o : Outcome) (es : List Event)
    → s.metadata.deletion_timestamp ≡ some at
    → IsLetGo refusal o es ⊎ ((o ≡ done) × (has_finalizer s ≡ false))
    → IsHeldOff refusal s o es
IsHeldOff-gone refusal s at o es p h = rw p h

IsHeldOff-live :
    (refusal : GoError) (s : Snapshot) (o : Outcome) (es : List Event)
    → s.metadata.deletion_timestamp ≡ none
    → IsAwaiting refusal o es
    → IsHeldOff refusal s o es
IsHeldOff-live refusal s o es p h = rw p h

-- Both calls for a policy answer with the refusal, and change nothing.
pub record IsRefusing {W : Type 0} (plane : ControlPlane W) (id : ℤ) (refusal : GoError)
    : Type 0 where
  pub says : is_unconfigured refusal ≡ true
  pub on_reconcile :
      (n m : String) (spec : SegmentationPolicySpec) (w : W)
      → plane.reconcile_segmentation_policy id n m spec w ≡ (err refusal, w)
  pub on_close :
      (n m : String) (w : W)
      → plane.close_cr_edges cr_kind_segmentation_policy id n m w ≡ (err refusal, w)

module _ {W : Type 0} (lib : Apimachinery) (policies : KubeClient W SegmentationPolicy)
    (configs : KubeClient W PlatformConfig) (plane : ControlPlane W)
    (r : SegmentationPolicyReconciler) (refusal : GoError) (serving : IsServing policies configs)
    (refusing : IsRefusing plane r.cluster_id refusal) where
  abbrev Awaiting : Outcome → Run W → Type 0
  Awaiting o s = IsAwaiting refusal o s.log

  not_ready_outcome-IsAwaiting :
      (cr : SegmentationPolicy) (message ns : String) (name : SentPolicy) (id : ℤ)
      (a : Result SegmentationPolicy) (es : List Event)
      → ((x : GoError) → a ≢ err x)
      → IsAwaiting refusal
          (not_ready_outcome reason_awaiting_configuration message unconfigured_requeue a)
          (status_updated
              (snapshot (not_ready_object lib cr reason_awaiting_configuration message))
              (map_result snapshot a)
            ∷ reconciled id ns name (err refusal)
            ∷ es)
  unfolding not_ready_object not_ready_outcome set_condition
  not_ready_outcome-IsAwaiting cr message ns name id (err x) es h = absurd (h x refl)
  not_ready_outcome-IsAwaiting cr message ns name id (ok o) es h = (
    refl,
    refl,
    (message, lib.find_condition-set_status_condition condition_ready cr.status.conditions _),
  )

  not_ready-IsAwaiting :
      (cr : SegmentationPolicy) (message ns : String) (name : SentPolicy) (id : ℤ) (w : W)
      (es : List Event)
      → After Awaiting
          (not_ready lib policies cr reason_awaiting_configuration message unconfigured_requeue)
          (record { world = w; log = reconciled id ns name (err refusal) ∷ es })
  unfolding not_ready
  not_ready-IsAwaiting cr message ns name id w es = After-ask _ _ _ λ a w' e. After-pure _ (
      not_ready_outcome-IsAwaiting cr message ns name id a es (λ x same.
        serving.on_status (not_ready_object lib cr reason_awaiting_configuration message) w w' x
          (ground (arith, e, same))))

  reconcile_answer-IsAwaiting :
      (cr : SegmentationPolicy) (gate : PauseGate) (ns : String) (name : SentPolicy) (id : ℤ)
      (w : W) (es : List Event)
      → After Awaiting
          (reconcile_answer lib policies configs plane r cr gate (err refusal))
          (record { world = w; log = reconciled id ns name (err refusal) ∷ es })
  unfolding reconcile_answer reconcile_error
  reconcile_answer-IsAwaiting cr gate ns name id w es =
      After-if (is_unconfigured refusal) (λ _. not_ready-IsAwaiting cr _ ns name id w es)
        (λ not_so. ground (arith, not_so, refusing.says))

  push-IsAwaiting :
      (cr : SegmentationPolicy) (gate : PauseGate) (s : Run W)
      → After Awaiting (push lib policies configs plane r cr gate) s
  unfolding push
  push-IsAwaiting cr gate s = After-ask _ _ _ λ a w e.
      let same : a ≡ err refusal = ground (
        arith,
        e,
        refusing.on_reconcile cr.metadata.namespace cr.metadata.name (to_wire_spec cr.spec) s.world,
      ) in
      rw same (reconcile_answer-IsAwaiting cr gate _ _ _ w s.log)

  reconcile_live-IsAwaiting :
      (cr : SegmentationPolicy) (s : Run W)
      → After Awaiting (reconcile_live lib policies configs plane r cr) s
  unfolding reconcile_live reconcile_unpaused
  reconcile_live-IsAwaiting cr s = After-gate configs r.platform_config_name _ λ key a w e.
      After-if (gate_of r.platform_config_name a).paused
        (λ shut.
          ground (
            arith,
            shut,
            (gate_of_cases r.platform_config_name a).0.1 (serving.on_config _ _ _ _ e),
          ))
        λ _.
          After-if (lib.contains_finalizer cr.metadata.finalizers cr_edges_finalizer)
            (λ _. push-IsAwaiting cr _ _)
            λ _.
              After-ask_result _ _ _ _ (λ x w' e'. absurd (serving.on_update _ _ _ _ e'))
                (λ o w' e'. push-IsAwaiting o _ _)

  abbrev LetGo : Outcome → Run W → Type 0
  LetGo o s = IsLetGo refusal o s.log

  finalize_answer-IsLetGo :
      (cr : SegmentationPolicy) (kind ns name : String) (id : ℤ) (w : W) (es : List Event)
      → After LetGo
          (finalize_answer lib policies cr (err refusal))
          (record { world = w; log = closed kind id ns name (err refusal) ∷ es })
  unfolding finalize_answer release
  finalize_answer-IsLetGo cr kind ns name id w es =
      After-if (is_unconfigured refusal)
        (λ _.
          After-ask_result _ _ _ _ (λ x w' e. absurd (serving.on_update _ _ _ _ e))
            (λ o w' e. After-pure _ (refl, refl, lib.contains-remove_finalizer _ _ _)))
        (λ not_so. ground (arith, not_so, refusing.says))

  -- The rest of Reconcile
  abbrev HeldOff : SegmentationPolicy → Outcome → Run W → Type 0
  HeldOff cr o s = IsHeldOff refusal (snapshot cr) o s.log

  finalize-HeldOff :
      (cr : SegmentationPolicy) (at : ℕ) (s : Run W)
      → cr.metadata.deletion_timestamp ≡ some at
      → After (HeldOff cr) (finalize lib policies configs plane r cr) s
  unfolding finalize
  finalize-HeldOff cr at s p =
      After-if (not (lib.contains_finalizer cr.metadata.finalizers cr_edges_finalizer))
        (λ bare. After-pure _ (
          IsHeldOff-gone refusal (snapshot cr) at _ _ p (
            inr (
              refl,
              ground (
                arith,
                bare,
                lib.contains_finalizer_lem cr.metadata.finalizers cr_edges_finalizer,
              ),
            ))))
        λ _. After-ask _ _ _ λ a w e.
          let same : a ≡ err refusal =
            ground (arith, e, refusing.on_close cr.metadata.namespace cr.metadata.name s.world) in
          rw same (record {
            holds =
                IsHeldOff-gone refusal (snapshot cr) at _ _ p
                  (inl (finalize_answer-IsLetGo cr _ _ _ _ w s.log).holds);
          })

  reconcile_got-HeldOff :
      (cr : SegmentationPolicy) (s : Run W)
      → After
          (HeldOff cr)
          (elim cr.metadata.deletion_timestamp [
            | some at ↦ finalize lib policies configs plane r cr
            | none ↦ reconcile_live lib policies configs plane r cr
          ])
          s
  reconcile_got-HeldOff cr s =
      After-option cr.metadata.deletion_timestamp (λ at p. finalize-HeldOff cr at s p)
        (λ p. record {
          holds = IsHeldOff-live refusal (snapshot cr) _ _ p (reconcile_live-IsAwaiting cr s).holds;
        })

  pub reconcile-IsHeldOff :
      (key : NamespacedName) (w w' : W) (cr : SegmentationPolicy)
      → policies.get key w ≡ (ok cr, w')
      → let (outcome, run) = reconcile lib policies configs plane r key (start w) in
        IsHeldOff refusal (snapshot cr) outcome run.log
  unfolding reconcile
  reconcile-IsHeldOff key w w' cr found = after.holds
    where
      after : After (HeldOff cr) (reconcile lib policies configs plane r key) (start w)
      after =
          After-ask_result _ _ _ _ (λ x w'' e. absurd (serving.on_get _ _ _ _ e))
            (λ cr' w'' e. record {
              holds = rw (answer_unique found e) (reconcile_got-HeldOff cr' _).holds;
            })
