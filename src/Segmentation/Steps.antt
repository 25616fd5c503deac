-- ===== src/Segmentation/Steps.antt =====
-- internal/controller/segmentationpolicy_controller.go: the walk over one Reconcile. Every event of
-- its log is justified by those before it, for any justification that answers for the code's own
-- steps.
use k8boss_operator.Prelude.{
  ℕ, String, ◌≡◌, ◌⊎◌, inl, inr, true, not, ◌||◌, List, ◌∷◌, arith, eq_iff, contains, ◌==◌, ltb,
  length, items, length-pos_iff,
}
use k8boss_operator.Api.{SegmentationPolicy, PlatformConfig, NamespacedName}
use k8boss_operator.Backend.Errors.{GoError, Result, ok, err, as_api, is_unconfigured, is_paused}
use k8boss_operator.Backend.Wire.{ReconcileResult, CloseResult}
use k8boss_operator.Backend.Calls.{ControlPlane}
use k8boss_operator.Kube.{
  KubeClient, Apimachinery, Snapshot, SentPolicy, Event, fetched, fetched_config, updated,
  status_updated, reconciled, closed, Run, start,
}
use k8boss_operator.Common.{PauseGate, cr_edges_finalizer, gate_of}
use k8boss_operator.Common.Gate.{unpaused_seen-gate_of}
use k8boss_operator.Common.Walk.{
  After, Logged, After-pure, After-if, After-option, After-ask, After-ask_result, After-gate,
  After-report,
}
use k8boss_operator.Common.Evidence.{
  has_finalizer, unpaused_seen, finalizer_seen, Every, close_settled,
}
use k8boss_operator.Segmentation.{
  SegmentationPolicyReconciler, snapshot, not_ready_object, not_ready, reconcile_error, release,
  finalize_answer, finalize, ready_object, reconcile_answer, push, reconcile_unpaused,
  reconcile_live, reconcile,
}
use k8boss_operator.Segmentation.Exchange.{inconsistent_segmentation_result}
use k8boss_operator.Segmentation.Confirmed.{IsConverged, inconsistent_segmentation_result-eq-nil}

module _ {W : Type 0} (lib : Apimachinery) (policies : KubeClient W SegmentationPolicy)
    (configs : KubeClient W PlatformConfig) (plane : ControlPlane W)
    (r : SegmentationPolicyReconciler) where
  -- A justification that answers for each step of the code.
  pub record Answers (J : Event → List Event → Type 0) : Type 0 where
    pub on_fetch : (n : NamespacedName) (a : Result Snapshot) (es : List Event) → J (fetched n a) es
    pub on_config :
        (n : NamespacedName) (a : Result PlatformConfig) (es : List Event)
        → J (fetched_config n a) es
    pub on_close :
        (k n m : String) (a : Result CloseResult) (es : List Event)
        → J (closed k r.cluster_id n m a) es
    pub on_reconcile :
        (n : String) (m : SentPolicy) (a : Result ReconcileResult) (es : List Event)
        → unpaused_seen es ≡ true
        → finalizer_seen es ≡ true
        → J (reconciled r.cluster_id n m a) es
    pub on_not_ready :
        (cr : SegmentationPolicy) (reason message : String) (a : Result Snapshot) (es : List Event)
        → J (status_updated (snapshot (not_ready_object lib cr reason message)) a) es
    pub on_ready :
        (cr : SegmentationPolicy) (gate : PauseGate) (res : ReconcileResult) (n : String)
        (m : SentPolicy) (a : Result Snapshot) (es : List Event)
        → IsConverged res
        → J
            (status_updated (snapshot (ready_object lib cr gate res)) a)
            (reconciled r.cluster_id n m (ok res) ∷ es)
    pub on_update :
        (s : Snapshot) (a : Result Snapshot) (es : List Event)
        → (has_finalizer s ≡ true) ⊎ (close_settled es ≡ true)
        → J (updated s a) es

  module _ (J : Event → List Event → Type 0) (answers : Answers J) where
    not_ready-After :
        (cr : SegmentationPolicy) (reason message : String) (after : ℕ) (s : Run W)
        → Every J s.log
        → After (Logged J) (not_ready lib policies cr reason message after) s
    unfolding not_ready
    not_ready-After cr reason message after s h =
        After-ask _ _ _ λ a w _. (After-pure _ (answers.on_not_ready cr reason message _ s.log, h))

    reconcile_error-After :
        (cr : SegmentationPolicy) (e : GoError) (s : Run W)
        → Every J s.log
        → After (Logged J) (reconcile_error lib policies cr e) s
    unfolding reconcile_error
    reconcile_error-After cr e s h =
        After-if (is_unconfigured e) (λ _. not_ready-After cr _ _ _ s h)
          λ _.
            After-if (is_paused e) (λ _. not_ready-After cr _ _ _ s h)
              λ _.
                After-option (as_api e) (λ a _. not_ready-After cr _ _ _ s h)
                  λ _. After-report _ e (λ u. After-pure _ (not_ready-After cr _ _ _ s h).holds)

    release-After :
        (what : String) (cr : SegmentationPolicy) (s : Run W)
        → close_settled s.log ≡ true
        → Every J s.log
        → After (Logged J) (release lib policies what cr) s
    unfolding release
    release-After what cr s settled h =
        After-ask_result _ _ _ _ (λ e w _. After-pure _ (answers.on_update _ _ _ (inr settled), h))
          (λ o w _. After-pure _ (answers.on_update _ _ _ (inr settled), h))

    finalize_answer-After :
        (cr : SegmentationPolicy) (k n m : String) (a : Result CloseResult) (w : W)
        (es : List Event)
        → Every J es
        → After
            (Logged J)
            (finalize_answer lib policies cr a)
            (record { world = w; log = closed k r.cluster_id n m a ∷ es })
    unfolding finalize_answer
    finalize_answer-After cr k n m (ok res) w es h =
        let h' : Every J (closed k r.cluster_id n m (ok res) ∷ es) =
          (answers.on_close k n m _ es, h) in
        After-if (not (res.status == "ok") || ltb 0 (length (items res.unverified_edge_keys)))
          (λ _. not_ready-After cr _ _ _ _ h')
          (λ e.
            release-After _ cr _ (ground (arith, length-pos_iff (items res.unverified_edge_keys)))
              h')
    finalize_answer-After cr k n m (err e) w es h =
        let h' : Every J (closed k r.cluster_id n m (err e) ∷ es) =
          (answers.on_close k n m _ es, h) in
        After-if (is_unconfigured e) (λ u. release-After _ cr _ u h')
          λ _.
            After-if (is_paused e) (λ _. not_ready-After cr _ _ _ _ h')
              (λ _. not_ready-After cr _ _ _ _ h')

    finalize-After :
        (cr : SegmentationPolicy) (s : Run W)
        → Every J s.log
        → After (Logged J) (finalize lib policies configs plane r cr) s
    unfolding finalize
    finalize-After cr s h =
        After-if (not (lib.contains_finalizer cr.metadata.finalizers cr_edges_finalizer))
          (λ _. After-pure _ h)
          (λ _. After-ask _ _ _ (λ a w _. finalize_answer-After cr _ _ _ _ _ _ h))

    reconcile_answer-After :
        (cr : SegmentationPolicy) (gate : PauseGate) (n : String) (m : SentPolicy)
        (a : Result ReconcileResult) (w : W) (es : List Event)
        → Every J (reconciled r.cluster_id n m a ∷ es)
        → After
            (Logged J)
            (reconcile_answer lib policies configs plane r cr gate a)
            (record { world = w; log = reconciled r.cluster_id n m a ∷ es })
    unfolding reconcile_answer
    reconcile_answer-After cr gate n m (err e) w es h = reconcile_error-After cr e _ h
    reconcile_answer-After cr gate n m (ok res) w es h =
        After-if (not (inconsistent_segmentation_result res == ""))
          (λ _. not_ready-After cr _ _ _ _ h)
          λ fine.
            let converged : IsConverged res =
              (inconsistent_segmentation_result-eq-nil res).0
                (ground (arith, eq_iff (inconsistent_segmentation_result res) "")) in
            After-ask_result _ _ _ _
              (λ e w _. After-pure _ (answers.on_ready cr gate res n m _ es converged, h))
              (λ o w _. After-pure _ (answers.on_ready cr gate res n m _ es converged, h))

    push-After :
        (cr : SegmentationPolicy) (gate : PauseGate) (s : Run W)
        → unpaused_seen s.log ≡ true
        → finalizer_seen s.log ≡ true
        → Every J s.log
        → After (Logged J) (push lib policies configs plane r cr gate) s
    unfolding push
    push-After cr gate s unpaused held h = After-ask _ _ _ (λ a w _.
        reconcile_answer-After cr gate _ _ _ _ _
          (answers.on_reconcile _ _ _ s.log unpaused held, h))

    reconcile_unpaused-After :
        (cr : SegmentationPolicy) (gate : PauseGate) (s : Run W)
        → unpaused_seen s.log ≡ true
        → (has_finalizer (snapshot cr) ≡ true → finalizer_seen s.log ≡ true)
        → Every J s.log
        → After (Logged J) (reconcile_unpaused lib policies configs plane r cr gate) s
    unfolding reconcile_unpaused
    reconcile_unpaused-After cr gate s unpaused held h =
        After-if (lib.contains_finalizer cr.metadata.finalizers cr_edges_finalizer)
          (λ has.
            push-After cr gate s unpaused
              (held
                (rw (← lib.contains_finalizer_lem cr.metadata.finalizers cr_edges_finalizer) has))
              h)
          λ _.
            After-ask_result _ _ _ _
              (λ e w _. After-pure _ (answers.on_update _ _ s.log (inl added), h))
              (λ o w _.
                push-After o gate _ unpaused (rw added)
                  (answers.on_update _ _ s.log (inl added), h))
      where
        added :
            contains
              (lib.add_finalizer cr.metadata.finalizers cr_edges_finalizer)
              cr_edges_finalizer
            ≡ true
        added =
            lib.contains-add_finalizer cr.metadata.finalizers cr_edges_finalizer cr_edges_finalizer

    reconcile_live-After :
        (cr : SegmentationPolicy) (s : Run W)
        → (has_finalizer (snapshot cr) ≡ true → finalizer_seen s.log ≡ true)
        → Every J s.log
        → After (Logged J) (reconcile_live lib policies configs plane r cr) s
    unfolding reconcile_live
    reconcile_live-After cr s held h = After-gate configs r.platform_config_name _ λ key a w _.
        let h' : Every J (fetched_config key a ∷ s.log) = (answers.on_config key a s.log, h) in
        After-if (gate_of r.platform_config_name a).paused (λ _. not_ready-After cr _ _ _ _ h')
          λ off.
            reconcile_unpaused-After cr _ _
              (unpaused_seen-gate_of r.platform_config_name key a s.log off) held h'

    pub reconcile-After :
        (name : NamespacedName) (w : W)
        → After (Logged J) (reconcile lib policies configs plane r name) (start w)
    unfolding reconcile
    reconcile-After name w =
        After-ask_result _ _ _ _ (λ e w' _. After-pure _ (answers.on_fetch _ _ _, tt))
          λ cr w' _.
            After-option cr.metadata.deletion_timestamp
              (λ at _. finalize-After cr _ (answers.on_fetch _ _ _, tt))
              (λ _. reconcile_live-After cr _ (λ has. rw has) (answers.on_fetch _ _ _, tt))
