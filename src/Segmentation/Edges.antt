-- ===== src/Segmentation/Edges.antt =====
-- internal/controller/segmentationpolicy_controller.go: a policy with open edges in the graph never
-- loses its finalizer, whatever happens between and during the reconciles of a configured operator.
use k8boss_operator.Prelude.{
  ℕ, String, ◌≡◌, arith, true, false, not, ◌||◌, ◌==◌, contains, length, items, ltb, length-pos_iff,
}
use k8boss_operator.Api.{SegmentationPolicy, PlatformConfig, NamespacedName}
use k8boss_operator.Backend.Errors.{GoError, Result, ok, err, as_api, is_unconfigured, is_paused}
use k8boss_operator.Backend.Wire.{ReconcileResult, CloseResult}
use k8boss_operator.Backend.Calls.{ControlPlane}
use k8boss_operator.Kube.{KubeClient, Apimachinery, Run, start}
use k8boss_operator.Common.{PauseGate, cr_edges_finalizer, gate_of}
use k8boss_operator.Common.Evidence.{has_finalizer}
use k8boss_operator.Common.Edges.{Observation, IsCovered, IsHarmless-keeps, IsNamed, IsSound}
use k8boss_operator.Common.Walk.{
  After, After-pure, After-if, After-option, After-ask, After-ask_result, After-gate, After-report,
}
use k8boss_operator.Segmentation.{
  cr_kind_segmentation_policy, SegmentationPolicyReconciler, snapshot, not_ready, reconcile_error,
  release, finalize_answer, finalize, reconcile_answer, push, reconcile_unpaused, reconcile_live,
  reconcile,
}
use k8boss_operator.Segmentation.Exchange.{inconsistent_segmentation_result}

module _ {W : Type 0} (lib : Apimachinery) (policies : KubeClient W SegmentationPolicy)
    (configs : KubeClient W PlatformConfig) (plane : ControlPlane W)
    (r : SegmentationPolicyReconciler) (key : NamespacedName) where
  module _ (seen : Observation W)
      (sound : IsSound seen snapshot policies configs
        (plane.reconcile_segmentation_policy r.cluster_id)
        (plane.close_cr_edges cr_kind_segmentation_policy r.cluster_id)
        key) where
    abbrev pub Kept : {A : Type 0} → A → Run W → Type 0
    Kept a s = IsCovered seen s.world

    not_ready-Kept :
        (cr : SegmentationPolicy) (reason message : String) (after : ℕ) (s : Run W)
        → IsCovered seen s.world
        → After Kept (not_ready lib policies cr reason message after) s
    unfolding not_ready
    not_ready-Kept cr reason message after s h =
        After-ask _ _ _
          (λ a w e. After-pure _ (IsHarmless-keeps seen (sound.on_status _ _ _ _ e) h))

    reconcile_error-Kept :
        (cr : SegmentationPolicy) (e : GoError) (s : Run W)
        → IsCovered seen s.world
        → After Kept (reconcile_error lib policies cr e) s
    unfolding reconcile_error
    reconcile_error-Kept cr e s h =
        After-if (is_unconfigured e) (λ _. not_ready-Kept cr _ _ _ s h)
          λ _.
            After-if (is_paused e) (λ _. not_ready-Kept cr _ _ _ s h)
              λ _.
                After-option (as_api e) (λ a _. not_ready-Kept cr _ _ _ s h)
                  λ _. After-report _ e (λ u. After-pure _ (not_ready-Kept cr _ _ _ s h).holds)

    release-Kept :
        (what : String) (cr : SegmentationPolicy) (s : Run W)
        → seen.has_edges s.world ≡ false
        → After Kept (release lib policies what cr) s
    unfolding release
    release-Kept what cr s closed =
        After-ask_result _ _ _ _
          (λ x w e. After-pure _ (λ o. ground (arith, closed, sound.on_update _ _ _ _ e o)))
          (λ x w e. After-pure _ (λ o. ground (arith, closed, sound.on_update _ _ _ _ e o)))

    finalize_answer-Kept :
        (cr : SegmentationPolicy) (a : Result CloseResult) (w : W) (s : Run W)
        → IsNamed key (snapshot cr)
        → plane.close_cr_edges cr_kind_segmentation_policy r.cluster_id cr.metadata.namespace
            cr.metadata.name w
          ≡ (a, s.world)
        → IsCovered seen s.world
        → After Kept (finalize_answer lib policies cr a) s
    unfolding finalize_answer
    finalize_answer-Kept cr (ok res) w s (n, m) e h =
        After-if (not (res.status == "ok") || ltb 0 (length (items res.unverified_edge_keys)))
          (λ _. not_ready-Kept cr _ _ _ s h)
          (λ fine. release-Kept _ cr s (
            sound.on_closed w s.world res (rw (← n, ← m) e)
              (ground (arith, fine, length-pos_iff (items res.unverified_edge_keys)))))
    finalize_answer-Kept cr (err x) w s (n, m) e h =
        After-if (is_unconfigured x)
          (λ u. release-Kept _ cr s (ground (arith, u, sound.on_refused _ _ _ _ _ e)))
          λ _.
            After-if (is_paused x) (λ _. not_ready-Kept cr _ _ _ s h)
              (λ _. not_ready-Kept cr _ _ _ s h)

    reconcile_answer-Kept :
        (cr : SegmentationPolicy) (gate : PauseGate) (a : Result ReconcileResult) (s : Run W)
        → IsCovered seen s.world
        → After Kept (reconcile_answer lib policies configs plane r cr gate a) s
    unfolding reconcile_answer
    reconcile_answer-Kept cr gate (err e) s h = reconcile_error-Kept cr e s h
    reconcile_answer-Kept cr gate (ok res) s h =
        After-if (not (inconsistent_segmentation_result res == ""))
          (λ _. not_ready-Kept cr _ _ _ s h)
          λ _.
            After-ask_result _ _ _ _
              (λ x w e. After-pure _ (IsHarmless-keeps seen (sound.on_status _ _ _ _ e) h))
              (λ x w e. After-pure _ (IsHarmless-keeps seen (sound.on_status _ _ _ _ e) h))

    push-Kept :
        (cr : SegmentationPolicy) (gate : PauseGate) (s : Run W)
        → seen.held s.world ≡ true
        → After Kept (push lib policies configs plane r cr gate) s
    unfolding push
    push-Kept cr gate s held =
        After-ask _ _ _
          λ a w e. reconcile_answer-Kept cr gate a _ (λ _. sound.on_reconcile _ _ _ _ _ _ e held)

    reconcile_live-Kept :
        (cr : SegmentationPolicy) (s : Run W)
        → IsNamed key (snapshot cr)
        → (has_finalizer (snapshot cr) ≡ true → seen.held s.world ≡ true)
        → IsCovered seen s.world
        → After Kept (reconcile_live lib policies configs plane r cr) s
    unfolding reconcile_live reconcile_unpaused
    reconcile_live-Kept cr s named held h = After-gate configs r.platform_config_name _ λ k a w e.
        let (keeps, closed) = sound.on_config _ _ _ _ e in
        After-if (gate_of r.platform_config_name a).paused
          (λ _. not_ready-Kept cr _ _ _ _ (IsHarmless-keeps seen (keeps, closed) h))
          λ _.
            After-if (lib.contains_finalizer cr.metadata.finalizers cr_edges_finalizer)
              (λ has. push-Kept cr _ _ (
                keeps (
                  held (
                    rw (← lib.contains_finalizer_lem cr.metadata.finalizers cr_edges_finalizer)
                      has))))
              λ _.
                After-ask_result _ _ _ _
                  (λ x w' e'. After-pure _ (
                    IsHarmless-keeps seen (sound.on_hold _ _ _ _ added e')
                      (IsHarmless-keeps seen (keeps, closed) h)))
                  (λ o w' e'. push-Kept o _ _ (sound.on_held _ _ _ _ named added e').1)
      where
        added :
            contains
              (lib.add_finalizer cr.metadata.finalizers cr_edges_finalizer)
              cr_edges_finalizer
            ≡ true
        added =
            lib.contains-add_finalizer cr.metadata.finalizers cr_edges_finalizer cr_edges_finalizer

    finalize-Kept :
        (cr : SegmentationPolicy) (s : Run W)
        → IsNamed key (snapshot cr)
        → IsCovered seen s.world
        → After Kept (finalize lib policies configs plane r cr) s
    unfolding finalize
    finalize-Kept cr s named h =
        After-if (not (lib.contains_finalizer cr.metadata.finalizers cr_edges_finalizer))
          (λ _. After-pure _ h)
          λ _. After-ask _ _ _ λ a w e.
            finalize_answer-Kept cr a _ _ named e
              (IsHarmless-keeps seen (sound.on_close _ _ _ _ _ e) h)

    pub reconcile-Kept :
        (w : W)
        → IsCovered seen w
        → After Kept (reconcile lib policies configs plane r key) (start w)
    unfolding reconcile
    reconcile-Kept w h =
        After-ask_result _ _ _ _
          (λ x w' e. After-pure _ (IsHarmless-keeps seen (sound.on_get _ _ _ e) h))
          λ cr w' e.
            let (named, held) = sound.on_got _ _ _ e in
            let h' : IsCovered seen w' = IsHarmless-keeps seen (sound.on_get _ _ _ e) h in
            After-option cr.metadata.deletion_timestamp (λ at _. finalize-Kept cr _ named h')
              (λ _. reconcile_live-Kept cr _ named held h')
