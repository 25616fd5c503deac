-- ===== src/Segmentation/Endings.antt =====
-- internal/controller/segmentationpolicy_controller.go: what one Reconcile has said by its end.
use k8boss_operator.Prelude.{
  ℕ, String, ◌≡◌, refl, arith, inl, inr, eqb, ltb, true, false, not, ◌||◌, some, List, [], ◌∷◌,
  ◌==◌, length, items,
}
use k8boss_operator.Api.{
  condition_true, condition_false, SegmentationPolicy, PlatformConfig, NamespacedName,
}
use k8boss_operator.Backend.Errors.{GoError, Result, ok, err, as_api, is_unconfigured, is_paused}
use k8boss_operator.Backend.Wire.{ReconcileResult, CloseResult}
use k8boss_operator.Backend.Calls.{ControlPlane}
use k8boss_operator.Kube.{
  KubeClient, Apimachinery, Event, fetched, status_updated, Run, start, map_result, done,
}
use k8boss_operator.Common.{PauseGate, cr_edges_finalizer, gate_of, resync_interval}
use k8boss_operator.Common.Evidence.{is_ready-set_condition}
use k8boss_operator.Common.Endings.{IsAccounted, Ends, After-failed, IsAccounted-unread}
use k8boss_operator.Common.Walk.{
  After-pure, After-if, After-option, After-ask, After-ask_result, After-gate, After-report,
}
use k8boss_operator.Segmentation.{
  SegmentationPolicyReconciler, snapshot, not_ready_object, not_ready_outcome, not_ready,
  reconcile_error, release, finalize_answer, finalize, ready_object, reconcile_answer, push,
  reconcile_unpaused, reconcile_live, reconcile,
}
use k8boss_operator.Segmentation.Exchange.{inconsistent_segmentation_result}

module _ {W : Type 0} (lib : Apimachinery) (policies : KubeClient W SegmentationPolicy)
    (configs : KubeClient W PlatformConfig) (plane : ControlPlane W)
    (r : SegmentationPolicyReconciler) where
  not_ready_outcome-IsAccounted :
      (cr : SegmentationPolicy) (reason message : String) (after : ℕ)
      (a : Result SegmentationPolicy) (es : List Event)
      → eqb after resync_interval ≡ false
      → IsAccounted (not_ready_outcome reason message after a) (
          status_updated (snapshot (not_ready_object lib cr reason message)) (map_result snapshot a)
          ∷ es)
  unfolding not_ready_outcome not_ready_object
  not_ready_outcome-IsAccounted cr reason message after (err e) es h silent = ground (arith, silent)
  not_ready_outcome-IsAccounted cr reason message after (ok o) es h silent = ground (
    arith,
    is_ready-set_condition lib cr.status.conditions cr.metadata.generation condition_false reason
        message,
  )

  not_ready-Ends :
      (cr : SegmentationPolicy) (reason message : String) (after : ℕ) (s : Run W)
      → eqb after resync_interval ≡ false
      → Ends (not_ready lib policies cr reason message after) s
  unfolding not_ready
  not_ready-Ends cr reason message after s h =
      After-ask _ _ _
        (λ a w _. After-pure _ (not_ready_outcome-IsAccounted cr reason message after a s.log h))

  reconcile_error-Ends :
      (cr : SegmentationPolicy) (e : GoError) (s : Run W)
      → Ends (reconcile_error lib policies cr e) s
  unfolding reconcile_error
  reconcile_error-Ends cr e s =
      After-if (is_unconfigured e) (λ _. not_ready-Ends cr _ _ _ s refl)
        λ _.
          After-if (is_paused e) (λ _. not_ready-Ends cr _ _ _ s refl)
            λ _.
              After-option (as_api e) (λ a _. not_ready-Ends cr _ _ _ s refl)
                λ _. After-report _ e (λ u. After-failed u)

  release-Ends :
      (what : String) (cr : SegmentationPolicy) (s : Run W) → Ends (release lib policies what cr) s
  unfolding release
  release-Ends what cr s =
      After-ask_result _ _ _ _ (λ e w _. After-failed _)
        (λ o w _. After-pure _ (λ _. inl (
          refl,
          lib.contains-remove_finalizer cr.metadata.finalizers cr_edges_finalizer
              cr_edges_finalizer,
        )))

  finalize_answer-Ends :
      (cr : SegmentationPolicy) (a : Result CloseResult) (s : Run W)
      → Ends (finalize_answer lib policies cr a) s
  unfolding finalize_answer
  finalize_answer-Ends cr (ok res) s =
      After-if (not (res.status == "ok") || ltb 0 (length (items res.unverified_edge_keys)))
        (λ _. not_ready-Ends cr _ _ _ s refl) (λ _. release-Ends _ cr s)
  finalize_answer-Ends cr (err e) s =
      After-if (is_unconfigured e) (λ _. release-Ends _ cr s)
        λ _.
          After-if (is_paused e) (λ _. not_ready-Ends cr _ _ _ s refl)
            (λ _. not_ready-Ends cr _ _ _ s refl)

  reconcile_answer-Ends :
      (cr : SegmentationPolicy) (gate : PauseGate) (a : Result ReconcileResult) (s : Run W)
      → Ends (reconcile_answer lib policies configs plane r cr gate a) s
  unfolding reconcile_answer ready_object
  reconcile_answer-Ends cr gate (err e) s = reconcile_error-Ends cr e s
  reconcile_answer-Ends cr gate (ok res) s =
      After-if (not (inconsistent_segmentation_result res == ""))
        (λ _. not_ready-Ends cr _ _ _ s refl)
        λ _.
          After-ask_result _ _ _ _ (λ e w _. After-failed _)
            (λ o w _. After-pure _ (λ _. inr (
              ground arith,
              is_ready-set_condition lib cr.status.conditions cr.metadata.generation condition_true
                  _ _,
            )))

  push-Ends :
      (cr : SegmentationPolicy) (gate : PauseGate) (s : Run W)
      → Ends (push lib policies configs plane r cr gate) s
  unfolding push
  push-Ends cr gate s = After-ask _ _ _ (λ a w _. reconcile_answer-Ends cr gate a _)

  reconcile_live-Ends :
      (cr : SegmentationPolicy) (s : Run W)
      → Ends (reconcile_live lib policies configs plane r cr) s
  unfolding reconcile_live reconcile_unpaused
  reconcile_live-Ends cr s = After-gate configs r.platform_config_name _ λ key a w _.
      After-if (gate_of r.platform_config_name a).paused (λ _. not_ready-Ends cr _ _ _ _ refl)
        λ _.
          After-if (lib.contains_finalizer cr.metadata.finalizers cr_edges_finalizer)
            (λ _. push-Ends cr _ _)
            λ _. After-ask_result _ _ _ _ (λ e w _. After-failed _) (λ o w _. push-Ends o _ _)

  finalize-Ends :
      (cr : SegmentationPolicy) (at : ℕ) (name : NamespacedName) (w : W)
      → cr.metadata.deletion_timestamp ≡ some at
      → Ends
          (finalize lib policies configs plane r cr)
          (record { world = w; log = fetched name (ok (snapshot cr)) ∷ [] })
  unfolding finalize
  finalize-Ends cr at name w deleted =
      After-if (not (lib.contains_finalizer cr.metadata.finalizers cr_edges_finalizer))
        (λ bare. After-pure _ (bare_done bare))
        (λ _. After-ask _ _ _ (λ a w _. finalize_answer-Ends cr a _))
    where
      bare_done :
          not (lib.contains_finalizer cr.metadata.finalizers cr_edges_finalizer) ≡ true
          → IsAccounted done (fetched name (ok (snapshot cr)) ∷ [])
      bare_done bare silent = inl (
        refl,
        (
          ground (arith, deleted),
          ground
              (arith, bare, lib.contains_finalizer_lem cr.metadata.finalizers cr_edges_finalizer),
        ),
      )

  reconcile-Ends :
      (name : NamespacedName) (w : W) → Ends (reconcile lib policies configs plane r name) (start w)
  unfolding reconcile
  reconcile-Ends name w =
      After-ask_result _ _ _ _ (λ e w' _. After-pure _ (IsAccounted-unread e name))
        λ cr w' _.
          After-option cr.metadata.deletion_timestamp
            (λ at deleted. finalize-Ends cr at _ _ deleted) (λ _. reconcile_live-Ends cr _)

  -- A Reconcile that returns no error has said why. Either it asks for no other round, and then the
  -- object is gone, or it is being deleted and has no finalizer of ours, or that finalizer was just
  -- taken off without error. Or it asks for another round, and then the last thing it did was to
  -- write, without error, a status: with Ready=True where the round is the resync (600 s), and with no
  -- Ready=True on every shorter or longer delay.
  pub reconcile-IsAccounted :
      (name : NamespacedName) (w : W)
      → IsAccounted
          (reconcile lib policies configs plane r name (start w)).0
          (reconcile lib policies configs plane r name (start w)).1.log
  reconcile-IsAccounted name w = (reconcile-Ends name w).holds
