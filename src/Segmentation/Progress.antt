-- ===== src/Segmentation/Progress.antt =====
-- internal/controller/segmentationpolicy_controller.go: one Reconcile on a cluster and
-- a control plane that get in no one's way.
use k8boss_operator.Prelude.{
  ◌≡◌, ◌⊎◌, inl, inr, refl, true, false, not, none, some, ◌||◌, arith, eq_iff, ◌==◌, ltb, length,
  items, length-pos_iff,
}
use k8boss_operator.Api.{SegmentationPolicy, PlatformConfig, NamespacedName}
use k8boss_operator.Backend.Errors.{Result, ok, err}
use k8boss_operator.Backend.Wire.{ReconcileResult, CloseResult}
use k8boss_operator.Backend.Calls.{ControlPlane}
use k8boss_operator.Kube.{KubeClient, Apimachinery, Run, Outcome, start, done}
use k8boss_operator.Common.{PauseGate, cr_edges_finalizer, gate_of}
use k8boss_operator.Common.Gate.{gate_of_cases}
use k8boss_operator.Common.Walk.{
  After, After-pure, After-if, After-option, After-ask, After-ask_result, After-gate,
}
use k8boss_operator.Common.Evidence.{has_finalizer, is_closed, is_ready-set_condition}
use k8boss_operator.Common.Willing.{
  Holds, IsServing, IsWilling, IsSynced, IsReleased, IsConcluded, IsConcluded-gone,
  IsConcluded-live, answer_unique,
}
use k8boss_operator.Segmentation.{
  cr_kind_segmentation_policy, SegmentationPolicyReconciler, snapshot, release, finalize_answer,
  finalize, ready_object, reconcile_answer, push, reconcile_unpaused, reconcile_live, reconcile,
}
use k8boss_operator.Segmentation.Exchange.{inconsistent_segmentation_result}
use k8boss_operator.Segmentation.Confirmed.{IsConverged, inconsistent_segmentation_result-eq-nil}

module _ {W : Type 0} (lib : Apimachinery) (policies : KubeClient W SegmentationPolicy)
    (configs : KubeClient W PlatformConfig) (plane : ControlPlane W)
    (r : SegmentationPolicyReconciler) (serving : IsServing policies configs)
    (willing : IsWilling
      (plane.reconcile_segmentation_policy r.cluster_id)
      (plane.close_cr_edges cr_kind_segmentation_policy r.cluster_id)
      IsConverged) where
  abbrev Synced : Outcome → Run W → Type 0
  Synced o s = IsSynced o s.log

  abbrev Released : Outcome → Run W → Type 0
  Released o s = IsReleased o s.log

  reconcile_answer-IsSynced :
      (cr : SegmentationPolicy) (gate : PauseGate) (a : Result ReconcileResult) (s : Run W)
      → Holds IsConverged a
      → After Synced (reconcile_answer lib policies configs plane r cr gate a) s
  unfolding reconcile_answer ready_object
  reconcile_answer-IsSynced cr gate (err e) s h = absurd h
  reconcile_answer-IsSynced cr gate (ok res) s h =
      After-if (not (inconsistent_segmentation_result res == ""))
        (λ bad. ground (
          arith,
          bad,
          (inconsistent_segmentation_result-eq-nil res).1 h,
          eq_iff (inconsistent_segmentation_result res) "",
        ))
        λ _.
          After-ask_result _ _ _ _ (λ x w e. absurd (serving.on_status _ _ _ _ e))
            (λ o w e. After-pure _ (refl, is_ready-set_condition lib _ _ _ _ _, refl))

  push-IsSynced :
      (cr : SegmentationPolicy) (gate : PauseGate) (s : Run W)
      → After Synced (push lib policies configs plane r cr gate) s
  unfolding push
  push-IsSynced cr gate s =
      After-ask _ _ _
        (λ a w e. reconcile_answer-IsSynced cr gate a _ (willing.on_reconcile _ _ _ _ _ _ e))

  reconcile_live-IsSynced :
      (cr : SegmentationPolicy) (s : Run W)
      → After Synced (reconcile_live lib policies configs plane r cr) s
  unfolding reconcile_live reconcile_unpaused
  reconcile_live-IsSynced cr s = After-gate configs r.platform_config_name _ λ key a w e.
      After-if (gate_of r.platform_config_name a).paused
        (λ shut.
          ground (
            arith,
            shut,
            (gate_of_cases r.platform_config_name a).0.1 (serving.on_config _ _ _ _ e),
          ))
        λ _.
          After-if (lib.contains_finalizer cr.metadata.finalizers cr_edges_finalizer)
            (λ _. push-IsSynced cr _ _)
            λ _.
              After-ask_result _ _ _ _ (λ x w' e'. absurd (serving.on_update _ _ _ _ e'))
                (λ o w' e'. push-IsSynced o _ _)

  finalize_answer-IsReleased :
      (cr : SegmentationPolicy) (a : Result CloseResult) (s : Run W)
      → Holds (λ res. is_closed res ≡ true) a
      → After Released (finalize_answer lib policies cr a) s
  unfolding finalize_answer release
  finalize_answer-IsReleased cr (err e) s h = absurd h
  finalize_answer-IsReleased cr (ok res) s h =
      After-if (not (res.status == "ok") || ltb 0 (length (items res.unverified_edge_keys)))
        (λ bad. ground (arith, bad, h, length-pos_iff (items res.unverified_edge_keys)))
        λ _.
          After-ask_result _ _ _ _ (λ x w e. absurd (serving.on_update _ _ _ _ e))
            (λ o w e. After-pure _ (refl, lib.contains-remove_finalizer _ _ _))

  -- Where finalize ends.
  abbrev Left : SegmentationPolicy → Outcome → Run W → Type 0
  Left cr o s = IsReleased o s.log ⊎ ((o ≡ done) × (has_finalizer (snapshot cr) ≡ false))

  finalize-Left :
      (cr : SegmentationPolicy) (s : Run W)
      → After (Left cr) (finalize lib policies configs plane r cr) s
  unfolding finalize
  finalize-Left cr s =
      After-if (not (lib.contains_finalizer cr.metadata.finalizers cr_edges_finalizer))
        (λ bare. After-pure _ (
          inr (
            refl,
            ground
                (arith, bare, lib.contains_finalizer_lem cr.metadata.finalizers cr_edges_finalizer),
          )))
        λ _. After-ask _ _ _ λ a w e. record {
          holds = inl (finalize_answer-IsReleased cr a _ (willing.on_close _ _ _ _ _ e)).holds;
        }

  -- The rest of Reconcile
  abbrev Finished : SegmentationPolicy → Outcome → Run W → Type 0
  Finished cr o s = IsConcluded (snapshot cr) o s.log

  reconcile_got-Finished :
      (cr : SegmentationPolicy) (s : Run W)
      → After
          (Finished cr)
          (elim cr.metadata.deletion_timestamp [
            | some at ↦ finalize lib policies configs plane r cr
            | none ↦ reconcile_live lib policies configs plane r cr
          ])
          s
  reconcile_got-Finished cr s =
      After-option cr.metadata.deletion_timestamp
        (λ at p. record {
          holds = IsConcluded-gone (snapshot cr) at _ _ p (finalize-Left cr s).holds;
        })
        (λ p. record {
          holds = IsConcluded-live (snapshot cr) _ _ p (reconcile_live-IsSynced cr s).holds;
        })

  -- Where no call of the API server fails, the kill switch is off and the control plane confirms what
  -- it is asked, one Reconcile of an object that the API server has reaches its end. The object is not
  -- being deleted: the last call wrote a status with Ready=True for the object's generation, and the next
  -- look is after the resync interval. It is being deleted: the last call took its finalizer off, or it
  -- had none, and no other look is asked for.
  pub reconcile-IsConcluded :
      (key : NamespacedName) (w w' : W) (cr : SegmentationPolicy)
      → policies.get key w ≡ (ok cr, w')
      → let (outcome, run) = reconcile lib policies configs plane r key (start w) in
        IsConcluded (snapshot cr) outcome run.log
  unfolding reconcile
  reconcile-IsConcluded key w w' cr found = after.holds
    where
      after : After (Finished cr) (reconcile lib policies configs plane r key) (start w)
      after =
          After-ask_result _ _ _ _ (λ x w'' e. absurd (serving.on_get _ _ _ _ e))
            (λ cr' w'' e. record {
              holds = rw (answer_unique found e) ((reconcile_got-Finished cr' _).holds);
            })
