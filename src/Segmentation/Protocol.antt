-- ===== src/Segmentation/Protocol.antt =====
-- internal/controller/segmentationpolicy_controller.go: the calls of one Reconcile, in their order.
use k8boss_operator.Prelude.{
  refl, ℕ, ◌≤◌, String, ◌≡◌, false, none, some, List, ◌∷◌, not, ◌||◌, ◌==◌, ltb, length, items,
  arith, eq_iff, length-pos_iff,
}
use k8boss_operator.Api.{SegmentationPolicy, PlatformConfig, NamespacedName, condition_true}
use k8boss_operator.Backend.Errors.{GoError, Result, ok, err, is_unconfigured, is_paused, as_api}
use k8boss_operator.Backend.Wire.{ReconcileResult, CloseResult}
use k8boss_operator.Backend.Calls.{ControlPlane}
use k8boss_operator.Kube.{
  KubeClient, Apimachinery, Snapshot, Event, status_updated, updated, Run, start,
}
use k8boss_operator.Common.{cr_edges_finalizer, gate_of, PauseGate}
use k8boss_operator.Common.Gate.{IsOff, gate_of_cases}
use k8boss_operator.Common.Walk.{
  After, After-pure, After-if, After-option, After-ask, After-ask_result, After-singleton,
  After-report,
}
use k8boss_operator.Common.Protocol.{
  is_settled, Exchange, over, seen, closing, gated, held, pushed, miss, fetch, leave, close, hold,
  ask_gate, withhold, keep, bind, fail, report, Report, refused, unconfirmed, confirmed,
  length-Exchange,
}
use k8boss_operator.Common.Protocol.Writes.{
  IsUnready, IsTagged, IsWriteOf-set_condition, IsTagged-add_finalizer, IsTagged-remove_finalizer,
}
use k8boss_operator.Common.Protocol
use k8boss_operator.Segmentation.{
  cr_kind_segmentation_policy, SegmentationPolicyReconciler, snapshot, not_ready_object,
  ready_object, not_ready, release, reconcile_error, reconcile_answer, push, reconcile_unpaused,
  finalize_answer, finalize, reconcile_live, reconcile,
}
use k8boss_operator.Segmentation.Exchange.{inconsistent_segmentation_result}
use k8boss_operator.Segmentation.Sent.{IsSent, to_wire_spec-IsSent}
use k8boss_operator.Segmentation.Confirmed.{IsConverged, inconsistent_segmentation_result-eq-nil}

module _ {W : Type 0} (lib : Apimachinery) (policies : KubeClient W SegmentationPolicy)
    (configs : KubeClient W PlatformConfig) (plane : ControlPlane W)
    (r : SegmentationPolicyReconciler) (key : NamespacedName) where
  abbrev Leads : Protocol.Phase → List Event → Type 0
  Leads =
      Exchange IsConverged IsSent cr_kind_segmentation_policy r.cluster_id r.platform_config_name
        key

  abbrev Over : {A : Type 0} → A → Run W → Type 0
  Over a s = Leads over s.log

  not_ready-Over :
      (cr : SegmentationPolicy) (reason message : String) (after : ℕ) (s : Run W)
      → ((x : Snapshot) (b : Result Snapshot)
          → IsUnready (snapshot cr) x
          → Leads over (status_updated x b ∷ s.log))
      → After Over (not_ready lib policies cr reason message after) s
  unfolding not_ready not_ready_object
  not_ready-Over cr reason message after s last =
      After-ask _ _ _ (λ a w e.
        After-pure _ (last _ _ (IsWriteOf-set_condition lib (snapshot cr) _ _ _ _ _, refl)))

  release-Over :
      (what : String) (cr : SegmentationPolicy) (s : Run W)
      → ((x : Snapshot) (b : Result Snapshot)
          → IsTagged false (snapshot cr) x
          → Leads over (updated x b ∷ s.log))
      → After Over (release lib policies what cr) s
  unfolding release
  release-Over what cr s last =
      After-ask_result _ _ _ _
        (λ x w e. After-pure _ (last _ _ (IsTagged-remove_finalizer lib (snapshot cr))))
        (λ o w e. After-pure _ (last _ _ (IsTagged-remove_finalizer lib (snapshot cr))))

  finalize_answer-Over :
      (cr : SegmentationPolicy) (a : Result CloseResult) (s : Run W)
      → Leads (closing (snapshot cr) a) s.log
      → After Over (finalize_answer lib policies cr a) s
  unfolding finalize_answer
  finalize_answer-Over cr (ok res) s t =
      After-if (not (res.status == "ok") || ltb 0 (length (items res.unverified_edge_keys)))
        (λ open_left.
          not_ready-Over cr _ _ _ s
            λ x b w. hold x b (ground (arith, length-pos_iff (items res.unverified_edge_keys))) w t)
        (λ settled. release-Over _ cr s λ x b w.
          Protocol.release x b (ground (arith, length-pos_iff (items res.unverified_edge_keys))) w
            t)
  finalize_answer-Over cr (err e) s t =
      After-if (is_unconfigured e) (λ u. release-Over _ cr s λ x b w. Protocol.release x b u w t)
        λ u.
          After-if (is_paused e) (λ _. not_ready-Over cr _ _ _ s λ x b w. hold x b u w t)
            (λ _. not_ready-Over cr _ _ _ s λ x b w. hold x b u w t)

  finalize-Over :
      (cr : SegmentationPolicy) (at : ℕ) (s : Run W)
      → cr.metadata.deletion_timestamp ≡ some at
      → Leads (seen (snapshot cr)) s.log
      → After Over (finalize lib policies configs plane r cr) s
  unfolding finalize
  finalize-Over cr at s d t =
      let same = lib.contains_finalizer_lem cr.metadata.finalizers cr_edges_finalizer in
      After-if (not (lib.contains_finalizer cr.metadata.finalizers cr_edges_finalizer))
        (λ untagged. After-pure _ (leave at d (ground (arith, same)) t))
        λ tagged.
          After-ask _ _ _
            (λ a w e. finalize_answer-Over cr a _ (close at a d (ground (arith, same)) t))

  reconcile_error-Over :
      (cr : SegmentationPolicy) (e : GoError) (s : Run W)
      → Leads (pushed (snapshot cr) (err e)) s.log
      → After Over (reconcile_error lib policies cr e) s
  unfolding reconcile_error
  reconcile_error-Over cr e s t =
      After-if (is_unconfigured e) (λ _. not_ready-Over cr _ _ _ s last)
        λ _.
          After-if (is_paused e) (λ _. not_ready-Over cr _ _ _ s last)
            λ _.
              After-option (as_api e) (λ api _. not_ready-Over cr _ _ _ s last)
                (λ _. After-report _ e (λ u. After-pure _ (not_ready-Over cr _ _ _ s last).holds))
    where
      last :
          (x : Snapshot) (b : Result Snapshot)
          → IsUnready (snapshot cr) x
          → Leads over (status_updated x b ∷ s.log)
      last x b w = report x b (refused w) t

  reconcile_answer-Over :
      (cr : SegmentationPolicy) (gate : PauseGate) (a : Result ReconcileResult) (s : Run W)
      → Leads (pushed (snapshot cr) a) s.log
      → After Over (reconcile_answer lib policies configs plane r cr gate a) s
  unfolding reconcile_answer ready_object
  reconcile_answer-Over cr gate (err e) s t = reconcile_error-Over cr e s t
  reconcile_answer-Over cr gate (ok res) s t =
      let (sound, complete) = inconsistent_segmentation_result-eq-nil res in
      let test = eq_iff (inconsistent_segmentation_result res) "" in
      After-if (not (inconsistent_segmentation_result res == ""))
        (λ why.
          not_ready-Over cr _ _ _ s
            λ x b w. report x b (unconfirmed (λ c. ground (arith, test, complete c)) w) t)
        λ fine.
          let ready = confirmed (sound (ground (arith, test))) (
            IsWriteOf-set_condition lib (snapshot cr) condition_true _ _ cr.metadata.generation
              _) in
          After-ask_result _ _ _ _ (λ e w _. After-pure _ (report _ _ ready t))
            (λ o w _. After-pure _ (report _ _ ready t))

  push-Over :
      (cr : SegmentationPolicy) (gate : PauseGate) (s : Run W)
      → Leads (held (snapshot cr)) s.log
      → After Over (push lib policies configs plane r cr gate) s
  unfolding push
  push-Over cr gate s t = After-ask _ _ _ (λ a w e.
      reconcile_answer-Over cr gate a _ (Protocol.push _ a (to_wire_spec-IsSent cr.spec) t))

  reconcile_unpaused-Over :
      (cr : SegmentationPolicy) (gate : PauseGate) (a : Result PlatformConfig) (s : Run W)
      → IsOff a
      → Leads (gated (snapshot cr) a) s.log
      → After Over (reconcile_unpaused lib policies configs plane r cr gate) s
  unfolding reconcile_unpaused
  reconcile_unpaused-Over cr gate a s off t =
      let same = lib.contains_finalizer_lem cr.metadata.finalizers cr_edges_finalizer in
      let added = IsTagged-add_finalizer lib (snapshot cr) in
      After-if (lib.contains_finalizer cr.metadata.finalizers cr_edges_finalizer)
        (λ tagged. push-Over cr gate s (keep off (ground (arith, same)) t))
        λ untagged.
          After-ask_result _ _ _ _
            (λ e w _. After-pure _ (fail _ e off (ground (arith, same)) added t))
            (λ cr' w _. push-Over cr' gate _ (bind _ _ off (ground (arith, same)) added t))

  reconcile_live-Over :
      (cr : SegmentationPolicy) (s : Run W)
      → cr.metadata.deletion_timestamp ≡ none
      → Leads (seen (snapshot cr)) s.log
      → After Over (reconcile_live lib policies configs plane r cr) s
  unfolding reconcile_live
  reconcile_live-Over cr s d t = After-singleton configs r.platform_config_name _ λ a w e.
      let (opens, _) = (gate_of_cases r.platform_config_name a).0 in
      After-if (gate_of r.platform_config_name a).paused
        (λ on. not_ready-Over cr _ _ _ _ λ x b u.
          withhold x b (λ off. ground (arith, (gate_of_cases r.platform_config_name a).0.1 off)) u
            (ask_gate a d t))
        (λ off. reconcile_unpaused-Over cr _ a _ (opens off) (ask_gate a d t))

  -- The calls of one Reconcile are these, five at most, and each is about the object as the API
  -- server has last given it. It fetches the object; a failure is the end. An object that is being
  -- deleted and has not our finalizer is left alone. If it has, the close call is made for that
  -- object, and then an update takes the finalizer off if the call answered "ok" with no unverified
  -- edge or was not attempted since nothing was configured, and else a status that is not Ready is
  -- written. An object that is not being deleted has the configuration of the operator's own name
  -- read, and a status that is not Ready written if the kill switch is not known to be off. Else an
  -- update puts the finalizer on if it is missing, and a failure is the end; then its spec is sent
  -- to the control plane under its namespace and name, and one status is written, which is Ready if
  -- the answer shows a converged write and not Ready if it does not. An update keeps all of the
  -- object but the list of finalizers, and in that every finalizer but ours. What is sent is the
  -- spec as it stands, with an empty slice or map where it has a nil one. A status write keeps the
  -- metadata, the spec and every condition but Ready, and gives Ready the object's generation. One
  -- that is not Ready keeps the rest of the status too, and one that is Ready moves
  -- observedGeneration to that generation.
  pub reconcile-Exchange :
      (w : W)
      → Exchange IsConverged IsSent cr_kind_segmentation_policy r.cluster_id r.platform_config_name
          key over
          (reconcile lib policies configs plane r key (start w)).1.log
        × (length (reconcile lib policies configs plane r key (start w)).1.log ≤ 5)
  unfolding reconcile
  reconcile-Exchange w = (after.holds, length-Exchange IsConverged IsSent _ _ _ _ after.holds)
    where
      after : After Over (reconcile lib policies configs plane r key) (start w)
      after =
          After-ask_result _ _ _ _ (λ x w e. After-pure _ (miss x Protocol.start))
            λ cr w e.
              After-option cr.metadata.deletion_timestamp
                (λ at d. finalize-Over cr at _ d (fetch (snapshot cr) Protocol.start))
                (λ d. reconcile_live-Over cr _ d (fetch (snapshot cr) Protocol.start))
