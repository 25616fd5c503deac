-- ===== src/Segmentation/Again.antt =====
-- internal/controller/segmentationpolicy_controller.go: one Reconcile after the other, on a cluster
-- where nobody else acts on the policy and every call is answered alike. SetupWithManager gives the
-- watch no predicate: a write that changes the object wakes the controller again.
pub mod Parts
use Parts.{shape, tagged, past_gate, finalize_answer-Closes, past_gate-Settles}
use k8boss_operator.Prelude.{
  ℕ, zero, suc, String, ◌≡◌, refl, sym, ap, subst, ◌∙◌, arith, eq_iff, Bool, true, false, not,
  contains, some, none, Option, Option-cases, inl, inr,
}
use k8boss_operator.Api.{SegmentationPolicy, PlatformConfig, NamespacedName}
use k8boss_operator.Backend.Wire
use k8boss_operator.Backend.Errors.{Result}
use k8boss_operator.Backend.Wire.{ReconcileResult, CloseResult}
use k8boss_operator.Backend.Calls.{ControlPlane}
use k8boss_operator.Kube.{KubeClient, Apimachinery, Run, start, Act, Outcome}
use k8boss_operator.Common.{cr_edges_finalizer, gate_of}
use k8boss_operator.Common.Walk.{After, After-pure, After-if, After-option}
use k8boss_operator.Common.Steady.{
  Gives, IsSteady, Stores, After-known, Settles, After-steady_gate, Closes,
}
use k8boss_operator.Common.Steady.Next.{IsTame, next, next_by, next_by-next, next-next}
use k8boss_operator.Segmentation.{
  cr_kind_segmentation_policy, SegmentationPolicyReconciler, reconcile_unpaused, finalize_answer,
  finalize, reconcile_live, reconcile,
}

-- So many rounds of Reconcile
module _ {W : Type 0} (lib : Apimachinery) (policies : KubeClient W SegmentationPolicy)
    (configs : KubeClient W PlatformConfig) (plane : ControlPlane W)
    (r : SegmentationPolicyReconciler) (key : NamespacedName) where
  abbrev pub rounds : ℕ → W → W
  rounds zero w = w
  rounds (suc n) w = (reconcile lib policies configs plane r key (start (rounds n w))).1.world

module _ {W : Type 0} (lib : Apimachinery) (policies : KubeClient W SegmentationPolicy)
    (configs : KubeClient W PlatformConfig) (plane : ControlPlane W)
    (r : SegmentationPolicyReconciler) (key : NamespacedName)
    (stored : W → Option SegmentationPolicy) (config : Result PlatformConfig)
    (close : Result CloseResult)
    (steady : IsSteady shape stored policies configs r.platform_config_name key
      (plane.close_cr_edges cr_kind_segmentation_policy r.cluster_id)
      config
      close)
    (closes : Closes shape stored (λ cr. finalize_answer lib policies cr close))
    (pushes : Settles shape stored (
      past_gate lib policies configs plane r
        (gate_of r.platform_config_name config)
        (gate_of r.platform_config_name config).paused)) where
  abbrev after_one : Option SegmentationPolicy → Option SegmentationPolicy
  after_one =
      next shape (not (gate_of r.platform_config_name config).paused) (tagged lib) closes.to
        pushes.to

  abbrev after_by : Option ℕ → Bool → SegmentationPolicy → Option SegmentationPolicy
  after_by =
      next_by shape (not (gate_of r.platform_config_name config).paused) (tagged lib) closes.to
        pushes.to

  lands :
      (cr : SegmentationPolicy) (d : Option ℕ) (t : Bool) (m : Act W Outcome) (s : Run W)
      → cr.metadata.deletion_timestamp ≡ d
      → contains cr.metadata.finalizers cr_edges_finalizer ≡ t
      → After (Stores shape stored (after_by d t cr)) m s
      → After (Stores shape stored (after_one (some cr))) m s
  lands cr d t m s deletion tag =
      subst (λ x. After (Stores shape stored x) m s)
        (next_by-next shape (not (gate_of r.platform_config_name config).paused) (tagged lib)
          closes.to pushes.to cr deletion tag)

  finalize-Stores :
      (cr : SegmentationPolicy) (at : ℕ) (s : Run W)
      → cr.metadata.deletion_timestamp ≡ some at
      → stored s.world ≡ some cr
      → After
          (Stores shape stored (after_one (some cr)))
          (finalize lib policies configs plane r cr)
          s
  unfolding finalize
  finalize-Stores cr at s d h =
      let test = lib.contains_finalizer_lem cr.metadata.finalizers cr_edges_finalizer in
      After-if (not (lib.contains_finalizer cr.metadata.finalizers cr_edges_finalizer))
        (λ without.
          let test' : contains cr.metadata.finalizers cr_edges_finalizer ≡ false =
            ground (arith, test) in
          lands cr _ _ _ s d test' (After-pure _ h))
        λ with_it.
          let test' : contains cr.metadata.finalizers cr_edges_finalizer ≡ true =
            ground (arith, test) in
          After-known shape stored _ _ _ (steady.on_close _ _ _)
            (λ s' e. lands cr _ _ _ s' d test' (closes.puts cr s' (e ∙ h)))

  gated-Stores :
      (cr : SegmentationPolicy) (s : Run W) (paused : Bool)
      → (gate_of r.platform_config_name config).paused ≡ paused
      → stored s.world ≡ some cr
      → After
          (Stores shape stored (some (pushes.to cr)))
          (past_gate lib policies configs plane r (gate_of r.platform_config_name config) paused cr)
          s
  gated-Stores cr s paused e h =
      subst
        (λ b.
          After (Stores shape stored (some (pushes.to cr)))
            (past_gate lib policies configs plane r (gate_of r.platform_config_name config) b cr) s)
        e (pushes.puts cr s h)

  reconcile_live-Stores :
      (cr : SegmentationPolicy) (s : Run W)
      → cr.metadata.deletion_timestamp ≡ none
      → stored s.world ≡ some cr
      → After
          (Stores shape stored (after_one (some cr)))
          (reconcile_live lib policies configs plane r cr)
          s
  unfolding reconcile_live reconcile_unpaused gate_of
  reconcile_live-Stores cr s d h =
      After-steady_gate shape stored configs r.platform_config_name _ (steady.on_config _) λ s' e.
        let test = lib.contains_finalizer_lem cr.metadata.finalizers cr_edges_finalizer in
        After-if (gate_of r.platform_config_name config).paused
          (λ on. lands cr _ _ _ s' d refl (rw on (gated-Stores cr s' true on (e ∙ h))))
          λ off.
            After-if (lib.contains_finalizer cr.metadata.finalizers cr_edges_finalizer)
              (λ with_it.
                let test' : contains cr.metadata.finalizers cr_edges_finalizer ≡ true =
                  ground (arith, test) in
                lands cr _ _ _ s' d test' (rw off (gated-Stores cr s' false off (e ∙ h))))
              λ without.
                let test' : contains cr.metadata.finalizers cr_edges_finalizer ≡ false =
                  ground (arith, test) in
                After-known shape stored _ _ _
                  (steady.on_add cr (lib.add_finalizer cr.metadata.finalizers cr_edges_finalizer) _
                    (e ∙ h) d)
                  (λ s'' e'.
                    lands cr _ _ _ s'' d test'
                      (rw off (gated-Stores (tagged lib cr) s'' false off e')))

  reconcile_missing-Stores :
      (w : W)
      → stored w ≡ none
      → After (Stores shape stored none) (reconcile lib policies configs plane r key) (start w)
  unfolding reconcile
  reconcile_missing-Stores w gone =
      After-known shape stored _ _ _ (steady.on_missing w gone) λ s' e. After-pure _ e

  reconcile_found-Stores :
      (w : W) (cr : SegmentationPolicy)
      → stored w ≡ some cr
      → After
          (Stores shape stored (after_one (some cr)))
          (reconcile lib policies configs plane r key)
          (start w)
  unfolding reconcile
  reconcile_found-Stores w cr there =
      After-known shape stored _ _ _ (steady.on_get cr w there) λ s' e.
        After-option cr.metadata.deletion_timestamp (λ at d. finalize-Stores cr at s' d e)
          (λ d. reconcile_live-Stores cr s' d e)

  reconcile-Stores :
      (w : W)
      → stored (reconcile lib policies configs plane r key (start w)).1.world ≡ after_one (stored w)
  reconcile-Stores w = elim (Option-cases (stored w)) [
    | inl gone ↦ (reconcile_missing-Stores w gone).holds ∙ ap after_one (sym gone)
    | inr (cr, there) ↦ (reconcile_found-Stores w cr there).holds ∙ ap after_one (sym there)
  ]

  after_one-IsTame :
      IsTame shape
        (not (gate_of r.platform_config_name config).paused)
        (tagged lib)
        closes.to
        pushes.to
  after_one-IsTame = record {
    closes_left = closes.left;
    pushes_metadata = pushes.same;
    pushes_again = pushes.again;
    add_deletion = λ cr. refl;
    add_tagged = λ cr. ground (
      arith,
      lib.contains-add_finalizer cr.metadata.finalizers cr_edges_finalizer cr_edges_finalizer,
      eq_iff cr_edges_finalizer cr_edges_finalizer,
    );
  }

  rounds-Stores :
      (n : ℕ) (w : W)
      → stored (rounds lib policies configs plane r key (suc n) w)
        ≡ stored (rounds lib policies configs plane r key 1 w)
  rounds-Stores zero w = refl
  rounds-Stores (suc n) w =
      reconcile-Stores (rounds lib policies configs plane r key (suc n) w)
      ∙ ap after_one (reconcile-Stores (rounds lib policies configs plane r key n w))
      ∙ next-next shape (not (gate_of r.platform_config_name config).paused) (tagged lib) closes.to
          pushes.to after_one-IsTame (stored (rounds lib policies configs plane r key n w))
      ∙ sym (reconcile-Stores (rounds lib policies configs plane r key n w))
      ∙ rounds-Stores n w

module _ {W : Type 0} (lib : Apimachinery) (policies : KubeClient W SegmentationPolicy)
    (configs : KubeClient W PlatformConfig) (plane : ControlPlane W)
    (r : SegmentationPolicyReconciler) (key : NamespacedName)
    (stored : W → Option SegmentationPolicy) (config : Result PlatformConfig)
    (close : Result CloseResult)
    (steady : IsSteady shape stored policies configs r.platform_config_name key
      (plane.close_cr_edges cr_kind_segmentation_policy r.cluster_id)
      config
      close)
    (answer : Result ReconcileResult)
    (answers : (ns name : String) (spec : Wire.SegmentationPolicySpec) (w : W)
      → Gives shape stored
          (plane.reconcile_segmentation_policy r.cluster_id ns name spec w)
          answer
          (stored w)) where
  -- Where nobody else acts on the policy, the API server is that of a resource with a status
  -- subresource (a status update takes the status, an update the finalizers, and an object that is
  -- being deleted goes with its last finalizer), and the configuration, the close call and the
  -- reconcile call are answered alike each time: the first Reconcile brings what is stored, the object
  -- with its finalizers and its whole status or none, to where every number of further ones leaves it.
  pub rounds-settle :
      (n : ℕ) (w : W)
      → stored (rounds lib policies configs plane r key (suc n) w)
        ≡ stored (rounds lib policies configs plane r key 1 w)
  rounds-settle =
      rounds-Stores lib policies configs plane r key stored config close steady
        (finalize_answer-Closes lib policies configs plane r key stored config close steady answer
          answers close)
        (past_gate-Settles lib policies configs plane r key stored config close steady answer
          answers (gate_of r.platform_config_name config))
