-- ===== src/Segmentation/Safety.antt =====
-- internal/controller/segmentationpolicy_controller.go: what one Reconcile may do, and after what.
use k8boss_operator.Prelude.{refl}
use k8boss_operator.Api.{condition_false, SegmentationPolicy, PlatformConfig, NamespacedName}
use k8boss_operator.Backend.Calls.{ControlPlane}
use k8boss_operator.Kube.{KubeClient, Apimachinery, start}
use k8boss_operator.Common.Evidence.{Every, IsGuarded, IsRelease, IsBacked, is_ready-set_condition}
use k8boss_operator.Segmentation.{
  SegmentationPolicyReconciler, not_ready_object, ready_object, reconcile,
}
use k8boss_operator.Segmentation.Steps.{Answers, reconcile-After}
use k8boss_operator.Segmentation.Confirmed.{IsConverged}

module _ {W : Type 0} (lib : Apimachinery) (policies : KubeClient W SegmentationPolicy)
    (configs : KubeClient W PlatformConfig) (plane : ControlPlane W)
    (r : SegmentationPolicyReconciler) where
  -- One Reconcile calls the control plane to reconcile the policy only after it has read a
  -- PlatformConfig with spec.paused=false and after the finalizer is known to be on the object: read
  -- there, or written there without error.
  pub reconcile-IsGuarded :
      (name : NamespacedName) (w : W)
      → Every IsGuarded (reconcile lib policies configs plane r name (start w)).1.log
  reconcile-IsGuarded name w =
      (reconcile-After lib policies configs plane r IsGuarded answers name w).holds
    where
      answers : Answers lib policies configs plane r IsGuarded
      answers = record {
        on_fetch = λ n a es. tt;
        on_config = λ n a es. tt;
        on_close = λ k n m a es. tt;
        on_reconcile = λ n m a es unpaused held. (unpaused, held);
        on_not_ready = λ cr reason message a es. tt;
        on_ready = λ cr gate res n m a es c. tt;
        on_update = λ s a es allowed. tt;
      }

  -- One Reconcile takes the finalizer off the object only right after a close call that answered
  -- "ok" with no unverified edge, or after one that was not attempted since nothing was configured.
  pub reconcile-IsRelease :
      (name : NamespacedName) (w : W)
      → Every IsRelease (reconcile lib policies configs plane r name (start w)).1.log
  reconcile-IsRelease name w =
      (reconcile-After lib policies configs plane r IsRelease answers name w).holds
    where
      answers : Answers lib policies configs plane r IsRelease
      answers = record {
        on_fetch = λ n a es. tt;
        on_config = λ n a es. tt;
        on_close = λ k n m a es. tt;
        on_reconcile = λ n m a es unpaused held. tt;
        on_not_ready = λ cr reason message a es. tt;
        on_ready = λ cr gate res n m a es c. tt;
        on_update = λ s a es allowed. allowed;
      }

  -- One Reconcile writes a status with Ready=True only right after a reconcile call that answered
  -- with a converged write (status "ok", no unverified edge, one edge for each matched workload), and
  -- with status.observedGeneration at the generation of the object.
  pub reconcile-IsBacked :
      (name : NamespacedName) (w : W)
      → Every (IsBacked IsConverged) (reconcile lib policies configs plane r name (start w)).1.log
  unfolding not_ready_object ready_object
  reconcile-IsBacked name w =
      (reconcile-After lib policies configs plane r (IsBacked IsConverged) answers name w).holds
    where
      answers : Answers lib policies configs plane r (IsBacked IsConverged)
      answers = record {
        on_fetch = λ n a es. tt;
        on_config = λ n a es. tt;
        on_close = λ k n m a es. tt;
        on_reconcile = λ n m a es unpaused held. tt;
        on_not_ready = λ cr reason message a es ready. cc (
          ready,
          is_ready-set_condition lib cr.status.conditions cr.metadata.generation condition_false
              reason message,
        );
        on_ready = λ cr gate res n m a es c ready. (c, refl);
        on_update = λ s a es allowed. tt;
      }
