-- ===== src/System.antt =====
-- The operator as a whole: the three controllers that cmd/main.go sets up, at work on one cluster and
-- one control plane, in any order, with whatever users and other clients do between them.
pub mod KillSwitch
use k8boss_operator.Prelude.{ℕ}
use k8boss_operator.Api.{SegmentationPolicy, RuntimeSecurityPolicy, PlatformConfig, NamespacedName}
use k8boss_operator.Backend.Calls.{ControlPlane}
use k8boss_operator.Kube.{KubeClient, Apimachinery, start}
use k8boss_operator.Segmentation
use k8boss_operator.Runtime
use k8boss_operator.Platform
use k8boss_operator.Startup.{Operator}

-- What the controllers work on
pub record Outside (W : Type 0) : Type 0 where
  pub segmentation_policies : KubeClient W SegmentationPolicy
  pub runtime_policies : KubeClient W RuntimeSecurityPolicy
  pub configs : KubeClient W PlatformConfig
  pub plane : ControlPlane W

module _ {W : Type 0} (lib : Apimachinery) (outside : Outside W) (operator : Operator)
    (Elsewhere : W → W → Type 0) where
  -- A Reconcile of some object by its controller, or something else.
  pub data Step : W → W → Type 0 where
    segmentation :
        (key : NamespacedName) (w : W)
        → Step w
            (Segmentation.reconcile lib outside.segmentation_policies outside.configs outside.plane
              operator.segmentation key
              (start w)).1.world
    runtime :
        (key : NamespacedName) (w : W)
        → Step w
            (Runtime.reconcile lib outside.runtime_policies outside.configs outside.plane
              operator.runtime key
              (start w)).1.world
    platform :
        (now : ℕ) (key : NamespacedName) (w : W)
        → Step w
            (Platform.reconcile lib outside.configs outside.plane operator.platform now key
              (start w)).1.world
    elsewhere : {w w' : W} → Elsewhere w w' → Step w w'

  pub data Reaches : W → W → Type 0 where
    here : {w : W} → Reaches w w
    after : {w w' w'' : W} → Reaches w w' → Step w' w'' → Reaches w w''
