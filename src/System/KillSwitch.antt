-- ===== src/System/KillSwitch.antt =====
-- The operator as a whole, while the kill switch is on.
use k8boss_operator.Prelude.{String, ◌≡◌, true}
use k8boss_operator.Kube.{Apimachinery}
use k8boss_operator.Common.Stopped.{
  Switch, IsCalm, IsStill, IsStill-start, IsStill-calm, IsStill-trans, IsCalmFor, IsShutFor,
}
use k8boss_operator.Segmentation.{cr_kind_segmentation_policy}
use k8boss_operator.Segmentation.Stopped.{reconcile-IsStill}
use k8boss_operator.Runtime.{cr_kind_runtime_security_policy}
use k8boss_operator.Runtime.Stopped.{reconcile_runtime-IsStill}
use k8boss_operator.Platform.Stopped.{IsCalmPlatform, reconcile_platform-IsStill}
use k8boss_operator.Startup.{Settings, Operator, main}
use k8boss_operator.System.{
  Outside, Reaches, here, after, segmentation, runtime, platform, elsewhere,
}

-- What is relied on of the outside. No answer of the control plane is relied on, and nothing at all of
-- its two reconcile calls.
pub record IsStoppable {W : Type 0} (seen : Switch W) (outside : Outside W) (operator : Operator)
    (name : String) : Type 0 where
  pub segmentation :
      IsCalmFor seen outside.segmentation_policies
        (outside.plane.close_cr_edges cr_kind_segmentation_policy operator.segmentation.cluster_id)
  pub runtime :
      IsCalmFor seen outside.runtime_policies
        (outside.plane.close_cr_edges cr_kind_runtime_security_policy operator.runtime.cluster_id)
  pub platform : IsCalmPlatform seen outside.configs outside.plane operator.platform.cluster_id
  pub switch : IsShutFor seen outside.configs name

module _ {W : Type 0} (lib : Apimachinery) (outside : Outside W) (atoi_error : String → String)
    (settings : Settings) (seen : Switch W) where
  -- The operator that main builds from these settings, on a cluster and a control plane that behave as
  -- `IsStoppable` says, with the kill switch of the PlatformConfig that the settings name on, or that
  -- PlatformConfig absent. However many objects its three controllers reconcile, in whatever order and
  -- failing at whatever call, and whatever happens between that neither turns the switch off nor opens
  -- an edge: the switch stays on, and the graph has no open edge that it did not have at the start.
  pub Reaches-IsStill :
      IsStoppable seen outside (main atoi_error settings) settings.platform_config_name
      → (w w' : W) → seen.on w ≡ true
      → Reaches lib outside (main atoi_error settings) (IsCalm seen) w w'
      → IsStill seen w w'
  unfolding main
  Reaches-IsStill stop w w' h here = IsStill-start seen h
  Reaches-IsStill stop w w'' h (after before (segmentation key w')) =
      let still = Reaches-IsStill stop w w' h before in
      IsStill-trans seen still (
        reconcile-IsStill lib outside.segmentation_policies outside.configs outside.plane
          (main atoi_error settings).segmentation seen stop.segmentation stop.switch w' key
          still.on)
  Reaches-IsStill stop w w'' h (after before (runtime key w')) =
      let still = Reaches-IsStill stop w w' h before in
      IsStill-trans seen still (
        reconcile_runtime-IsStill lib outside.runtime_policies outside.configs outside.plane
          (main atoi_error settings).runtime seen stop.runtime stop.switch w' key still.on)
  Reaches-IsStill stop w w'' h (after before (platform now key w')) =
      let still = Reaches-IsStill stop w w' h before in
      IsStill-trans seen still (
        reconcile_platform-IsStill lib outside.configs outside.plane
          (main atoi_error settings).platform now seen stop.platform w' key still.on)
  Reaches-IsStill stop w w'' h (after before (elsewhere calm)) =
      IsStill-calm seen calm (Reaches-IsStill stop w _ h before)
