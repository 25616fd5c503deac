-- ===== src/Startup/Unconfigured.antt =====
-- cmd/main.go, internal/backendclient/client.go and internal/controller: an operator that is started
-- with a setting missing, as a policy sees it.
use k8boss_operator.Prelude.{String, ◌≡◌, refl, List, ◌∷◌, ℤ}
use k8boss_operator.Api.{SegmentationPolicy, PlatformConfig, NamespacedName}
use k8boss_operator.Backend.Errors.{ok, unconfigured, is_unconfigured}
use k8boss_operator.Backend.Transport.{Client, Http, do_request}
use k8boss_operator.Backend.Calls.{client_calls}
use k8boss_operator.Kube.{KubeClient, Apimachinery, start}
use k8boss_operator.Common.Willing.{IsServing}
use k8boss_operator.Segmentation.{snapshot, reconcile}
use k8boss_operator.Segmentation.Refused.{IsRefusing, IsHeldOff, reconcile-IsHeldOff}
use k8boss_operator.Startup.{Settings, main}

client_calls-IsRefusing :
    {W : Type 0} (http : Http W) (c : Client) (id : ℤ) (setting : String) (more : List String)
    → c.missing ≡ setting ∷ more
    → IsRefusing (client_calls http c) id (unconfigured (setting ∷ more))
unfolding client_calls do_request is_unconfigured
client_calls-IsRefusing http c id setting more h = record {
  says = refl;
  on_reconcile = λ n m spec w. rw h refl;
  on_close = λ n m w. rw h refl;
}

module _ {W : Type 0} (lib : Apimachinery) (policies : KubeClient W SegmentationPolicy)
    (configs : KubeClient W PlatformConfig) (http : Http W) where
  -- An operator that main builds with a setting missing, on an API server where no call fails and with
  -- the kill switch off: one Reconcile of a policy that the API server has ends as follows. The policy is
  -- not being deleted: its reconcile call was refused with the missing settings, the status written last
  -- has Ready=False with reason AwaitingConfiguration for the object's generation, and the next look is
  -- after 300 s. It is being deleted: the close call was refused likewise and the finalizer was taken
  -- off, or there was none, and no other look is asked for.
  pub main-IsHeldOff :
      (atoi_error : String → String) (s : Settings) (setting : String) (more : List String)
      (key : NamespacedName) (w w' : W) (cr : SegmentationPolicy)
      → IsServing policies configs
      → (main atoi_error s).backend.missing ≡ setting ∷ more
      → policies.get key w ≡ (ok cr, w')
      → let operator = main atoi_error s in
        let (outcome, run) =
          reconcile lib policies configs
            (client_calls http operator.backend)
            operator.segmentation
            key
            (start w) in
        IsHeldOff (unconfigured (setting ∷ more)) (snapshot cr) outcome run.log
  main-IsHeldOff atoi_error s setting more key w w' cr serving missing found =
      let operator = main atoi_error s in
      reconcile-IsHeldOff lib policies configs (client_calls http operator.backend)
        operator.segmentation (unconfigured (setting ∷ more)) serving
        (client_calls-IsRefusing http operator.backend operator.segmentation.cluster_id setting more
          missing)
        key w w' cr found
