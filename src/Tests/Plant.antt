-- ===== src/Tests/Plant.antt =====
-- A cluster with one policy of each kind and a kill switch, under an operator with its settings.
use k8boss_operator.Prelude.{
  ap, String, ◌≡◌, refl, arith, Bool, true, false, some, none, pos, contains, if◌then◌else◌,
}
use k8boss_operator.Api.{PlatformConfig}
use k8boss_operator.Backend.Errors.{Result, ok, err, kube, not_found}
use k8boss_operator.Common.Gate.{IsOff}
use k8boss_operator.Kube.{start, ◌>>=◌, ask, pure}
use k8boss_operator.Segmentation
use k8boss_operator.Runtime
use k8boss_operator.Platform
use k8boss_operator.Common.{cr_edges_finalizer, check_pause_gate, gate_of}
use k8boss_operator.Common.Stopped.{Switch, IsStill}
use k8boss_operator.Startup.{Settings, Operator, main}
use k8boss_operator.System.{Outside, here, after, segmentation, runtime, platform, elsewhere}
use k8boss_operator.System.KillSwitch.{IsStoppable, Reaches-IsStill}
use k8boss_operator.Tests.Cluster.{
  apimachinery, web_key, leaving_policy, tracing_policy, default_config, converged,
}

pub record Plant : Type 0 where
  pub paused : Bool
  pub edges : Bool
  pub finalizer : Bool

abbrev pub switch : Switch Plant
switch = record { on = λ w. w.paused; has_edge = λ w edge. w.edges }

abbrev pub outside : Outside Plant
outside = record {
  segmentation_policies = record {
    get = λ name w. (if w.finalizer then ok leaving_policy else err (kube not_found "gone"), w);
    update =
        λ o w. (ok o, record w { finalizer = contains o.metadata.finalizers cr_edges_finalizer });
    update_status = λ o w. (ok o, w);
  };
  runtime_policies = record {
    get = λ name w. (ok tracing_policy, w);
    update =
        λ o w. (ok o, record w { finalizer = contains o.metadata.finalizers cr_edges_finalizer });
    update_status = λ o w. (ok o, w);
  };
  configs = record {
    get = λ name w.
        (ok (record default_config { spec = record default_config.spec { paused = w.paused } }), w);
    update = λ o w. (ok o, record w { paused = o.spec.paused });
    update_status = λ o w. (ok o, w);
  };
  plane = record {
    reconcile_segmentation_policy = λ id ns name spec w. (ok converged, record w { edges = true });
    reconcile_runtime_security_policy =
        λ id ns name spec w. (ok converged, record w { edges = true });
    close_cr_edges = λ kind id ns name w. (
      ok (record { status = "ok"; edges_closed = pos 2; unverified_edge_keys = none }),
      record w { edges = false },
    );
    set_paused = λ paused by w. (
      ok (record { paused = paused; updated_at = none; updated_by = some by; ever_set = true }),
      w,
    );
    get_paused = λ w.
        (ok (record { paused = false; updated_at = none; updated_by = none; ever_set = false }), w);
    provider_health = λ id w. (ok (record { cluster_id = id; providers = none }), w);
  };
}

abbrev no_detail : String → String
no_detail raw = "invalid syntax"

abbrev plant_settings : Settings
plant_settings = record {
  backend_url = "https://plane/";
  cluster_id = "42";
  operator_token = "t";
  platform_config_name = "default";
}

-- What the read of the configuration answers while the switch is on.
get-shut :
    (w w' : Plant) (a : Result PlatformConfig)
    → outside.configs.get (record { namespace = ""; name = "default" }) w ≡ (a, w')
    → w.paused ≡ true
    → ¬ IsOff a
get-shut w w' (ok pc) e on off = ground (arith, ap (λ (p : Result PlatformConfig × Plant). p.0) e)
get-shut w w' (err x) e on off = off

plant-IsStoppable : IsStoppable switch outside (main no_detail plant_settings) "default"
plant-IsStoppable = record {
  segmentation = record {
    on_get = λ key w w' a e. (ground arith, λ edge. ground arith);
    on_update = λ o w w' a e. (ground arith, λ edge. ground arith);
    on_status = λ o w w' a e. (ground arith, λ edge. ground arith);
    on_close = λ ns name w w' a e. (ground arith, λ edge. ground arith);
  };
  runtime = record {
    on_get = λ key w w' a e. (ground arith, λ edge. ground arith);
    on_update = λ o w w' a e. (ground arith, λ edge. ground arith);
    on_status = λ o w w' a e. (ground arith, λ edge. ground arith);
    on_close = λ ns name w w' a e. (ground arith, λ edge. ground arith);
  };
  platform = record {
    on_get = λ key w w' a e. (ground arith, λ edge. ground arith);
    on_status = λ o w w' a e. (ground arith, λ edge. ground arith);
    on_paused = λ paused by w w' a e. (ground arith, λ edge. ground arith);
    on_health = λ w w' a e. (ground arith, λ edge. ground arith);
  };
  switch = record {
    on_read = λ w w' a e. ((ground arith, λ edge. ground arith), get-shut w w' a e);
  };
}

-- The switch is on, and a policy that is being deleted still has its edges.
abbrev at_start : Plant
at_start = record { paused = true; edges = true; finalizer = true }

abbrev operator : Operator
operator = main no_detail plant_settings

abbrev closed : Plant
closed =
    (Segmentation.reconcile apimachinery outside.segmentation_policies outside.configs outside.plane
      operator.segmentation web_key (start at_start)).1.world

abbrev withheld : Plant
withheld =
    (Runtime.reconcile apimachinery outside.runtime_policies outside.configs outside.plane
      operator.runtime web_key (start closed)).1.world

abbrev synced : Plant
synced =
    (Platform.reconcile apimachinery outside.configs outside.plane operator.platform 12 web_key
      (start withheld)).1.world

-- Each of the controllers works once, and then a user puts the finalizer back.
Reaches-IsStill_example : IsStill switch at_start (record synced { finalizer = true })
Reaches-IsStill_example =
    Reaches-IsStill apimachinery outside no_detail plant_settings switch plant-IsStoppable at_start
      (record synced { finalizer = true }) refl
      (after
        (after (after (after here (segmentation web_key at_start)) (runtime web_key closed))
          (platform 12 web_key withheld))
        (elsewhere (λ on. on, λ edge open_now. open_now)))

plant_run : (closed.edges ≡ false) × (synced.edges ≡ false) × (synced.paused ≡ true)
unfolding Segmentation.reconcile Runtime.reconcile Platform.reconcile main ◌>>=◌ ask pure
    Segmentation.finalize Segmentation.finalize_answer Segmentation.release
    Platform.reconcile_singleton Platform.paused_answer Platform.health_answer
    Runtime.reconcile_live check_pause_gate gate_of Runtime.not_ready
plant_run = (refl, refl, refl)
