-- ===== src/Tests/Rounds.antt =====
-- Rounds of Reconcile on a cluster that stores one policy, with a status subresource, and answers alike
-- each time.
use k8boss_operator.Prelude.{
  ℕ, String, ◌≡◌, refl, sym, ◌∙◌, ap, subst, true, false, Option, none, some, pos, List,
}
use k8boss_operator.Api.{SegmentationPolicy, RuntimeSecurityPolicy, PlatformConfig}
use k8boss_operator.Backend.Errors.{Result, ok, err, kube, not_found}
use k8boss_operator.Backend.Wire.{CloseResult}
use k8boss_operator.Backend.Calls.{ControlPlane}
use k8boss_operator.Kube.{KubeClient}
use k8boss_operator.Common.Steady.{IsSteady, Shape, Gives, lands, deletion_of}
use k8boss_operator.Segmentation.{cr_kind_segmentation_policy}
use k8boss_operator.Segmentation.Again.{rounds, rounds-settle}
use k8boss_operator.Segmentation.Again.Parts
use k8boss_operator.Runtime.{cr_kind_runtime_security_policy}
use k8boss_operator.Runtime.Again.{rounds as runtime_rounds, rounds_runtime-settle}
use k8boss_operator.Runtime.Again.Parts as RuntimeParts
use k8boss_operator.Tests.Cluster.{
  apimachinery, segmentation_reconciler, runtime_reconciler, web_key, web_policy,
  leaving_tracing_policy, default_config, converged,
}

-- A server for the objects of one kind. `updated` is what an update makes of the stored object, and
-- `with_status_of` what a status update does.
module _ {Obj Status : Type 0} (shape : Shape Obj Status)
    (updated with_status_of : Obj → Obj → Obj) where
  abbrev read : Option Obj → Result Obj × Option Obj
  read none = (err (kube not_found "gone"), none)
  read (some old) = (ok old, some old)

  abbrev write : Obj → Option Obj → Result Obj × Option Obj
  write new none = (err (kube not_found "gone"), none)
  write new (some old) = (ok (updated new old), lands shape (updated new old))

  abbrev write_status : Obj → Option Obj → Result Obj × Option Obj
  write_status new none = (err (kube not_found "gone"), none)
  write_status new (some old) = (ok (with_status_of new old), some (with_status_of new old))

  abbrev storing : KubeClient (Option Obj) Obj
  storing = record { get = λ name. read; update = write; update_status = write_status }

abbrev configs : {Obj : Type 0} → KubeClient (Option Obj) PlatformConfig
configs = record {
  get = λ name o. (ok default_config, o);
  update = λ new o. (ok new, o);
  update_status = λ new o. (ok new, o);
}

-- A close that is confirmed
abbrev closed : CloseResult
closed = record { status = "ok"; edges_closed = pos 1; unverified_edge_keys = none }

abbrev plane : {Obj : Type 0} → ControlPlane (Option Obj)
plane = record {
  reconcile_segmentation_policy = λ id ns name spec o. (ok converged, o);
  reconcile_runtime_security_policy = λ id ns name spec o. (ok converged, o);
  close_cr_edges = λ kind id ns name o. (ok closed, o);
  set_paused = λ paused by o. (
    ok (record { paused = paused; updated_at = none; updated_by = some by; ever_set = true }),
    o,
  );
  get_paused = λ o.
      (ok (record { paused = false; updated_at = none; updated_by = none; ever_set = false }), o);
  provider_health = λ id o. (ok (record { cluster_id = id; providers = none }), o);
}

module _ {Obj Status : Type 0} (shape : Shape Obj Status) (updated with_status_of : Obj → Obj → Obj)
    (updated_lem : (o : Obj) (fs : List String)
      → updated (shape.with_finalizers o fs) o ≡ shape.with_finalizers o fs)
    (with_status_of_lem : (o : Obj) (status : Status)
      → with_status_of (shape.with_status o status) o ≡ shape.with_status o status)
    (deletion_lem : (o : Obj) (fs : List String)
      → deletion_of shape (shape.with_finalizers o fs) ≡ deletion_of shape o)
    (name : String) (kind : String) where
  abbrev holds : Option Obj → Option Obj
  holds w = w

  landed : (o : Obj) → deletion_of shape o ≡ none → lands shape o ≡ some o
  landed o d = rw d refl

  steady :
      IsSteady shape holds
        (storing shape updated with_status_of)
        configs
        name
        web_key
        (plane.close_cr_edges kind (pos 7))
        (ok default_config)
        (ok closed)
  steady = record {
    on_get = λ o w h.
        subst (λ v. Gives shape holds (read shape updated with_status_of v) (ok o) (some o)) (sym h)
          (record { says = refl; stores = refl });
    missing = kube not_found "gone";
    on_missing = λ w h.
        subst
          (λ v.
            Gives shape holds (read shape updated with_status_of v) (err (kube not_found "gone"))
              none)
          (sym h) (record { says = refl; stores = refl });
    on_add = λ o fs w h d.
        subst
          (λ v.
            Gives shape holds (write shape updated with_status_of (shape.with_finalizers o fs) v)
              (ok (shape.with_finalizers o fs)) (some (shape.with_finalizers o fs)))
          (sym h)
          (record {
            says = ap ok (updated_lem o fs);
            stores = ap (lands shape) (updated_lem o fs) ∙ landed _ (deletion_lem o fs ∙ d);
          });
    on_remove = λ o fs w h fewer.
        subst
          (λ v.
            Gives shape holds (write shape updated with_status_of (shape.with_finalizers o fs) v)
              (ok (shape.with_finalizers o fs)) (lands shape (shape.with_finalizers o fs)))
          (sym h)
          (record {
            says = ap ok (updated_lem o fs);
            stores = ap (lands shape) (updated_lem o fs);
          });
    on_status = λ o status w h.
        subst
          (λ v.
            Gives shape holds
              (write_status shape updated with_status_of (shape.with_status o status) v)
              (ok (shape.with_status o status)) (some (shape.with_status o status)))
          (sym h)
          (record {
            says = ap ok (with_status_of_lem o status);
            stores = ap some (with_status_of_lem o status);
          });
    on_config = λ w. record { says = refl; stores = refl };
    on_close = λ ns called w. record { says = refl; stores = refl };
  }

abbrev segmentation_client : KubeClient (Option SegmentationPolicy) SegmentationPolicy
segmentation_client =
    storing Parts.shape (λ new old. record new { status = old.status })
      (λ new old. record old { status = new.status })

abbrev segmentation_after : ℕ → Option SegmentationPolicy
segmentation_after n =
    rounds apimachinery segmentation_client configs plane segmentation_reconciler web_key n
      (some web_policy)

rounds-settle_example : segmentation_after 3 ≡ segmentation_after 1
rounds-settle_example =
    rounds-settle apimachinery segmentation_client configs plane segmentation_reconciler web_key
      (λ w. w) (ok default_config) (ok closed)
      (steady Parts.shape _ _ (λ o fs. refl) (λ o status. refl) (λ o fs. refl)
        segmentation_reconciler.platform_config_name cr_kind_segmentation_policy)
      (ok converged) (λ ns name spec w. record { says = refl; stores = refl }) 2 (some web_policy)

abbrev runtime_client : KubeClient (Option RuntimeSecurityPolicy) RuntimeSecurityPolicy
runtime_client =
    storing RuntimeParts.shape (λ new old. record new { status = old.status })
      (λ new old. record old { status = new.status })

abbrev runtime_after : ℕ → Option RuntimeSecurityPolicy
runtime_after n =
    runtime_rounds apimachinery runtime_client configs plane runtime_reconciler web_key n
      (some leaving_tracing_policy)

rounds_runtime-settle_example : runtime_after 3 ≡ runtime_after 1
rounds_runtime-settle_example =
    rounds_runtime-settle apimachinery runtime_client configs plane runtime_reconciler web_key
      (λ w. w) (ok default_config) (ok closed)
      (steady RuntimeParts.shape _ _ (λ o fs. refl) (λ o status. refl) (λ o fs. refl)
        runtime_reconciler.platform_config_name cr_kind_runtime_security_policy)
      (ok converged) (λ ns name spec w. record { says = refl; stores = refl }) 2
      (some leaving_tracing_policy)
