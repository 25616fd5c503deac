-- ===== src/Common/Protocol/Writes.antt =====
-- internal/controller/common.go, setCondition, and controllerutil's functions on finalizers: the writes
-- of a policy controller, and what each leaves as it was.
use k8boss_operator.Prelude.{
  String, ◌≡◌, ◌≢◌, refl, Bool, true, false, some, ◌==◌, arith, contains, if◌then◌else◌, ℤ, eq_iff,
}
use k8boss_operator.Api.{ConditionStatus, condition_true, condition_false}
use k8boss_operator.Kube.{Apimachinery, Snapshot, OwnStatus, find_condition}
use k8boss_operator.Common.{cr_edges_finalizer, condition_ready, set_condition}

-- Written for the object: its metadata and its spec as they were, this status in the Ready condition
-- for the object's generation, every other condition as it was, and this observed generation.
pub record IsWriteOf (status : ConditionStatus) (observed : ℤ) (o x : Snapshot) : Type 0 where
  pub metadata : x.metadata ≡ o.metadata
  pub spec : x.spec ≡ o.spec
  pub reason : String
  pub message : String
  pub ready :
      find_condition condition_ready x.conditions
      ≡ some (record {
        kind = condition_ready;
        status = status;
        reason = reason;
        message = message;
        observed_generation = o.metadata.generation;
      })
  pub others :
      (kind : String)
      → kind ≢ condition_ready
      → find_condition kind x.conditions ≡ find_condition kind o.conditions
  pub observed_generation : x.observed_generation ≡ observed

-- What the two kinds of status write are: one that is not Ready keeps the kind's own field too.
abbrev pub IsUnready : Snapshot → Snapshot → Type 0
IsUnready o x = IsWriteOf condition_false o.observed_generation o x × (x.own ≡ o.own)

abbrev pub IsReady : Snapshot → Snapshot → Type 0
IsReady o x = IsWriteOf condition_true o.metadata.generation o x

-- Updated for the object: as it was, but that our finalizer is there or not.
pub record IsTagged (tag : Bool) (o x : Snapshot) : Type 0 where
  pub others : x ≡ record o { metadata = record o.metadata { finalizers = x.metadata.finalizers } }
  pub finalizers :
      (f : String)
      → contains x.metadata.finalizers f
        ≡ (if f == cr_edges_finalizer then tag else contains o.metadata.finalizers f)

module _ (lib : Apimachinery) where
  -- What setCondition and the two functions on finalizers leave as it was
  pub IsWriteOf-set_condition :
      (o : Snapshot) (status : ConditionStatus) (reason message : String) (observed : ℤ)
      (own : OwnStatus)
      → IsWriteOf status observed o (record o {
        own = own;
        conditions =
            set_condition lib o.conditions o.metadata.generation condition_ready status reason
              message;
        observed_generation = observed;
      })
  unfolding set_condition
  IsWriteOf-set_condition o status reason message observed own = record {
    metadata = refl;
    spec = refl;
    reason = reason;
    message = message;
    ready = lib.find_condition-set_status_condition _ _ _;
    others = λ kind other. ground (
      arith,
      eq_iff kind condition_ready,
      lib.find_condition-set_status_condition kind o.conditions (record {
        kind = condition_ready;
        status = status;
        reason = reason;
        message = message;
        observed_generation = o.metadata.generation;
      }),
    );
    observed_generation = refl;
  }

  pub IsTagged-add_finalizer :
      (o : Snapshot)
      → IsTagged true o (record o {
        metadata = record o.metadata {
          finalizers = lib.add_finalizer o.metadata.finalizers cr_edges_finalizer;
        };
      })
  IsTagged-add_finalizer o = record {
    others = refl;
    finalizers = lib.contains-add_finalizer o.metadata.finalizers cr_edges_finalizer;
  }

  pub IsTagged-remove_finalizer :
      (o : Snapshot)
      → IsTagged false o (record o {
        metadata = record o.metadata {
          finalizers = lib.remove_finalizer o.metadata.finalizers cr_edges_finalizer;
        };
      })
  IsTagged-remove_finalizer o = record {
    others = refl;
    finalizers = lib.contains-remove_finalizer o.metadata.finalizers cr_edges_finalizer;
  }
