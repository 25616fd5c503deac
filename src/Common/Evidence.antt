-- ===== src/Common/Evidence.antt =====
-- What the log of one reconcile must show before each of its effects: the vocabulary of the safety
-- statements about the two policy reconcilers.
use k8boss_operator.Prelude.{
  String, ◌≡◌, ap, ◌⊎◌, Bool, true, false, ◌||◌, ◌&&◌, not, Option, none, some, List, [], ◌∷◌, ◌==◌,
  contains, items, ℤ,
}
use k8boss_operator.Api.{
  Condition, ConditionStatus, condition_true, condition_false, condition_unknown,
}
use k8boss_operator.Backend.Errors.{ok, err, is_unconfigured}
use k8boss_operator.Backend.Wire.{ReconcileResult, CloseResult}
use k8boss_operator.Kube.{
  Apimachinery, Snapshot, Event, fetched, fetched_config, updated, status_updated, reconciled,
  closed, find_condition,
}
use k8boss_operator.Common.{cr_edges_finalizer, condition_ready, set_condition}

abbrev pub is_true : ConditionStatus → Bool
is_true condition_true = true
is_true condition_false = false
is_true condition_unknown = false

abbrev pub stands : Option Condition → Bool
stands none = false
stands (some c) = is_true c.status

-- Whether the Ready condition stands at True.
abbrev pub is_ready : List Condition → Bool
is_ready cs = stands (find_condition condition_ready cs)

abbrev pub has_finalizer : Snapshot → Bool
has_finalizer s = contains s.metadata.finalizers cr_edges_finalizer

-- Whether the log shows a PlatformConfig that was read with spec.paused=false.
abbrev pub unpaused_seen : List Event → Bool
unpaused_seen [] = false
unpaused_seen (fetched_config name (ok pc) ∷ es) = not pc.spec.paused || unpaused_seen es
unpaused_seen (e ∷ es) = unpaused_seen es

-- Whether the log shows the finalizer on the server's object: read there, or written without error.
abbrev pub finalizer_seen : List Event → Bool
finalizer_seen [] = false
finalizer_seen (fetched name (ok s) ∷ es) = has_finalizer s || finalizer_seen es
finalizer_seen (updated s (ok t) ∷ es) = has_finalizer s || finalizer_seen es
finalizer_seen (e ∷ es) = finalizer_seen es

-- Every event of the log is justified by those before it.
abbrev pub Every : (Event → List Event → Type 0) → List Event → Type 0
Every J [] = Unit
Every J (e ∷ es) = J e es × Every J es

-- A reconcile call: the kill switch was read as off, and the finalizer was in place.
abbrev pub IsGuarded : Event → List Event → Type 0
IsGuarded (reconciled id ns name answer) es = (unpaused_seen es ≡ true) × (finalizer_seen es ≡ true)
IsGuarded e es = Unit

-- A close call answered that every edge is confirmed closed.
abbrev pub is_closed : CloseResult → Bool
is_closed res =
    res.status == "ok" && (elim (items res.unverified_edge_keys) [ [] ↦ true | k ∷ ks ↦ false ])

-- The call just made is a close that confirmed, or one that was never attempted since nothing was
-- configured.
abbrev pub close_settled : List Event → Bool
close_settled (closed kind id ns name (ok res) ∷ es) = is_closed res
close_settled (closed kind id ns name (err e) ∷ es) = is_unconfigured e
close_settled es = false

-- An Update of the object either leaves the finalizer on it, or comes right after a settled close.
abbrev pub IsRelease : Event → List Event → Type 0
IsRelease (updated s answer) es = (has_finalizer s ≡ true) ⊎ (close_settled es ≡ true)
IsRelease e es = Unit

module _ (Confirms : ReconcileResult → Type 0) where
  -- The call just made is a reconcile whose answer confirms the write.
  abbrev pub IsConfirmed : List Event → Type 0
  IsConfirmed (reconciled id ns name (ok res) ∷ es) = Confirms res
  IsConfirmed es = ⊥

  -- A status that says Ready is written only right after a confirmed reconcile, and for the
  -- generation that was reconciled.
  abbrev pub IsBacked : Event → List Event → Type 0
  IsBacked (status_updated s answer) es =
      is_ready s.conditions ≡ true
      → IsConfirmed es × (s.observed_generation ≡ s.metadata.generation)
  IsBacked e es = Unit

module _ (lib : Apimachinery) where
  pub is_ready-set_condition :
      (cs : List Condition) (generation : ℤ) (status : ConditionStatus) (reason message : String)
      → is_ready (set_condition lib cs generation condition_ready status reason message)
        ≡ is_true status
  unfolding set_condition
  is_ready-set_condition cs generation status reason message =
      ap stands (lib.find_condition-set_status_condition condition_ready cs _)
