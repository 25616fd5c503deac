-- ===== src/Common/Endings.antt =====
-- internal/controller/common.go: what a reconcile has said by the time it ends without an error, and
-- one rule for each way in which the policy reconcilers go on.
use k8boss_operator.Prelude.{
  ◌<◌, ◌≡◌, ◌≢◌, ◌⊎◌, refl, arith, inl, Bool, true, false, none, List, [], ◌∷◌, eqb,
}
use k8boss_operator.Api.{NamespacedName}
use k8boss_operator.Backend.Errors.{GoError, ok, err, is_not_found}
use k8boss_operator.Kube.{Event, fetched, updated, status_updated, Run, Act, pure, Outcome, failed}
use k8boss_operator.Common.{ignore_not_found, resync_interval}
use k8boss_operator.Common.Walk.{After, After-pure}
use k8boss_operator.Common.Evidence.{is_ready, has_finalizer}

-- The last step leaves nothing to do: the object is gone, or it is being deleted and its finalizer is
-- off.
abbrev pub IsFinished : List Event → Type 0
IsFinished (fetched n (err e) ∷ es) = is_not_found e ≡ true
IsFinished (fetched n (ok s) ∷ es) =
    (s.metadata.deletion_timestamp ≢ none) × (has_finalizer s ≡ false)
IsFinished (updated s (ok t) ∷ es) = has_finalizer s ≡ false
IsFinished es = ⊥

-- The last step wrote a status, without error, in which Ready stands as given.
abbrev pub IsReported : Bool → List Event → Type 0
IsReported ready (status_updated s (ok t) ∷ es) = is_ready s.conditions ≡ ready
IsReported ready es = ⊥

-- An outcome without an error either asks for no other round, and nothing is left to do, or it asks
-- for one and the status says why: Ready=True where the round is the resync, else no Ready=True.
abbrev pub IsAccounted : Outcome → List Event → Type 0
IsAccounted out es =
    out.error ≡ none
    → ((out.requeue_after ≡ 0) × IsFinished es)
      ⊎ ((0 < out.requeue_after) × IsReported (eqb out.requeue_after resync_interval) es)

-- The outcome is accounted for by the log.
abbrev pub Accounted : {W : Type 0} → Outcome → Run W → Type 0
Accounted out s = IsAccounted out s.log

-- The action, from this state, ends accounted for.
abbrev pub Ends : {W : Type 0} → Act W Outcome → Run W → Type 0
Ends m s = After Accounted m s

pub After-failed : {W : Type 0} (e : GoError) {s : Run W} → Ends (pure (failed e)) s
After-failed e = After-pure _ (λ h. ground (arith, h))

-- A failed read ends the reconcile, without an error only where the object is gone.
pub IsAccounted-unread :
    (e : GoError) (key : NamespacedName)
    → IsAccounted
        (record { requeue_after = 0; error = ignore_not_found e })
        (fetched key (err e) ∷ [])
unfolding ignore_not_found
IsAccounted-unread e key h = inl (refl, ground (arith, h))
