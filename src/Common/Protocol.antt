-- ===== src/Common/Protocol.antt =====
-- internal/controller: the exchange of one Reconcile of a policy with the API server and the control
-- plane, call by call.
pub mod Writes
use Writes.{IsUnready, IsReady, IsTagged}
use k8boss_operator.Prelude.{
  ℕ, ◌≤◌, String, ◌≡◌, Bool, true, false, none, some, List, [], ◌∷◌, arith, length, ℤ,
}
use k8boss_operator.Api.{NamespacedName, PlatformConfig}
use k8boss_operator.Backend.Errors.{GoError, Result, ok, err, is_unconfigured}
use k8boss_operator.Backend.Wire.{ReconcileResult, CloseResult}
use k8boss_operator.Kube.{
  Snapshot, Spec, SentSpec, Event, fetched, fetched_config, updated, status_updated, reconciled,
  closed,
}
use k8boss_operator.Common.Evidence.{is_closed, has_finalizer}
use k8boss_operator.Common.Gate.{IsOff}

-- Whether a close call leaves no edge open, or was never sent.
abbrev pub is_settled : Result CloseResult → Bool
is_settled (ok res) = is_closed res
is_settled (err e) = is_unconfigured e

-- How far a Reconcile has come, with the object as the API server has last given it.
pub data Phase : Type 0 where
  begun : Phase
  seen : Snapshot → Phase
  closing : Snapshot → Result CloseResult → Phase
  gated : Snapshot → Result PlatformConfig → Phase
  held : Snapshot → Phase
  pushed : Snapshot → Result ReconcileResult → Phase
  over : Phase

module _ (IsConverged : ReconcileResult → Type 0) (IsSent : Spec → SentSpec → Type 0) where
  -- The status that a reconcile call with this answer leads to
  pub data Report (o : Snapshot) : Result ReconcileResult → Snapshot → Type 0 where
    refused : {e : GoError} {x : Snapshot} → IsUnready o x → Report o (err e) x
    unconfirmed :
        {res : ReconcileResult} {x : Snapshot}
        → ¬ IsConverged res
        → IsUnready o x
        → Report o (ok res) x
    confirmed :
        {res : ReconcileResult} {x : Snapshot} → IsConverged res → IsReady o x → Report o (ok res) x

  module _ (kind : String) (cluster_id : ℤ) (config_name : String) (key : NamespacedName) where
    -- The calls that lead to a phase, newest first
    pub data Exchange : Phase → List Event → Type 0 where
      start : Exchange begun []
      miss :
          (e : GoError) {es : List Event}
          → Exchange begun es
          → Exchange over (fetched key (err e) ∷ es)
      fetch :
          (o : Snapshot) {es : List Event}
          → Exchange begun es
          → Exchange (seen o) (fetched key (ok o) ∷ es)
      -- It is being deleted, and holds our finalizer or not.
      leave :
          {o : Snapshot} {es : List Event} (at : ℕ)
          → o.metadata.deletion_timestamp ≡ some at
          → has_finalizer o ≡ false
          → Exchange (seen o) es
          → Exchange over es
      close :
          {o : Snapshot} {es : List Event} (at : ℕ) (a : Result CloseResult)
          → o.metadata.deletion_timestamp ≡ some at
          → has_finalizer o ≡ true
          → Exchange (seen o) es
          → Exchange
              (closing o a)
              (closed kind cluster_id o.metadata.namespace o.metadata.name a ∷ es)
      release :
          {o : Snapshot} {a : Result CloseResult} {es : List Event} (x : Snapshot)
          (b : Result Snapshot)
          → is_settled a ≡ true
          → IsTagged false o x
          → Exchange (closing o a) es
          → Exchange over (updated x b ∷ es)
      hold :
          {o : Snapshot} {a : Result CloseResult} {es : List Event} (x : Snapshot)
          (b : Result Snapshot)
          → is_settled a ≡ false
          → IsUnready o x
          → Exchange (closing o a) es
          → Exchange over (status_updated x b ∷ es)
      -- It is not being deleted, and the kill switch is off or not.
      ask_gate :
          {o : Snapshot} {es : List Event} (a : Result PlatformConfig)
          → o.metadata.deletion_timestamp ≡ none
          → Exchange (seen o) es
          → Exchange
              (gated o a)
              (fetched_config (record { namespace = ""; name = config_name }) a ∷ es)
      withhold :
          {o : Snapshot} {a : Result PlatformConfig} {es : List Event} (x : Snapshot)
          (b : Result Snapshot)
          → ¬ IsOff a
          → IsUnready o x
          → Exchange (gated o a) es
          → Exchange over (status_updated x b ∷ es)
      keep :
          {o : Snapshot} {a : Result PlatformConfig} {es : List Event}
          → IsOff a
          → has_finalizer o ≡ true
          → Exchange (gated o a) es
          → Exchange (held o) es
      bind :
          {o : Snapshot} {a : Result PlatformConfig} {es : List Event} (x o' : Snapshot)
          → IsOff a
          → has_finalizer o ≡ false
          → IsTagged true o x
          → Exchange (gated o a) es
          → Exchange (held o') (updated x (ok o') ∷ es)
      fail :
          {o : Snapshot} {a : Result PlatformConfig} {es : List Event} (x : Snapshot) (e : GoError)
          → IsOff a
          → has_finalizer o ≡ false
          → IsTagged true o x
          → Exchange (gated o a) es
          → Exchange over (updated x (err e) ∷ es)
      push :
          {o : Snapshot} {es : List Event} (sent : SentSpec) (a : Result ReconcileResult)
          → IsSent o.spec sent
          → Exchange (held o) es
          → Exchange (pushed o a) (
              reconciled cluster_id o.metadata.namespace
                (record { name = o.metadata.name; spec = sent })
                a
              ∷ es)
      report :
          {o : Snapshot} {a : Result ReconcileResult} {es : List Event} (x : Snapshot)
          (b : Result Snapshot)
          → Report o a x
          → Exchange (pushed o a) es
          → Exchange over (status_updated x b ∷ es)

    -- The most calls that lead to a phase
    abbrev calls : Phase → ℕ
    calls begun = 0
    calls (seen o) = 1
    calls (closing o a) = 2
    calls (gated o a) = 2
    calls (held o) = 3
    calls (pushed o a) = 4
    calls over = 5

    pub length-Exchange : {p : Phase} {es : List Event} → Exchange p es → length es ≤ calls p
    length-Exchange start = omega arith
    length-Exchange (miss e t) = omega (arith, length-Exchange t)
    length-Exchange (fetch o t) = omega (arith, length-Exchange t)
    length-Exchange (leave at d f t) = omega (arith, length-Exchange t)
    length-Exchange (close at a d f t) = omega (arith, length-Exchange t)
    length-Exchange (release x b c g t) = omega (arith, length-Exchange t)
    length-Exchange (hold x b c g t) = omega (arith, length-Exchange t)
    length-Exchange (ask_gate a d t) = omega (arith, length-Exchange t)
    length-Exchange (withhold x b c g t) = omega (arith, length-Exchange t)
    length-Exchange (keep c g t) = omega (arith, length-Exchange t)
    length-Exchange (bind x o' c g h t) = omega (arith, length-Exchange t)
    length-Exchange (fail x e c g h t) = omega (arith, length-Exchange t)
    length-Exchange (push sent a c t) = omega (arith, length-Exchange t)
    length-Exchange (report x b c t) = omega (arith, length-Exchange t)
