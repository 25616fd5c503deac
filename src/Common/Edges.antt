-- ===== src/Common/Edges.antt =====
-- internal/controller/common.go, CREdgesFinalizer: what is relied on of Kubernetes and of the control
-- plane for the object under one key, and the invariant that the finalizer is there for.
use k8boss_operator.Prelude.{String, ◌≡◌, Bool, true, false}
use k8boss_operator.Api.{PlatformConfig, NamespacedName}
use k8boss_operator.Backend.Errors.{GoError, Result, ok, err, is_unconfigured}
use k8boss_operator.Backend.Wire.{ReconcileResult, CloseResult}
use k8boss_operator.Kube.{KubeClient, Snapshot}
use k8boss_operator.Common.Evidence.{has_finalizer, is_closed}

-- Whether the server's object has the finalizer, and whether the graph has open edges for it.
pub record Observation (W : Type 0) : Type 0 where
  pub held : W → Bool
  pub has_edges : W → Bool

module _ {W : Type 0} (seen : Observation W) where
  -- No edge is open without the finalizer.
  abbrev pub IsCovered : W → Type 0
  IsCovered w = seen.has_edges w ≡ true → seen.held w ≡ true

  -- From one state to the other, the finalizer does not go and no edge is opened.
  abbrev pub IsHarmless : W → W → Type 0
  IsHarmless w w' =
      (seen.held w ≡ true → seen.held w' ≡ true)
      × (seen.has_edges w' ≡ true → seen.has_edges w ≡ true)

  pub IsHarmless-keeps : {w w' : W} → IsHarmless w w' → IsCovered w → IsCovered w'
  IsHarmless-keeps (held, closed) h o = held (h (closed o))

abbrev pub IsNamed : NamespacedName → Snapshot → Type 0
IsNamed key s = (s.metadata.namespace ≡ key.namespace) × (s.metadata.name ≡ key.name)

-- What is relied on of the API server, and of a configured control plane by its two calls for a
-- policy, each given the namespace and the name. Each call may take any time and fail at any point: an
-- error says nothing of what was written.
pub record IsSound {W Obj Spec : Type 0} (seen : Observation W) (snapshot : Obj → Snapshot)
    (policies : KubeClient W Obj) (configs : KubeClient W PlatformConfig)
    (reconcile_call : String → String → Spec → W → Result ReconcileResult × W)
    (close_call : String → String → W → Result CloseResult × W) (key : NamespacedName)
    : Type 0 where
  pub on_get : (w w' : W) (a : Result Obj) → policies.get key w ≡ (a, w') → IsHarmless seen w w'
  pub on_got :
      (w w' : W) (cr : Obj)
      → policies.get key w ≡ (ok cr, w')
      → IsNamed key (snapshot cr) × (has_finalizer (snapshot cr) ≡ true → seen.held w' ≡ true)
  pub on_config :
      (k : NamespacedName) (w w' : W) (a : Result PlatformConfig)
      → configs.get k w ≡ (a, w')
      → IsHarmless seen w w'
  pub on_status :
      (o : Obj) (w w' : W) (a : Result Obj)
      → policies.update_status o w ≡ (a, w')
      → IsHarmless seen w w'
  -- an Update with the finalizer takes none off, and leaves it there if there is no error
  pub on_hold :
      (o : Obj) (w w' : W) (a : Result Obj)
      → has_finalizer (snapshot o) ≡ true
      → policies.update o w ≡ (a, w')
      → IsHarmless seen w w'
  pub on_held :
      (o o' : Obj) (w w' : W)
      → IsNamed key (snapshot o)
      → has_finalizer (snapshot o) ≡ true
      → policies.update o w ≡ (ok o', w')
      → IsNamed key (snapshot o') × (seen.held w' ≡ true)
  -- an Update opens no edge
  pub on_update :
      (o : Obj) (w w' : W) (a : Result Obj)
      → policies.update o w ≡ (a, w')
      → seen.has_edges w' ≡ true
      → seen.has_edges w ≡ true
  -- a reconcile call may open edges, and leaves the object alone
  pub on_reconcile :
      (n m : String) (spec : Spec) (w w' : W) (a : Result ReconcileResult)
      → reconcile_call n m spec w ≡ (a, w')
      → seen.held w ≡ true
      → seen.held w' ≡ true
  pub on_close :
      (n m : String) (w w' : W) (a : Result CloseResult)
      → close_call n m w ≡ (a, w')
      → IsHarmless seen w w'
  pub on_closed :
      (w w' : W) (res : CloseResult)
      → close_call key.namespace key.name w ≡ (ok res, w')
      → is_closed res ≡ true
      → seen.has_edges w' ≡ false
  -- a configured client never answers that it has no settings
  pub on_refused :
      (n m : String) (w w' : W) (e : GoError)
      → close_call n m w ≡ (err e, w')
      → is_unconfigured e ≡ false
