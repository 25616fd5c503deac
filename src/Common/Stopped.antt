-- ===== src/Common/Stopped.antt =====
-- internal/controller/common.go, checkPauseGate: what is relied on of the API server and of the control
-- plane while the kill switch is on.
use k8boss_operator.Prelude.{String, ◌≡◌, Bool, true}
use k8boss_operator.Api.{PlatformConfig, NamespacedName}
use k8boss_operator.Backend.Errors.{Result}
use k8boss_operator.Backend.Wire.{CloseResult}
use k8boss_operator.Kube.{KubeClient}
use k8boss_operator.Common.Gate.{IsOff}

-- Whether the kill switch of the singleton is on, or the singleton absent, and which edges the graph has
-- open.
pub record Switch (W : Type 0) : Type 0 where
  pub on : W → Bool
  pub has_edge : W → String → Bool

module _ {W : Type 0} (seen : Switch W) where
  -- From one state to the other, the switch stays on and no edge is opened.
  abbrev pub IsCalm : W → W → Type 0
  IsCalm w w' =
      (seen.on w ≡ true → seen.on w' ≡ true)
      × ((edge : String) → seen.has_edge w' edge ≡ true → seen.has_edge w edge ≡ true)

  -- The switch is on, and no edge is open that was not in the first state.
  pub record IsStill (w w' : W) : Type 0 where
    pub on : seen.on w' ≡ true
    pub opened : (edge : String) → seen.has_edge w' edge ≡ true → seen.has_edge w edge ≡ true

  pub IsStill-start : {w : W} → seen.on w ≡ true → IsStill w w
  IsStill-start h = record { on = h; opened = λ edge o. o }

  pub IsStill-calm : {w w' w'' : W} → IsCalm w' w'' → IsStill w w' → IsStill w w''
  IsStill-calm (stays, closes) h = record {
    on = stays h.on;
    opened = λ edge o. h.opened edge (closes edge o);
  }

  pub IsStill-trans : {w w' w'' : W} → IsStill w w' → IsStill w' w'' → IsStill w w''
  IsStill-trans h k = record { on = k.on; opened = λ edge o. h.opened edge (k.opened edge o) }

-- What is relied on of the API server for the objects of one kind, and of the close call for them.
-- Nothing is asked of the answers.
pub record IsCalmFor {W Obj : Type 0} (seen : Switch W) (objects : KubeClient W Obj)
    (close_call : String → String → W → Result CloseResult × W) : Type 0 where
  pub on_get :
      (key : NamespacedName) (w w' : W) (a : Result Obj)
      → objects.get key w ≡ (a, w')
      → IsCalm seen w w'
  pub on_update :
      (o : Obj) (w w' : W) (a : Result Obj) → objects.update o w ≡ (a, w') → IsCalm seen w w'
  pub on_status :
      (o : Obj) (w w' : W) (a : Result Obj) → objects.update_status o w ≡ (a, w') → IsCalm seen w w'
  pub on_close :
      (ns name : String) (w w' : W) (a : Result CloseResult)
      → close_call ns name w ≡ (a, w')
      → IsCalm seen w w'

-- What is relied on of the read of the singleton: while the switch is on, whatever it answers is no
-- PlatformConfig with the switch off.
pub record IsShutFor {W : Type 0} (seen : Switch W) (configs : KubeClient W PlatformConfig)
    (name : String) : Type 0 where
  pub on_read :
      (w w' : W) (a : Result PlatformConfig)
      → configs.get (record { namespace = ""; name = name }) w ≡ (a, w')
      → IsCalm seen w w' × (seen.on w ≡ true → ¬ IsOff a)
