-- ===== src/Common/Walk.antt =====
-- One rule for each way in which the reconcilers go on: what is to hold after an action holds if it
-- does after what the action goes on with.
use k8boss_operator.Prelude.{
  ◌≡◌, refl, String, Bool, true, false, Option, none, some, List, ◌∷◌, if◌then◌else◌,
}
use k8boss_operator.Api.{NamespacedName, PlatformConfig}
use k8boss_operator.Backend.Errors.{GoError, Result, ok, err}
use k8boss_operator.Kube.{
  KubeClient, Event, fetched_config, Run, Act, pure, ask, ◌>>=◌, Outcome, failed,
}
use k8boss_operator.Common.{PauseGate, gate_of, check_pause_gate}
use k8boss_operator.Common.Evidence.{Every}

-- After the action, from this state, the answer and the state are as Q says.
pub record After {W A : Type 0} (Q : A → Run W → Type 0) (m : Act W A) (s : Run W) : Type 0 where
  pub holds : Q (m s).0 (m s).1

-- Every event of the log is justified.
abbrev pub Logged : {W A : Type 0} → (Event → List Event → Type 0) → A → Run W → Type 0
Logged J a s = Every J s.log

module _ {W A : Type 0} {Q : A → Run W → Type 0} where
  pub After-pure : (a : A) {s : Run W} → Q a s → After Q (pure a) s
  unfolding pure
  After-pure a h = record { holds = h }

  pub After-if :
      (b : Bool) {m n : Act W A} {s : Run W}
      → (b ≡ true → After Q m s)
      → (b ≡ false → After Q n s)
      → After Q (if b then m else n) s
  After-if true h k = h refl
  After-if false h k = k refl

  pub After-option :
      {B : Type 0} (o : Option B) {f : B → Act W A} {n : Act W A} {s : Run W}
      → ((b : B) → o ≡ some b → After Q (f b) s)
      → (o ≡ none → After Q n s)
      → After Q (elim o [ some b ↦ f b | none ↦ n ]) s
  After-option none h k = k refl
  After-option (some b) h k = h b refl

module _ {W A B : Type 0} {Q : B → Run W → Type 0} where
  pub After-bind :
      (m : Act W A) (f : A → Act W B) {s : Run W}
      → After Q (f (m s).0) (m s).1
      → After Q (m >>= f) s
  unfolding ◌>>=◌
  After-bind m f h = record { holds = h.holds }

  pub After-ask :
      (q : W → A × W) (event : A → Event) (f : A → Act W B) {s : Run W}
      → ((a : A) (w : W)
          → q s.world ≡ (a, w)
          → After Q (f a) (record { world = w; log = event a ∷ s.log }))
      → After Q (ask q event >>= f) s
  unfolding ◌>>=◌ ask
  After-ask q event f {s} h = record { holds = (h (q s.world).0 (q s.world).1 refl).holds }

  -- A call whose answer is taken apart at once.
  pub After-ask_result :
      (q : W → Result A × W) (event : Result A → Event) (f : GoError → Act W B) (g : A → Act W B)
      {s : Run W}
      → ((e : GoError) (w : W)
          → q s.world ≡ (err e, w)
          → After Q (f e) (record { world = w; log = event (err e) ∷ s.log }))
      → ((a : A) (w : W)
          → q s.world ≡ (ok a, w)
          → After Q (g a) (record { world = w; log = event (ok a) ∷ s.log }))
      → After Q (ask q event >>= λ a. elim a [ err e ↦ f e | ok b ↦ g b ]) s
  unfolding ◌>>=◌ ask
  After-ask_result q event f g {s} h k = record {
    holds = (go (q s.world).0 (q s.world).1 refl).holds;
  }
    where
      go :
          (a : Result A) (w : W)
          → q s.world ≡ (a, w)
          → After Q
              (elim a as (λ _. Act W B) [ err e ↦ f e | ok b ↦ g b ])
              (record { world = w; log = event a ∷ s.log })
      go (ok a) w e = k a w e
      go (err x) w e = h x w e

module _ {W A : Type 0} {Q : A → Run W → Type 0} where
  pub After-gate :
      (configs : KubeClient W PlatformConfig) (name : String) (f : PauseGate → Act W A) {s : Run W}
      → ((key : NamespacedName) (a : Result PlatformConfig) (w : W)
          → configs.get key s.world ≡ (a, w)
          → After Q (f (gate_of name a)) (record { world = w; log = fetched_config key a ∷ s.log }))
      → After Q (check_pause_gate configs name >>= f) s
  unfolding check_pause_gate ◌>>=◌ ask pure
  After-gate configs name f h = record { holds = (h _ _ _ refl).holds }

  -- The same, for the key that the gate reads.
  pub After-singleton :
      (configs : KubeClient W PlatformConfig) (name : String) (f : PauseGate → Act W A) {s : Run W}
      → ((a : Result PlatformConfig) (w : W)
          → configs.get (record { namespace = ""; name = name }) s.world ≡ (a, w)
          → After Q (f (gate_of name a)) (record {
            world = w;
            log = fetched_config (record { namespace = ""; name = name }) a ∷ s.log;
          }))
      → After Q (check_pause_gate configs name >>= f) s
  unfolding check_pause_gate ◌>>=◌ ask pure
  After-singleton configs name f h = record { holds = (h _ _ refl).holds }

module _ {W : Type 0} {Q : Outcome → Run W → Type 0} where
  -- The end of reconcileError: the outcome is passed on if it has an error, or replaced by the error
  -- itself.
  pub After-report :
      (m : Act W Outcome) (e : GoError) {s : Run W}
      → ((u : GoError) → After Q (pure (failed u)) (m s).1)
      → After Q
          (m >>= λ outcome. elim outcome.error [
            | some u ↦ pure (failed u)
            | none ↦ pure (failed e)
          ])
          s
  After-report m e {s} h = After-bind _ _ (After-option (m s).0.error (λ u _. h u) (λ _. h e))
