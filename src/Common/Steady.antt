-- ===== src/Common/Steady.antt =====
-- internal/controller: a cluster where nobody but the controller of one policy acts on it, and every
-- call is answered in the same way each time. What is relied on there, and what a part of Reconcile
-- makes of the stored object. The API server is that of a resource with a status subresource.
pub mod Next
use k8boss_operator.Prelude.{
  String, ◌≡◌, refl, ◌∙◌, sym, subst, Bool, true, false, Option, none, some, List, [], ◌∷◌, ap,
  if◌then◌else◌, ℕ, ◌⊎◌, inl, inr, contains,
}
use k8boss_operator.Api.{ObjectMeta, NamespacedName, PlatformConfig}
use k8boss_operator.Backend.Errors.{GoError, Result, ok, err}
use k8boss_operator.Backend.Wire.{CloseResult}
use k8boss_operator.Kube.{
  KubeClient, Event, fetched_config, Run, Act, ask, ◌>>=◌, pure, Outcome, failed,
}
use k8boss_operator.Common.{cr_edges_finalizer, PauseGate, gate_of, check_pause_gate}
use k8boss_operator.Common.Walk.{After, After-ask, After-pure, After-report, After-singleton}

-- An object of one kind, with its metadata, its list of finalizers and its status
pub record Shape (Obj Status : Type 0) : Type 0 where
  pub metadata : Obj → ObjectMeta
  pub with_finalizers : Obj → List String → Obj
  pub with_status : Obj → Status → Obj

module _ {Obj Status : Type 0} (shape : Shape Obj Status) where
  abbrev pub is_tagged : Obj → Bool
  is_tagged o = contains (shape.metadata o).finalizers cr_edges_finalizer

  abbrev pub deletion_of : Obj → Option ℕ
  deletion_of o = (shape.metadata o).deletion_timestamp

  abbrev pub lands_by : Option ℕ → List String → Obj → Option Obj
  lands_by none fs o = some o
  lands_by (some at) [] o = none
  lands_by (some at) (f ∷ fs) o = some o

  -- What an update leaves: an object that is being deleted goes with its last finalizer.
  abbrev pub lands : Obj → Option Obj
  lands o = lands_by (deletion_of o) (shape.metadata o).finalizers o

  lands_by_cases :
      (d : Option ℕ) (fs : List String) (o : Obj)
      → (lands_by d fs o ≡ none) ⊎ (lands_by d fs o ≡ some o)
  lands_by_cases none fs o = inr refl
  lands_by_cases (some at) [] o = inl refl
  lands_by_cases (some at) (f ∷ fs) o = inr refl

  pub lands_cases : (o : Obj) → (lands o ≡ none) ⊎ (lands o ≡ some o)
  lands_cases o = lands_by_cases (deletion_of o) (shape.metadata o).finalizers o

  -- What is left of an object that is being deleted: nothing, or an object that is still being deleted,
  -- and that has not our finalizer or is left as it is the next time.
  abbrev pub IsLeft : (Obj → Option Obj) → Obj → Option Obj → Type 0
  IsLeft closes o none = Unit
  IsLeft closes o (some p) =
      (deletion_of p ≡ deletion_of o) × ((is_tagged p ≡ false) ⊎ (closes p ≡ some p))

  pub lands-IsLeft :
      (closes : Obj → Option Obj) (o p : Obj)
      → deletion_of p ≡ deletion_of o
      → is_tagged p ≡ false
      → IsLeft closes o (lands p)
  lands-IsLeft closes o p deletion untagged = elim (lands_cases p) [
    | inl gone ↦ subst (IsLeft closes o) (sym gone) tt
    | inr kept ↦ subst (IsLeft closes o) (sym kept) (deletion, inl untagged)
  ]

module _ {W Obj Status : Type 0} (shape : Shape Obj Status) (stored : W → Option Obj) where
  -- A call gives this answer, and leaves this on the API server: an object, or none.
  pub record Gives {A : Type 0} (call : A × W) (a : A) (o : Option Obj) : Type 0 where
    pub says : call.0 ≡ a
    pub stores : stored call.1 ≡ o

  -- What is relied on. A read gives the object that is stored, or an error where there is none. An update of
  -- the stored object that changes its finalizers takes them, and one that takes the last one off an
  -- object that is being deleted lets it go; a finalizer is not added to such an object. A status update
  -- takes the status. The other calls leave the object, and answer alike each time.
  pub record IsSteady (objects : KubeClient W Obj) (configs : KubeClient W PlatformConfig)
      (config_name : String) (key : NamespacedName)
      (close_call : String → String → W → Result CloseResult × W) (config : Result PlatformConfig)
      (close : Result CloseResult) : Type 0 where
    pub on_get : (o : Obj) (w : W) → stored w ≡ some o → Gives (objects.get key w) (ok o) (some o)
    pub missing : GoError
    pub on_missing : (w : W) → stored w ≡ none → Gives (objects.get key w) (err missing) none
    pub on_add :
        (o : Obj) (fs : List String) (w : W)
        → stored w ≡ some o
        → deletion_of shape o ≡ none
        → Gives
            (objects.update (shape.with_finalizers o fs) w)
            (ok (shape.with_finalizers o fs))
            (some (shape.with_finalizers o fs))
    pub on_remove :
        (o : Obj) (fs : List String) (w : W)
        → stored w ≡ some o
        → ((f : String) → contains fs f ≡ true → contains (shape.metadata o).finalizers f ≡ true)
        → Gives
            (objects.update (shape.with_finalizers o fs) w)
            (ok (shape.with_finalizers o fs))
            (lands shape (shape.with_finalizers o fs))
    pub on_status :
        (o : Obj) (status : Status) (w : W)
        → stored w ≡ some o
        → Gives
            (objects.update_status (shape.with_status o status) w)
            (ok (shape.with_status o status))
            (some (shape.with_status o status))
    pub on_config :
        (w : W)
        → Gives (configs.get (record { namespace = ""; name = config_name }) w) config (stored w)
    pub on_close : (ns name : String) (w : W) → Gives (close_call ns name w) close (stored w)

  -- This is stored.
  abbrev pub Stores : Option Obj → {A : Type 0} → A → Run W → Type 0
  Stores o a s = stored s.world ≡ o

  pub After-known :
      {A B : Type 0} {Q : B → Run W → Type 0} (q : W → A × W) (event : A → Event) (f : A → Act W B)
      {s : Run W} {a : A} {o : Option Obj}
      → Gives (q s.world) a o
      → ((s' : Run W) → stored s'.world ≡ o → After Q (f a) s')
      → After Q (ask q event >>= f) s
  After-known {Q = Q} q event f {s} {a} {o} given next = After-ask q event f λ a' w e.
      let says : a' ≡ a = ap (λ p. p.0) (sym e) ∙ given.says in
      let stores : stored w ≡ o = ap (λ p. stored p.1) (sym e) ∙ given.stores in
      subst (λ x. After Q (f x) (record { world = w; log = event a' ∷ s.log })) (sym says)
        (next _ stores)

  pub After-steady_gate :
      {B : Type 0} {Q : B → Run W → Type 0} (configs : KubeClient W PlatformConfig) (name : String)
      (f : PauseGate → Act W B) {s : Run W} {a : Result PlatformConfig} {o : Option Obj}
      → Gives (configs.get (record { namespace = ""; name = name }) s.world) a o
      → ((s' : Run W) → stored s'.world ≡ o → After Q (f (gate_of name a)) s')
      → After Q (check_pause_gate configs name >>= f) s
  After-steady_gate {Q = Q} configs name f {s} {a} {o} given next =
      After-singleton configs name f λ a' w e.
        let key : NamespacedName = record { namespace = ""; name = name } in
        let says : a' ≡ a = ap (λ p. p.0) (sym e) ∙ given.says in
        let stores : stored w ≡ o = ap (λ p. stored p.1) (sym e) ∙ given.stores in
        subst
          (λ x.
            After Q (f (gate_of name x)) (record { world = w; log = fetched_config key x ∷ s.log }))
          (sym says) (next _ stores)

  -- Whatever stored object a part of Reconcile is given, it makes of it a certain function of it, one
  -- that keeps the metadata and changes nothing the second time.
  pub record Settles (part : Obj → Act W Outcome) : Type 0 where
    pub to : Obj → Obj
    pub again : (o : Obj) → to (to o) ≡ to o
    pub same : (o : Obj) → shape.metadata (to o) ≡ shape.metadata o
    pub puts :
        (o : Obj) (s : Run W) → stored s.world ≡ some o → After (Stores (some (to o))) (part o) s

  -- The same for a part that may take our finalizer off
  pub record Closes (part : Obj → Act W Outcome) : Type 0 where
    pub to : Obj → Option Obj
    pub left : (o : Obj) → IsLeft shape to o (to o)
    pub puts : (o : Obj) (s : Run W) → stored s.world ≡ some o → After (Stores (to o)) (part o) s

  pub Closes-Settles : {f : Obj → Act W Outcome} → Settles f → Closes f
  Closes-Settles f = record {
    to = λ o. some (f.to o);
    left =
        λ o. (ap (λ (m : ObjectMeta). m.deletion_timestamp) (f.same o), inr (ap some (f.again o)));
    puts = f.puts;
  }

  pub Closes-if :
      (b : Bool) {f g : Obj → Act W Outcome}
      → Closes f
      → Closes g
      → Closes (λ o. if b then f o else g o)
  Closes-if true f g = f
  Closes-if false f g = g

  pub Settles-if :
      (b : Bool) {f g : Obj → Act W Outcome}
      → Settles f
      → Settles g
      → Settles (λ o. if b then f o else g o)
  Settles-if true f g = f
  Settles-if false f g = g

  pub Settles-option :
      {A : Type 0} (a : Option A) {f : A → Obj → Act W Outcome} {g : Obj → Act W Outcome}
      → ((x : A) → Settles (f x))
      → Settles g
      → Settles (λ o. elim a [ some x ↦ f x o | none ↦ g o ])
  Settles-option (some x) f g = f x
  Settles-option none f g = g

  -- The end of reconcileError
  pub Settles-report :
      (e : GoError) {f : Obj → Act W Outcome}
      → Settles f
      → Settles (λ o.
        f o >>= λ outcome. elim outcome.error [ some u ↦ pure (failed u) | none ↦ pure (failed e) ])
  unfolding pure
  Settles-report e f = record {
    to = f.to;
    again = f.again;
    same = f.same;
    puts = λ o s h. After-report _ e (λ u. After-pure _ (f.puts o s h).holds);
  }
