-- ===== src/Common/Steady/Next.antt =====
-- internal/controller: what one Reconcile of a policy makes of what is stored, where every call is
-- answered alike.
use k8boss_operator.Prelude.{
  ◌≡◌, refl, ◌∙◌, arith, sym, ◌&&◌, not, Bool, true, false, Option, none, some, ap, if◌then◌else◌,
  ℕ, Bool-cases, inl, inr,
}
use k8boss_operator.Common.Steady.{Shape, is_tagged, deletion_of, IsLeft}

-- Of an object that is being deleted, if it has our finalizer, and of one that is not, with the
-- finalizer put on first where `adds` says so
module _ {Obj Status : Type 0} (shape : Shape Obj Status) (adds : Bool) (add : Obj → Obj)
    (closes : Obj → Option Obj) (pushes : Obj → Obj) where
  abbrev pub next_by : Option ℕ → Bool → Obj → Option Obj
  next_by (some at) true o = closes o
  next_by (some at) false o = some o
  next_by none tagged o = some (if adds && not tagged then pushes (add o) else pushes o)

  abbrev pub next : Option Obj → Option Obj
  next none = none
  next (some o) = next_by (deletion_of shape o) (is_tagged shape o) o

  pub next_by-next :
      (o : Obj) {d : Option ℕ} {t : Bool}
      → deletion_of shape o ≡ d
      → is_tagged shape o ≡ t
      → next_by d t o ≡ next (some o)
  next_by-next o {d} {t} deletion tag =
      ap (λ x. next_by x t o) (sym deletion) ∙ ap (λ x. next_by (deletion_of shape o) x o) (sym tag)

  -- What the three functions leave
  pub record IsTame : Type 0 where
    pub closes_left : (o : Obj) → IsLeft shape closes o (closes o)
    pub pushes_metadata : (o : Obj) → shape.metadata (pushes o) ≡ shape.metadata o
    pub pushes_again : (o : Obj) → pushes (pushes o) ≡ pushes o
    pub add_deletion : (o : Obj) → deletion_of shape (add o) ≡ deletion_of shape o
    pub add_tagged : (o : Obj) → is_tagged shape (add o) ≡ true

  left-again :
      (o : Obj) (p : Option Obj) (at : ℕ)
      → deletion_of shape o ≡ some at
      → IsLeft shape closes o p
      → next p ≡ p
  left-again o none at d h = refl
  left-again o (some p) at d (deletion, inl untagged) = sym (next_by-next p (deletion ∙ d) untagged)
  left-again o (some p) at d (deletion, inr again) = elim (Bool-cases (is_tagged shape p)) [
    | inl tagged ↦ sym (next_by-next p (deletion ∙ d) tagged) ∙ again
    | inr untagged ↦ sym (next_by-next p (deletion ∙ d) untagged)
  ]

  next_by-again :
      IsTame
      → (o : Obj) (d : Option ℕ) (t : Bool) → deletion_of shape o ≡ d
      → is_tagged shape o ≡ t
      → next (next_by d t o) ≡ next_by d t o
  next_by-again tame o (some at) false d t = sym (next_by-next o d t)
  next_by-again tame o (some at) true d t = left-again o (closes o) at d (tame.closes_left o)
  next_by-again tame o none t d e = elim (Bool-cases (adds && not t)) [
    | inl added ↦ ground (
      arith,
      tame.pushes_metadata (add o),
      tame.add_deletion o,
      tame.add_tagged o,
      tame.pushes_again (add o),
    )
    | inr kept ↦ ground (arith, tame.pushes_metadata o, tame.pushes_again o)
  ]

  pub next-next : IsTame → (o : Option Obj) → next (next o) ≡ next o
  next-next tame none = refl
  next-next tame (some o) = next_by-again tame o _ _ refl refl
