-- ===== src/Prelude/Lists.antt =====
-- Lists measured by native numbers, under the library's names, and Go's nilable containers.
use Prim.Native.Nat.{ℕ, suc, ◌+◌}
use Prim.Native.String.{String}
use mathlib.Core.Path.{◌≡◌, refl, ap}
use mathlib.Core.Bool.{Bool, false, ◌||◌}
use mathlib.Core.List.{List, [], ◌∷◌, ◌++◌, map}
use mathlib.Core.Option.{Option, none, some}
use mathlib.Core.Logic.{◌↔◌}
use native.Mathlib.Omega.{arith}
use text.Mathlib.Text.{◌==◌}
use k8boss_operator.Prelude.Tests.{ltb}

module _ {ℓ} {A : Type ℓ} where
  abbrev pub length : List A → ℕ
  length [] = 0
  length (x ∷ xs) = suc (length xs)

  -- The test `len(xs) > 0`
  pub length-pos_iff : (xs : List A) → (ltb 0 (length xs) ≡ false) ↔ (xs ≡ [])
  length-pos_iff [] = ground arith
  length-pos_iff (x ∷ xs) = ground arith

  pub append_nil : (xs : List A) → xs ++ [] ≡ xs
  append_nil [] = refl
  append_nil (x ∷ xs) = ap (λ l. x ∷ l) (append_nil xs)

  pub length-append : (xs ys : List A) → length (xs ++ ys) ≡ length xs + length ys
  length-append [] ys = ground arith
  length-append (x ∷ xs) ys = ground (arith, length-append xs ys)

module _ {ℓ κ} {A : Type ℓ} {B : Type κ} where
  pub length-map : (f : A → B) (xs : List A) → length (map f xs) ≡ length xs
  length-map f [] = refl
  length-map f (x ∷ xs) = ap suc (length-map f xs)

-- A predicate of every item.
abbrev pub All {ℓ κ} : {A : Type ℓ} → (A → Type κ) → List A → Type κ
All P [] = Unit
All P (x ∷ xs) = P x × All P xs

-- A Go slice or map that may be nil. `none` is nil, which JSON writes as null.
abbrev pub Nilable {ℓ} : Type ℓ → Type ℓ
Nilable A = Option A

-- The items that a `for range` visits: none at nil.
abbrev pub items {ℓ} : {A : Type ℓ} → Nilable (List A) → List A
items none = []
items (some xs) = xs

-- Membership among texts, as a test.
abbrev pub contains : List String → String → Bool
contains [] t = false
contains (s ∷ ss) t = t == s || contains ss t
