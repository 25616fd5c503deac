-- ===== src/DeepCopy/Memory.antt =====
-- The memory that slices and maps live in: an array or a map at each address that is in use. A struct
-- is a value that holds addresses, and a slice here spans its whole array.
use k8boss_operator.Prelude.{
  ℕ, suc, ◌≡◌, Option, none, some, List, [], ◌∷◌, Nilable, eqb, if◌then◌else◌,
}

-- The addresses below `next` are in use; the cells of the others are not read.
pub record Memory (C : Type 0) : Type 0 where
  pub next : ℕ
  pub cells : ℕ → C

abbrev pub Mem : Type 0 → Type 0 → Type 0
Mem C A = Memory C → A × Memory C

module _ {C A : Type 0} where
  abbrev pub pure : A → Mem C A
  pure a h = (a, h)

module _ {C A B : Type 0} where
  infixl 5 ◌>>=◌
  abbrev pub ◌>>=◌ : Mem C A → (A → Mem C B) → Mem C B
  ◌>>=◌ m f h = let (a, h') = m h in f a h'

-- How an array of `M` stands in a cell.
pub record Slot (C M : Type 0) : Type 0 where
  pub put : List M → C
  pub take : C → Option (List M)
  pub take-put : (xs : List M) → take (put xs) ≡ some xs

module _ {C : Type 0} where
  -- An address for a new array
  unfoldable pub alloc : C → Mem C ℕ
  alloc c h =
      (h.next, record { next = suc h.next; cells = λ a. if eqb a h.next then c else h.cells a })

module _ {C M : Type 0} where
  -- `for i := range *in { (*in)[i].DeepCopyInto(&(*out)[i]) }`
  unfoldable pub copy_all : (M → Mem C M) → List M → Mem C (List M)
  copy_all copy [] = pure []
  copy_all copy (x ∷ xs) = do y ← copy x; ys ← copy_all copy xs; pure (y ∷ ys)

  -- `if in.F != nil { *out = make(…); … }` behind `*out = *in`. A cell that holds another type is left
  -- as it is. The new array gets its address once its items are copied.
  unfoldable pub copy_slice : Slot C M → (M → Mem C M) → Nilable ℕ → Mem C (Nilable ℕ)
  unfolding copy_all alloc
  copy_slice slot copy none h = (none, h)
  copy_slice slot copy (some a) h = elim (slot.take (h.cells a)) [
    | none ↦ (some a, h)
    | some xs ↦ (do ys ← copy_all copy xs; b ← alloc (slot.put ys); pure (some b)) h
  ]

  -- `in.DeepCopyInto(out)` of a pointer's target, nil apart
  unfoldable pub deep_copy : (M → Mem C M) → Option M → Mem C (Option M)
  deep_copy copy none = pure none
  deep_copy copy (some x) = do y ← copy x; pure (some y)
