-- ===== src/DeepCopy/Reads.antt =====
-- api/v1alpha1/zz_generated.deepcopy.go: what a struct in memory stands for, read through a window of
-- addresses, and what a deep copy is: the same value, read at new addresses only.
use k8boss_operator.Prelude.{
  ℕ, ◌≤◌, ◌<◌, ◌≡◌, ◌&&◌, Option, none, some, List, [], ◌∷◌, Nilable, leb, ltb, if◌then◌else◌,
}
use k8boss_operator.DeepCopy.Memory.{Memory, Mem, pure, ◌>>=◌, Slot}

abbrev pub both : {A B : Type 0} → Option A → Option B → Option (A × B)
both none b = none
both (some a) none = none
both (some a) (some b) = some (a, b)

-- A reading of `M` as a value, of the cells from `lo` on and below `hi`; none if it leaves them.
abbrev pub Reading : Type 0 → Type 0 → Type 0 → Type 0
Reading C M V = ℕ → ℕ → (ℕ → C) → M → Option V

module _ {C : Type 0} where
  -- Memory grew, and what was in use is as it was.
  pub record Grew (h h' : Memory C) : Type 0 where
    pub more : h.next ≤ h'.next
    pub same : (a : ℕ) → a < h.next → h'.cells a ≡ h.cells a

module _ {C M : Type 0} where
  abbrev pub read_flat : Reading C M M
  read_flat lo hi c m = some m

module _ {C M V : Type 0} where
  abbrev pub read_all : Reading C M V → Reading C (List M) (List V)
  read_all read lo hi c [] = some []
  read_all read lo hi c (x ∷ xs) = elim (both (read lo hi c x) (read_all read lo hi c xs)) [
    | none ↦ none
    | some (v, vs) ↦ some (v ∷ vs)
  ]

  abbrev pub read_slice : Slot C M → Reading C M V → Reading C (Nilable ℕ) (Nilable (List V))
  read_slice slot read lo hi c none = some none
  read_slice slot read lo hi c (some a) =
      if leb lo a && ltb a hi
      then elim (slot.take (c a)) [
        | none ↦ none
        | some xs ↦ elim (read_all read lo hi c xs) [ none ↦ none | some vs ↦ some (some vs) ]
      ]
      else none

  abbrev pub read_pointer : Reading C M V → Reading C (Option M) (Option V)
  read_pointer read lo hi c none = some none
  read_pointer read lo hi c (some m) = elim (read lo hi c m) [
    | none ↦ none
    | some v ↦ some (some v)
  ]

  -- A reading looks at its window only, and a wider window reads the same.
  abbrev pub IsFramed : Reading C M V → Type 0
  IsFramed read =
      (lo hi lo' hi' : ℕ) (c c' : ℕ → C) (m : M) (v : V)
      → lo' ≤ lo
      → hi ≤ hi'
      → ((a : ℕ) → lo ≤ a → a < hi → c' a ≡ c a)
      → read lo hi c m ≡ some v
      → read lo' hi' c' m ≡ some v

  -- If `m` reads as `v`, then its copy does too, at the new addresses alone.
  abbrev pub IsCopied : Reading C M V → (M → Mem C M) → M → V → Memory C → Type 0
  IsCopied read copy m v h =
      read 0 h.next h.cells m ≡ some v
      → Grew h (copy m h).1
        × (read h.next (copy m h).1.next (copy m h).1.cells (copy m h).0 ≡ some v)

  abbrev pub IsDeep : Reading C M V → (M → Mem C M) → Type 0
  IsDeep read copy = (m : M) (v : V) (h : Memory C) → IsCopied read copy m v h

module _ {C M N V U : Type 0} where
  -- Two fields of a struct
  abbrev pub read_pair : Reading C M V → Reading C N U → Reading C (M × N) (V × U)
  read_pair read read' lo hi c (x, y) = both (read lo hi c x) (read' lo hi c y)

module _ {C M N : Type 0} where
  abbrev pub copy_pair : (M → Mem C M) → (N → Mem C N) → M × N → Mem C (M × N)
  copy_pair copy copy' (x, y) = do x' ← copy x; y' ← copy' y; pure (x', y')
