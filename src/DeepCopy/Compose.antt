-- ===== src/DeepCopy/Compose.antt =====
-- api/v1alpha1/zz_generated.deepcopy.go: deep copies of parts, put together.
use k8boss_operator.Prelude.{◌≡◌, some}
use k8boss_operator.DeepCopy.Memory.{Memory, Mem, pure, Slot, copy_slice}
use k8boss_operator.DeepCopy.Reads.{
  Reading, read_flat, read_slice, read_pair, copy_pair, IsFramed, Grew, IsDeep,
}
use k8boss_operator.DeepCopy.Laws.{
  read_flat-IsFramed, read_flat-IsDeep, read_slice-IsFramed, copy_slice-IsDeep, read_pair-IsFramed,
  copy_pair-IsDeep,
}

-- The reading looks at its window only, and the copy is deep.
pub record IsDeepCopy {C M V : Type 0} (read : Reading C M V) (copy : M → Mem C M) : Type 0 where
  pub framed : IsFramed read
  pub deep : IsDeep read copy

module _ {C M : Type 0} where
  pub flat : IsDeepCopy {C = C} {M = M} read_flat pure
  flat = record { framed = read_flat-IsFramed; deep = read_flat-IsDeep }

module _ {C M V : Type 0} where
  -- What IsDeep asks of a copy and the memory after it.
  abbrev IsGood : Reading C M V → Memory C → V → M × Memory C → Type 0
  IsGood read h v (m, h') = Grew h h' × (read h.next h'.next h'.cells m ≡ some v)

  IsGood-same :
      (read : Reading C M V) (h : Memory C) (v : V) {p q : M × Memory C}
      → p ≡ q
      → IsGood read h v q
      → IsGood read h v p
  IsGood-same read h v e good = rw e good

module _ {C M V : Type 0} {read : Reading C M V} {copy : M → Mem C M} where
  pub slice :
      (slot : Slot C M)
      → IsDeepCopy read copy
      → IsDeepCopy (read_slice slot read) (copy_slice slot copy)
  slice slot d = record {
    framed = read_slice-IsFramed read slot d.framed;
    deep = copy_slice-IsDeep slot d.framed d.deep;
  }

  module _ {N U : Type 0} {read' : Reading C N U} {copy' : N → Mem C N} where
    pub pair :
        IsDeepCopy read copy
        → IsDeepCopy read' copy'
        → IsDeepCopy (read_pair read read') (copy_pair copy copy')
    pair d d' = record {
      framed = read_pair-IsFramed d.framed d'.framed;
      deep = copy_pair-IsDeep d.framed d'.framed d.deep d'.deep;
    }

  -- A struct that is copied as the tuple of its fields
  pub fields :
      {S : Type 0} (tuple : S → M) (copy_struct : S → Mem C S)
      → ((s : S) (h : Memory C)
          → (tuple (copy_struct s h).0, (copy_struct s h).1) ≡ copy (tuple s) h)
      → IsDeepCopy read copy
      → IsDeepCopy (λ lo hi c s. read lo hi c (tuple s)) copy_struct
  fields tuple copy_struct same d = record {
    framed = λ lo hi lo' hi' c c' s v. d.framed lo hi lo' hi' c c' (tuple s) v;
    deep = λ s v h e. IsGood-same read h v (same s h) (d.deep (tuple s) v h e);
  }
