-- ===== src/DeepCopy/Laws.antt =====
-- api/v1alpha1/zz_generated.deepcopy.go: deep copies of the parts of a struct make a deep copy of it.
use k8boss_operator.Prelude.{
  suc, ◌≡◌, refl, arith, ◌&&◌, none, some, List, [], ◌∷◌, leb, ltb, Option-cases, Bool-cases, inl,
  inr,
}
use k8boss_operator.DeepCopy.Memory.{Memory, Mem, pure, Slot, alloc, copy_all, copy_slice}
use k8boss_operator.DeepCopy.Reads.{
  Reading, read_flat, read_all, read_slice, read_pair, copy_pair, IsFramed, Grew, IsCopied, IsDeep,
}

module _ {C : Type 0} where
  pub Grew-refl : (h : Memory C) → Grew h h
  Grew-refl h = record { more = omega arith; same = λ a lt. refl }

  pub Grew-trans : {h h' h'' : Memory C} → Grew h h' → Grew h' h'' → Grew h h''
  Grew-trans {h} {h'} {h''} g g' = record {
    more = omega (arith, g.more, g'.more);
    same = λ a lt. cc (g.same a lt, g'.same a (omega (arith, lt, g.more)));
  }

module _ {C M V : Type 0} (read : Reading C M V) where
  pub read_all-IsFramed : IsFramed read → IsFramed (read_all read)
  read_all-IsFramed framed lo hi lo' hi' c c' [] vs l m same e = e
  read_all-IsFramed framed lo hi lo' hi' c c' (x ∷ xs) vs l m same e =
      elim (Option-cases (read lo hi c x)) [
        | inl x_none ↦ ground (arith, e, x_none)
        | inr (v, x_some) ↦ elim (Option-cases (read_all read lo hi c xs)) [
          | inl xs_none ↦ ground (arith, e, x_some, xs_none)
          | inr (ws, xs_some) ↦ ground (
            arith,
            e,
            x_some,
            xs_some,
            framed lo hi lo' hi' c c' x v l m same x_some,
            read_all-IsFramed framed lo hi lo' hi' c c' xs ws l m same xs_some,
          )
        ]
      ]

  pub read_slice-IsFramed : (slot : Slot C M) → IsFramed read → IsFramed (read_slice slot read)
  read_slice-IsFramed slot framed lo hi lo' hi' c c' none vs l m same e = e
  read_slice-IsFramed slot framed lo hi lo' hi' c c' (some a) vs l m same e =
      elim (Bool-cases (leb lo a && ltb a hi)) [
        | inr outside ↦ ground (arith, e, outside)
        | inl inside ↦ elim (Option-cases (slot.take (c a))) [
          | inl t ↦ ground (arith, e, inside, t)
          | inr (xs, t) ↦ elim (Option-cases (read_all read lo hi c xs)) [
            | inl r ↦ ground (arith, e, inside, t, r)
            | inr (ws, r) ↦
                let there : c' a ≡ c a = same a (ground (arith, inside)) (ground (arith, inside)) in
                let t' : slot.take (c' a) ≡ some xs = cc (there, t) in
                ground (
                  arith,
                  e,
                  inside,
                  t,
                  t',
                  r,
                  l,
                  m,
                  read_all-IsFramed framed lo hi lo' hi' c c' xs ws l m same r,
                )
          ]
        ]
      ]

  alloc_lem :
      (slot : Slot C M) (h k : Memory C) (ys : List M) (ws : List V)
      → IsFramed read
      → Grew h k
      → read_all read h.next k.next k.cells ys ≡ some ws
      → Grew h (alloc (slot.put ys) k).1
        × (read_slice slot read h.next
              (alloc (slot.put ys) k).1.next
              (alloc (slot.put ys) k).1.cells
              (some (alloc (slot.put ys) k).0)
            ≡ some (some ws))
  unfolding alloc
  alloc_lem slot h k ys ws framed g r = (
    record { more = omega (arith, g.more); same = λ a lt. ground (arith, lt, g.more, g.same a lt) },
    ground (arith, g.more, slot.take-put ys, all),
  )
    where
      all : read_all read h.next (suc k.next) (alloc (slot.put ys) k).1.cells ys ≡ some ws
      all =
          read_all-IsFramed framed _ _ _ _ _ _ ys ws (omega arith) (omega arith)
            (λ a _ lt. ground (arith, lt)) r

module _ {C M N V U : Type 0} {read : Reading C M V} {read' : Reading C N U} (copy : M → Mem C M)
    (copy' : N → Mem C N) where
  -- One deep copy after another
  pub IsDeep-both :
      IsFramed read
      → IsFramed read'
      → IsDeep read copy
      → (x : M) (y : N) (v : V) (u : U) (h : Memory C)
      → ((k : Memory C) → IsCopied read' copy' y u k)
      → read 0 h.next h.cells x ≡ some v
      → read' 0 h.next h.cells y ≡ some u
      → let h' = (copy x h).1 in
        let h'' = (copy' y h').1 in
        Grew h h''
        × (read h.next h''.next h''.cells (copy x h).0 ≡ some v)
        × (read' h.next h''.next h''.cells (copy' y h').0 ≡ some u)
  IsDeep-both framed framed' deep x y v u h deep' ex ey =
      let (g, r) = deep x v h ex in
      let ey' : read' 0 (copy x h).1.next (copy x h).1.cells y ≡ some u =
        framed' _ _ _ _ _ _ y u (omega arith) g.more (λ a _ lt. g.same a lt) ey in
      let (g', r') = deep' (copy x h).1 ey' in
      (
        Grew-trans g g',
        framed _ _ _ _ _ _ _ v (omega arith) g'.more (λ a _ lt. g'.same a lt) r,
        framed' _ _ _ _ _ _ _ u g.more (omega arith) (λ a _ lt. refl) r',
      )

module _ {C M V : Type 0} {read : Reading C M V} {copy : M → Mem C M} where
  copy_all-IsDeep : IsFramed read → IsDeep read copy → IsDeep (read_all read) (copy_all copy)
  unfolding copy_all
  copy_all-IsDeep framed deep [] vs h e = (Grew-refl h, e)
  copy_all-IsDeep framed deep (x ∷ xs) vs h e = elim (Option-cases (read 0 h.next h.cells x)) [
    | inl x_none ↦ ground (arith, e, x_none)
    | inr (v, x_some) ↦ elim (Option-cases (read_all read 0 h.next h.cells xs)) [
      | inl xs_none ↦ ground (arith, e, x_some, xs_none)
      | inr (ws, xs_some) ↦
          let (g, r, rs) =
            IsDeep-both copy (copy_all copy) framed (read_all-IsFramed read framed) deep x xs v ws h
              (copy_all-IsDeep framed deep xs ws) x_some xs_some in
          (g, ground (arith, e, x_some, xs_some, r, rs))
    ]
  ]

  pub copy_slice-IsDeep :
      (slot : Slot C M)
      → IsFramed read
      → IsDeep read copy
      → IsDeep (read_slice slot read) (copy_slice slot copy)
  unfolding copy_slice alloc
  copy_slice-IsDeep slot framed deep none vs h e = (Grew-refl h, e)
  copy_slice-IsDeep slot framed deep (some a) vs h e = elim (Option-cases (slot.take (h.cells a))) [
    | inl t ↦ ground (arith, e, t)
    | inr (xs, t) ↦ elim (Option-cases (read_all read 0 h.next h.cells xs)) [
      | inl r ↦ ground (arith, e, t, r)
      | inr (ws, r) ↦
          let (g, r') = copy_all-IsDeep framed deep xs ws h r in
          ground (
            arith,
            e,
            t,
            r,
            alloc_lem read slot h (copy_all copy xs h).1 (copy_all copy xs h).0 ws framed g r',
          )
    ]
  ]

module _ {C M : Type 0} where
  pub read_flat-IsFramed : IsFramed {C = C} {M = M} read_flat
  read_flat-IsFramed lo hi lo' hi' c c' m v l k same e = e

  pub read_flat-IsDeep : IsDeep {C = C} {M = M} read_flat pure
  read_flat-IsDeep m v h e = (Grew-refl h, e)

module _ {C M N V U : Type 0} {read : Reading C M V} {read' : Reading C N U} where
  pub read_pair-IsFramed : IsFramed read → IsFramed read' → IsFramed (read_pair read read')
  read_pair-IsFramed framed framed' lo hi lo' hi' c c' (x, y) vu l k same e =
      elim (Option-cases (read lo hi c x)) [
        | inl p ↦ ground (arith, e, p)
        | inr (v, p) ↦ elim (Option-cases (read' lo hi c y)) [
          | inl q ↦ ground (arith, e, p, q)
          | inr (u, q) ↦ ground (
            arith,
            e,
            p,
            q,
            framed lo hi lo' hi' c c' x v l k same p,
            framed' lo hi lo' hi' c c' y u l k same q,
          )
        ]
      ]

  pub copy_pair-IsDeep :
      {copy : M → Mem C M} {copy' : N → Mem C N}
      → IsFramed read
      → IsFramed read'
      → IsDeep read copy
      → IsDeep read' copy'
      → IsDeep (read_pair read read') (copy_pair copy copy')
  copy_pair-IsDeep {copy} {copy'} framed framed' deep deep' (x, y) vu h e =
      elim (Option-cases (read 0 h.next h.cells x)) [
        | inl p ↦ ground (arith, e, p)
        | inr (v, p) ↦ elim (Option-cases (read' 0 h.next h.cells y)) [
          | inl q ↦ ground (arith, e, p, q)
          | inr (u, q) ↦
              let (g, r, r') =
                IsDeep-both copy copy' framed framed' deep x y v u h (deep' y u) p q in
              (g, ground (arith, e, p, q, r, r'))
        ]
      ]
