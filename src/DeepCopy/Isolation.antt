-- ===== src/DeepCopy/Isolation.antt =====
-- api/v1alpha1/zz_generated.deepcopy.go: an object beside its deep copy.
use k8boss_operator.Prelude.{
  ℕ, ◌≤◌, ◌<◌, ◌≡◌, refl, arith, some, List, Nilable, Option-cases, inl, inr,
}
use k8boss_operator.Api.{PlatformConfigSpec}
use k8boss_operator.DeepCopy.Memory.{Memory, Mem, deep_copy}
use k8boss_operator.DeepCopy.Reads.{Reading, IsFramed, Grew}
use k8boss_operator.DeepCopy.Structs.{Cell}
use k8boss_operator.DeepCopy.Compose.{IsDeepCopy}
use k8boss_operator.DeepCopy.Objects.{
  Object, as_object, deep_copy_object, segmentation_policy, runtime_policy, platform_config,
  segmentation_list, runtime_list, platform_list, segmentation_policy_object, runtime_policy_object,
  platform_config_object, segmentation_list_object, runtime_list_object, platform_list_object,
  deep_copy_segmentation_policy, deep_copy_runtime_policy, deep_copy_platform_config,
  deep_copy_segmentation_list, deep_copy_runtime_list, deep_copy_platform_list,
}
use k8boss_operator.DeepCopy.Values.{
  SegmentationSpecValue, SegmentationStatusValue, RuntimeSpecValue, RuntimeStatusValue,
  PlatformStatusValue, read_segmentation_policy, read_runtime_policy, read_platform_config,
  read_segmentation_list, read_runtime_list, read_platform_list,
}
use k8boss_operator.DeepCopy.Parts.{
  segmentation_policy-IsDeepCopy, runtime_policy-IsDeepCopy, platform_config-IsDeepCopy,
  segmentation_list-IsDeepCopy, runtime_list-IsDeepCopy, platform_list-IsDeepCopy,
}

-- What an object stands for.
pub data ObjectValue (Value ListValue : Type 0) : Type 0 where
  segmentation_policy_value :
      (Value × (SegmentationSpecValue × SegmentationStatusValue)) → ObjectValue Value ListValue
  runtime_policy_value :
      (Value × (RuntimeSpecValue × RuntimeStatusValue)) → ObjectValue Value ListValue
  platform_config_value :
      (Value × (PlatformConfigSpec × PlatformStatusValue)) → ObjectValue Value ListValue
  segmentation_list_value :
      ListValue × Nilable (List (Value × (SegmentationSpecValue × SegmentationStatusValue)))
      → ObjectValue Value ListValue
  runtime_list_value :
      ListValue × Nilable (List (Value × (RuntimeSpecValue × RuntimeStatusValue)))
      → ObjectValue Value ListValue
  platform_list_value :
      ListValue × Nilable (List (Value × (PlatformConfigSpec × PlatformStatusValue)))
      → ObjectValue Value ListValue

module _ {Meta Value ListMeta ListValue : Type 0} (read_meta : Reading (Cell Meta) Meta Value)
    (read_list_meta : Reading (Cell Meta) ListMeta ListValue) where
  abbrev pub read_object : Reading (Cell Meta) (Object Meta ListMeta) (ObjectValue Value ListValue)
  read_object lo hi c (segmentation_policy x) =
      as_object segmentation_policy_value (read_segmentation_policy read_meta lo hi c x)
  read_object lo hi c (runtime_policy x) =
      as_object runtime_policy_value (read_runtime_policy read_meta lo hi c x)
  read_object lo hi c (platform_config x) =
      as_object platform_config_value (read_platform_config read_meta lo hi c x)
  read_object lo hi c (segmentation_list x) =
      as_object segmentation_list_value (read_segmentation_list read_meta read_list_meta lo hi c x)
  read_object lo hi c (runtime_list x) =
      as_object runtime_list_value (read_runtime_list read_meta read_list_meta lo hi c x)
  read_object lo hi c (platform_list x) =
      as_object platform_list_value (read_platform_list read_meta read_list_meta lo hi c x)

-- What stands in an interface is copied as the value in it.
wrapped :
    {C M V O : Type 0} {read : Reading C M V} {copy : M → Mem C M} (wrap : V → O)
    → IsDeepCopy read copy
    → IsDeepCopy (λ lo hi c m. as_object wrap (read lo hi c m)) copy
wrapped {read = read} wrap d = record {
  framed = λ lo hi lo' hi' c c' m v l k same e. elim (Option-cases (read lo hi c m)) [
    | inl p ↦ ground (arith, e, p)
    | inr (u, p) ↦ ground (arith, e, p, d.framed lo hi lo' hi' c c' m u l k same p)
  ];
  deep = λ m v h e. elim (Option-cases (read 0 h.next h.cells m)) [
    | inl p ↦ ground (arith, e, p)
    | inr (u, p) ↦ let (g, r) = d.deep m u h p in (g, ground (arith, e, p, r))
  ];
}

module _ {Meta Value ListMeta ListValue : Type 0} (read_meta : Reading (Cell Meta) Meta Value)
    (read_list_meta : Reading (Cell Meta) ListMeta ListValue)
    (copy_meta : Meta → Mem (Cell Meta) Meta) (copy_list_meta : ListMeta → Mem (Cell Meta) ListMeta)
    (meta : IsDeepCopy read_meta copy_meta)
    (list_meta : IsDeepCopy read_list_meta copy_list_meta) where
  read_object-IsFramed : IsFramed (read_object read_meta read_list_meta)
  read_object-IsFramed lo hi lo' hi' c c' (segmentation_policy x) =
      (wrapped segmentation_policy_value (segmentation_policy-IsDeepCopy meta)).framed lo hi lo' hi'
        c c' x
  read_object-IsFramed lo hi lo' hi' c c' (runtime_policy x) =
      (wrapped runtime_policy_value (runtime_policy-IsDeepCopy meta)).framed lo hi lo' hi' c c' x
  read_object-IsFramed lo hi lo' hi' c c' (platform_config x) =
      (wrapped platform_config_value (platform_config-IsDeepCopy meta)).framed lo hi lo' hi' c c' x
  read_object-IsFramed lo hi lo' hi' c c' (segmentation_list x) =
      (wrapped segmentation_list_value (segmentation_list-IsDeepCopy meta list_meta)).framed lo hi
        lo' hi' c c' x
  read_object-IsFramed lo hi lo' hi' c c' (runtime_list x) =
      (wrapped runtime_list_value (runtime_list-IsDeepCopy meta list_meta)).framed lo hi lo' hi' c
        c' x
  read_object-IsFramed lo hi lo' hi' c c' (platform_list x) =
      (wrapped platform_list_value (platform_list-IsDeepCopy meta list_meta)).framed lo hi lo' hi' c
        c' x

  deep_copy_object_lem :
      (o : Object Meta ListMeta) (v : ObjectValue Value ListValue) (h : Memory (Cell Meta))
      → read_object read_meta read_list_meta 0 h.next h.cells o ≡ some v
      → let h' = (deep_copy_object copy_meta copy_list_meta o h).1 in
        (o' : Object Meta ListMeta) × ((deep_copy_object copy_meta copy_list_meta o h).0 ≡ some o')
        × Grew h h'
        × (read_object read_meta read_list_meta h.next h'.next h'.cells o' ≡ some v)
  unfolding deep_copy_object deep_copy segmentation_policy_object runtime_policy_object
      platform_config_object segmentation_list_object runtime_list_object platform_list_object
      deep_copy_segmentation_policy deep_copy_runtime_policy deep_copy_platform_config
      deep_copy_segmentation_list deep_copy_runtime_list deep_copy_platform_list
  deep_copy_object_lem (segmentation_policy x) v h e =
      let (g, r) =
        (wrapped segmentation_policy_value (segmentation_policy-IsDeepCopy meta)).deep x v h e in
      (segmentation_policy _, refl, g, r)
  deep_copy_object_lem (runtime_policy x) v h e =
      let (g, r) = (wrapped runtime_policy_value (runtime_policy-IsDeepCopy meta)).deep x v h e in
      (runtime_policy _, refl, g, r)
  deep_copy_object_lem (platform_config x) v h e =
      let (g, r) = (wrapped platform_config_value (platform_config-IsDeepCopy meta)).deep x v h e in
      (platform_config _, refl, g, r)
  deep_copy_object_lem (segmentation_list x) v h e =
      let (g, r) =
        (wrapped segmentation_list_value (segmentation_list-IsDeepCopy meta list_meta)).deep x v h
          e in
      (segmentation_list _, refl, g, r)
  deep_copy_object_lem (runtime_list x) v h e =
      let (g, r) =
        (wrapped runtime_list_value (runtime_list-IsDeepCopy meta list_meta)).deep x v h e in
      (runtime_list _, refl, g, r)
  deep_copy_object_lem (platform_list x) v h e =
      let (g, r) =
        (wrapped platform_list_value (platform_list-IsDeepCopy meta list_meta)).deep x v h e in
      (platform_list _, refl, g, r)

  -- If an object reads as v in the memory as it is, DeepCopyObject returns an object, and the two are
  -- apart: in any memory c in which the addresses that the copy took hold what it left there, whatever
  -- the others hold, the copy reads as v, and in any memory c' in which the addresses that were in use
  -- before hold what they held, the object that was copied reads as v.
  pub deep_copy_object-IsIsolated :
      (o : Object Meta ListMeta) (v : ObjectValue Value ListValue) (h : Memory (Cell Meta))
      (c c' : ℕ → Cell Meta)
      → read_object read_meta read_list_meta 0 h.next h.cells o ≡ some v
      → let h' = (deep_copy_object copy_meta copy_list_meta o h).1 in
        ((a : ℕ) → h.next ≤ a → a < h'.next → c a ≡ h'.cells a)
        → ((a : ℕ) → a < h.next → c' a ≡ h.cells a)
        → (o' : Object Meta ListMeta) × ((deep_copy_object copy_meta copy_list_meta o h).0
            ≡ some o')
          × (read_object read_meta read_list_meta 0 h'.next c o' ≡ some v)
          × (read_object read_meta read_list_meta 0 h'.next c' o ≡ some v)
  deep_copy_object-IsIsolated o v h c c' e taken kept =
      let (o', found, grew, copied) = deep_copy_object_lem o v h e in
      (
        o',
        found,
        read_object-IsFramed h.next _ 0 _ _ c o' v (omega arith) (omega arith) taken copied,
        read_object-IsFramed 0 h.next 0 _ _ c' o v (omega arith) grew.more (λ a _. kept a) e,
      )
