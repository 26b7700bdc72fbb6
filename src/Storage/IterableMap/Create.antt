-- ===== src/Storage/IterableMap/Create.antt =====
-- `CreateItem` of storage/iterable_map.go on the list that a map stands for.
use taraxa_evm.Prelude.{
  ℕ, ◌+◌, ◌%◌, ◌^◌, ◌<◌, ◌≡◌, ◌≢◌, ◌⊎◌, refl, some, List, [], ◌∷◌, ◌++◌, Bytes, length, get_elem?,
  false, ◌==◌, if◌then◌else◌, arith, Bool-cases, inl, inr, length-append,
}
use taraxa_evm.Storage.Codec.{uint32_to_bytes}
use taraxa_evm.Storage.Interface.{Keccak, Stor}
use taraxa_evm.Storage.Wrapper.{is_empty, assign}
use taraxa_evm.Storage.IterableMap.{Slice, init, uint32_of, create_item, create_at}
use taraxa_evm.Storage.IterableMap.Keys.{
  IsItem, same_self, same-item_key, same-pos_key, same-pos_item, same-item_pos, same-count_item,
  same-count_pos,
}
use taraxa_evm.Storage.IterableMap.Model.{get_elem?-append_one, lt_of_get_elem?}
use taraxa_evm.Storage.IterableMap.Represents.{Represents, Holds, Shows-Holds, key, pos, count_key}
use taraxa_evm.Storage.IterableMap.Views.{
  uint32_of-uint32_to_bytes, Shows, Shows-write, Shows-get_count, Shows-item_pos,
}

module _ (keccak : Keccak) (p : Slice) (f : keccak.Hash → Bytes) (l : List Bytes) (item : Bytes)
    (r : Represents keccak p f l) (fresh : (i : ℕ) → get_elem? l i ≢ some item)
    (filled : is_empty item ≡ false) (sized : IsItem item) (room : length l + 1 < 2 ^ 32) where
  open keccak use {Hash, same}

  -- The contents after the writes of `CreateItem`.
  pub created : Hash → Bytes
  created = assign keccak (count_key keccak p) (uint32_to_bytes (length l + 1)) (
      assign keccak (pos keccak p item) (uint32_to_bytes (length l + 1))
        (assign keccak (key keccak p (length l + 1)) item f))

  created_count : created (count_key keccak p) ≡ uint32_to_bytes (length l + 1)
  unfolding created
  created_count = ground (arith, same_self keccak (count_key keccak p))

  created-key :
      (i : ℕ)
      → i < length l + 1
      → created (key keccak p (i + 1)) ≡ (if i == length l then item else f (key keccak p (i + 1)))
  unfolding created
  created-key i h = ground (
    arith,
    same-count_item keccak p (i + 1),
    same-pos_item keccak p (i + 1) item sized,
    same-item_key keccak p (length l + 1) (i + 1),
    same_self keccak (key keccak p (i + 1)),
  )

  created-pos :
      (x : Bytes)
      → IsItem x
      → created (pos keccak p x) ≡ (
          if same (pos keccak p item) (pos keccak p x)
          then uint32_to_bytes (length l + 1)
          else f (pos keccak p x))
  unfolding created
  created-pos x h =
      ground (arith, same-count_pos keccak p x, same-item_pos keccak p (length l + 1) x h)

  created-sized : (i : ℕ) (x : Bytes) → get_elem? (l ++ (item ∷ [])) i ≡ some x → IsItem x
  created-sized i x e =
      let b = lt_of_get_elem? (l ++ (item ∷ [])) i x e in
      ground (arith, get_elem?-append_one l item i, r.sized i x, sized)

  created-item_at :
      (i : ℕ) (x : Bytes)
      → get_elem? (l ++ (item ∷ [])) i ≡ some x
      → created (key keccak p (i + 1)) ≡ x
  created-item_at i x e =
      let b = lt_of_get_elem? (l ++ (item ∷ [])) i x e in
      let n = length-append l (item ∷ []) in
      ground
        (arith, get_elem?-append_one l item i, created-key i (omega (arith, b, n)), r.item_at i x)

  created-pos_of :
      (i : ℕ) (x : Bytes)
      → get_elem? (l ++ (item ∷ [])) i ≡ some x
      → created (pos keccak p x) ≡ uint32_to_bytes (i + 1)
  created-pos_of i x e = elim (Bool-cases (same (pos keccak p item) (pos keccak p x))) [
    | inl t ↦
        let same_item = same-pos_key keccak p item x t in
        ground (
          arith,
          get_elem?-append_one l item i,
          created-pos x (created-sized i x e),
          fresh i,
          same_item,
          lt_of_get_elem? (l ++ (item ∷ [])) i x,
        )
    | inr t ↦ ground (
      arith,
      get_elem?-append_one l item i,
      created-pos x (created-sized i x e),
      r.pos_of i x,
      same_self keccak (pos keccak p x),
    )
  ]

  created-absent :
      (x : Bytes)
      → IsItem x
      → (created (pos keccak p x) ≡ []) ⊎ ((i : ℕ) × (get_elem? (l ++ (item ∷ [])) i ≡ some x))
  created-absent x is_item = elim (Bool-cases (same (pos keccak p item) (pos keccak p x))) [
    | inl t ↦
        let same_item = same-pos_key keccak p item x t in
        inr (length l, ground (arith, get_elem?-append_one l item (length l)))
    | inr t ↦ elim (r.absent x is_item) [
      | inl none_there ↦ inl (ground (arith, created-pos x is_item))
      | inr (i, e) ↦ inr (i, ground (arith, get_elem?-append_one l item i, lt_of_get_elem? l i x e))
    ]
  ]

  pub created-Represents : Represents keccak p created (l ++ (item ∷ []))
  created-Represents = record {
    counted =
        rw (created_count, length-append l (item ∷ []))
          (uint32_of-uint32_to_bytes (length l + 1) room);
    item_at = created-item_at;
    pos_of = created-pos_of;
    absent = created-absent;
    not_empty = λ i x e. ground (arith, get_elem?-append_one l item i, r.not_empty i x);
    sized = created-sized;
    bounded = omega (arith, length-append l (item ∷ []));
  }

  pub item_pos_zero : uint32_of (f (pos keccak p item)) ≡ some 0
  item_pos_zero = elim (r.absent item sized) [ inl e ↦ rw e refl | inr (i, e) ↦ absurd (fresh i e) ]

module _ (keccak : Keccak) (stor : Stor keccak) where
  -- On a storage that holds a list under the prefix, creating an item that is not in the list, not
  -- empty nor of four bytes, and for which `uint32` positions are left, returns the new count and leaves a storage
  -- that holds the list with the item at its end.
  pub create_item-Holds :
      (p : Slice) (s : stor.State) (l : List Bytes) (item : Bytes)
      → Holds keccak stor p s l
      → ((i : ℕ) → get_elem? l i ≢ some item)
      → is_empty item ≡ false
      → IsItem item
      → length l + 1 < 2 ^ 32
      → (s' : stor.State) × (create_item keccak stor (init keccak p) item s
          ≡ some (length l + 1, s'))
        × Holds keccak stor p s' (l ++ (item ∷ []))
  unfolding create_item create_at created
  create_item-Holds p s l item h fresh filled sized room =
      let f = stor.view s in
      let r = h.1 in
      let shown : Shows keccak stor s f = (h.0, λ k. refl) in
      let n : (length l + 1) % 2 ^ 32 ≡ length l + 1 = omega arith in
      let (s1, e1, h1) =
        Shows-item_pos keccak stor (init keccak p) item shown
          (item_pos_zero keccak p f l item r fresh filled sized room) in
      let (s2, e2, h2) = Shows-get_count keccak stor (init keccak p) h1 r.counted in
      let k = key keccak p (length l + 1) in
      let le = uint32_to_bytes (length l + 1) in
      let h3 = Shows-write keccak stor k item h2 in
      let h4 = Shows-write keccak stor (pos keccak p item) le h3 in
      let h5 = Shows-write keccak stor (count_key keccak p) le h4 in
      (
        stor.put (count_key keccak p) le (stor.put (pos keccak p item) le (stor.put k item s2)),
        ground (arith, e1, e2, n),
        Shows-Holds keccak stor p _ _ _ h5
            (created-Represents keccak p f l item r fresh filled sized room),
      )
