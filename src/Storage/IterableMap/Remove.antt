-- ===== src/Storage/IterableMap/Remove.antt =====
-- `RemoveItem` of storage/iterable_map.go on the list that a map stands for.
use taraxa_evm.Prelude.{
  ℕ, ◌+◌, ◌-◌, ◌<◌, ◌≡◌, ◌≢◌, ◌⊎◌, refl, none, some, List, [], Bytes, length, get_elem?, ◌==◌, ltb,
  if◌then◌else◌, arith, Bool-cases, inl, inr, get_elem?-lt, ==→ne,
}
use taraxa_evm.Storage.Codec.{uint32_to_bytes}
use taraxa_evm.Storage.Interface.{Keccak, Stor}
use taraxa_evm.Storage.Wrapper.{assign}
use taraxa_evm.Storage.IterableMap.{Slice, init, uint32_of, remove_item, remove_last, remove_middle}
use taraxa_evm.Storage.IterableMap.Keys.{
  IsItem, same_self, same-item_key, same-pos_key, same-pos_item, same-item_pos, same-count_item,
  same-count_pos,
}
use taraxa_evm.Storage.IterableMap.Model.{
  lt_of_get_elem?, swap_remove, get_elem?-swap_remove, length-swap_remove,
}
use taraxa_evm.Storage.IterableMap.Represents.{
  Represents, Holds, Shows-Holds, distinct, key, pos, count_key,
}
use taraxa_evm.Storage.IterableMap.Views.{
  uint32_of-uint32_to_bytes, Shows, Shows-read, Shows-write, Shows-get_count, Shows-item_pos,
}

-- What contents `g` have to hold for the list without its item at `i`.
module _ (keccak : Keccak) (p : Slice) (f g : keccak.Hash → Bytes) (l : List Bytes) (i : ℕ)
    (item last : Bytes) (r : Represents keccak p f l) (there : get_elem? l i ≡ some item)
    (at_end : get_elem? l (length l - 1) ≡ some last)
    (g_count : g (count_key keccak p) ≡ uint32_to_bytes (length l - 1))
    (g_key : (j : ℕ)
      → j + 1 < length l
      → g (key keccak p (j + 1)) ≡ (if j == i then last else f (key keccak p (j + 1))))
    (g_pos : (x : Bytes)
      → IsItem x
      → g (pos keccak p x) ≡ (
          if keccak.same (pos keccak p item) (pos keccak p x)
          then []
          else if keccak.same (pos keccak p last) (pos keccak p x)
          then uint32_to_bytes (i + 1)
          else f (pos keccak p x))) where
  open keccak use {Hash, same}

  left : List Bytes
  left = swap_remove l i last

  -- The item at `j` of what is left.
  left_at :
      (j : ℕ)
      → get_elem? left j
        ≡ (if ltb j (length l - 1) then (if j == i then some last else get_elem? l j) else none)
  unfolding left
  left_at j = get_elem?-swap_remove l i last j (lt_of_get_elem? l i item there)

  left-sized : (j : ℕ) (x : Bytes) → get_elem? left j ≡ some x → IsItem x
  left-sized j x e = ground (arith, left_at j, r.sized j x, r.sized (length l - 1) x)

  left-item_at : (j : ℕ) (x : Bytes) → get_elem? left j ≡ some x → g (key keccak p (j + 1)) ≡ x
  left-item_at j x e =
      let short = lt_of_get_elem? l i item there in
      ground (arith, left_at j, g_key j, r.item_at j x)

  left-pos_of :
      (j : ℕ) (x : Bytes) → get_elem? left j ≡ some x → g (pos keccak p x) ≡ uint32_to_bytes (j + 1)
  left-pos_of j x e =
      let short = lt_of_get_elem? l i item there in
      let one = distinct keccak p f l r in
      elim (Bool-cases (same (pos keccak p item) (pos keccak p x))) [
        | inl t ↦
            let same_item = same-pos_key keccak p item x t in
            ground (arith, left_at j, same_item, one i j x, one i (length l - 1) x)
        | inr t ↦ elim (Bool-cases (same (pos keccak p last) (pos keccak p x))) [
          | inl u ↦
              let same_last = same-pos_key keccak p last x u in
              ground
                (arith, left_at j, g_pos x (left-sized j x e), same_last, one j (length l - 1) x)
          | inr u ↦ ground (
            arith,
            left_at j,
            g_pos x (left-sized j x e),
            r.pos_of j x,
            same_self keccak (pos keccak p x),
          )
        ]
      ]

  left-absent :
      (x : Bytes) → IsItem x → (g (pos keccak p x) ≡ []) ⊎ ((j : ℕ) × (get_elem? left j ≡ some x))
  left-absent x is_item =
      let short = lt_of_get_elem? l i item there in
      elim (Bool-cases (same (pos keccak p item) (pos keccak p x))) [
        | inl t ↦ inl (ground (arith, g_pos x is_item))
        | inr t ↦ elim (Bool-cases (same (pos keccak p last) (pos keccak p x))) [
          | inl u ↦
              let same_last = same-pos_key keccak p last x u in
              inr (
                i,
                ground
                    (arith, left_at i, same_last, at_end, there, same_self keccak (pos keccak p x)),
              )
          | inr u ↦ elim (r.absent x is_item) [
            | inl e ↦ inl (ground (arith, g_pos x is_item))
            | inr (j, e) ↦ inr (
              j,
              ground (
                arith,
                left_at j,
                lt_of_get_elem? l j x e,
                at_end,
                there,
                same_self keccak (pos keccak p x),
              ),
            )
          ]
        ]
      ]

  pub left-Represents : Represents keccak p g (swap_remove l i last)
  unfolding left
  left-Represents =
      let short = lt_of_get_elem? l i item there in
      let room = r.bounded in
      record {
        counted =
            rw (g_count, length-swap_remove l i last)
              (uint32_of-uint32_to_bytes (length l - 1) (omega (arith, room)));
        item_at = left-item_at;
        pos_of = left-pos_of;
        absent = left-absent;
        not_empty =
            λ j x e. ground (arith, left_at j, r.not_empty j x, r.not_empty (length l - 1) x);
        sized = left-sized;
        bounded = omega (arith, length-swap_remove l i last, room);
      }

module _ (keccak : Keccak) (p : Slice) (f : keccak.Hash → Bytes) (l : List Bytes) (i : ℕ)
    (item : Bytes) (r : Represents keccak p f l) (there : get_elem? l i ≡ some item) where
  open keccak use {Hash, same}

  item_pos_there : uint32_of (f (pos keccak p item)) ≡ some (i + 1)
  item_pos_there =
      let b = lt_of_get_elem? l i item there in
      let c = r.bounded in
      rw (r.pos_of i item there) (uint32_of-uint32_to_bytes (i + 1) (omega (arith, b, c)))

  -- The contents after the writes at the last position.
  abbrev without_last : Hash → Bytes
  without_last =
      assign keccak (count_key keccak p) (uint32_to_bytes (length l - 1))
        (assign keccak (pos keccak p item) [] (assign keccak (key keccak p (i + 1)) [] f))

  without_last-Represents :
      i + 1 ≡ length l → Represents keccak p without_last (swap_remove l i item)
  without_last-Represents at_end =
      let room = r.bounded in
      let e : i ≡ length l - 1 = omega arith in
      left-Represents keccak p f without_last l i item item r there (rw (← e) there)
        (ground (arith, same_self keccak (count_key keccak p)))
        (λ j h. ground (
          arith,
          same-count_item keccak p (j + 1),
          same-pos_item keccak p (j + 1) item (r.sized i item there),
          same-item_key keccak p (i + 1) (j + 1),
        ))
        (λ x z. ground (arith, same-count_pos keccak p x, same-item_pos keccak p (i + 1) x z))

  -- The contents after the writes in the middle.
  abbrev without_middle : Bytes → Hash → Bytes
  without_middle last = assign keccak (count_key keccak p) (uint32_to_bytes (length l - 1)) (
      assign keccak (key keccak p (length l)) [] (
        assign keccak (pos keccak p item) [] (
          assign keccak (key keccak p (i + 1)) last
            (assign keccak (pos keccak p last) (uint32_to_bytes (i + 1)) f))))

  without_middle-Represents :
      (last : Bytes)
      → i + 1 ≢ length l
      → get_elem? l (length l - 1) ≡ some last
      → Represents keccak p (without_middle last) (swap_remove l i last)
  without_middle-Represents last inside at_end =
      let room = r.bounded in
      let short = lt_of_get_elem? l i item there in
      left-Represents keccak p f (without_middle last) l i item last r there at_end
        (ground (arith, same_self keccak (count_key keccak p)))
        (λ j h. ground (
          arith,
          same-count_item keccak p (j + 1),
          same-pos_item keccak p (j + 1) item (r.sized i item there),
          same-pos_item keccak p (j + 1) last (r.sized (length l - 1) last at_end),
          same-item_key keccak p (i + 1) (j + 1),
          same-item_key keccak p (length l) (j + 1),
          same_self keccak (key keccak p (j + 1)),
        ))
        (λ x z. ground (
          arith,
          same-count_pos keccak p x,
          same-item_pos keccak p (i + 1) x z,
          same-item_pos keccak p (length l) x z,
        ))

module _ (keccak : Keccak) (stor : Stor keccak) where
  -- On a storage that holds a list under the prefix, removing the item at position i returns the
  -- new count and leaves a storage that holds the list with the last item in the place of the
  -- removed one and one item less.
  pub remove_item-Holds :
      (p : Slice) (s : stor.State) (l : List Bytes) (i : ℕ) (item : Bytes)
      → Holds keccak stor p s l
      → get_elem? l i ≡ some item
      → (last : Bytes) × (s' : stor.State) × (get_elem? l (length l - 1) ≡ some last)
        × (remove_item keccak stor (init keccak p) item s ≡ some (length l - 1, s'))
        × Holds keccak stor p s' (swap_remove l i last)
  unfolding remove_item remove_last remove_middle
  remove_item-Holds p s l i item h there =
      let f = stor.view s in
      let r = h.1 in
      let m = init keccak p in
      let shown : Shows keccak stor s f = (h.0, λ k. refl) in
      let short = lt_of_get_elem? l i item there in
      let (s1, e1, h1) = Shows-get_count keccak stor m shown r.counted in
      let (s2, e2, h2) =
        Shows-item_pos keccak stor m item h1 (item_pos_there keccak p f l i item r there) in
      let n = uint32_to_bytes (length l - 1) in
      let k = key keccak p (i + 1) in
      elim (Bool-cases (i + 1 == length l)) [
        | inl t ↦
            let at_end : i ≡ length l - 1 = ground arith in
            let h3 = Shows-write keccak stor k [] h2 in
            let h4 = Shows-write keccak stor (pos keccak p item) [] h3 in
            let h5 = Shows-write keccak stor (count_key keccak p) n h4 in
            (
              item,
              stor.put (count_key keccak p) n (stor.put (pos keccak p item) [] (stor.put k [] s2)),
              rw (← at_end) there,
              ground (arith, e1, e2),
              Shows-Holds keccak stor p _ _ _ h5
                  (without_last-Represents keccak p f l i item r there (omega arith)),
            )
        | inr t ↦
            let (last, at_end) = get_elem?-lt l (length l - 1) (omega arith) in
            let up : length l - 1 + 1 ≡ length l = omega arith in
            let at_key = rw up at (r.item_at (length l - 1) last at_end) in
            let filled = r.not_empty (length l - 1) last at_end in
            let kn = key keccak p (length l) in
            let (v, h3) = Shows-read keccak stor kn h2 in
            let s3 = (stor.get kn s2).1 in
            let i1 = uint32_to_bytes (i + 1) in
            let h4 = Shows-write keccak stor (pos keccak p last) i1 h3 in
            let h5 = Shows-write keccak stor k last h4 in
            let h6 = Shows-write keccak stor (pos keccak p item) [] h5 in
            let h7 = Shows-write keccak stor kn [] h6 in
            let h8 = Shows-write keccak stor (count_key keccak p) n h7 in
            let s5 = stor.put k last (stor.put (pos keccak p last) i1 s3) in
            (
              last,
              stor.put (count_key keccak p) n (stor.put kn [] (stor.put (pos keccak p item) [] s5)),
              at_end,
              ground (arith, e1, e2, v, at_key, filled, t),
              Shows-Holds keccak stor p _ _ _ h8
                  (without_middle-Represents keccak p f l i item r there last (==→ne _ _ t) at_end),
            )
      ]
