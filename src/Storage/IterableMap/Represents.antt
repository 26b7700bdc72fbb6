-- ===== src/Storage/IterableMap/Represents.antt =====
-- When the contents of a storage hold the map with a prefix, as a list of items.
use taraxa_evm.Prelude.{
  ℕ, ◌+◌, ◌^◌, ◌<◌, ◌≡◌, ◌⊎◌, some, List, [], sym, ◌∙◌, arith, Bytes, length, get_elem?, false,
}
use mathlib.Core.Path.{fun_ext}
use taraxa_evm.Storage.Codec.{uint32_to_bytes}
use taraxa_evm.Storage.Interface.{Keccak, Stor}
use taraxa_evm.Storage.Wrapper.{is_empty}
use taraxa_evm.Storage.IterableMap.{Slice, init, item_key, pos_key, uint32_of}
use taraxa_evm.Storage.IterableMap.Keys.{IsItem, uint32_to_bytes_injective}
use taraxa_evm.Storage.IterableMap.Model.{lt_of_get_elem?}
use taraxa_evm.Storage.IterableMap.Views.{Shows}

module _ (keccak : Keccak) where
  open keccak use {Hash}

  abbrev pub key : Slice → ℕ → Hash
  key p i = item_key keccak (init keccak p) i

  abbrev pub pos : Slice → Bytes → Hash
  pos p x = pos_key keccak (init keccak p) x

  abbrev pub count_key : Slice → Hash
  count_key p = (init keccak p).items_count_storage_key

  -- The count, the items at positions 1, 2, ... and the position of each item; any other item has no
  -- position. No item has as many bytes as a position, which tells their keys apart. An item is
  -- never empty, and its position tells it from the others.
  pub record Represents (p : Slice) (f : Hash → Bytes) (l : List Bytes) : Type 0 where
    pub counted : uint32_of (f (count_key p)) ≡ some (length l)
    pub item_at : (i : ℕ) (x : Bytes) → get_elem? l i ≡ some x → f (key p (i + 1)) ≡ x
    pub pos_of :
        (i : ℕ) (x : Bytes) → get_elem? l i ≡ some x → f (pos p x) ≡ uint32_to_bytes (i + 1)
    pub absent : (x : Bytes) → IsItem x → (f (pos p x) ≡ []) ⊎ ((i : ℕ) × (get_elem? l i ≡ some x))
    pub not_empty : (i : ℕ) (x : Bytes) → get_elem? l i ≡ some x → is_empty x ≡ false
    pub sized : (i : ℕ) (x : Bytes) → get_elem? l i ≡ some x → IsItem x
    pub bounded : length l < 2 ^ 32

  -- An item stands at one position.
  pub distinct :
      (p : Slice) (f : Hash → Bytes) (l : List Bytes) (r : Represents p f l) (i j : ℕ) (x : Bytes)
      → get_elem? l i ≡ some x
      → get_elem? l j ≡ some x
      → i ≡ j
  distinct p f l r i j x e d =
      let a = lt_of_get_elem? l i x e in
      let b = lt_of_get_elem? l j x d in
      let c = r.bounded in
      let s =
        uint32_to_bytes_injective (i + 1) (j + 1) (omega (arith, a, c)) (omega (arith, b, c))
          (sym (r.pos_of i x e) ∙ r.pos_of j x d) in
      omega (arith, s)

-- The storage is coherent, and its contents hold the map.
abbrev pub Holds : (keccak : Keccak) (stor : Stor keccak) → Slice → stor.State → List Bytes → Type 0
Holds keccak stor p s l = stor.IsCoherent s × Represents keccak p (stor.view s) l

pub Shows-Holds :
    (keccak : Keccak) (stor : Stor keccak) (p : Slice) (s : stor.State) (f : keccak.Hash → Bytes)
    (l : List Bytes)
    → Shows keccak stor s f
    → Represents keccak p f l
    → Holds keccak stor p s l
Shows-Holds keccak stor p s f l h r = (h.0, rw (fun_ext h.1) r)
