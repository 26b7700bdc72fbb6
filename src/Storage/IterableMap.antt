-- ===== src/Storage/IterableMap.antt =====
-- `IterableMap` of storage/iterable_map.go, and `AddressesIMap` and `IdsIMap` over it, as operations
-- on any storage of the interface. `none` is a panic; numbers are `uint32`.
pub mod Views
pub mod Keys
pub mod Model
pub mod Represents
pub mod Create
pub mod Remove
pub mod Items
use taraxa_evm.Prelude.{
  ℕ, zero, suc, ◌+◌, ◌-◌, ◌*◌, ◌%◌, ◌^◌, Bool, true, false, not, ◌&&◌, ◌||◌, ltb, leb, ◌==◌,
  if◌then◌else◌, Option, none, some, List, [], ◌∷◌, ◌++◌, map, Bytes, length, set, replicate, drop,
}
use taraxa_evm.Storage.Codec.{uint32_to_bytes, bytes_to_uint32, uint64_to_bytes, bytes_to_uint64}
use taraxa_evm.Storage.Interface.{Keccak, Stor}
use taraxa_evm.Storage.Wrapper.{is_empty}

-- The callback is not called at an absent entry, and the default stays.
abbrev pub uint32_of : Bytes → Option ℕ
uint32_of [] = some 0
uint32_of (b ∷ bs) = bytes_to_uint32 (b ∷ bs)

-- A Go slice: its bytes, and the capacity of its array from there on.
pub record Slice : Type 0 where
  pub bytes : Bytes
  pub capacity : ℕ

module _ (keccak : Keccak) where
  open keccak use {Hash, hash}

  -- The fields of `Init`: `append(prefix, field...)` and the hash of the count's key.
  pub record IterableMap : Type 0 where
    pub items_storage_prefix : Bytes
    pub items_count_storage_key : Hash
    pub items_pos_storage_prefix : Bytes

  -- Where the prefix has room for a byte, `append(prefix, field_items...)` writes into the prefix's
  -- own array, and `append(prefix, field_items_pos...)` then overwrites the byte that it wrote.
  unfoldable pub init : Slice → IterableMap
  init prefix = record {
    items_storage_prefix =
        prefix.bytes ++ ((if ltb (length prefix.bytes) prefix.capacity then 2 else 0) ∷ []);
    items_count_storage_key = hash (prefix.bytes ++ (1 ∷ []));
    items_pos_storage_prefix = prefix.bytes ++ (2 ∷ []);
  }

  abbrev pub pos_key : IterableMap → Bytes → Hash
  pos_key m item = hash (m.items_pos_storage_prefix ++ item)

  abbrev pub item_key : IterableMap → ℕ → Hash
  item_key m pos = hash (m.items_storage_prefix ++ uint32_to_bytes pos)

module _ (keccak : Keccak) (stor : Stor keccak) where
  open keccak use {Hash}
  open stor use {State}

  abbrev pub M : Type 0 → Type 0
  M A = State → Option (A × State)

  infixl 5 ◌>>=◌ ◌>>◌
  abbrev pub ◌>>=◌ : {A B : Type 0} → M A → (A → M B) → M B
  ◌>>=◌ m f s = elim (m s) [ none ↦ none | some (a, s') ↦ f a s' ]

  abbrev pub ◌>>◌ : {B : Type 0} → M (Unit {0}) → M B → M B
  m >> k = m >>= λ _. k

  abbrev pub pure : {A : Type 0} → A → M A
  pure a s = some (a, s)

  abbrev pub panic : {A : Type 0} → M A
  panic s = none

  abbrev pub read : Hash → M Bytes
  read k s = some (stor.get k s)

  abbrev pub write : Hash → Bytes → M (Unit {0})
  write k v s = some (tt, stor.put k v s)

  -- a decoder that may panic
  abbrev pub decoded : Option ℕ → M ℕ
  decoded none = panic
  decoded (some n) = pure n

  unfoldable pub get_count : IterableMap keccak → M ℕ
  get_count m = do bytes ← read m.items_count_storage_key; decoded (uint32_of bytes)

  -- `itemExists`: the position, 0 for an item that does not exist
  unfoldable pub item_pos : IterableMap keccak → Bytes → M ℕ
  item_pos m item = do bytes ← read (pos_key keccak m item); decoded (uint32_of bytes)

  unfoldable pub item_exists : IterableMap keccak → Bytes → M Bool
  item_exists m item = do pos ← item_pos m item; pure (not (pos == 0))

  -- The writes of `CreateItem`.
  unfoldable pub create_at : IterableMap keccak → Bytes → ℕ → M ℕ
  create_at m item new_item_pos = do
    write (item_key keccak m new_item_pos) item
    write (pos_key keccak m item) (uint32_to_bytes new_item_pos)
    write m.items_count_storage_key (uint32_to_bytes new_item_pos)
    pure new_item_pos

  unfoldable pub create_item : IterableMap keccak → Bytes → M ℕ
  create_item m item = do
    pos ← item_pos m item
    items_count ← get_count m
    if not (pos == 0) then panic else create_at m item ((items_count + 1) % 2 ^ 32)

  unfoldable pub remove_last : IterableMap keccak → Bytes → (delete_item_pos items_count : ℕ) → M ℕ
  remove_last m item delete_item_pos items_count = do
    write (item_key keccak m delete_item_pos) []
    write (pos_key keccak m item) []
    write m.items_count_storage_key (uint32_to_bytes (items_count - 1))
    pure (items_count - 1)

  -- The last item takes the place of the item to be deleted.
  unfoldable pub remove_middle :
      IterableMap keccak → Bytes → (delete_item_pos items_count : ℕ) → (last_item : Bytes) → M ℕ
  remove_middle m item delete_item_pos items_count last_item = do
    write (pos_key keccak m last_item) (uint32_to_bytes delete_item_pos)
    write (item_key keccak m delete_item_pos) last_item
    write (pos_key keccak m item) []
    write (item_key keccak m items_count) []
    write m.items_count_storage_key (uint32_to_bytes (items_count - 1))
    pure (items_count - 1)

  unfoldable pub remove_item : IterableMap keccak → Bytes → M ℕ
  remove_item m item = do
    items_count ← get_count m
    if items_count == 0 then panic else do
      pos ← item_pos m item
      if pos == 0
          then panic
          else if pos == items_count
          then remove_last m item pos items_count
          else do
            last_item ← read (item_key keccak m items_count)
            if is_empty last_item then panic else remove_middle m item pos items_count last_item

  -- The body of the loop: an item that is not there is a panic.
  abbrev pub place : (List Bytes → M (List Bytes)) → List Bytes → ℕ → Bytes → M (List Bytes)
  place next result i item = if is_empty item then panic else next (set result i item)

  -- for idx := start_idx + 1; idx <= end_idx && idx <= items_count; idx++; the rounds are fuel.
  unfoldable pub get_items_loop :
      (rounds : ℕ)
      → IterableMap keccak
      → (start_idx end_idx items_count idx : ℕ) → List Bytes
      → M (List Bytes)
  get_items_loop zero m start_idx end_idx items_count idx result = pure result
  get_items_loop (suc rounds) m start_idx end_idx items_count idx result =
      let next =
        λ (r : List Bytes). get_items_loop rounds m start_idx end_idx items_count (idx + 1) r in
      if leb idx end_idx && leb idx items_count
      then read (item_key keccak m idx) >>= place next result (idx - start_idx - 1)
      else pure result

  -- `make([][]byte, n)` and the loop
  unfoldable pub get_batch :
      IterableMap keccak
      → (start_idx end_idx items_count n : ℕ) → (end : Bool) → M (List Bytes × Bool)
  get_batch m start_idx end_idx items_count n end =
      get_items_loop items_count m start_idx end_idx items_count (start_idx + 1) (replicate n [])
      >>= λ result. pure (result, end)

  unfoldable pub get_items : IterableMap keccak → (start_idx count : ℕ) → M (List Bytes × Bool)
  get_items m start_idx count = do
    items_count ← get_count m
    let end_idx = (start_idx + count) % 2 ^ 32
    if items_count == 0 || leb items_count start_idx
        then pure ([], true)
        else if leb items_count end_idx
        then get_batch m start_idx end_idx items_count (items_count - start_idx) true
        else get_batch m start_idx end_idx items_count count false

  -- `AddressesIMap` keeps the bytes of addresses; an address here is its 20 bytes.
  unfoldable pub bytes_to_address : Bytes → Bytes
  bytes_to_address b =
      if ltb 20 (length b) then drop (length b - 20) b else replicate (20 - length b) 0 ++ b

  unfoldable pub get_accounts : IterableMap keccak → (batch count : ℕ) → M (List Bytes × Bool)
  get_accounts m batch count = do
    (items, end) ← get_items m (batch * count % 2 ^ 32) count
    pure (map bytes_to_address items, end)

  unfoldable pub get_all_accounts : IterableMap keccak → M (List Bytes)
  get_all_accounts m = do
    count ← get_count m
    (items, end) ← get_items m 0 count
    pure (map bytes_to_address items)

  -- `IdsIMap` keeps numbers of 64 bits.
  unfoldable pub id_exists : IterableMap keccak → ℕ → M Bool
  id_exists m id = item_exists m (uint64_to_bytes id)

  unfoldable pub create_id : IterableMap keccak → ℕ → M ℕ
  create_id m id = create_item m (uint64_to_bytes id)

  unfoldable pub remove_id : IterableMap keccak → ℕ → M ℕ
  remove_id m id = remove_item m (uint64_to_bytes id)

  unfoldable pub decode_ids : List Bytes → M (List ℕ)
  decode_ids [] = pure []
  decode_ids (b ∷ bs) = do id ← decoded (bytes_to_uint64 b); ids ← decode_ids bs; pure (id ∷ ids)

  unfoldable pub get_ids_from_idx : IterableMap keccak → (start_idx count : ℕ) → M (List ℕ × Bool)
  get_ids_from_idx m start_idx count = do
    (items, end) ← get_items m start_idx count
    ids ← decode_ids items
    pure (ids, end)

  unfoldable pub get_all_ids : IterableMap keccak → M (List ℕ)
  get_all_ids m = do count ← get_count m; (items, end) ← get_items m 0 count; decode_ids items
