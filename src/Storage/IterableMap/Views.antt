-- ===== src/Storage/IterableMap/Views.antt =====
-- The reads and writes of a collection on the contents that its storage stands for.
use taraxa_evm.Prelude.{ℕ, ◌^◌, ◌<◌, ◌≡◌, refl, ap, ◌∙◌, if◌then◌else◌, some, Bytes}
use taraxa_evm.Storage.Codec.{le_bytes, uint32_to_bytes}
use taraxa_evm.Storage.Codec.RoundTrip.{bytes_to_uint32-uint32_to_bytes}
use taraxa_evm.Storage.Interface.{Keccak, Stor}
use taraxa_evm.Storage.Wrapper.{assign}
use taraxa_evm.Storage.IterableMap.{IterableMap, pos_key, uint32_of, get_count, item_pos}

pub uint32_of-uint32_to_bytes : (v : ℕ) → v < 2 ^ 32 → uint32_of (uint32_to_bytes v) ≡ some v
unfolding uint32_to_bytes le_bytes
uint32_of-uint32_to_bytes v h = bytes_to_uint32-uint32_to_bytes v h

module _ (keccak : Keccak) (stor : Stor keccak) where
  open keccak use {Hash, same}

  -- The storage is coherent and stands for the contents `f`.
  abbrev pub Shows : stor.State → (Hash → Bytes) → Type 0
  Shows s f = stor.IsCoherent s × ((k : Hash) → stor.view s k ≡ f k)

  pub Shows-read :
      {s : stor.State} {f : Hash → Bytes} (k : Hash)
      → Shows s f
      → ((stor.get k s).0 ≡ f k) × Shows (stor.get k s).1 f
  Shows-read {s} k h = (
    stor.get_value k s h.0 ∙ h.1 k,
    (stor.get-IsCoherent k s h.0, λ j. stor.get_view k s j h.0 ∙ h.1 j),
  )

  pub Shows-write :
      {s : stor.State} {f : Hash → Bytes} (k : Hash) (v : Bytes)
      → Shows s f
      → Shows (stor.put k v s) (assign keccak k v f)
  Shows-write {s} k v h = (
    stor.put-IsCoherent k v s h.0,
    λ j. stor.put_view k v s j h.0 ∙ ap (λ r. if same k j then v else r) (h.1 j),
  )

  -- A read of a number.
  pub Shows-get_count :
      (m : IterableMap keccak) {s : stor.State} {f : Hash → Bytes} {n : ℕ}
      → Shows s f
      → uint32_of (f m.items_count_storage_key) ≡ some n
      → (s' : stor.State) × (get_count keccak stor m s ≡ some (n, s')) × Shows s' f
  unfolding get_count
  Shows-get_count m {s} h e =
      let (v, g) = Shows-read m.items_count_storage_key h in
      ((stor.get m.items_count_storage_key s).1, rw (v, e) refl, g)

  pub Shows-item_pos :
      (m : IterableMap keccak) (item : Bytes) {s : stor.State} {f : Hash → Bytes} {n : ℕ}
      → Shows s f
      → uint32_of (f (pos_key keccak m item)) ≡ some n
      → (s' : stor.State) × (item_pos keccak stor m item s ≡ some (n, s')) × Shows s' f
  unfolding item_pos
  Shows-item_pos m item {s} h e =
      let (v, g) = Shows-read (pos_key keccak m item) h in
      ((stor.get (pos_key keccak m item) s).1, rw (v, e) refl, g)
