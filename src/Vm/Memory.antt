-- ===== src/Vm/Memory.antt =====
-- The memory of a run (core/vm/memory.go). A slice of it may reach past its length up to its
-- capacity; the buffer is zero there. Lengths are far below 2^63, so an int64 that is negative or
-- overflows is out of the bounds of every slice.
use taraxa_evm.Prelude.{
  ℕ, zero, suc, ◌+◌, ◌-◌, ◌%◌, true, false, ◌||◌, [], ◌∷◌, Bytes, ⊤, length, take, drop, ltb, leb,
  ◌==◌, if◌then◌else◌, set,
}
use taraxa_evm.Vm.Env.{u64_mod}
use taraxa_evm.Vm.Machine.{Machine, Memory, M, ok, fault, slice_bounds}
use taraxa_evm.Vm.Common.{right_pad_bytes}

-- Go's `copy` into the front of a slice: the shorter length counts.
unfoldable pub overwrite : Bytes → Bytes → Bytes
overwrite vs [] = []
overwrite [] (x ∷ xs) = x ∷ xs
overwrite (v ∷ vs) (x ∷ xs) = v ∷ overwrite vs xs

unfoldable pub write_at : ℕ → Bytes → Bytes → Bytes
unfolding overwrite
write_at zero vs xs = overwrite vs xs
write_at (suc i) vs [] = []
write_at (suc i) vs (x ∷ xs) = x ∷ write_at i vs xs

abbrev pub empty_memory : ℕ → Memory
empty_memory offset = record {
  store = [];
  capacity = 0;
  using_pool = true;
  pool_offset = offset;
  last_gas_cost = 0;
}

module _ {W : Type 0} where
  abbrev pub mem_len : Machine W → ℕ
  mem_len m = length m.mem.store

  abbrev pub put_store : Bytes → M W ⊤
  put_store s m = ok tt (record m { mem = record (m.mem) { store = s } })

  unfoldable pub mem_set : ℕ → ℕ → Bytes → M W ⊤
  unfolding write_at
  mem_set offset size value m =
      let last = (offset + size) % u64_mod in
      if ltb 0 size
      then if ltb (mem_len m) last || ltb last offset
        then fault slice_bounds
        else put_store (write_at offset (take size value) m.mem.store) m
      else ok tt m

  unfoldable pub mem_set32 : (bytes32 : ℕ → Bytes) → ℕ → ℕ → M W ⊤
  unfolding write_at
  mem_set32 bytes32 offset val m =
      let last = (offset + 32) % u64_mod in
      if ltb (mem_len m) last || ltb last offset
      then fault slice_bounds
      else put_store (write_at offset (bytes32 val) m.mem.store) m

  -- `GetPtr` and `GetCopy`: what they return differs only in aliasing.
  unfoldable pub get_ptr : ℕ → ℕ → M W Bytes
  unfolding right_pad_bytes
  get_ptr offset size m =
      if size == 0
      then ok [] m
      else if ltb offset (mem_len m) || leb 9223372036854775808 offset
      then if leb (offset + size) m.mem.capacity
        then ok (right_pad_bytes (take size (drop offset m.mem.store)) size) m
        else fault slice_bounds
      else ok [] m

  unfoldable pub mem_copy : ℕ → ℕ → ℕ → M W ⊤
  unfolding write_at right_pad_bytes
  mem_copy dst src len m =
      let last = (src + len) % u64_mod in
      if len == 0
      then ok tt m
      else if ltb (mem_len m) dst || ltb m.mem.capacity last || ltb last src
      then fault slice_bounds
      else put_store
          (write_at dst (right_pad_bytes (take (last - src) (drop src m.mem.store)) (last - src))
            m.mem.store)
          m

  -- `memory.store[i] = b`
  unfoldable pub store_byte : ℕ → ℕ → M W ⊤
  store_byte i b m =
      if ltb i (mem_len m) then put_store (set m.mem.store i b) m else fault slice_bounds

  -- In the pool the slice grows in place; else it moves to a new array.
  unfoldable pub resize : (pool_size : ℕ) → ℕ → M W ⊤
  unfolding right_pad_bytes
  resize pool_size size m =
      if leb size (mem_len m)
      then ok tt m
      else if m.mem.using_pool
      then if leb (m.mem.pool_offset + size) pool_size
        then ok tt (record m {
          mem = record (m.mem) {
            store = right_pad_bytes m.mem.store size;
            capacity = pool_size - m.mem.pool_offset;
          };
          evm = record (m.evm) { reserved = m.mem.pool_offset + size };
        })
        else ok tt (record m {
          mem = record (m.mem) {
            store = right_pad_bytes m.mem.store size;
            capacity = size;
            using_pool = false;
          };
          evm = record (m.evm) { reserved = m.mem.pool_offset };
        })
      else ok tt (record m {
        mem = record (m.mem) { store = right_pad_bytes m.mem.store size; capacity = size };
      })
