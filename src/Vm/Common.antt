-- ===== src/Vm/Common.antt =====
-- Machine integers and byte arrays (core/vm/common.go, common/math/integer.go, common/bytes.go).
use taraxa_evm.Prelude.{
  ℕ, ◌+◌, ◌-◌, ◌*◌, ◌/◌, ◌%◌, Bool, false, ◌||◌, ◌++◌, Bytes, length, take, drop, replicate, ltb,
  leb, ◌==◌, Option, none, some, if◌then◌else◌, not,
}
use taraxa_evm.Vm.Env.{Uint256, u64_mod, max_uint64}

-- The result and whether it overflowed.
abbrev pub safe_add : ℕ → ℕ → ℕ × Bool
safe_add x y = ((x + y) % u64_mod, ltb (max_uint64 - x) y)

abbrev pub safe_mul : ℕ → ℕ → ℕ × Bool
safe_mul x y =
    if (x == 0) || (y == 0) then (0, false) else ((x * y) % u64_mod, ltb (max_uint64 / x) y)

-- Ceiling of the division by the size of a word.
unfoldable pub to_word_size : ℕ → ℕ
to_word_size size =
    if ltb (max_uint64 - 31) size then max_uint64 / 32 + 1 else (size + 31) % u64_mod / 32

-- The first `l` bytes of the slice, where `l` is at least its length: zeros follow.
unfoldable pub right_pad_bytes : Bytes → ℕ → Bytes
right_pad_bytes slice l =
    if leb l (length slice) then slice else slice ++ replicate (l - length slice) 0

-- `bytes[first:last]`, where Go panics if the bounds are not in order or past the end.
unfoldable pub slice : Bytes → (first last : ℕ) → Option Bytes
slice bytes first last =
    if ltb last first || ltb (length bytes) last
    then none
    else some (take (last - first) (drop first bytes))

unfoldable pub get_data : Bytes → ℕ → ℕ → Option Bytes
get_data bytes start size =
    let first = if ltb (length bytes) start then length bytes else start in
    let last = (first + size) % u64_mod in
    let last' = if ltb (length bytes) last then length bytes else last in
    elim (slice bytes first last') [ none ↦ none | some got ↦ some (right_pad_bytes got size) ]

module _ (u : Uint256) where
  -- The end of a range of the memory, which is 0 for an empty one.
  unfoldable pub calc_mem_size : ℕ → ℕ → ℕ
  calc_mem_size off l = if u.is_zero l then 0 else u.add off l

  -- `Uint64WithOverflow`
  abbrev pub uint64_with_overflow : ℕ → ℕ × Bool
  uint64_with_overflow x = (u.uint64 x, not (u.is_uint64 x))

  unfoldable pub big_max : ℕ → ℕ → ℕ
  big_max x y = if u.lt x y then y else x
