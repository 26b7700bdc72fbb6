-- ===== src/Storage/Codec.antt =====
-- Numbers as bytes: `uint32ToBytes` and `bytesToUint32` of storage/iterable_map.go, `Uint64ToBytes`
-- and `BytesToUint64` of storage/ids_imap.go, and the big-endian encodings of taraxa/util/bin.
-- A byte is a number below 256, so `|` of shifted bytes is their sum; `none` is a panic.
pub mod RoundTrip
use taraxa_evm.Prelude.{
  ℕ, zero, suc, ◌+◌, ◌*◌, ◌/◌, ◌%◌, ◌^◌, ◌==◌, ltb, if◌then◌else◌, Bool, Option, none, some, List,
  [], ◌∷◌, Bytes, length, be,
}
use mathlib.Core.Option

-- for i := 0; i < n; i++ { r[i] = byte((val >> (8 * i)) & 0xff) }
unfoldable pub le_bytes : ℕ → ℕ → Bytes
le_bytes zero val = []
le_bytes (suc n) val = val % 256 ∷ le_bytes n (val / 256)

-- for i := 0; i < n; i++ { r |= uint(val[i]) << (8 * i) }; an index out of range panics.
unfoldable pub le_value : ℕ → Bytes → Option ℕ
le_value zero val = some 0
le_value (suc n) [] = none
le_value (suc n) (b ∷ bs) = Option.map (λ r. b + 256 * r) (le_value n bs)

unfoldable pub uint32_to_bytes : ℕ → Bytes
uint32_to_bytes val = le_bytes 4 val

unfoldable pub bytes_to_uint32 : Bytes → Option ℕ
bytes_to_uint32 val = le_value 4 val

unfoldable pub uint64_to_bytes : ℕ → Bytes
uint64_to_bytes val = le_bytes 8 val

unfoldable pub bytes_to_uint64 : Bytes → Option ℕ
bytes_to_uint64 val = le_value 8 val

-- `[]byte{byte(v >> 8 * (n - 1)), ..., byte(v >> 8), byte(v)}`
unfoldable pub be_bytes : ℕ → ℕ → Bytes
be_bytes zero v = []
be_bytes (suc n) v = v / 256 ^ n % 256 ∷ be_bytes n v

unfoldable pub enc_b_endian_64 : ℕ → Bytes
enc_b_endian_64 v = be_bytes 8 v

unfoldable pub dec_b_endian_64 : Bytes → Option ℕ
dec_b_endian_64 b = if length b == 8 then some (be b) else none

unfoldable pub size_in_bytes : ℕ → ℕ
size_in_bytes i =
    if ltb i (2 ^ 8)
    then 1
    else if ltb i (2 ^ 16)
    then 2
    else if ltb i (2 ^ 24)
    then 3
    else if ltb i (2 ^ 32)
    then 4
    else if ltb i (2 ^ 40)
    then 5
    else if ltb i (2 ^ 48)
    then 6
    else if ltb i (2 ^ 56)
    then 7
    else 8

unfoldable pub enc_b_endian_compact_64 : ℕ → Bytes
enc_b_endian_compact_64 i =
    if ltb i (2 ^ 8)
    then be_bytes 1 i
    else if ltb i (2 ^ 16)
    then be_bytes 2 i
    else if ltb i (2 ^ 24)
    then be_bytes 3 i
    else if ltb i (2 ^ 32)
    then be_bytes 4 i
    else if ltb i (2 ^ 40)
    then be_bytes 5 i
    else if ltb i (2 ^ 48)
    then be_bytes 6 i
    else if ltb i (2 ^ 56)
    then be_bytes 7 i
    else be_bytes 8 i

-- The switch on the length; more than eight bytes panic.
unfoldable pub dec_b_endian_compact_64 : Bytes → Option ℕ
dec_b_endian_compact_64 b = if ltb 8 (length b) then none else some (be b)
