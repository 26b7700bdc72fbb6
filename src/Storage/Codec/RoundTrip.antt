-- ===== src/Storage/Codec/RoundTrip.antt =====
-- The little-endian and the big-endian numbers of Storage/Codec, and their decoding.
use taraxa_evm.Prelude.{
  ℕ, zero, suc, ◌+◌, ◌*◌, ◌/◌, ◌%◌, ◌^◌, ◌<◌, ◌≡◌, refl, ap, some, [], ◌∷◌, Bytes, length, be,
  arith,
}
use native.Mathlib.Nat.{pow-suc}
use taraxa_evm.Storage.Codec.{
  le_bytes, le_value, uint32_to_bytes, bytes_to_uint32, uint64_to_bytes, bytes_to_uint64, be_bytes,
  enc_b_endian_64, dec_b_endian_64, enc_b_endian_compact_64, dec_b_endian_compact_64, size_in_bytes,
}

abbrev pub AllBytes : Bytes → Type 0
AllBytes [] = Unit {0}
AllBytes (b ∷ bs) = (b < 256) × AllBytes bs

le_value-le_bytes : (n v : ℕ) → v < 256 ^ n → le_value n (le_bytes n v) ≡ some v
unfolding le_value le_bytes
le_value-le_bytes zero v h = ap some (omega arith)
le_value-le_bytes (suc n) v h =
    rw (le_value-le_bytes n (v / 256) (omega (arith, pow-suc 256 n))) (ap some (omega arith))

le_value_ok :
    (n : ℕ) (bs : Bytes)
    → length bs ≡ n
    → AllBytes bs
    → (v : ℕ) × (le_value n bs ≡ some v) × (le_bytes n v ≡ bs)
unfolding le_value le_bytes
le_value_ok zero [] h a = (0, refl, refl)
le_value_ok zero (b ∷ bs) h a = absurd (omega arith)
le_value_ok (suc n) [] h a = absurd (omega arith)
le_value_ok (suc n) (b ∷ bs) h a =
    let (v, e, r) = le_value_ok n bs (omega arith) a.1 in
    let low : (b + 256 * v) % 256 ≡ b = omega arith in
    let high : (b + 256 * v) / 256 ≡ v = omega arith in
    (b + 256 * v, rw e refl, rw (low, high, r) refl)

pub bytes_to_uint32-uint32_to_bytes :
    (v : ℕ) → v < 2 ^ 32 → bytes_to_uint32 (uint32_to_bytes v) ≡ some v
unfolding bytes_to_uint32 uint32_to_bytes
bytes_to_uint32-uint32_to_bytes v h = le_value-le_bytes 4 v (omega arith)

-- A number of 64 bits is encoded in eight bytes, lowest first, and decoded to itself; and eight
-- bytes are decoded to a number whose encoding they are.
pub uint64_round_trip :
    (n : ℕ) (bs : Bytes)
    → n < 2 ^ 64
    → length bs ≡ 8
    → AllBytes bs
    → (bytes_to_uint64 (uint64_to_bytes n) ≡ some n)
      × ((v : ℕ) × (bytes_to_uint64 bs ≡ some v) × (uint64_to_bytes v ≡ bs))
unfolding bytes_to_uint64 uint64_to_bytes
uint64_round_trip n bs h k a = (le_value-le_bytes 8 n (omega arith), le_value_ok 8 bs k a)

length-be_bytes : (n v : ℕ) → length (be_bytes n v) ≡ n
unfolding be_bytes
length-be_bytes zero v = refl
length-be_bytes (suc n) v = omega (arith, length-be_bytes n v)

module _ (v : ℕ) where
  be_1 : v < 2 ^ 8 → be (be_bytes 1 v) ≡ v
  unfolding be_bytes
  be_1 h = omega arith

  be_2 : v < 2 ^ 16 → be (be_bytes 2 v) ≡ v
  unfolding be_bytes
  be_2 h = omega arith

  be_3 : v < 2 ^ 24 → be (be_bytes 3 v) ≡ v
  unfolding be_bytes
  be_3 h = omega arith

  be_4 : v < 2 ^ 32 → be (be_bytes 4 v) ≡ v
  unfolding be_bytes
  be_4 h = omega arith

  be_5 : v < 2 ^ 40 → be (be_bytes 5 v) ≡ v
  unfolding be_bytes
  be_5 h = omega arith

  be_6 : v < 2 ^ 48 → be (be_bytes 6 v) ≡ v
  unfolding be_bytes
  be_6 h = omega arith

  be_7 : v < 2 ^ 56 → be (be_bytes 7 v) ≡ v
  unfolding be_bytes
  be_7 h = omega arith

  be_8 : v < 2 ^ 64 → be (be_bytes 8 v) ≡ v
  unfolding be_bytes
  be_8 h = omega arith

-- Every number of 64 bits decodes from its eight big-endian bytes, and from its compact encoding,
-- which has `size_in_bytes` bytes.
pub b_endian_round_trip :
    (v : ℕ)
    → v < 2 ^ 64
    → (dec_b_endian_64 (enc_b_endian_64 v) ≡ some v)
      × (dec_b_endian_compact_64 (enc_b_endian_compact_64 v) ≡ some v)
      × (length (enc_b_endian_compact_64 v) ≡ size_in_bytes v)
unfolding dec_b_endian_64 enc_b_endian_64 dec_b_endian_compact_64 enc_b_endian_compact_64
    size_in_bytes
b_endian_round_trip v h = (
  ground (arith, length-be_bytes 8 v, be_8 v),
  ground (
    arith,
    length-be_bytes 1 v,
    length-be_bytes 2 v,
    length-be_bytes 3 v,
    length-be_bytes 4 v,
    length-be_bytes 5 v,
    length-be_bytes 6 v,
    length-be_bytes 7 v,
    length-be_bytes 8 v,
    be_1 v,
    be_2 v,
    be_3 v,
    be_4 v,
    be_5 v,
    be_6 v,
    be_7 v,
    be_8 v,
  ),
  ground (
    arith,
    length-be_bytes 1 v,
    length-be_bytes 2 v,
    length-be_bytes 3 v,
    length-be_bytes 4 v,
    length-be_bytes 5 v,
    length-be_bytes 6 v,
    length-be_bytes 7 v,
    length-be_bytes 8 v,
  ),
)
