-- ===== src/Vm/Laws/Slices.antt =====
-- The bytes of the slices that the machine reads and writes (getData and Memory of core/vm).
use taraxa_evm.Prelude.{
  ℕ, zero, suc, ◌+◌, ◌-◌, ◌≤◌, ◌<◌, ◌≡◌, refl, Bytes, [], ◌∷◌, length, take, arith, if◌then◌else◌,
  ltb, leb, ◌&&◌,
}
use taraxa_evm.Vm.Env.{u64_mod}
use taraxa_evm.Vm.Machine.{Machine, Outcome, ok, err, fault}
use taraxa_evm.Vm.Memory.{overwrite, write_at, mem_set, mem_len}

-- A byte, or 0 past the end.
abbrev pub byte_or_zero : Bytes → ℕ → ℕ
byte_or_zero [] i = 0
byte_or_zero (b ∷ bs) zero = b
byte_or_zero (b ∷ bs) (suc i) = byte_or_zero bs i

byte-take : (n : ℕ) (xs : Bytes) (i : ℕ) → i < n → byte_or_zero (take n xs) i ≡ byte_or_zero xs i
byte-take zero xs i h = absurd (omega arith)
byte-take (suc n) [] i h = refl
byte-take (suc n) (x ∷ xs) zero h = refl
byte-take (suc n) (x ∷ xs) (suc i) h = byte-take n xs i (omega arith)

-- A prefix has the asked length, or that of the whole.
length-take-le :
    (n : ℕ) (xs : Bytes) → length (take n xs) ≡ (if ltb n (length xs) then n else length xs)
length-take-le zero [] = ground arith
length-take-le zero (x ∷ xs) = ground arith
length-take-le (suc n) [] = ground arith
length-take-le (suc n) (x ∷ xs) = ground (arith, length-take-le n xs)

-- Where a slice ends.
abbrev clamp : ℕ → ℕ → ℕ
clamp limit n = if ltb limit n then limit else n

-- What a write of a value to a range of the memory leaves: the range takes as much of the value as
-- there is room for, and a shorter value leaves the rest of the range as it was.
abbrev pub written : (offset size : ℕ) → (value store : Bytes) → ℕ → ℕ
written offset size value store i =
    if leb offset i && (ltb i (offset + size) && ltb i (offset + length value))
    then byte_or_zero value (i - offset)
    else byte_or_zero store i

abbrev pub Writes :
    {W A : Type 0} → (offset size : ℕ) → Bytes → (i : ℕ) → Machine W → Outcome W A → Type 0
Writes offset size value i m (ok a m') =
    (mem_len m' ≡ mem_len m)
    × (byte_or_zero m'.mem.store i ≡ written offset size value m.mem.store i)
Writes offset size value i m (err e m') = 1 ≤ 0
Writes offset size value i m (fault f) = 1 ≤ 0

overwrite-byte :
    (xs vs : Bytes) (i : ℕ)
    → length vs ≤ length xs
    → (length (overwrite vs xs) ≡ length xs)
      × (byte_or_zero (overwrite vs xs) i
          ≡ (if ltb i (length vs) then byte_or_zero vs i else byte_or_zero xs i))
unfolding overwrite
overwrite-byte [] [] i h = ground arith
overwrite-byte [] (v ∷ vs) i h = absurd (omega arith)
overwrite-byte (x ∷ xs) [] i h = ground arith
overwrite-byte (x ∷ xs) (v ∷ vs) zero h = ground (arith, overwrite-byte xs vs 0)
overwrite-byte (x ∷ xs) (v ∷ vs) (suc i) h = ground (arith, overwrite-byte xs vs i)

write_at-byte :
    (offset : ℕ) (vs xs : Bytes) (i : ℕ)
    → offset + length vs ≤ length xs
    → (length (write_at offset vs xs) ≡ length xs)
      × (byte_or_zero (write_at offset vs xs) i ≡ written offset (length vs) vs xs i)
unfolding write_at
write_at-byte zero vs xs i h = ground (arith, overwrite-byte xs vs i)
write_at-byte (suc offset) vs [] i h = absurd (omega arith)
write_at-byte (suc offset) vs (x ∷ xs) zero h = ground (arith, write_at-byte offset vs xs 0)
write_at-byte (suc offset) vs (x ∷ xs) (suc i) h = ground (arith, write_at-byte offset vs xs i)

-- `Memory.Set` of a range within the memory, which is shorter than 2 ^ 64, succeeds for a value of any
-- length: the memory keeps its length, the range takes the bytes of the value that fit into it, and
-- all other bytes stay, those of the range past the end of the value too.
pub mem_set-Writes :
    {W : Type 0} (offset size : ℕ) (value : Bytes) (i : ℕ) (m : Machine W)
    → offset + size ≤ mem_len m
    → mem_len m < u64_mod
    → Writes offset size value i m (mem_set offset size value m)
unfolding mem_set
mem_set-Writes offset size value i m inside word = ground (
  arith,
  inside,
  word,
  length-take-le size value,
  write_at-byte offset (take size value) m.mem.store i,
  byte-take size value (i - offset),
)
